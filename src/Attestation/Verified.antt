-- ===== src/Attestation/Verified.antt =====
-- What a verified attestation rests on.
use zero_knowledge_aggregato.Base.{◌≤◌, ◌≡◌, true, false, length, ok}
use zero_knowledge_aggregato.Aggregator.Data.{Symbol}
use zero_knowledge_aggregato.Attestation.Output.{SevSnpReport, parse_snpguest_output}
use zero_knowledge_aggregato.Attestation.{
  Host, Command, make_directories, make_report, fetch_vcek, fetch_ca, verify_attestation,
  display_report, get_report,
}

module _ (host : Host) where
  open host use {State}

  -- Where a command leaves the machine.
  abbrev pub after : Command → State → State
  after c s = (host.run c s).1

  abbrev pub Succeeds : Command → State → Type 0
  Succeeds c s = (out : Symbol) × ((host.run c s).0 ≡ ok out)

abbrev pub at_report : (host : Host) → host.State → host.State
at_report host s = after host make_directories s

-- The machine when the certificates were asked for, after the report was made.
abbrev pub at_verification : (host : Host) → host.State → host.State
at_verification host s =
    after host fetch_ca (after host fetch_vcek (after host make_report (at_report host s)))

abbrev pub at_display : (host : Host) → host.State → host.State
at_display host s = after host verify_attestation (at_verification host s)

-- A run of the tool from `s`: it made the report, then verified it against its certificates, then
-- displayed the text from which the answered report was read.
pub record Checked (host : Host) (s : host.State) (r : SevSnpReport) : Type 0 where
  pub reported : Succeeds host make_report (at_report host s)
  pub verified : Succeeds host verify_attestation (at_verification host s)
  pub output : Symbol
  pub displayed : (host.run display_report (at_display host s)).0 ≡ ok output
  pub shown : SevSnpReport
  pub read :
      parse_snpguest_output output
        (host.request_file (after host display_report (at_display host s)))
      ≡ ok shown
  pub answered : r ≡ record shown { vcek_verified = true }
  pub measured : 1 ≤ length r.measurement

-- Why a report counts as verified: the tool checked it, or a document says so that is taken as it
-- comes, from the older tool, from Azure or from GCP.
pub data Verified (host : Host) (s : host.State) (r : SevSnpReport) : Type 0 where
  checked : host.has_device ≡ true → host.has_snpguest ≡ true → Checked host s r → Verified host s r
  by_tool :
      (w : host.State) (out : Symbol)
      → host.has_device ≡ true
      → host.has_get_report ≡ true
      → (host.run get_report w).0 ≡ ok out
      → host.parse_json out ≡ ok r
      → Verified host s r
  by_azure :
      host.has_device ≡ false
      → (host.is_azure s).0 ≡ true
      → (host.azure_report (host.is_azure s).1).0 ≡ ok r
      → Verified host s r
  by_gcp :
      host.has_device ≡ false
      → (host.is_gcp (host.is_azure s).1).0 ≡ true
      → (host.gcp_report (host.is_gcp (host.is_azure s).1).1).0 ≡ ok r
      → Verified host s r
