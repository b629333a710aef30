-- ===== src/Attestation.antt =====
-- src/services/sev-snp-attestation.service.ts: the attestation report of the machine. The tools, the
-- files and the metadata services are an interface; the logger's calls are left out.
pub mod Output
pub mod Verified
pub mod Tests
use zero_knowledge_aggregato.Base.{
  String, Bool, true, false, ◌||◌, Option, none, some, List, [], ◌∷◌, if◌then◌else◌, Result, ok,
  err, Error, message, Act, pure, throw, lift, ◌>>=◌, ◌>>◌, catch,
}
use zero_knowledge_aggregato.Aggregator.Data.{Symbol, symbol}
use zero_knowledge_aggregato.Aggregator.Symbols.{contains}
use zero_knowledge_aggregato.Attestation.Output.{SevSnpReport, parse_snpguest_output}

pub data Command : Type 0 where
  make_directories : Command
  make_report : Command
  fetch_vcek : Command
  fetch_ca : Command
  verify_attestation : Command
  display_report : Command
  remove_directory : Command
  get_report : Command

-- The machine. `run` executes a command and gives its output, or throws; the probes of Azure and GCP
-- answer no where they fail; the documents of their services, and what the older tool prints, are
-- parsed as they come.
pub record Host : Type 1 where
  pub State : Type 0
  pub sev_snp_set : Bool
  pub has_device : Bool
  pub has_snpguest : Bool
  pub has_get_report : Bool
  pub cpu_info : Option Symbol
  pub request_file : State → Option Symbol
  pub run : Command → Act State Symbol
  pub parse_json : Symbol → Result SevSnpReport
  pub is_azure : State → Bool × State
  pub is_gcp : State → Bool × State
  pub azure_report : Act State SevSnpReport
  pub gcp_report : Act State SevSnpReport

pub record AttestationResult : Type 0 where
  pub verified : Bool
  pub enclave : Bool
  pub sev_snp_enabled : Bool
  pub measurement : Option Symbol
  pub report_data : Option Symbol
  pub platform_version : Option Symbol
  pub vcek_verified : Bool
  pub error_message : Option Error

-- An empty text is none.
abbrev pub truthy_symbol : Option Symbol → Option Symbol
truthy_symbol none = none
truthy_symbol (some []) = none
truthy_symbol (some (c ∷ s)) = some (c ∷ s)

module _ (host : Host) where
  open host use {State}

  abbrev pub check_cpu_info : Option Symbol → Bool
  check_cpu_info none = false
  check_cpu_info (some info) = contains (symbol "sev_snp") info || contains (symbol "sev") info

  unfoldable pub is_sev_snp_available : Bool
  is_sev_snp_available = host.sev_snp_set || host.has_device || check_cpu_info host.cpu_info

  -- Whether a command succeeds, where its failure is only logged.
  abbrev pub succeeded : Result Symbol × State → Result Bool × State
  succeeded (ok out, s) = (ok true, s)
  succeeded (err e, s) = (ok false, s)

  abbrev pub try_run : Command → Act State Bool
  try_run c s = succeeded (host.run c s)

  -- try { m } finally { clean up, whose failure is ignored }
  abbrev pub after_cleanup : {A : Type 0} → Result A × State → Result A × State
  after_cleanup (r, s) = (r, (try_run remove_directory s).1)

  abbrev pub parsed : Bool → Symbol → Act State SevSnpReport
  parsed verified out s =
      (lift (parse_snpguest_output out (host.request_file s)) >>= λ r.
      pure (record r { vcek_verified = verified }))
        s

  abbrev pub make_and_verify : Act State SevSnpReport
  make_and_verify = host.run make_report >>= λ a. try_run fetch_vcek >>= λ b.
      try_run fetch_ca >>= λ c. try_run verify_attestation >>= λ verified.
      host.run display_report >>= λ out. parsed verified out

  unfoldable pub get_snpguest_attestation : Act State SevSnpReport
  get_snpguest_attestation =
      host.run make_directories >>= λ made. λ s. after_cleanup (make_and_verify s)

  abbrev pub no_tools : Error
  no_tools = message "No SEV-SNP guest tools found"

  abbrev pub legacy_attestation : Act State SevSnpReport
  legacy_attestation =
      if host.has_get_report
      then catch (host.run get_report >>= λ out. lift (host.parse_json out)) (λ e. throw no_tools)
      else throw no_tools

  unfoldable pub get_sev_guest_attestation : Act State SevSnpReport
  get_sev_guest_attestation =
      if host.has_snpguest
      then catch (get_snpguest_attestation) (λ e. legacy_attestation)
      else legacy_attestation

  abbrev pub from_gcp : Bool × State → Result SevSnpReport × State
  from_gcp (true, s) = host.gcp_report s
  from_gcp (false, s) = (err (message "No SEV-SNP attestation method available"), s)

  abbrev pub from_azure : Bool × State → Result SevSnpReport × State
  from_azure (true, s) = host.azure_report s
  from_azure (false, s) = from_gcp (host.is_gcp s)

  unfoldable pub fetch_attestation : Act State SevSnpReport
  unfolding get_sev_guest_attestation
  fetch_attestation =
      if host.has_device then get_sev_guest_attestation else (λ s. from_azure (host.is_azure s))

  abbrev pub create_failure_result : Error → AttestationResult
  create_failure_result e = record {
    verified = false;
    enclave = false;
    sev_snp_enabled = is_sev_snp_available;
    measurement = none;
    report_data = none;
    platform_version = none;
    vcek_verified = false;
    error_message = some e;
  }

  abbrev pub result_of : SevSnpReport → AttestationResult
  result_of r = record {
    verified = r.vcek_verified;
    enclave = true;
    sev_snp_enabled = true;
    measurement = some r.measurement;
    report_data = r.report_data;
    platform_version = truthy_symbol r.platform_version;
    vcek_verified = r.vcek_verified;
    error_message = none;
  }

  abbrev pub answer : Result SevSnpReport × State → AttestationResult × State
  answer (ok r, s) = (result_of r, s)
  answer (err e, s) = (create_failure_result e, s)

  unfoldable pub get_attestation_report : State → AttestationResult × State
  get_attestation_report s =
      if is_sev_snp_available
      then answer (fetch_attestation s)
      else (create_failure_result (message "SEV-SNP hardware not available"), s)
