-- ===== src/Attestation/Tests.antt =====
-- The output of the tool, and a machine on which its verification succeeds.
use zero_knowledge_aggregato.Base.{◌≡◌, refl, true, false, none, some, ok, err, message}
use zero_knowledge_aggregato.Aggregator.Data.{Symbol, symbol}
use zero_knowledge_aggregato.Attestation.Output.{SevSnpReport, parse_snpguest_output}
use zero_knowledge_aggregato.Attestation.{Host}
use zero_knowledge_aggregato.Attestation.Verified.{Verified}

abbrev displayed : Symbol
displayed =
    symbol
      "Version: 2\nMeasurement:\n01 ab 3C\n04 05 06\nReport Data:\n07 08\nSignature:\n R:\n 09 10\n"

abbrev report : SevSnpReport
report = record {
  measurement = symbol "01ab3C040506";
  report_data = some (symbol "0708");
  chip_id = none;
  signature = symbol "0910";
  platform_version = none;
  vcek_verified = false;
}

read : parse_snpguest_output displayed none ≡ ok report
unfolding parse_snpguest_output
read = refl

unmeasured :
    parse_snpguest_output (symbol "Version: 2") none
    ≡ err (message "Failed to parse measurement from snpguest output")
unfolding parse_snpguest_output
unmeasured = refl

abbrev machine : Host
machine = record {
  State = Unit {0};
  sev_snp_set = false;
  has_device = true;
  has_snpguest = true;
  has_get_report = false;
  cpu_info = none;
  request_file = λ s. none;
  run = λ c s. (ok displayed, s);
  parse_json = λ out. err (message "no document");
  is_azure = λ s. (false, s);
  is_gcp = λ s. (false, s);
  azure_report = λ s. (err (message "no document"), s);
  gcp_report = λ s. (err (message "no document"), s);
}
