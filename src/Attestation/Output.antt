-- ===== src/Attestation/Output.antt =====
-- src/services/sev-snp-attestation.service.ts, `parseSnpguestOutput`: the report that snpguest displays.
-- The numbers of the version, the guest and the policy, which nothing reads, are left out.
use zero_knowledge_aggregato.Base.{
  ℕ, String, Bool, true, false, ◌&&◌, ◌||◌, not, Option, none, some, List, [], ◌∷◌, ◌++◌, keep, leb,
  ◌==◌, if◌then◌else◌, Result, ok, err, message,
}
use zero_knowledge_aggregato.Aggregator.Data.{Symbol, symbol}
use zero_knowledge_aggregato.Aggregator.Symbols.{is_digit, starts_with, contains}
use zero_knowledge_aggregato.Logger.Patterns.{to_lower}

-- A text that is empty counts as missing.
pub record SevSnpReport : Type 0 where
  pub measurement : Symbol
  pub report_data : Option Symbol
  pub chip_id : Option Symbol
  pub signature : Symbol
  pub platform_version : Option Symbol
  pub vcek_verified : Bool

pub data Field : Type 0 where
  no_field : Field
  measurement : Field
  report_data : Field
  chip_id : Field
  signature_r : Field
  signature_s : Field

pub record Parsing : Type 0 where
  pub report : SevSnpReport
  pub current_field : Field
  pub hex_buffer : List Symbol

abbrev pub is_space : ℕ → Bool
is_space c = (c == 32) || (leb 9 c && leb c 13) || (c == 160)

abbrev pub is_hex_unit : ℕ → Bool
is_hex_unit c = is_digit c || (leb b'a' (to_lower c) && leb (to_lower c) b'f')

-- `output.split('\n')`
abbrev pub cons_unit : ℕ → List Symbol → List Symbol
cons_unit c [] = (c ∷ []) ∷ []
cons_unit c (l ∷ ls) = (c ∷ l) ∷ ls

abbrev pub split_lines : Symbol → List Symbol
split_lines [] = [] ∷ []
split_lines (c ∷ s) = let rest = split_lines s in if c == 10 then [] ∷ rest else cons_unit c rest

abbrev pub drop_spaces : Symbol → Symbol
drop_spaces [] = []
drop_spaces (c ∷ s) = let rest = drop_spaces s in if is_space c then rest else c ∷ s

abbrev pub reverse_onto : Symbol → Symbol → Symbol
reverse_onto acc [] = acc
reverse_onto acc (c ∷ s) = reverse_onto (c ∷ acc) s

abbrev pub trim : Symbol → Symbol
trim s = reverse_onto [] (drop_spaces (reverse_onto [] (drop_spaces s)))

-- Two digits, a space or more, and two digits.
abbrev pub two_digits : Symbol → Bool
two_digits [] = false
two_digits (c ∷ []) = false
two_digits (c ∷ d ∷ s) = is_hex_unit c && is_hex_unit d

abbrev pub spaced_digits : Symbol → Bool
spaced_digits [] = false
spaced_digits (c ∷ s) = is_space c && two_digits (drop_spaces s)

abbrev pub is_hex_line : Symbol → Bool
is_hex_line [] = false
is_hex_line (c ∷ []) = false
is_hex_line (c ∷ d ∷ s) = is_hex_unit c && is_hex_unit d && spaced_digits s

abbrev pub joined : List Symbol → Symbol
joined [] = []
joined (l ∷ ls) = l ++ joined ls

abbrev pub set_field : Field → Symbol → SevSnpReport → SevSnpReport
set_field no_field value r = r
set_field measurement value r = record r { measurement = value }
set_field report_data value r = record r { report_data = some value }
set_field chip_id value r = record r { chip_id = some value }
set_field signature_r value r = record r { signature = value }
set_field signature_s value r = r

abbrev pub saved : Field → List Symbol → SevSnpReport → SevSnpReport
saved f [] r = r
saved f (l ∷ ls) r = set_field f (keep (λ c. not (is_space c)) (joined (l ∷ ls))) r

abbrev pub save_hex_buffer : Parsing → Parsing
save_hex_buffer p = record p {
  report = saved p.current_field p.hex_buffer p.report;
  hex_buffer = [];
}

abbrev pub has_field : Field → Bool
has_field no_field = false
has_field measurement = true
has_field report_data = true
has_field chip_id = true
has_field signature_r = true
has_field signature_s = true

abbrev pub begin_field : Field → Parsing → Parsing
begin_field f p = record (save_hex_buffer p) { current_field = f }

abbrev pub begins : String → Symbol → Bool
begins head line = starts_with (symbol head) line

abbrev pub read_header : Symbol → Parsing → Parsing
read_header line p =
    if begins "Version:" line || begins "Guest SVN:" line || begins "Guest Policy" line
    then begin_field no_field p
    else if begins "Measurement:" line
    then begin_field measurement p
    else if begins "Report Data:" line
    then begin_field report_data p
    else if begins "Chip ID:" line
    then begin_field chip_id p
    else if begins "R:" line
    then begin_field signature_r p
    else if begins "S:" line
    then begin_field signature_s p
    else if contains (symbol ":") line && not (is_hex_line line)
    then begin_field no_field p
    else p

abbrev pub read_line : Symbol → Parsing → Parsing
read_line line p =
    if is_hex_line line && has_field p.current_field
    then record p { hex_buffer = p.hex_buffer ++ (line ∷ []) }
    else read_header line p

abbrev pub read_lines : List Symbol → Parsing → Parsing
read_lines [] p = save_hex_buffer p
read_lines (l ∷ ls) p = read_lines ls (read_line (trim l) p)

abbrev pub at_first : Parsing
at_first = record {
  report = record {
    measurement = [];
    report_data = none;
    chip_id = none;
    signature = [];
    platform_version = none;
    vcek_verified = false;
  };
  current_field = no_field;
  hex_buffer = [];
}

-- The request's data, where the file could be read, stand before what is displayed.
abbrev pub with_request : Option Symbol → SevSnpReport → SevSnpReport
with_request none r = r
with_request (some d) r = record r { report_data = some d }

abbrev pub if_measured : Symbol → SevSnpReport → Result SevSnpReport
if_measured [] r = err (message "Failed to parse measurement from snpguest output")
if_measured (c ∷ s) r = ok r

unfoldable pub parse_snpguest_output : Symbol → Option Symbol → Result SevSnpReport
parse_snpguest_output output request =
    let r = with_request request (read_lines (split_lines output) at_first).report in
    if_measured r.measurement r
