-- ===== src/Logger/Metadata.antt =====
-- src/utils/secure-enclave-logger.ts, `filterSensitiveData`: values of JSON and their filtering.
-- Names of fields are lists of character codes.
use Prim.Native.String.{◌++◌}
use zero_knowledge_aggregato.Base.{String, Bool, true, false, not, ◌||◌, str_eq, if◌then◌else◌}
use zero_knowledge_aggregato.Aggregator.Data.{Symbol}
use zero_knowledge_aggregato.Aggregator.Symbols.{same_symbol}

-- `absent` is null or undefined; a number stands for its text.
mutual
  pub data Value : Type 0 where
    absent : Value
    text number : String → Value
    boolean : Bool → Value
    arr : Items → Value
    obj : Fields → Value

  pub data Items : Type 0 where
    nil : Items
    item : Value → Items → Items

  pub data Fields : Type 0 where
    end : Fields
    field : Symbol → Value → Fields → Fields

abbrev pub redacted : Value
redacted = text "[REDACTED]"

-- Whether a condition takes the value as true.
abbrev pub is_truthy : Value → Bool
is_truthy absent = false
is_truthy (text s) = not (str_eq s "")
is_truthy (number s) = not (str_eq s "0" || str_eq s "-0" || str_eq s "NaN")
is_truthy (boolean b) = b
is_truthy (arr xs) = true
is_truthy (obj fs) = true

-- `String(value)`: the items of an array are joined by commas, with nothing for one that is absent,
-- and an object gives the same text whatever it holds.
abbrev pub unless_absent : Value → String → String
unless_absent absent t = ""
unless_absent v t = t

abbrev mutual
  pub string_of : Value → String
  string_of absent = "null"
  string_of (text s) = s
  string_of (number s) = s
  string_of (boolean b) = if b then "true" else "false"
  string_of (arr xs) = joined xs
  string_of (obj fs) = "[object Object]"

  pub joined : Items → String
  joined nil = ""
  joined (item v nil) = unless_absent v (string_of v)
  joined (item v (item w rest)) = unless_absent v (string_of v) ++ "," ++ joined (item w rest)

-- `{ ...metadata }` with one property set.
abbrev pub set_field : Symbol → Value → Fields → Fields
set_field k v end = field k v end
set_field k v (field j w rest) =
    if same_symbol j k then field j v rest else field j w (set_field k v rest)

module _ (sensitive : Symbol → Bool) where
  unfoldable mutual
    pub filter_sensitive_data : Value → Value
    filter_sensitive_data absent = absent
    filter_sensitive_data (text s) = text s
    filter_sensitive_data (number s) = number s
    filter_sensitive_data (boolean b) = boolean b
    filter_sensitive_data (arr xs) = arr (filter_items xs)
    filter_sensitive_data (obj fs) = obj (filter_fields fs)

    pub filter_items : Items → Items
    filter_items nil = nil
    filter_items (item v rest) = item (filter_sensitive_data v) (filter_items rest)

    pub filter_fields : Fields → Fields
    filter_fields end = end
    filter_fields (field k v rest) =
        let kept = filter_sensitive_data v in
        field k (if sensitive k then redacted else kept) (filter_fields rest)
