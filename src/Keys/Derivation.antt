-- ===== src/Keys/Derivation.antt =====
-- src/services/key-derivation.service.ts. Random bytes are arguments; the attestation report is what
-- the attestation service answered. The logger's calls are left out.
use zero_knowledge_aggregato.Base.{
  String, ◌≡◌, Bool, true, false, ◌&&◌, Option, none, some, [], ◌∷◌, ℕ, take, str_eq, if◌then◌else◌,
  Result, ok, err, Error, message, because, refl, length, ok-injective, ◌⊎◌, inl, inr, Bool-cases,
}
use zero_knowledge_aggregato.Keys.Crypto.{Bytes, Text, Crypto, codes}

-- The fields of AttestationResult that the key services read.
pub record AttestationResult : Type 0 where
  pub verified : Bool
  pub sev_snp_enabled : Bool
  pub measurement : Option String
  pub platform_version : Option Text

abbrev pub key_version : String
key_version = "v1"

abbrev pub hkdf_info : Text
hkdf_info = codes "track-record-enclave-dek"

abbrev pub key_length : ℕ
key_length = 32

pub record WrappedKey : Type 0 where
  pub encrypted_dek : Text
  pub iv : Text
  pub auth_tag : Text
  pub version : String

-- `null` and the empty text are both false.
abbrev pub truthy : Option String → Option String
truthy none = none
truthy (some s) = if str_eq s "" then none else some s

abbrev pub truthy_text : Option Text → Option Text
truthy_text none = none
truthy_text (some []) = none
truthy_text (some (c ∷ s)) = some (c ∷ s)

-- catch (e) { throw new Error(`${prefix}: ${e.message}`) }
abbrev pub rethrow : {A : Type 0} → String → Result A → Result A
rethrow prefix (ok a) = ok a
rethrow prefix (err e) = err (because prefix e)

abbrev pub unverified : Error
unverified = message "SEV-SNP attestation verification failed - cannot derive key"

module _ (crypto : Crypto) where
  open crypto use {
    hkdf, sha256, seal, unseal, utf8, base64, from_base64, hex_string, from_hex_string,
  }

  abbrev pub salt_of : Option Text → Bytes
  salt_of none = []
  salt_of (some version) = utf8 version

  abbrev pub master_key_of : String → Option Text → Bytes
  master_key_of measurement version =
      hkdf (from_hex_string measurement) (salt_of (truthy_text version)) (utf8 hkdf_info) key_length

  abbrev pub derive_from : Bool → Option String → Option Text → Result Bytes
  derive_from true (some measurement) version = ok (master_key_of measurement version)
  derive_from true none version = err unverified
  derive_from false measurement version = err unverified

  unfoldable pub derive_master_key : AttestationResult → Result Bytes
  derive_master_key report =
      rethrow "Key derivation failed"
        (derive_from report.verified (truthy report.measurement) report.platform_version)

  abbrev pub wrapped : Bytes → Bytes × Bytes → WrappedKey
  wrapped iv c = record {
    encrypted_dek = base64 c.0;
    iv = base64 iv;
    auth_tag = base64 c.1;
    version = key_version;
  }

  abbrev pub wrap_result : Bytes → Result (Bytes × Bytes) → Result WrappedKey
  wrap_result iv (ok c) = ok (wrapped iv c)
  wrap_result iv (err e) = err (because "Key wrapping failed" e)

  unfoldable pub wrap_key : Bytes → Bytes → Bytes → Result WrappedKey
  wrap_key iv dek master = wrap_result iv (seal master iv dek)

  -- A different key version is only logged.
  unfoldable pub unwrap_key : WrappedKey → Bytes → Result Bytes
  unwrap_key w master =
      rethrow "Key unwrapping failed"
        (unseal master (from_base64 w.iv) (from_base64 w.encrypted_dek) (from_base64 w.auth_tag))

  unfoldable pub get_master_key_id : Bytes → String
  get_master_key_id master = hex_string (take 8 (sha256 master))

  unfoldable pub is_sev_snp_available : AttestationResult → Bool
  is_sev_snp_available report = report.verified && report.sev_snp_enabled

  wrap_result-eq-ok :
      (iv : Bytes) (r : Result (Bytes × Bytes)) (w : WrappedKey)
      → wrap_result iv r ≡ ok w
      → (c : Bytes × Bytes) × (r ≡ ok c) × (wrapped iv c ≡ w)
  wrap_result-eq-ok iv (ok c) w e = (c, refl, cc)
  wrap_result-eq-ok iv (err x) w e = cc

  -- Unwrapping what was wrapped under the same master key gives back the data encryption key.
  pub unwrap-wrap :
      (iv dek master : Bytes) (w : WrappedKey)
      → wrap_key iv dek master ≡ ok w
      → unwrap_key w master ≡ ok dek
  unfolding wrap_key unwrap_key
  unwrap-wrap iv dek master w e =
      let (c, sealed, same) = wrap_result-eq-ok iv (seal master iv dek) w e in
      rw (
        ← same,
        crypto.from_base64_base64 iv,
        crypto.from_base64_base64 c.0,
        crypto.from_base64_base64 c.1,
        crypto.unseal_seal master iv dek c sealed,
      )

  -- Under a master key of 256 bits, wrapping does not throw.
  pub wrap_key-total :
      (iv dek master : Bytes)
      → length master ≡ 32
      → (w : WrappedKey) × (wrap_key iv dek master ≡ ok w)
  unfolding wrap_key
  wrap_key-total iv dek master e =
      let (c, sealed) = crypto.seal_accepts master iv dek e in (wrapped iv c, rw sealed)

  length-derive_from :
      (v : Bool) (m : Option String) (p : Option Text) (master : Bytes)
      → rethrow "Key derivation failed" (derive_from v m p) ≡ ok master
      → length master ≡ 32
  length-derive_from true (some m) p master e = rw (← ok-injective e) (crypto.hkdf_length _ _ _ _)
  length-derive_from true none p master e = cc
  length-derive_from false m p master e = cc

  -- A derived master key has 256 bits.
  pub derive_master_key-length :
      (report : AttestationResult) (master : Bytes)
      → derive_master_key report ≡ ok master
      → length master ≡ 32
  unfolding derive_master_key
  derive_master_key-length report master e =
      length-derive_from report.verified (truthy report.measurement) report.platform_version master
        e

  -- No key is derived from a report whose verification failed, or that has no measurement.
  pub derive_master_key-unverified :
      (report : AttestationResult)
      → (report.verified ≡ false) ⊎ (truthy report.measurement ≡ none)
      → derive_master_key report ≡ err (because "Key derivation failed" unverified)
  unfolding derive_master_key
  derive_master_key-unverified report (inl e) = rw e
  derive_master_key-unverified report (inr e) = elim (Bool-cases report.verified) [
    | inl v ↦ rw (e, v)
    | inr v ↦ rw v
  ]
