-- ===== src/Keys/Crypto.antt =====
-- What the key services use of Node's crypto and Buffer modules. A buffer is the list of its bytes,
-- and a text that is encoded, cut or joined is the list of its characters.
use Prim.Native.Char.{code}
use zero_knowledge_aggregato.Base.{ℕ, ◌*◌, String, ◌≡◌, List, [], ◌∷◌, length, Result, ok}

abbrev pub Bytes : Type 0
Bytes = List ℕ

abbrev pub Text : Type 0
Text = List ℕ

-- The characters of a literal.
abbrev pub codes : String → Text
codes String.[] = []
codes (String.◌∷◌ c s) = code c ∷ codes s

pub record Crypto : Type 1 where
  -- hkdfSync('sha256', key material, salt, info, length)
  pub hkdf : Bytes → Bytes → Bytes → ℕ → Bytes
  pub sha256 : Bytes → Bytes
  -- AES-256-GCM under a key and an initialisation vector: the cipher text and the tag.
  pub seal : Bytes → Bytes → Bytes → Result (Bytes × Bytes)
  -- Decryption of a cipher text with its tag; it throws where the tag does not fit.
  pub unseal : Bytes → Bytes → Bytes → Bytes → Result Bytes
  pub utf8 : Text → Bytes
  pub from_utf8 : Bytes → Text
  pub base64 : Bytes → Text
  pub from_base64 : Text → Bytes
  pub hex : Bytes → Text
  pub from_hex : Text → Bytes
  pub hex_string : Bytes → String
  pub from_hex_string : String → Bytes
  pub hkdf_length : (key salt info : Bytes) (n : ℕ) → length (hkdf key salt info n) ≡ n
  pub seal_accepts :
      (key iv plain : Bytes) → length key ≡ 32 → (c : Bytes × Bytes) × (seal key iv plain ≡ ok c)
  pub seal_tag :
      (key iv plain : Bytes) (c : Bytes × Bytes) → seal key iv plain ≡ ok c → length c.1 ≡ 16
  pub unseal_seal :
      (key iv plain : Bytes) (c : Bytes × Bytes)
      → seal key iv plain ≡ ok c
      → unseal key iv c.0 c.1 ≡ ok plain
  pub from_utf8_utf8 : (s : Text) → from_utf8 (utf8 s) ≡ s
  pub from_base64_base64 : (b : Bytes) → from_base64 (base64 b) ≡ b
  pub from_hex_hex : (b : Bytes) → from_hex (hex b) ≡ b
  pub length-hex : (b : Bytes) → length (hex b) ≡ 2 * length b
