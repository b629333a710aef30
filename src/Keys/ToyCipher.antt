-- ===== src/Keys/ToyCipher.antt =====
-- A cipher that meets the laws of the interface and runs, for tests. It protects nothing.
use zero_knowledge_aggregato.Base.{
  ℕ, ◌+◌, ◌*◌, ◌/◌, ◌%◌, ◌≡◌, refl, [], ◌∷◌, length, Result, ok, err, message, if◌then◌else◌, ◌==◌,
  replicate, length-replicate, arith, str_eq,
}
use zero_knowledge_aggregato.Keys.Crypto.{Bytes, Text, Crypto}

-- Two digits for each byte.
abbrev pub digits : Bytes → Text
digits [] = []
digits (b ∷ bs) = b / 16 ∷ b % 16 ∷ digits bs

abbrev pub undigits : Text → Bytes
undigits [] = []
undigits (h ∷ []) = []
undigits (h ∷ l ∷ s) = (h * 16 + l) ∷ undigits s

pub undigits-digits : (b : Bytes) → undigits (digits b) ≡ b
undigits-digits [] = refl
undigits-digits (b ∷ bs) = ground (arith, undigits-digits bs)

pub length-digits : (b : Bytes) → length (digits b) ≡ 2 * length b
length-digits [] = refl
length-digits (b ∷ bs) = omega (arith, length-digits bs)

abbrev pub first_byte : Bytes → ℕ
first_byte [] = 0
first_byte (b ∷ bs) = b

-- The tag repeats the key's first byte, and the cipher text is the plain text.
abbrev pub toy_seal : Bytes → Bytes → Bytes → Result (Bytes × Bytes)
toy_seal key iv plain =
    if length key == 32
    then ok (plain, replicate 16 (first_byte key))
    else err (message "Invalid key length")

abbrev pub toy_unseal : Bytes → Bytes → Bytes → Bytes → Result Bytes
toy_unseal key iv cipher tag =
    if first_byte tag == first_byte key
    then ok cipher
    else err (message "Unsupported state or unable to authenticate data")

pub toy_accepts :
    (key iv plain : Bytes) → length key ≡ 32 → (c : Bytes × Bytes) × (toy_seal key iv plain ≡ ok c)
toy_accepts key iv plain e = ((plain, replicate 16 (first_byte key)), rw e)

pub toy_tag :
    (key iv plain : Bytes) (c : Bytes × Bytes) → toy_seal key iv plain ≡ ok c → length c.1 ≡ 16
toy_tag key iv plain c e = ground (arith, length-replicate 16 (first_byte key))

pub toy_round_trip :
    (key iv plain : Bytes) (c : Bytes × Bytes)
    → toy_seal key iv plain ≡ ok c
    → toy_unseal key iv c.0 c.1 ≡ ok plain
toy_round_trip key iv plain c e = ground arith

abbrev pub toy : Crypto
toy = record {
  hkdf = λ key salt info n. replicate n (first_byte key);
  sha256 = λ b. b;
  seal = toy_seal;
  unseal = toy_unseal;
  utf8 = λ s. s;
  from_utf8 = λ b. b;
  base64 = λ b. b;
  from_base64 = λ s. s;
  hex = digits;
  from_hex = undigits;
  hex_string = λ b. if first_byte b == 1 then "id1" else "id2";
  from_hex_string = λ s. if str_eq s "m1" then 1 ∷ [] else 2 ∷ [];
  hkdf_length = λ key salt info n. length-replicate n (first_byte key);
  seal_accepts = toy_accepts;
  seal_tag = toy_tag;
  unseal_seal = toy_round_trip;
  from_utf8_utf8 = λ s. refl;
  from_base64_base64 = λ b. refl;
  from_hex_hex = undigits-digits;
  length-hex = length-digits;
}
