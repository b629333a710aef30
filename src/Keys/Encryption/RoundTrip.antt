-- ===== src/Keys/Encryption/RoundTrip.antt =====
-- What is encrypted can be decrypted again.
use zero_knowledge_aggregato.Base.{
  ℕ, ◌≡◌, refl, ap, inl, inr, ◌++◌, List, drop, take-append, drop-append, length, length-append,
  Result, ok, err, Error, Result-cases, ok-injective, arith, ◌≢◌,
}
use mathlib.Core.List.{append_assoc}
use zero_knowledge_aggregato.Prisma.{Table}
use zero_knowledge_aggregato.Keys.Crypto.{Bytes, Text, Crypto}
use zero_knowledge_aggregato.Keys.Repository.{WrappedDek}
use zero_knowledge_aggregato.Keys.Management.{Surroundings, KeyState, get_current_dek}
use zero_knowledge_aggregato.Keys.Management.Lifecycle.{get_current_twice}
use zero_knowledge_aggregato.Keys.Encryption.{encrypt, decrypt}

module _ (crypto : Crypto) (table : Table WrappedDek) where
  open table use {Db}
  open crypto use {seal, utf8, hex, from_hex}

  abbrev pub framed : Bytes → Bytes × Bytes → List ℕ
  framed iv c = hex iv ++ (hex c.1 ++ hex c.0)

  hex_size : (b : Bytes) → length b ≡ 16 → length (hex b) ≡ 32
  hex_size b e = omega (arith, crypto.length-hex b)

  drop_both :
      (iv : Bytes) (c : Bytes × Bytes)
      → length iv ≡ 16
      → length c.1 ≡ 16
      → drop 64 (framed iv c) ≡ hex c.0
  drop_both iv c e e' = rw (← append_assoc (hex iv) (hex c.1) (hex c.0)) (
      drop-append 64 (hex iv ++ hex c.1) (hex c.0)
        (omega (arith, length-append (hex iv) (hex c.1), hex_size iv e, hex_size c.1 e')))

  encrypt_result :
      (env : Surroundings) (iv : Bytes) (text : Text) (s s' : KeyState Db) (key : Bytes)
      (r : Result (Bytes × Bytes)) (out : List ℕ)
      → get_current_dek crypto table env s ≡ (ok key, s')
      → seal key iv (utf8 text) ≡ r
      → (encrypt crypto table env iv text s).0 ≡ ok out
      → (c : Bytes × Bytes) × (seal key iv (utf8 text) ≡ ok c)
        × (framed iv c ≡ out)
        × ((encrypt crypto table env iv text s).1 ≡ s')
  unfolding encrypt
  encrypt_result env iv text s s' key (ok c) out got e h =
      (c, e, ok-injective (rw (got, e) at h), rw (got, e))
  encrypt_result env iv text s s' key (err x) out got e h = absurd (cc (rw (got, e) at h))

  no_key :
      (env : Surroundings) (iv : Bytes) (text : Text) (s s' : KeyState Db) (x : Error)
      (out : List ℕ)
      → get_current_dek crypto table env s ≡ (err x, s')
      → (encrypt crypto table env iv text s).0 ≢ ok out
  unfolding encrypt
  no_key env iv text s s' x out got h = cc (rw got at h)

  pub encrypt-framed :
      (env : Surroundings) (iv : Bytes) (text : Text) (s s' : KeyState Db) (key : Bytes)
      (c : Bytes × Bytes)
      → get_current_dek crypto table env s ≡ (ok key, s')
      → seal key iv (utf8 text) ≡ ok c
      → encrypt crypto table env iv text s ≡ (ok (framed iv c), s')
  unfolding encrypt
  encrypt-framed env iv text s s' key c got sealed = rw (got, sealed)

  -- The pieces of a framed text are cut where they were joined.
  pub decrypt-framed :
      (env : Surroundings) (iv : Bytes) (text : Text) (s : KeyState Db) (key : Bytes)
      (c : Bytes × Bytes)
      → length iv ≡ 16
      → get_current_dek crypto table env s ≡ (ok key, s)
      → seal key iv (utf8 text) ≡ ok c
      → decrypt crypto table env (framed iv c) s ≡ (ok text, s)
  unfolding decrypt
  decrypt-framed env iv text s key c sized got sealed = rw (
    got,
    take-append 32 (hex iv) (hex c.1 ++ hex c.0) (hex_size iv sized),
    drop-append 32 (hex iv) (hex c.1 ++ hex c.0) (hex_size iv sized),
    take-append 32 (hex c.1) (hex c.0) (hex_size c.1 (crypto.seal_tag key iv (utf8 text) c sealed)),
    drop_both iv c sized (crypto.seal_tag key iv (utf8 text) c sealed),
    crypto.from_hex_hex iv,
    crypto.from_hex_hex c.1,
    crypto.from_hex_hex c.0,
    crypto.unseal_seal key iv (utf8 text) c sealed,
    crypto.from_utf8_utf8 text,
  )

  -- Where a text was encrypted, with the 16 random bytes that were asked for, the state that
  -- encryption leaves decrypts it to the same text, whatever calls of the database fail.
  pub decrypt-encrypt :
      (env env' : Surroundings) (iv : Bytes) (text : Text) (s : KeyState Db) (out : List ℕ)
      → length iv ≡ 16
      → (encrypt crypto table env iv text s).0 ≡ ok out
      → (decrypt crypto table env' out (encrypt crypto table env iv text s).1).0 ≡ ok text
  decrypt-encrypt env env' iv text s out sized h =
      elim (Result-cases (get_current_dek crypto table env s).0) [
        | inl (key, got) ↦
            let s' = (get_current_dek crypto table env s).1 in
            let pair : get_current_dek crypto table env s ≡ (ok key, s') = λ i. (got i, s') in
            let (c, sealed, same, state) =
              encrypt_result env iv text s s' key (seal key iv (utf8 text)) out pair refl h in
            rw (state, ← same)
              (ap (λ r. r.0)
                (decrypt-framed env' iv text s' key c sized
                  (get_current_twice crypto table env env' s key got) sealed))
        | inr (x, lost) ↦ absurd (
            no_key env iv text s (get_current_dek crypto table env s).1 x out
              (λ i. (lost i, (get_current_dek crypto table env s).1)) h)
      ]
