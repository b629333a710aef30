-- ===== src/Connections/RoundTrip.antt =====
-- Stored credentials are read back.
use zero_knowledge_aggregato.Base.{
  ◌≤◌, ◌≡◌, refl, ap, ◌∙◌, String, true, Option, none, some, [], ◌∷◌, ◌++◌, count_if, length,
  length-append, eq_iff, ok, pure, ◌>>=◌, arith,
}
use zero_knowledge_aggregato.Prisma.{Table, World, healthy}
use zero_knowledge_aggregato.Keys.Crypto.{Bytes, Text, Crypto}
use zero_knowledge_aggregato.Keys.Derivation.{truthy_text}
use zero_knowledge_aggregato.Keys.Repository.{WrappedDek}
use zero_knowledge_aggregato.Keys.Management.{Surroundings, KeyState, get_current_dek}
use zero_knowledge_aggregato.Keys.Management.Lifecycle.{get_current_twice}
use zero_knowledge_aggregato.Keys.Encryption.{decrypt}
use zero_knowledge_aggregato.Keys.Encryption.RoundTrip.{framed, encrypt-framed, decrypt-framed}
use zero_knowledge_aggregato.Connections.{
  ConnectionCredentials, ConnectionRow, Draw, Store, on_keys, is_taken, active_or_true,
  is_active_id, encrypt_optional, row_of, create_connection, decrypt_optional, open_found,
  get_decrypted_credentials,
}

module _ (crypto : Crypto) (deks : Table WrappedDek) (table : Table ConnectionRow) where
  open deks use {Db as KeyDb}
  open table use {Db, rows}
  open crypto use {seal, utf8, hex}

  -- The key service returns a key of 256 bits at this state, and leaves the state as it is.
  pub record Steady (s : KeyState KeyDb) (key : Bytes) : Type 0 where
    pub stays : (e : Surroundings) → get_current_dek crypto deks e s ≡ (ok key, s)
    pub sized : length key ≡ 32

  abbrev pub at_keys : KeyState KeyDb → World Db → Store KeyDb Db
  at_keys s w = record { keys = s; world = w }

  decrypt_optional-some :
      (e : Surroundings) (t : Text)
      → 1 ≤ length t
      → decrypt_optional crypto deks table e (some t)
        ≡ (on_keys (decrypt crypto deks e t) >>= λ p. pure (some p))
  decrypt_optional-some e [] h = absurd (omega (arith, h))
  decrypt_optional-some e (c ∷ s) h = refl

  framed_longer :
      (iv : Bytes) (c : Bytes × Bytes) → length iv ≡ 16 → 1 ≤ length (framed crypto deks iv c)
  framed_longer iv c e =
      omega (arith, length-append (hex iv) (hex c.1 ++ hex c.0), crypto.length-hex iv, e)

  optional_round_trip :
      (s : KeyState KeyDb) (key : Bytes) (draw : Draw) (p : Option Text)
      → Steady s key
      → length (draw.iv) ≡ 16
      → (o : Option Text) × ((w : World Db)
          → encrypt_optional crypto deks table draw p (at_keys s w) ≡ (ok o, at_keys s w))
        × ((w : World Db) (e : Surroundings)
            → decrypt_optional crypto deks table e o (at_keys s w)
              ≡ (ok (truthy_text p), at_keys s w))
  optional_round_trip s key draw none steady h = (none, λ w. refl, λ w e. refl)
  optional_round_trip s key draw (some []) steady h = (none, λ w. refl, λ w e. refl)
  optional_round_trip s key draw (some (c ∷ t)) steady h =
      let (sealed, accepted) = crypto.seal_accepts key (draw.iv) (utf8 (c ∷ t)) steady.sized in
      let out = framed crypto deks (draw.iv) sealed in
      (
        some out,
        λ w.
            rw
              (encrypt-framed crypto deks (draw.env) (draw.iv) (c ∷ t) s s key sealed
                (steady.stays (draw.env)) accepted)
              refl,
        λ w e.
            rw
              (
                decrypt_optional-some e out (framed_longer (draw.iv) sealed h),
                decrypt-framed crypto deks e (draw.iv) (c ∷ t) s key sealed h (steady.stays e)
                    accepted,
              )
              refl,
      )

  -- The state after the credentials were stored.
  create_result :
      (w1 w2 w3 : Draw) (id : String) (c : ConnectionCredentials) (s s' : KeyState KeyDb) (d : Db)
      (key : Bytes) (k1 k2 : Bytes × Bytes) (o : Option Text)
      → get_current_dek crypto deks (w1.env) s ≡ (ok key, s')
      → Steady s' key
      → seal key (w1.iv) (utf8 c.api_key) ≡ ok k1
      → seal key (w2.iv) (utf8 c.api_secret) ≡ ok k2
      → encrypt_optional crypto deks table w3 c.passphrase (at_keys s' (healthy d))
        ≡ (ok o, at_keys s' (healthy d))
      → count_if (is_taken c.user_uid c.exchange) (rows d) ≡ 0
      → let row =
          row_of crypto deks table id c
            (framed crypto deks (w1.iv) k1)
            (framed crypto deks (w2.iv) k2)
            o in
        create_connection crypto deks table w1 w2 w3 id c (at_keys s (healthy d))
        ≡ (ok row, at_keys s' (healthy (table.create row d)))
  unfolding create_connection
  create_result w1 w2 w3 id c s s' d key k1 k2 o got steady a1 a2 opt free =
      rw
        (
          encrypt-framed crypto deks (w1.env) (w1.iv) c.api_key s s' key k1 got a1,
          encrypt-framed crypto deks (w2.env) (w2.iv) c.api_secret s' s' key k2
              (steady.stays (w2.env)) a2,
          opt,
          table.count_lem (is_taken c.user_uid c.exchange) d,
          free,
        )
        refl

  find_created :
      (row : ConnectionRow) (id : String) (d : Db)
      → row.id ≡ id
      → row.is_active ≡ true
      → table.find_first (is_active_id id) (table.create row d) ≡ some row
  find_created row id d e active =
      rw
        (
          table.find_first_lem (is_active_id id) (table.create row d),
          table.create_lem row d,
          e,
          (eq_iff id id).1 refl,
          active,
        )
        refl

  open_result :
      (w1 w2 : Draw) (e1 e2 e3 : Surroundings) (id : String) (c : ConnectionCredentials)
      (s : KeyState KeyDb) (w : World Db) (key : Bytes) (k1 k2 : Bytes × Bytes) (o : Option Text)
      → Steady s key
      → length (w1.iv) ≡ 16
      → length (w2.iv) ≡ 16
      → seal key (w1.iv) (utf8 c.api_key) ≡ ok k1
      → seal key (w2.iv) (utf8 c.api_secret) ≡ ok k2
      → decrypt_optional crypto deks table e3 o (at_keys s w)
        ≡ (ok (truthy_text c.passphrase), at_keys s w)
      → let row =
          row_of crypto deks table id c
            (framed crypto deks (w1.iv) k1)
            (framed crypto deks (w2.iv) k2)
            o in
        open_found crypto deks table e1 e2 e3 (some row) (at_keys s w) ≡ (
          ok (
              some (record c {
                passphrase = truthy_text c.passphrase;
                is_active = some (active_or_true c.is_active);
              })),
          at_keys s w,
        )
  open_result w1 w2 e1 e2 e3 id c s w key k1 k2 o steady l1 l2 a1 a2 opt =
      rw
        (
          decrypt-framed crypto deks e1 (w1.iv) c.api_key s key k1 l1 (steady.stays e1) a1,
          decrypt-framed crypto deks e2 (w2.iv) c.api_secret s key k2 l2 (steady.stays e2) a2,
          opt,
        )
        refl

  -- What `create_connection` returns and stores where the keys and the database answer.
  pub create_connection-ok :
      (w1 w2 w3 : Draw) (id : String) (c : ConnectionCredentials) (s : KeyState KeyDb) (d : Db)
      (key : Bytes)
      → (get_current_dek crypto deks (w1.env) s).0 ≡ ok key
      → length key ≡ 32
      → length (w3.iv) ≡ 16
      → count_if (is_taken c.user_uid c.exchange) (rows d) ≡ 0
      → (f1 : Text) × (f2 : Text) × (o : Option Text) × (s' : KeyState KeyDb) × (create_connection
            crypto deks table w1 w2 w3 id c
            (at_keys s (healthy d))
          ≡ (
            ok (row_of crypto deks table id c f1 f2 o),
            at_keys s' (healthy (table.create (row_of crypto deks table id c f1 f2 o) d)),
          ))
  create_connection-ok w1 w2 w3 id c s d key got sized l3 free =
      let s' = (get_current_dek crypto deks (w1.env) s).1 in
      let pair : get_current_dek crypto deks (w1.env) s ≡ (ok key, s') = λ i. (got i, s') in
      let steady : Steady s' key = record {
        stays = λ e. get_current_twice crypto deks (w1.env) e s key got;
        sized = sized;
      } in
      let (k1, a1) = crypto.seal_accepts key (w1.iv) (utf8 c.api_key) sized in
      let (k2, a2) = crypto.seal_accepts key (w2.iv) (utf8 c.api_secret) sized in
      let (o, stored, opened) = optional_round_trip s' key w3 c.passphrase steady l3 in
      (
        framed crypto deks (w1.iv) k1,
        framed crypto deks (w2.iv) k2,
        o,
        s',
        create_result w1 w2 w3 id c s s' d key k1 k2 o pair steady a1 a2 (stored (healthy d)) free,
      )

  -- Where the key service returns a key of 256 bits, each encryption gets its 16 random bytes, the
  -- user has no connection to the exchange and the database of connections answers, an active
  -- connection is created, and reading its credentials gives back key, secret and passphrase, with
  -- the empty passphrase as none, whatever the database of keys does from then on.
  pub get_decrypted-create :
      (w1 w2 w3 : Draw) (e1 e2 e3 : Surroundings) (id : String) (c : ConnectionCredentials)
      (s : KeyState KeyDb) (d : Db) (key : Bytes)
      → (get_current_dek crypto deks (w1.env) s).0 ≡ ok key
      → length key ≡ 32
      → length (w1.iv) ≡ 16
      → length (w2.iv) ≡ 16
      → length (w3.iv) ≡ 16
      → active_or_true c.is_active ≡ true
      → count_if (is_taken c.user_uid c.exchange) (rows d) ≡ 0
      → let created = create_connection crypto deks table w1 w2 w3 id c (at_keys s (healthy d)) in
        (row : ConnectionRow) × (created.0 ≡ ok row)
        × ((get_decrypted_credentials crypto deks table e1 e2 e3 id created.1).0
            ≡ ok (some (record c { passphrase = truthy_text c.passphrase; is_active = some true })))
  unfolding get_decrypted_credentials
  get_decrypted-create w1 w2 w3 e1 e2 e3 id c s d key got sized l1 l2 l3 active free =
      let s' = (get_current_dek crypto deks (w1.env) s).1 in
      let pair : get_current_dek crypto deks (w1.env) s ≡ (ok key, s') = λ i. (got i, s') in
      let steady : Steady s' key = record {
        stays = λ e. get_current_twice crypto deks (w1.env) e s key got;
        sized = sized;
      } in
      let (k1, a1) = crypto.seal_accepts key (w1.iv) (utf8 c.api_key) sized in
      let (k2, a2) = crypto.seal_accepts key (w2.iv) (utf8 c.api_secret) sized in
      let (o, stored, opened) = optional_round_trip s' key w3 c.passphrase steady l3 in
      let row =
        row_of crypto deks table id c (framed crypto deks (w1.iv) k1)
          (framed crypto deks (w2.iv) k2) o in
      let w : World Db = healthy (table.create row d) in
      let made =
        create_result w1 w2 w3 id c s s' d key k1 k2 o pair steady a1 a2 (stored (healthy d))
          free in
      let found = find_created row id d refl active in
      let back =
        open_result w1 w2 e1 e2 e3 id c s' w key k1 k2 o steady l1 l2 a1 a2 (opened w e3) in
      (
        row,
        ap (λ r. r.0) made,
        ap (λ r. (get_decrypted_credentials crypto deks table e1 e2 e3 id r.1).0) made
            ∙ ap (λ f. (open_found crypto deks table e1 e2 e3 f (at_keys s' w)).0) found
            ∙ ap (λ r. r.0) back
            ∙ ap
                (λ b.
                  ok
                    (some (record c { passphrase = truthy_text c.passphrase; is_active = some b })))
                active,
      )
