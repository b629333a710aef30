-- ===== src/Worker/Registration/Twice.antt =====
-- Registering one connection twice.
use zero_knowledge_aggregato.Base.{
  ◌≡◌, refl, ap, ◌∙◌, String, Bool, true, Option, none, some, List, [], ◌∷◌, find, count_if, length,
  str_eq, eq_iff, ok, arith, inl, inr, Bool-cases, ◌&&◌, &&-true, ◌+◌,
}
use zero_knowledge_aggregato.Prisma.{Table, healthy, upsert_rows}
use zero_knowledge_aggregato.Keys.Crypto.{Bytes, Text, Crypto}
use zero_knowledge_aggregato.Keys.Repository.{WrappedDek}
use zero_knowledge_aggregato.Keys.Management.{KeyState, get_current_dek}
use zero_knowledge_aggregato.Users.{User, is_uid, new_user, create_user}
use zero_knowledge_aggregato.Connections.{
  ConnectionCredentials, ConnectionRow, is_taken, row_of, create_connection,
  find_existing_connection,
}
use zero_knowledge_aggregato.Connections.RoundTrip.{at_keys, create_connection-ok}
use zero_knowledge_aggregato.Worker.Registration.{
  Registry, Supply, already_exists, registered, create_user_connection,
}

abbrev pub existing : String → String → String → ConnectionRow → Bool
existing user exchange label r = is_taken user exchange r && str_eq r.label label && r.is_active

-- An upsert that changes nothing: it keeps the rows where the key is there, and makes it be there.
upsert_rows-same :
    (p : User → Bool) (new : User) (rs : List User) {u : User}
    → find p rs ≡ some u
    → upsert_rows p (λ u. u) new rs ≡ rs
upsert_rows-same p new [] e = absurd (cc e)
upsert_rows-same p new (r ∷ rs) {u = u} e = ground (arith, upsert_rows-same p new rs {u = u}, e)

find-upsert_rows :
    (p : User → Bool) (new : User) (rs : List User)
    → p new ≡ true
    → (u : User) × (find p (upsert_rows p (λ u. u) new rs) ≡ some u)
find-upsert_rows p new [] e = (new, rw e refl)
find-upsert_rows p new (r ∷ rs) e = elim (Bool-cases (p r)) [
  | inl h ↦ (r, rw (h, h) refl)
  | inr h ↦ let (u, found) = find-upsert_rows p new rs e in (u, rw (h, h) found)
]

count_if-find :
    {A : Type 0} (p q : A → Bool) (rs : List A)
    → ((r : A) → p r ≡ true → q r ≡ true)
    → count_if q rs ≡ 0
    → find p rs ≡ none
count_if-find p q [] h e = refl
count_if-find p q (r ∷ rs) h e = ground (arith, h r, count_if-find p q rs h, e)

module _ (crypto : Crypto) (deks : Table WrappedDek) (users : Table User)
    (table : Table ConnectionRow) where
  open deks use {Db as KeyDb}
  open users use {Db as UserDb, rows as user_rows}
  open table use {Db, rows}

  abbrev pub at_rest : UserDb → KeyState KeyDb → Db → Registry UserDb KeyDb Db
  at_rest u s d = record { users = healthy u; store = at_keys crypto deks table s (healthy d) }

  -- The users after a registration.
  abbrev with_user : Supply → String → UserDb → UserDb
  with_user w uid u = users.upsert (is_uid uid) (λ x. x) (new_user w.now w.user_id uid) u

  register_found :
      (w : Supply) (q : ConnectionCredentials) (u : UserDb) (s : KeyState KeyDb) (d : Db)
      (r : ConnectionRow)
      → table.find_first (existing q.user_uid q.exchange q.label) d ≡ some r
      → create_user_connection crypto deks users table w q (at_rest u s d)
        ≡ (ok (registered q.user_uid (some already_exists)), at_rest (with_user w q.user_uid u) s d)
  unfolding create_user_connection create_user find_existing_connection
  register_found w q u s d r e = rw e refl

  register_new :
      (w : Supply) (q : ConnectionCredentials) (u : UserDb) (s s' : KeyState KeyDb) (d d' : Db)
      (r : ConnectionRow)
      → table.find_first (existing q.user_uid q.exchange q.label) d ≡ none
      → create_connection crypto deks table
          (w.for_key)
          (w.for_secret)
          (w.for_passphrase)
          w.connection_id
          (record q { is_active = some true })
          (at_keys crypto deks table s (healthy d))
        ≡ (ok r, at_keys crypto deks table s' (healthy d'))
      → create_user_connection crypto deks users table w q (at_rest u s d)
        ≡ (ok (registered q.user_uid none), at_rest (with_user w q.user_uid u) s' d')
  unfolding create_user_connection create_user find_existing_connection
  register_new w q u s s' d d' r e made = rw (e, made) refl

  find-created :
      (q : ConnectionCredentials) (r : ConnectionRow) (d : Db)
      → r.user_uid ≡ q.user_uid
      → r.exchange ≡ q.exchange
      → r.label ≡ q.label
      → r.is_active ≡ true
      → table.find_first (existing q.user_uid q.exchange q.label) (table.create r d) ≡ some r
  find-created q r d a b c e =
      rw
        (
          table.find_first_lem (existing q.user_uid q.exchange q.label) (table.create r d),
          table.create_lem r d,
          (eq_iff r.user_uid q.user_uid).1 a,
          (eq_iff r.exchange q.exchange).1 b,
          (eq_iff r.label q.label).1 c,
          e,
        )
        refl

  user_rows-again :
      (w w' : Supply) (uid : String) (u : UserDb)
      → user_rows (with_user w' uid (with_user w uid u)) ≡ user_rows (with_user w uid u)
  user_rows-again w w' uid u =
      let new = new_user w.now w.user_id uid in
      let (x, found) = find-upsert_rows (is_uid uid) new (user_rows u) ((eq_iff uid uid).1 refl) in
      users.upsert_lem _ _ _ _
      ∙ upsert_rows-same (is_uid uid) (new_user w'.now w'.user_id uid)
          (user_rows (with_user w uid u))
          (ap (find (is_uid uid)) (users.upsert_lem _ _ _ _) ∙ found)

  -- Where the databases of users and connections answer, the key service returns a key of 256 bits,
  -- the passphrase gets its 16 random bytes and the user has no connection to the exchange, a
  -- registration succeeds; a second one with the same user, exchange and label, whatever its keys and
  -- its passphrase are, succeeds with the note that the connection exists, and leaves the users, the
  -- keys and the connections as the first left them.
  pub create_user_connection-twice :
      (w w' : Supply) (q : ConnectionCredentials) (u : UserDb) (s : KeyState KeyDb) (d : Db)
      (key : Bytes) (new_key new_secret : Text) (new_passphrase : Option Text)
      → (get_current_dek crypto deks (w.for_key.env) s).0 ≡ ok key
      → length key ≡ 32
      → length (w.for_passphrase.iv) ≡ 16
      → count_if (is_taken q.user_uid q.exchange) (rows d) ≡ 0
      → let first = create_user_connection crypto deks users table w q (at_rest u s d) in
        let second =
          create_user_connection crypto deks users table w'
            (record q { api_key = new_key; api_secret = new_secret; passphrase = new_passphrase })
            first.1 in
        (first.0 ≡ ok (registered q.user_uid none))
        × (second.0 ≡ ok (registered q.user_uid (some already_exists)))
        × (second.1.store ≡ first.1.store)
        × (user_rows second.1.users.db ≡ user_rows first.1.users.db)
        × (length (rows first.1.store.world.db) ≡ length (rows d) + 1)
  create_user_connection-twice w w' q u s d key new_key new_secret new_passphrase got sized l3
        free =
      let c : ConnectionCredentials = record q { is_active = some true } in
      let (f1, f2, o, s', made) =
        create_connection-ok crypto deks table (w.for_key) (w.for_secret) (w.for_passphrase)
          w.connection_id c s d key got sized l3 free in
      let r = row_of crypto deks table w.connection_id c f1 f2 o in
      let absent =
        table.find_first_lem (existing q.user_uid q.exchange q.label) d
        ∙ count_if-find (existing q.user_uid q.exchange q.label) (is_taken q.user_uid q.exchange)
            (rows d) (λ x h. (&&-true _ _ (&&-true _ _ h).0).0) free in
      let one = register_new w q u s s' d (table.create r d) r absent made in
      let two =
        register_found w'
          (record q { api_key = new_key; api_secret = new_secret; passphrase = new_passphrase })
          (with_user w q.user_uid u) s' (table.create r d) r
          (find-created q r d refl refl refl refl) in
      rw (one, two)
        (
          refl,
          refl,
          refl,
          user_rows-again w w' q.user_uid u,
          ap length (table.create_lem r d) ∙ omega arith,
        )
