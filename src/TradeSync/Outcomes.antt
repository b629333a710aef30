-- ===== src/TradeSync/Outcomes.antt =====
-- What the statuses say after a synchronisation.
use zero_knowledge_aggregato.Base.{
  ℕ, ◌≡◌, ◌≢◌, refl, ap, ◌∙◌, inl, inr, String, Bool, true, Option, none, some, List, [], ◌∷◌, find,
  Result, ok, err, Error, Result-cases, Bool-cases, Option-cases, find-true,
}
use zero_knowledge_aggregato.Prisma.{Table, healthy, upsert_rows}
use zero_knowledge_aggregato.Prisma.Keyed.{
  same_pair, same_pair_iff, upserted, find-upsert_self, find-upsert_other,
}
use zero_knowledge_aggregato.Connections.{ConnectionCredentials}
use zero_knowledge_aggregato.SyncStatuses.{
  SyncStatus, syncing, completed, error, key_of, has_key, overwrite, upsert_sync_status,
}
use zero_knowledge_aggregato.TradeSync.{
  Outside, SyncState, status_of, fetch_trade_count, sync_with, sync_exchange_trades,
}

-- Two upserts of one key are one; the second finds the row of the first.
upsert_rows-twice :
    (p : SyncStatus → Bool) (f g : SyncStatus → SyncStatus) (new other : SyncStatus)
    (rs : List SyncStatus)
    → ((r : SyncStatus) → p (f r) ≡ p r)
    → p new ≡ true
    → upsert_rows p g other (upsert_rows p f new rs) ≡ upsert_rows p (λ r. g (f r)) (g new) rs
upsert_rows-twice p f g new other [] kept e = rw e refl
upsert_rows-twice p f g new other (r ∷ rs) kept e = elim (Bool-cases (p r)) [
  | inl h ↦ rw (h, kept r, h) refl
  | inr h ↦ rw (h, h) (ap (λ l. r ∷ l) (upsert_rows-twice p f g new other rs kept e))
]

-- The status of an exchange whose trades were counted, or whose count failed.
abbrev pub ended : ℕ → String → String → Result ℕ → SyncStatus
ended now user exchange (ok n) = status_of user exchange (some now) completed n none
ended now user exchange (err e) = status_of user exchange (some now) error 0 (some e)

abbrev pub begun : ℕ → String → String → SyncStatus
begun now user exchange = status_of user exchange (some now) syncing 0 none

-- What one synchronisation makes of the row of its exchange, and of no row.
abbrev pub recorded : ℕ → String → String → Result ℕ → SyncStatus → SyncStatus
recorded now user exchange r old =
    overwrite (ended now user exchange r) (overwrite (begun now user exchange) old)

abbrev pub first_recorded : ℕ → String → String → Result ℕ → SyncStatus
first_recorded now user exchange r = overwrite (ended now user exchange r) (begun now user exchange)

-- The statuses after a synchronisation.
abbrev pub record_in : ℕ → String → String → Result ℕ → List SyncStatus → List SyncStatus
record_in now user exchange r =
    upsert_rows (has_key user exchange) (recorded now user exchange r)
      (first_recorded now user exchange r)

-- The same row in one piece, from the row before.
abbrev pub message_of : Option SyncStatus → Option Error
message_of none = none
message_of (some r) = r.error_message

abbrev pub row_after : ℕ → String → String → Result ℕ → Option SyncStatus → SyncStatus
row_after now user exchange (ok n) old =
    status_of user exchange (some now) completed n (message_of old)
row_after now user exchange (err e) old = status_of user exchange (some now) error 0 (some e)

recorded-row_after :
    (now : ℕ) (user exchange : String) (r : Result ℕ) (old : SyncStatus)
    → key_of old ≡ (user, exchange)
    → recorded now user exchange r old ≡ row_after now user exchange r (some old)
recorded-row_after now user exchange (ok n) old e = λ i. record (ended now user exchange (ok n)) {
  user_uid = (e i).0;
  exchange = (e i).1;
  error_message = old.error_message;
}
recorded-row_after now user exchange (err x) old e =
    λ i. record (ended now user exchange (err x)) { user_uid = (e i).0; exchange = (e i).1 }

upserted-row_after :
    (now : ℕ) (user exchange : String) (r : Result ℕ) (rs : List SyncStatus)
    → upserted
        (recorded now user exchange r)
        (first_recorded now user exchange r)
        (find (has_key user exchange) rs)
      ≡ row_after now user exchange r (find (has_key user exchange) rs)
upserted-row_after now user exchange r rs = elim (Option-cases (find (has_key user exchange) rs)) [
  | inl e ↦ rw e (fresh r)
  | inr (old, e) ↦ rw e (
      recorded-row_after now user exchange r old
        ((same_pair_iff (key_of old) (user, exchange)).0 (find-true (has_key user exchange) rs e)))
]
  where
    fresh : (q : Result ℕ) → first_recorded now user exchange q ≡ row_after now user exchange q none
    fresh (ok n) = refl
    fresh (err e) = refl

module _ (lower : String → String) (ccxt_has : String → Bool) (start_of_day : ℕ → ℕ)
    (outside : Outside) (table : Table SyncStatus) where
  open outside use {State}
  open table use {Db, rows}

  abbrev pub at_rest : Db → State → SyncState State Db
  at_rest d w = record { statuses = healthy d; rest = w }

  abbrev pub counted : ℕ → ConnectionCredentials → State → Result ℕ × State
  counted now c = fetch_trade_count lower ccxt_has start_of_day outside table c (start_of_day now)

  write-twice :
      (user exchange : String) (s t : SyncStatus) (d : Db)
      → key_of s ≡ (user, exchange)
      → rows (
          table.upsert
            (has_key user exchange)
            (overwrite t)
            t
            (table.upsert (has_key user exchange) (overwrite s) s d))
        ≡ upsert_rows
            (has_key user exchange)
            (λ r. overwrite t (overwrite s r))
            (overwrite t s)
            (rows d)
  write-twice user exchange s t d e =
      table.upsert_lem (has_key user exchange) (overwrite t) t
        (table.upsert (has_key user exchange) (overwrite s) s d)
      ∙ ap (upsert_rows (has_key user exchange) (overwrite t) t)
          (table.upsert_lem (has_key user exchange) (overwrite s) s d)
      ∙ upsert_rows-twice (has_key user exchange) (overwrite s) (overwrite t) s t (rows d)
          (λ r. refl) ((same_pair_iff (key_of s) (user, exchange)).1 e)

  pub sync_with-records :
      (now : ℕ) (user : String) (c : ConnectionCredentials) (d : Db) (w : State)
      → (d' : Db) × (sync_with lower ccxt_has start_of_day outside table now user
            (some c)
            (at_rest d w)
          ≡ ((counted now c w).0, at_rest d' (counted now c w).1))
        × (rows d' ≡ record_in now user c.exchange (counted now c w).0 (rows d))
  unfolding upsert_sync_status
  sync_with-records now user c d w =
      let s = begun now user c.exchange in
      let put = λ (t : SyncStatus).
        table.upsert (has_key user c.exchange) (overwrite t) t
          (table.upsert (has_key user c.exchange) (overwrite s) s d) in
      elim (Result-cases (counted now c w).0) [
        | inl (n, e) ↦
            let t = ended now user c.exchange (ok n) in
            (put t, rw e refl, rw e (write-twice user c.exchange s t d refl))
        | inr (x, e) ↦
            let t = ended now user c.exchange (err x) in
            (put t, rw e refl, rw e (write-twice user c.exchange s t d refl))
      ]

  -- Where the statuses' database answers and the credentials are found, synchronising an exchange
  -- returns or throws what counting its trades did, and the row of the user and the exchange has the
  -- outcome: completed with the number of trades, or in error with none and the error. A completed one
  -- keeps the error message of the row before. The rows of other users and exchanges stay as they are.
  pub sync_exchange_trades-recorded :
      (now : ℕ) (user id : String) (c : ConnectionCredentials) (d : Db) (w w1 : State)
      → outside.get_decrypted_credentials id w ≡ (ok (some c), w1)
      → let r =
          sync_exchange_trades lower ccxt_has start_of_day outside table now user id
            (at_rest d w) in
        let outcome = (counted now c w1).0 in
        (r.0 ≡ outcome)
        × (find (has_key user c.exchange) (rows r.1.statuses.db)
            ≡ some
                (row_after now user c.exchange outcome (find (has_key user c.exchange) (rows d))))
        × ((u x : String)
            → ◌≢◌ {A = String × String} (u, x) (user, c.exchange)
            → find (has_key u x) (rows r.1.statuses.db) ≡ find (has_key u x) (rows d))
  unfolding sync_exchange_trades
  sync_exchange_trades-recorded now user id c d w w1 e =
      let (d', done, there) = sync_with-records now user c d w1 in
      let outcome = (counted now c w1).0 in
      rw (e, done)
        (
          refl,
          ap (find (has_key user c.exchange)) there
              ∙ find-upsert_self key_of same_pair same_pair_iff (user, c.exchange)
                  (recorded now user c.exchange outcome)
                  (first_recorded now user c.exchange outcome) (rows d) (λ r. refl) refl
              ∙ ap some (upserted-row_after now user c.exchange outcome (rows d)),
          λ u x other.
              ap (find (has_key u x)) there
              ∙ find-upsert_other key_of same_pair same_pair_iff (u, x) (user, c.exchange)
                  (recorded now user c.exchange outcome)
                  (first_recorded now user c.exchange outcome) (rows d) (λ r. refl) refl other,
        )
