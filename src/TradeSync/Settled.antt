-- ===== src/TradeSync/Settled.antt =====
-- No status is left as synchronising.
use zero_knowledge_aggregato.Base.{
  ℕ, ◌≡◌, refl, ap, subst, sym, ◌∙◌, inl, inr, String, Bool, true, false, Option, none, some, List,
  [], ◌∷◌, All, if◌then◌else◌, Result, ok, err, Error, Act, Result-cases, Bool-cases, continue,
  handle, ◌>>=◌, pure, throw, catch, message,
}
use zero_knowledge_aggregato.Prisma.{Table, upsert_rows}
use zero_knowledge_aggregato.Connections.{ConnectionCredentials, ConnectionRow}
use zero_knowledge_aggregato.SyncStatuses.{
  SyncStatus, SyncStatusEnum, syncing, completed, error, pending, has_key,
}
use zero_knowledge_aggregato.TradeSync.{
  Outside, SyncState, SyncAnswer, on_rest, is_duplicate, ensure_user, sync_with,
  sync_exchange_trades, sync_each, sync_unique, sync_trades_for_statistics, sync_user_trades,
  sync_failed, no_credentials,
}
use zero_knowledge_aggregato.TradeSync.Outcomes.{
  at_rest, counted, record_in, recorded, first_recorded, sync_with-records,
}

abbrev pub is_syncing : SyncStatusEnum → Bool
is_syncing syncing = true
is_syncing pending = false
is_syncing completed = false
is_syncing error = false

abbrev pub AreSettled : List SyncStatus → Type 0
AreSettled = All (λ r. is_syncing r.status ≡ false)

recorded-settled :
    (now : ℕ) (user exchange : String) (r : Result ℕ) (old : SyncStatus)
    → is_syncing ((recorded now user exchange r old).status) ≡ false
recorded-settled now user exchange (ok n) old = refl
recorded-settled now user exchange (err e) old = refl

upsert-AreSettled :
    (p : SyncStatus → Bool) (f : SyncStatus → SyncStatus) (new : SyncStatus) (rs : List SyncStatus)
    → ((r : SyncStatus) → is_syncing (f r).status ≡ false)
    → is_syncing new.status ≡ false
    → AreSettled rs
    → AreSettled (upsert_rows p f new rs)
upsert-AreSettled p f new [] all one h = (one, tt)
upsert-AreSettled p f new (r ∷ rs) all one h = elim (Bool-cases (p r)) [
  | inl e ↦ rw e (all r, h.1)
  | inr e ↦ rw e (h.0, upsert-AreSettled p f new rs all one h.1)
]

record_in-AreSettled :
    (now : ℕ) (user exchange : String) (r : Result ℕ) (rs : List SyncStatus)
    → AreSettled rs
    → AreSettled (record_in now user exchange r rs)
record_in-AreSettled now user exchange r rs h =
    upsert-AreSettled (has_key user exchange) (recorded now user exchange r)
      (first_recorded now user exchange r) rs (recorded-settled now user exchange r) (fresh r) h
  where
    fresh : (q : Result ℕ) → is_syncing ((first_recorded now user exchange q).status) ≡ false
    fresh (ok n) = refl
    fresh (err e) = refl

-- Where all that is thrown is answered, nothing is.
caught :
    {A S : Type 0} (f : Error → A) (r : Result A × S)
    → (a : A) × ((handle (λ e. pure (f e)) r).0 ≡ ok a)
caught f (ok a, s) = (a, refl)
caught f (err e, s) = (f e, refl)

module _ (lower : String → String) (ccxt_has : String → Bool) (start_of_day : ℕ → ℕ)
    (outside : Outside) (table : Table SyncStatus) where
  open outside use {State}
  open table use {Db, rows}

  abbrev Job : Type 0 → Type 0
  Job = Act (SyncState State Db)

  abbrev resting : Db → State → SyncState State Db
  resting = at_rest lower ccxt_has start_of_day outside table

  -- From settled statuses in a database that answers, a job leaves such.
  record Settles {A : Type 0} (m : Job A) : Type 0 where
    settled :
        (d : Db) (w : State)
        → AreSettled (rows d)
        → (d' : Db) × (w' : State) × ((m (resting d w)).1 ≡ resting d' w') × AreSettled (rows d')

  Settles-bind :
      {A B : Type 0} (m : Job A) (f : A → Job B)
      → Settles m
      → ((a : A) → Settles (f a))
      → Settles (m >>= f)
  Settles-bind m f k next = record {
    settled = λ d w h.
        let (d1, w1, left, h1) = k.settled d w h in
        elim (Result-cases (m (resting d w)).0) [
          | inl (a, e) ↦
              let (d2, w2, left2, h2) = (next a).settled d1 w1 h1 in
              let pair : m (resting d w) ≡ (ok a, resting d1 w1) = λ i. (e i, left i) in
              (d2, w2, ap (λ r. (continue f r).1) pair ∙ left2, h2)
          | inr (x, e) ↦
              let pair : m (resting d w) ≡ (err x, resting d1 w1) = λ i. (e i, left i) in
              (d1, w1, ap (λ r. (continue f r).1) pair, h1)
        ];
  }

  Settles-catch :
      {A : Type 0} (m : Job A) (f : Error → Job A)
      → Settles m
      → ((e : Error) → Settles (f e))
      → Settles (catch m f)
  Settles-catch m f k next = record {
    settled = λ d w h.
        let (d1, w1, left, h1) = k.settled d w h in
        elim (Result-cases (m (resting d w)).0) [
          | inl (a, e) ↦
              let pair : m (resting d w) ≡ (ok a, resting d1 w1) = λ i. (e i, left i) in
              (d1, w1, ap (λ r. (handle f r).1) pair, h1)
          | inr (x, e) ↦
              let (d2, w2, left2, h2) = (next x).settled d1 w1 h1 in
              let pair : m (resting d w) ≡ (err x, resting d1 w1) = λ i. (e i, left i) in
              (d2, w2, ap (λ r. (handle f r).1) pair ∙ left2, h2)
        ];
  }

  Settles-pure : {A : Type 0} (a : A) → Settles (pure a)
  Settles-pure a = record { settled = λ d w h. (d, w, refl, h) }

  Settles-throw : {A : Type 0} (e : Error) → Settles (throw {A = A} e)
  Settles-throw e = record { settled = λ d w h. (d, w, refl, h) }

  Settles-on_rest : {A : Type 0} (m : Act State A) → Settles (on_rest m)
  Settles-on_rest m = record { settled = λ d w h. (d, (m w).1, refl, h) }

  Settles-ensure_user :
      (user : String) → Settles (ensure_user lower ccxt_has start_of_day outside table user)
  Settles-ensure_user user =
      Settles-catch _ _ (Settles-on_rest (outside.create_user user))
        (λ e. ignored (is_duplicate e) e)
    where
      ignored : (b : Bool) (e : Error) → Settles (if b then pure tt else throw e)
      ignored true e = Settles-pure tt
      ignored false e = Settles-throw e

  Settles-sync_with :
      (now : ℕ) (user : String) (o : Option ConnectionCredentials)
      → Settles (sync_with lower ccxt_has start_of_day outside table now user o)
  Settles-sync_with now user none = Settles-throw no_credentials
  Settles-sync_with now user (some c) = record {
    settled = λ d w h.
        let (d', done, there) =
          sync_with-records lower ccxt_has start_of_day outside table now user c d w in
        let r = counted lower ccxt_has start_of_day outside table now c w in
        (
          d',
          r.1,
          ap (λ q. q.1) done,
          subst AreSettled (sym there) (record_in-AreSettled now user c.exchange r.0 (rows d) h),
        );
  }

  Settles-sync_exchange_trades :
      (now : ℕ) (user id : String)
      → Settles (sync_exchange_trades lower ccxt_has start_of_day outside table now user id)
  unfolding sync_exchange_trades
  Settles-sync_exchange_trades now user id =
      Settles-bind _ _ (Settles-on_rest (outside.get_decrypted_credentials id))
        (Settles-sync_with now user)

  Settles-sync_each :
      (now : ℕ) (user : String) (rs : List ConnectionRow)
      → Settles (sync_each lower ccxt_has start_of_day outside table now user rs)
  Settles-sync_each now user [] = Settles-pure 0
  Settles-sync_each now user (r ∷ rs) =
      Settles-bind _ _
        (Settles-catch _ _ (Settles-sync_exchange_trades now user r.id) (λ e. Settles-pure 0))
        (λ n. Settles-bind _ _ (Settles-sync_each now user rs) (λ m. Settles-pure _))

  Settles-sync_unique :
      (now : ℕ) (user : String) (rs : List ConnectionRow)
      → Settles (sync_unique lower ccxt_has start_of_day outside table now user rs)
  Settles-sync_unique now user [] = Settles-pure _
  Settles-sync_unique now user (r ∷ rs) =
      Settles-bind _ _ (Settles-on_rest (outside.get_connections_by_user user))
        (λ all. Settles-bind _ _ (Settles-sync_each now user (r ∷ rs)) (λ n. Settles-pure _))

  Settles-sync_trades_for_statistics :
      (now : ℕ) (user : String)
      → Settles (sync_trades_for_statistics lower ccxt_has start_of_day outside table now user)
  unfolding sync_trades_for_statistics
  Settles-sync_trades_for_statistics now user =
      Settles-catch _ _
        (Settles-bind _ _ (Settles-on_rest (outside.get_unique_credentials_for_user user))
          (Settles-sync_unique now user))
        (λ e. Settles-pure _)

  Settles-sync_user_trades :
      (now : ℕ) (user : String)
      → Settles (sync_user_trades lower ccxt_has start_of_day outside table now user)
  unfolding sync_user_trades
  Settles-sync_user_trades now user =
      Settles-catch _ _
        (Settles-bind _ _ (Settles-ensure_user user) (λ u.
          Settles-bind _ _ (Settles-sync_trades_for_statistics now user) (λ r. Settles-pure _)))
        (λ e. Settles-pure _)

  sync_user_trades-answers :
      (now : ℕ) (user : String) (s : SyncState State Db)
      → (answer : SyncAnswer) × ((sync_user_trades lower ccxt_has start_of_day outside table now
            user s).0
          ≡ ok answer)
  unfolding sync_user_trades
  sync_user_trades-answers now user s =
      caught (sync_failed lower ccxt_has start_of_day outside table) (
        (ensure_user lower ccxt_has start_of_day outside table user >>= λ u.
        sync_trades_for_statistics lower ccxt_has start_of_day outside table now user >>= λ r.
        pure (record { success = r.success; synced = r.synced; text = message "Sync completed" }))
          s)

  -- From statuses none of which is synchronising, in a database that answers, synchronising a user gives
  -- an answer and leaves no status as synchronising, whatever the connections, the users' table and the
  -- exchanges do.
  pub sync_user_trades-AreSettled :
      (now : ℕ) (user : String) (d : Db) (w : State)
      → AreSettled (rows d)
      → let r = sync_user_trades lower ccxt_has start_of_day outside table now user (resting d w) in
        ((answer : SyncAnswer) × (r.0 ≡ ok answer))
        × ((d' : Db) × (w' : State) × (r.1 ≡ resting d' w') × AreSettled (rows d'))
  sync_user_trades-AreSettled now user d w h = (
    sync_user_trades-answers now user (resting d w),
    (Settles-sync_user_trades now user).settled d w h,
  )
