-- ===== src/Aggregator/Snapshots/Daily.antt =====
-- What a written snapshot leaves in the table.
use zero_knowledge_aggregato.Base.{
  ℕ, ◌/◌, ◌≤◌, ◌≡◌, ◌≢◌, refl, sym, ap, ◌∙◌, String, Option, none, some, List, [], ◌∷◌, find,
  find-true, length, Bool-cases, inl, inr, arith, le→leb,
}
use zero_knowledge_aggregato.Prisma.{Table, healthy, upsert_rows}
use zero_knowledge_aggregato.Prisma.Keyed.{
  IsUnique, upserted, find-upsert_self, find-upsert_other, upsert-IsUnique,
}
use zero_knowledge_aggregato.Aggregator.Data.{Numbers, Market, Object}
use zero_knowledge_aggregato.Aggregator.Breakdown.{or_nought}
use zero_knowledge_aggregato.Aggregator.Rounding.{round_to_interval, get_start_of_day_utc, day_ms}
use zero_knowledge_aggregato.Aggregator.Balances.{Answers, Balances, fetch_balances_by_market}
use zero_knowledge_aggregato.Aggregator.Snapshots.{
  SnapshotData, SnapshotRow, SnapshotKey, same_key, same_key_iff, key_of, row_key, update_row,
  new_row, upsert_snapshot_data, figures, save_fetched, update_current_snapshot,
}

-- When a row under a key was created: an old row keeps its time.
abbrev pub created_or : {Num : Type 0} → ℕ → Option (SnapshotRow Num) → ℕ
created_or now none = now
created_or now (some r) = r.created_at

module _ {Num : Type 0} where
  update_row-snapshot :
      (now : ℕ) (s : SnapshotData Num) (breakdown : Object (Market Num)) (r : SnapshotRow Num)
      → s.breakdown_by_market ≡ some breakdown
      → row_key r ≡ key_of s
      → (update_row now s r).snapshot ≡ s
  update_row-snapshot now s breakdown r b e = rw b (
      ap
        (λ k. record s {
          user_uid = k.0;
          timestamp = k.1;
          exchange = k.2;
          breakdown_by_market = some breakdown;
        })
        e)

module _ (numbers : Numbers) (table : Table (SnapshotRow (numbers.Num))) where
  open numbers use {Num, nought, truthy}
  open table use {Db, rows}

  or_nought-nought : or_nought numbers (some nought) ≡ nought
  or_nought-nought = elim (Bool-cases (truthy nought)) [ inl e ↦ rw e refl | inr e ↦ rw e refl ]

  -- The table after a snapshot was written with no call failing.
  abbrev pub after_update : (String → String) → ℕ → String → String → ℕ → Answers Num → Db → Db
  after_update lower now user exchange time answers d =
      (update_current_snapshot numbers table lower now user exchange time answers (healthy d)).1.db

  rows-update :
      (lower : String → String) (now : ℕ) (user exchange : String) (time : ℕ)
      (answers : Answers Num) (d : Db) (b : Balances numbers)
      → fetch_balances_by_market numbers lower exchange answers ≡ some b
      → let s = figures numbers table user exchange time answers b in
        rows (after_update lower now user exchange time answers d)
        ≡ upsert_rows
            (λ r. same_key (row_key r) (key_of s))
            (update_row now s)
            (new_row numbers table now s)
            (rows d)
  unfolding update_current_snapshot upsert_snapshot_data
  rows-update lower now user exchange time answers d b e =
      ap
        (λ o. rows ((save_fetched numbers table now user exchange time answers o (healthy d)).1.db))
        e
      ∙ table.upsert_lem _ _ _ _

  upserted-snapshot :
      (now : ℕ) (user exchange : String) (time : ℕ) (answers : Answers Num) (b : Balances numbers)
      (d : Db) (o : Option (SnapshotRow Num))
      → let s = figures numbers table user exchange time answers b in
        find (λ r. same_key (row_key r) (key_of s)) (rows d) ≡ o
        → let r = upserted (update_row now s) (new_row numbers table now s) o in
          (r.snapshot ≡ s) × (r.updated_at ≡ now) × (r.created_at ≡ created_or now o)
  upserted-snapshot now user exchange time answers b d none e =
      let s = figures numbers table user exchange time answers b in
      (ap (λ z. record s { deposits = z; withdrawals = z }) or_nought-nought, refl, refl)
  upserted-snapshot now user exchange time answers b d (some r) e =
      let s = figures numbers table user exchange time answers b in
      (
        update_row-snapshot now s _ r refl (
            (same_key_iff _ _).0
              (find-true (λ q. same_key (row_key q) (key_of s)) (rows d) {x = r} e)),
        refl,
        refl,
      )

  abbrev pub RowsUnique : List (SnapshotRow Num) → Type 0
  RowsUnique = IsUnique row_key same_key same_key_iff

  -- Where the balances can be read, no call of the database fails and no two rows have one key, the
  -- user, the time and the exchange have one row afterwards: it holds the figures that were read,
  -- dated now, and keeps the date of its creation if it was there.
  pub update-find :
      (lower : String → String) (now : ℕ) (user exchange : String) (time : ℕ)
      (answers : Answers Num) (d : Db) (b : Balances numbers)
      → fetch_balances_by_market numbers lower exchange answers ≡ some b
      → RowsUnique (rows d)
      → let k : SnapshotKey = (user, time, exchange) in
        let d' = after_update lower now user exchange time answers d in
        (r : SnapshotRow Num) × (find (λ q. same_key (row_key q) k) (rows d') ≡ some r)
        × (r.snapshot ≡ figures numbers table user exchange time answers b)
        × (r.updated_at ≡ now)
        × (r.created_at ≡ created_or now (find (λ q. same_key (row_key q) k) (rows d)))
        × RowsUnique (rows d')
  update-find lower now user exchange time answers d b e u =
      let s = figures numbers table user exchange time answers b in
      let k = key_of s in
      let stored = rows-update lower now user exchange time answers d b e in
      let (snap, upd, cre) = upserted-snapshot now user exchange time answers b d _ refl in
      (
        upserted (update_row now s) (new_row numbers table now s)
            (find (λ q. same_key (row_key q) k) (rows d)),
        rw stored (
            find-upsert_self row_key same_key same_key_iff k (update_row now s)
              (new_row numbers table now s) (rows d) (λ r. refl) refl),
        snap,
        upd,
        cre,
        rw stored (
            upsert-IsUnique row_key same_key same_key_iff k (update_row now s)
              (new_row numbers table now s) (rows d) (λ r. refl) refl u),
      )

  -- Where the balances can be read and no call of the database fails, writing a snapshot leaves the
  -- row of any other user, time or exchange as it was.
  pub update-find_other :
      (lower : String → String) (now : ℕ) (user exchange : String) (time : ℕ)
      (answers : Answers Num) (d : Db) (b : Balances numbers) (k : SnapshotKey)
      → fetch_balances_by_market numbers lower exchange answers ≡ some b
      → ◌≢◌ {A = SnapshotKey} k (user, time, exchange)
      → find
          (λ q. same_key (row_key q) k)
          (rows (after_update lower now user exchange time answers d))
        ≡ find (λ q. same_key (row_key q) k) (rows d)
  update-find_other lower now user exchange time answers d b k e ne =
      let s = figures numbers table user exchange time answers b in
      rw (rows-update lower now user exchange time answers d b e) (
        find-upsert_other row_key same_key same_key_iff k (key_of s) (update_row now s)
          (new_row numbers table now s) (rows d) (λ r. refl) refl ne)

  upsert_again :
      (s : SnapshotData Num) (f : SnapshotRow Num → SnapshotRow Num) (new : SnapshotRow Num)
      (rs : List (SnapshotRow Num)) {r : SnapshotRow Num}
      → find (λ q. same_key (row_key q) (key_of s)) rs ≡ some r
      → length (upsert_rows (λ q. same_key (row_key q) (key_of s)) f new rs) ≡ length rs
  upsert_again s f new [] e = absurd (cc e)
  upsert_again s f new (q ∷ qs) {r = r} e = ground (arith, upsert_again s f new qs {r = r})

  same_day :
      (offset interval t t' : ℕ)
      → 1440 ≤ interval
      → t / day_ms ≡ t' / day_ms
      → round_to_interval offset interval t ≡ round_to_interval offset interval t'
  unfolding round_to_interval get_start_of_day_utc
  same_day offset interval t t' h e = rw (le→leb 1440 interval h) (omega arith)

  -- Of a user whose sync interval is a day or longer, two snapshots of one exchange on one UTC day
  -- are one row, where the balances can be read and no call of the database fails: the second adds
  -- none, and the row holds the figures of the second.
  pub update-twice :
      (lower : String → String) (user exchange : String) (offset interval t t' : ℕ)
      (answers answers' : Answers Num) (d : Db) (b b' : Balances numbers)
      → fetch_balances_by_market numbers lower exchange answers ≡ some b
      → fetch_balances_by_market numbers lower exchange answers' ≡ some b'
      → RowsUnique (rows d)
      → 1440 ≤ interval
      → t / day_ms ≡ t' / day_ms
      → let time = round_to_interval offset interval t in
        let time' = round_to_interval offset interval t' in
        let k : SnapshotKey = (user, time, exchange) in
        let d1 = after_update lower t user exchange time answers d in
        let d2 = after_update lower t' user exchange time' answers' d1 in
        (r : SnapshotRow Num) × (find (λ q. same_key (row_key q) k) (rows d2) ≡ some r)
        × (r.snapshot ≡ figures numbers table user exchange time answers' b')
        × (length (rows d2) ≡ length (rows d1))
  update-twice lower user exchange offset interval t t' answers answers' d b b' e e' u h day =
      let time = round_to_interval offset interval t in
      let s' = figures numbers table user exchange time answers' b' in
      let d1 = after_update lower t user exchange time answers d in
      let one = update-find lower t user exchange time answers d b e u in
      let two = update-find lower t' user exchange time answers' d1 b' e' one.5 in
      rw (sym (same_day offset interval t t' h day)) (
        two.0,
        two.1,
        two.2,
        ap length (rows-update lower t' user exchange time answers' d1 b' e')
            ∙ upsert_again s' (update_row t' s') (new_row numbers table t' s') (rows d1) one.1,
      )
