-- ===== src/Keys/Repository/Active.antt =====
-- At most one key is active, also where calls of the database fail.
use zero_knowledge_aggregato.Base.{
  ℕ, ◌+◌, ◌≤◌, ◌≡◌, refl, String, Bool, true, false, not, none, some, List, [], ◌∷◌, keep, find,
  count_if, map_if, arith,
}
use zero_knowledge_aggregato.Prisma.{Table, World}
use zero_knowledge_aggregato.Keys.Derivation.{WrappedKey}
use zero_knowledge_aggregato.Keys.Repository.{
  WrappedDek, active, retire, is_expired, new_row, get_active_dek, create_dek, rotate_dek,
  delete_inactive_deks,
}

abbrev pub active_count : List WrappedDek → ℕ
active_count = count_if active

pub active_count-retire :
    (now : ℕ) (rs : List WrappedDek) → active_count (map_if active (retire now) rs) ≡ 0
active_count-retire now [] = refl
active_count-retire now (r ∷ rs) = ground (arith, active_count-retire now rs)

pub active_count-expired :
    (t : ℕ) (rs : List WrappedDek)
    → active_count (keep (λ r. not (is_expired t r)) rs) ≡ active_count rs
active_count-expired t [] = refl
active_count-expired t (r ∷ rs) = ground (arith, active_count-expired t rs)

pub find-none_of_inactive : (rs : List WrappedDek) → active_count rs ≡ 0 → find active rs ≡ none
find-none_of_inactive [] e = refl
find-none_of_inactive (r ∷ rs) e = ground (arith, find-none_of_inactive rs)

module _ (table : Table WrappedDek) where
  open table use {Db, rows}

  abbrev pub AtMostOne : World Db → Type 0
  AtMostOne w = active_count (rows w.db) ≤ 1

  pub count-retired :
      (now : ℕ) (d : Db) → active_count (rows (table.update_many active (retire now) d)) ≡ 0
  count-retired now d =
      rw (table.update_many_lem active (retire now) d) (active_count-retire now (rows d))

  count-created :
      (now : ℕ) (id : String) (key : WrappedKey) (master_key_id : String) (d : Db)
      → active_count (rows (table.create (new_row now id key master_key_id) d))
        ≡ 1 + active_count (rows d)
  count-created now id key master_key_id d = rw (table.create_lem _ d)

  abbrev pub at : List Bool → Db → World Db
  at faults d = record { db = d; faults = faults }

  module _ (now : ℕ) (id : String) (key : WrappedKey) (master_key_id : String) where
    abbrev pub created : Db → Db
    created d =
        table.create (new_row now id key master_key_id) (table.update_many active (retire now) d)

    -- After a creation that went through, its row is the only active one.
    pub count-replaced : (d : Db) → active_count (rows (created d)) ≡ 1
    count-replaced d = omega (
      arith,
      count-created now id key master_key_id (table.update_many active (retire now) d),
      count-retired now d,
    )

    create_at :
        (faults : List Bool) (d : Db)
        → active_count (rows d) ≤ 1
        → AtMostOne (create_dek table now id key master_key_id (at faults d)).1
    unfolding create_dek
    create_at [] d h = omega (arith, count-replaced d)
    create_at (true ∷ fs) d h = h
    create_at (false ∷ []) d h = omega (arith, count-replaced d)
    create_at (false ∷ true ∷ fs) d h = omega (arith, count-retired now d)
    create_at (false ∷ false ∷ fs) d h = omega (arith, count-replaced d)

    -- Creating a key keeps at most one key active, whichever of its two calls fail.
    pub create_dek-AtMostOne :
        (w : World Db) → AtMostOne w → AtMostOne (create_dek table now id key master_key_id w).1
    create_dek-AtMostOne w h = create_at w.faults w.db h

    pub rotate_dek-AtMostOne :
        (w : World Db) → AtMostOne w → AtMostOne (rotate_dek table now id key master_key_id w).1
    unfolding rotate_dek
    rotate_dek-AtMostOne w h = create_at w.faults w.db h

    -- The stored row is found again as the active one.
    pub find-created :
        (d : Db) → find active (rows (created d)) ≡ some (new_row now id key master_key_id)
    find-created d = rw (table.create_lem (new_row now id key master_key_id) _)

    -- If the second call of a creation fails, no key is active any more.
    pub create_dek-interrupted :
        (faults : List Bool) (d : Db)
        → active_count
            (rows (create_dek table now id key master_key_id (at (false ∷ true ∷ faults) d)).1.db)
          ≡ 0
    unfolding create_dek
    create_dek-interrupted faults d = count-retired now d

  count-cleaned :
      (t : ℕ) (d : Db)
      → active_count (rows (table.delete_many (is_expired t) d)) ≡ active_count (rows d)
  count-cleaned t d = rw (table.delete_many_lem (is_expired t) d) (active_count-expired t (rows d))

  delete_at :
      (t : ℕ) (faults : List Bool) (d : Db)
      → active_count (rows (delete_inactive_deks table t (at faults d)).1.db)
        ≡ active_count (rows d)
  unfolding delete_inactive_deks
  delete_at t [] d = count-cleaned t d
  delete_at t (true ∷ fs) d = refl
  delete_at t (false ∷ fs) d = count-cleaned t d

  -- Deleting old keys removes no active one, whether or not the call fails.
  pub active_count-delete_inactive :
      (t : ℕ) (w : World Db)
      → active_count (rows (delete_inactive_deks table t w).1.db) ≡ active_count (rows w.db)
  active_count-delete_inactive t w = delete_at t w.faults w.db

  get_at : (faults : List Bool) (d : Db) → rows (get_active_dek table (at faults d)).1.db ≡ rows d
  unfolding get_active_dek
  get_at [] d = refl
  get_at (true ∷ fs) d = refl
  get_at (false ∷ fs) d = refl

  pub rows-get_active_dek : (w : World Db) → rows (get_active_dek table w).1.db ≡ rows w.db
  rows-get_active_dek w = get_at w.faults w.db
