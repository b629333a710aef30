-- ===== src/Prisma/Keyed.antt =====
-- Rows with a unique key: what `upsert`, `deleteMany` and `findUnique` mean for them.
use zero_knowledge_aggregato.Base.{
  ◌≡◌, refl, ◌≢◌, ◌↔◌, inl, inr, Bool, true, false, Option, none, some, List, [], ◌∷◌, keep, find,
  String, str_eq, eq_iff, ◌&&◌, if◌then◌else◌, Bool-cases, arith,
}
use zero_knowledge_aggregato.Prisma.{upsert_rows}

-- The compound keys of the tables are pairs of texts.
abbrev pub same_pair : String × String → String × String → Bool
same_pair a b = str_eq a.0 b.0 && str_eq a.1 b.1

pub same_pair_iff : (a b : String × String) → (same_pair a b ≡ true) ↔ (a ≡ b)
same_pair_iff a b = ground (arith, eq_iff a.0 b.0, eq_iff a.1 b.1)

-- The row that an upsert leaves under its key.
abbrev pub upserted : {Row : Type 0} → (Row → Row) → Row → Option Row → Row
upserted f new none = new
upserted f new (some r) = f r

abbrev pub only_if : {Row : Type 0} → (Row → Bool) → Option Row → Option Row
only_if p none = none
only_if p (some r) = if p r then some r else none

module _ {Row K : Type 0} (key : Row → K) (same : K → K → Bool)
    (same_iff : (a b : K) → (same a b ≡ true) ↔ (a ≡ b)) where
  abbrev pub at : K → Row → Bool
  at k r = same (key r) k

  -- No two rows have one key.
  abbrev pub IsUnique : List Row → Type 0
  IsUnique [] = Unit
  IsUnique (r ∷ rs) = (find (at (key r)) rs ≡ none) × IsUnique rs

  at_other : (j k : K) (r : Row) → j ≢ k → at k r ≡ true → at j r ≡ false
  at_other j k r ne h = elim (Bool-cases (at j r)) [
    | inl e ↦ absurd (ne (cc ((same_iff _ _).0 e, (same_iff _ _).0 h)))
    | inr e ↦ e
  ]

  at_key : (k : K) (r s : Row) → key s ≡ key r → at k s ≡ at k r
  at_key k r s e = rw e

  pub find-upsert_self :
      (k : K) (f : Row → Row) (new : Row) (rs : List Row)
      → ((r : Row) → key (f r) ≡ key r)
      → key new ≡ k
      → find (at k) (upsert_rows (at k) f new rs) ≡ some (upserted f new (find (at k) rs))
  find-upsert_self k f new [] same_key e = rw ((same_iff _ _).1 e)
  find-upsert_self k f new (r ∷ rs) same_key e =
      ground (arith, at_key k r (f r) (same_key r), find-upsert_self k f new rs same_key e)

  pub find-upsert_other :
      (j k : K) (f : Row → Row) (new : Row) (rs : List Row)
      → ((r : Row) → key (f r) ≡ key r)
      → key new ≡ k
      → j ≢ k
      → find (at j) (upsert_rows (at k) f new rs) ≡ find (at j) rs
  find-upsert_other j k f new [] same_key e ne = rw (at_other j k new ne ((same_iff _ _).1 e))
  find-upsert_other j k f new (r ∷ rs) same_key e ne = ground (
    arith,
    at_key j r (f r) (same_key r),
    at_other j k r ne,
    find-upsert_other j k f new rs same_key e ne,
  )

  pub upsert-IsUnique :
      (k : K) (f : Row → Row) (new : Row) (rs : List Row)
      → ((r : Row) → key (f r) ≡ key r)
      → key new ≡ k
      → IsUnique rs
      → IsUnique (upsert_rows (at k) f new rs)
  upsert-IsUnique k f new [] same_key e u = (refl, tt)
  upsert-IsUnique k f new (r ∷ rs) same_key e (u, us) = elim (Bool-cases (at k r)) [
    | inl h ↦ rw (h, same_key r) (u, us)
    | inr h ↦ rw h (
      rw (find-upsert_other (key r) k f new rs same_key e (λ x. cc (h, (same_iff _ _).1 x))) u,
      upsert-IsUnique k f new rs same_key e us,
    )
  ]

  find-keep-none :
      (k : K) (p : Row → Bool) (rs : List Row)
      → find (at k) rs ≡ none
      → find (at k) (keep p rs) ≡ none
  find-keep-none k p [] h = refl
  find-keep-none k p (r ∷ rs) h = ground (arith, find-keep-none k p rs)

  pub keep-IsUnique : (p : Row → Bool) (rs : List Row) → IsUnique rs → IsUnique (keep p rs)
  keep-IsUnique p [] u = tt
  keep-IsUnique p (r ∷ rs) (u, us) = elim (Bool-cases (p r)) [
    | inl h ↦ rw h (find-keep-none (key r) p rs u, keep-IsUnique p rs us)
    | inr h ↦ rw h (keep-IsUnique p rs us)
  ]

  -- A deletion leaves each key's row or removes it.
  pub find-keep :
      (k : K) (p : Row → Bool) (rs : List Row)
      → IsUnique rs
      → find (at k) (keep p rs) ≡ only_if p (find (at k) rs)
  find-keep k p [] u = refl
  find-keep k p (r ∷ rs) (u, us) = elim (Bool-cases (at k r)) [
    | inl h ↦ ground (arith, (same_iff _ _).0 h, find-keep-none (key r) p rs u)
    | inr h ↦ ground (arith, find-keep k p rs us)
  ]
