-- ===== src/Prisma.antt =====
-- The database client that the services share. Prisma is not part of the repository: a table is an
-- interface, whose laws are the documented behaviour of each call in terms of the stored rows.
pub mod ListTable
pub mod Keyed
use zero_knowledge_aggregato.Base.{
  ℕ, String, ◌≡◌, Bool, true, false, Option, List, [], ◌∷◌, keep, find, count_if, map_if, length,
  Error, Result, ok, err, Act, if◌then◌else◌, none, some, ◌++◌, not, prisma,
}

-- What `upsert` stores: the row that passes the test is updated, or a new one is added.
abbrev pub upsert_rows {ℓ} : {Row : Type ℓ} → (Row → Bool) → (Row → Row) → Row → List Row → List Row
upsert_rows p update new [] = new ∷ []
upsert_rows p update new (r ∷ rs) = if p r then update r ∷ rs else r ∷ upsert_rows p update new rs

pub record Table (Row : Type 0) : Type 1 where
  pub Db : Type 0
  pub rows : Db → List Row
  pub find_first : (Row → Bool) → Db → Option Row
  pub find_many : (Row → Bool) → Db → List Row
  pub count : (Row → Bool) → Db → ℕ
  pub create : Row → Db → Db
  pub update_many : (Row → Bool) → (Row → Row) → Db → Db
  pub upsert : (Row → Bool) → (Row → Row) → Row → Db → Db
  pub delete_many : (Row → Bool) → Db → Db
  pub find_first_lem : (p : Row → Bool) (d : Db) → find_first p d ≡ find p (rows d)
  pub find_many_lem : (p : Row → Bool) (d : Db) → find_many p d ≡ keep p (rows d)
  pub count_lem : (p : Row → Bool) (d : Db) → count p d ≡ count_if p (rows d)
  pub create_lem : (r : Row) (d : Db) → rows (create r d) ≡ r ∷ rows d
  pub update_many_lem :
      (p : Row → Bool) (f : Row → Row) (d : Db) → rows (update_many p f d) ≡ map_if p f (rows d)
  pub upsert_lem :
      (p : Row → Bool) (f : Row → Row) (new : Row) (d : Db)
      → rows (upsert p f new d) ≡ upsert_rows p f new (rows d)
  pub delete_many_lem :
      (p : Row → Bool) (d : Db) → rows (delete_many p d) ≡ keep (λ r. not (p r)) (rows d)

-- A connection: the table, and for each coming call whether it fails. A call that fails throws and
-- changes nothing; when the list is used up, calls succeed.
pub record World (Db : Type 0) : Type 0 where
  pub db : Db
  pub faults : List Bool

abbrev pub lost : Error
lost = prisma "connection lost"

module _ {Db : Type 0} where
  -- The world in which no call fails, and the one whose next call does.
  abbrev pub healthy : Db → World Db
  healthy d = record { db = d; faults = [] }

  abbrev pub failing : World Db → World Db
  failing w = record w { faults = true ∷ w.faults }

  abbrev pub answer : {A : Type 0} → (Db → A × Db) → World Db → Result A × World Db
  answer f w = (ok (f w.db).0, record w { db = (f w.db).1 })

  abbrev pub call_with : {A : Type 0} → List Bool → (Db → A × Db) → World Db → Result A × World Db
  call_with [] f w = answer f w
  call_with (true ∷ rest) f w = (err lost, record w { faults = rest })
  call_with (false ∷ rest) f w = answer f (record w { faults = rest })

  -- One awaited call of the client.
  abbrev pub call : {A : Type 0} → (Db → A × Db) → Act (World Db) A
  call f w = call_with w.faults f w

  abbrev pub query : {A : Type 0} → (Db → A) → Act (World Db) A
  query f = call (λ d. (f d, d))

  abbrev pub execute : (Db → Db) → Act (World Db) (Unit {0})
  execute f = call (λ d. (tt, f d))
