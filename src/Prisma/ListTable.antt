-- ===== src/Prisma/ListTable.antt =====
-- A table kept as the list of its rows, newest first: it meets the laws, and runs in the tests.
use zero_knowledge_aggregato.Base.{List, refl, keep, find, count_if, map_if, not, ◌∷◌}
use zero_knowledge_aggregato.Prisma.{Table, upsert_rows}

abbrev pub list_table : (Row : Type 0) → Table Row
list_table Row = record {
  Db = List Row;
  rows = λ d. d;
  find_first = find;
  find_many = keep;
  count = count_if;
  create = λ r d. r ∷ d;
  update_many = map_if;
  upsert = upsert_rows;
  delete_many = λ p. keep (λ r. not (p r));
  find_first_lem = λ p d. refl;
  find_many_lem = λ p d. refl;
  count_lem = λ p d. refl;
  create_lem = λ r d. refl;
  update_many_lem = λ p f d. refl;
  upsert_lem = λ p f new d. refl;
  delete_many_lem = λ p d. refl;
}
