-- ===== src/Users.antt =====
-- src/core/repositories/user-repository.ts: the users, over the table User. Times are milliseconds
-- and the clock is an argument; identifiers that the database makes up are part of the new row. The
-- order of rows is left out, and the counts of snapshots and connections are arguments.
use zero_knowledge_aggregato.Base.{
  ℕ, ◌+◌, ◌-◌, ◌*◌, ◌/◌, String, Bool, true, Option, none, some, List, [], ◌∷◌, ltb, str_eq,
  if◌then◌else◌, Error, message, Act, pure, throw, ◌>>=◌,
}
use zero_knowledge_aggregato.Prisma.{Table, World, query, execute, call}

pub record User : Type 0 where
  pub id : String
  pub uid : String
  pub sync_interval_minutes : ℕ
  pub created_at : ℕ

abbrev pub is_uid : String → User → Bool
is_uid uid u = str_eq u.uid uid

abbrev pub new_user : ℕ → String → String → User
new_user now id uid = record { id = id; uid = uid; sync_interval_minutes = 1440; created_at = now }

pub record UserStats : Type 0 where
  pub total_trades : ℕ
  pub total_positions : ℕ
  pub exchange_connections : ℕ
  pub account_age : ℕ

abbrev pub sum_trades : List ℕ → ℕ
sum_trades [] = 0
sum_trades (n ∷ ns) = n + sum_trades ns

abbrev pub not_found : Error
not_found = message "User not found"

module _ (table : Table User) where
  open table use {Db}

  -- An upsert with nothing to update.
  unfoldable pub create_user : ℕ → String → String → Act (World Db) (Unit {0})
  create_user now id uid = execute (table.upsert (is_uid uid) (λ u. u) (new_user now id uid))

  unfoldable pub get_user_by_uid : String → Act (World Db) (Option User)
  get_user_by_uid uid = query (table.find_first (is_uid uid))

  unfoldable pub get_user_by_id : String → Act (World Db) (Option User)
  get_user_by_id id = query (table.find_first (λ u. str_eq u.id id))

  -- `update` throws where no row has the key.
  unfoldable pub update_user : String → ℕ → Act (World Db) (Unit {0})
  update_user uid minutes = do
    n ← call (λ d. (
      table.count (is_uid uid) d,
      table.update_many (is_uid uid) (λ u. record u { sync_interval_minutes = minutes }) d,
    ))
    if ltb 0 n then pure tt else throw not_found

  unfoldable pub delete_user : String → Act (World Db) (Unit {0})
  delete_user uid = do
    n ← call (λ d. (table.count (is_uid uid) d, table.delete_many (is_uid uid) d))
    if ltb 0 n then pure tt else throw not_found

  unfoldable pub user_exists : String → Act (World Db) Bool
  user_exists uid = do n ← query (table.count (is_uid uid)); pure (ltb 0 n)

  unfoldable pub get_all_users : Act (World Db) (List User)
  get_all_users = query (table.find_many (λ u. true))

  unfoldable pub count_users : Act (World Db) ℕ
  count_users = query (table.count (λ u. true))

  abbrev pub stats_of : ℕ → List ℕ → ℕ → ℕ → Option User → Act (World Db) UserStats
  stats_of now trades snapshots connections none = throw not_found
  stats_of now trades snapshots connections (some u) = pure (record {
    total_trades = sum_trades trades;
    total_positions = snapshots;
    exchange_connections = connections;
    account_age = (now - u.created_at) / (1000 * 60 * 60 * 24);
  })

  -- `trades` are the totals of the user's sync statuses.
  unfoldable pub get_user_stats : ℕ → String → List ℕ → ℕ → ℕ → Act (World Db) UserStats
  get_user_stats now uid trades snapshots connections = do
    found ← query (table.find_first (is_uid uid))
    stats_of now trades snapshots connections found
