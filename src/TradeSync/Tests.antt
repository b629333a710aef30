-- ===== src/TradeSync/Tests.antt =====
-- Synchronisation of two exchanges, one of which fails, over statuses that are a list.
use zero_knowledge_aggregato.Base.{
  ℕ, ◌≡◌, ◌≢◌, refl, String, Bool, true, none, some, List, [], ◌∷◌, find, str_eq, if◌then◌else◌, ok,
  err, message,
}
use zero_knowledge_aggregato.Prisma.ListTable.{list_table}
use zero_knowledge_aggregato.Factory.{is_supported}
use zero_knowledge_aggregato.Connections.{ConnectionCredentials, ConnectionRow}
use zero_knowledge_aggregato.SyncStatuses.{
  SyncStatus, completed, error, has_key, upsert_sync_status,
}
use zero_knowledge_aggregato.TradeSync.{
  Outside, SyncAnswer, status_of, sync_exchange_trades, sync_trades_for_statistics,
  sync_user_trades,
}
use zero_knowledge_aggregato.TradeSync.Outcomes.{
  at_rest, counted, row_after, sync_exchange_trades-recorded,
}
use zero_knowledge_aggregato.TradeSync.Settled.{AreSettled, sync_user_trades-AreSettled}

abbrev connection : String → ConnectionRow
connection exchange = record {
  id = exchange;
  user_uid = "ann";
  exchange = exchange;
  label = "main";
  encrypted_api_key = [];
  encrypted_api_secret = [];
  encrypted_passphrase = none;
  credentials_hash = exchange;
  is_active = true;
}

abbrev credentials : String → ConnectionCredentials
credentials exchange = record {
  user_uid = "ann";
  exchange = exchange;
  label = "main";
  api_key = [];
  api_secret = [];
  passphrase = none;
  is_active = none;
}

-- A connection's id is its exchange; kraken does not answer.
abbrev outside : Outside
outside = record {
  State = Unit {0};
  create_user = λ u s. (ok tt, s);
  get_decrypted_credentials = λ id s. (ok (some (credentials id)), s);
  get_unique_credentials_for_user = λ u s. (ok (connection "okx" ∷ connection "kraken" ∷ []), s);
  get_connections_by_user = λ u s. (ok (connection "okx" ∷ connection "kraken" ∷ []), s);
  find_existing_connection = λ u e l s. (ok none, s);
  get_connections_by_credentials_hash = λ u c s. (ok [], s);
  create_connection = λ c s. (ok "c1", s);
  get_trades =
      λ e c t s. ((if str_eq e "kraken" then err (message "down") else ok ("t1" ∷ "t2" ∷ [])), s);
  test_connector = λ e c s. (ok true, s);
}

abbrev as_is : String → String
as_is s = s

abbrev any_name : String → Bool
any_name s = true

abbrev midnight : ℕ → ℕ
midnight t = 0

-- The earlier failure of okx leaves its message with the completed status.
abbrev stored : List SyncStatus
stored = status_of "ann" "okx" (some 3) error 0 (some (message "old")) ∷ []

after_both :
    (sync_user_trades as_is any_name midnight outside
      (list_table SyncStatus)
      7
      "ann"
      (at_rest as_is any_name midnight outside (list_table SyncStatus) stored tt)).1.statuses.db
    ≡ status_of "ann" "okx" (some 7) completed 2 (some (message "old"))
      ∷ status_of "ann" "kraken" (some 7) error 0 (some (message "down"))
      ∷ []
unfolding sync_user_trades sync_trades_for_statistics sync_exchange_trades upsert_sync_status
    is_supported
after_both = refl

sync_user_trades-AreSettled_example :
    let r =
      sync_user_trades as_is any_name midnight outside
        (list_table SyncStatus)
        7
        "ann"
        (at_rest as_is any_name midnight outside (list_table SyncStatus) stored tt) in
    ((answer : SyncAnswer) × (r.0 ≡ ok answer))
    × ((d' : List SyncStatus) × (w' : Unit {0}) × (r.1
          ≡ at_rest as_is any_name midnight outside (list_table SyncStatus) d' w')
        × AreSettled d')
sync_user_trades-AreSettled_example =
    sync_user_trades-AreSettled as_is any_name midnight outside (list_table SyncStatus) 7 "ann"
      stored tt (refl, tt)

sync_exchange_trades-recorded_example :
    let r =
      sync_exchange_trades as_is any_name midnight outside
        (list_table SyncStatus)
        7
        "ann"
        "okx"
        (at_rest as_is any_name midnight outside (list_table SyncStatus) stored tt) in
    let outcome =
      (counted as_is any_name midnight outside
        (list_table SyncStatus)
        7
        (credentials "okx")
        tt).0 in
    (r.0 ≡ outcome)
    × (find (has_key "ann" "okx") r.1.statuses.db
        ≡ some (row_after 7 "ann" "okx" outcome (find (has_key "ann" "okx") stored)))
    × ((u x : String)
        → ◌≢◌ {A = String × String} (u, x) ("ann", "okx")
        → find (has_key u x) r.1.statuses.db ≡ find (has_key u x) stored)
sync_exchange_trades-recorded_example =
    sync_exchange_trades-recorded as_is any_name midnight outside (list_table SyncStatus) 7 "ann"
      "okx" (credentials "okx") stored tt tt refl
