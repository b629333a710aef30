-- ===== src/Factory/Tests.antt =====
-- Runs of the connector factory.
use zero_knowledge_aggregato.Base.{◌≡◌, refl, String, Bool, true, none, err, ok}
use zero_knowledge_aggregato.Factory.{Credentials, ccxt, create, unsupported}

abbrev same : String → String
same s = s

abbrev any : String → Bool
any s = true

abbrev credentials_for : String → Credentials
credentials_for exchange = record {
  user_uid = "ann";
  exchange = exchange;
  api_key = "k";
  api_secret = "s";
  passphrase = none;
}

futures : create same any (credentials_for "binance_futures") ≡ ok (ccxt "binance")
unfolding create
futures = refl

unknown : create same any (credentials_for "mtgox") ≡ err unsupported
unfolding create
unknown = refl
