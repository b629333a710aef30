-- ===== src/Lib.antt =====
-- Verification library of the zero-knowledge aggregator, an enclave that reads exchange accounts with
-- encrypted credentials and publishes only daily aggregated snapshots.
--
-- Parts and files
-- - Keys: the key hierarchy. Keys/Derivation is src/services/key-derivation.service.ts (master key from
--   the attestation report, wrapping of data encryption keys); Keys/Repository is
--   src/repositories/dek-repository.ts; Keys/Management is src/services/key-management.service.ts, whose
--   state is the table and the cached key; Keys/Encryption is src/services/encryption-service.ts.
--   Keys/Crypto is the interface of the cryptographic library, with its documented laws, and
--   Keys/ToyCipher an instance that runs.
-- - RateLimiter is src/services/sync-rate-limiter.service.ts: the log of syncs and the cooldown.
-- - Factory is src/external/factories/ExchangeConnectorFactory.ts: which connector a name gets.
-- - ConnectorCache is src/core/services/universal-connector-cache.service.ts: the map of connectors in
--   insertion order, with its statistics.
-- - Aggregator is src/services/equity-snapshot-aggregator.ts: Symbols and Breakdown sort trades into
--   markets, Balances reads a connector's answers, Rounding dates a snapshot (with
--   src/utils/time-utils.ts), Snapshots writes it
--   (src/core/repositories/snapshot-data-repository.ts).
-- - Connections is src/core/repositories/exchange-connection-repository.ts: storing and reading encrypted
--   credentials, over the encryption service.
-- - Scheduler is src/services/daily-sync-scheduler.service.ts: the daily run over all users, and the
--   interleavings of ticks, triggers and ends of runs as a step relation.
-- - Worker is src/enclave-worker.ts: sync jobs and metrics, over an interface of the services it calls,
--   which Worker/Stored fills by the repositories of connections, snapshots and statuses;
--   Worker/Registration is its createUserConnection, over the repositories.
-- - Users is src/core/repositories/user-repository.ts and SyncStatuses is
--   src/core/repositories/sync-status-repository.ts.
-- - TradeSync is src/services/trade-sync-service.ts: counting trades and recording the outcome, over
--   SyncStatuses and an interface of the connections and the connectors.
-- - Server is src/enclave-server.ts: the handlers of the gRPC service, over an interface of the worker's
--   operations; Server/Schemas is src/validation/grpc-schemas.ts.
-- - Logger is src/utils/secure-enclave-logger.ts: levels, redaction of metadata, and the buffer.
-- - Migration is scripts/migrate-to-hardware-keys.ts: the credentials go from an old key to the data
--   encryption key, with a backup and a rollback.
-- - Ibkr/Flex and Ibkr/Reports are src/external/ibkr-flex-service.ts: requests, retries, the cache, and
--   the reading of reports; Ibkr/Connector is src/connectors/IbkrFlexConnector.ts.
-- - Attestation is src/services/sev-snp-attestation.service.ts: which source of the report is asked, and
--   whether it counts as verified; Attestation/Output reads what the tool displays.
-- - Ccxt is src/connectors/CcxtExchangeConnector.ts: balances, symbols and orders over an interface of
--   the CCXT library (Ccxt/Data), Ccxt/Trades its trades and positions, Ccxt/Earnings its fees and
--   earnings.
-- - Alpaca is src/connectors/AlpacaConnector.ts over src/external/alpaca-api-service.ts, with the library as
--   an interface.
-- - MetricsService is src/services/metrics.service.ts: the registry of metrics.
-- - Prisma is the interface of the database client, which is not part of the repository: a table with
--   laws on its rows, and a world in which each coming call may fail. Prisma/ListTable is an instance.
-- - Base has the shared tests, lists, results and actions.
--
-- How code becomes definitions
-- A function keeps its name in snake case. An async function is an action: from a state to a result,
-- returned or thrown, and the state it leaves in both cases. The clock, random bytes, the attestation
-- report and the answers of exchanges are arguments. The amounts of the aggregator and the worker are
-- an interface of arithmetic without laws, so the theorems hold of rounding floating-point numbers.
-- Times are milliseconds as natural numbers, so dates before 1970 are left out. Every loop of the
-- modelled code runs over a list, but that of the Flex service, which runs over the attempts that
-- remain, from its maximum of twenty down; so no fuel is needed.
--
-- Not modelled
-- Texts of messages beyond what tells errors apart, the order of rows in queries (but for the latest
-- snapshot), the foreign keys of the schema, timers and waits, TLS and the HTTP servers. The trades
-- of the Flex connector, the memory protection and the start of the process are outside this
-- library; what the modelled code asks of them is an argument or an interface. Jobs that a service
-- awaits together run one after the other in the model, where they touch different rows or the order
-- is named at the definition. Keys/Crypto asks its laws of every text and every vector, though those
-- of Node on texts hold only without lone surrogates.
pub mod Base
pub mod Prisma
pub mod RateLimiter
pub mod Keys
pub mod Factory
pub mod ConnectorCache
pub mod Aggregator
pub mod Logger
pub mod Server
pub mod Migration
pub mod Ibkr
pub mod SyncStatuses
pub mod TradeSync
pub mod MetricsService
pub mod Attestation
pub mod Ccxt
pub mod Alpaca
pub mod Users
pub mod Connections
pub mod Scheduler
pub mod Worker
