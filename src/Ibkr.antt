-- ===== src/Ibkr.antt =====
-- Interactive Brokers: the Flex reports and the connector that reads accounts from them.
pub mod Flex
pub mod Reports
pub mod Connector
