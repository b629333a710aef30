-- ===== src/Ibkr/Flex/Caching.antt =====
-- What the cache of reports answers with.
