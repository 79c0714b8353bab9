-- ===== src/Dht.antt =====
-- internal/dht: node identifiers, the routing table, the peer store, the rate limiter, tokens,
-- transactions, messages, and the queries that a node answers.
pub mod NodeId
pub mod PeerStore
pub mod RateLimiter
pub mod Routing
pub mod Tokens
pub mod Transactions
pub mod Messages
pub mod Bep42
pub mod Handlers
pub mod Responses
