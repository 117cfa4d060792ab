-- ===== src/Tunnel.antt =====
-- The hosted ingress tunnel: specimens/ingress-tunnel/internal/tunnel, its claims store
-- (internal/store/sqlite of the specimen), links, agent, edge and HTTP API.
pub mod Lifecycle
pub mod Claim
pub mod Registry
pub mod Store
pub mod Database
pub mod Reconnect
pub mod Host
pub mod Agent
pub mod Service
pub mod Edge
pub mod Link
pub mod Api
mod Tests
