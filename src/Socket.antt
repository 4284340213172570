-- ===== src/Socket.antt =====
-- backend/internal/ws: a live connection's inbound budget and outbound queue, and the hub's registry
-- of connections.
pub mod Bucket
pub mod Outbound
pub mod Registry
pub mod Tests
