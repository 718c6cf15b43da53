-- ===== src/Transport.antt =====
-- src/Transport: how the client reaches the network.
pub mod Posix
pub mod Descriptors
pub mod Server
pub mod Async
pub mod AsyncClient
