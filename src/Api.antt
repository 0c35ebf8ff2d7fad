-- ===== src/Api.antt =====
-- The messages of the private API that the servers and the controllers share.
pub mod Cluster
pub mod Machine
pub mod Host
pub mod Hub
pub mod Message
pub mod Sample
