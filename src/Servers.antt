-- ===== src/Servers.antt =====
-- internal/servers: the gRPC servers.
pub mod Generic
pub mod Settled
pub mod Atomic
pub mod Guarded
pub mod ClusterChecks
pub mod Clusters
pub mod Machines
pub mod Conforming
pub mod NodeSets
pub mod Created
pub mod Defaulted
pub mod Events
pub mod Delivered
pub mod Watching
pub mod Public
pub mod PublicServers
pub mod Mapped
pub mod Processed
pub mod Secrets
pub mod Served
pub mod Mapper
pub mod MapperTypes
pub mod MapperKinds
pub mod MapperSafe
pub mod MapperSound
pub mod CopiedMaps
pub mod Copied
pub mod PathCache
pub mod Notified
mod SecretTests
mod MapperTests
mod PublicTests
mod EventTests
mod TemplateTests
mod Tests
