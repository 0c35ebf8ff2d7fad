-- ===== src/Controllers.antt =====
-- internal/controllers: the functions that reconcile objects with the Kubernetes objects of the hubs.
pub mod Kube
pub mod Task
pub mod Tasks
pub mod Orders
pub mod Hosts
pub mod Once
pub mod Runs
pub mod LostHub
pub mod Conditions
pub mod HubCache
pub mod Reconciler
pub mod Started
mod Tests
