-- ===== src/Examples.antt =====
-- Runs of the theorems on concrete hosts, challenges, sessions and pins. They model no code.
pub mod Hosts
pub mod Storage
pub mod Sessions
pub mod Certs
pub mod Cartridges
pub mod Injections
pub mod Mods
pub mod Clusters
pub mod Routes
pub mod Debates
pub mod Shelves
pub mod Tasks
pub mod Secrets
