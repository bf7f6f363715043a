-- ===== src/Controller.antt =====
-- internal/controller: the controllers.
pub mod Objects
pub mod World
pub mod Linkage
pub mod Hypervisors
pub mod Naming
pub mod Placement
pub mod Spec
pub mod Status
pub mod Machines
pub mod Clusters
pub mod Addresses
pub mod Endpoint
pub mod Templates
