-- ===== src/Providers/Libvirt.antt =====
-- internal/providers/libvirt: the backend that makes machines of domains.
pub mod Documents
pub mod Uuids
pub mod Subnets
pub mod Client
pub mod Domains
pub mod Volumes
pub mod Networks
pub mod Deleting
pub mod Creating
pub mod Backend
pub mod Orders
pub mod Transport
pub mod Connection
mod Daemon
mod Scenarios
