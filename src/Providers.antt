-- ===== src/Providers.antt =====
-- internal/providers: the boundary between the controllers and the backends.
pub mod Errors
pub mod Identity
pub mod Fake
pub mod Pool
pub mod Instrumented
pub mod Libvirt
