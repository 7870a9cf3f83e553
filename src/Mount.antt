-- ===== src/Mount.antt =====
-- typed-fuse/src/mount.rs and typed-fuse/src/session.rs: the configuration of a mount, on the bytes
-- of its strings.
pub mod Config
pub mod Options
pub mod Reading
pub mod Forwarded
pub mod Arrival
