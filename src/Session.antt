-- ===== src/Session.antt =====
-- typed-fuse/src/session.rs: the handlers that libfuse calls, which drive the runtime and send the
-- replies.
pub mod Raw
pub mod Reply
pub mod Dirents
pub mod Calls
pub mod Names
pub mod Nodes
pub mod Files
pub mod Locks
pub mod Directories
pub mod Ops
pub mod Answers
pub mod Undelivered
pub mod Life
pub mod Nested
