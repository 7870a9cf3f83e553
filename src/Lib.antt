-- ===== src/Lib.antt =====
-- Verification library for typed-fuse, a FUSE binding that runs a filesystem's callbacks behind
-- inode and handle numbers.
--
-- The parts and how they meet. The kernel's requests arrive at `Runtime`
-- (typed-fuse-core/src/runtime.rs). It resolves inode numbers in an inode table, whose slots count
-- links, lookups, opens and leases, and handle numbers in a handle table, whose records count leases;
-- it holds a lease on each while it calls the filesystem's `NodeFs` callback. A filesystem that works
-- with paths is adapted to `NodeFs` by `PathNodeFs` (typed-fuse-core/src/path_fs.rs), which also keeps
-- directory listings so that a read can be resumed from a cookie. The typed-fuse crate converts the
-- values to the C structures of libfuse, whose callbacks its session answers through `Runtime`.
--
--   Base            shared names; byte strings, ordered maps as lists of entries in iteration order,
--                   results (value, error number or panic), bit masks, signed integers
--   Attr            typed-fuse-core/src/attr.rs: the attribute structures
--   NodeTable       runtime.rs: `NodeTable`, `Slot`, `NodeRef`. Cx: the methods of `Cx` and the drop of a
--                   `NodeRef`; Counts: the counters that requests change; System: any interleaving of
--                   those sections as a list of calls; Sound, Held, Identity, Kept, Steps, Lifetime: the
--                   invariants, call by call; Reuse: the properties
--   Handles         runtime.rs: `HandleRecord`, `HandleLease`, `HandleTable`. Protocol: one open handle
--                   among concurrent requests, with the condition variable that `close_and_take` sleeps
--                   on; Numbers: the numbers of handles
--   NodeFs          typed-fuse-core/src/node_fs.rs: the interface and its values; Xattr: the size protocol
--                   of extended attributes with `reply_xattr` of typed-fuse/src/session.rs
--   Runtime         runtime.rs: the requests of `Runtime`. Files: `file`, `dir`, `optional_file` and the
--                   scope of the lease; Requests, Entries, Directories: the methods; Balance, OpenClose,
--                   Lookups, Directories.RollBack: their properties
--   Listing         path_fs.rs: `DirBuffer`, `replay`. Cookie: resume cookies; Retained: `DirListings`;
--                   Resume: `directory_listing`; Replay: `replay_listing`
--   Permissions     typed-fuse/src/passthrough.rs: `access_check`, `utimens_permission_check`
--   Namespace       path_fs.rs: `Namespace` and what `PathNodeFs` does to it. Consistent: its two maps agree;
--                   Paths, Depth: `path_for`; RollBack: an insertion taken back
--   PathFilesystem  path_fs.rs: the interface `PathFilesystem` with its provided methods
--   PathNodeFs      path_fs.rs: `PathNodeFs`. Nodes, Names, Directories: its methods; Adapter: all of them as a
--                   `NodeFs`, which `Runtime` runs. Requests: the requests on names and what they promise;
--                   Post, Made, Honours, Steps: the steps of the proof of Refinement; Creation,
--                   Reply: creations through `Runtime`; Refused: entries that a full reply refuses;
--                   Reached: the paths of nodes
--   FileLock        typed-fuse/src/file_lock.rs: `to_flock` and `from_flock`
--   Conv            typed-fuse/src/conv.rs: kinds, modes, times and `attr_to_stat`; Options:
--                   `escape_option_value` of typed-fuse/src/session.rs
--   Session         typed-fuse/src/session.rs: the handlers of `make_ops`. Raw: the C structures, with what conv.rs
--                   and ffi.rs do to them; Reply: the replies; Dirents: `RawDirentBuf` of ffi.rs; Calls:
--                   `call_fs`; Names, Nodes, Files, Locks, Directories: the handlers; Ops: the table of
--                   them; Answers, Undelivered: their properties; Life: a session from `new_with_config`
--                   to its drop, with its thread pool; Nested: what it takes and gives back
--   Mount           typed-fuse/src/mount.rs: `MountConfig` with its option words, and `MountOption` of session.rs.
--                   Reading, Forwarded: options and words that libfuse reads as they were given;
--                   Arrival: those of a session
--   Tests           concrete inputs for the properties
--
-- How state is modelled. A critical section of a mutex is a function on the state that the mutex
-- guards, and concurrent requests are lists of such sections: NodeTable.System for the inode table,
-- Handles.Protocol for one open handle. `Runtime` is modelled one request at a time, composed of the
-- same sections; the filesystem is a record of callbacks over a world of its own, which may answer,
-- fail or panic, and its directory callbacks are given step by step as what they offer to their sink.
-- A `panic` unwinds, so the leases that a request holds are dropped. Pointer equality of `Arc`s is
-- equality of allocation numbers.
--
-- Bounds. Counters are u32 and u64: `checked_add` with `expect` panics at the largest value, and the
-- wrapping of inode numbers and generations on u64 is written out, so that properties over
-- histories are stated for fewer calls than a u64 counts. `usize` has 64 bits. Reading a directory to
-- its end uses the number of its entries plus one as fuel, one read for each entry at most and
-- the empty read at the end. `path_for` has fuel, of
-- which `PathNodeFs` gives it the number of nodes that have names, plus one. On a
-- cycle of parents, where the source would recur without end, the model finds no path.
--
-- A handler of the session gives the list of the replies that it sends and the state that it
-- leaves; a panic that is not caught sends none. Whether the kernel takes a buffer, and the bytes that libfuse
-- writes for a directory entry, are parameters, and so is its reader of option lists.
--
-- Not modelled. The reading of the C
-- arguments of a handler; the threads that serve requests; the passthrough filesystem's system
-- calls; libfuse, libc and the kernel, whose constants and buffers are parameters; `init`, `destroy`
-- and the timeouts of `Runtime`; capability bits; the macOS variants of conversions.
pub mod Base
pub mod Attr
pub mod Listing
pub mod Mount
pub mod Handles
pub mod NodeFs
pub mod FileLock
pub mod Conv
pub mod NodeTable
pub mod Namespace
pub mod Runtime
pub mod Session
pub mod PathFilesystem
pub mod PathNodeFs
pub mod Permissions
mod Tests
