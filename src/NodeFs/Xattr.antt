-- ===== src/NodeFs/Xattr.antt =====
-- The size protocol of extended attributes: `XattrReply::sized` in typed-fuse-core/src/node_fs.rs and
-- `reply_xattr` in typed-fuse/src/session.rs.
use typed_fuse.Base.{ℕ, ◌≡◌, ◌≢◌, ◌≤◌, length, eqb, ltb, if◌then◌else◌, arith}
use typed_fuse.Base.Outcome.{Outcome, ok, err, panic, erange, eio}
use typed_fuse.Base.Order.{Bytes}
use typed_fuse.NodeFs.{XattrReply, xattr_size, xattr_data}
use typed_fuse.Session.Reply.{Reply, sends_size, sends_data, sends_error}

unfoldable pub sized : Bytes → ℕ → Outcome XattrReply
sized value size =
    if eqb size 0
    then ok (xattr_size (length value))
    else if ltb size (length value)
    then err erange
    else ok (xattr_data value)

unfoldable pub reply_xattr : XattrReply → ℕ → Reply
reply_xattr (xattr_size len) requested_size =
    if eqb requested_size 0 then sends_size len else sends_error eio
reply_xattr (xattr_data value) requested_size =
    if eqb requested_size 0
    then sends_size (length value)
    else if ltb requested_size (length value)
    then sends_error erange
    else sends_data value

-- The handlers' use of the two: `Ok(reply) => reply_xattr(…)`, `Err(e) => reply_err(…)`.
abbrev pub answer : Outcome XattrReply → ℕ → Reply
answer (ok reply) size = reply_xattr reply size
answer (err e) size = sends_error e
answer panic size = sends_error eio

-- A filesystem that applies the size protocol itself gets the same reply sent as one that returns
-- the whole value.
pub reply_xattr-sized :
    (value : Bytes) (size : ℕ)
    → answer (sized value size) size ≡ reply_xattr (xattr_data value) size
unfolding sized reply_xattr
reply_xattr-sized value size = ground arith

-- The two phases agree: the length that a probe with size 0 reports is a size with which the value
-- is sent whole, and any smaller size but 0 is refused with ERANGE.
pub probe_then_fetch :
    (value : Bytes) (size : ℕ)
    → size ≢ 0
    → (answer (sized value 0) 0 ≡ sends_size (length value))
      × (length value ≤ size → answer (sized value size) size ≡ sends_data value)
      × ((length value ≤ size → ⊥) → answer (sized value size) size ≡ sends_error erange)
unfolding sized reply_xattr
probe_then_fetch value size h = (ground arith, λ fits. ground arith, λ over. ground arith)
