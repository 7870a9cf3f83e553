-- ===== src/Conv/Kinds.antt =====
-- The mode of a reply (typed-fuse/src/conv.rs).
use Prim.Native.Nat.{bit_and, bit_or}
use typed_fuse.Base.{ℕ, ◌+◌, ◌*◌, ◌%◌, ◌^◌, ◌<◌, ◌≡◌, ap, ◌∙◌, arith, some}
use typed_fuse.Base.Bits.{or_fields, and_mask, and_field}
use typed_fuse.Attr.{
  FileKind, regular_file, directory, symlink, char_device, block_device, named_pipe, socket,
  NodeAttr,
}
use typed_fuse.Conv.{ModeBits, kind_to_mode_bits, kind_of_bits, mode_bits_to_kind, attr_to_stat}

-- A platform's type bits: codes for the seven kinds, all different, in the four bits above the twelve
-- permission bits.
pub record HasTypeField (b : ModeBits) : Type 0 where
  pub code : FileKind → ℕ
  pub small : (k : FileKind) → code k < 16
  pub apart : (j k : FileKind) → code j ≡ code k → j ≡ k
  pub mask : b.s_ifmt ≡ 15 * 2 ^ 12
  pub bits : (k : FileKind) → kind_to_mode_bits b k ≡ code k * 2 ^ 12

module _ (b : ModeBits) (f : HasTypeField b) where
  same_kind : (j k : FileKind) → kind_to_mode_bits b j ≡ kind_to_mode_bits b k → j ≡ k
  same_kind j k e = f.apart j k (omega (arith, f.bits j, f.bits k))

  kind_of_bits-mode_bits : (k : FileKind) → kind_of_bits b (kind_to_mode_bits b k) ≡ some k
  kind_of_bits-mode_bits regular_file = ground arith
  kind_of_bits-mode_bits directory = ground (arith, same_kind directory regular_file)
  kind_of_bits-mode_bits symlink =
      ground (arith, same_kind symlink regular_file, same_kind symlink directory)
  kind_of_bits-mode_bits char_device = ground (
    arith,
    same_kind char_device regular_file,
    same_kind char_device directory,
    same_kind char_device symlink,
  )
  kind_of_bits-mode_bits block_device = ground (
    arith,
    same_kind block_device regular_file,
    same_kind block_device directory,
    same_kind block_device symlink,
    same_kind block_device char_device,
  )
  kind_of_bits-mode_bits named_pipe = ground (
    arith,
    same_kind named_pipe regular_file,
    same_kind named_pipe directory,
    same_kind named_pipe symlink,
    same_kind named_pipe char_device,
    same_kind named_pipe block_device,
  )
  kind_of_bits-mode_bits socket = ground (
    arith,
    same_kind socket regular_file,
    same_kind socket directory,
    same_kind socket symlink,
    same_kind socket char_device,
    same_kind socket block_device,
    same_kind socket named_pipe,
  )

  mode_fields :
      (k : FileKind) (perm : ℕ)
      → bit_or (kind_to_mode_bits b k) (bit_and perm 4095) ≡ f.code k * 2 ^ 12 + perm % 2 ^ 12
  mode_fields k perm = ground (
    arith,
    f.bits k,
    and_mask 12 perm (omega arith),
    or_fields 12 (f.code k) (perm % 2 ^ 12) (omega arith),
  )

  -- With type bits of the usual layout, the mode that the kernel is sent holds the kind and the
  -- twelve permission bits: each is read back from it, whatever other bits the filesystem set in
  -- `perm`.
  pub mode_bits_to_kind-attr_to_stat :
      (ino : ℕ) (attr : NodeAttr)
      → let mode = (attr_to_stat b ino attr).st_mode in
        (mode_bits_to_kind b mode ≡ some attr.kind) × (bit_and mode 4095 ≡ attr.perm % 4096)
  unfolding attr_to_stat mode_bits_to_kind
  mode_bits_to_kind-attr_to_stat ino attr = (
    ap (kind_of_bits b) (
          ground (
            arith,
            mode_fields attr.kind attr.perm,
            f.mask,
            f.small attr.kind,
            f.bits attr.kind,
            and_field 12 (f.code attr.kind) (attr.perm % 2 ^ 12) 15 (omega arith),
            and_mask 4 (f.code attr.kind) (omega arith),
          ))
        ∙ kind_of_bits-mode_bits attr.kind,
    ground (
      arith,
      mode_fields attr.kind attr.perm,
      and_mask 12 (f.code attr.kind * 2 ^ 12 + attr.perm % 2 ^ 12) (omega arith),
    ),
  )
