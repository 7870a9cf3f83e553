-- ===== src/Listing/Cookie.antt =====
-- typed-fuse-core/src/path_fs.rs: resume cookies, `index + 1` in the low 27 bits and the listing's
-- generation in the four bits above.
use Prim.Native.Nat.{bit_and, bit_or}
use typed_fuse.Base.{ℕ, ◌+◌, ◌-◌, ◌*◌, ◌/◌, ◌%◌, ◌^◌, ◌≤◌, ◌<◌, ◌≡◌, arith}
use typed_fuse.Base.Bits.{or_fields, and_mask}

abbrev pub cookie_index_bits : ℕ
cookie_index_bits = 27

abbrev pub cookie_index_mask : ℕ
cookie_index_mask = 2 ^ cookie_index_bits - 1

abbrev pub cookie_generations : ℕ
cookie_generations = 16

-- The most entries that a listing can hold and still fit its cookies.
abbrev pub max_listing_len : ℕ
max_listing_len = cookie_index_mask

abbrev pub retained_listings : ℕ
retained_listings = 4

-- `(generation << 27) | (index + 1)` on u64; a generation is a u8, so the shift loses nothing.
unfoldable pub listing_cookie : ℕ → ℕ → ℕ
listing_cookie generation index = bit_or (generation * 2 ^ cookie_index_bits) (index + 1)

unfoldable pub split_cookie : ℕ → ℕ × ℕ
split_cookie offset = (
  bit_and (offset / 2 ^ cookie_index_bits) (cookie_generations - 1) % 256,
  bit_and offset cookie_index_mask,
)

cookie_sum :
    (generation index : ℕ)
    → index < max_listing_len
    → listing_cookie generation index ≡ generation * 134217728 + index + 1
unfolding listing_cookie
cookie_sum generation index h = omega (arith, or_fields 27 generation (index + 1) (omega arith))

split_cookie_lem :
    (offset : ℕ) → split_cookie offset ≡ (offset / 134217728 % 16, offset % 134217728)
unfolding split_cookie
split_cookie_lem offset =
    ground (arith, and_mask 4 (offset / 2 ^ 27) (omega arith), and_mask 27 offset (omega arith))

-- For a listing that fits its cookies, the cookie of each entry gives back the listing's generation
-- and the index of the next entry.
pub split_cookie-listing_cookie :
    (generation index : ℕ)
    → generation < cookie_generations
    → index < max_listing_len
    → split_cookie (listing_cookie generation index) ≡ (generation, index + 1)
split_cookie-listing_cookie generation index g i =
    rw split_cookie_lem (ground (arith, cookie_sum generation index i))

-- Such a cookie is not 0, which asks for a new listing, and it fits a signed 32-bit offset.
pub listing_cookie_bounds :
    (generation index : ℕ)
    → generation < cookie_generations
    → index < max_listing_len
    → (0 < listing_cookie generation index) × (listing_cookie generation index < 2 ^ 31)
listing_cookie_bounds generation index g i = omega (arith, cookie_sum generation index i)

-- Whatever offset the kernel sends, the generation is one of the sixteen.
pub split_cookie_bounds :
    (offset : ℕ)
    → ((split_cookie offset).0 < cookie_generations) × ((split_cookie offset).1 ≤ max_listing_len)
split_cookie_bounds offset = rw split_cookie_lem (omega arith)
