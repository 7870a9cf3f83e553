-- ===== src/Conv/Options.antt =====
-- typed-fuse/src/session.rs: `escape_option_value`, on the bytes of the value.
use typed_fuse.Base.{ℕ, Bool, ◌||◌, [], ◌∷◌, eqb, if◌then◌else◌}
use typed_fuse.Base.Order.{Bytes}

abbrev pub is_special : ℕ → Bool
is_special c = eqb c 44 || eqb c 92

-- 44 is `,` and 92 is the backslash.
unfoldable pub escape_option_value : Bytes → Bytes
escape_option_value [] = []
escape_option_value (c ∷ value) =
    let rest = escape_option_value value in if is_special c then 92 ∷ c ∷ rest else c ∷ rest
