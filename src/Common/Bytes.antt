-- ===== src/Common/Bytes.antt =====
-- Machine integers as native numbers: casts, and the byte orders of `to_be_bytes` and the like.
use Prim.Native.Nat.{ℕ, ◌+◌, ◌*◌, ◌/◌, ◌%◌, ◌<◌}
use mathlib.Core.Path.{◌≡◌}
use mathlib.Core.List.{List, [], ◌∷◌}
use native.Mathlib.Omega.{arith}
use remote_yubikey_manager.Common.Lists.{All}

abbrev pub Bytes : Type 0
Bytes = List ℕ

abbrev pub IsU8 : ℕ → Type 0
IsU8 v = v < 256

abbrev pub IsU16 : ℕ → Type 0
IsU16 v = v < 65536

abbrev pub IsU32 : ℕ → Type 0
IsU32 v = v < 4294967296

-- The casts `as u8`, `as u16` and `as u32`.
abbrev pub as_u8 : ℕ → ℕ
as_u8 v = v % 256

abbrev pub as_u16 : ℕ → ℕ
as_u16 v = v % 65536

abbrev pub as_u32 : ℕ → ℕ
as_u32 v = v % 4294967296

unfoldable pub u16_to_be_bytes : ℕ → Bytes
u16_to_be_bytes v = as_u8 (v / 256) ∷ as_u8 v ∷ []

unfoldable pub u32_to_be_bytes : ℕ → Bytes
u32_to_be_bytes v = as_u8 (v / 16777216) ∷ as_u8 (v / 65536) ∷ as_u8 (v / 256) ∷ as_u8 v ∷ []

unfoldable pub u32_to_le_bytes : ℕ → Bytes
u32_to_le_bytes v = as_u8 v ∷ as_u8 (v / 256) ∷ as_u8 (v / 65536) ∷ as_u8 (v / 16777216) ∷ []

unfoldable pub u16_from_be_bytes : ℕ → ℕ → ℕ
u16_from_be_bytes a b = a * 256 + b

unfoldable pub u32_from_be_bytes : ℕ → ℕ → ℕ → ℕ → ℕ
u32_from_be_bytes a b c d = a * 16777216 + b * 65536 + c * 256 + d

unfoldable pub u32_from_le_bytes : ℕ → ℕ → ℕ → ℕ → ℕ
unfolding u32_from_be_bytes
u32_from_le_bytes a b c d = u32_from_be_bytes d c b a

pub u16_to_be_bytes-IsU8 : (v : ℕ) → All IsU8 (u16_to_be_bytes v)
unfolding u16_to_be_bytes
u16_to_be_bytes-IsU8 v = omega arith

pub u32_to_be_bytes-IsU8 : (v : ℕ) → All IsU8 (u32_to_be_bytes v)
unfolding u32_to_be_bytes
u32_to_be_bytes-IsU8 v = omega arith

pub u32_from_be_bytes-digits :
    (v : ℕ)
    → IsU32 v
    → u32_from_be_bytes (as_u8 (v / 16777216)) (as_u8 (v / 65536)) (as_u8 (v / 256)) (as_u8 v) ≡ v
unfolding u32_from_be_bytes
u32_from_be_bytes-digits v h = omega arith

pub u32_to_be_bytes-from_be_bytes :
    (a b c d : ℕ)
    → IsU8 a
    → IsU8 b
    → IsU8 c
    → IsU8 d
    → u32_to_be_bytes (u32_from_be_bytes a b c d) ≡ a ∷ b ∷ c ∷ d ∷ []
unfolding u32_to_be_bytes u32_from_be_bytes
u32_to_be_bytes-from_be_bytes a b c d ha hb hc hd = ground arith
