-- ===== src/Usbip/Verify.antt =====
-- `verify_descriptor` of usbip/src/util.rs.
pub mod Chains
use remote_yubikey_manager.Common.{
  ℕ, zero, suc, ◌+◌, ◌≡◌, Bool, true, false, List, [], ◌∷◌, Option, none, some, length, get_elem?,
  ltb, ◌==◌, if◌then◌else◌,
}
use remote_yubikey_manager.Common.Bytes.{Bytes}

-- `while offset < desc.len() { offset += desc[offset] as usize; }` for `fuel` rounds; `none` when
-- the loop has not ended by then.
unfoldable pub walk : ℕ → ℕ → Bytes → Option ℕ
walk zero offset desc = none
walk (suc fuel) offset desc = elim (get_elem? desc offset) [
  | none ↦ some offset
  | some len ↦ walk fuel (offset + len) desc
]

-- `some true` when the assertion behind the loop holds, `some false` when it panics, and `none` when
-- the loop does not end: as long as it runs each round moves on, or is the last that moves.
unfoldable pub verify_descriptor : Bytes → Option Bool
verify_descriptor desc = elim (walk (suc (length desc)) 0 desc) [
  | none ↦ none
  | some offset ↦ some (offset == length desc)
]
