-- ===== src/Age/Stub.antt =====
-- `Stub` of age-plugin-yubikey/src/key.rs, a reference to a key in a slot of a YubiKey. The slots
-- are `RetiredSlotId` of the yubikey crate, with its conversions to and from a byte.
pub mod RoundTrip
use remote_yubikey_manager.Common.{
  ℕ, ◌+◌, ◌≡◌, ◌<◌, Bool, List, [], ◌∷◌, ◌++◌, Option, none, some, length, ltb, if◌then◌else◌,
  arith,
}
use remote_yubikey_manager.Common.Bytes.{Bytes, IsU8, IsU32, u32_to_le_bytes, u32_from_le_bytes}
use remote_yubikey_manager.Common.Eq.{nat_eq, list_beq}

pub record Slots (Slot : Type 0) : Type 0 where
  pub into_u8 : Slot → ℕ
  pub try_from : ℕ → Option Slot

-- What the crate documents: a slot is one byte, and it is found again by that byte and by no other.
pub record IsSlots {Slot : Type 0} (k : Slots Slot) : Type 0 where
  pub into_u8_fits : (s : Slot) → IsU8 (k.into_u8 s)
  pub try_from-into_u8 : (s : Slot) → k.try_from (k.into_u8 s) ≡ some s
  pub into_u8-try_from : (n : ℕ) (s : Slot) → k.try_from n ≡ some s → k.into_u8 s ≡ n

pub record Stub (Slot : Type 0) : Type 0 where
  pub serial : ℕ
  pub slot : Slot
  pub tag : Bytes
  pub identity_index : ℕ

module _ {Slot : Type 0} (k : Slots Slot) where
  unfoldable pub stub_bytes : Stub Slot → Bytes
  stub_bytes s = u32_to_le_bytes s.serial ++ (k.into_u8 s.slot ∷ s.tag)

  unfoldable pub stub_parts : Bytes → ℕ → Option (Stub Slot)
  stub_parts (a ∷ b ∷ c ∷ d ∷ n ∷ t ∷ u ∷ v ∷ w ∷ rest) identity_index = elim (k.try_from n) [
    | none ↦ none
    | some slot ↦ some (record {
      serial = u32_from_le_bytes a b c d;
      slot = slot;
      tag = t ∷ u ∷ v ∷ w ∷ [];
      identity_index = identity_index;
    })
  ]
  stub_parts _ identity_index = none

  unfoldable pub stub_from_bytes : Bytes → ℕ → Option (Stub Slot)
  stub_from_bytes bytes identity_index =
      if ltb (length bytes) 9 then none else stub_parts bytes identity_index

  -- `PartialEq`
  unfoldable pub stub_eq : Stub Slot → Stub Slot → Bool
  stub_eq s t = list_beq (stub_bytes s) (stub_bytes t)

  -- The tag is an array of four bytes, the serial number a `u32`.
  pub record IsStub (s : Stub Slot) : Type 0 where
    pub serial_fits : IsU32 s.serial
    pub tag_length : length s.tag ≡ 4
