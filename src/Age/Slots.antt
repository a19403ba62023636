-- ===== src/Age/Slots.antt =====
-- The numbers of the retired slots: `USABLE_SLOTS` of age-plugin-yubikey/src/main.rs, `ui_to_slot` and
-- `slot_to_ui` of util.rs. The members of `RetiredSlotId` are those that `USABLE_SLOTS` names.
use remote_yubikey_manager.Common.{
  ◌⊎◌, ℕ, zero, suc, ◌+◌, ◌%◌, ◌≤◌, ◌<◌, ◌≡◌, refl, List, [], ◌∷◌, Option, none, some, length,
  get_elem?, ◌==◌, if◌then◌else◌, arith,
}
use remote_yubikey_manager.Common.Bytes.{as_u8}
use remote_yubikey_manager.Common.Outcome.{Outcome, ok, err, panic}

pub data RetiredSlotId : Type 0 where
  r1 r2 r3 r4 r5 r6 r7 r8 r9 r10 r11 r12 r13 r14 r15 r16 r17 r18 r19 r20 : RetiredSlotId

abbrev pub usable_slots : List RetiredSlotId
usable_slots =
    r1 ∷ r2 ∷ r3 ∷ r4 ∷ r5 ∷ r6 ∷ r7 ∷ r8 ∷ r9 ∷ r10 ∷ r11 ∷ r12 ∷ r13 ∷ r14 ∷ r15 ∷ r16 ∷ r17 ∷ r18
    ∷ r19 ∷ r20 ∷ []

-- What the derived `==` compares: the position of a member in the enum.
abbrev pub ordinal : RetiredSlotId → ℕ
ordinal r1 = 0
ordinal r2 = 1
ordinal r3 = 2
ordinal r4 = 3
ordinal r5 = 4
ordinal r6 = 5
ordinal r7 = 6
ordinal r8 = 7
ordinal r9 = 8
ordinal r10 = 9
ordinal r11 = 10
ordinal r12 = 11
ordinal r13 = 12
ordinal r14 = 13
ordinal r15 = 14
ordinal r16 = 15
ordinal r17 = 16
ordinal r18 = 17
ordinal r19 = 18
ordinal r20 = 19

-- `Error::InvalidSlot`
pub data SlotError : Type 0 where
  invalid_slot : ℕ → SlotError

-- `slot as usize - 1` wraps around for slot 0.
unfoldable pub ui_to_slot : ℕ → Outcome SlotError RetiredSlotId
ui_to_slot slot =
    elim (get_elem? usable_slots ((slot + 18446744073709551615) % 18446744073709551616)) [
      | some s ↦ ok s
      | none ↦ err (invalid_slot slot)
    ]

-- `position`
unfoldable pub position : RetiredSlotId → List RetiredSlotId → Option ℕ
position s [] = none
position s (t ∷ ts) =
    let later = next (position s ts) in if ordinal t == ordinal s then some 0 else later
  where
    next : Option ℕ → Option ℕ
    next none = none
    next (some i) = some (suc i)

unfoldable pub slot_to_ui : RetiredSlotId → Outcome SlotError ℕ
slot_to_ui s = elim (position s usable_slots) [ some i ↦ ok (as_u8 (as_u8 i + 1)) | none ↦ panic ]

beyond : (i : ℕ) (xs : List RetiredSlotId) → length xs ≤ i → get_elem? xs i ≡ none
beyond i [] h = refl
beyond zero (x ∷ xs) h = absurd (omega arith)
beyond (suc i) (x ∷ xs) h = beyond i xs (omega arith)

-- Each slot has a number from 1 to 20, under which it is found again.
pub ui_to_slot-slot_to_ui :
    (s : RetiredSlotId)
    → (n : ℕ) × (slot_to_ui s ≡ ok n) × (1 ≤ n) × (n ≤ 20) × (ui_to_slot n ≡ ok s)
unfolding slot_to_ui ui_to_slot position
ui_to_slot-slot_to_ui r1 = (1, refl, omega arith, omega arith, refl)
ui_to_slot-slot_to_ui r2 = (2, refl, omega arith, omega arith, refl)
ui_to_slot-slot_to_ui r3 = (3, refl, omega arith, omega arith, refl)
ui_to_slot-slot_to_ui r4 = (4, refl, omega arith, omega arith, refl)
ui_to_slot-slot_to_ui r5 = (5, refl, omega arith, omega arith, refl)
ui_to_slot-slot_to_ui r6 = (6, refl, omega arith, omega arith, refl)
ui_to_slot-slot_to_ui r7 = (7, refl, omega arith, omega arith, refl)
ui_to_slot-slot_to_ui r8 = (8, refl, omega arith, omega arith, refl)
ui_to_slot-slot_to_ui r9 = (9, refl, omega arith, omega arith, refl)
ui_to_slot-slot_to_ui r10 = (10, refl, omega arith, omega arith, refl)
ui_to_slot-slot_to_ui r11 = (11, refl, omega arith, omega arith, refl)
ui_to_slot-slot_to_ui r12 = (12, refl, omega arith, omega arith, refl)
ui_to_slot-slot_to_ui r13 = (13, refl, omega arith, omega arith, refl)
ui_to_slot-slot_to_ui r14 = (14, refl, omega arith, omega arith, refl)
ui_to_slot-slot_to_ui r15 = (15, refl, omega arith, omega arith, refl)
ui_to_slot-slot_to_ui r16 = (16, refl, omega arith, omega arith, refl)
ui_to_slot-slot_to_ui r17 = (17, refl, omega arith, omega arith, refl)
ui_to_slot-slot_to_ui r18 = (18, refl, omega arith, omega arith, refl)
ui_to_slot-slot_to_ui r19 = (19, refl, omega arith, omega arith, refl)
ui_to_slot-slot_to_ui r20 = (20, refl, omega arith, omega arith, refl)

-- The number 0 and those from 21 to 255 name no slot: they are refused with the number.
pub ui_to_slot_refuses :
    (n : ℕ) → n < 256 → (n ≡ 0) ⊎ (20 < n) → ui_to_slot n ≡ err (invalid_slot n)
unfolding ui_to_slot
ui_to_slot_refuses n h out =
    let far : 20 ≤ (n + 18446744073709551615) % 18446744073709551616 = ground arith in
    rw (beyond ((n + 18446744073709551615) % 18446744073709551616) usable_slots far, ui_to_slot)
      refl
