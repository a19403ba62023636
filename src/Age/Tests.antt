-- ===== src/Age/Tests.antt =====
-- A stub, a stanza and two files, and the theorems at them, with simple stand-ins for the crates.
mod Crates
mod Opening
mod Sessions
mod Ending
mod Identities
use remote_yubikey_manager.Common.{
  ℕ, ◌+◌, ◌-◌, ◌*◌, ◌/◌, ◌≤◌, ◌≡◌, refl, ap, ◌∙◌, true, List, [], ◌∷◌, ◌++◌, Option, none, some,
  length, take, replicate, length-append, length-replicate, take-length-append, ◌==◌, ==_iff,
  if◌then◌else◌, get_elem?, arith, inl,
}
use remote_yubikey_manager.Common.Bytes.{Bytes, IsU8, u32_from_le_bytes, u32_from_be_bytes}
use remote_yubikey_manager.Common.Eq.{nat_eq, list_beq_iff}
use remote_yubikey_manager.Common.Text.{Text, codes, as_bytes}
use remote_yubikey_manager.Age.Tests.Crates.{padded, padded-IsBase64, points, points-IsPoints}
use remote_yubikey_manager.Age.Stub.{
  Slots, IsSlots, Stub, IsStub, stub_bytes, stub_from_bytes, stub_parts, stub_eq,
}
use remote_yubikey_manager.Age.Stub.RoundTrip.{
  stub_from_bytes-stub_bytes, stub_bytes-stub_from_bytes, stub_eq-same,
}
use remote_yubikey_manager.Age.Stanza.{
  Base64, IsBase64, Points, IsPoints, Stanza, RecipientLine, IsLine, into_stanza, from_stanza,
  piv_p256,
}
use remote_yubikey_manager.Age.Stanza.RoundTrip.{from_stanza-into_stanza, from_stanza-IsLine}
use remote_yubikey_manager.Common.Outcome.{ok, err}
use remote_yubikey_manager.Age.Slots.{
  r20, invalid_slot, ui_to_slot, slot_to_ui, ui_to_slot-slot_to_ui, ui_to_slot_refuses,
}
use remote_yubikey_manager.Age.Serial.{
  otp_serial_prefix, read_modhex, otp_serial_prefix-read_modhex,
}
use remote_yubikey_manager.Age.Pin.{
  PinError, Explained, secret, ask, reject, request_pin, IsPinLength, request_pin_asks,
  request_pin_bounds,
}
use remote_yubikey_manager.Age.Candidates.{Search, candidates}
use remote_yubikey_manager.Age.Candidates.Stanzas.{IsNoted}
use remote_yubikey_manager.Age.Candidates.Files.{file_errors, candidates-IsNoted}

-- Two of the retired slots, by their bytes
data Slot : Type 0 where
  r1 r2 : Slot

abbrev slot_code : Slot → ℕ
slot_code r1 = 0x82
slot_code r2 = 0x83

abbrev slot_of : ℕ → Option Slot
slot_of n = if n == 0x82 then some r1 else if n == 0x83 then some r2 else none

abbrev slots : Slots Slot
slots = record { into_u8 = slot_code; try_from = slot_of }

slot_code_fits : (s : Slot) → IsU8 (slot_code s)
slot_code_fits r1 = omega arith
slot_code_fits r2 = omega arith

slot_of-slot_code : (s : Slot) → slot_of (slot_code s) ≡ some s
slot_of-slot_code r1 = refl
slot_of-slot_code r2 = refl

slot_code-slot_of : (n : ℕ) (s : Slot) → slot_of n ≡ some s → slot_code s ≡ n
slot_code-slot_of n r1 e = ground (arith, ==_iff n 0x82, ==_iff n 0x83)
slot_code-slot_of n r2 e = ground (arith, ==_iff n 0x82, ==_iff n 0x83)

slots-IsSlots : IsSlots slots
slots-IsSlots = record {
  into_u8_fits = slot_code_fits;
  try_from-into_u8 = slot_of-slot_code;
  into_u8-try_from = slot_code-slot_of;
}

abbrev a_stub : Stub Slot
a_stub = record { serial = 0x01020304; slot = r2; tag = 1 ∷ 2 ∷ 3 ∷ 4 ∷ []; identity_index = 0 }

a_stub-IsStub : IsStub slots a_stub
a_stub-IsStub = record { serial_fits = omega arith; tag_length = refl }

abbrev a_stub_bytes : Bytes
a_stub_bytes = 4 ∷ 3 ∷ 2 ∷ 1 ∷ 0x83 ∷ 1 ∷ 2 ∷ 3 ∷ 4 ∷ []

stub_from_bytes-stub_bytes_example :
    stub_from_bytes slots (stub_bytes slots a_stub ++ (9 ∷ [])) 5
    ≡ some (record a_stub { identity_index = 5 })
stub_from_bytes-stub_bytes_example =
    stub_from_bytes-stub_bytes slots slots-IsSlots a_stub (9 ∷ []) 5 a_stub-IsStub

a_stub_read : stub_from_bytes slots a_stub_bytes 0 ≡ some a_stub
unfolding stub_from_bytes stub_parts u32_from_le_bytes u32_from_be_bytes
a_stub_read = refl

a_stub_equal : stub_eq slots a_stub (record a_stub { identity_index = 3 }) ≡ true
unfolding stub_eq stub_bytes
a_stub_equal = (list_beq_iff _ _).1 refl

abbrev a_line : RecipientLine Bytes
a_line = record {
  line_tag = 1 ∷ 2 ∷ 3 ∷ 4 ∷ [];
  epk_bytes = replicate 33 2;
  encrypted_file_key = replicate 32 7;
}

a_line-IsLine : IsLine padded points a_line
a_line-IsLine = record {
  line_tag_length = refl;
  epk_compressed = refl;
  epk_valid = refl;
  key_length = refl;
}

from_stanza-into_stanza_example :
    from_stanza padded points (into_stanza padded points a_line) ≡ some (some a_line)
from_stanza-into_stanza_example =
    from_stanza-into_stanza padded padded-IsBase64 points points-IsPoints a_line a_line-IsLine

-- A stanza of the plugin without arguments
abbrev bad_stanza : Stanza
bad_stanza = record { stanza_tag = piv_p256; args = []; body = [] }

abbrev two_files : List (List Stanza)
two_files =
    (into_stanza padded points a_line ∷ bad_stanza ∷ [])
    ∷ (into_stanza padded points a_line ∷ [])
    ∷ []

candidates-IsNoted_example :
    (st : Search Slot Bytes ℕ) × (candidates padded points (a_stub ∷ []) two_files ≡ some st)
    × ((i : ℕ) (ss : List Stanza)
        → get_elem? two_files i ≡ some ss
        → IsNoted i (file_errors padded points i 0 ss) st)
candidates-IsNoted_example = candidates-IsNoted padded points (a_stub ∷ []) two_files

otp_serial_prefix-read_modhex_example :
    (text : Text) × (otp_serial_prefix 0xA1B2C3 ≡ some text)
    × (length text ≡ 12)
    × (read_modhex text ≡ 0xA1B2C3)
otp_serial_prefix-read_modhex_example = otp_serial_prefix-read_modhex 0xA1B2C3 (omega arith)

-- An answer that is too short, and one that is taken.
abbrev short_pin : Text
short_pin = codes "123"

abbrev good_pin : Text
good_pin = codes "123456"

short_not_taken : ¬ IsPinLength short_pin
unfolding as_bytes
short_not_taken h = absurd (omega arith)

good_taken : IsPinLength good_pin
unfolding as_bytes
good_taken = omega arith

request_pin_asks_example :
    (messages : List (Option PinError)) × Explained 7 (short_pin ∷ []) messages
    × (request_pin {E = Unit {0}}
          (ask tt)
          7
          2
          none
          (record { answers = secret short_pin ∷ secret good_pin ∷ []; shown = [] })
        ≡ (some (secret good_pin), record { answers = []; shown = none ∷ messages }))
request_pin_asks_example =
    request_pin_asks tt 7 2 (short_pin ∷ []) good_pin [] none [] (short_not_taken, tt) good_taken
      (omega arith)
