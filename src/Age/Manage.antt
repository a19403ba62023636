-- ===== src/Age/Manage.antt =====
-- `manage`, `list_slots` and `list_compatible` of age-plugin-yubikey/src/key.rs: the PIN, the PUK and the
-- management key of a YubiKey, and the keys in its slots. What is printed is left out.
pub mod Keeping
pub mod Pins
pub mod Ending
use remote_yubikey_manager.Common.{
  ℕ, zero, suc, Bool, true, false, List, [], ◌∷◌, Option, none, some, if◌then◌else◌,
}
use remote_yubikey_manager.Common.Bytes.{Bytes}
use remote_yubikey_manager.Common.Eq.{nat_eq, list_beq}
use remote_yubikey_manager.Common.Text.{Text, codes, as_bytes}
use remote_yubikey_manager.Common.Result.{Result, ok, err}
use remote_yubikey_manager.Age.Slots.{RetiredSlotId}
use remote_yubikey_manager.Age.Pin.{PinError, Answer, secret, refused, broken, request_pin}
use remote_yubikey_manager.Age.Error.{
  Error, dialog, yubikey, puk_locked, wrong_puk, management_key_auth, custom_management_key,
}
use remote_yubikey_manager.Age.Yubikey.{
  Cards, YubikeyError, authentication_error, pin_locked, wrong_pin,
}
use remote_yubikey_manager.Age.Recipient.{Curve, PublicKeyInfo, Recipient, from_spki}
use remote_yubikey_manager.Age.Step.{Step, next, stopped, panicked, starved, ◌>>=◌}

abbrev pub default_pin : Text
default_pin = codes "123456"

-- The passwords that the user is asked for
pub data Prompt : Type 0 where
  enter_pin plugin_enter_pin : ℕ → Prompt
  enter_current_puk : Prompt
  choose_new_pin : Option PinError → Prompt

-- `SlotId` of the yubikey crate, and `Key`
pub data SlotId : Type 0 where
  retired : RetiredSlotId → SlotId
  other_slot : ℕ → SlotId

pub record Key (Certificate : Type 0) : Type 0 where
  pub slot : SlotId
  pub certificate : Certificate

-- What dialoguer and the yubikey crate offer for the management of a YubiKey. The errors of a dialogue
-- stand as numbers.
pub record Manager (c : Cards) (Certificate : Type 0) : Type 1 where
  pub MgmKey : Type 0
  pub ask : Prompt → c.World → Result ℕ Text × c.World
  pub verify_pin : c.YubiKey → Bytes → c.World → Result YubikeyError (Unit {0}) × c.World
  pub change_puk : c.YubiKey → Bytes → Bytes → c.World → Result YubikeyError (Unit {0}) × c.World
  pub change_pin : c.YubiKey → Bytes → Bytes → c.World → Result YubikeyError (Unit {0}) × c.World
  pub get_protected : c.YubiKey → c.World → Result YubikeyError MgmKey × c.World
  pub default_key : MgmKey
  pub generate_key : c.World → MgmKey × c.World
  pub authenticate : c.YubiKey → MgmKey → c.World → Result YubikeyError (Unit {0}) × c.World
  pub set_protected : c.YubiKey → MgmKey → c.World → Result YubikeyError (Unit {0}) × c.World
  pub list_keys : c.YubiKey → c.World → Result YubikeyError (List (Key Certificate)) × c.World

-- `?`, with the conversion of the error
abbrev pub try_as : {E A W : Type 0} → (E → Error) → Result E A × W → Step Error A × W
try_as f (ok a, w) = (next a, w)
try_as f (err e, w) = (stopped (f e), w)

-- The errors of `change_puk` and of `authenticate`
unfoldable pub puk_error : YubikeyError → Error
puk_error pin_locked = puk_locked
puk_error (wrong_pin tries) = wrong_puk tries
puk_error e = yubikey e

unfoldable pub auth_error : YubikeyError → Error
auth_error authentication_error = management_key_auth
auth_error e = yubikey e

module _ (c : Cards) {Certificate : Type 0} (mgr : Manager c Certificate) where
  open c use {World, YubiKey}

  abbrev pub Managing : Type 0 → Type 0
  Managing A = Step Error A × World

  -- The prompt of `request_pin`: the user has an answer or the dialogue fails.
  abbrev pub as_answer : Result ℕ Text × World → Answer ⊥ ℕ × World
  as_answer (ok pin, w) = (secret pin, w)
  as_answer (err e, w) = (broken e, w)

  abbrev pub ask_new_pin : Option PinError → World → Answer ⊥ ℕ × World
  ask_new_pin prev w = as_answer (mgr.ask (choose_new_pin prev) w)

  abbrev pub on_new_pin : (World → Managing Text) → Option (Answer ⊥ ℕ) × World → Managing Text
  on_new_pin again (none, w) = (starved, w)
  on_new_pin again (some (broken e), w) = (stopped (dialog e), w)
  on_new_pin again (some (refused e), w) = absurd e
  on_new_pin again (some (secret pin), w) =
      if list_beq pin default_pin then again w else (next pin, w)

  module _ (y : YubiKey) where
    -- The loop until the PIN is not the default one
    unfoldable pub new_pin : ℕ → ℕ → World → Managing Text
    new_pin zero tries w = (starved, w)
    new_pin (suc fuel) tries w =
        on_new_pin (new_pin fuel tries) (request_pin ask_new_pin (c.serial_of y) tries none w)

    unfoldable pub change_default_pin : ℕ → ℕ → Text → World → Managing (Unit {0})
    change_default_pin fuel tries pin w =
        try_as dialog (mgr.ask enter_current_puk w) >>= λ current_puk w1.
        new_pin fuel tries w1 >>= λ pin' w2.
        try_as puk_error (mgr.change_puk y (as_bytes current_puk) (as_bytes pin') w2) >>= λ _ w3.
        try_as yubikey (mgr.change_pin y (as_bytes pin) (as_bytes pin') w3)

    abbrev pub if_default : ℕ → ℕ → Text → Bool → World → Managing (Unit {0})
    if_default fuel tries pin true w = change_default_pin fuel tries pin w
    if_default fuel tries pin false w = (next tt, w)

    abbrev pub on_protected : Result YubikeyError mgr.MgmKey × World → Managing (Unit {0})
    on_protected (ok key, w) = try_as auth_error (mgr.authenticate y key w)
    on_protected (err authentication_error, w) = (stopped management_key_auth, w)
    on_protected (err e, w) =
        try_as (λ _. custom_management_key) (mgr.authenticate y mgr.default_key w) >>= λ _ w1.
        let (key, w2) = mgr.generate_key w1 in try_as yubikey (mgr.set_protected y key w2)

    unfoldable pub manage : ℕ → ℕ → World → Managing (Unit {0})
    manage fuel tries w = try_as dialog (mgr.ask (enter_pin (c.serial_of y)) w) >>= λ pin w1.
        try_as yubikey (mgr.verify_pin y (as_bytes pin) w1) >>= λ _ w2.
        if_default fuel tries pin (list_beq pin default_pin) w2 >>= λ _ w3.
        on_protected (mgr.get_protected y w3)

module _ {Point Certificate : Type 0} (k : Curve Point)
    (subject_pki : Certificate → PublicKeyInfo Point) where
  abbrev pub Listed : Type 0
  Listed = Key Certificate × RetiredSlotId × Option (Recipient k)

  abbrev pub slot_entry : Key Certificate → SlotId → Option Listed
  slot_entry key (retired slot) = some (key, slot, from_spki k (subject_pki key.certificate))
  slot_entry key (other_slot n) = none

  abbrev pub keep : {A : Type 0} → Option A → List A → List A
  keep none rest = rest
  keep (some a) rest = a ∷ rest

  unfoldable pub list_slots : List (Key Certificate) → List Listed
  list_slots [] = []
  list_slots (key ∷ keys) = keep (slot_entry key key.slot) (list_slots keys)

  abbrev pub compatible : Listed → Option (Key Certificate × RetiredSlotId × Recipient k)
  compatible (key, slot, none) = none
  compatible (key, slot, some pk) = some (key, slot, pk)

  unfoldable pub compatible_of : List Listed → List (Key Certificate × RetiredSlotId × Recipient k)
  compatible_of [] = []
  compatible_of (l ∷ ls) = keep (compatible l) (compatible_of ls)

  unfoldable pub list_compatible :
      List (Key Certificate) → List (Key Certificate × RetiredSlotId × Recipient k)
  list_compatible keys = compatible_of (list_slots keys)
