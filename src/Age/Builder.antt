-- ===== src/Age/Builder.antt =====
-- `IdentityBuilder` of age-plugin-yubikey/src/builder.rs: the choice of a slot, and the steps that make an
-- identity in it. What is printed is left out.
pub mod Choice
pub mod Chosen
pub mod Ending
use remote_yubikey_manager.Common.{
  ℕ, Bool, true, false, ◌||◌, List, [], ◌∷◌, ◌++◌, Option, none, some, ◌==◌, if◌then◌else◌,
}
use remote_yubikey_manager.Common.Bytes.{Bytes}
use remote_yubikey_manager.Common.Text.{Text, codes, as_bytes}
use remote_yubikey_manager.Common.Result.{Result, ok, err}
use remote_yubikey_manager.Age.Slots.{RetiredSlotId, usable_slots, ordinal}
use remote_yubikey_manager.Age.Stub.{Stub}
use remote_yubikey_manager.Age.Error.{Error, dialog, yubikey, slot_is_not_empty, no_empty_slots}
use remote_yubikey_manager.Age.Policy.{PinPolicy, TouchPolicy}
use remote_yubikey_manager.Age.Yubikey.{Cards, YubikeyError}
use remote_yubikey_manager.Age.Recipient.{Curve, PublicKeyInfo, Recipient, from_spki, tag}
use remote_yubikey_manager.Age.Metadata.{X509, Metadata, extract, binary_name, policy_extension_oid}
use remote_yubikey_manager.Age.Connection.{Keys}
use remote_yubikey_manager.Age.Manage.{
  SlotId, retired, other_slot, Key, Manager, plugin_enter_pin, try_as, manage, Managing,
}
use remote_yubikey_manager.Age.Step.{Step, next, stopped, panicked, starved, ◌>>=◌}

pub record IdentityBuilder : Type 0 where
  pub slot : Option RetiredSlotId
  pub is_forced : Bool
  pub name : Option Text
  pub pin_policy : Option PinPolicy
  pub touch_policy : Option TouchPolicy

unfoldable pub new : Option RetiredSlotId → IdentityBuilder
new slot = record {
  slot = slot;
  is_forced = false;
  name = none;
  pin_policy = none;
  touch_policy = none;
}

unfoldable pub with_name : Option Text → IdentityBuilder → IdentityBuilder
with_name name b = record b { name = name }

unfoldable pub with_pin_policy : Option PinPolicy → IdentityBuilder → IdentityBuilder
with_pin_policy policy b = record b { pin_policy = policy }

unfoldable pub with_touch_policy : Option TouchPolicy → IdentityBuilder → IdentityBuilder
with_touch_policy policy b = record b { touch_policy = policy }

unfoldable pub force : Bool → IdentityBuilder → IdentityBuilder
force is_forced b = record b { is_forced = is_forced }

abbrev pub unwrap_or : {A : Type 0} → A → Option A → A
unwrap_or a none = a
unwrap_or a (some b) = b

abbrev pub default_pin_policy : PinPolicy
default_pin_policy = PinPolicy.once

abbrev pub default_touch_policy : TouchPolicy
default_touch_policy = TouchPolicy.always

-- `key.slot() == SlotId::Retired(slot)`
unfoldable pub is_slot : SlotId → RetiredSlotId → Bool
is_slot (retired s) slot = ordinal s == ordinal slot
is_slot (other_slot n) slot = false

module _ {Certificate : Type 0} where
  unfoldable pub is_occupied : List (Key Certificate) → RetiredSlotId → Bool
  is_occupied [] slot = false
  is_occupied (key ∷ keys) slot = is_slot key.slot slot || is_occupied keys slot

  -- `find` over the usable slots
  unfoldable pub first_empty : List RetiredSlotId → List (Key Certificate) → Option RetiredSlotId
  first_empty [] keys = none
  first_empty (s ∷ slots) keys =
      let later = first_empty slots keys in if is_occupied keys s then later else some s

-- `env!("CARGO_PKG_VERSION")`
abbrev pub pkg_version : Text
pkg_version = codes "0.5.0"

-- `RelativeDistinguishedName` and `x509::Extension::regular`
pub data RelativeDistinguishedName : Type 0 where
  organization organizational_unit common_name : Text → RelativeDistinguishedName

pub record Extension : Type 0 where
  pub oid : List ℕ
  pub value : Bytes

-- What makes a key and its self-signed certificate, and the numbers of the policies in the yubikey
-- crate. A certificate is made from its serial number, its end, if it has one, the subject, the key
-- and the extensions.
pub record Generator (c : Cards) (Point Certificate : Type 0) : Type 1 where
  pub generate :
      c.YubiKey
      → RetiredSlotId
      → PinPolicy
      → TouchPolicy
      → c.World
      → Result YubikeyError (PublicKeyInfo Point) × c.World
  pub random_serial : c.World → Bytes × c.World
  pub pin_byte : PinPolicy → ℕ
  pub touch_byte : TouchPolicy → ℕ
  pub hex : Bytes → Text
  pub self_sign :
      c.YubiKey
      → RetiredSlotId
      → Bytes
      → Option ℕ
      → List RelativeDistinguishedName
      → PublicKeyInfo Point
      → List Extension
      → c.World
      → Result YubikeyError Certificate × c.World

module _ {Point : Type 0} (k : Curve Point) (c : Cards) (keys : Keys c Point)
    (mgr : Manager c keys.Certificate) (gen : Generator c Point keys.Certificate) (x509 : X509)
    (y : c.YubiKey) where
  open c use {World}

  abbrev pub if_empty : RetiredSlotId → Bool → World → Managing c mgr RetiredSlotId
  if_empty slot true w = (stopped (slot_is_not_empty slot), w)
  if_empty slot false w = (next slot, w)

  abbrev pub or_full : Option RetiredSlotId → World → Managing c mgr RetiredSlotId
  or_full none w = (stopped (no_empty_slots (c.serial_of y)), w)
  or_full (some slot) w = (next slot, w)

  unfoldable pub choose_slot : Option RetiredSlotId → Bool → World → Managing c mgr RetiredSlotId
  choose_slot (some slot) true w = (next slot, w)
  choose_slot (some slot) false w =
      try_as yubikey (mgr.list_keys y w) >>= λ ks w'. if_empty slot (is_occupied ks slot) w'
  choose_slot none forced w =
      try_as yubikey (mgr.list_keys y w) >>= λ ks w'. or_full (first_empty usable_slots ks) w'

  -- `expect` and `unwrap`
  abbrev pub expect : {A : Type 0} → Option A → World → Managing c mgr A
  expect none w = (panicked, w)
  expect (some a) w = (next a, w)

  -- The PIN again, for the policy that always asks for it.
  unfoldable pub pin_again : PinPolicy → World → Managing c mgr (Unit {0})
  pin_again PinPolicy.always w =
      try_as dialog (mgr.ask (plugin_enter_pin (c.serial_of y)) w) >>= λ pin w'.
      try_as yubikey (mgr.verify_pin y (as_bytes pin) w')
  pin_again PinPolicy.default w = (next tt, w)
  pin_again PinPolicy.never w = (next tt, w)
  pin_again PinPolicy.once w = (next tt, w)

  unfoldable pub stub_new : RetiredSlotId → Recipient k → Stub RetiredSlotId
  stub_new slot pk = record {
    serial = c.serial_of y;
    slot = slot;
    tag = tag k pk;
    identity_index = 0;
  }

  abbrev pub Built : Type 0
  Built = Stub RetiredSlotId × Recipient k × Metadata

  abbrev pub described :
      RetiredSlotId → Recipient k → Option Metadata × World → Managing c mgr Built
  described slot pk (m, w) =
      expect m w >>= λ metadata w'. (next (stub_new slot pk, pk, metadata), w')

  module _ (b : IdentityBuilder) where
    abbrev pub pin_policy_of : PinPolicy
    pin_policy_of = unwrap_or default_pin_policy b.pin_policy

    abbrev pub touch_policy_of : TouchPolicy
    touch_policy_of = unwrap_or default_touch_policy b.touch_policy

    abbrev pub policies_of : Extension
    policies_of = record {
      oid = policy_extension_oid;
      value = gen.pin_byte pin_policy_of ∷ gen.touch_byte touch_policy_of ∷ [];
    }

    abbrev pub subject_of : Text → List RelativeDistinguishedName
    subject_of name =
        organization binary_name ∷ organizational_unit pkg_version ∷ common_name name ∷ []

    -- The certificate of a generated key, with the policies in its extension
    unfoldable pub certify :
        RetiredSlotId → PublicKeyInfo Point → Recipient k → World → Managing c mgr Built
    certify slot generated pk w =
        let (serial, w1) = gen.random_serial w in
        let name = unwrap_or (codes "age identity " ++ gen.hex (tag k pk)) b.name in
        pin_again pin_policy_of w1 >>= λ _ w2.
        try_as yubikey
          (gen.self_sign y slot serial none (subject_of name) generated (policies_of ∷ []) w2)
        >>= λ cert w3.
            described slot pk (extract x509 c keys.attest y slot (keys.cert_bytes cert) false w3)

    unfoldable pub generate_in : ℕ → ℕ → RetiredSlotId → World → Managing c mgr Built
    generate_in fuel tries slot w = manage c mgr y fuel tries w >>= λ _ w1.
        try_as yubikey (gen.generate y slot pin_policy_of touch_policy_of w1) >>= λ generated w2.
        expect (from_spki k generated) w2 >>= λ pk w3. certify slot generated pk w3

    unfoldable pub build : ℕ → ℕ → World → Managing c mgr Built
    build fuel tries w =
        choose_slot b.slot b.is_forced w >>= λ slot w'. generate_in fuel tries slot w'
