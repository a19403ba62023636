-- ===== src/Age/Tests/Identities.antt =====
-- The theorems on the management of a YubiKey, the builder of identities and the command line.
use remote_yubikey_manager.Common.{
  List, Option, if◌then◌else◌, ◌∙◌, ℕ, zero, suc, ◌≡◌, ◌⊎◌, refl, sym, ap, inl, inr, true, false,
  [], ◌∷◌, none, some,
}
use remote_yubikey_manager.Common.Bytes.{Bytes}
use remote_yubikey_manager.Common.Text.{Text, as_bytes}
use remote_yubikey_manager.Age.Slots.{RetiredSlotId}
use remote_yubikey_manager.Age.Stub.{Stub}
use remote_yubikey_manager.Age.Policy.{PinPolicy}
use remote_yubikey_manager.Age.Recipient.{PublicKeyInfo, ec_p256, other_key, from_spki}
use remote_yubikey_manager.Age.Recipient
use remote_yubikey_manager.Common.Eq.{nat_eq, list_beq}
use remote_yubikey_manager.Common.Result.{Result, ok, ok-injective}
use remote_yubikey_manager.Age.Yubikey.{YubikeyError}
use remote_yubikey_manager.Age.Metadata.{Metadata}
use remote_yubikey_manager.Age.Step.{Holds}
use remote_yubikey_manager.Age.Manage.{manage}
use remote_yubikey_manager.Age.Manage.Keeping.{Keeps}
use remote_yubikey_manager.Age.Manage.Pins.{IsNewPin, manage-Keeps}
use remote_yubikey_manager.Age.Manage.Pins
use remote_yubikey_manager.Age.Builder.{IdentityBuilder, Extension, build}
use remote_yubikey_manager.Age.Builder.Choice.{MayUse}
use remote_yubikey_manager.Age.Builder.Chosen.{IsGenerator, IsIdentity, build-IsIdentity}
use remote_yubikey_manager.Age.Cli.{PluginOptions, dispatch}
use remote_yubikey_manager.Age.Cli.Printing.{print_multiple}
use remote_yubikey_manager.Age.Cli.Commands.{Gives, Asked, dispatch-Asked}
use remote_yubikey_manager.Age.Cli.Printed.{IsKept, print_multiple_keeps}
use remote_yubikey_manager.Age.Yubikey.Ledger.{IsLedger, Counts}
use remote_yubikey_manager.Age.Tests.Crates.{
  written, Written, read_written, read_written-written, World, start, open_reader, cards,
  Certificate, keys, curve, x509, manager, generator, encode, first_byte,
}

-- The PIN was never set, or to one that the dialogue may choose.
abbrev PinIsGood : World → Type 0
PinIsGood w = (w.pin ≡ []) ⊎ ((text : Text) × IsNewPin text × (w.pin ≡ as_bytes text))

manager-IsKept : Pins.IsKept cards manager PinIsGood
manager-IsKept = record {
  ask_keeps = λ p w h. h;
  verify_pin_keeps = λ y p w h. h;
  change_puk_keeps = λ y old pin w new h. h;
  change_pin_keeps = λ y pin w new h. inr (pin, new, refl);
  get_protected_keeps = λ y w h. h;
  generate_key_keeps = λ w h. h;
  authenticate_keeps = λ y key w h. h;
  set_protected_keeps = λ y key w h. h;
}

manage-Keeps_example : Keeps PinIsGood (λ _. Unit {0}) (manage cards manager 7 2 2 start)
manage-Keeps_example = manage-Keeps cards manager PinIsGood manager-IsKept 7 2 2 start (inl refl)

on_p256 :
    (spki : PublicKeyInfo Bytes)
    → Path (Result YubikeyError (PublicKeyInfo Bytes)) (ok (ec_p256 (encode 8 false))) (ok spki)
    → (pk : ℕ) × (from_spki curve spki ≡ some pk)
unfolding from_spki Recipient.from_encoded
on_p256 (ec_p256 point) e = (first_byte point, refl)
on_p256 other_key e = cc

signed :
    (org name : Text) (e : Extension) (cert : Certificate)
    → Path (Result YubikeyError Certificate) (ok (8, written org name e.oid e.value)) (ok cert)
    → (parsed : Written) × (some (read_written cert.1) ≡ some parsed)
      × (some (some parsed.org) ≡ some (some org))
      × (some (some parsed.label) ≡ some (some name))
      × ((oid : List ℕ)
          → Path
              (Option Bytes)
              (if list_beq oid parsed.oid then some parsed.value else none)
              (if list_beq oid e.oid then some e.value else none))
signed org name e cert q =
    let bytes : cert.1 ≡ written org name e.oid e.value =
      sym (ap (λ (x : Certificate). x.1) (ok-injective q)) in
    (
      record { org = org; label = name; oid = e.oid; value = e.value },
      ap some (ap read_written bytes ∙ read_written-written org name e.oid e.value),
      refl,
      refl,
      (λ oid. refl),
    )

generator-IsGenerator : IsGenerator curve cards keys manager generator x509 7
generator-IsGenerator = record {
  generates_p256 = λ slot p t w spki e. on_p256 spki e;
  signs = λ slot serial end_ org unit name spki e w cert q. signed org name e cert q;
  pin_bytes = (refl, refl, refl);
  touch_bytes = (refl, refl, refl);
}

abbrev pub a_builder : IdentityBuilder
a_builder = record {
  slot = none;
  is_forced = false;
  name = none;
  pin_policy = some PinPolicy.always;
  touch_policy = none;
}

build-IsIdentity_example :
    Holds
      (λ built.
        MayUse curve cards keys manager generator x509 7 none false built.0.slot
        × IsIdentity curve cards keys manager generator x509 7 a_builder built.0.slot built)
      (build curve cards keys manager generator x509 7 a_builder 2 2 start)
build-IsIdentity_example =
    build-IsIdentity curve cards keys manager generator x509 7 generator-IsGenerator a_builder 2 2
      start

-- `--list --serial 7`
abbrev options : PluginOptions
options = record {
  version = false;
  age_plugin = none;
  force = false;
  generate = false;
  identity = false;
  list = true;
  list_all = false;
  name = none;
  pin_policy = none;
  serial = some 7;
  slot = some 3;
  touch_policy = none;
}

dispatch-Asked_example : Gives (Asked options) (dispatch options)
dispatch-Asked_example = dispatch-Asked options

-- What was printed last, if anything was, is of the YubiKey 7. The printer notes it as the PIN.
abbrev printer : Stub RetiredSlotId → ℕ → Metadata → World → World
printer stub pk m w = record w { pin = stub.serial ∷ [] }

abbrev OnlySeven : World → Type 0
OnlySeven w = (w.pin ≡ []) ⊎ (w.pin ≡ 7 ∷ [])

OnlySeven-IsLedger : IsLedger cards (λ n w. OnlySeven w)
OnlySeven-IsLedger = record {
  open_context_keeps = λ n w h. h;
  iter_keeps = λ n x w h. h;
  open_reader_counts = counted;
  disconnect_counts = λ n y w h. h;
  processes_keeps = λ n w h. h;
  kill_with_keeps = λ n p s w a h. h;
  kill_keeps = λ n p w a h. h;
  now_keeps = λ n w h. h;
  sleep_keeps = λ n d w h. h;
}
  where
    counted :
        (n r : ℕ) (w : World) → OnlySeven w → Counts cards (λ m v. OnlySeven v) n (open_reader r w)
    counted n zero w h = h
    counted n (suc r) w h = h

printer-IsKept : IsKept curve cards keys manager x509 printer (some 7) OnlySeven
printer-IsKept = record {
  cards = OnlySeven-IsLedger;
  reset_keeps = λ y w h. h;
  list_keys_keeps = λ y w h. h;
  attest_keeps = λ y slot w h. h;
  printer_keeps = λ stub pk m w shown h. inr (ap (λ n. n ∷ []) shown.asked_for);
}

print_multiple_keeps_example :
    OnlySeven (print_multiple curve cards keys manager x509 printer (some 7) true start).1
print_multiple_keeps_example =
    print_multiple_keeps curve cards keys manager x509 printer (some 7) OnlySeven printer-IsKept
      true start (inl refl)
