-- ===== src/Age/Cli/Printing.antt =====
-- `print_single` and `print_multiple` of age-plugin-yubikey/src/main.rs, with what is done for an identity
-- as a parameter.
use remote_yubikey_manager.Common.{
  ℕ, Bool, true, false, List, [], ◌∷◌, Option, none, some, ◌==◌, if◌then◌else◌,
}
use remote_yubikey_manager.Common.Eq.{nat_eq}
use remote_yubikey_manager.Common.Result.{Result}
use remote_yubikey_manager.Common.Outcome.{Outcome, ok, err, panic}
use remote_yubikey_manager.Age.Slots.{RetiredSlotId, ordinal}
use remote_yubikey_manager.Age.Stub.{Stub}
use remote_yubikey_manager.Age.Error.{Error, slot_has_no_identity, yubikey}
use remote_yubikey_manager.Age.Yubikey.{
  Cards, YubikeyError, filter_connected, open_connection, disconnect_without_reset,
}
use remote_yubikey_manager.Age.Recipient.{Curve, Recipient, tag}
use remote_yubikey_manager.Age.Metadata.{X509, Metadata, extract}
use remote_yubikey_manager.Age.Connection.{Keys}
use remote_yubikey_manager.Age.Manage.{Key, Manager, list_compatible, try_as}
use remote_yubikey_manager.Age.Step.{Step, next, stopped, panicked, starved}
use remote_yubikey_manager.Age.Step
use remote_yubikey_manager.Age.Opening.{open_yubikey}

module _ {Point : Type 0} (k : Curve Point) (c : Cards) (keys : Keys c Point)
    (mgr : Manager c keys.Certificate) (x509 : X509)
    (printer : Stub RetiredSlotId → Recipient k → Metadata → c.World → c.World) where
  open c use {World, Context, Reader, YubiKey}

  abbrev pub Printing : Type 0
  Printing = Step Error (Unit {0}) × World

  abbrev pub Entry : Type 0
  Entry = Key keys.Certificate × RetiredSlotId × Recipient k

  -- `Stub::new`
  abbrev pub stub_for : YubiKey → RetiredSlotId → Recipient k → Stub RetiredSlotId
  stub_for y slot pk = record {
    serial = c.serial_of y;
    slot = slot;
    tag = tag k pk;
    identity_index = 0;
  }

  -- `find` by the slot
  unfoldable pub find_entry : RetiredSlotId → List Entry → Option Entry
  find_entry slot [] = none
  find_entry slot (e ∷ es) =
      let later = find_entry slot es in if ordinal e.1 == ordinal slot then some e else later

  abbrev pub print_found : YubiKey → Entry → Option Metadata × World → Printing
  print_found y e (none, w) = (panicked, c.reset y w)
  print_found y (key, slot, pk) (some m, w) =
      (next tt, disconnect_without_reset c y (printer (stub_for y slot pk) pk m w))

  abbrev pub on_entry : YubiKey → RetiredSlotId → Option Entry → World → Printing
  on_entry y slot none w = (stopped (slot_has_no_identity slot), c.reset y w)
  on_entry y slot (some (key, s, pk)) w =
      print_found y (key, s, pk)
        (extract x509 c keys.attest y s (keys.cert_bytes key.certificate) true w)

  abbrev pub on_listed :
      YubiKey → RetiredSlotId → Result YubikeyError (List (Key keys.Certificate)) × World → Printing
  on_listed y slot (Result.err e, w) = (stopped (yubikey e), c.reset y w)
  on_listed y slot (Result.ok ks, w) =
      on_entry y slot (find_entry slot (list_compatible k keys.subject_pki ks)) w

  abbrev pub on_single : RetiredSlotId → Option (Outcome Error YubiKey) × World → Printing
  on_single slot (none, w) = (starved, w)
  on_single slot (some (err e), w) = (stopped e, w)
  on_single slot (some panic, w) = (panicked, w)
  on_single slot (some (ok y), w) = on_listed y slot (mgr.list_keys y w)

  unfoldable pub print_single : ℕ → Option ℕ → RetiredSlotId → World → Printing
  print_single fuel serial slot w = on_single slot (open_yubikey c fuel serial w)

  -- An entry without metadata is passed over.
  abbrev pub print_entry : YubiKey → Entry → Option Metadata × World → World
  print_entry y (key, slot, pk) (none, w) = w
  print_entry y (key, slot, pk) (some m, w) = printer (stub_for y slot pk) pk m w

  unfoldable pub print_entries : YubiKey → Bool → List Entry → World → World
  print_entries y all [] w = w
  print_entries y all (e ∷ es) w =
      print_entries y all es
        (print_entry y e (extract x509 c keys.attest y e.1 (keys.cert_bytes e.0.certificate) all w))

  -- Whether the YubiKey is not the one that was asked for
  abbrev pub is_other : Option ℕ → YubiKey → Bool
  is_other none y = false
  is_other (some serial) y = if c.serial_of y == serial then false else true

  abbrev pub on_keys :
      (World → Printing)
      → YubiKey
      → Bool
      → Result YubikeyError (List (Key keys.Certificate)) × World
      → Printing
  on_keys later y all (Result.err e, w) = (stopped (yubikey e), c.reset y w)
  on_keys later y all (Result.ok ks, w) =
      later (
        disconnect_without_reset c y
          (print_entries y all (list_compatible k keys.subject_pki ks) w))

  -- The `continue` on another YubiKey drops the connection.
  abbrev pub on_yubikey :
      (World → Printing) → Option ℕ → Bool → Result YubikeyError YubiKey × World → Printing
  on_yubikey later serial all (Result.err e, w) = (stopped (yubikey e), w)
  on_yubikey later serial all (Result.ok y, w) =
      if is_other serial y then later (c.reset y w) else on_keys later y all (mgr.list_keys y w)

  abbrev pub on_connected : (World → Printing) → Option ℕ → Bool → Reader → Bool × World → Printing
  on_connected later serial all r (false, w) = later w
  on_connected later serial all r (true, w) = on_yubikey later serial all (open_connection c r w)

  unfoldable pub print_readers : Option ℕ → Bool → List Reader → World → Printing
  print_readers serial all [] w = (next tt, w)
  print_readers serial all (r ∷ rs) w =
      on_connected (print_readers serial all rs) serial all r (filter_connected c r w)

  unfoldable pub print_multiple : Option ℕ → Bool → World → Printing
  print_multiple serial all w =
      Step.◌>>=◌ (try_as yubikey (c.open_context w)) (λ x w1.
        Step.◌>>=◌ (try_as yubikey (c.iter x w1)) (λ rs w2. print_readers serial all rs w2))
