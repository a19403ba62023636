-- ===== src/Age/Connection.antt =====
-- `Stub::connect` and `Connection` of age-plugin-yubikey/src/key.rs: the dialogue until the YubiKey of a
-- stub is there, the PIN, and the decryption of a file key. The age client and the calls of the
-- yubikey crate on an open connection are the records `Callbacks` and `Keys`.
pub mod Connect
pub mod Session
pub mod Verified
pub mod Kept
pub mod Unwrapping
pub mod Patience
pub mod Ending
use remote_yubikey_manager.Common.{
  ℕ, zero, suc, ◌+◌, ◌≤◌, Bool, true, false, List, [], ◌∷◌, Option, none, some, leb, ◌==◌, length,
  if◌then◌else◌,
}
use remote_yubikey_manager.Common.Bytes.{Bytes}
use remote_yubikey_manager.Common.Eq.{nat_eq, list_beq}
use remote_yubikey_manager.Common.Text.{Text, as_bytes}
use remote_yubikey_manager.Common.Result.{Result, ok, err}
use remote_yubikey_manager.Age.Slots.{RetiredSlotId}
use remote_yubikey_manager.Age.Stub.{Stub}
use remote_yubikey_manager.Age.Pin.{PinError, Answer}
use remote_yubikey_manager.Age.Candidates.{StanzaError}
use remote_yubikey_manager.Age.Yubikey.{
  Cards, YubikeyError, not_found, open_by_serial, timed_out, one_second,
}
use remote_yubikey_manager.Age.Recipient.{Curve, PublicKeyInfo, Recipient, from_spki, tag}
use remote_yubikey_manager.Age.Metadata.{X509, Metadata}

-- `age_core::plugin::Error`
pub data PluginError : Type 0 where
  unsupported fail : PluginError

-- What is shown to the user, for a serial number.
pub data Message : Type 0 where
  insert_yk insert_yk_retry : ℕ → Message

-- The text of an error
pub data ErrorMessage : Type 0 where
  yk_opening yk_not_found yk_timed_out pin_required : ℕ → ErrorMessage
  yk_stub_mismatch yk_invalid_pin_policy invalid_identity invalid_recipient : ErrorMessage
  yubikey_error : YubikeyError → ErrorMessage

-- `identity::Error` of age-plugin
pub data IdentityError : Type 0 where
  identity : ℕ → ErrorMessage → IdentityError
  stanza : StanzaError → IdentityError

-- `age_plugin::Callbacks`, with the errors of the communication with the client
pub record Callbacks (World : Type 0) : Type 1 where
  pub IoError : Type 0
  pub confirm : Message → World → Result IoError (Result PluginError Bool) × World
  pub message : Message → World → Result IoError (Result PluginError (Unit {0})) × World
  pub request_secret : ℕ → Option PinError → World → Answer PluginError IoError × World
  pub error : IdentityError → World → Result IoError (Result PluginError (Unit {0})) × World

-- The calls of the yubikey crate on a connection
pub record Keys (c : Cards) (Point : Type 0) : Type 1 where
  pub Certificate : Type 0
  pub cert_bytes : Certificate → Bytes
  pub subject_pki : Certificate → PublicKeyInfo Point
  pub read_certificate :
      c.YubiKey → RetiredSlotId → c.World → Result YubikeyError Certificate × c.World
  pub verify_pin : c.YubiKey → Bytes → c.World → Result YubikeyError (Unit {0}) × c.World
  pub decrypt_data :
      c.YubiKey → Bytes → RetiredSlotId → c.World → Result YubikeyError Bytes × c.World
  pub attest : c.YubiKey → RetiredSlotId → c.World → Option Bytes × c.World
  pub instant : c.World → ℕ × c.World

pub record Connection {Point : Type 0} (k : Curve Point) (c : Cards) (Certificate : Type 0)
    : Type 0 where
  pub yubikey : c.YubiKey
  pub cert : Certificate
  pub pk : k.PublicKey
  pub slot : RetiredSlotId
  pub tag : Bytes
  pub identity_index : ℕ
  pub cached_metadata : Option Metadata
  pub last_touch : Option ℕ

-- `Ok(Ok(Some(_)))`, `Ok(Ok(None))`, `Ok(Err(_))` and `Err(_)` of `connect`
pub data Attempt (IoError A : Type 0) : Type 0 where
  connected : A → Attempt IoError A
  skipped : Attempt IoError A
  failed : IdentityError → Attempt IoError A
  broken : IoError → Attempt IoError A

module _ {Point : Type 0} (k : Curve Point) (c : Cards) (keys : Keys c Point)
    (cb : Callbacks c.World) (stub : Stub RetiredSlotId) where
  open c use {World, YubiKey}

  -- The result of `connect`; `none`: the fuel of a loop ran out.
  abbrev pub Connecting : Type 0
  Connecting = Option (Attempt cb.IoError (Connection k c keys.Certificate)) × World

  abbrev pub fail_with : ErrorMessage → World → Connecting
  fail_with message w = (some (failed (identity stub.identity_index message)), w)

  -- `Recipient::from_certificate` with the filter on the tag
  unfoldable pub matching_key : keys.Certificate → Option (Recipient k)
  matching_key cert = elim (from_spki k (keys.subject_pki cert)) [
    | none ↦ none
    | some pk ↦ if list_beq (tag k pk) stub.tag then some pk else none
  ]

  -- Without the key the connection is dropped.
  abbrev pub on_key : YubiKey → keys.Certificate → Option (Recipient k) → World → Connecting
  on_key y cert none w = fail_with yk_stub_mismatch (c.reset y w)
  on_key y cert (some pk) w = (
    some (
        connected (record {
          yubikey = y;
          cert = cert;
          pk = pk;
          slot = stub.slot;
          tag = stub.tag;
          identity_index = stub.identity_index;
          cached_metadata = none;
          last_touch = none;
        })),
    w,
  )

  abbrev pub on_certificate : YubiKey → Result YubikeyError keys.Certificate × World → Connecting
  on_certificate y (err e, w) = fail_with yk_stub_mismatch (c.reset y w)
  on_certificate y (ok cert, w) = on_key y cert (matching_key cert) w

  unfoldable pub check_key : YubiKey → World → Connecting
  check_key y w = on_certificate y (keys.read_certificate y stub.slot w)

  abbrev pub Opened : Type 0
  Opened = Result YubikeyError YubiKey × World

  -- The arms on `open_by_serial`, which differ only in what follows when the YubiKey is missing
  abbrev pub on_opened : (World → Connecting) → Opened → Connecting
  on_opened missing (ok y, w) = check_key y w
  on_opened missing (err not_found, w) = missing w
  on_opened missing (err e, w) = fail_with (yk_opening stub.serial) w

  abbrev pub try_again : (World → Connecting) → ℕ → ℕ × World → Connecting
  try_again again start (end_, w) =
      if timed_out start end_
      then fail_with (yk_timed_out stub.serial) w
      else again (c.sleep one_second w)

  -- The loop with a timer
  unfoldable pub await : ℕ → ℕ → World → Connecting
  await zero start w = (none, w)
  await (suc rounds) start w =
      on_opened (λ w'. try_again (await rounds start) start (c.now w'))
        (open_by_serial c stub.serial w)

  abbrev pub on_message : ℕ → Result cb.IoError (Result PluginError (Unit {0})) × World → Connecting
  on_message rounds (err e, w) = (some (broken e), w)
  on_message rounds (ok (err e), w) = fail_with (yk_not_found stub.serial) w
  on_message rounds (ok (ok _), w) = let (start, w') = c.now w in await rounds start w'

  abbrev pub on_confirm :
      (World → Connecting)
      → ℕ
      → Message
      → Result cb.IoError (Result PluginError Bool) × World
      → Connecting
  on_confirm again rounds message (err e, w) = (some (broken e), w)
  on_confirm again rounds message (ok (err unsupported), w) =
      on_message rounds (cb.message message w)
  on_confirm again rounds message (ok (err fail), w) = fail_with (yk_opening stub.serial) w
  on_confirm again rounds message (ok (ok false), w) = (some skipped, w)
  on_confirm again rounds message (ok (ok true), w) =
      on_opened again (open_by_serial c stub.serial w)

  -- The loop with `confirm`
  unfoldable pub ask_to_insert : ℕ → ℕ → Message → World → Connecting
  ask_to_insert zero rounds message w = (none, w)
  ask_to_insert (suc fuel) rounds message w =
      on_confirm (ask_to_insert fuel rounds (insert_yk_retry stub.serial)) rounds message
        (cb.confirm message w)

  unfoldable pub connect : ℕ → ℕ → World → Connecting
  connect fuel rounds w =
      on_opened (ask_to_insert fuel rounds (insert_yk stub.serial)) (open_by_serial c stub.serial w)
