-- ===== src/Age/Connection/Session.antt =====
-- `Connection::request_pin_if_necessary` and `Connection::unwrap_file_key` of
-- age-plugin-yubikey/src/key.rs, with the connection before and after each.
use remote_yubikey_manager.Common.{
  ℕ, ◌+◌, Bool, true, false, [], Option, none, some, leb, ◌==◌, length, if◌then◌else◌,
}
use remote_yubikey_manager.Common.Bytes.{Bytes}
use remote_yubikey_manager.Common.Eq.{nat_eq, list_beq}
use remote_yubikey_manager.Common.Text.{as_bytes}
use remote_yubikey_manager.Common.Result.{Result, ok, err}
use remote_yubikey_manager.Common.Outcome.{Outcome, panic}
use remote_yubikey_manager.Age.Stanza.{RecipientLine}
use remote_yubikey_manager.Age.Pin.{Answer, secret, refused, request_pin}
use remote_yubikey_manager.Age.Pin
use remote_yubikey_manager.Age.Policy.{PinPolicy, TouchPolicy}
use remote_yubikey_manager.Age.Yubikey.{Cards, YubikeyError, fifteen_seconds}
use remote_yubikey_manager.Age.Recipient.{Curve, Crypto, salt, stanza_key_label, file_key_bytes}
use remote_yubikey_manager.Age.Metadata.{X509, Metadata, extract}
use remote_yubikey_manager.Age.Connection.{
  Callbacks, Keys, Connection, IdentityError, identity, ErrorMessage, yk_invalid_pin_policy,
  pin_required, yubikey_error, PluginError,
}

module _ {Point : Type 0} (k : Curve Point) (c : Cards) (keys : Keys c Point) where
  open c use {World, YubiKey}

  abbrev pub Session : Type 0
  Session = Connection k c keys.Certificate

  module _ (x509 : X509) (cb : Callbacks c.World) where
    -- The result for the caller, the connection, and the world; `none`: the fuel ran out.
    abbrev pub Pinned : Type 0
    Pinned = Option (Result cb.IoError (Result IdentityError (Unit {0}))) × Session × World

    abbrev pub granted : Session → World → Pinned
    granted conn w = (some (ok (ok tt)), conn, w)

    abbrev pub deny : Session → ErrorMessage → World → Pinned
    deny conn message w = (some (ok (err (identity conn.identity_index message))), conn, w)

    abbrev pub on_verified : Session → Result YubikeyError (Unit {0}) × World → Pinned
    on_verified conn (ok _, w) = granted conn w
    on_verified conn (err e, w) = deny conn (yubikey_error e) w

    abbrev pub on_pin : Session → Option (Answer PluginError cb.IoError) × World → Pinned
    on_pin conn (none, w) = (none, conn, w)
    on_pin conn (some (Pin.broken e), w) = (some (err e), conn, w)
    on_pin conn (some (refused e), w) = deny conn (pin_required (c.serial_of conn.yubikey)) w
    on_pin conn (some (secret pin), w) =
        on_verified conn (keys.verify_pin conn.yubikey (as_bytes pin) w)

    unfoldable pub ask_pin : ℕ → Session → World → Pinned
    ask_pin fuel conn w = on_pin conn (
        request_pin (cb.request_secret (c.serial_of conn.yubikey)) (c.serial_of conn.yubikey) fuel
          none w)

    -- The PIN is still verified in the YubiKey's session.
    abbrev pub on_cached : ℕ → Session → Result YubikeyError (Unit {0}) × World → Pinned
    on_cached fuel conn (ok _, w) = granted conn w
    on_cached fuel conn (err e, w) = ask_pin fuel conn w

    abbrev pub by_policy : ℕ → Session → Option PinPolicy → World → Pinned
    by_policy fuel conn (some PinPolicy.never) w = granted conn w
    by_policy fuel conn (some PinPolicy.once) w =
        on_cached fuel conn (keys.verify_pin conn.yubikey [] w)
    by_policy fuel conn (some PinPolicy.always) w = ask_pin fuel conn w
    by_policy fuel conn (some PinPolicy.default) w = ask_pin fuel conn w
    by_policy fuel conn none w = ask_pin fuel conn w

    abbrev pub on_metadata : ℕ → Session → Option Metadata × World → Pinned
    on_metadata fuel conn (none, w) = deny conn yk_invalid_pin_policy w
    on_metadata fuel conn (some m, w) =
        by_policy fuel (record conn { cached_metadata = some m }) m.pin_policy w

    abbrev pub metadata_of : Session → Option Metadata → World → Option Metadata × World
    metadata_of conn (some m) w = (some m, w)
    metadata_of conn none w =
        extract x509 c keys.attest conn.yubikey conn.slot (keys.cert_bytes conn.cert) true w

    unfoldable pub request_pin_if_necessary : ℕ → Session → World → Pinned
    request_pin_if_necessary fuel conn w =
        on_metadata fuel conn (metadata_of conn conn.cached_metadata w)

  abbrev pub elapsed : ℕ → ℕ × World → Bool × World
  elapsed last (now, w) = (leb (last + fifteen_seconds) now, w)

  unfoldable pub needs_touch : Option TouchPolicy → Option ℕ → World → Bool × World
  needs_touch (some TouchPolicy.always) last w = (true, w)
  needs_touch (some TouchPolicy.cached) none w = (true, w)
  needs_touch (some TouchPolicy.cached) (some last) w = elapsed last (keys.instant w)
  needs_touch (some TouchPolicy.never) last w = (false, w)
  needs_touch (some TouchPolicy.default) last w = (false, w)
  needs_touch none last w = (false, w)

  abbrev pub touch_policy_of : Option Metadata → Option TouchPolicy
  touch_policy_of none = none
  touch_policy_of (some m) = m.touch_policy

  -- The touch that was needed is remembered, if the policy caches it.
  unfoldable pub note_touch : Session → Bool → Option TouchPolicy → World → Session × World
  note_touch conn true (some TouchPolicy.cached) w =
      let (now, w') = keys.instant w in (record conn { last_touch = some now }, w')
  note_touch conn true (some TouchPolicy.always) w = (conn, w)
  note_touch conn true (some TouchPolicy.never) w = (conn, w)
  note_touch conn true (some TouchPolicy.default) w = (conn, w)
  note_touch conn true none w = (conn, w)
  note_touch conn false policy w = (conn, w)

  module _ (x : Crypto k) where
    -- `Err(())` of the source is `err tt`, a panic `panic`.
    abbrev pub Unwrapped : Type 0
    Unwrapped = Outcome (Unit {0}) Bytes × Session × World

    abbrev pub sized : Bytes → Outcome (Unit {0}) Bytes
    sized pt = if length pt == file_key_bytes then Outcome.ok pt else panic

    abbrev pub on_decrypted : Option Bytes → Outcome (Unit {0}) Bytes
    on_decrypted none = Outcome.err tt
    on_decrypted (some pt) = sized pt

    unfoldable pub open_key : Session → RecipientLine Point → Bytes → Outcome (Unit {0}) Bytes
    open_key conn line shared_secret =
        let enc_key = x.hkdf (salt k x line.epk_bytes conn.pk) stanza_key_label shared_secret in
        on_decrypted (x.aead_decrypt enc_key file_key_bytes line.encrypted_file_key)

    abbrev pub on_shared :
        Session → RecipientLine Point → Bool → Result YubikeyError Bytes × World → Unwrapped
    on_shared conn line touched (err e, w) = (Outcome.err tt, conn, w)
    on_shared conn line touched (ok shared_secret, w) =
        let (conn', w') = note_touch conn touched (touch_policy_of conn.cached_metadata) w in
        (open_key conn' line shared_secret, conn', w')

    -- `decompress`, whose `unwrap` panics on an invalid point
    abbrev pub on_point :
        Session → RecipientLine Point → Bool → World → Option k.PublicKey → Unwrapped
    on_point conn line touched w none = (panic, conn, w)
    on_point conn line touched w (some p) = on_shared conn line touched (
        keys.decrypt_data conn.yubikey (k.points.point_as_bytes (k.to_encoded_point p false))
          conn.slot w)

    abbrev pub on_touch : Session → RecipientLine Point → Bool × World → Unwrapped
    on_touch conn line (touched, w) =
        on_point conn line touched w (k.from_encoded_point line.epk_bytes)

    unfoldable pub unwrap_file_key : Session → RecipientLine Point → World → Unwrapped
    unwrap_file_key conn line w =
        if list_beq conn.tag line.line_tag
        then on_touch conn line
            (needs_touch (touch_policy_of conn.cached_metadata) conn.last_touch w)
        else (panic, conn, w)
