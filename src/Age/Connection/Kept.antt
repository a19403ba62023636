-- ===== src/Age/Connection/Kept.antt =====
-- What a connection of age-plugin-yubikey/src/key.rs keeps over `request_pin_if_necessary` and
-- `unwrap_file_key`.
use remote_yubikey_manager.Common.{
  ℕ, inl, inr, Bool, true, false, [], Option, none, some, Bool-cases,
}
use remote_yubikey_manager.Common.Bytes.{Bytes}
use remote_yubikey_manager.Common.Eq.{nat_eq, list_beq}
use remote_yubikey_manager.Common.Result.{Result, ok, err}
use remote_yubikey_manager.Age.Slots.{RetiredSlotId}
use remote_yubikey_manager.Age.Stub.{Stub}
use remote_yubikey_manager.Age.Stanza.{RecipientLine}
use remote_yubikey_manager.Age.Pin.{Answer, secret, refused, request_pin}
use remote_yubikey_manager.Age.Pin
use remote_yubikey_manager.Age.Policy.{PinPolicy, TouchPolicy}
use remote_yubikey_manager.Age.Yubikey.{Cards, YubikeyError}
use remote_yubikey_manager.Age.Recipient.{Curve, Crypto}
use remote_yubikey_manager.Age.Metadata.{X509, Metadata}
use remote_yubikey_manager.Age.Connection.{Callbacks, Keys, PluginError}
use remote_yubikey_manager.Age.Connection.Connect.{IsFor}
use remote_yubikey_manager.Age.Connection.Session.{
  Session, note_touch, needs_touch, touch_policy_of, on_shared, on_point, on_touch, unwrap_file_key,
  on_verified, on_pin, ask_pin, on_cached, by_policy, on_metadata, metadata_of,
  request_pin_if_necessary,
}
use remote_yubikey_manager.Common.Text.{as_bytes}

module _ {Point : Type 0} (k : Curve Point) (c : Cards) (keys : Keys c Point)
    (cb : Callbacks c.World) (stub : Stub RetiredSlotId) where
  open c use {World, YubiKey}

  abbrev For : Session k c keys → Type 0
  For = IsFor k c keys cb stub

  touched-IsFor :
      (conn : Session k c keys) (t : Option ℕ) → For conn → For (record conn { last_touch = t })
  touched-IsFor conn t h = record {
    serial_agrees = h.serial_agrees;
    cert_has_key = h.cert_has_key;
    key_agrees = h.key_agrees;
    tag_agrees = h.tag_agrees;
    slot_agrees = h.slot_agrees;
    index_agrees = h.index_agrees;
  }

  cached-IsFor :
      (conn : Session k c keys) (m : Option Metadata)
      → For conn
      → For (record conn { cached_metadata = m })
  cached-IsFor conn m h = record {
    serial_agrees = h.serial_agrees;
    cert_has_key = h.cert_has_key;
    key_agrees = h.key_agrees;
    tag_agrees = h.tag_agrees;
    slot_agrees = h.slot_agrees;
    index_agrees = h.index_agrees;
  }

  note_touch-IsFor :
      (conn : Session k c keys) (b : Bool) (p : Option TouchPolicy) (w : World)
      → For conn
      → For (note_touch k c keys conn b p w).0
  unfolding note_touch
  note_touch-IsFor conn true (some TouchPolicy.cached) w h =
      touched-IsFor conn (some (keys.instant w).0) h
  note_touch-IsFor conn true (some TouchPolicy.always) w h = h
  note_touch-IsFor conn true (some TouchPolicy.never) w h = h
  note_touch-IsFor conn true (some TouchPolicy.default) w h = h
  note_touch-IsFor conn true none w h = h
  note_touch-IsFor conn false p w h = h

  module _ (x : Crypto k) (conn : Session k c keys) (line : RecipientLine Point)
      (h : For conn) where
    on_shared-IsFor :
        (b : Bool) (o : Result YubikeyError Bytes × World)
        → For (on_shared k c keys x conn line b o).1
    on_shared-IsFor b (err e, w) = h
    on_shared-IsFor b (ok s, w) =
        note_touch-IsFor conn b (touch_policy_of k c keys conn.cached_metadata) w h

    on_point-IsFor :
        (b : Bool) (w : World) (p : Option k.PublicKey)
        → For (on_point k c keys x conn line b w p).1
    on_point-IsFor b w none = h
    on_point-IsFor b w (some p) = on_shared-IsFor b (
        keys.decrypt_data conn.yubikey (k.points.point_as_bytes (k.to_encoded_point p false))
          conn.slot w)

    on_touch-IsFor : (o : Bool × World) → For (on_touch k c keys x conn line o).1
    on_touch-IsFor (b, w) = on_point-IsFor b w (k.from_encoded_point line.epk_bytes)

    pub unwrap_file_key-IsFor : (w : World) → For (unwrap_file_key k c keys x conn line w).1
    unfolding unwrap_file_key
    unwrap_file_key-IsFor w = elim (Bool-cases (list_beq conn.tag line.line_tag)) [
      | inl t ↦
          rw (unwrap_file_key, t)
            (on_touch-IsFor (
              needs_touch k c keys (touch_policy_of k c keys conn.cached_metadata) conn.last_touch
                w))
      | inr f ↦ rw (unwrap_file_key, f) h
    ]

  module _ (x509 : X509) where
    on_verified-IsFor :
        (conn : Session k c keys) (o : Result YubikeyError (Unit {0}) × World)
        → For conn
        → For (on_verified k c keys x509 cb conn o).1
    on_verified-IsFor conn (ok u, w) h = h
    on_verified-IsFor conn (err e, w) h = h

    on_pin-IsFor :
        (conn : Session k c keys) (o : Option (Answer PluginError cb.IoError) × World)
        → For conn
        → For (on_pin k c keys x509 cb conn o).1
    on_pin-IsFor conn (none, w) h = h
    on_pin-IsFor conn (some (Pin.broken e), w) h = h
    on_pin-IsFor conn (some (refused e), w) h = h
    on_pin-IsFor conn (some (secret pin), w) h =
        on_verified-IsFor conn (keys.verify_pin conn.yubikey (as_bytes pin) w) h

    ask_pin-IsFor :
        (fuel : ℕ) (conn : Session k c keys) (w : World)
        → For conn
        → For (ask_pin k c keys x509 cb fuel conn w).1
    unfolding ask_pin
    ask_pin-IsFor fuel conn w = on_pin-IsFor conn (
        request_pin (cb.request_secret (c.serial_of conn.yubikey)) (c.serial_of conn.yubikey) fuel
          none w)

    on_cached-IsFor :
        (fuel : ℕ) (conn : Session k c keys) (o : Result YubikeyError (Unit {0}) × World)
        → For conn
        → For (on_cached k c keys x509 cb fuel conn o).1
    on_cached-IsFor fuel conn (ok u, w) h = h
    on_cached-IsFor fuel conn (err e, w) h = ask_pin-IsFor fuel conn w h

    by_policy-IsFor :
        (fuel : ℕ) (conn : Session k c keys) (p : Option PinPolicy) (w : World)
        → For conn
        → For (by_policy k c keys x509 cb fuel conn p w).1
    by_policy-IsFor fuel conn (some PinPolicy.never) w h = h
    by_policy-IsFor fuel conn (some PinPolicy.once) w h =
        on_cached-IsFor fuel conn (keys.verify_pin conn.yubikey [] w) h
    by_policy-IsFor fuel conn (some PinPolicy.always) w h = ask_pin-IsFor fuel conn w h
    by_policy-IsFor fuel conn (some PinPolicy.default) w h = ask_pin-IsFor fuel conn w h
    by_policy-IsFor fuel conn none w h = ask_pin-IsFor fuel conn w h

    pub request_pin_if_necessary-IsFor :
        (fuel : ℕ) (conn : Session k c keys) (w : World)
        → For conn
        → For (request_pin_if_necessary k c keys x509 cb fuel conn w).1
    unfolding request_pin_if_necessary
    request_pin_if_necessary-IsFor fuel conn w h =
        with_metadata (metadata_of k c keys x509 cb conn conn.cached_metadata w)
      where
        with_metadata :
            (o : Option Metadata × World) → For (on_metadata k c keys x509 cb fuel conn o).1
        with_metadata (none, w') = h
        with_metadata (some m, w') =
            by_policy-IsFor fuel (record conn { cached_metadata = some m }) m.pin_policy w'
              (cached-IsFor conn (some m) h)
