-- ===== src/Age/Connection/Verified.antt =====
-- The PIN of a connection, in `request_pin_if_necessary` of age-plugin-yubikey/src/key.rs.
use remote_yubikey_manager.Common.{ℕ, ◌≡◌, ◌⊎◌, refl, inl, inr, [], Option, none, some}
use remote_yubikey_manager.Common.Text.{Text, as_bytes}
use remote_yubikey_manager.Common.Result.{Result, ok, err}
use remote_yubikey_manager.Age.Pin.{
  PinError, Answer, secret, refused, reject, on_answer, on_secret, request_pin, IsPinLength,
  request_pin_bounds,
}
use remote_yubikey_manager.Age.Pin
use remote_yubikey_manager.Age.Policy.{PinPolicy}
use remote_yubikey_manager.Age.Yubikey.{Cards, YubikeyError}
use remote_yubikey_manager.Age.Recipient.{Curve}
use remote_yubikey_manager.Age.Metadata.{X509, Metadata}
use remote_yubikey_manager.Age.Connection.{Callbacks, Keys, identity, stanza, PluginError}
use remote_yubikey_manager.Age.Connection.Session.{
  Session, Pinned, on_verified, on_pin, ask_pin, on_cached, by_policy, on_metadata, metadata_of,
  request_pin_if_necessary,
}

module _ {Point : Type 0} (k : Curve Point) (c : Cards) (keys : Keys c Point) (x509 : X509)
    (cb : Callbacks c.World) where
  open c use {World, YubiKey}

  -- The YubiKey verified a PIN of the right length, or, for a policy that asks for it once, the empty
  -- one.
  abbrev pub Verified : YubiKey → Metadata → Type 0
  Verified y m =
      ((text : Text) × (w : World) × IsPinLength text
        × ((keys.verify_pin y (as_bytes text) w).0 ≡ ok tt))
      ⊎ ((w : World) × (m.pin_policy ≡ some PinPolicy.once) × ((keys.verify_pin y [] w).0 ≡ ok tt))

  module _ (conn : Session k c keys) where
    -- A grant goes with the metadata of the key, whose policy asks for no PIN or a PIN was verified; an
    -- error names the connection by its index.
    abbrev pub Allows : Pinned k c keys x509 cb → Type 0
    Allows (some (ok (ok _)), conn', w) =
        (conn'.yubikey ≡ conn.yubikey)
        × ((m : Metadata) × (conn'.cached_metadata ≡ some m)
            × ((m.pin_policy ≡ some PinPolicy.never) ⊎ Verified conn.yubikey m))
    Allows (some (ok (err (identity i e))), conn', w) = i ≡ conn.identity_index
    Allows (some (ok (err (stanza e))), conn', w) = ⊥
    Allows (some (err e), conn', w) = Unit {0}
    Allows (none, conn', w) = Unit {0}

    module _ (m : Metadata) where
      abbrev with_metadata : Session k c keys
      with_metadata = record conn { cached_metadata = some m }

      on_verified-Allows :
          (text : Text) (w : World)
          → IsPinLength text
          → Allows (
              on_verified k c keys x509 cb with_metadata
                (keys.verify_pin conn.yubikey (as_bytes text) w))
      on_verified-Allows text w may = go (keys.verify_pin conn.yubikey (as_bytes text) w) refl
        where
          go :
              (o : Result YubikeyError (Unit {0}) × World)
              → keys.verify_pin conn.yubikey (as_bytes text) w ≡ o
              → Allows (on_verified k c keys x509 cb with_metadata o)
          go (ok u, w') e = (refl, (m, refl, inr (inl (text, w, may, rw e refl))))
          go (err x, w') e = refl

      on_pin-Allows :
          (o : Option (Answer PluginError cb.IoError) × World)
          → ((pin : Text) → o.0 ≡ some (secret pin) → IsPinLength pin)
          → Allows (on_pin k c keys x509 cb with_metadata o)
      on_pin-Allows (none, w) h = tt
      on_pin-Allows (some (Pin.broken e), w) h = tt
      on_pin-Allows (some (refused e), w) h = refl
      on_pin-Allows (some (secret pin), w) h = on_verified-Allows pin w (h pin refl)

      ask_pin-Allows :
          (fuel : ℕ) (w : World) → Allows (ask_pin k c keys x509 cb fuel with_metadata w)
      unfolding ask_pin
      ask_pin-Allows fuel w =
          on_pin-Allows
            (request_pin (cb.request_secret (c.serial_of conn.yubikey)) (c.serial_of conn.yubikey)
              fuel none w)
            (request_pin_bounds (cb.request_secret (c.serial_of conn.yubikey))
              (c.serial_of conn.yubikey) fuel none w)

      on_cached-Allows :
          (fuel : ℕ) (w : World)
          → m.pin_policy ≡ some PinPolicy.once
          → Allows
              (on_cached k c keys x509 cb fuel with_metadata (keys.verify_pin conn.yubikey [] w))
      on_cached-Allows fuel w once = go (keys.verify_pin conn.yubikey [] w) refl
        where
          go :
              (o : Result YubikeyError (Unit {0}) × World)
              → keys.verify_pin conn.yubikey [] w ≡ o
              → Allows (on_cached k c keys x509 cb fuel with_metadata o)
          go (ok u, w') e = (refl, (m, refl, inr (inr (w, once, rw e refl))))
          go (err x, w') e = ask_pin-Allows fuel w'

      by_policy-Allows :
          (fuel : ℕ) (p : Option PinPolicy) (w : World)
          → m.pin_policy ≡ p
          → Allows (by_policy k c keys x509 cb fuel with_metadata p w)
      by_policy-Allows fuel (some PinPolicy.never) w e = (refl, (m, refl, inl e))
      by_policy-Allows fuel (some PinPolicy.once) w e = on_cached-Allows fuel w e
      by_policy-Allows fuel (some PinPolicy.always) w e = ask_pin-Allows fuel w
      by_policy-Allows fuel (some PinPolicy.default) w e = ask_pin-Allows fuel w
      by_policy-Allows fuel none w e = ask_pin-Allows fuel w

    on_metadata-Allows :
        (fuel : ℕ) (o : Option Metadata × World) → Allows (on_metadata k c keys x509 cb fuel conn o)
    on_metadata-Allows fuel (none, w) = refl
    on_metadata-Allows fuel (some m, w) = by_policy-Allows m fuel m.pin_policy w refl

    -- Whatever the user, the client and the YubiKey do, a connection may be used only if the policy of
    -- its key asks for no PIN, or after the YubiKey has verified a PIN of 6 to 8 bytes, or the empty one
    -- for a policy that asks for it once; an error names the connection by its index.
    pub request_pin_if_necessary-Allows :
        (fuel : ℕ) (w : World) → Allows (request_pin_if_necessary k c keys x509 cb fuel conn w)
    unfolding request_pin_if_necessary
    request_pin_if_necessary-Allows fuel w =
        on_metadata-Allows fuel (metadata_of k c keys x509 cb conn conn.cached_metadata w)
