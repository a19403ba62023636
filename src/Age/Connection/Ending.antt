-- ===== src/Age/Connection/Ending.antt =====
-- What a connection of age-plugin-yubikey/src/key.rs spends of a person's patience: the PIN dialogue
-- ends, and decryption asks for nothing.
use remote_yubikey_manager.Common.{
  ℕ, zero, suc, ◌≤◌, ◌<◌, ◌≡◌, refl, inl, inr, Bool, true, false, [], Option, none, some,
  Bool-cases, arith,
}
use remote_yubikey_manager.Common.Bytes.{Bytes}
use remote_yubikey_manager.Common.Eq.{nat_eq, list_beq}
use remote_yubikey_manager.Common.Text.{Text, as_bytes}
use remote_yubikey_manager.Common.Result.{Result, ok, err}
use remote_yubikey_manager.Age.Slots.{RetiredSlotId}
use remote_yubikey_manager.Age.Stanza.{RecipientLine}
use remote_yubikey_manager.Age.Pin.{
  Answer, PinError, secret, refused, request_pin, on_answer, on_secret, reject,
}
use remote_yubikey_manager.Age.Pin
use remote_yubikey_manager.Age.Policy.{PinPolicy, TouchPolicy}
use remote_yubikey_manager.Age.Yubikey.{Cards, YubikeyError}
use remote_yubikey_manager.Age.Recipient.{Curve, Crypto}
use remote_yubikey_manager.Age.Metadata.{X509, Metadata, extract, extract_name, on_parsed, on_name}
use remote_yubikey_manager.Age.Connection.{Callbacks, Keys, PluginError}
use remote_yubikey_manager.Age.Connection.Patience.{IsPatient, Ends, Ends-le}
use remote_yubikey_manager.Age.Connection.Session.{
  Session, Pinned, note_touch, needs_touch, touch_policy_of, on_shared, on_point, unwrap_file_key,
  on_verified, on_pin, ask_pin, on_cached, by_policy, on_metadata, metadata_of,
  request_pin_if_necessary,
}

module _ {Point : Type 0} (k : Curve Point) (c : Cards) (keys : Keys c Point)
    (cb : Callbacks c.World) (time patience : c.World → ℕ)
    (l : IsPatient k c keys cb time patience) where
  open c use {World, YubiKey}

  module _ (serial : ℕ) where
    abbrev Dialogue : Type 0
    Dialogue = Option PinError → World → Option (Answer PluginError cb.IoError) × World

    on_secret-Ends :
        (p : ℕ) (again : Dialogue) (pin : Text) (w : World) (e : Option PinError)
        → patience w ≤ p
        → ((e' : Option PinError) → Ends k c keys cb time patience p (again e' w))
        → Ends k c keys cb time patience p
            (on_secret (cb.request_secret serial) serial again pin w e)
    on_secret-Ends p again pin w none h f = h
    on_secret-Ends p again pin w (some e) h f = f (some e)

    on_answer-Ends :
        (p : ℕ) (again : Dialogue) (o : Answer PluginError cb.IoError × World)
        → patience o.1 ≤ p
        → ((pin : Text)
            → o.0 ≡ secret pin
            → (e' : Option PinError) → Ends k c keys cb time patience p (again e' o.1))
        → Ends k c keys cb time patience p (on_answer (cb.request_secret serial) serial again o)
    on_answer-Ends p again (refused e, w) h f = h
    on_answer-Ends p again (Pin.broken e, w) h f = h
    on_answer-Ends p again (secret pin, w) h f =
        on_secret-Ends p again pin w (reject serial pin) h (f pin refl)

    request_pin-Ends :
        (fuel p : ℕ) (prev : Option PinError) (w : World)
        → patience w ≤ p
        → p < fuel
        → Ends k c keys cb time patience p
            (request_pin (cb.request_secret serial) serial fuel prev w)
    unfolding request_pin
    request_pin-Ends zero p prev w h f = absurd (omega arith)
    request_pin-Ends (suc fuel) p prev w h f =
        let w' = (cb.request_secret serial prev w).1 in
        on_answer-Ends p (request_pin (cb.request_secret serial) serial fuel)
          (cb.request_secret serial prev w) (omega (arith, l.request_secret_keeps serial prev w))
          (λ pin e prev'.
            Ends-le k c keys cb time patience (patience w') p
              (request_pin (cb.request_secret serial) serial fuel prev' w')
              (omega (arith, l.request_secret_keeps serial prev w))
              (request_pin-Ends fuel (patience w') prev' w' (omega arith)
                (omega (arith, l.request_secret_spends serial prev w pin e))))

  module _ (x509 : X509) where
    extract_keeps :
        (p : ℕ) (y : YubiKey) (slot : RetiredSlotId) (cert : Bytes) (all : Bool) (w : World)
        → patience w ≤ p
        → patience (extract x509 c keys.attest y slot cert all w).1 ≤ p
    unfolding extract
    extract_keeps p y slot cert all w h = parsed (x509.parse cert)
      where
        named :
            (d : x509.Parsed) (n : Option (Text × Bool))
            → patience (on_name x509 c keys.attest y slot d n w).1 ≤ p
        named d none = h
        named d (some (name, true)) = h
        named d (some (name, false)) = omega (arith, l.attest_keeps y slot w, h)

        parsed :
            (d : Option x509.Parsed) → patience (on_parsed x509 c keys.attest y slot d all w).1 ≤ p
        parsed none = h
        parsed (some d) = named d (extract_name x509 d all)

    -- As `Ends`, for a result that comes with the connection.
    abbrev pub PinEnds : ℕ → Pinned k c keys x509 cb → Type 0
    PinEnds p (none, conn, w) = ⊥
    PinEnds p (some r, conn, w) = patience w ≤ p

    module _ (fuel p : ℕ) (enough : p < fuel) where
      on_verified-PinEnds :
          (conn : Session k c keys) (o : Result YubikeyError (Unit {0}) × World)
          → patience o.1 ≤ p
          → PinEnds p (on_verified k c keys x509 cb conn o)
      on_verified-PinEnds conn (ok u, w) h = h
      on_verified-PinEnds conn (err e, w) h = h

      on_pin-PinEnds :
          (conn : Session k c keys) (o : Option (Answer PluginError cb.IoError) × World)
          → Ends k c keys cb time patience p o
          → PinEnds p (on_pin k c keys x509 cb conn o)
      on_pin-PinEnds conn (none, w) h = h
      on_pin-PinEnds conn (some (Pin.broken e), w) h = h
      on_pin-PinEnds conn (some (refused e), w) h = h
      on_pin-PinEnds conn (some (secret pin), w) h =
          on_verified-PinEnds conn (keys.verify_pin conn.yubikey (as_bytes pin) w)
            (omega (arith, l.verify_pin_keeps conn.yubikey (as_bytes pin) w))

      ask_pin-PinEnds :
          (conn : Session k c keys) (w : World)
          → patience w ≤ p
          → PinEnds p (ask_pin k c keys x509 cb fuel conn w)
      unfolding ask_pin
      ask_pin-PinEnds conn w h =
          let serial = c.serial_of conn.yubikey in
          on_pin-PinEnds conn (request_pin (cb.request_secret serial) serial fuel none w)
            (request_pin-Ends serial fuel p none w h enough)

      on_cached-PinEnds :
          (conn : Session k c keys) (o : Result YubikeyError (Unit {0}) × World)
          → patience o.1 ≤ p
          → PinEnds p (on_cached k c keys x509 cb fuel conn o)
      on_cached-PinEnds conn (ok u, w) h = h
      on_cached-PinEnds conn (err e, w) h = ask_pin-PinEnds conn w h

      by_policy-PinEnds :
          (conn : Session k c keys) (policy : Option PinPolicy) (w : World)
          → patience w ≤ p
          → PinEnds p (by_policy k c keys x509 cb fuel conn policy w)
      by_policy-PinEnds conn (some PinPolicy.never) w h = h
      by_policy-PinEnds conn (some PinPolicy.once) w h =
          on_cached-PinEnds conn (keys.verify_pin conn.yubikey [] w)
            (omega (arith, l.verify_pin_keeps conn.yubikey [] w))
      by_policy-PinEnds conn (some PinPolicy.always) w h = ask_pin-PinEnds conn w h
      by_policy-PinEnds conn (some PinPolicy.default) w h = ask_pin-PinEnds conn w h
      by_policy-PinEnds conn none w h = ask_pin-PinEnds conn w h

      on_metadata-PinEnds :
          (conn : Session k c keys) (o : Option Metadata × World)
          → patience o.1 ≤ p
          → PinEnds p (on_metadata k c keys x509 cb fuel conn o)
      on_metadata-PinEnds conn (none, w) h = h
      on_metadata-PinEnds conn (some m, w) h =
          by_policy-PinEnds (record conn { cached_metadata = some m }) m.pin_policy w h

      metadata_of_keeps :
          (conn : Session k c keys) (m : Option Metadata) (w : World)
          → patience w ≤ p
          → patience (metadata_of k c keys x509 cb conn m w).1 ≤ p
      metadata_of_keeps conn (some m) w h = h
      metadata_of_keeps conn none w h =
          extract_keeps p conn.yubikey conn.slot (keys.cert_bytes conn.cert) true w h

      -- With more fuel than the person's patience the question for a PIN ends.
      pub request_pin_if_necessary-PinEnds :
          (conn : Session k c keys) (w : World)
          → patience w ≤ p
          → PinEnds p (request_pin_if_necessary k c keys x509 cb fuel conn w)
      unfolding request_pin_if_necessary
      request_pin_if_necessary-PinEnds conn w h =
          on_metadata-PinEnds conn (metadata_of k c keys x509 cb conn conn.cached_metadata w)
            (metadata_of_keeps conn conn.cached_metadata w h)

  module _ (p : ℕ) where
    needs_touch_keeps :
        (policy : Option TouchPolicy) (last : Option ℕ) (w : World)
        → patience w ≤ p
        → patience (needs_touch k c keys policy last w).1 ≤ p
    unfolding needs_touch
    needs_touch_keeps (some TouchPolicy.always) last w h = h
    needs_touch_keeps (some TouchPolicy.cached) none w h = h
    needs_touch_keeps (some TouchPolicy.cached) (some last) w h = omega (arith, l.instant_keeps w)
    needs_touch_keeps (some TouchPolicy.never) last w h = h
    needs_touch_keeps (some TouchPolicy.default) last w h = h
    needs_touch_keeps none last w h = h

    note_touch_keeps :
        (conn : Session k c keys) (b : Bool) (policy : Option TouchPolicy) (w : World)
        → patience w ≤ p
        → patience (note_touch k c keys conn b policy w).1 ≤ p
    unfolding note_touch
    note_touch_keeps conn true (some TouchPolicy.cached) w h = omega (arith, l.instant_keeps w)
    note_touch_keeps conn true (some TouchPolicy.always) w h = h
    note_touch_keeps conn true (some TouchPolicy.never) w h = h
    note_touch_keeps conn true (some TouchPolicy.default) w h = h
    note_touch_keeps conn true none w h = h
    note_touch_keeps conn false policy w h = h

    module _ (x : Crypto k) (conn : Session k c keys) (line : RecipientLine Point) where
      on_shared_keeps :
          (b : Bool) (o : Result YubikeyError Bytes × World)
          → patience o.1 ≤ p
          → patience (on_shared k c keys x conn line b o).2 ≤ p
      on_shared_keeps b (err e, w) h = h
      on_shared_keeps b (ok s, w) h =
          note_touch_keeps conn b (touch_policy_of k c keys conn.cached_metadata) w h

      on_point_keeps :
          (b : Bool) (w : World) (q : Option k.PublicKey)
          → patience w ≤ p
          → patience (on_point k c keys x conn line b w q).2 ≤ p
      on_point_keeps b w none h = h
      on_point_keeps b w (some q) h =
          let point = k.points.point_as_bytes (k.to_encoded_point q false) in
          on_shared_keeps b (keys.decrypt_data conn.yubikey point conn.slot w)
            (omega (arith, l.decrypt_data_keeps conn.yubikey point conn.slot w))

      -- Decryption asks the person for nothing that spends patience.
      pub unwrap_file_key_keeps :
          (w : World) → patience w ≤ p → patience (unwrap_file_key k c keys x conn line w).2 ≤ p
      unfolding unwrap_file_key
      unwrap_file_key_keeps w h = elim (Bool-cases (list_beq conn.tag line.line_tag)) [
        | inl t ↦
            let policy = touch_policy_of k c keys conn.cached_metadata in
            rw (unwrap_file_key, t)
              (on_point_keeps (needs_touch k c keys policy conn.last_touch w).0
                (needs_touch k c keys policy conn.last_touch w).1
                (k.from_encoded_point line.epk_bytes)
                (needs_touch_keeps policy conn.last_touch w h))
        | inr f ↦ rw (unwrap_file_key, f) h
      ]
