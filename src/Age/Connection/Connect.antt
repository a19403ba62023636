-- ===== src/Age/Connection/Connect.antt =====
-- What `Stub::connect` of age-plugin-yubikey/src/key.rs gives.
use mathlib.Core.Option.{some-injective}
use remote_yubikey_manager.Common.{
  ℕ, zero, suc, ◌≡◌, refl, inl, inr, Bool, true, false, Option, none, some, Option-cases,
  Bool-cases,
}
use remote_yubikey_manager.Common.Eq.{nat_eq, list_beq, list_beq_iff}
use remote_yubikey_manager.Common.Result.{Result, ok, err}
use remote_yubikey_manager.Age.Slots.{RetiredSlotId}
use remote_yubikey_manager.Age.Stub.{Stub}
use remote_yubikey_manager.Age.Yubikey.{
  Cards, YubikeyError, no_smartcard, removed_card, sharing_violation, applet_not_found, not_found,
  authentication_error, pin_locked, wrong_pin, other, open_by_serial, timed_out, one_second,
}
use remote_yubikey_manager.Age.Yubikey.Found.{HasSerial, open_by_serial-HasSerial}
use remote_yubikey_manager.Age.Recipient.{Curve, from_spki, Recipient}
use remote_yubikey_manager.Age.Recipient
use remote_yubikey_manager.Age.Connection.{
  Callbacks, Keys, Connection, Attempt, connected, skipped, failed, broken, IdentityError, identity,
  stanza, PluginError, unsupported, fail, Message, insert_yk, insert_yk_retry, Connecting,
  matching_key, on_key, on_certificate, check_key, on_opened, try_again, await, on_message,
  on_confirm, ask_to_insert, connect,
}

module _ {Point : Type 0} (k : Curve Point) (c : Cards) (keys : Keys c Point)
    (cb : Callbacks c.World) (stub : Stub RetiredSlotId) where
  open c use {World, YubiKey}

  -- A connection is one to the YubiKey of the stub: it has its serial number, the certificate's key
  -- has its tag, and slot, tag and index are the stub's.
  pub record IsFor (conn : Connection k c keys.Certificate) : Type 0 where
    pub serial_agrees : c.serial_of conn.yubikey ≡ stub.serial
    pub cert_has_key : from_spki k (keys.subject_pki conn.cert) ≡ some conn.pk
    pub key_agrees : Recipient.tag k conn.pk ≡ stub.tag
    pub tag_agrees : conn.tag ≡ stub.tag
    pub slot_agrees : conn.slot ≡ stub.slot
    pub index_agrees : conn.identity_index ≡ stub.identity_index

  -- An error names the stub by its index.
  abbrev pub Names : IdentityError → Type 0
  Names (identity i m) = i ≡ stub.identity_index
  Names (stanza e) = ⊥

  abbrev pub Fits : Option (Attempt cb.IoError (Connection k c keys.Certificate)) → Type 0
  Fits none = Unit {0}
  Fits (some (connected conn)) = IsFor conn
  Fits (some skipped) = Unit {0}
  Fits (some (failed e)) = Names e
  Fits (some (broken e)) = Unit {0}

  matching_key-agrees :
      (cert : keys.Certificate) (pk : Recipient k)
      → matching_key k c keys cb stub cert ≡ some pk
      → (from_spki k (keys.subject_pki cert) ≡ some pk) × (Recipient.tag k pk ≡ stub.tag)
  unfolding matching_key
  matching_key-agrees cert pk h = elim (Option-cases (from_spki k (keys.subject_pki cert))) [
    | inl n ↦ let bad : none ≡ some pk = rw (n, matching_key) at h in cc
    | inr (pk', g) ↦ elim (Bool-cases (list_beq (Recipient.tag k pk') stub.tag)) [
      | inl t ↦
          let same : pk' ≡ pk = some-injective _ _ (rw (g, matching_key, t) at h) in
          rw (← same) (g, (list_beq_iff (Recipient.tag k pk') stub.tag).0 t)
      | inr f ↦
          let bad : Path (Option (Recipient k)) none (some pk) = rw (g, matching_key, f) at h in cc
    ]
  ]

  module _ (y : YubiKey) (serial : c.serial_of y ≡ stub.serial) where
    on_key-Fits :
        (cert : keys.Certificate) (o : Option (Recipient k)) (w : World)
        → matching_key k c keys cb stub cert ≡ o
        → Fits (on_key k c keys cb stub y cert o w).0
    on_key-Fits cert none w e = refl
    on_key-Fits cert (some pk) w e =
        let agrees = matching_key-agrees cert pk e in
        record {
          serial_agrees = serial;
          cert_has_key = agrees.0;
          key_agrees = agrees.1;
          tag_agrees = refl;
          slot_agrees = refl;
          index_agrees = refl;
        }

    on_certificate-Fits :
        (o : Result YubikeyError keys.Certificate × World)
        → Fits (on_certificate k c keys cb stub y o).0
    on_certificate-Fits (err e, w) = refl
    on_certificate-Fits (ok cert, w) = on_key-Fits cert (matching_key k c keys cb stub cert) w refl

    check_key-Fits : (w : World) → Fits (check_key k c keys cb stub y w).0
    unfolding check_key
    check_key-Fits w = on_certificate-Fits (keys.read_certificate y stub.slot w)

  on_opened-Fits :
      (missing : World → Connecting k c keys cb stub) (o : Result YubikeyError YubiKey × World)
      → HasSerial c stub.serial o.0
      → ((w : World) → Fits (missing w).0)
      → Fits (on_opened k c keys cb stub missing o).0
  on_opened-Fits missing (ok y, w) h f = check_key-Fits y h w
  on_opened-Fits missing (err not_found, w) h f = f w
  on_opened-Fits missing (err no_smartcard, w) h f = refl
  on_opened-Fits missing (err removed_card, w) h f = refl
  on_opened-Fits missing (err sharing_violation, w) h f = refl
  on_opened-Fits missing (err applet_not_found, w) h f = refl
  on_opened-Fits missing (err authentication_error, w) h f = refl
  on_opened-Fits missing (err pin_locked, w) h f = refl
  on_opened-Fits missing (err (wrong_pin n), w) h f = refl
  on_opened-Fits missing (err (other n), w) h f = refl

  retried-Fits :
      (missing : World → Connecting k c keys cb stub) (w : World)
      → ((w : World) → Fits (missing w).0)
      → Fits (on_opened k c keys cb stub missing (open_by_serial c stub.serial w)).0
  retried-Fits missing w =
      on_opened-Fits missing (open_by_serial c stub.serial w)
        (open_by_serial-HasSerial c stub.serial w)

  try_again-Fits :
      (again : World → Connecting k c keys cb stub) (start : ℕ) (o : ℕ × World)
      → ((w : World) → Fits (again w).0)
      → Fits (try_again k c keys cb stub again start o).0
  try_again-Fits again start (end_, w) f = elim (Bool-cases (timed_out start end_)) [
    | inl t ↦ rw t refl
    | inr e ↦ rw e (f (c.sleep one_second w))
  ]

  await-Fits : (rounds start : ℕ) (w : World) → Fits (await k c keys cb stub rounds start w).0
  unfolding await
  await-Fits zero start w = tt
  await-Fits (suc rounds) start w =
      retried-Fits
        (λ w'. try_again k c keys cb stub (await k c keys cb stub rounds start) start (c.now w')) w
        (λ w'.
          try_again-Fits (await k c keys cb stub rounds start) start (c.now w')
            (await-Fits rounds start))

  on_message-Fits :
      (rounds : ℕ) (o : Result cb.IoError (Result PluginError (Unit {0})) × World)
      → Fits (on_message k c keys cb stub rounds o).0
  on_message-Fits rounds (err e, w) = tt
  on_message-Fits rounds (ok (err e), w) = refl
  on_message-Fits rounds (ok (ok u), w) = await-Fits rounds (c.now w).0 (c.now w).1

  on_confirm-Fits :
      (again : World → Connecting k c keys cb stub) (rounds : ℕ) (m : Message)
      (o : Result cb.IoError (Result PluginError Bool) × World)
      → ((w : World) → Fits (again w).0)
      → Fits (on_confirm k c keys cb stub again rounds m o).0
  on_confirm-Fits again rounds m (err e, w) f = tt
  on_confirm-Fits again rounds m (ok (err unsupported), w) f =
      on_message-Fits rounds (cb.message m w)
  on_confirm-Fits again rounds m (ok (err fail), w) f = refl
  on_confirm-Fits again rounds m (ok (ok false), w) f = tt
  on_confirm-Fits again rounds m (ok (ok true), w) f = retried-Fits again w f

  ask_to_insert-Fits :
      (fuel rounds : ℕ) (m : Message) (w : World)
      → Fits (ask_to_insert k c keys cb stub fuel rounds m w).0
  unfolding ask_to_insert
  ask_to_insert-Fits zero rounds m w = tt
  ask_to_insert-Fits (suc fuel) rounds m w =
      on_confirm-Fits (ask_to_insert k c keys cb stub fuel rounds (insert_yk_retry stub.serial))
        rounds m (cb.confirm m w) (ask_to_insert-Fits fuel rounds (insert_yk_retry stub.serial))

  -- Whatever the user and the client do, a connection is one to the YubiKey of the stub, with the
  -- key of its tag, and an error is one of the identity with the stub's index.
  pub connect-Fits : (fuel rounds : ℕ) (w : World) → Fits (connect k c keys cb stub fuel rounds w).0
  unfolding connect
  connect-Fits fuel rounds w =
      retried-Fits (ask_to_insert k c keys cb stub fuel rounds (insert_yk stub.serial)) w
        (ask_to_insert-Fits fuel rounds (insert_yk stub.serial))
