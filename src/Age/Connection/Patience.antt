-- ===== src/Age/Connection/Patience.antt =====
-- The loops of `Stub::connect` in age-plugin-yubikey/src/key.rs that wait for a person, and for a
-- YubiKey that is to be inserted.
use remote_yubikey_manager.Common.{
  ℕ, zero, suc, ◌+◌, ◌*◌, ◌≤◌, ◌<◌, ◌≡◌, refl, inl, inr, Bool, true, false, Option, none, some,
  Bool-cases, le→leb, arith,
}
use remote_yubikey_manager.Common.Bytes.{Bytes}
use remote_yubikey_manager.Common.Eq.{nat_eq}
use remote_yubikey_manager.Common.Text.{Text}
use remote_yubikey_manager.Common.Result.{Result, ok, err}
use remote_yubikey_manager.Age.Slots.{RetiredSlotId}
use remote_yubikey_manager.Age.Stub.{Stub}
use remote_yubikey_manager.Age.Pin.{PinError, secret}
use remote_yubikey_manager.Age.Yubikey.{
  Cards, YubikeyError, no_smartcard, removed_card, sharing_violation, applet_not_found, not_found,
  authentication_error, pin_locked, wrong_pin, other, open_by_serial, timed_out, one_second,
  fifteen_seconds,
}
use remote_yubikey_manager.Age.Yubikey.Ledger.{IsLedger, Counts}
use remote_yubikey_manager.Age.Yubikey.Found.{open_by_serial-Counts}
use remote_yubikey_manager.Age.Opening.Waiting.{IsClock}
use remote_yubikey_manager.Age.Recipient.{Curve, Recipient}
use remote_yubikey_manager.Age.Connection.{
  Callbacks, Keys, IdentityError, PluginError, unsupported, fail, Message, insert_yk,
  insert_yk_retry, Connecting, matching_key, on_key, on_certificate, check_key, on_opened,
  try_again, await, on_message, on_confirm, ask_to_insert, connect,
}

module _ {Point : Type 0} (k : Curve Point) (c : Cards) (keys : Keys c Point)
    (cb : Callbacks c.World) (time patience : c.World → ℕ) where
  open c use {World, YubiKey, Reader, Context}

  -- A clock that is not set back, and a person who confirms and enters secrets only so often:
  -- `patience` bounds how often still, each time spends of it, and nothing else adds to it.
  pub record IsPatient : Type 0 where
    pub clock : IsClock c time
    pub cards_keep : (p : ℕ) → IsLedger c (λ n w. patience w ≤ p)
    pub reset_keeps : (y : YubiKey) (w : World) → patience (c.reset y w) ≤ patience w
    pub read_certificate_keeps :
        (y : YubiKey) (slot : RetiredSlotId) (w : World)
        → patience (keys.read_certificate y slot w).1 ≤ patience w
    pub verify_pin_keeps :
        (y : YubiKey) (pin : Bytes) (w : World) → patience (keys.verify_pin y pin w).1 ≤ patience w
    pub decrypt_data_keeps :
        (y : YubiKey) (point : Bytes) (slot : RetiredSlotId) (w : World)
        → patience (keys.decrypt_data y point slot w).1 ≤ patience w
    pub attest_keeps :
        (y : YubiKey) (slot : RetiredSlotId) (w : World)
        → patience (keys.attest y slot w).1 ≤ patience w
    pub instant_keeps : (w : World) → patience (keys.instant w).1 ≤ patience w
    pub confirm_keeps : (m : Message) (w : World) → patience (cb.confirm m w).1 ≤ patience w
    pub confirm_spends :
        (m : Message) (w : World)
        → (cb.confirm m w).0 ≡ ok (ok true)
        → patience (cb.confirm m w).1 < patience w
    pub message_keeps : (m : Message) (w : World) → patience (cb.message m w).1 ≤ patience w
    pub request_secret_keeps :
        (serial : ℕ) (e : Option PinError) (w : World)
        → patience (cb.request_secret serial e w).1 ≤ patience w
    pub request_secret_spends :
        (serial : ℕ) (e : Option PinError) (w : World) (pin : Text)
        → (cb.request_secret serial e w).0 ≡ secret pin
        → patience (cb.request_secret serial e w).1 < patience w
    pub error_keeps : (e : IdentityError) (w : World) → patience (cb.error e w).1 ≤ patience w

  -- The fuel did not run out, and the patience left is at most `p`.
  abbrev pub Ends : {A : Type 0} → ℕ → Option A × World → Type 0
  Ends p (none, w) = ⊥
  Ends p (some a, w) = patience w ≤ p

  pub Ends-le : {A : Type 0} (p q : ℕ) (o : Option A × World) → p ≤ q → Ends p o → Ends q o
  Ends-le p q (none, w) le h = h
  Ends-le p q (some a, w) le h = omega arith

  counted :
      (I : World → Type 0) (o : Result YubikeyError YubiKey × World)
      → Counts c (λ n w. I w) 0 o
      → I o.1
  counted I (ok y, w) h = h
  counted I (err e, w) h = h

  module _ (l : IsPatient) (stub : Stub RetiredSlotId) where
    abbrev Missing : Type 0
    Missing = World → Connecting k c keys cb stub

    on_key-Ends :
        (p : ℕ) (y : YubiKey) (cert : keys.Certificate) (o : Option (Recipient k)) (w : World)
        → patience w ≤ p
        → Ends p (on_key k c keys cb stub y cert o w)
    on_key-Ends p y cert none w h = omega (arith, l.reset_keeps y w)
    on_key-Ends p y cert (some pk) w h = h

    on_certificate-Ends :
        (p : ℕ) (y : YubiKey) (o : Result YubikeyError keys.Certificate × World)
        → patience o.1 ≤ p
        → Ends p (on_certificate k c keys cb stub y o)
    on_certificate-Ends p y (err e, w) h = omega (arith, l.reset_keeps y w)
    on_certificate-Ends p y (ok cert, w) h =
        on_key-Ends p y cert (matching_key k c keys cb stub cert) w h

    check_key-Ends :
        (p : ℕ) (y : YubiKey) (w : World) → patience w ≤ p → Ends p (check_key k c keys cb stub y w)
    unfolding check_key
    check_key-Ends p y w h =
        on_certificate-Ends p y (keys.read_certificate y stub.slot w)
          (omega (arith, l.read_certificate_keeps y stub.slot w))

    on_opened-Ends :
        (p : ℕ) (missing : Missing) (o : Result YubikeyError YubiKey × World)
        → patience o.1 ≤ p
        → Ends p (missing o.1)
        → Ends p (on_opened k c keys cb stub missing o)
    on_opened-Ends p missing (ok y, w) h f = check_key-Ends p y w h
    on_opened-Ends p missing (err not_found, w) h f = f
    on_opened-Ends p missing (err no_smartcard, w) h f = h
    on_opened-Ends p missing (err removed_card, w) h f = h
    on_opened-Ends p missing (err sharing_violation, w) h f = h
    on_opened-Ends p missing (err applet_not_found, w) h f = h
    on_opened-Ends p missing (err authentication_error, w) h f = h
    on_opened-Ends p missing (err pin_locked, w) h f = h
    on_opened-Ends p missing (err (wrong_pin n), w) h f = h
    on_opened-Ends p missing (err (other n), w) h f = h

    -- `open_by_serial` takes time and no patience.
    retried-Ends :
        (p q t : ℕ) (missing : Missing) (w : World)
        → t ≤ time w
        → patience w ≤ q
        → q ≤ p
        → ((w' : World) → t ≤ time w' → patience w' ≤ q → Ends p (missing w'))
        → Ends p (on_opened k c keys cb stub missing (open_by_serial c stub.serial w))
    retried-Ends p q t missing w later less le f =
        let o = open_by_serial c stub.serial w in
        let spent : patience o.1 ≤ q =
          counted (λ w'. patience w' ≤ q) o
            (open_by_serial-Counts c (λ n w'. patience w' ≤ q) (l.cards_keep q) stub.serial 0 w
              less) in
        let passed : t ≤ time o.1 =
          counted (λ w'. t ≤ time w') o
            (open_by_serial-Counts c (λ n w'. t ≤ time w') (l.clock.passes t) stub.serial 0 w
              later) in
        on_opened-Ends p missing o (omega arith) (f o.1 passed spent)

    try_again-Ends :
        (p start : ℕ) (again : Missing) (o : ℕ × World)
        → patience o.1 ≤ p
        → (timed_out start o.0 ≡ false → Ends p (again (c.sleep one_second o.1)))
        → Ends p (try_again k c keys cb stub again start o)
    try_again-Ends p start again (end_, w) h f = elim (Bool-cases (timed_out start end_)) [
      | inl t ↦ rw t h
      | inr e ↦ rw e (f e)
    ]

    round-Ends :
        (p start t : ℕ) (again : Missing) (w : World)
        → t ≤ time w
        → patience w ≤ p
        → ((w' : World)
            → t ≤ time w'
            → patience w' ≤ p
            → timed_out start (c.now w').0 ≡ false
            → Ends p (again (c.sleep one_second (c.now w').1)))
        → Ends p (
            on_opened k c keys cb stub
              (λ w'. try_again k c keys cb stub again start (c.now w'))
              (open_by_serial c stub.serial w))
    round-Ends p start t again w later less f =
        retried-Ends p p t (λ w'. try_again k c keys cb stub again start (c.now w')) w later less
          (omega arith)
          (λ w' later' less'.
            try_again-Ends p start again (c.now w') ((l.cards_keep p).now_keeps 0 w' less')
              (f w' later' less'))

    -- The clock shows `t` at least, so that after `m` more seconds it is too late.
    await-Ends :
        (m p start t : ℕ) (w : World)
        → start + fifteen_seconds ≤ t + one_second * m
        → t ≤ time w
        → patience w ≤ p
        → Ends p (await k c keys cb stub (suc m) start w)
    unfolding await
    await-Ends zero p start t w soon later less =
        round-Ends p start t (await k c keys cb stub 0 start) w later less (λ w' later' less' early.
          let late : timed_out start (c.now w').0 ≡ true =
            le→leb (start + fifteen_seconds) (c.now w').0 (omega (arith, l.clock.now_reads w')) in
          cc)
    await-Ends (suc m) p start t w soon later less =
        round-Ends p start t (await k c keys cb stub (suc m) start) w later less
          (λ w' later' less' early.
            let w'' = c.sleep one_second (c.now w').1 in
            await-Ends m p start (time w'') w''
              (omega (
                arith,
                l.clock.sleep_lasts one_second (c.now w').1,
                (l.clock.passes t).now_keeps 0 w' later',
              ))
              (omega arith)
              ((l.cards_keep p).sleep_keeps 0 one_second (c.now w').1
                ((l.cards_keep p).now_keeps 0 w' less')))

    on_message-Ends :
        (p : ℕ) (o : Result cb.IoError (Result PluginError (Unit {0})) × World)
        → patience o.1 ≤ p
        → Ends p (on_message k c keys cb stub 16 o)
    on_message-Ends p (err e, w) h = h
    on_message-Ends p (ok (err e), w) h = h
    on_message-Ends p (ok (ok u), w) h =
        await-Ends 15 p (c.now w).0 (c.now w).0 (c.now w).1 (omega arith)
          (omega
            (arith, l.clock.now_reads w, (l.clock.passes (time w)).now_keeps 0 w (omega arith)))
          ((l.cards_keep p).now_keeps 0 w h)

    on_confirm-Ends :
        (p : ℕ) (again : Missing) (m : Message)
        (o : Result cb.IoError (Result PluginError Bool) × World)
        → patience o.1 ≤ p
        → (o.0 ≡ ok (ok true) → (w : World) → patience w ≤ patience o.1 → Ends p (again w))
        → Ends p (on_confirm k c keys cb stub again 16 m o)
    on_confirm-Ends p again m (err e, w) h f = h
    on_confirm-Ends p again m (ok (err unsupported), w) h f =
        on_message-Ends p (cb.message m w) (omega (arith, l.message_keeps m w))
    on_confirm-Ends p again m (ok (err fail), w) h f = h
    on_confirm-Ends p again m (ok (ok false), w) h f = h
    on_confirm-Ends p again m (ok (ok true), w) h f =
        retried-Ends p (patience w) 0 again w (omega arith) (omega arith) h
          (λ w' t less. f refl w' less)

    ask_to_insert-Ends :
        (fuel p : ℕ) (m : Message) (w : World)
        → patience w ≤ p
        → p < fuel
        → Ends p (ask_to_insert k c keys cb stub fuel 16 m w)
    unfolding ask_to_insert
    ask_to_insert-Ends zero p m w h f = absurd (omega arith)
    ask_to_insert-Ends (suc fuel) p m w h f =
        on_confirm-Ends p (ask_to_insert k c keys cb stub fuel 16 (insert_yk_retry stub.serial)) m
          (cb.confirm m w) (omega (arith, l.confirm_keeps m w))
          (λ e w' less.
            Ends-le (patience w') p
              (ask_to_insert k c keys cb stub fuel 16 (insert_yk_retry stub.serial) w')
              (omega (arith, l.confirm_keeps m w))
              (ask_to_insert-Ends fuel (patience w') (insert_yk_retry stub.serial) w' (omega arith)
                (omega (arith, l.confirm_spends m w e))))

    -- With more fuel than the person's patience and 16 rounds, `connect` ends, and leaves no more
    -- patience than there was.
    pub connect-Ends :
        (fuel p : ℕ) (w : World)
        → patience w ≤ p
        → p < fuel
        → Ends p (connect k c keys cb stub fuel 16 w)
    unfolding connect
    connect-Ends fuel p w h f =
        retried-Ends p p 0 (ask_to_insert k c keys cb stub fuel 16 (insert_yk stub.serial)) w
          (omega arith) h (omega arith)
          (λ w' t less. ask_to_insert-Ends fuel p (insert_yk stub.serial) w' less f)
