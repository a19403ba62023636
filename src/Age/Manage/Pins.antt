-- ===== src/Age/Manage/Pins.antt =====
-- The PINs that `manage` of age-plugin-yubikey/src/key.rs sets.
use remote_yubikey_manager.Common.{
  ℕ, zero, suc, ◌≡◌, ◌≢◌, refl, inl, inr, Bool, true, false, Option, none, some, Bool-cases,
}
use remote_yubikey_manager.Common.Bytes.{Bytes}
use remote_yubikey_manager.Common.Eq.{nat_eq, list_beq, list_beq_iff}
use remote_yubikey_manager.Common.Text.{Text, as_bytes}
use remote_yubikey_manager.Common.Result.{Result, ok, err}
use remote_yubikey_manager.Age.Pin.{
  PinError, Answer, secret, refused, broken, request_pin, IsPinLength, request_pin_bounds,
}
use remote_yubikey_manager.Age.Error.{Error, dialog, yubikey, custom_management_key}
use remote_yubikey_manager.Age.Yubikey.{
  Cards, YubikeyError, no_smartcard, removed_card, sharing_violation, applet_not_found, not_found,
  authentication_error, pin_locked, wrong_pin, other,
}
use remote_yubikey_manager.Age.Step.{Step, next, stopped, panicked, starved, ◌>>=◌, Holds}
use remote_yubikey_manager.Age.Manage.{
  Manager, Prompt, enter_pin, enter_current_puk, choose_new_pin, default_pin, try_as, puk_error,
  auth_error, as_answer, ask_new_pin, on_new_pin, new_pin, change_default_pin, if_default,
  on_protected, manage,
}
use remote_yubikey_manager.Age.Manage.Keeping.{Keeps, Keeps->>=, request_pin_keeps}

-- A PIN that the dialogue may choose
abbrev pub IsNewPin : Text → Type 0
IsNewPin pin = IsPinLength pin × (pin ≢ default_pin)

module _ (c : Cards) {Certificate : Type 0} (mgr : Manager c Certificate)
    (I : c.World → Type 0) where
  open c use {World, YubiKey}

  -- What keeps the state: every call, but PIN and PUK only when they are set to a PIN that the dialogue
  -- may choose, and the PIN only from the default one.
  pub record IsKept : Type 0 where
    pub ask_keeps : (p : Prompt) (w : World) → I w → I (mgr.ask p w).1
    pub verify_pin_keeps : (y : YubiKey) (p : Bytes) (w : World) → I w → I (mgr.verify_pin y p w).1
    pub change_puk_keeps :
        (y : YubiKey) (old : Bytes) (pin : Text) (w : World)
        → IsNewPin pin
        → I w
        → I (mgr.change_puk y old (as_bytes pin) w).1
    pub change_pin_keeps :
        (y : YubiKey) (pin : Text) (w : World)
        → IsNewPin pin
        → I w
        → I (mgr.change_pin y (as_bytes default_pin) (as_bytes pin) w).1
    pub get_protected_keeps : (y : YubiKey) (w : World) → I w → I (mgr.get_protected y w).1
    pub generate_key_keeps : (w : World) → I w → I (mgr.generate_key w).1
    pub authenticate_keeps :
        (y : YubiKey) (key : mgr.MgmKey) (w : World) → I w → I (mgr.authenticate y key w).1
    pub set_protected_keeps :
        (y : YubiKey) (key : mgr.MgmKey) (w : World) → I w → I (mgr.set_protected y key w).1

  module _ (l : IsKept) (y : YubiKey) where
    try_as-Keeps :
        {E A : Type 0} (f : E → Error) (o : Result E A × World)
        → I o.1
        → Keeps I (λ _. Unit {0}) (try_as f o)
    try_as-Keeps f (ok a, w) h = (tt, h)
    try_as-Keeps f (err e, w) h = h

    as_answer_keeps : (o : Result ℕ Text × World) → I o.1 → I (as_answer c mgr o).1
    as_answer_keeps (ok pin, w) h = h
    as_answer_keeps (err e, w) h = h

    ask_new_pin_keeps : (prev : Option PinError) (w : World) → I w → I (ask_new_pin c mgr prev w).1
    ask_new_pin_keeps prev w h =
        as_answer_keeps (mgr.ask (choose_new_pin prev) w) (l.ask_keeps (choose_new_pin prev) w h)

    new_pin-Keeps :
        (fuel tries : ℕ) (w : World) → I w → Keeps I IsNewPin (new_pin c mgr y fuel tries w)
    unfolding new_pin
    new_pin-Keeps zero tries w h = h
    new_pin-Keeps (suc fuel) tries w h =
        chosen (request_pin (ask_new_pin c mgr) (c.serial_of y) tries none w)
          (request_pin_keeps I (ask_new_pin c mgr) ask_new_pin_keeps (c.serial_of y) tries none w h)
          (request_pin_bounds (ask_new_pin c mgr) (c.serial_of y) tries none w)
          (new_pin-Keeps fuel tries)
      where
        chosen :
            (o : Option (Answer ⊥ ℕ) × World)
            → I o.1
            → ((pin : Text) → o.0 ≡ some (secret pin) → IsPinLength pin)
            → ((w' : World) → I w' → Keeps I IsNewPin (new_pin c mgr y fuel tries w'))
            → Keeps I IsNewPin (on_new_pin c mgr (new_pin c mgr y fuel tries) o)
        chosen (none, w') h' b ih = h'
        chosen (some (broken e), w') h' b ih = h'
        chosen (some (refused e), w') h' b ih = absurd e
        chosen (some (secret pin), w') h' b ih = elim (Bool-cases (list_beq pin default_pin)) [
          | inl t ↦ rw t (ih w' h')
          | inr f ↦ rw f ((b pin refl, λ e. differs pin f e), h')
        ]
          where
            differs : (pin : Text) → list_beq pin default_pin ≡ false → pin ≢ default_pin
            differs pin f e =
                let t : list_beq pin default_pin ≡ true = (list_beq_iff pin default_pin).1 e in cc

    change_default_pin-Keeps :
        (fuel tries : ℕ) (pin : Text) (w : World)
        → pin ≡ default_pin
        → I w
        → Keeps I (λ _. Unit {0}) (change_default_pin c mgr y fuel tries pin w)
    unfolding change_default_pin
    change_default_pin-Keeps fuel tries pin w e h =
        Keeps->>= I (λ _. Unit {0}) (λ _. Unit {0}) (try_as dialog (mgr.ask enter_current_puk w))
          (λ puk w1. new_pin c mgr y fuel tries w1 >>= λ pin' w2.
            try_as puk_error (mgr.change_puk y (as_bytes puk) (as_bytes pin') w2) >>= λ _ w3.
            try_as yubikey (mgr.change_pin y (as_bytes pin) (as_bytes pin') w3))
          (try_as-Keeps dialog (mgr.ask enter_current_puk w) (l.ask_keeps enter_current_puk w h))
          (λ puk w1 _ h1.
            Keeps->>= I IsNewPin (λ _. Unit {0}) (new_pin c mgr y fuel tries w1)
              (λ pin' w2.
                try_as puk_error (mgr.change_puk y (as_bytes puk) (as_bytes pin') w2) >>= λ _ w3.
                try_as yubikey (mgr.change_pin y (as_bytes pin) (as_bytes pin') w3))
              (new_pin-Keeps fuel tries w1 h1) (λ pin' w2 new h2. both puk pin' w2 new h2))
      where
        both :
            (puk pin' : Text) (w2 : World)
            → IsNewPin pin'
            → I w2
            → Keeps I
                (λ _. Unit {0})
                (try_as puk_error (mgr.change_puk y (as_bytes puk) (as_bytes pin') w2) >>= λ _ w3.
                  try_as yubikey (mgr.change_pin y (as_bytes pin) (as_bytes pin') w3))
        both puk pin' w2 new h2 =
            Keeps->>= I (λ _. Unit {0}) (λ _. Unit {0})
              (try_as puk_error (mgr.change_puk y (as_bytes puk) (as_bytes pin') w2))
              (λ _ w3. try_as yubikey (mgr.change_pin y (as_bytes pin) (as_bytes pin') w3))
              (try_as-Keeps puk_error (mgr.change_puk y (as_bytes puk) (as_bytes pin') w2)
                (l.change_puk_keeps y (as_bytes puk) pin' w2 new h2))
              (λ _ w3 _ h3.
                try_as-Keeps yubikey (mgr.change_pin y (as_bytes pin) (as_bytes pin') w3)
                  (rw e (l.change_pin_keeps y pin' w3 new h3)))

    default_key-Keeps :
        (w : World)
        → I w
        → Keeps I
            (λ _. Unit {0})
            (try_as (λ _. custom_management_key) (mgr.authenticate y mgr.default_key w) >>= λ _ w1.
              try_as yubikey (mgr.set_protected y (mgr.generate_key w1).0 (mgr.generate_key w1).1))
    default_key-Keeps w h =
        Keeps->>= I (λ _. Unit {0}) (λ _. Unit {0})
          (try_as (λ _. custom_management_key) (mgr.authenticate y mgr.default_key w))
          (λ _ w1.
            try_as yubikey (mgr.set_protected y (mgr.generate_key w1).0 (mgr.generate_key w1).1))
          (try_as-Keeps (λ _. custom_management_key) (mgr.authenticate y mgr.default_key w)
            (l.authenticate_keeps y mgr.default_key w h))
          (λ _ w1 _ h1.
            try_as-Keeps yubikey
              (mgr.set_protected y (mgr.generate_key w1).0 (mgr.generate_key w1).1)
              (l.set_protected_keeps y (mgr.generate_key w1).0 (mgr.generate_key w1).1
                (l.generate_key_keeps w1 h1)))

    on_protected-Keeps :
        (o : Result YubikeyError mgr.MgmKey × World)
        → I o.1
        → Keeps I (λ _. Unit {0}) (on_protected c mgr y o)
    on_protected-Keeps (ok key, w) h =
        try_as-Keeps auth_error (mgr.authenticate y key w) (l.authenticate_keeps y key w h)
    on_protected-Keeps (err authentication_error, w) h = h
    on_protected-Keeps (err no_smartcard, w) h = default_key-Keeps w h
    on_protected-Keeps (err removed_card, w) h = default_key-Keeps w h
    on_protected-Keeps (err sharing_violation, w) h = default_key-Keeps w h
    on_protected-Keeps (err applet_not_found, w) h = default_key-Keeps w h
    on_protected-Keeps (err not_found, w) h = default_key-Keeps w h
    on_protected-Keeps (err pin_locked, w) h = default_key-Keeps w h
    on_protected-Keeps (err (wrong_pin n), w) h = default_key-Keeps w h
    on_protected-Keeps (err (other n), w) h = default_key-Keeps w h

    if_default-Keeps :
        (fuel tries : ℕ) (pin : Text) (b : Bool) (w : World)
        → list_beq pin default_pin ≡ b
        → I w
        → Keeps I (λ _. Unit {0}) (if_default c mgr y fuel tries pin b w)
    if_default-Keeps fuel tries pin true w e h =
        change_default_pin-Keeps fuel tries pin w ((list_beq_iff pin default_pin).0 e) h
    if_default-Keeps fuel tries pin false w e h = (tt, h)

    -- Whatever the user enters and however it ends, the management of a YubiKey changes a PIN only from
    -- the default one, and it sets a PIN or a PUK only to 6 to 8 bytes other than the default PIN. It does not panic.
    pub manage-Keeps :
        (fuel tries : ℕ) (w : World) → I w → Keeps I (λ _. Unit {0}) (manage c mgr y fuel tries w)
    unfolding manage
    manage-Keeps fuel tries w h =
        Keeps->>= I (λ _. Unit {0}) (λ _. Unit {0})
          (try_as dialog (mgr.ask (enter_pin (c.serial_of y)) w))
          (λ pin w1. try_as yubikey (mgr.verify_pin y (as_bytes pin) w1) >>= λ _ w2.
            if_default c mgr y fuel tries pin (list_beq pin default_pin) w2 >>= λ _ w3.
            on_protected c mgr y (mgr.get_protected y w3))
          (try_as-Keeps dialog (mgr.ask (enter_pin (c.serial_of y)) w)
            (l.ask_keeps (enter_pin (c.serial_of y)) w h))
          (λ pin w1 _ h1.
            Keeps->>= I (λ _. Unit {0}) (λ _. Unit {0})
              (try_as yubikey (mgr.verify_pin y (as_bytes pin) w1))
              (λ _ w2. if_default c mgr y fuel tries pin (list_beq pin default_pin) w2 >>= λ _ w3.
                on_protected c mgr y (mgr.get_protected y w3))
              (try_as-Keeps yubikey (mgr.verify_pin y (as_bytes pin) w1)
                (l.verify_pin_keeps y (as_bytes pin) w1 h1))
              (λ _ w2 _ h2.
                Keeps->>= I (λ _. Unit {0}) (λ _. Unit {0})
                  (if_default c mgr y fuel tries pin (list_beq pin default_pin) w2)
                  (λ _ w3. on_protected c mgr y (mgr.get_protected y w3))
                  (if_default-Keeps fuel tries pin (list_beq pin default_pin) w2 refl h2)
                  (λ _ w3 _ h3.
                    on_protected-Keeps (mgr.get_protected y w3) (l.get_protected_keeps y w3 h3))))

-- The management of a YubiKey does not panic.
pub manage-Holds :
    (c : Cards) {Certificate : Type 0} (mgr : Manager c Certificate) (y : c.YubiKey)
    (fuel tries : ℕ) (w : c.World)
    → Holds (λ _. Unit {0}) (manage c mgr y fuel tries w)
manage-Holds c mgr y fuel tries w = held (manage c mgr y fuel tries w) (
    manage-Keeps c mgr (λ _. Unit {0})
      (record {
        ask_keeps = λ p w' h. h;
        verify_pin_keeps = λ z p w' h. h;
        change_puk_keeps = λ z old p w' q h. h;
        change_pin_keeps = λ z p w' q h. h;
        get_protected_keeps = λ z w' h. h;
        generate_key_keeps = λ w' h. h;
        authenticate_keeps = λ z key w' h. h;
        set_protected_keeps = λ z key w' h. h;
      })
      y fuel tries w tt)
  where
    held :
        (o : Step Error (Unit {0}) × c.World)
        → Keeps (λ _. Unit {0}) (λ _. Unit {0}) o
        → Holds (λ _. Unit {0}) o
    held (next a, w') h = tt
    held (stopped e, w') h = tt
    held (panicked, w') h = h
    held (starved, w') h = tt
