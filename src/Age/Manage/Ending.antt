-- ===== src/Age/Manage/Ending.antt =====
-- `manage` of age-plugin-yubikey/src/key.rs ends, for a person who does not answer forever.
use remote_yubikey_manager.Common.{
  ℕ, zero, suc, ◌≤◌, ◌<◌, ◌≡◌, refl, inl, inr, Bool, true, false, Option, none, some, Bool-cases,
  arith,
}
use remote_yubikey_manager.Common.Bytes.{Bytes}
use remote_yubikey_manager.Common.Eq.{nat_eq, list_beq}
use remote_yubikey_manager.Common.Text.{Text, as_bytes}
use remote_yubikey_manager.Common.Result.{Result, ok, err}
use remote_yubikey_manager.Age.Error.{Error, dialog, yubikey, custom_management_key}
use remote_yubikey_manager.Age.Pin.{
  Answer, PinError, secret, refused, broken, request_pin, on_answer, on_secret, reject,
}
use remote_yubikey_manager.Age.Yubikey.{
  Cards, YubikeyError, no_smartcard, removed_card, sharing_violation, applet_not_found, not_found,
  authentication_error, pin_locked, wrong_pin, other,
}
use remote_yubikey_manager.Age.Step.{◌>>=◌, Finishes, Finishes->>=}
use remote_yubikey_manager.Age.Manage.{
  Manager, Prompt, enter_pin, enter_current_puk, default_pin, try_as, puk_error, auth_error,
  ask_new_pin, as_answer, on_new_pin, new_pin, change_default_pin, if_default, on_protected, manage,
}

module _ (c : Cards) {Certificate : Type 0} (mgr : Manager c Certificate)
    (patience : c.World → ℕ) where
  open c use {World, YubiKey}

  -- A person who answers the prompts only so often: `patience` bounds how often still.
  pub record IsPatient : Type 0 where
    pub ask_keeps : (q : Prompt) (w : World) → patience (mgr.ask q w).1 ≤ patience w
    pub ask_spends :
        (q : Prompt) (w : World) (answer : Text)
        → (mgr.ask q w).0 ≡ ok answer
        → patience (mgr.ask q w).1 < patience w
    pub verify_pin_keeps :
        (y : YubiKey) (pin : Bytes) (w : World) → patience (mgr.verify_pin y pin w).1 ≤ patience w
    pub list_keys_keeps : (y : YubiKey) (w : World) → patience (mgr.list_keys y w).1 ≤ patience w

  abbrev pub Any : World → Type 0
  Any w = Unit {0}

  pub try_as-Finishes :
      {E A : Type 0} (I : World → Type 0) (f : E → Error) (o : Result E A × World)
      → I o.1
      → Finishes I (try_as f o)
  try_as-Finishes I f (ok a, w) h = h
  try_as-Finishes I f (err e, w) h = tt

  -- The arm with the default management key
  by_default :
      (y : YubiKey) (w : World)
      → Finishes Any (
          try_as (λ _. custom_management_key) (mgr.authenticate y mgr.default_key w) >>= λ _ w1.
          try_as yubikey (mgr.set_protected y (mgr.generate_key w1).0 (mgr.generate_key w1).1))
  by_default y w =
      Finishes->>= Any Any
        (try_as (λ _. custom_management_key) (mgr.authenticate y mgr.default_key w)) _
        (try_as-Finishes Any (λ _. custom_management_key) (mgr.authenticate y mgr.default_key w) tt)
        (λ _ w1 _.
          try_as-Finishes Any yubikey
            (mgr.set_protected y (mgr.generate_key w1).0 (mgr.generate_key w1).1) tt)

  -- After the loop nothing runs out.
  on_protected-Finishes :
      (y : YubiKey) (o : Result YubikeyError mgr.MgmKey × World)
      → Finishes Any (on_protected c mgr y o)
  on_protected-Finishes y (ok key, w) = try_as-Finishes Any auth_error (mgr.authenticate y key w) tt
  on_protected-Finishes y (err authentication_error, w) = tt
  on_protected-Finishes y (err not_found, w) = by_default y w
  on_protected-Finishes y (err no_smartcard, w) = by_default y w
  on_protected-Finishes y (err removed_card, w) = by_default y w
  on_protected-Finishes y (err sharing_violation, w) = by_default y w
  on_protected-Finishes y (err applet_not_found, w) = by_default y w
  on_protected-Finishes y (err pin_locked, w) = by_default y w
  on_protected-Finishes y (err (wrong_pin n), w) = by_default y w
  on_protected-Finishes y (err (other n), w) = by_default y w

  module _ (l : IsPatient) where
    ask_new_pin_keeps :
        (e : Option PinError) (w : World) → patience (ask_new_pin c mgr e w).1 ≤ patience w
    ask_new_pin_keeps e w = answered (mgr.ask (Prompt.choose_new_pin e) w) (l.ask_keeps _ w)
      where
        answered :
            (o : Result ℕ Text × World)
            → patience o.1 ≤ patience w
            → patience (as_answer c mgr o).1 ≤ patience w
        answered (ok pin, w') h = h
        answered (err n, w') h = h

    ask_new_pin_spends :
        (e : Option PinError) (w : World) (pin : Text)
        → (ask_new_pin c mgr e w).0 ≡ secret pin
        → patience (ask_new_pin c mgr e w).1 < patience w
    ask_new_pin_spends e w pin =
        answered (mgr.ask (Prompt.choose_new_pin e) w) (λ text. l.ask_spends _ w text)
      where
        answered :
            (o : Result ℕ Text × World)
            → ((text : Text) → o.0 ≡ ok text → patience o.1 < patience w)
            → (as_answer c mgr o).0 ≡ secret pin
            → patience (as_answer c mgr o).1 < patience w
        answered (ok text, w') h e = h text refl
        answered (err n, w') h e = cc

    -- The fuel did not run out, and a secret took patience.
    abbrev Spends : ℕ → Option (Answer ⊥ ℕ) × World → Type 0
    Spends p (none, w) = ⊥
    Spends p (some (secret pin), w) = patience w < p
    Spends p (some (refused e), w) = Unit {0}
    Spends p (some (broken e), w) = Unit {0}

    Spends-le : (p q : ℕ) (o : Option (Answer ⊥ ℕ) × World) → p ≤ q → Spends p o → Spends q o
    Spends-le p q (none, w) le h = h
    Spends-le p q (some (secret pin), w) le h = omega arith
    Spends-le p q (some (refused e), w) le h = tt
    Spends-le p q (some (broken e), w) le h = tt

    module _ (serial : ℕ) where
      abbrev again_for : ℕ → Option PinError → World → Option (Answer ⊥ ℕ) × World
      again_for tries = request_pin (ask_new_pin c mgr) serial tries

      on_answer-Spends :
          (tries p : ℕ) (o : Answer ⊥ ℕ × World)
          → ((pin : Text) → o.0 ≡ secret pin → patience o.1 < p)
          → ((pin : Text)
              → o.0 ≡ secret pin
              → (e : Option PinError) → Spends p (again_for tries e o.1))
          → Spends p (on_answer (ask_new_pin c mgr) serial (again_for tries) o)
      on_answer-Spends tries p (refused e, w) s f = tt
      on_answer-Spends tries p (broken e, w) s f = tt
      on_answer-Spends tries p (secret pin, w) s f = taken (reject serial pin)
        where
          taken :
              (r : Option PinError)
              → Spends p (on_secret (ask_new_pin c mgr) serial (again_for tries) pin w r)
          taken none = s pin refl
          taken (some e) = f pin refl (some e)

      request_pin-Spends :
          (tries p : ℕ) (prev : Option PinError) (w : World)
          → patience w ≤ p
          → p < tries
          → Spends p (again_for tries prev w)
      unfolding request_pin
      request_pin-Spends zero p prev w h f = absurd (omega arith)
      request_pin-Spends (suc tries) p prev w h f =
          let w' = (ask_new_pin c mgr prev w).1 in
          on_answer-Spends tries p (ask_new_pin c mgr prev w)
            (λ pin e. omega (arith, ask_new_pin_spends prev w pin e))
            (λ pin e prev'.
              Spends-le (patience w') p (again_for tries prev' w')
                (omega (arith, ask_new_pin_keeps prev w))
                (request_pin-Spends tries (patience w') prev' w' (omega arith)
                  (omega (arith, ask_new_pin_spends prev w pin e))))

    module _ (y : YubiKey) where
      new_pin-Finishes :
          (fuel tries p : ℕ) (w : World)
          → patience w ≤ p
          → p < fuel
          → p < tries
          → Finishes Any (new_pin c mgr y fuel tries w)
      unfolding new_pin
      new_pin-Finishes zero tries p w h f t = absurd (omega arith)
      new_pin-Finishes (suc fuel) tries p w h f t =
          chosen (request_pin (ask_new_pin c mgr) (c.serial_of y) tries none w)
            (request_pin-Spends (c.serial_of y) tries p none w h t)
            (λ w' less.
              new_pin-Finishes fuel tries (patience w') w' (omega arith) (omega arith)
                (omega arith))
        where
          chosen :
              (o : Option (Answer ⊥ ℕ) × World)
              → Spends p o
              → ((w' : World) → patience w' < p → Finishes Any (new_pin c mgr y fuel tries w'))
              → Finishes Any (on_new_pin c mgr (new_pin c mgr y fuel tries) o)
          chosen (none, w') s g = s
          chosen (some (broken e), w') s g = tt
          chosen (some (refused e), w') s g = absurd e
          chosen (some (secret pin), w') s g = elim (Bool-cases (list_beq pin default_pin)) [
            | inl d ↦ rw d (g w' s)
            | inr n ↦ rw n tt
          ]

      change_default_pin-Finishes :
          (fuel : ℕ) (pin : Text) (w : World)
          → patience w < fuel
          → Finishes Any (change_default_pin c mgr y fuel fuel pin w)
      unfolding change_default_pin
      change_default_pin-Finishes fuel pin w f =
          let less = l.ask_keeps enter_current_puk w in
          Finishes->>= (λ w'. patience w' ≤ patience w) Any
            (try_as dialog (mgr.ask enter_current_puk w)) _
            (try_as-Finishes (λ w'. patience w' ≤ patience w) dialog (mgr.ask enter_current_puk w)
              less)
            (λ puk w1 h1.
              Finishes->>= Any Any (new_pin c mgr y fuel fuel w1) _
                (new_pin-Finishes fuel fuel (patience w) w1 h1 f f)
                (λ pin' w2 _.
                  Finishes->>= Any Any
                    (try_as puk_error (mgr.change_puk y (as_bytes puk) (as_bytes pin') w2)) _
                    (try_as-Finishes Any puk_error
                      (mgr.change_puk y (as_bytes puk) (as_bytes pin') w2) tt)
                    (λ _ w3 _.
                      try_as-Finishes Any yubikey
                        (mgr.change_pin y (as_bytes pin) (as_bytes pin') w3) tt)))

      if_default-Finishes :
          (fuel : ℕ) (pin : Text) (b : Bool) (w : World)
          → patience w < fuel
          → Finishes Any (if_default c mgr y fuel fuel pin b w)
      if_default-Finishes fuel pin true w f = change_default_pin-Finishes fuel pin w f
      if_default-Finishes fuel pin false w f = tt

      pub manage-Finishes :
          (fuel : ℕ) (w : World) → patience w < fuel → Finishes Any (manage c mgr y fuel fuel w)
      unfolding manage
      manage-Finishes fuel w f =
          let I : World → Type 0 = λ w'. patience w' < fuel in
          Finishes->>= I Any (try_as dialog (mgr.ask (enter_pin (c.serial_of y)) w)) _
            (try_as-Finishes I dialog (mgr.ask (enter_pin (c.serial_of y)) w)
              (omega (arith, l.ask_keeps (enter_pin (c.serial_of y)) w)))
            (λ pin w1 h1.
              Finishes->>= I Any (try_as yubikey (mgr.verify_pin y (as_bytes pin) w1)) _
                (try_as-Finishes I yubikey (mgr.verify_pin y (as_bytes pin) w1)
                  (omega (arith, l.verify_pin_keeps y (as_bytes pin) w1, h1)))
                (λ _ w2 h2.
                  Finishes->>= Any Any
                    (if_default c mgr y fuel fuel pin (list_beq pin default_pin) w2) _
                    (if_default-Finishes fuel pin (list_beq pin default_pin) w2 h2)
                    (λ _ w3 _. on_protected-Finishes y (mgr.get_protected y w3))))
