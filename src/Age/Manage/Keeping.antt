-- ===== src/Age/Manage/Keeping.antt =====
-- What the calls of age-plugin-yubikey/src/key.rs keep of the state that they change.
use remote_yubikey_manager.Common.{ℕ, zero, suc, inl, inr, Option, some, Option-cases}
use remote_yubikey_manager.Common.Eq.{nat_eq}
use remote_yubikey_manager.Age.Pin.{
  PinError, Answer, secret, refused, broken, reject, on_answer, request_pin,
}
use remote_yubikey_manager.Age.Step.{Step, next, stopped, panicked, starved, ◌>>=◌}

-- The call does not panic, the state stays as `I` says, and a value is as `P` says.
abbrev pub Keeps : {E A W : Type 0} → (W → Type 0) → (A → Type 0) → Step E A × W → Type 0
Keeps I P (next a, w) = P a × I w
Keeps I P (stopped e, w) = I w
Keeps I P (panicked, w) = ⊥
Keeps I P (starved, w) = I w

pub Keeps->>= :
    {E A B W : Type 0} (I : W → Type 0) (P : A → Type 0) (Q : B → Type 0) (o : Step E A × W)
    (f : A → W → Step E B × W)
    → Keeps I P o
    → ((a : A) (w : W) → P a → I w → Keeps I Q (f a w))
    → Keeps I Q (o >>= f)
Keeps->>= I P Q (next a, w) f h g = g a w h.0 h.1
Keeps->>= I P Q (stopped e, w) f h g = h
Keeps->>= I P Q (panicked, w) f h g = h
Keeps->>= I P Q (starved, w) f h g = h

module _ {E E2 W : Type 0} (I : W → Type 0) (prompt : Option PinError → W → Answer E E2 × W)
    (keeps : (prev : Option PinError) (w : W) → I w → I (prompt prev w).1) (serial : ℕ) where
  -- A dialogue keeps what its prompt keeps.
  pub request_pin_keeps :
      (fuel : ℕ) (prev : Option PinError) (w : W)
      → I w
      → I (request_pin prompt serial fuel prev w).1
  unfolding request_pin
  request_pin_keeps zero prev w h = h
  request_pin_keeps (suc fuel) prev w h =
      answered (prompt prev w) (keeps prev w h) (λ prev' w'. request_pin_keeps fuel prev' w')
    where
      answered :
          (a : Answer E E2 × W)
          → I a.1
          → ((prev' : Option PinError) (w' : W)
              → I w'
              → I (request_pin prompt serial fuel prev' w').1)
          → I (on_answer prompt serial (request_pin prompt serial fuel) a).1
      answered (refused x, w') h' ih = h'
      answered (broken x, w') h' ih = h'
      answered (secret p, w') h' ih = elim (Option-cases (reject serial p)) [
        | inl n ↦ rw n h'
        | inr (x, g) ↦ rw g (ih (some x) w' h')
      ]
