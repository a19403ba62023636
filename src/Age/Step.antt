-- ===== src/Age/Step.antt =====
-- The calls of age-plugin-yubikey that change the world and may end early, by `?` or by a panic.
use remote_yubikey_manager.Common.{◌≢◌}

-- How a call goes on: with a value, with an error that ends it, or with a panic.
-- `starved`: the fuel of a loop ran out.
pub data Step (E A : Type 0) : Type 0 where
  next : A → Step E A
  stopped : E → Step E A
  panicked starved : Step E A

infixl 5 ◌>>=◌
abbrev pub ◌>>=◌ : {E A B W : Type 0} → Step E A × W → (A → W → Step E B × W) → Step E B × W
(next a, w) >>= f = f a w
(stopped e, w) >>= f = (stopped e, w)
(panicked, w) >>= f = (panicked, w)
(starved, w) >>= f = (starved, w)

module _ {E W A : Type 0} where
  -- The call does not panic, and a value that it goes on with is as `P` says.
  abbrev pub Holds : (A → Type 0) → Step E A × W → Type 0
  Holds P (next a, w) = P a
  Holds P (stopped e, w) = Unit {0}
  Holds P (panicked, w) = ⊥
  Holds P (starved, w) = Unit {0}

pub Holds->>= :
    {E W A B : Type 0} (P : A → Type 0) (Q : B → Type 0) (o : Step E A × W)
    (f : A → W → Step E B × W)
    → Holds P o
    → ((a : A) (w : W) → P a → Holds Q (f a w))
    → Holds Q (o >>= f)
Holds->>= P Q (next a, w) f h g = g a w h
Holds->>= P Q (stopped e, w) f h g = tt
Holds->>= P Q (panicked, w) f h g = h
Holds->>= P Q (starved, w) f h g = tt

-- The fuel did not run out, and where the call goes on the world is as `I` says.
abbrev pub Finishes : {E W A : Type 0} → (W → Type 0) → Step E A × W → Type 0
Finishes I (next a, w) = I w
Finishes I (stopped e, w) = Unit {0}
Finishes I (panicked, w) = Unit {0}
Finishes I (starved, w) = ⊥

pub Finishes->>= :
    {E W A B : Type 0} (I J : W → Type 0) (o : Step E A × W) (f : A → W → Step E B × W)
    → Finishes I o
    → ((a : A) (w : W) → I w → Finishes J (f a w))
    → Finishes J (o >>= f)
Finishes->>= I J (next a, w) f h g = g a w h
Finishes->>= I J (stopped e, w) f h g = h
Finishes->>= I J (panicked, w) f h g = h
Finishes->>= I J (starved, w) f h g = h

pub Finishes-ne-starved :
    {E W A : Type 0} (I : W → Type 0) (o : Step E A × W) → Finishes I o → o.0 ≢ starved
Finishes-ne-starved I (next a, w) h = λ e. cc
Finishes-ne-starved I (stopped a, w) h = λ e. cc
Finishes-ne-starved I (panicked, w) h = λ e. cc
Finishes-ne-starved I (starved, w) h = λ e. h
