-- ===== src/Age/Pin.antt =====
-- `request_pin` of age-plugin-yubikey/src/key.rs: ask until the answer has the length of a PIN.
use mathlib.Core.Path.{subst}
use mathlib.Core.Option.{some-injective}
use remote_yubikey_manager.Common.{
  refl, ◌↔◌, Option-cases, ℕ, zero, suc, ◌≤◌, ◌<◌, ◌≡◌, ◌≢◌, sym, ap, ◌∙◌, Bool, true, false, ◌&&◌,
  List, [], ◌∷◌, ◌++◌, Option, none, some, All, map, length, append_assoc, leb, leb→le, le→leb,
  ◌==◌, ==_iff, Bool-cases, if◌then◌else◌, inl, inr, arith,
}
use remote_yubikey_manager.Common.Eq.{nat_eq}
use remote_yubikey_manager.Common.Text.{Text, as_bytes}
use remote_yubikey_manager.Age.Serial.{otp_serial_prefix}

-- The messages of a rejected answer
pub data PinError : Type 0 where
  accidental_touch too_short too_long : PinError

-- What the prompt returns: a secret, an error of the user's side, or one of the communication.
pub data Answer (E E2 : Type 0) : Type 0 where
  secret : Text → Answer E E2
  refused : E → Answer E E2
  broken : E2 → Answer E E2

-- `starts_with`
abbrev pub starts_with : Text → Text → Bool
starts_with [] cs = true
starts_with (p ∷ ps) [] = false
starts_with (p ∷ ps) (c ∷ cs) = (p == c) && starts_with ps cs

-- Whether a text begins as a one-time password of this YubiKey does. The prefix is there for every
-- serial number.
unfoldable pub is_otp : ℕ → Text → Bool
is_otp serial text = elim (otp_serial_prefix serial) [
  | none ↦ false
  | some prefix ↦ starts_with prefix text
]

-- The arms on a secret, by its length in bytes; `none` takes it.
unfoldable pub reject : ℕ → Text → Option PinError
reject serial pin =
    let len = length (as_bytes pin) in
    if leb 6 len && leb len 8
    then none
    else if len == 44 && is_otp serial pin
    then some accidental_touch
    else if leb len 5
    then some too_short
    else some too_long

module _ {E E2 W : Type 0} (prompt : Option PinError → W → Answer E E2 × W) (serial : ℕ) where
  -- What follows a secret: it is taken, or the next question shows why it is not.
  abbrev pub on_secret :
      (Option PinError → W → Option (Answer E E2) × W)
      → Text
      → W
      → Option PinError
      → Option (Answer E E2) × W
  on_secret again pin w none = (some (secret pin), w)
  on_secret again pin w (some e) = again (some e) w

  abbrev pub on_answer :
      (Option PinError → W → Option (Answer E E2) × W) → Answer E E2 × W → Option (Answer E E2) × W
  on_answer again (refused e, w) = (some (refused e), w)
  on_answer again (broken e, w) = (some (broken e), w)
  on_answer again (secret pin, w) = on_secret again pin w (reject serial pin)

  -- The loop, with the message of the last attempt. `none`: the fuel ran out.
  unfoldable pub request_pin : ℕ → Option PinError → W → Option (Answer E E2) × W
  request_pin zero prev_error w = (none, w)
  request_pin (suc fuel) prev_error w = on_answer (request_pin fuel) (prompt prev_error w)

-- The length of a PIN, in bytes
abbrev pub IsPinLength : Text → Type 0
IsPinLength pin = (6 ≤ length (as_bytes pin)) × (length (as_bytes pin) ≤ 8)

reject-IsPinLength : (serial : ℕ) (pin : Text) → (reject serial pin ≡ none) ↔ IsPinLength pin
unfolding reject
reject-IsPinLength serial pin = (
  λ e. ground (arith, leb→le 6 (length (as_bytes pin)), leb→le (length (as_bytes pin)) 8),
  λ h. rw (le→leb 6 (length (as_bytes pin)) h.0, le→leb (length (as_bytes pin)) 8 h.1) refl,
)

All-rejected :
    (serial : ℕ) (bad : List Text)
    → All (λ p. ¬ IsPinLength p) bad
    → All (λ p. reject serial p ≢ none) bad
All-rejected serial [] h = tt
All-rejected serial (p ∷ bad) h =
    ((λ e. h.0 ((reject-IsPinLength serial p).0 e)), All-rejected serial bad h.1)

-- What a message says of the secret it follows: it is as long as a one-time password and begins as one
-- of this YubiKey does, or it is shorter than 6 or longer than 8 bytes.
abbrev pub Explains : ℕ → Text → Option PinError → Type 0
Explains serial pin none = ⊥
Explains serial pin (some accidental_touch) =
    (length (as_bytes pin) ≡ 44) × (is_otp serial pin ≡ true)
Explains serial pin (some too_short) = length (as_bytes pin) < 6
Explains serial pin (some too_long) =
    (8 < length (as_bytes pin)) × (length (as_bytes pin) ≡ 44 → is_otp serial pin ≡ false)

-- One message for each secret
abbrev pub Explained : ℕ → List Text → List (Option PinError) → Type 0
Explained serial [] [] = Unit {0}
Explained serial [] (e ∷ es) = ⊥
Explained serial (p ∷ ps) [] = ⊥
Explained serial (p ∷ ps) (e ∷ es) = Explains serial p e × Explained serial ps es

reject-Explains :
    (serial : ℕ) (pin : Text) → ¬ IsPinLength pin → Explains serial pin (reject serial pin)
unfolding reject
reject-Explains serial pin h =
    let n = length (as_bytes pin) in
    elim (Bool-cases (leb 6 n && leb n 8)) [
      | inl t ↦ absurd (h (ground (arith, leb→le 6 n, leb→le n 8)))
      | inr f ↦ elim (Bool-cases (n == 44)) [
        | inl long ↦ elim (Bool-cases (is_otp serial pin)) [
          | inl otp ↦ rw (reject, f, long, otp) ((==_iff n 44).0 long, otp)
          | inr plain ↦
              let e = (==_iff n 44).0 long in
              let more : leb n 5 ≡ false = rw e refl in
              rw (reject, f, long, plain, more) (omega (arith, e), λ _. plain)
        ]
        | inr other ↦ elim (Bool-cases (leb n 5)) [
          | inl short ↦ rw (reject, f, other, short) (omega (arith, leb→le n 5 short))
          | inr more ↦
              rw (reject, f, other, more)
                (
                  ground (arith, le→leb 6 n, le→leb n 8, le→leb n 5),
                  λ e. ground (arith, (==_iff n 44).1 e),
                )
        ]
      ]
    ]

map-Explained :
    (serial : ℕ) (bad : List Text)
    → All (λ p. ¬ IsPinLength p) bad
    → Explained serial bad (map (reject serial) bad)
map-Explained serial [] h = tt
map-Explained serial (p ∷ bad) h = (reject-Explains serial p h.0, map-Explained serial bad h.1)

-- A user with answers in store, and the messages that were shown.
pub record Dialogue (E E2 : Type 0) : Type 0 where
  pub answers : List (Answer E E2)
  pub shown : List (Option PinError)

module _ {E E2 : Type 0} (nothing : E2) where
  -- A user who has no more answers breaks the communication.
  abbrev pub ask : Option PinError → Dialogue E E2 → Answer E E2 × Dialogue E E2
  ask e d = elim d.answers [
    | [] ↦ (broken nothing, record d { shown = d.shown ++ (e ∷ []) })
    | a ∷ rest ↦ (a, record { answers = rest; shown = d.shown ++ (e ∷ []) })
  ]

  dialogue :
      (serial fuel : ℕ) (bad : List Text) (pin : Text) (rest : List (Answer E E2))
      (prev : Option PinError) (shown : List (Option PinError))
      → All (λ p. reject serial p ≢ none) bad
      → reject serial pin ≡ none
      → length bad < fuel
      → request_pin ask serial fuel prev
          (record { answers = map secret bad ++ (secret pin ∷ rest); shown = shown })
        ≡ (
          some (secret pin),
          record { answers = rest; shown = shown ++ (prev ∷ map (reject serial) bad) },
        )
  unfolding request_pin
  dialogue serial zero bad pin rest prev shown rejected good h = absurd (omega arith)
  dialogue serial (suc fuel) [] pin rest prev shown rejected good h =
      ap
        (on_secret ask serial (request_pin ask serial fuel) pin
          (record { answers = rest; shown = shown ++ (prev ∷ []) }))
        good
  dialogue serial (suc fuel) (p ∷ bad) pin rest prev shown rejected good h =
      elim (Option-cases (reject serial p)) [
        | inl n ↦ absurd (rejected.0 n)
        | inr (e, g) ↦
            ap
              (on_secret ask serial (request_pin ask serial fuel) p (record {
                answers = map secret bad ++ (secret pin ∷ rest);
                shown = shown ++ (prev ∷ []);
              }))
              g
            ∙ dialogue serial fuel bad pin rest (some e) (shown ++ (prev ∷ [])) rejected.1 good
                (omega arith)
            ∙ ap (λ l. (some (secret pin), record { answers = rest; shown = l }))
                (append_assoc shown (prev ∷ []) (some e ∷ map (reject serial) bad)
                  ∙ ap (λ r. shown ++ (prev ∷ r ∷ map (reject serial) bad)) (sym g))
      ]

  -- For a user with answers in store, the dialogue ends with the first secret of 6 to 8 bytes,
  -- after one question for each secret before it and one for itself. Each question but the first
  -- explains why the last secret was rejected: by an accidental touch, if it has 44 bytes and the
  -- prefix of a one-time password, as too short below 6 bytes, and else as too long. More fuel than
  -- rejected secrets is enough.
  pub request_pin_asks :
      (serial fuel : ℕ) (bad : List Text) (pin : Text) (rest : List (Answer E E2))
      (prev : Option PinError) (shown : List (Option PinError))
      → All (λ p. ¬ IsPinLength p) bad
      → IsPinLength pin
      → length bad < fuel
      → (messages : List (Option PinError)) × Explained serial bad messages
        × (request_pin ask serial fuel prev
              (record { answers = map secret bad ++ (secret pin ∷ rest); shown = shown })
            ≡ (some (secret pin), record { answers = rest; shown = shown ++ (prev ∷ messages) }))
  request_pin_asks serial fuel bad pin rest prev shown rejected good h = (
    map (reject serial) bad,
    map-Explained serial bad rejected,
    dialogue serial fuel bad pin rest prev shown (All-rejected serial bad rejected)
        ((reject-IsPinLength serial pin).1 good) h,
  )

module _ {E E2 W : Type 0} (prompt : Option PinError → W → Answer E E2 × W) where
  secret-injective : {p q : Text} → Path (Answer E E2) (secret p) (secret q) → p ≡ q
  secret-injective e = cc

  -- Whatever the prompt does, a secret that the dialogue returns has 6 to 8 bytes.
  pub request_pin_bounds :
      (serial fuel : ℕ) (prev : Option PinError) (w : W) (pin : Text)
      → (request_pin prompt serial fuel prev w).0 ≡ some (secret pin)
      → IsPinLength pin
  unfolding request_pin
  request_pin_bounds serial zero prev w pin e = cc
  request_pin_bounds serial (suc fuel) prev w pin e =
      answered (prompt prev w) e (λ prev' w'. request_pin_bounds serial fuel prev' w' pin)
    where
      answered :
          (a : Answer E E2 × W)
          → (on_answer prompt serial (request_pin prompt serial fuel) a).0 ≡ some (secret pin)
          → ((prev' : Option PinError) (w' : W)
              → (request_pin prompt serial fuel prev' w').0 ≡ some (secret pin)
              → IsPinLength pin)
          → IsPinLength pin
      answered (refused x, w') e ih = cc
      answered (broken x, w') e ih = cc
      answered (secret p, w') e ih = elim (Option-cases (reject serial p)) [
        | inl n ↦
            let same : p ≡ pin = secret-injective (some-injective _ _ (rw n at e)) in
            subst IsPinLength same ((reject-IsPinLength serial p).0 n)
        | inr (x, g) ↦ ih (some x) w' (rw g at e)
      ]
