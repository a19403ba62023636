-- ===== src/Age/Cli/Commands.antt =====
-- The command that the options of age-plugin-yubikey/src/main.rs ask for.
use remote_yubikey_manager.Common.{
  ℕ, ◌+◌, ◌%◌, ◌≡◌, ◌⊎◌, refl, sym, ◌∙◌, inl, inr, Bool, true, false, [], ◌∷◌, Option, none, some,
  ltb, if◌then◌else◌, get_elem?,
}
use remote_yubikey_manager.Common.Text.{Text}
use remote_yubikey_manager.Common.Result.{Result}
use remote_yubikey_manager.Common.Outcome.{Outcome, ok, err, panic, ◌>>=◌}
use remote_yubikey_manager.Age.Slots.{RetiredSlotId, invalid_slot, ui_to_slot, usable_slots}
use remote_yubikey_manager.Age.Error.{Error}
use remote_yubikey_manager.Age.Policy.{
  PinPolicy, TouchPolicy, pin_policy_from_string, touch_policy_from_string,
}
use remote_yubikey_manager.Age.Cli.{
  PluginOptions, PluginFlags, transpose, slot_outcome, of_result, try_from, Command,
  run_state_machine, print_version, run_generate, print_details, run_setup, count_true,
  check_identity, is_some, check_list, choose_command, plugin_or, dispatch,
}

-- The call does not panic, and a value is as `P` says.
abbrev pub Gives : {E A : Type 0} → (A → Type 0) → Outcome E A → Type 0
Gives P (ok a) = P a
Gives P (err e) = Unit {0}
Gives P panic = ⊥

Gives->>= :
    {E A B : Type 0} (P : A → Type 0) (Q : B → Type 0) (o : Outcome E A) (f : A → Outcome E B)
    → Gives P o
    → ((a : A) → P a → Gives Q (f a))
    → Gives Q (o >>= f)
Gives->>= P Q (ok a) f h g = g a h
Gives->>= P Q (err e) f h g = tt
Gives->>= P Q panic f h g = h

Gives-if :
    {E A : Type 0} (P : A → Type 0) (b : Bool) (x y : Outcome E A)
    → (b ≡ true → Gives P x)
    → (b ≡ false → Gives P y)
    → Gives P (if b then x else y)
Gives-if P true x y h k = h refl
Gives-if P false x y h k = k refl

-- An optional flag is the conversion of an optional option.
abbrev pub Converts : {E A B : Type 0} → (A → Outcome E B) → Option A → Option B → Type 0
Converts f none none = Unit {0}
Converts f none (some b) = ⊥
Converts f (some a) none = ⊥
Converts f (some a) (some b) = f a ≡ ok b

transpose-Converts :
    {A B : Type 0} (f : A → Outcome Error B) (o : Option A)
    → ((a : A) → Gives (λ _. Unit {0}) (f a))
    → Gives (Converts f o) (transpose f o)
transpose-Converts f none h = tt
transpose-Converts f (some a) h = go (f a) refl (h a)
  where
    go :
        (o : Outcome Error _)
        → f a ≡ o
        → Gives (λ _. Unit {0}) o
        → Gives (Converts f (some a)) (o >>= λ b. ok (some b))
    go (ok b) e q = e
    go (err x) e q = tt
    go panic e q = q

of_result-Gives : {A : Type 0} (r : Result Error A) → Gives (λ _. Unit {0}) (of_result r)
of_result-Gives (Result.ok a) = tt
of_result-Gives (Result.err e) = tt

slot-Gives : (n : ℕ) → Gives (λ _. Unit {0}) (slot_outcome (ui_to_slot n))
unfolding ui_to_slot
slot-Gives n = go (get_elem? usable_slots ((n + 18446744073709551615) % 18446744073709551616))
  where
    go :
        (o : Option RetiredSlotId)
        → Gives
            (λ _. Unit {0})
            (slot_outcome (elim o [ some s ↦ ok s | none ↦ err (invalid_slot n) ]))
    go none = tt
    go (some s) = tt

-- The flags are the options, with the slot and the policies read.
pub record FromOptions (opts : PluginOptions) (flags : PluginFlags) : Type 0 where
  pub same_serial : flags.serial ≡ opts.serial
  pub same_name : flags.name ≡ opts.name
  pub same_force : flags.force ≡ opts.force
  pub read_slot : Converts (λ n. slot_outcome (ui_to_slot n)) opts.slot flags.slot
  pub read_pin_policy :
      Converts (λ s. of_result (pin_policy_from_string s)) opts.pin_policy flags.pin_policy
  pub read_touch_policy :
      Converts (λ s. of_result (touch_policy_from_string s)) opts.touch_policy flags.touch_policy

try_from-FromOptions : (opts : PluginOptions) → Gives (FromOptions opts) (try_from opts)
unfolding try_from
try_from-FromOptions opts =
    Gives->>= (Converts (λ n. slot_outcome (ui_to_slot n)) opts.slot) (FromOptions opts)
      (transpose (λ n. slot_outcome (ui_to_slot n)) opts.slot)
      (λ slot. transpose (λ s. of_result (pin_policy_from_string s)) opts.pin_policy >>= λ pin.
        transpose (λ s. of_result (touch_policy_from_string s)) opts.touch_policy >>= λ touch.
        ok (flags_of slot pin touch))
      (transpose-Converts (λ n. slot_outcome (ui_to_slot n)) opts.slot slot-Gives)
      (λ slot hs.
        Gives->>= (Converts (λ s. of_result (pin_policy_from_string s)) opts.pin_policy)
          (FromOptions opts) (transpose (λ s. of_result (pin_policy_from_string s)) opts.pin_policy)
          (λ pin.
            transpose (λ s. of_result (touch_policy_from_string s)) opts.touch_policy >>= λ touch.
            ok (flags_of slot pin touch))
          (transpose-Converts (λ s. of_result (pin_policy_from_string s)) opts.pin_policy
            (λ s. of_result-Gives (pin_policy_from_string s)))
          (λ pin hp.
            Gives->>= (Converts (λ s. of_result (touch_policy_from_string s)) opts.touch_policy)
              (FromOptions opts)
              (transpose (λ s. of_result (touch_policy_from_string s)) opts.touch_policy)
              (λ touch. ok (flags_of slot pin touch))
              (transpose-Converts (λ s. of_result (touch_policy_from_string s)) opts.touch_policy
                (λ s. of_result-Gives (touch_policy_from_string s)))
              (λ touch ht. record {
                same_serial = refl;
                same_name = refl;
                same_force = refl;
                read_slot = hs;
                read_pin_policy = hp;
                read_touch_policy = ht;
              })))
  where
    flags_of : Option RetiredSlotId → Option PinPolicy → Option TouchPolicy → PluginFlags
    flags_of slot pin touch = record {
      serial = opts.serial;
      slot = slot;
      name = opts.name;
      pin_policy = pin;
      touch_policy = touch;
      force = opts.force;
    }

module _ (opts : PluginOptions) where
  -- What a command says of the options
  abbrev pub Asked : Command → Type 0
  Asked (run_state_machine s) = opts.age_plugin ≡ some s
  Asked print_version = opts.version ≡ true
  Asked (run_generate flags) = (opts.generate ≡ true) × FromOptions opts flags
  Asked (print_details flags true) =
      (opts.list_all ≡ true) × (opts.force ≡ false) × (flags.slot ≡ none) × FromOptions opts flags
  Asked (print_details flags false) =
      ((opts.identity ≡ true) ⊎ (opts.list ≡ true)) × (opts.force ≡ false) × FromOptions opts flags
  Asked (run_setup flags) =
      ((opts.generate ≡ false)
        × (opts.identity ≡ false)
        × (opts.list ≡ false)
        × (opts.list_all ≡ false))
      × (opts.force ≡ false)
      × FromOptions opts flags

  check_identity-Asked :
      (flags : PluginFlags)
      → opts.identity ≡ true
      → FromOptions opts flags
      → Gives Asked (check_identity flags)
  unfolding check_identity
  check_identity-Asked flags e f =
      Gives-if Asked flags.force _ (ok (print_details flags false)) (λ t. tt)
        (λ n. (inl e, sym f.same_force ∙ n, f))

  no_slot : (o : Option RetiredSlotId) → is_some o ≡ false → o ≡ none
  no_slot none h = refl
  no_slot (some x) h = cc

  check_list-Asked :
      (flags : PluginFlags) (all : Bool)
      → ((all ≡ true) × (opts.list_all ≡ true)) ⊎ ((all ≡ false) × (opts.list ≡ true))
      → FromOptions opts flags
      → Gives Asked (check_list flags all)
  unfolding check_list
  check_list-Asked flags true (inr (a, e)) f = cc
  check_list-Asked flags false (inl (a, e)) f = cc
  check_list-Asked flags false (inr (a, e)) f =
      Gives-if Asked flags.force _ (ok (print_details flags false)) (λ t. tt)
        (λ n. (inr e, sym f.same_force ∙ n, f))
  check_list-Asked flags true (inl (a, e)) f =
      Gives-if Asked (is_some flags.slot) _ _ (λ t. tt)
        (λ s.
          Gives-if Asked flags.force _ (ok (print_details flags true)) (λ t. tt)
            (λ n. (e, sym f.same_force ∙ n, no_slot flags.slot s, f)))

  flagged :
      (f : PluginFlags → Outcome Error Command)
      → ((flags : PluginFlags) → FromOptions opts flags → Gives Asked (f flags))
      → Gives Asked (try_from opts >>= f)
  flagged f h = Gives->>= (FromOptions opts) Asked (try_from opts) f (try_from-FromOptions opts) h

  choose_command-Asked : Gives Asked (choose_command opts)
  unfolding choose_command
  choose_command-Asked =
      Gives-if Asked opts.version (ok print_version) _ (λ v. v)
        (λ v.
          Gives-if Asked opts.generate _ _
            (λ g. flagged (λ flags. ok (run_generate flags)) (λ flags f. (g, f)))
            (λ g.
              Gives-if Asked opts.identity _ _
                (λ i. flagged check_identity (λ flags f. check_identity-Asked flags i f))
                (λ i.
                  Gives-if Asked opts.list _ _
                    (λ l.
                      flagged (λ flags. check_list flags false)
                        (λ flags f. check_list-Asked flags false (inr (refl, l)) f))
                    (λ l.
                      Gives-if Asked opts.list_all _ _
                        (λ a.
                          flagged (λ flags. check_list flags true)
                            (λ flags f. check_list-Asked flags true (inl (refl, a)) f))
                        (λ a.
                          Gives-if Asked opts.force _ _ (λ t. tt)
                            (λ n.
                              flagged (λ flags. ok (run_setup flags))
                                (λ flags f. ((g, i, l, a), n, f))))))))

  -- The dispatch does not panic. A command was asked for by its option, with flags read from the
  -- options; `--force` is not ignored by a command that prints or by the setup, a slot not by
  -- `--list-all`, and the setup is run only if no command was asked for.
  pub dispatch-Asked : Gives Asked (dispatch opts)
  unfolding dispatch
  dispatch-Asked =
      Gives-if Asked
        (ltb 1 (count_true (opts.generate ∷ opts.identity ∷ opts.list ∷ opts.list_all ∷ []))) _ _
        (λ t. tt) (λ f. plugged opts.age_plugin refl)
    where
      plugged :
          (o : Option Text) → opts.age_plugin ≡ o → Gives Asked (plugin_or o (choose_command opts))
      plugged none e = choose_command-Asked
      plugged (some s) e = e
