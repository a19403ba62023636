-- ===== src/Age/Builder/Choice.antt =====
-- The slot that `IdentityBuilder::build` of age-plugin-yubikey/src/builder.rs chooses.
use remote_yubikey_manager.Common.{
  ◌≡◌, ◌⊎◌, refl, ap, inl, inr, Bool, true, false, List, [], ◌∷◌, ◌++◌, Option, none, some, All,
  Bool-cases,
}
use mathlib.Core.Option.{some-injective}
use remote_yubikey_manager.Common.Result.{Result, ok, err}
use remote_yubikey_manager.Age.Slots.{RetiredSlotId, usable_slots}
use remote_yubikey_manager.Age.Error.{yubikey}
use remote_yubikey_manager.Age.Yubikey.{Cards, YubikeyError}
use remote_yubikey_manager.Age.Recipient.{Curve}
use remote_yubikey_manager.Age.Metadata.{X509}
use remote_yubikey_manager.Age.Connection.{Keys}
use remote_yubikey_manager.Age.Manage.{Key, Manager, try_as}
use remote_yubikey_manager.Age.Step.{◌>>=◌, Holds}
use remote_yubikey_manager.Age.Builder.{
  Generator, is_occupied, first_empty, if_empty, or_full, choose_slot,
}

-- The first of the slots that no key occupies
abbrev pub IsFirst :
    {Certificate : Type 0} → List RetiredSlotId → List (Key Certificate) → RetiredSlotId → Type 0
IsFirst slots keys slot =
    (before : List RetiredSlotId) × (after : List RetiredSlotId) × (slots
      ≡ before ++ (slot ∷ after))
    × All (λ s. is_occupied keys s ≡ true) before
    × (is_occupied keys slot ≡ false)

module _ {Certificate : Type 0} (keys : List (Key Certificate)) where
  first_empty-IsFirst :
      (slots : List RetiredSlotId) (slot : RetiredSlotId)
      → first_empty slots keys ≡ some slot
      → IsFirst slots keys slot
  unfolding first_empty
  first_empty-IsFirst [] slot e = cc
  first_empty-IsFirst (s ∷ slots) slot e = elim (Bool-cases (is_occupied keys s)) [
    | inl t ↦
        let (before, after, q, h, free) = first_empty-IsFirst slots slot (rw t at e) in
        (s ∷ before, after, ap (◌∷◌ s) q, (t, h), free)
    | inr f ↦
        let here : some s ≡ some slot = rw f at e in
        let same : s ≡ slot = some-injective _ _ here in
        ([], slots, ap (λ x. x ∷ slots) same, tt, rw (← same) f)
  ]

module _ {Point : Type 0} (k : Curve Point) (c : Cards) (keys : Keys c Point)
    (mgr : Manager c keys.Certificate) (gen : Generator c Point keys.Certificate) (x509 : X509)
    (y : c.YubiKey) where
  open c use {World}

  -- A slot that was asked for may be occupied only by force; one that was not asked for is the first
  -- empty one. What is empty is read off the keys that the YubiKey lists.
  abbrev pub MayUse : Option RetiredSlotId → Bool → RetiredSlotId → Type 0
  MayUse (some asked) forced slot =
      (slot ≡ asked)
      × ((forced ≡ true)
          ⊎ ((ks : List (Key keys.Certificate)) × (w : World) × ((mgr.list_keys y w).0 ≡ ok ks)
              × (is_occupied ks slot ≡ false)))
  MayUse none forced slot =
      (ks : List (Key keys.Certificate)) × (w : World) × ((mgr.list_keys y w).0 ≡ ok ks)
      × IsFirst usable_slots ks slot

  pub choose_slot-MayUse :
      (asked : Option RetiredSlotId) (forced : Bool) (w : World)
      → Holds (MayUse asked forced) (choose_slot k c keys mgr gen x509 y asked forced w)
  unfolding choose_slot
  choose_slot-MayUse (some slot) true w = (refl, inl refl)
  choose_slot-MayUse (some slot) false w = listed (mgr.list_keys y w) refl
    where
      checked :
          (ks : List (Key keys.Certificate)) (w' : World) (b : Bool)
          → (mgr.list_keys y w).0 ≡ ok ks
          → is_occupied ks slot ≡ b
          → Holds (MayUse (some slot) false) (if_empty k c keys mgr gen x509 y slot b w')
      checked ks w' true e q = tt
      checked ks w' false e q = (refl, inr (ks, w, e, q))

      listed :
          (o : Result YubikeyError (List (Key keys.Certificate)) × World)
          → mgr.list_keys y w ≡ o
          → Holds (MayUse (some slot) false) (
              try_as yubikey o >>= λ ks w'.
              if_empty k c keys mgr gen x509 y slot (is_occupied ks slot) w')
      listed (err e, w') q = tt
      listed (ok ks, w') q = checked ks w' (is_occupied ks slot) (rw q refl) refl
  choose_slot-MayUse none forced w = listed (mgr.list_keys y w) refl
    where
      checked :
          (ks : List (Key keys.Certificate)) (w' : World) (o : Option RetiredSlotId)
          → (mgr.list_keys y w).0 ≡ ok ks
          → first_empty usable_slots ks ≡ o
          → Holds (MayUse none forced) (or_full k c keys mgr gen x509 y o w')
      checked ks w' none e q = tt
      checked ks w' (some slot) e q = (ks, w, e, first_empty-IsFirst ks usable_slots slot q)

      listed :
          (o : Result YubikeyError (List (Key keys.Certificate)) × World)
          → mgr.list_keys y w ≡ o
          → Holds (MayUse none forced) (
              try_as yubikey o >>= λ ks w'.
              or_full k c keys mgr gen x509 y (first_empty usable_slots ks) w')
      listed (err e, w') q = tt
      listed (ok ks, w') q = checked ks w' (first_empty usable_slots ks) (rw q refl) refl
