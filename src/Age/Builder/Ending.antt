-- ===== src/Age/Builder/Ending.antt =====
-- `IdentityBuilder::build` of age-plugin-yubikey/src/builder.rs ends, for a person who does not answer
-- forever.
use remote_yubikey_manager.Common.{
  ℕ, ◌<◌, ◌≢◌, Bool, true, false, [], ◌∷◌, ◌++◌, Option, none, some, arith,
}
use remote_yubikey_manager.Common.Eq.{nat_eq}
use remote_yubikey_manager.Common.Text.{as_bytes, codes}
use remote_yubikey_manager.Age.Error.{yubikey, dialog}
use remote_yubikey_manager.Age.Slots.{RetiredSlotId, usable_slots}
use remote_yubikey_manager.Age.Policy.{PinPolicy}
use remote_yubikey_manager.Age.Yubikey.{Cards}
use remote_yubikey_manager.Age.Recipient.{Curve, PublicKeyInfo, Recipient, from_spki, tag}
use remote_yubikey_manager.Age.Metadata.{X509, Metadata, extract}
use remote_yubikey_manager.Age.Connection.{Keys}
use remote_yubikey_manager.Age.Step.{starved, ◌>>=◌, Finishes, Finishes->>=, Finishes-ne-starved}
use remote_yubikey_manager.Age.Manage.{Manager, plugin_enter_pin, try_as, manage}
use remote_yubikey_manager.Age.Manage.Ending.{IsPatient, Any, try_as-Finishes, manage-Finishes}
use remote_yubikey_manager.Age.Builder.{
  Generator, IdentityBuilder, is_occupied, first_empty, if_empty, or_full, choose_slot, expect,
  pin_again, described, certify, generate_in, build, pin_policy_of, touch_policy_of, unwrap_or,
  subject_of, policies_of,
}

module _ {Point : Type 0} (k : Curve Point) (c : Cards) (keys : Keys c Point)
    (mgr : Manager c keys.Certificate) (gen : Generator c Point keys.Certificate) (x509 : X509)
    (patience : c.World → ℕ) (l : IsPatient c mgr patience) (y : c.YubiKey) where
  open c use {World}

  abbrev pub Free : World → Type 0
  Free = Any c mgr patience

  module _ (I : World → Type 0) where
    if_empty-Finishes :
        (slot : RetiredSlotId) (b : Bool) (w : World)
        → I w
        → Finishes I (if_empty k c keys mgr gen x509 y slot b w)
    if_empty-Finishes slot true w h = tt
    if_empty-Finishes slot false w h = h

    or_full-Finishes :
        (o : Option RetiredSlotId) (w : World)
        → I w
        → Finishes I (or_full k c keys mgr gen x509 y o w)
    or_full-Finishes none w h = tt
    or_full-Finishes (some slot) w h = h

    expect-Finishes :
        {A : Type 0} (o : Option A) (w : World)
        → I w
        → Finishes I (expect k c keys mgr gen x509 y o w)
    expect-Finishes none w h = tt
    expect-Finishes (some a) w h = h

  choose_slot-Finishes :
      (fuel : ℕ) (o : Option RetiredSlotId) (forced : Bool) (w : World)
      → patience w < fuel
      → Finishes (λ w'. patience w' < fuel) (choose_slot k c keys mgr gen x509 y o forced w)
  unfolding choose_slot
  choose_slot-Finishes fuel (some slot) true w h = h
  choose_slot-Finishes fuel (some slot) false w h =
      let I : World → Type 0 = λ w'. patience w' < fuel in
      Finishes->>= I I (try_as yubikey (mgr.list_keys y w)) _
        (try_as-Finishes c mgr patience I yubikey (mgr.list_keys y w)
          (omega (arith, l.list_keys_keeps y w, h)))
        (λ ks w' h'. if_empty-Finishes I slot (is_occupied ks slot) w' h')
  choose_slot-Finishes fuel none forced w h =
      let I : World → Type 0 = λ w'. patience w' < fuel in
      Finishes->>= I I (try_as yubikey (mgr.list_keys y w)) _
        (try_as-Finishes c mgr patience I yubikey (mgr.list_keys y w)
          (omega (arith, l.list_keys_keeps y w, h)))
        (λ ks w' h'. or_full-Finishes I (first_empty usable_slots ks) w' h')

  pin_again-Finishes :
      (policy : PinPolicy) (w : World) → Finishes Free (pin_again k c keys mgr gen x509 y policy w)
  unfolding pin_again
  pin_again-Finishes PinPolicy.always w =
      let asked = mgr.ask (plugin_enter_pin (c.serial_of y)) w in
      Finishes->>= Free Free (try_as dialog asked) _
        (try_as-Finishes c mgr patience Free dialog asked tt)
        (λ pin w' _.
          try_as-Finishes c mgr patience Free yubikey (mgr.verify_pin y (as_bytes pin) w') tt)
  pin_again-Finishes PinPolicy.default w = tt
  pin_again-Finishes PinPolicy.never w = tt
  pin_again-Finishes PinPolicy.once w = tt

  described-Finishes :
      (slot : RetiredSlotId) (pk : Recipient k) (m : Option Metadata × World)
      → Finishes Free (described k c keys mgr gen x509 y slot pk m)
  described-Finishes slot pk (m, w) =
      Finishes->>= Free Free (expect k c keys mgr gen x509 y m w) _ (expect-Finishes Free m w tt)
        (λ _ _ _. tt)

  module _ (b : IdentityBuilder) where
    certify-Finishes :
        (slot : RetiredSlotId) (spki : PublicKeyInfo Point) (pk : Recipient k) (w : World)
        → Finishes Free (certify k c keys mgr gen x509 y b slot spki pk w)
    unfolding certify
    certify-Finishes slot spki pk w =
        let p = pin_policy_of k c keys mgr gen x509 y b in
        let name = unwrap_or (codes "age identity " ++ gen.hex (tag k pk)) b.name in
        Finishes->>= Free Free (pin_again k c keys mgr gen x509 y p (gen.random_serial w).1) _
          (pin_again-Finishes p (gen.random_serial w).1)
          (λ _ w2 _.
            let signed =
              gen.self_sign y slot (gen.random_serial w).0 none
                (subject_of k c keys mgr gen x509 y b name) spki
                (policies_of k c keys mgr gen x509 y b ∷ []) w2 in
            Finishes->>= Free Free (try_as yubikey signed) _
              (try_as-Finishes c mgr patience Free yubikey signed tt)
              (λ cert w3 _.
                described-Finishes slot pk
                  (extract x509 c keys.attest y slot (keys.cert_bytes cert) false w3)))

    generate_in-Finishes :
        (fuel : ℕ) (slot : RetiredSlotId) (w : World)
        → patience w < fuel
        → Finishes Free (generate_in k c keys mgr gen x509 y b fuel fuel slot w)
    unfolding generate_in
    generate_in-Finishes fuel slot w h =
        Finishes->>= Free Free (manage c mgr y fuel fuel w) _
          (manage-Finishes c mgr patience l y fuel w h)
          (λ _ w1 _.
            let generated =
              gen.generate y slot (pin_policy_of k c keys mgr gen x509 y b)
                (touch_policy_of k c keys mgr gen x509 y b) w1 in
            Finishes->>= Free Free (try_as yubikey generated) _
              (try_as-Finishes c mgr patience Free yubikey generated tt)
              (λ spki w2 _.
                Finishes->>= Free Free (expect k c keys mgr gen x509 y (from_spki k spki) w2) _
                  (expect-Finishes Free (from_spki k spki) w2 tt)
                  (λ pk w3 _. certify-Finishes slot spki pk w3)))

    -- For a person who answers the prompts only so often, the making of an identity ends: with more
    -- fuel than that is for both loops that ask for a new PIN, neither runs out of it.
    pub build_ends :
        (fuel : ℕ) (w : World)
        → patience w < fuel
        → (build k c keys mgr gen x509 y b fuel fuel w).0 ≢ starved
    unfolding build
    build_ends fuel w h =
        let I : World → Type 0 = λ w'. patience w' < fuel in
        Finishes-ne-starved Free
          (choose_slot k c keys mgr gen x509 y b.slot b.is_forced w >>= λ slot w'.
            generate_in k c keys mgr gen x509 y b fuel fuel slot w')
          (Finishes->>= I Free (choose_slot k c keys mgr gen x509 y b.slot b.is_forced w)
            (λ slot w'. generate_in k c keys mgr gen x509 y b fuel fuel slot w')
            (choose_slot-Finishes fuel b.slot b.is_forced w h)
            (λ slot w' h'. generate_in-Finishes fuel slot w' h'))
