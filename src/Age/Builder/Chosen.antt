-- ===== src/Age/Builder/Chosen.antt =====
-- What `IdentityBuilder::build` of age-plugin-yubikey/src/builder.rs gives.
use remote_yubikey_manager.Common.{
  ℕ, ◌≡◌, ◌≢◌, refl, sym, ap, ◌∙◌, true, false, List, [], ◌∷◌, ◌++◌, Option, none, some,
  if◌then◌else◌,
}
use mathlib.Core.Path.{subst}
use remote_yubikey_manager.Common.Bytes.{Bytes}
use remote_yubikey_manager.Common.Eq.{nat_eq, list_beq, list_beq_iff}
use remote_yubikey_manager.Common.Text.{Text, codes, as_bytes}
use remote_yubikey_manager.Common.Result.{Result, ok, err}
use remote_yubikey_manager.Age.Slots.{RetiredSlotId}
use remote_yubikey_manager.Age.Error.{Error, dialog, yubikey}
use remote_yubikey_manager.Age.Policy.{PinPolicy, TouchPolicy}
use remote_yubikey_manager.Age.Yubikey.{Cards, YubikeyError}
use remote_yubikey_manager.Age.Recipient.{Curve, PublicKeyInfo, Recipient, from_spki, tag}
use remote_yubikey_manager.Age.Metadata.{
  X509, Metadata, extract, extract_name, is_ours, on_name, on_parsed, policies, read_policies,
  binary_name, policy_extension_oid,
}
use remote_yubikey_manager.Age.Metadata
use remote_yubikey_manager.Age.Connection.{Keys}
use remote_yubikey_manager.Age.Manage.{Manager, plugin_enter_pin, try_as, manage}
use remote_yubikey_manager.Age.Manage.Pins.{manage-Holds}
use remote_yubikey_manager.Age.Step.{
  Step, next, stopped, panicked, starved, ◌>>=◌, Holds, Holds->>=,
}
use remote_yubikey_manager.Age.Builder.{
  IdentityBuilder, Generator, Extension, RelativeDistinguishedName, organization,
  organizational_unit, common_name, pkg_version, default_pin_policy, default_touch_policy,
  policies_of, subject_of, choose_slot, expect, pin_again, stub_new, Built, described, certify,
  generate_in, build, pin_policy_of, touch_policy_of, unwrap_or,
}
use remote_yubikey_manager.Age.Builder.Choice.{MayUse, choose_slot-MayUse}

module _ {Point : Type 0} (k : Curve Point) (c : Cards) (keys : Keys c Point)
    (mgr : Manager c keys.Certificate) (gen : Generator c Point keys.Certificate) (x509 : X509)
    (y : c.YubiKey) where
  open c use {World}

  -- What the YubiKey generates is a key on P-256; a certificate that it signs is parsed with the
  -- organization and the common name that were given and with the extension, which is found by its
  -- object identifier and by no other; and the numbers of the policies are those of the PIV attestation.
  pub record IsGenerator : Type 0 where
    pub generates_p256 :
        (slot : RetiredSlotId) (p : PinPolicy) (t : TouchPolicy) (w : World)
        (spki : PublicKeyInfo Point)
        → (gen.generate y slot p t w).0 ≡ ok spki
        → (pk : Recipient k) × (from_spki k spki ≡ some pk)
    pub signs :
        (slot : RetiredSlotId) (serial : Bytes) (end_ : Option ℕ) (org unit name : Text)
        (spki : PublicKeyInfo Point) (e : Extension) (w : World) (cert : keys.Certificate)
        → (gen.self_sign y slot serial end_
            (organization org ∷ organizational_unit unit ∷ common_name name ∷ [])
            spki
            (e ∷ [])
            w).0
          ≡ ok cert
        → (parsed : x509.Parsed) × (x509.parse (keys.cert_bytes cert) ≡ some parsed)
          × (x509.organization parsed ≡ some (some org))
          × (x509.common_name parsed ≡ some (some name))
          × ((oid : List ℕ)
              → x509.extension oid parsed ≡ (if list_beq oid e.oid then some e.value else none))
    pub pin_bytes :
        (gen.pin_byte PinPolicy.never ≡ 1)
        × (gen.pin_byte PinPolicy.once ≡ 2)
        × (gen.pin_byte PinPolicy.always ≡ 3)
    pub touch_bytes :
        (gen.touch_byte TouchPolicy.never ≡ 1)
        × (gen.touch_byte TouchPolicy.always ≡ 2)
        × (gen.touch_byte TouchPolicy.cached ≡ 3)

  module _ (l : IsGenerator) where
    pin_byte-read :
        (p : PinPolicy) → p ≢ PinPolicy.default → Metadata.pin_policy_of (gen.pin_byte p) ≡ some p
    unfolding Metadata.pin_policy_of
    pin_byte-read PinPolicy.default h = absurd (h refl)
    pin_byte-read PinPolicy.never h = rw l.pin_bytes.0 refl
    pin_byte-read PinPolicy.once h = rw l.pin_bytes.1 refl
    pin_byte-read PinPolicy.always h = rw l.pin_bytes.2 refl

    touch_byte-read :
        (t : TouchPolicy)
        → t ≢ TouchPolicy.default
        → Metadata.touch_policy_of (gen.touch_byte t) ≡ some t
    unfolding Metadata.touch_policy_of
    touch_byte-read TouchPolicy.default h = absurd (h refl)
    touch_byte-read TouchPolicy.never h = rw l.touch_bytes.0 refl
    touch_byte-read TouchPolicy.always h = rw l.touch_bytes.1 refl
    touch_byte-read TouchPolicy.cached h = rw l.touch_bytes.2 refl

  -- The stub refers to the slot and to the key's tag, and the metadata read back what the builder was
  -- asked for: the name, if one was, and the policies, which are `once` and `always` if none were.
  pub record IsIdentity (b : IdentityBuilder) (slot : RetiredSlotId)
      (built : Built k c keys mgr gen x509 y) : Type 0 where
    pub stub_serial : built.0.serial ≡ c.serial_of y
    pub stub_slot : built.0.slot ≡ slot
    pub stub_tag : built.0.tag ≡ tag k built.1
    pub metadata_slot : built.2.slot ≡ slot
    pub name_read : (name : Text) → b.name ≡ some name → built.2.name ≡ name
    pub pin_policy_read :
        (p : PinPolicy)
        → b.pin_policy ≡ some p
        → p ≢ PinPolicy.default
        → built.2.pin_policy ≡ some p
    pub pin_policy_default : b.pin_policy ≡ none → built.2.pin_policy ≡ some PinPolicy.once
    pub touch_policy_read :
        (t : TouchPolicy)
        → b.touch_policy ≡ some t
        → t ≢ TouchPolicy.default
        → built.2.touch_policy ≡ some t
    pub touch_policy_default :
        b.touch_policy ≡ none → built.2.touch_policy ≡ some TouchPolicy.always

  module _ (l : IsGenerator) (b : IdentityBuilder) where
    abbrev pin : PinPolicy
    pin = pin_policy_of k c keys mgr gen x509 y b

    abbrev touch : TouchPolicy
    touch = touch_policy_of k c keys mgr gen x509 y b

    abbrev label_of : Recipient k → Text
    label_of pk = unwrap_or (codes "age identity " ++ gen.hex (tag k pk)) b.name

    pin_read :
        (p : PinPolicy)
        → pin ≡ p
        → p ≢ PinPolicy.default
        → Metadata.pin_policy_of (gen.pin_byte pin) ≡ some p
    pin_read p same h =
        subst (λ q. Metadata.pin_policy_of (gen.pin_byte q) ≡ some p) (sym same)
          (pin_byte-read l p h)

    touch_read :
        (t : TouchPolicy)
        → touch ≡ t
        → t ≢ TouchPolicy.default
        → Metadata.touch_policy_of (gen.touch_byte touch) ≡ some t
    touch_read t same h =
        subst (λ q. Metadata.touch_policy_of (gen.touch_byte q) ≡ some t) (sym same)
          (touch_byte-read l t h)

    described-IsIdentity :
        (slot : RetiredSlotId) (pk : Recipient k) (cert : keys.Certificate) (parsed : x509.Parsed)
        (w : World)
        → x509.parse (keys.cert_bytes cert) ≡ some parsed
        → is_ours x509 (x509.organization parsed) ≡ true
        → x509.common_name parsed ≡ some (some (label_of pk))
        → x509.extension policy_extension_oid parsed
          ≡ some (gen.pin_byte pin ∷ gen.touch_byte touch ∷ [])
        → Holds (IsIdentity b slot) (
            described k c keys mgr gen x509 y slot pk
              (extract x509 c keys.attest y slot (keys.cert_bytes cert) false w))
    unfolding extract extract_name policies read_policies stub_new
    described-IsIdentity slot pk cert parsed w e ours named ext =
        rw (extract, e, extract_name, ours, policies, named, ext)
          (record {
            stub_serial = refl;
            stub_slot = refl;
            stub_tag = refl;
            metadata_slot = refl;
            name_read = λ name q. ap (unwrap_or (codes "age identity " ++ gen.hex (tag k pk))) q;
            pin_policy_read = λ p q h. pin_read p (ap (unwrap_or default_pin_policy) q) h;
            pin_policy_default =
                λ q. pin_read PinPolicy.once (ap (unwrap_or default_pin_policy) q) (λ e. cc e);
            touch_policy_read = λ t q h. touch_read t (ap (unwrap_or default_touch_policy) q) h;
            touch_policy_default = λ q.
                touch_read TouchPolicy.always (ap (unwrap_or default_touch_policy) q) (λ e. cc e);
          })

    asked-Holds :
        {E A : Type 0} (f : E → Error) (o : Result E A × World)
        → Holds (λ a. o.0 ≡ ok a) (try_as f o)
    asked-Holds f (ok a, w) = refl
    asked-Holds f (err e, w) = tt

    pin_again-Holds :
        (p : PinPolicy) (w : World) → Holds (λ _. Unit {0}) (pin_again k c keys mgr gen x509 y p w)
    unfolding pin_again
    pin_again-Holds PinPolicy.default w = tt
    pin_again-Holds PinPolicy.never w = tt
    pin_again-Holds PinPolicy.once w = tt
    pin_again-Holds PinPolicy.always w =
        Holds->>= (λ a. (mgr.ask (plugin_enter_pin (c.serial_of y)) w).0 ≡ ok a) (λ _. Unit {0})
          (try_as dialog (mgr.ask (plugin_enter_pin (c.serial_of y)) w))
          (λ answer w'. try_as yubikey (mgr.verify_pin y (as_bytes answer) w'))
          (asked-Holds dialog (mgr.ask (plugin_enter_pin (c.serial_of y)) w))
          (λ answer w' _. verified (mgr.verify_pin y (as_bytes answer) w'))
      where
        verified :
            (o : Result YubikeyError (Unit {0}) × World) → Holds (λ _. Unit {0}) (try_as yubikey o)
        verified (ok u, w') = tt
        verified (err e, w') = tt

    certify-IsIdentity :
        (slot : RetiredSlotId) (spki : PublicKeyInfo Point) (pk : Recipient k) (w : World)
        → Holds (IsIdentity b slot) (certify k c keys mgr gen x509 y b slot spki pk w)
    unfolding certify
    certify-IsIdentity slot spki pk w =
        Holds->>= (λ _. Unit {0}) (IsIdentity b slot)
          (pin_again k c keys mgr gen x509 y pin (gen.random_serial w).1)
          (λ _ w2.
            try_as yubikey
              (gen.self_sign y slot (gen.random_serial w).0 none subject spki (ps ∷ []) w2)
            >>= λ cert w3.
                described k c keys mgr gen x509 y slot pk
                  (extract x509 c keys.attest y slot (keys.cert_bytes cert) false w3))
          (pin_again-Holds pin (gen.random_serial w).1)
          (λ _ w2 _.
            Holds->>=
              (λ cert.
                (gen.self_sign y slot (gen.random_serial w).0 none subject spki (ps ∷ []) w2).0
                ≡ ok cert)
              (IsIdentity b slot)
              (try_as yubikey
                (gen.self_sign y slot (gen.random_serial w).0 none subject spki (ps ∷ []) w2))
              (λ cert w3.
                described k c keys mgr gen x509 y slot pk
                  (extract x509 c keys.attest y slot (keys.cert_bytes cert) false w3))
              (asked-Holds yubikey
                (gen.self_sign y slot (gen.random_serial w).0 none subject spki (ps ∷ []) w2))
              (λ cert w3 e. read_back cert w2 w3 e))
      where
        ps : Extension
        ps = policies_of k c keys mgr gen x509 y b

        subject : List RelativeDistinguishedName
        subject = subject_of k c keys mgr gen x509 y b (label_of pk)

        read_back :
            (cert : keys.Certificate) (w2 w3 : World)
            → (gen.self_sign y slot (gen.random_serial w).0 none subject spki (ps ∷ []) w2).0
              ≡ ok cert
            → Holds (IsIdentity b slot) (
                described k c keys mgr gen x509 y slot pk
                  (extract x509 c keys.attest y slot (keys.cert_bytes cert) false w3))
        read_back cert w2 w3 e =
            let (parsed, found, ours, named, ext) =
              l.signs slot (gen.random_serial w).0 none binary_name pkg_version (label_of pk) spki
                ps w2 cert e in
            described-IsIdentity slot pk cert parsed w3 found
              (rw ours ((list_beq_iff binary_name binary_name).1 refl)) named
              (ext policy_extension_oid
                ∙ ap (λ t. if t then some ps.value else none)
                    ((list_beq_iff policy_extension_oid policy_extension_oid).1 refl))

    generate_in-IsIdentity :
        (fuel tries : ℕ) (slot : RetiredSlotId) (w : World)
        → Holds (IsIdentity b slot) (generate_in k c keys mgr gen x509 y b fuel tries slot w)
    unfolding generate_in
    generate_in-IsIdentity fuel tries slot w =
        Holds->>= (λ _. Unit {0}) (IsIdentity b slot) (manage c mgr y fuel tries w)
          (λ _ w1. try_as yubikey (gen.generate y slot pin touch w1) >>= λ spki w2.
            expect k c keys mgr gen x509 y (from_spki k spki) w2 >>= λ pk w3.
            certify k c keys mgr gen x509 y b slot spki pk w3)
          (manage-Holds c mgr y fuel tries w)
          (λ _ w1 _.
            Holds->>= (λ spki. (gen.generate y slot pin touch w1).0 ≡ ok spki) (IsIdentity b slot)
              (try_as yubikey (gen.generate y slot pin touch w1))
              (λ spki w2. expect k c keys mgr gen x509 y (from_spki k spki) w2 >>= λ pk w3.
                certify k c keys mgr gen x509 y b slot spki pk w3)
              (asked-Holds yubikey (gen.generate y slot pin touch w1))
              (λ spki w2 e. on_p256 spki w2 (l.generates_p256 slot pin touch w1 spki e)))
      where
        on_p256 :
            (spki : PublicKeyInfo Point) (w2 : World)
            → (pk : Recipient k) × (from_spki k spki ≡ some pk)
            → Holds (IsIdentity b slot) (
                expect k c keys mgr gen x509 y (from_spki k spki) w2 >>= λ pk w3.
                certify k c keys mgr gen x509 y b slot spki pk w3)
        on_p256 spki w2 (pk, q) = rw q (certify-IsIdentity slot spki pk w2)

    -- Under `IsGenerator` the making of an identity does not panic. It uses a slot that is empty by the
    -- list of the YubiKey's keys, the first such one unless a slot was asked for, or by force the slot
    -- that was asked for; the stub names the YubiKey, this slot and the tag of the new key, and the
    -- metadata of the certificate give back the name and the policies that were asked for, other than
    -- a default one of the YubiKey, and the policies `once` and `always` where none were.
    pub build-IsIdentity :
        (fuel tries : ℕ) (w : World)
        → Holds
            (λ built.
              MayUse k c keys mgr gen x509 y b.slot b.is_forced built.0.slot
              × IsIdentity b built.0.slot built)
            (build k c keys mgr gen x509 y b fuel tries w)
    unfolding build
    build-IsIdentity fuel tries w =
        Holds->>= (MayUse k c keys mgr gen x509 y b.slot b.is_forced)
          (λ built.
            MayUse k c keys mgr gen x509 y b.slot b.is_forced built.0.slot
            × IsIdentity b built.0.slot built)
          (choose_slot k c keys mgr gen x509 y b.slot b.is_forced w)
          (λ slot w'. generate_in k c keys mgr gen x509 y b fuel tries slot w')
          (choose_slot-MayUse k c keys mgr gen x509 y b.slot b.is_forced w)
          (λ slot w' may.
            in_slot slot (generate_in k c keys mgr gen x509 y b fuel tries slot w') may
              (generate_in-IsIdentity fuel tries slot w'))
      where
        in_slot :
            (slot : RetiredSlotId) (o : Step Error (Built k c keys mgr gen x509 y) × World)
            → MayUse k c keys mgr gen x509 y b.slot b.is_forced slot
            → Holds (IsIdentity b slot) o
            → Holds
                (λ built.
                  MayUse k c keys mgr gen x509 y b.slot b.is_forced built.0.slot
                  × IsIdentity b built.0.slot built)
                o
        in_slot slot (next built, w') may h = (
          subst (MayUse k c keys mgr gen x509 y b.slot b.is_forced) (sym h.stub_slot) may,
          subst (λ s. IsIdentity b s built) (sym h.stub_slot) h,
        )
        in_slot slot (stopped e, w') may h = tt
        in_slot slot (panicked, w') may h = h
        in_slot slot (starved, w') may h = tt
