-- ===== src/Usbip/Server/Holders.antt =====
-- Which connection of usbip/src/lib.rs holds which of the used devices.
use mathlib.Core.Path.{subst}
use mathlib.Core.Option.{some-injective}
use remote_yubikey_manager.Common.{
  ◌⊎◌, ℕ, ◌≡◌, refl, sym, ap, ◌∙◌, Bool, true, false, List, Option, none, some, Option-cases,
  Bool-cases, inl, inr, ◌==◌, ==_iff, if◌then◌else◌,
}
use remote_yubikey_manager.Common.Dict.{get, remove, get-remove}
use remote_yubikey_manager.Common.Dict.Keys.{get-add, get-append, get-Absent}
use remote_yubikey_manager.Common.Eq.{nat_eq, list_eq, list_beq, list_beq_iff}
use remote_yubikey_manager.Common.Text.{Text}
use remote_yubikey_manager.Usbip.Device.{UsbDevice}
use remote_yubikey_manager.Usbip.Server.Tables.{UsbIpServer, release_device}
use remote_yubikey_manager.Usbip.Server.Consistency.{
  IsConsistent, import_device-IsConsistent, release_device-IsConsistent,
}
use remote_yubikey_manager.Usbip.Server.Conservation.{Imports, import_device-Imports}
use remote_yubikey_manager.Usbip.Server.Effects.{Effect, kept, dropped, imported}

-- A family with one member replaced.
abbrev pub update {ℓ} : {A : Type ℓ} → ℕ → A → (ℕ → A) → ℕ → A
update i x f j = if i == j then x else f j

abbrev pub InUse : Text → UsbIpServer → Type 0
InUse id s = (d : UsbDevice) × (get id s.used_devices ≡ some d)

-- The tables are consistent, what a connection holds is in use, and no other connection holds it.
pub record IsExclusive (s : UsbIpServer) (held : ℕ → Option Text) : Type 0 where
  pub consistent : IsConsistent s
  pub in_use : (i : ℕ) (id : Text) → held i ≡ some id → InUse id s
  pub exclusive : (i j : ℕ) (id : Text) → held i ≡ some id → held j ≡ some id → i ≡ j

-- A connection that lets go of its device without giving it back.
pub IsExclusive-drop :
    (s : UsbIpServer) (held : ℕ → Option Text) (i : ℕ)
    → IsExclusive s held
    → IsExclusive s (update i none held)
IsExclusive-drop s held i x = record {
  consistent = x.consistent;
  in_use = λ j id h. x.in_use j id (still j id h);
  exclusive = λ j l id h h'. x.exclusive j l id (still j id h) (still l id h');
}
  where
    still : (j : ℕ) (id : Text) → update i none held j ≡ some id → held j ≡ some id
    still j id h = elim (Bool-cases (i == j)) [ inl t ↦ cc (rw t at h) | inr f ↦ rw f at h ]

IsExclusive-import :
    (s t : UsbIpServer) (held : ℕ → Option Text) (i : ℕ) (d : UsbDevice) (busid : List ℕ)
    → Imports busid s d t
    → IsConsistent t
    → IsExclusive s held
    → IsExclusive t (update i (some d.bus_id) held)
IsExclusive-import s t held i d busid m c x = record {
  consistent = c;
  in_use = λ j id h. elim (held_by j id h) [
    | inl (at_i, new) ↦ (d, rw (m.added, sym new) (get-add d.bus_id d s.used_devices m.unused))
    | inr old ↦
        let (e, g) = x.in_use j id old in (e, rw m.added (get-append id e s.used_devices _ g))
  ];
  exclusive = λ j l id h h'. apart j l id (held_by j id h) (held_by l id h');
}
  where
    held_by :
        (j : ℕ) (id : Text)
        → update i (some d.bus_id) held j ≡ some id
        → ((i ≡ j) × (d.bus_id ≡ id)) ⊎ (held j ≡ some id)
    held_by j id h = elim (Bool-cases (i == j)) [
      | inl t ↦ inl ((==_iff i j).0 t, some-injective _ _ (rw t at h))
      | inr f ↦ inr (rw f at h)
    ]

    not_new : (j : ℕ) (id : Text) → d.bus_id ≡ id → held j ≡ some id → ⊥
    not_new j id new h =
        let (e, g) = x.in_use j id h in cc (g, get-Absent d.bus_id s.used_devices m.unused, new)

    apart :
        (j l : ℕ) (id : Text)
        → ((i ≡ j) × (d.bus_id ≡ id)) ⊎ (held j ≡ some id)
        → ((i ≡ l) × (d.bus_id ≡ id)) ⊎ (held l ≡ some id)
        → j ≡ l
    apart j l id (inl (p, new)) (inl (q, new')) = sym p ∙ q
    apart j l id (inl (p, new)) (inr q) = absurd (not_new l id new q)
    apart j l id (inr p) (inl (q, new)) = absurd (not_new j id new p)
    apart j l id (inr p) (inr q) = x.exclusive j l id p q

-- Two families with the same members.
pub IsExclusive-eq :
    (s : UsbIpServer) (f g : ℕ → Option Text)
    → ((j : ℕ) → f j ≡ g j)
    → IsExclusive s f
    → IsExclusive s g
IsExclusive-eq s f g same x = record {
  consistent = x.consistent;
  in_use = λ j id h. x.in_use j id (same j ∙ h);
  exclusive = λ j l id h h'. x.exclusive j l id (same j ∙ h) (same l ∙ h');
}

-- Tables with the same used devices.
pub IsExclusive-used :
    (s t : UsbIpServer) (held : ℕ → Option Text)
    → IsConsistent t
    → t.used_devices ≡ s.used_devices
    → IsExclusive s held
    → IsExclusive t held
IsExclusive-used s t held c same x = record {
  consistent = c;
  in_use = λ i id h. let (d, g) = x.in_use i id h in (d, rw same g);
  exclusive = x.exclusive;
}

pub update-same : {A : Type 0} (i : ℕ) (a : A) (f : ℕ → A) (j : ℕ) → f i ≡ a → f j ≡ update i a f j
update-same i a f j e = elim (Bool-cases (i == j)) [
  | inl t ↦ let here : i ≡ j = (==_iff i j).0 t in rw t (ap f (sym here) ∙ e)
  | inr differ ↦ rw differ refl
]

Effect-cases :
    (s t : UsbIpServer) (held : ℕ → Option Text) (i : ℕ) (o h : Option Text)
    → held i ≡ o
    → Effect s o t h
    → IsExclusive s held
    → IsExclusive t (update i h held)
Effect-cases s t held i o h e kept x =
    IsExclusive-eq s held (update i o held) (λ j. update-same i o held j e) x
Effect-cases s t held i o h e dropped x = IsExclusive-drop s held i x
Effect-cases s t held i o h e (imported busid d t' m) x =
    IsExclusive-import s t' held i d busid (import_device-Imports busid s d t' x.consistent m)
      (subst IsConsistent (ap (λ r. r.1) m) (import_device-IsConsistent busid s x.consistent)) x

-- Each effect of a command keeps the connections apart.
pub Effect-IsExclusive :
    (s t : UsbIpServer) (held : ℕ → Option Text) (i : ℕ) (h : Option Text)
    → Effect s (held i) t h
    → IsExclusive s held
    → IsExclusive t (update i h held)
Effect-IsExclusive s t held i h e x = Effect-cases s t held i _ h refl e x

release_device-used :
    (id : Text) (s t : UsbIpServer)
    → release_device id s ≡ some t
    → t.used_devices ≡ remove id s.used_devices
unfolding release_device
release_device-used id s t e = elim (Option-cases (get id s.used_devices)) [
  | inl n ↦ cc (rw (n, release_device) at e)
  | inr (d, g) ↦ ap (λ s. s.used_devices) (sym (some-injective _ _ (rw (g, release_device) at e)))
]

-- So does the end of a connection that gives its device back.
pub release_device-IsExclusive :
    (s t : UsbIpServer) (held : ℕ → Option Text) (i : ℕ) (id : Text)
    → held i ≡ some id
    → release_device id s ≡ some t
    → IsExclusive s held
    → IsExclusive t (update i none held)
release_device-IsExclusive s t held i id h e x = record {
  consistent = release_device-IsConsistent id s t e x.consistent;
  in_use = λ j id' h'.
      let (apart, old) = other j id' h' in
      let (d, g) = x.in_use j id' old in
      (d, rw (release_device-used id s t e, get-remove id id' s.used_devices, apart) g);
  exclusive = λ j l id' h' h''. x.exclusive j l id' (other j id' h').1 (other l id' h'').1;
}
  where
    other :
        (j : ℕ) (id' : Text)
        → update i none held j ≡ some id'
        → (list_beq id id' ≡ false) × (held j ≡ some id')
    other j id' h' = elim (Bool-cases (i == j)) [
      | inl t ↦ cc (rw t at h')
      | inr f ↦
          let old : held j ≡ some id' = rw f at h' in
          (differs j id' f old (list_beq id id') refl, old)
    ]
      where
        differs :
            (j : ℕ) (id' : Text)
            → (i == j) ≡ false
            → held j ≡ some id'
            → (b : Bool) → list_beq id id' ≡ b
            → b ≡ false
        differs j id' f old false e' = refl
        differs j id' f old true e' =
            let same : id ≡ id' = (list_beq_iff id id').0 e' in
            let here : i ≡ j = x.exclusive i j id h (rw same old) in cc (f, (==_iff i j).1 here)
