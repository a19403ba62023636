-- ===== src/Common/Dict/Keys.antt =====
-- The keys of a dictionary.
use mathlib.Core.Path.{◌≡◌, refl, sym, ap, subst₂}
use mathlib.Core.Logic.{◌≢◌, inl, inr}
use mathlib.Core.Bool.{false}
use mathlib.Core.Option.{none, some}
use mathlib.Core.List.{List, [], ◌∷◌, ◌++◌, map, Perm}
use mathlib.Core.List.Perm
use native.Mathlib.Omega.{arith}
use remote_yubikey_manager.Common.Tests.{Bool-cases}
use remote_yubikey_manager.Common.Lists.{All, All-append}
use remote_yubikey_manager.Common.Eq.{Eq, beq_refl}
use remote_yubikey_manager.Common.Dict.{get, insert, remove}

module _ {ℓ κ} {K : Type ℓ} {V : Type κ} where
  abbrev pub Absent : K → List (K × V) → Type ℓ
  Absent k m = All (λ e. e.0 ≢ k) m

  abbrev pub Distinct : List (K × V) → Type ℓ
  Distinct [] = Unit {ℓ}
  Distinct ((k, v) ∷ m) = Absent k m × Distinct m

  abbrev pub values : List (K × V) → List V
  values = map λ e. e.1

module _ {ℓ} {K : Type ℓ} ⦃e : Eq K⦄ where
  ne→beq : (j k : K) → j ≢ k → e.beq j k ≡ false
  ne→beq j k h = elim (Bool-cases (e.beq j k)) [
    | inl t ↦ absurd (h ((e.beq_iff j k).0 t))
    | inr f ↦ f
  ]

  beq→ne : (j k : K) → e.beq j k ≡ false → j ≢ k
  beq→ne j k h eq = cc (h, (e.beq_iff j k).1 eq)

module _ {ℓ κ} {K : Type ℓ} {V : Type κ} ⦃e : Eq K⦄ where
  pub get-Absent : (k : K) (m : List (K × V)) → Absent k m → get k m ≡ none
  unfolding get
  get-Absent k [] a = refl
  get-Absent k ((j, w) ∷ m) a = rw (ne→beq j k a.0) (get-Absent k m a.1)

  pub get-none-Absent : (k : K) (m : List (K × V)) → get k m ≡ none → Absent k m
  unfolding get
  get-none-Absent k [] h = tt
  get-none-Absent k ((j, w) ∷ m) h = elim (Bool-cases (e.beq j k)) [
    | inl t ↦ cc (rw t at h)
    | inr f ↦ (beq→ne j k f, get-none-Absent k m (rw f at h))
  ]

  pub insert-Absent :
      (k : K) (v : V) (m : List (K × V)) → Absent k m → insert k v m ≡ m ++ ((k, v) ∷ [])
  unfolding insert
  insert-Absent k v [] a = refl
  insert-Absent k v ((j, w) ∷ m) a = rw (ne→beq j k a.0) (ap (◌∷◌ (j, w)) (insert-Absent k v m a.1))

  pub remove-Absent : (k : K) (m : List (K × V)) → Absent k m → remove k m ≡ m
  unfolding remove
  remove-Absent k [] a = refl
  remove-Absent k ((j, w) ∷ m) a = rw (ne→beq j k a.0) (ap (◌∷◌ (j, w)) (remove-Absent k m a.1))

  pub Distinct-add :
      (k : K) (v : V) (m : List (K × V)) → Absent k m → Distinct m → Distinct (m ++ ((k, v) ∷ []))
  Distinct-add k v [] a d = (tt, tt)
  Distinct-add k v ((j, w) ∷ m) a d = (
    All-append (λ x. x.0 ≢ j) m ((k, v) ∷ []) d.0 ((λ eq. a.0 (sym eq)), tt),
    Distinct-add k v m a.1 d.1,
  )

  pub All-remove {ι} :
      (P : K × V → Type ι) (k : K) (m : List (K × V)) → All P m → All P (remove k m)
  unfolding remove
  All-remove P k [] h = tt
  All-remove P k ((j, w) ∷ m) h = elim (Bool-cases (e.beq j k)) [
    | inl t ↦ rw t (All-remove P k m h.1)
    | inr f ↦ rw f (h.0, All-remove P k m h.1)
  ]

  pub Absent-remove : (k : K) (m : List (K × V)) → Absent k (remove k m)
  unfolding remove
  Absent-remove k [] = tt
  Absent-remove k ((j, w) ∷ m) = elim (Bool-cases (e.beq j k)) [
    | inl t ↦ rw t (Absent-remove k m)
    | inr f ↦ rw f (beq→ne j k f, Absent-remove k m)
  ]

  pub Distinct-remove : (k : K) (m : List (K × V)) → Distinct m → Distinct (remove k m)
  unfolding remove
  Distinct-remove k [] d = tt
  Distinct-remove k ((j, w) ∷ m) d = elim (Bool-cases (e.beq j k)) [
    | inl t ↦ rw t (Distinct-remove k m d.1)
    | inr f ↦ rw f (All-remove (λ x. x.0 ≢ j) k m d.0, Distinct-remove k m d.1)
  ]

  pub All-get {ι} :
      (P : K × V → Type ι) (k : K) (v : V) (m : List (K × V))
      → All P m
      → get k m ≡ some v
      → P (k, v)
  unfolding get
  All-get P k v [] h g = cc
  All-get P k v ((j, w) ∷ m) h g = elim (Bool-cases (e.beq j k)) [
    | inl t ↦
        let key : j ≡ k = (e.beq_iff j k).0 t in
        let val : w ≡ v = ground arith in subst₂ (λ a b. P (a, b)) key val h.0
    | inr f ↦ All-get P k v m h.1 (rw f at g)
  ]

  -- Taking out a key takes out its value, and no other.
  pub values-remove-perm :
      (k : K) (v : V) (m : List (K × V))
      → Distinct m
      → get k m ≡ some v
      → Perm (values m) (v ∷ values (remove k m))
  unfolding get remove
  values-remove-perm k v [] d g = cc
  values-remove-perm k v ((j, w) ∷ m) d g = elim (Bool-cases (e.beq j k)) [
    | inl t ↦
        let key : j ≡ k = (e.beq_iff j k).0 t in
        let val : w ≡ v = ground arith in
        rw (t, val) (rw (remove-Absent k m (rw key at d.0)) (Perm.refl _))
    | inr f ↦
        rw f (Perm.trans (Perm.cons w (values-remove-perm k v m d.1 (rw f at g))) (Perm.swap v w _))
  ]

  pub get-add :
      (k : K) (v : V) (m : List (K × V)) → Absent k m → get k (m ++ ((k, v) ∷ [])) ≡ some v
  unfolding get
  get-add k v [] a = rw (beq_refl k) refl
  get-add k v ((j, w) ∷ m) a = rw (ne→beq j k a.0) (get-add k v m a.1)

  pub remove-add :
      (k : K) (v : V) (m : List (K × V)) → Absent k m → remove k (m ++ ((k, v) ∷ [])) ≡ m
  unfolding remove
  remove-add k v [] a = rw (beq_refl k) refl
  remove-add k v ((j, w) ∷ m) a = rw (ne→beq j k a.0) (ap (◌∷◌ (j, w)) (remove-add k v m a.1))

  pub get-append : (k : K) (v : V) (m n : List (K × V)) → get k m ≡ some v → get k (m ++ n) ≡ some v
  unfolding get
  get-append k v [] n g = cc
  get-append k v ((j, w) ∷ m) n g = elim (Bool-cases (e.beq j k)) [
    | inl t ↦ rw t (rw t at g)
    | inr f ↦ rw f (get-append k v m n (rw f at g))
  ]
