-- ===== src/Age/Plugin/Order.antt =====
-- The order in which `IdentityPlugin::unwrap_file_keys` of age-plugin-yubikey/src/plugin.rs tries the
-- YubiKeys.
use mathlib.Core.List.{reverse, reverse-cons, filter, Perm, reverse_perm}
use mathlib.Core.List.Perm
use native.Mathlib.Decide.{dec_lt}
use remote_yubikey_manager.Common.{
  ◌≤◌, ◌<◌, ◌≡◌, refl, inl, inr, true, false, List, [], ◌∷◌, ◌++◌, All, All-append, All-map, leb,
  leb→le, Bool-cases, arith,
}
use remote_yubikey_manager.Age.Plugin.{
  Ranked, effectiveness, insert_sorted, sort_by_effectiveness, retain_useful, ranked,
}

module _ {Point : Type 0} where
  -- Each YubiKey can try at least as many stanzas as any after it.
  abbrev pub Descends : List (Ranked Point) → Type 0
  Descends [] = Unit
  Descends (x ∷ xs) = All (λ y. effectiveness y.1 ≤ effectiveness x.1) xs × Descends xs

  abbrev Ascends : List (Ranked Point) → Type 0
  Ascends [] = Unit
  Ascends (x ∷ xs) = All (λ y. effectiveness x.1 ≤ effectiveness y.1) xs × Ascends xs

  All-reverse {ℓ} :
      (P : Ranked Point → Type ℓ) (xs : List (Ranked Point)) → All P xs → All P (reverse xs)
  All-reverse P [] h = tt
  All-reverse P (x ∷ xs) h =
      rw (reverse-cons x xs) (All-append P (reverse xs) (x ∷ []) (All-reverse P xs h.1) (h.0, tt))

  Descends-snoc :
      (xs : List (Ranked Point)) (x : Ranked Point)
      → All (λ y. effectiveness x.1 ≤ effectiveness y.1) xs
      → Descends xs
      → Descends (xs ++ (x ∷ []))
  Descends-snoc [] x h d = (tt, tt)
  Descends-snoc (y ∷ ys) x h d = (
    All-append (λ z. effectiveness z.1 ≤ effectiveness y.1) ys (x ∷ []) d.0 (h.0, tt),
    Descends-snoc ys x h.1 d.1,
  )

  reverse-Descends : (xs : List (Ranked Point)) → Ascends xs → Descends (reverse xs)
  reverse-Descends [] h = tt
  reverse-Descends (x ∷ xs) h = rw (reverse-cons x xs) (
      Descends-snoc (reverse xs) x (All-reverse (λ y. effectiveness x.1 ≤ effectiveness y.1) xs h.0)
        (reverse-Descends xs h.1))

  module _ (x y : Ranked Point) (ys : List (Ranked Point)) where
    insert_first :
        leb (effectiveness x.1) (effectiveness y.1) ≡ true → insert_sorted x (y ∷ ys) ≡ x ∷ y ∷ ys
    unfolding insert_sorted
    insert_first t = rw (t, insert_sorted) refl

    insert_later :
        leb (effectiveness x.1) (effectiveness y.1) ≡ false
        → insert_sorted x (y ∷ ys) ≡ y ∷ insert_sorted x ys
    unfolding insert_sorted
    insert_later f = rw (f, insert_sorted) refl

  All-insert_sorted {ℓ} :
      (P : Ranked Point → Type ℓ) (x : Ranked Point) (ys : List (Ranked Point))
      → P x
      → All P ys
      → All P (insert_sorted x ys)
  unfolding insert_sorted
  All-insert_sorted P x [] p h = (p, tt)
  All-insert_sorted P x (y ∷ ys) p h =
      elim (Bool-cases (leb (effectiveness x.1) (effectiveness y.1))) [
        | inl t ↦ rw (insert_first x y ys t) (p, h)
        | inr f ↦ rw (insert_later x y ys f) (h.0, All-insert_sorted P x ys p h.1)
      ]

  insert_sorted-Ascends :
      (x : Ranked Point) (ys : List (Ranked Point)) → Ascends ys → Ascends (insert_sorted x ys)
  unfolding insert_sorted
  insert_sorted-Ascends x [] h = (tt, tt)
  insert_sorted-Ascends x (y ∷ ys) h =
      elim (Bool-cases (leb (effectiveness x.1) (effectiveness y.1))) [
        | inl t ↦
            let first : effectiveness x.1 ≤ effectiveness y.1 =
              leb→le (effectiveness x.1) (effectiveness y.1) t in
            rw (insert_first x y ys t) ((first, All-map ys (λ z q. omega (arith, q, first)) h.0), h)
        | inr f ↦ rw (insert_later x y ys f) (
          All-insert_sorted (λ z. effectiveness y.1 ≤ effectiveness z.1) x ys (ground arith) h.0,
          insert_sorted-Ascends x ys h.1,
        )
      ]

  insert_sorted-perm :
      (x : Ranked Point) (ys : List (Ranked Point)) → Perm (insert_sorted x ys) (x ∷ ys)
  unfolding insert_sorted
  insert_sorted-perm x [] = Perm.refl (x ∷ [])
  insert_sorted-perm x (y ∷ ys) = elim (Bool-cases (leb (effectiveness x.1) (effectiveness y.1))) [
    | inl t ↦ rw (insert_first x y ys t) (Perm.refl (x ∷ y ∷ ys))
    | inr f ↦
        rw (insert_later x y ys f)
          (Perm.trans (Perm.cons y (insert_sorted-perm x ys)) (Perm.swap x y ys))
  ]

  sort-Ascends : (xs : List (Ranked Point)) → Ascends (sort_by_effectiveness xs)
  unfolding sort_by_effectiveness
  sort-Ascends [] = tt
  sort-Ascends (x ∷ xs) = insert_sorted-Ascends x (sort_by_effectiveness xs) (sort-Ascends xs)

  sort-perm : (xs : List (Ranked Point)) → Perm (sort_by_effectiveness xs) xs
  unfolding sort_by_effectiveness
  sort-perm [] = Perm.refl []
  sort-perm (x ∷ xs) =
      Perm.trans (insert_sorted-perm x (sort_by_effectiveness xs)) (Perm.cons x (sort-perm xs))

  abbrev useful : (x : Ranked Point) → Dec (0 < effectiveness x.1)
  useful x = dec_lt 0 (effectiveness x.1)

  filter-useful :
      (x : Ranked Point) (xs : List (Ranked Point))
      → 0 < effectiveness x.1
      → filter useful (x ∷ xs) ≡ x ∷ filter useful xs
  filter-useful x xs p = ground arith

  filter_useless :
      (x : Ranked Point) (xs : List (Ranked Point))
      → ¬ (0 < effectiveness x.1)
      → filter useful (x ∷ xs) ≡ filter useful xs
  filter_useless x xs p = ground arith

  All-filter {ℓ} :
      (P : Ranked Point → Type ℓ) (xs : List (Ranked Point)) → All P xs → All P (filter useful xs)
  All-filter P [] h = tt
  All-filter P (x ∷ xs) h = elim (useful x) [
    | yes p ↦ rw (filter-useful x xs p) (h.0, All-filter P xs h.1)
    | no p ↦ rw (filter_useless x xs p) (All-filter P xs h.1)
  ]

  filter-Descends : (xs : List (Ranked Point)) → Descends xs → Descends (filter useful xs)
  filter-Descends [] h = tt
  filter-Descends (x ∷ xs) h = elim (useful x) [
    | yes p ↦
        rw (filter-useful x xs p)
          (All-filter (λ y. effectiveness y.1 ≤ effectiveness x.1) xs h.0, filter-Descends xs h.1)
    | no p ↦ rw (filter_useless x xs p) (filter-Descends xs h.1)
  ]

  -- The YubiKeys that have a stanza are all tried, each once, and one that can try more stanzas comes
  -- before one that can try fewer.
  pub ranked-Descends :
      (xs : List (Ranked Point))
      → Descends (ranked xs) × Perm (ranked xs) (filter (λ x. dec_lt 0 (effectiveness x.1)) xs)
  unfolding ranked retain_useful
  ranked-Descends xs = (
    filter-Descends (reverse (sort_by_effectiveness xs))
        (reverse-Descends (sort_by_effectiveness xs) (sort-Ascends xs)),
    Perm.filter useful (Perm.trans (reverse_perm (sort_by_effectiveness xs)) (sort-perm xs)),
  )

  All-sort {ℓ} :
      (P : Ranked Point → Type ℓ) (xs : List (Ranked Point))
      → All P xs
      → All P (sort_by_effectiveness xs)
  unfolding sort_by_effectiveness
  All-sort P [] h = tt
  All-sort P (x ∷ xs) h = All-insert_sorted P x (sort_by_effectiveness xs) h.0 (All-sort P xs h.1)

  pub All-ranked {ℓ} :
      (P : Ranked Point → Type ℓ) (xs : List (Ranked Point)) → All P xs → All P (ranked xs)
  unfolding ranked retain_useful
  All-ranked P xs h =
      All-filter P (reverse (sort_by_effectiveness xs))
        (All-reverse P (sort_by_effectiveness xs) (All-sort P xs h))
