-- ===== src/Age/Stanza/RoundTrip.antt =====
-- What `from_stanza` accepts.
use remote_yubikey_manager.Common.{
  ℕ, ◌+◌, ◌*◌, ◌/◌, ◌≡◌, refl, ap, true, List, [], ◌∷◌, Option, none, some, length, ◌==◌, ==_refl,
  ==_iff, Bool-cases, Option-cases, inl, inr, arith,
}
use mathlib.Core.Option.{some-injective}
use mathlib.Core.Path.{subst}
use remote_yubikey_manager.Common.Bytes.{Bytes}
use remote_yubikey_manager.Common.Eq.{nat_eq, list_beq, list_beq_iff}
use remote_yubikey_manager.Common.Text.{Text}
use remote_yubikey_manager.Age.Stanza.{
  Base64, IsBase64, Points, IsPoints, Stanza, RecipientLine, IsLine, piv_p256, epk_from_bytes,
  into_stanza, fills, base64_arg, epk_arg, parse_args, line_of, from_stanza,
}

module _ {Point : Type 0} (b : Base64) (lb : IsBase64 b) (k : Points Point) (lk : IsPoints k) where
  base64_arg-encode :
      (bs : Bytes) (n : ℕ) → length bs ≡ n → base64_arg b k (b.encode bs) n ≡ some bs
  unfolding base64_arg fills
  base64_arg-encode bs n h =
      let fits : (length (b.encode bs) == (4 * n + 2) / 3) ≡ true =
        rw (lb.length-encode bs, h) (==_refl ((4 * n + 2) / 3)) in
      let whole : (length bs == n) ≡ true = rw h (==_refl n) in
      rw (base64_arg, fits, lb.decode-encode bs, fills, whole) refl

  -- A well-formed line that is written to a stanza is read back from it.
  pub from_stanza-into_stanza :
      (r : RecipientLine Point) → IsLine b k r → from_stanza b k (into_stanza b k r) ≡ some (some r)
  unfolding from_stanza into_stanza parse_args line_of epk_arg epk_from_bytes
  from_stanza-into_stanza r h =
      let key : (length r.encrypted_file_key == 32) ≡ true = rw h.key_length (==_refl 32) in
      let same : list_beq piv_p256 piv_p256 ≡ true = (list_beq_iff piv_p256 piv_p256).1 refl in
      rw
        (
          from_stanza,
          into_stanza,
          same,
          base64_arg-encode r.line_tag 4 h.line_tag_length,
          base64_arg-encode (k.point_as_bytes r.epk_bytes) 33
              (lk.length-point_as_bytes r.epk_bytes h.epk_compressed),
          epk_arg,
          epk_from_bytes,
          lk.point_from_bytes-point_as_bytes r.epk_bytes,
          h.epk_compressed,
          h.epk_valid,
          line_of,
          key,
        )
        refl

  base64_arg-length :
      (arg : Text) (n : ℕ) (bs : Bytes) → base64_arg b k arg n ≡ some bs → length bs ≡ n
  unfolding base64_arg fills
  base64_arg-length arg n bs e = ground (arith, ==_iff (length bs) n)

  epk_arg-valid :
      (o : Option Bytes) (p : Point)
      → epk_arg b k o ≡ some p
      → (k.is_compressed p ≡ true) × (k.is_public_key p ≡ true)
  unfolding epk_arg epk_from_bytes
  epk_arg-valid none p e = cc
  epk_arg-valid (some bytes) p e = elim (Option-cases (k.point_from_bytes bytes)) [
    | inl n ↦ cc (rw (epk_arg, epk_from_bytes, n) at e)
    | inr (q, g) ↦
        let e' = rw (epk_arg, epk_from_bytes, g) at e in
        elim (Bool-cases (k.is_compressed q)) [
          | inl c ↦ elim (Bool-cases (k.is_public_key q)) [
            | inl v ↦
                subst (λ x. (k.is_compressed x ≡ true) × (k.is_public_key x ≡ true))
                  (some-injective _ _ (rw (c, v) at e')) (c, v)
            | inr f ↦ cc (rw (c, f) at e')
          ]
          | inr f ↦ cc (rw f at e')
        ]
  ]

  line_of-some :
      (t : Option Bytes) (p : Option Point) (body : Bytes) (r : RecipientLine Point)
      → line_of b k t p body ≡ some r
      → (t ≡ some r.line_tag) × (p ≡ some r.epk_bytes) × (length r.encrypted_file_key ≡ 32)
  unfolding line_of
  line_of-some none p body r e = cc
  line_of-some (some t) none body r e = cc
  line_of-some (some t) (some p) body r e = elim (Bool-cases (length body == 32)) [
    | inl l ↦
        let whole : record { line_tag = t; epk_bytes = p; encrypted_file_key = body } ≡ r =
          some-injective _ _ (rw l at e) in
        (
          ap (λ x. some x.line_tag) whole,
          ap (λ x. some x.epk_bytes) whole,
          subst (λ x. length x.encrypted_file_key ≡ 32) whole ((==_iff (length body) 32).0 l),
        )
    | inr f ↦ cc (rw f at e)
  ]

  no_line :
      (p : Option Point) (body : Bytes) (r : RecipientLine Point)
      → line_of b k none p body ≡ some r
      → ⊥
  unfolding line_of
  no_line p body r e = cc

  parsed-IsLine :
      (args : List Text) (body : Bytes) (r : RecipientLine Point)
      → line_of b k (parse_args b k args).0 (parse_args b k args).1 body ≡ some r
      → IsLine b k r
  unfolding parse_args
  parsed-IsLine (tag ∷ epk ∷ []) body r e =
      let (t, p, key) =
        line_of-some (base64_arg b k tag 4) (epk_arg b k (base64_arg b k epk 33)) body r e in
      let (c, v) = epk_arg-valid (base64_arg b k epk 33) r.epk_bytes p in
      record {
        line_tag_length = base64_arg-length tag 4 r.line_tag t;
        epk_compressed = c;
        epk_valid = v;
        key_length = key;
      }
  parsed-IsLine [] body r e = absurd (no_line none body r e)
  parsed-IsLine (tag ∷ []) body r e = absurd (no_line none body r e)
  parsed-IsLine (tag ∷ epk ∷ x ∷ xs) body r e = absurd (no_line none body r e)

  -- Whatever stanza a client sends, a line that is accepted is well formed: a tag of four bytes, a
  -- compressed encoding of a valid point and an encrypted key of 32 bytes.
  pub from_stanza-IsLine :
      (s : Stanza) (r : RecipientLine Point) → from_stanza b k s ≡ some (some r) → IsLine b k r
  unfolding from_stanza
  from_stanza-IsLine s r e = elim (Bool-cases (list_beq s.stanza_tag piv_p256)) [
    | inl t ↦ parsed-IsLine s.args s.body r (some-injective _ _ (rw (t, from_stanza) at e))
    | inr f ↦ cc (rw (f, from_stanza) at e)
  ]
