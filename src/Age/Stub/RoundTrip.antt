-- ===== src/Age/Stub/RoundTrip.antt =====
-- The bytes of a stub (age-plugin-yubikey/src/key.rs) against `from_bytes` and `==`.
use remote_yubikey_manager.Common.{
  ℕ, ◌≡◌, refl, sym, ap, ◌∙◌, true, false, [], ◌∷◌, ◌++◌, none, some, All, take, Option-cases, inl,
  inr, length, ltb, arith,
}
use mathlib.Core.Option.{some-injective}
use remote_yubikey_manager.Common.Bytes.{
  Bytes, IsU8, IsU32, u32_to_le_bytes, u32_from_le_bytes, u32_from_be_bytes,
}
use remote_yubikey_manager.Common.Eq.{nat_eq, list_beq_iff}
use remote_yubikey_manager.Age.Stub.{
  Slots, IsSlots, Stub, IsStub, stub_bytes, stub_parts, stub_from_bytes, stub_eq,
}

-- A list of four.
four :
    (xs : Bytes) → length xs ≡ 4 → (a : ℕ) × (b : ℕ) × (c : ℕ) × (d : ℕ) × (xs ≡ a ∷ b ∷ c ∷ d ∷ [])
four (a ∷ b ∷ c ∷ d ∷ []) h = (a, b, c, d, refl)
four (a ∷ b ∷ c ∷ d ∷ e ∷ xs) h = absurd (omega arith)
four (a ∷ b ∷ c ∷ []) h = absurd (omega arith)
four (a ∷ b ∷ []) h = absurd (omega arith)
four (a ∷ []) h = absurd (omega arith)
four [] h = absurd (omega arith)

serial_bytes :
    (v : ℕ)
    → IsU32 v
    → (a : ℕ) × (b : ℕ) × (c : ℕ) × (d : ℕ) × (u32_to_le_bytes v ≡ a ∷ b ∷ c ∷ d ∷ [])
      × (u32_from_le_bytes a b c d ≡ v)
unfolding u32_to_le_bytes u32_from_le_bytes
serial_bytes v h = (_, _, _, _, refl, omega arith)

le_digits :
    (a b c d : ℕ)
    → IsU8 a
    → IsU8 b
    → IsU8 c
    → IsU8 d
    → u32_to_le_bytes (u32_from_le_bytes a b c d) ≡ a ∷ b ∷ c ∷ d ∷ []
unfolding u32_to_le_bytes u32_from_le_bytes u32_from_be_bytes
le_digits a b c d ha hb hc hd = ground arith

module _ {Slot : Type 0} (k : Slots Slot) (l : IsSlots k) where
  from_nine :
      (a b c d n t u v w : ℕ) (rest : Bytes) (i : ℕ) (slot : Slot)
      → k.try_from n ≡ some slot
      → stub_from_bytes k (a ∷ b ∷ c ∷ d ∷ n ∷ t ∷ u ∷ v ∷ w ∷ rest) i
        ≡ some (record {
          serial = u32_from_le_bytes a b c d;
          slot = slot;
          tag = t ∷ u ∷ v ∷ w ∷ [];
          identity_index = i;
        })
  unfolding stub_from_bytes stub_parts
  from_nine a b c d n t u v w rest i slot e =
      let long : ltb (length (a ∷ b ∷ c ∷ d ∷ n ∷ t ∷ u ∷ v ∷ w ∷ rest)) 9 ≡ false = ground arith in
      rw (stub_from_bytes, long, stub_parts, e) refl

  nine_none :
      (a b c d n t u v w : ℕ) (rest : Bytes) (i : ℕ)
      → k.try_from n ≡ none
      → stub_from_bytes k (a ∷ b ∷ c ∷ d ∷ n ∷ t ∷ u ∷ v ∷ w ∷ rest) i ≡ none
  unfolding stub_from_bytes stub_parts
  nine_none a b c d n t u v w rest i e =
      let long : ltb (length (a ∷ b ∷ c ∷ d ∷ n ∷ t ∷ u ∷ v ∷ w ∷ rest)) 9 ≡ false = ground arith in
      rw (stub_from_bytes, long, stub_parts, e) refl

  -- A stub whose serial number fits 32 bits and whose tag has four bytes is read back from its
  -- bytes and whatever follows them, with the index that is given.
  pub stub_from_bytes-stub_bytes :
      (s : Stub Slot) (rest : Bytes) (i : ℕ)
      → IsStub k s
      → stub_from_bytes k (stub_bytes k s ++ rest) i ≡ some (record s { identity_index = i })
  unfolding stub_from_bytes stub_bytes stub_parts
  stub_from_bytes-stub_bytes s rest i h =
      let (t, u, v, w, tag) = four s.tag h.tag_length in
      let (a, b, c, d, serial, back) = serial_bytes s.serial h.serial_fits in
      let whole : stub_bytes k s ++ rest ≡ a ∷ b ∷ c ∷ d ∷ k.into_u8 s.slot ∷ t ∷ u ∷ v ∷ w ∷ rest =
        rw (stub_bytes, serial, tag) refl in
      ap (λ x. stub_from_bytes k x i) whole
      ∙ from_nine a b c d (k.into_u8 s.slot) t u v w rest i s.slot (l.try_from-into_u8 s.slot)
      ∙ cc (back, tag)

  -- The bytes of a stub that is read are the first nine of the bytes that it is read from.
  pub stub_bytes-stub_from_bytes :
      (bytes : Bytes) (i : ℕ) (s : Stub Slot)
      → All IsU8 bytes
      → stub_from_bytes k bytes i ≡ some s
      → stub_bytes k s ≡ take 9 bytes
  unfolding stub_from_bytes stub_bytes
  stub_bytes-stub_from_bytes (a ∷ b ∷ c ∷ d ∷ n ∷ t ∷ u ∷ v ∷ w ∷ rest) i s h e =
      elim (Option-cases (k.try_from n)) [
        | inl missing ↦ cc (sym (nine_none a b c d n t u v w rest i missing) ∙ e)
        | inr (slot, g) ↦
            let same = some-injective _ _ (sym (from_nine a b c d n t u v w rest i slot g) ∙ e) in
            ap (stub_bytes k) (sym same)
            ∙ rw
                (
                  stub_bytes,
                  le_digits a b c d h.0 h.1.0 h.1.1.0 h.1.1.1.0,
                  l.into_u8-try_from n slot g,
                )
                refl
      ]
  stub_bytes-stub_from_bytes (a ∷ b ∷ c ∷ d ∷ n ∷ t ∷ u ∷ v ∷ []) i s h e = cc
  stub_bytes-stub_from_bytes (a ∷ b ∷ c ∷ d ∷ n ∷ t ∷ u ∷ []) i s h e = cc
  stub_bytes-stub_from_bytes (a ∷ b ∷ c ∷ d ∷ n ∷ t ∷ []) i s h e = cc
  stub_bytes-stub_from_bytes (a ∷ b ∷ c ∷ d ∷ n ∷ []) i s h e = cc
  stub_bytes-stub_from_bytes (a ∷ b ∷ c ∷ d ∷ []) i s h e = cc
  stub_bytes-stub_from_bytes (a ∷ b ∷ c ∷ []) i s h e = cc
  stub_bytes-stub_from_bytes (a ∷ b ∷ []) i s h e = cc
  stub_bytes-stub_from_bytes (a ∷ []) i s h e = cc
  stub_bytes-stub_from_bytes ([]) i s h e = cc

  -- Stubs that `==` takes for equal have the same serial number, slot and tag, if their serial
  -- numbers fit 32 bits and their tags have four bytes.
  pub stub_eq-same :
      (s t : Stub Slot)
      → IsStub k s
      → IsStub k t
      → stub_eq k s t ≡ true
      → (s.serial ≡ t.serial) × (s.slot ≡ t.slot) × (s.tag ≡ t.tag)
  unfolding stub_eq
  stub_eq-same s t h h' e =
      let bytes : stub_bytes k s ≡ stub_bytes k t = (list_beq_iff _ _).0 e in
      let read : record s { identity_index = 0 } ≡ record t { identity_index = 0 } =
        some-injective _ _ (
          sym (stub_from_bytes-stub_bytes s [] 0 h)
          ∙ ap (λ x. stub_from_bytes k (x ++ []) 0) bytes
          ∙ stub_from_bytes-stub_bytes t [] 0 h') in
      (ap (λ r. r.serial) read, ap (λ r. r.slot) read, ap (λ r. r.tag) read)
