-- ===== src/Age/Serial.antt =====
-- `otp_serial_prefix` of age-plugin-yubikey/src/util.rs: the serial number of a YubiKey in modhex, as
-- it stands in front of its one-time passwords.
use remote_yubikey_manager.Common.{
  All, ap, ◌∙◌, ℕ, zero, suc, ◌+◌, ◌*◌, ◌/◌, ◌%◌, ◌^◌, ◌<◌, ◌≡◌, refl, List, [], ◌∷◌, ◌++◌, Option,
  none, some, map, length, get_elem?, replicate, ◌==◌, if◌then◌else◌, arith,
}
use remote_yubikey_manager.Common.Bytes.{IsU32}
use remote_yubikey_manager.Common.Text.{Text, codes}

abbrev pub modhex : Text
modhex = codes "cbdefghijklnrtuv"

-- `(serial >> (4 * i)) & 0x0f`
abbrev pub nibble : ℕ → ℕ → ℕ
nibble serial i = serial / 2 ^ (4 * i) % 16

-- `MODHEX.char_indices().nth(i).unwrap()`
abbrev pub modhex_char : ℕ → Option ℕ
modhex_char i = get_elem? modhex i

-- The digits: four zeros, and the nibbles from the highest on
abbrev pub digits : ℕ → List ℕ
digits serial = replicate 4 0 ++ map (nibble serial) (7 ∷ 6 ∷ 5 ∷ 4 ∷ 3 ∷ 2 ∷ 1 ∷ 0 ∷ [])

-- `none` is a panic of `unwrap`.
unfoldable pub spell : List ℕ → Option Text
spell [] = some []
spell (d ∷ ds) = elim (modhex_char d) [
  | none ↦ none
  | some c ↦ elim (spell ds) [ none ↦ none | some cs ↦ some (c ∷ cs) ]
]

unfoldable pub otp_serial_prefix : ℕ → Option Text
otp_serial_prefix serial = spell (digits serial)

-- The place of a letter in the alphabet, and a number by its digits in base 16, the highest first.
abbrev pub place : ℕ → Text → ℕ
place c [] = 0
place c (x ∷ xs) = let later = suc (place c xs) in if x == c then 0 else later

abbrev pub value : ℕ → List ℕ → ℕ
value sofar [] = sofar
value sofar (d ∷ ds) = value (16 * sofar + d) ds

abbrev pub read_modhex : Text → ℕ
read_modhex text = value 0 (map (λ c. place c modhex) text)

modhex_char-place : (d : ℕ) → d < 16 → (c : ℕ) × (modhex_char d ≡ some c) × (place c modhex ≡ d)
modhex_char-place zero h = (99, refl, refl)
modhex_char-place (suc zero) h = (98, refl, refl)
modhex_char-place (suc (suc zero)) h = (100, refl, refl)
modhex_char-place (suc (suc (suc zero))) h = (101, refl, refl)
modhex_char-place (suc (suc (suc (suc zero)))) h = (102, refl, refl)
modhex_char-place (suc (suc (suc (suc (suc zero))))) h = (103, refl, refl)
modhex_char-place (suc (suc (suc (suc (suc (suc zero)))))) h = (104, refl, refl)
modhex_char-place (suc (suc (suc (suc (suc (suc (suc zero))))))) h = (105, refl, refl)
modhex_char-place (suc (suc (suc (suc (suc (suc (suc (suc zero)))))))) h = (106, refl, refl)
modhex_char-place (suc (suc (suc (suc (suc (suc (suc (suc (suc zero))))))))) h = (107, refl, refl)
modhex_char-place (suc (suc (suc (suc (suc (suc (suc (suc (suc (suc zero)))))))))) h =
    (108, refl, refl)
modhex_char-place (suc (suc (suc (suc (suc (suc (suc (suc (suc (suc (suc zero))))))))))) h =
    (110, refl, refl)
modhex_char-place (suc (suc (suc (suc (suc (suc (suc (suc (suc (suc (suc (suc zero)))))))))))) h =
    (114, refl, refl)
modhex_char-place (suc (suc (suc (suc (suc (suc (suc (suc (suc (suc (suc (suc (suc zero)))))))))))))
      h =
    (116, refl, refl)
modhex_char-place
      (suc (suc (suc (suc (suc (suc (suc (suc (suc (suc (suc (suc (suc (suc zero)))))))))))))) h =
    (117, refl, refl)
modhex_char-place
      (suc (suc (suc (suc (suc (suc (suc (suc (suc (suc (suc (suc (suc (suc (suc zero)))))))))))))))
      h =
    (118, refl, refl)
modhex_char-place
      (suc
        (suc (suc (suc (suc (suc (suc (suc (suc (suc (suc (suc (suc (suc (suc (suc d))))))))))))))))
      h =
    absurd (omega arith)

-- The letters of digits give the digits back.
spell-place :
    (ds : List ℕ)
    → All (λ d. d < 16) ds
    → (text : Text) × (spell ds ≡ some text)
      × (length text ≡ length ds)
      × (map (λ c. place c modhex) text ≡ ds)
unfolding spell
spell-place [] h = ([], refl, refl, refl)
spell-place (d ∷ ds) h =
    let (c, here, back) = modhex_char-place d h.0 in
    let (text, rest, size, same) = spell-place ds h.1 in
    (c ∷ text, rw (spell, here, rest) refl, ap suc size, rw (back, same) refl)

value_of_digits : (serial : ℕ) → IsU32 serial → value 0 (digits serial) ≡ serial
value_of_digits serial h = omega arith

-- Every serial number of 32 bits has a prefix, without a panic: twelve letters of the modhex
-- alphabet, from which the serial number is read back.
pub otp_serial_prefix-read_modhex :
    (serial : ℕ)
    → IsU32 serial
    → (text : Text) × (otp_serial_prefix serial ≡ some text)
      × (length text ≡ 12)
      × (read_modhex text ≡ serial)
unfolding otp_serial_prefix
otp_serial_prefix-read_modhex serial h =
    let (text, e, size, same) = spell-place (digits serial) (omega arith) in
    (text, e, size, ap (value 0) same ∙ value_of_digits serial h)
