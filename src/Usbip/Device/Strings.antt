-- ===== src/Usbip/Device/Strings.antt =====
-- The strings of a device.
use remote_yubikey_manager.Common.{
  ℕ, zero, suc, ◌+◌, ◌≤◌, ◌<◌, ◌≡◌, ◌∙◌, ap, ◌≢◌, ◌⊎◌, inl, inr, none, some, arith, Option-cases,
  ◌==◌, if◌then◌else◌,
}
use remote_yubikey_manager.Common.Bytes.{as_u8}
use remote_yubikey_manager.Common.Dict.{Dict, get, insert, get-insert}
use remote_yubikey_manager.Common.Eq.{nat_eq}
use remote_yubikey_manager.Common.Text.{Text}
use remote_yubikey_manager.Usbip.Device.{UsbDevice, first_free, new_string}

-- The first index from `i` on that has no string.
abbrev pub Least : ℕ → ℕ → Dict ℕ Text → Type 0
Least i m pool = (i ≤ m) × (get m pool ≡ none) × ((n : ℕ) → i ≤ n → n < m → get n pool ≢ none)

le_cases : (i n : ℕ) → i ≤ n → (i ≡ n) ⊎ (i < n)
le_cases i n h = grind arith

Least-later :
    (i m : ℕ) (pool : Dict ℕ Text) (s : Text)
    → get i pool ≡ some s
    → Least (i + 1) m pool
    → Least i m pool
Least-later i m pool s e (le, free, used) = (omega arith, free, below)
  where
    below : (n : ℕ) → i ≤ n → n < m → get n pool ≢ none
    below n lo hi = elim (le_cases i n lo) [
      | inl eq ↦ λ none_there. cc (e, eq, none_there)
      | inr lt ↦ used n (omega arith) hi
    ]

distinct :
    (i j : ℕ) (pool : Dict ℕ Text) (s : Text)
    → i ≤ j
    → get i pool ≡ some s
    → get j pool ≡ none
    → i < j
distinct i j pool s h e free = elim (le_cases i j h) [
  | inl eq ↦ cc (e, free, ap (λ n. get n pool) eq)
  | inr lt ↦ lt
]

first_free_skip :
    (fuel i : ℕ) (pool : Dict ℕ Text) (s : Text)
    → get i pool ≡ some s
    → i + 1 < 256
    → first_free (suc fuel) i pool ≡ first_free fuel (i + 1) pool
unfolding first_free
first_free_skip fuel i pool s e h =
    let wraps : as_u8 (i + 1) ≡ i + 1 = omega arith in rw (e, first_free, wraps)

-- Starting at `i`, the search ends at the first index with no string, if one stands at `j` < 256.
first_free-Least :
    (fuel i j : ℕ) (pool : Dict ℕ Text)
    → i ≤ j
    → j < 256
    → j < i + fuel
    → get j pool ≡ none
    → (m : ℕ) × (first_free fuel i pool ≡ some m) × (m ≤ j) × Least i m pool
unfolding first_free
first_free-Least zero i j pool hij small enough free = absurd (omega arith)
first_free-Least (suc fuel) i j pool hij small enough free = elim (Option-cases (get i pool)) [
  | inl e ↦ (i, rw (e, first_free), hij, (omega arith, e, λ n lo hi. absurd (omega arith)))
  | inr (s, e) ↦
      let beyond : i < j = distinct i j pool s hij e free in
      let (m, found, le, least) =
        first_free-Least fuel (i + 1) j pool (omega arith) small (omega arith) free in
      (m, first_free_skip fuel i pool s e (omega arith) ∙ found, le, Least-later i m pool s e least)
]

-- While one of the indices 1 to 255 is unused, `new_string` ends: it stores the string at the least
-- such index, which is not 0, the index of the language ids. It keeps the strings at all others.
pub new_string_takes-Least :
    (s : Text) (d : UsbDevice) (j : ℕ)
    → 1 ≤ j
    → j < 256
    → get j d.string_pool ≡ none
    → (m : ℕ) × (new_string s d ≡ some (m, record d { string_pool = insert m s d.string_pool }))
      × (m ≤ j)
      × Least 1 m d.string_pool
      × ((n : ℕ)
          → get n (insert m s d.string_pool) ≡ (if m == n then some s else get n d.string_pool))
unfolding new_string
new_string_takes-Least s d j lo hi free =
    let (m, found, le, least) = first_free-Least 256 1 j d.string_pool lo hi (omega arith) free in
    (m, rw (found, new_string), le, least, λ n. get-insert m n s d.string_pool)
