-- ===== src/Usbip/Server/TakeFirst.antt =====
-- `take_first`, that is `position` and `Vec::remove`, by the two parts of the list around a device.
use remote_yubikey_manager.Common.{
  ◌≡◌, refl, ap, Bool, true, false, List, [], ◌∷◌, ◌++◌, Option, none, some, All, Bool-cases, inl,
  inr, arith,
}
use mathlib.Core.List.{Perm, perm_middle}
use remote_yubikey_manager.Usbip.Device.{UsbDevice}
use remote_yubikey_manager.Usbip.Server.Tables.{take_first, keep_before}

pub record Splits (p : UsbDevice → Bool) (xs : List UsbDevice) (d : UsbDevice)
    (rest : List UsbDevice) : Type 0 where
  pub before : List UsbDevice
  pub behind : List UsbDevice
  pub whole : xs ≡ before ++ (d ∷ behind)
  pub others : rest ≡ before ++ behind
  pub passes : p d ≡ true
  pub fail_before : All (λ e. p e ≡ false) before

keep_before-Splits :
    (p : UsbDevice → Bool) (x d : UsbDevice) (xs rest : List UsbDevice)
    (o : Option (UsbDevice × List UsbDevice))
    → p x ≡ false
    → ((e : UsbDevice) (es : List UsbDevice) → o ≡ some (e, es) → Splits p xs e es)
    → keep_before x o ≡ some (d, rest)
    → Splits p (x ∷ xs) d rest
keep_before-Splits p x d xs rest none miss ih h = cc
keep_before-Splits p x d xs rest (some (e, es)) miss ih h =
    let s = ih e es refl in
    let same : d ≡ e = cc in
    record {
      before = x ∷ s.before;
      behind = s.behind;
      whole = rw same (ap (◌∷◌ x) s.whole);
      others = ground (arith, s.others);
      passes = rw same s.passes;
      fail_before = (miss, s.fail_before);
    }

-- The device is the first that passes the test, and the rest are the others in their order.
pub take_first-Splits :
    (p : UsbDevice → Bool) (xs : List UsbDevice) (d : UsbDevice) (rest : List UsbDevice)
    → take_first p xs ≡ some (d, rest)
    → Splits p xs d rest
unfolding take_first
take_first-Splits p [] d rest h = cc
take_first-Splits p (x ∷ xs) d rest h = elim (Bool-cases (p x)) [
  | inl e ↦ record {
    before = [];
    behind = xs;
    whole = cc (rw e at h);
    others = cc (rw e at h);
    passes = cc (rw e at h, e);
    fail_before = tt;
  }
  | inr e ↦
      keep_before-Splits p x d xs rest (take_first p xs) e
        (λ e' es he. take_first-Splits p xs e' es he) (rw e at h)
]

pub take_first-none :
    (p : UsbDevice → Bool) (xs : List UsbDevice)
    → take_first p xs ≡ none
    → All (λ d. p d ≡ false) xs
unfolding take_first
take_first-none p [] h = tt
take_first-none p (x ∷ xs) h = elim (Bool-cases (p x)) [
  | inl e ↦ cc (rw e at h)
  | inr e ↦ (e, take_first-none p xs (rest_none (take_first p xs) (rw e at h)))
]
  where
    rest_none : (o : Option (UsbDevice × List UsbDevice)) → keep_before x o ≡ none → o ≡ none
    rest_none none k = refl
    rest_none (some (e, es)) k = cc

pub Splits-perm :
    {p : UsbDevice → Bool} {xs : List UsbDevice} {d : UsbDevice} {rest : List UsbDevice}
    → Splits p xs d rest
    → Perm xs (d ∷ rest)
Splits-perm s = rw (s.whole, s.others) (perm_middle s.before s.behind)
