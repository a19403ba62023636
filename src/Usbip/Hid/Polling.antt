-- ===== src/Usbip/Hid/Polling.antt =====
-- What a host that polls the keyboard of usbip/src/hid.rs sees.
use mathlib.Core.Path.{subst}
use remote_yubikey_manager.Common.{
  Bool, true, false, ◌&&◌, ◌||◌, ◌-◌, leb, ◌==◌, ℕ, zero, suc, ◌+◌, ◌*◌, ◌≤◌, ◌≡◌, refl, ap, ◌∙◌,
  List, [], ◌∷◌, Option, none, some, arith, length, replicate, leb→le, if◌then◌else◌,
}
use remote_yubikey_manager.Common.Bytes.{Bytes}
use remote_yubikey_manager.Usbip.Hid.{
  idle, UsbHidKeyboardReport, UsbHidKeyboardHandler, poll, poll_idle, from_ascii,
}

-- The answers of as many polls, one after the other.
abbrev pub polls : ℕ → UsbHidKeyboardHandler → List Bytes × UsbHidKeyboardHandler
polls zero h = ([], h)
polls (suc n) h = let (resp, h') = poll h in let (rest, h'') = polls n h' in (resp ∷ rest, h'')

-- A report of each key and, after each, one of no key.
abbrev pub reports : List UsbHidKeyboardReport → List Bytes
reports [] = []
reports (r ∷ rs) = (r.modifier ∷ 0 ∷ r.keys) ∷ replicate 6 0 ∷ reports rs

deliver :
    (rs : List UsbHidKeyboardReport) (d : Bytes)
    → polls
        (2 * length rs)
        (record { report_descriptor = d; pending_key_events = rs; state = idle })
      ≡ (reports rs, record { report_descriptor = d; pending_key_events = []; state = idle })
unfolding poll poll_idle
deliver [] d = refl
deliver (r ∷ rs) d =
    let two : 2 * suc (length rs) ≡ suc (suc (2 * length rs)) = omega arith in
    rw (two, deliver rs d) refl

-- From an idle keyboard, twice as many polls as keys are pending deliver each pending key in its
-- order, with a report of no key after each, and leave the keyboard idle with nothing pending.
pub polls_deliver :
    (h : UsbHidKeyboardHandler)
    → h.state ≡ idle
    → polls (2 * length h.pending_key_events) h
      ≡ (reports h.pending_key_events, record h { pending_key_events = []; state = idle })
polls_deliver h e =
    let whole : h ≡ record {
      report_descriptor = h.report_descriptor;
      pending_key_events = h.pending_key_events;
      state = idle;
    } =
      ap (λ s. record h { state = s }) e in
    ap (polls (2 * length h.pending_key_events)) whole
    ∙ deliver h.pending_key_events h.report_descriptor

-- A report with one key pressed, from `a` (4) to Enter (40), and no modifier.
abbrev pub PressesOne : UsbHidKeyboardReport → Type 0
PressesOne r =
    (key : ℕ) × (4 ≤ key) × (key ≤ 40) × (r ≡ record { modifier = 0; keys = key ∷ replicate 5 0 })

abbrev Presses : Option UsbHidKeyboardReport → Type 0
Presses none = Unit {0}
Presses (some r) = PressesOne r

Presses-if :
    (t : Bool) (x y : Option UsbHidKeyboardReport)
    → (t ≡ true → Presses x)
    → Presses y
    → Presses (if t then x else y)
Presses-if true x y f h = f refl
Presses-if false x y f h = h

from_ascii-Presses : (ascii : ℕ) → Presses (from_ascii ascii)
unfolding from_ascii
from_ascii-Presses ascii =
    Presses-if (leb b'a' ascii && leb ascii b'z') _ _
      (λ t.
        let bounds : (97 ≤ ascii) × (ascii ≤ 122) =
          ground (arith, leb→le 97 ascii, leb→le ascii 122) in
        (ascii - 97 + 4, omega arith, omega arith, refl))
      (Presses-if (leb b'1' ascii && leb ascii b'9') _ _
        (λ t.
          let bounds : (49 ≤ ascii) × (ascii ≤ 57) =
            ground (arith, leb→le 49 ascii, leb→le ascii 57) in
          (ascii - 49 + 30, omega arith, omega arith, refl))
        (Presses-if (ascii == b'0') _ _ (λ t. (39, omega arith, omega arith, refl))
          (Presses-if (ascii == 13 || ascii == 10) _ _ (λ t. (40, omega arith, omega arith, refl))
            tt)))

-- The report of a character that has a key presses that one key, of the 37 from `a` to Enter.
pub from_ascii_range :
    (ascii : ℕ) (r : UsbHidKeyboardReport) → from_ascii ascii ≡ some r → PressesOne r
from_ascii_range ascii r h = subst Presses h (from_ascii-Presses ascii)
