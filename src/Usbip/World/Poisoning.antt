-- ===== src/Usbip/World/Poisoning.antt =====
-- The locks of the simulated handlers: what a panic under one means for later transfers.
use remote_yubikey_manager.Common.{
  ℕ, ◌≡◌, ◌≢◌, refl, true, List, [], ◌∷◌, ◌==◌, ==_iff, ==_refl, Bool-cases, inl, inr,
}
use remote_yubikey_manager.Common.Bytes.{Bytes}
use remote_yubikey_manager.Common.Outcome.{panic}
use remote_yubikey_manager.Usbip.Io.{IoResult}
use remote_yubikey_manager.Usbip.Endpoint.{UsbEndpoint}
use remote_yubikey_manager.Usbip.Setup.{SetupPacket}
use remote_yubikey_manager.Usbip.Host.{DeviceHandle}
use remote_yubikey_manager.Usbip.World.{World, lock_and_handle}

-- A transfer to a handler, as `handle_urb` gets it.
pub record Transfer : Type 0 where
  pub endpoint : UsbEndpoint
  pub len : ℕ
  pub setup : SetupPacket
  pub out_data : Bytes

module _ {H : Type 0} (dh : DeviceHandle H) where
  abbrev pub transfer : ℕ → Transfer → World H → IoResult Bytes × World H
  transfer n t w = lock_and_handle dh n t.endpoint t.len t.setup t.out_data w

  -- Transfers to any handlers, one after the other.
  abbrev pub transfers : List (ℕ × Transfer) → World H → World H
  transfers [] w = w
  transfers ((n, t) ∷ ts) w = transfers ts (transfer n t w).1

  poisons :
      (n : ℕ) (t : Transfer) (w : World H)
      → (transfer n t w).0 ≡ panic
      → ((transfer n t w).1.slots n).poisoned ≡ true
  unfolding lock_and_handle
  poisons n t w h = elim (Bool-cases (w.slots n).poisoned) [
    | inl p ↦ rw p p
    | inr f ↦ rw (f, ==_refl n, rw f at h) refl
  ]

  stays_poisoned :
      (n m : ℕ) (t : Transfer) (w : World H)
      → (w.slots n).poisoned ≡ true
      → ((transfer m t w).1.slots n).poisoned ≡ true
  unfolding lock_and_handle
  stays_poisoned n m t w h = elim (Bool-cases (w.slots m).poisoned) [
    | inl p ↦ rw p h
    | inr f ↦ elim (Bool-cases (m == n)) [
      | inl e ↦ let same : m ≡ n = (==_iff m n).0 e in cc (f, h, same)
      | inr g ↦ rw (f, g) h
    ]
  ]

  refuses :
      (n : ℕ) (t : Transfer) (w : World H)
      → (w.slots n).poisoned ≡ true
      → (transfer n t w).0 ≡ panic
  unfolding lock_and_handle
  refuses n t w h = rw h refl

  -- A transfer to one handler leaves the state of each other handler alone.
  pub transfer_apart :
      (n m : ℕ) (t : Transfer) (w : World H) → n ≢ m → (transfer n t w).1.slots m ≡ w.slots m
  unfolding lock_and_handle
  transfer_apart n m t w h = elim (Bool-cases (w.slots n).poisoned) [
    | inl p ↦ rw p refl
    | inr f ↦ elim (Bool-cases (n == m)) [
      | inl e ↦ absurd (h ((==_iff n m).0 e))
      | inr g ↦ rw (f, g) refl
    ]
  ]

  stay_poisoned :
      (n : ℕ) (ts : List (ℕ × Transfer)) (w : World H)
      → (w.slots n).poisoned ≡ true
      → ((transfers ts w).slots n).poisoned ≡ true
  stay_poisoned n [] w h = h
  stay_poisoned n ((m, t) ∷ ts) w h =
      stay_poisoned n ts (transfer m t w).1 (stays_poisoned n m t w h)

  -- After a transfer on which a handler panics, every later transfer to that handler panics too,
  -- whatever transfers to it and to the others come between.
  pub panic_is_final :
      (n : ℕ) (t t' : Transfer) (ts : List (ℕ × Transfer)) (w : World H)
      → (transfer n t w).0 ≡ panic
      → (transfer n t' (transfers ts (transfer n t w).1)).0 ≡ panic
  panic_is_final n t t' ts w h = refuses n t' _ (stay_poisoned n ts _ (poisons n t w h))
