-- ===== src/Age/Yubikey/Missing.antt =====
-- When `open_by_serial` of age-plugin-yubikey/src/key.rs reports a YubiKey as missing.
use remote_yubikey_manager.Common.{
  ℕ, ◌≡◌, ◌≢◌, ◌↔◌, refl, sym, ap, ◌∙◌, inl, inr, true, false, List, [], ◌∷◌, none, some, ◌==◌,
  ==_iff, Bool-cases,
}
use remote_yubikey_manager.Common.Eq.{nat_eq}
use remote_yubikey_manager.Common.Result.{Result, ok, err}
use remote_yubikey_manager.Age.Yubikey.{
  Cards, YubikeyError, no_smartcard, removed_card, sharing_violation, applet_not_found, not_found,
  authentication_error, pin_locked, wrong_pin, other, save, if_it_is, on_reader, find_serial,
  disconnect_without_reset,
}

module _ (c : Cards) (serial : ℕ) where
  open c use {World, Context, Reader, YubiKey}

  -- The readers were tried in turn from one world to the next, and none had the YubiKey: each was
  -- refused for another reason than that the card is shared, or had another serial number and was
  -- disconnected.
  pub data Passes : List Reader → World → World → Type 0 where
    passed : (w : World) → Passes [] w w
    refused :
        {r : Reader} {rs : List Reader} {w w' w'' : World} (e : YubikeyError)
        → c.open_reader r w ≡ (err e, w')
        → e ≢ sharing_violation
        → Passes rs w' w''
        → Passes (r ∷ rs) w w''
    unwanted :
        {r : Reader} {rs : List Reader} {w w' w'' : World} (y : YubiKey)
        → c.open_reader r w ≡ (ok y, w')
        → c.serial_of y ≢ serial
        → Passes rs (c.disconnect y w') w''
        → Passes (r ∷ rs) w w''

  save-none : (e : YubikeyError) → e ≢ sharing_violation → save none e ≡ none
  save-none no_smartcard h = refl
  save-none removed_card h = refl
  save-none sharing_violation h = absurd (h refl)
  save-none applet_not_found h = refl
  save-none not_found h = refl
  save-none authentication_error h = refl
  save-none pin_locked h = refl
  save-none (wrong_pin k) h = refl
  save-none (other k) h = refl

  Passes-find_serial :
      {rs : List Reader} {w w' : World}
      → Passes rs w w'
      → find_serial c serial rs none w ≡ (err not_found, w')
  unfolding find_serial disconnect_without_reset
  Passes-find_serial (passed w) = refl
  Passes-find_serial (refused {r = r} {rs = rs} {w' = w'} e o ne p) =
      ap (on_reader c serial (find_serial c serial rs) none) o
      ∙ ap (λ s. find_serial c serial rs s w') (save-none e ne)
      ∙ Passes-find_serial p
  Passes-find_serial (unwanted {r = r} {rs = rs} {w' = w'} y o ne p) =
      ap (on_reader c serial (find_serial c serial rs) none) o
      ∙ ap (if_it_is c serial (find_serial c serial rs none) y w') (differs y ne)
      ∙ Passes-find_serial p
    where
      differs : (y : YubiKey) → c.serial_of y ≢ serial → (serial == c.serial_of y) ≡ false
      differs y ne = elim (Bool-cases (serial == c.serial_of y)) [
        | inl t ↦ absurd (ne (sym ((==_iff serial (c.serial_of y)).0 t)))
        | inr f ↦ f
      ]

  -- Once a shared card was met, the YubiKey is not reported as missing.
  not-shared_missing :
      (rs : List Reader) (w : World)
      → (find_serial c serial rs (some sharing_violation) w).0 ≢ err not_found
  unfolding find_serial
  not-shared_missing [] w = λ h. cc
  not-shared_missing (r ∷ rs) w = opened (c.open_reader r w) (not-shared_missing rs)
    where
      opened :
          (o : Result YubikeyError YubiKey × World)
          → ((w' : World) → (find_serial c serial rs (some sharing_violation) w').0 ≢ err not_found)
          → (on_reader c serial (find_serial c serial rs) (some sharing_violation) o).0
            ≢ err not_found
      opened (err x, w') ih = ih w'
      opened (ok y, w') ih = elim (Bool-cases (serial == c.serial_of y)) [
        | inl t ↦ rw t (λ h. cc)
        | inr f ↦ rw f (ih (disconnect_without_reset c y w'))
      ]

  missing-Passes :
      (rs : List Reader) (w : World)
      → (find_serial c serial rs none w).0 ≡ err not_found
      → Passes rs w (find_serial c serial rs none w).1
  unfolding find_serial disconnect_without_reset
  missing-Passes [] w h = passed w
  missing-Passes (r ∷ rs) w h = opened (c.open_reader r w) refl h (missing-Passes rs)
    where
      Rest : Type 0
      Rest =
          (w' : World)
          → (find_serial c serial rs none w').0 ≡ err not_found
          → Passes rs w' (find_serial c serial rs none w').1

      opened :
          (o : Result YubikeyError YubiKey × World)
          → c.open_reader r w ≡ o
          → (on_reader c serial (find_serial c serial rs) none o).0 ≡ err not_found
          → Rest
          → Passes (r ∷ rs) w (on_reader c serial (find_serial c serial rs) none o).1
      opened (err sharing_violation, w') e h ih = absurd (not-shared_missing rs w' h)
      opened (err no_smartcard, w') e h ih = refused no_smartcard e (λ q. cc) (ih w' h)
      opened (err removed_card, w') e h ih = refused removed_card e (λ q. cc) (ih w' h)
      opened (err applet_not_found, w') e h ih = refused applet_not_found e (λ q. cc) (ih w' h)
      opened (err not_found, w') e h ih = refused not_found e (λ q. cc) (ih w' h)
      opened (err authentication_error, w') e h ih =
          refused authentication_error e (λ q. cc) (ih w' h)
      opened (err pin_locked, w') e h ih = refused pin_locked e (λ q. cc) (ih w' h)
      opened (err (wrong_pin k), w') e h ih = refused (wrong_pin k) e (λ q. cc) (ih w' h)
      opened (err (other k), w') e h ih = refused (other k) e (λ q. cc) (ih w' h)
      opened (ok y, w') e h ih = elim (Bool-cases (serial == c.serial_of y)) [
        | inl t ↦
            let bad : Path (Result YubikeyError YubiKey) (ok y) (err not_found) = rw t at h in cc
        | inr f ↦
            rw f (unwanted y e (λ q. differs_not y f (sym q)) (ih (c.disconnect y w') (rw f at h)))
      ]
        where
          differs_not : (y : YubiKey) → (serial == c.serial_of y) ≡ false → serial ≢ c.serial_of y
          differs_not y f q =
              let t : (serial == c.serial_of y) ≡ true = (==_iff serial (c.serial_of y)).1 q in cc

  -- The search reports a YubiKey as missing exactly if all readers were passed: none was refused
  -- because its card is shared, and each that was opened had another serial number and was
  -- disconnected.
  pub find_serial-Passes :
      (rs : List Reader) (w : World)
      → ((find_serial c serial rs none w).0 ≡ err not_found)
        ↔ Passes rs w (find_serial c serial rs none w).1
  find_serial-Passes rs w = (missing-Passes rs w, λ p. ap (λ o. o.0) (Passes-find_serial p))
