-- ===== src/Age/Opening/Chosen.antt =====
-- What `open` of age-plugin-yubikey/src/key.rs chooses, and what it leaves open.
use remote_yubikey_manager.Common.{
  ℕ, ◌≡◌, refl, sym, ◌∙◌, inl, inr, Bool, true, false, List, [], ◌∷◌, Option, none, some, ◌==◌,
  ==_iff, Bool-cases,
}
use remote_yubikey_manager.Common.Eq.{nat_eq}
use remote_yubikey_manager.Common.Result.{Result, ok, err}
use remote_yubikey_manager.Common.Outcome.{Outcome, panic}
use remote_yubikey_manager.Age.Error.{Error}
use remote_yubikey_manager.Age.Yubikey.{
  Cards, YubikeyError, filter_connected, any_connected, open_connection,
}
use remote_yubikey_manager.Age.Yubikey.Found.{HasSerial, open_sesame-Answers}
use remote_yubikey_manager.Age.Opening.{
  Found, Waited, as_found, on_found, has_serial, open_if, if_connected, find_among, find_reader,
  with_serial, choose_second, choose, on_iter_again, next_connected, on_waited, on_first_iter,
  on_first_context, open_yubikey, wait_for_readers,
}

module _ (c : Cards) where
  open c use {World, Context, Reader, YubiKey}

  -- A YubiKey that was asked for by its serial number
  abbrev pub Wanted : ℕ → Outcome Error YubiKey → Type 0
  Wanted serial (Outcome.ok y) = c.serial_of y ≡ serial
  Wanted serial (Outcome.err e) = Unit {0}
  Wanted serial panic = Unit {0}

  abbrev pub WantedIf : ℕ → Option (Outcome Error YubiKey) → Type 0
  WantedIf serial none = Unit {0}
  WantedIf serial (some o) = Wanted serial o

  -- A reader holds the same YubiKey whenever it is opened.
  module _ (holds : Reader → ℕ)
      (steady : (r : Reader) (w : World) → HasSerial c (holds r) (c.open_reader r w).0)
      (serial : ℕ) where
    connection_steady : (r : Reader) (w : World) → HasSerial c (holds r) (open_connection c r w).0
    unfolding open_connection
    connection_steady r = open_sesame-Answers c (HasSerial c (holds r)) (c.open_reader r) (steady r)

    on_found-holds :
        (n : ℕ) (o : Result YubikeyError YubiKey × World)
        → HasSerial c n o.0
        → (on_found c serial o).0 ≡ true
        → n ≡ serial
    on_found-holds n (ok y, w) h e = sym h ∙ (==_iff (c.serial_of y) serial).0 e
    on_found-holds n (err x, w) h e = cc

    has_serial-holds :
        (r : Reader) (w : World) → (has_serial c serial r w).0 ≡ true → holds r ≡ serial
    unfolding has_serial
    has_serial-holds r w = on_found-holds (holds r) (open_connection c r w) (connection_steady r w)

    as_found-Wanted :
        (n : ℕ) (o : Result YubikeyError YubiKey × World)
        → HasSerial c n o.0
        → n ≡ serial
        → Wanted serial (as_found c o).0
    as_found-Wanted n (ok y, w) h e = h ∙ e
    as_found-Wanted n (err x, w) h e = tt

    open_if-Wanted :
        (later : World → Found c) (r : Reader) (b : Bool × World)
        → (b.0 ≡ true → holds r ≡ serial)
        → ((w : World) → Wanted serial (later w).0)
        → Wanted serial (open_if c serial later r b).0
    open_if-Wanted later r (true, w) h f =
        as_found-Wanted (holds r) (open_connection c r w) (connection_steady r w) (h refl)
    open_if-Wanted later r (false, w) h f = f w

    find_among-Wanted : (rs : List Reader) (w : World) → Wanted serial (find_among c serial rs w).0
    unfolding find_among
    find_among-Wanted [] w = tt
    find_among-Wanted (r ∷ rs) w = filtered (filter_connected c r w) (find_among-Wanted rs)
      where
        filtered :
            (b : Bool × World)
            → ((w' : World) → Wanted serial (find_among c serial rs w').0)
            → Wanted serial (if_connected c serial (find_among c serial rs) r b).0
        filtered (true, w') ih =
            open_if-Wanted (find_among c serial rs) r (has_serial c serial r w')
              (has_serial-holds r w') ih
        filtered (false, w') ih = ih w'

    find_reader-Wanted :
        (a b : Reader) (rs : List Reader) (w : World)
        → Wanted serial (find_reader c serial a b rs w).0
    unfolding find_reader
    find_reader-Wanted a b rs w =
        open_if-Wanted
          (λ w'. open_if c serial (find_among c serial rs) b (has_serial c serial b w')) a
          (has_serial c serial a w) (has_serial-holds a w)
          (λ w'.
            open_if-Wanted (find_among c serial rs) b (has_serial c serial b w')
              (has_serial-holds b w') (find_among-Wanted rs))

    with_serial-Wanted :
        (o : Result YubikeyError YubiKey × World) → Wanted serial (with_serial c serial o).0
    with_serial-Wanted (err e, w) = tt
    with_serial-Wanted (ok y, w) = elim (Bool-cases (c.serial_of y == serial)) [
      | inl t ↦ rw t ((==_iff (c.serial_of y) serial).0 t)
      | inr f ↦ rw f tt
    ]

    second-Wanted :
        (a : Reader) (o : Option (Reader × List Reader) × World)
        → Wanted serial (choose_second c a o (some serial)).0
    second-Wanted a (none, w) = with_serial-Wanted (open_connection c a w)
    second-Wanted a (some (b, rs), w) = find_reader-Wanted a b rs w

    choose-Wanted :
        (o : Option (Reader × List Reader) × World) → Wanted serial (choose c (some serial) o).0
    choose-Wanted (none, w) = tt
    choose-Wanted (some (a, rs), w) = second-Wanted a (next_connected c rs w)

    iter-Wanted :
        (o : Result YubikeyError (List Reader) × World)
        → Wanted serial (on_iter_again c (some serial) o).0
    iter-Wanted (err e, w) = tt
    iter-Wanted (ok rs, w) = choose-Wanted (next_connected c rs w)

    waited-Wanted : (o : Waited c) → WantedIf serial (on_waited c (some serial) o).0
    waited-Wanted (none, w) = tt
    waited-Wanted (some (err e), w) = tt
    waited-Wanted (some (ok x), w) = iter-Wanted (c.iter x w)

    first_iter-Wanted :
        (fuel : ℕ) (o : Result YubikeyError (List Reader) × World)
        → WantedIf serial (on_first_iter c fuel (some serial) o).0
    first_iter-Wanted fuel (err e, w) = tt
    first_iter-Wanted fuel (ok rs, w) =
        waited-Wanted (wait_for_readers c fuel (any_connected c rs w).1)

    context-Wanted :
        (fuel : ℕ) (o : Result YubikeyError Context × World)
        → WantedIf serial (on_first_context c fuel (some serial) o).0
    context-Wanted fuel (err e, w) = tt
    context-Wanted fuel (ok x, w) = first_iter-Wanted fuel (c.iter x w)

    -- If each reader holds the same YubiKey whenever it is opened, a YubiKey that is opened for a
    -- serial number has it, however many readers there are.
    pub open_yubikey-Wanted :
        (fuel : ℕ) (w : World) → WantedIf serial (open_yubikey c fuel (some serial) w).0
    unfolding open_yubikey
    open_yubikey-Wanted fuel w = context-Wanted fuel (c.open_context w)
