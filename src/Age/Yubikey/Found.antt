-- ===== src/Age/Yubikey/Found.antt =====
-- What `open_by_serial` of age-plugin-yubikey/src/key.rs finds, and what it leaves open.
use remote_yubikey_manager.Common.{
  ℕ, ◌≡◌, sym, inl, inr, Bool, true, false, List, [], ◌∷◌, Option, none, ◌==◌, ==_iff, Bool-cases,
}
use remote_yubikey_manager.Common.Eq.{nat_eq}
use remote_yubikey_manager.Common.Result.{Result, ok, err}
use remote_yubikey_manager.Age.Yubikey.{
  Cards, YubikeyError, no_smartcard, removed_card, sharing_violation, applet_not_found, not_found,
  authentication_error, pin_locked, wrong_pin, other, once_more, or_hunt, open_sesame, hunt_agents,
  save, if_it_is, on_reader, find_serial, on_readers, on_context, try_serial, open_by_serial,
  disconnect_without_reset,
}
use remote_yubikey_manager.Age.Yubikey.Ledger.{Counts, IsLedger, open_sesame-Counts}

module _ (c : Cards) (I : ℕ → c.World → Type 0) (l : IsLedger c I) (serial n : ℕ) where
  open c use {World, Context, Reader, YubiKey}

  on_reader-Counts :
      (later : Option YubikeyError → World → Result YubikeyError YubiKey × World)
      (e : Option YubikeyError) (o : Result YubikeyError YubiKey × World)
      → ((e' : Option YubikeyError) (w : World) → I n w → Counts c I n (later e' w))
      → Counts c I n o
      → Counts c I n (on_reader c serial later e o)
  unfolding disconnect_without_reset
  on_reader-Counts later e (err x, w) f h = f (save e x) w h
  on_reader-Counts later e (ok y, w) f h = it_is (serial == c.serial_of y)
    where
      it_is : (b : Bool) → Counts c I n (if_it_is c serial (later e) y w b)
      it_is true = h
      it_is false = f e (c.disconnect y w) (l.disconnect_counts n y w h)

  find_serial-Counts :
      (rs : List Reader) (e : Option YubikeyError) (w : World)
      → I n w
      → Counts c I n (find_serial c serial rs e w)
  unfolding find_serial
  find_serial-Counts [] e w h = h
  find_serial-Counts (r ∷ rs) e w h =
      on_reader-Counts (find_serial c serial rs) e (c.open_reader r w) (find_serial-Counts rs)
        (l.open_reader_counts n r w h)

  on_readers-Counts :
      (o : Result YubikeyError (List Reader) × World)
      → I n o.1
      → Counts c I n (on_readers c serial o)
  on_readers-Counts (err e, w) h = h
  on_readers-Counts (ok rs, w) h = find_serial-Counts rs none w h

  on_context-Counts :
      (o : Result YubikeyError Context × World) → I n o.1 → Counts c I n (on_context c serial o)
  on_context-Counts (err e, w) h = h
  on_context-Counts (ok x, w) h = on_readers-Counts (c.iter x w) (l.iter_keeps n x w h)

  try_serial-Counts : (w : World) → I n w → Counts c I n (try_serial c serial w)
  unfolding try_serial
  try_serial-Counts w h = on_context-Counts (c.open_context w) (l.open_context_keeps n w h)

  -- One connection more is open than before if a YubiKey is found, and none otherwise: each other
  -- YubiKey that was opened was disconnected, and none was reset, since of a reset `IsLedger` says
  -- nothing. Only agents are signalled.
  pub open_by_serial-Counts : (w : World) → I n w → Counts c I n (open_by_serial c serial w)
  unfolding open_by_serial
  open_by_serial-Counts w h = open_sesame-Counts c I l (try_serial c serial) n try_serial-Counts w h

module _ (c : Cards) where
  open c use {World, Context, Reader, YubiKey}

  -- A result of `op` is one of a call of `op`, or the sharing violation of one.
  pub open_sesame-Answers :
      (P : Result YubikeyError YubiKey → Type 0) (op : World → Result YubikeyError YubiKey × World)
      → ((w : World) → P (op w).0)
      → (w : World) → P (open_sesame c op w).0
  unfolding open_sesame
  open_sesame-Answers P op f w = hunted (op w) (f w)
    where
      once : P (err sharing_violation) → (b : Bool × World) → P (once_more c op b).0
      once p (true, w') = f w'
      once p (false, w') = p

      hunted : (o : Result YubikeyError YubiKey × World) → P o.0 → P (or_hunt c op o).0
      hunted (err sharing_violation, w') p = once p (hunt_agents c w')
      hunted (err no_smartcard, w') p = p
      hunted (err removed_card, w') p = p
      hunted (err applet_not_found, w') p = p
      hunted (err not_found, w') p = p
      hunted (err authentication_error, w') p = p
      hunted (err pin_locked, w') p = p
      hunted (err (wrong_pin k), w') p = p
      hunted (err (other k), w') p = p
      hunted (ok y, w') p = p

  module _ (serial : ℕ) where
    abbrev pub HasSerial : Result YubikeyError YubiKey → Type 0
    HasSerial (ok y) = c.serial_of y ≡ serial
    HasSerial (err e) = Unit {0}

    find_serial-HasSerial :
        (rs : List Reader) (e : Option YubikeyError) (w : World)
        → HasSerial (find_serial c serial rs e w).0
    unfolding find_serial
    find_serial-HasSerial [] e w = tt
    find_serial-HasSerial (r ∷ rs) e w = opened (c.open_reader r w) (find_serial-HasSerial rs)
      where
        opened :
            (o : Result YubikeyError YubiKey × World)
            → ((e' : Option YubikeyError) (w' : World)
                → HasSerial (find_serial c serial rs e' w').0)
            → HasSerial (on_reader c serial (find_serial c serial rs) e o).0
        opened (err x, w') ih = ih (save e x) w'
        opened (ok y, w') ih = elim (Bool-cases (serial == c.serial_of y)) [
          | inl t ↦ rw t (sym ((==_iff serial (c.serial_of y)).0 t))
          | inr f ↦ rw f (ih e (disconnect_without_reset c y w'))
        ]

    on_readers-HasSerial :
        (o : Result YubikeyError (List Reader) × World) → HasSerial (on_readers c serial o).0
    on_readers-HasSerial (err e, w) = tt
    on_readers-HasSerial (ok rs, w) = find_serial-HasSerial rs none w

    on_context-HasSerial :
        (o : Result YubikeyError Context × World) → HasSerial (on_context c serial o).0
    on_context-HasSerial (err e, w) = tt
    on_context-HasSerial (ok x, w) = on_readers-HasSerial (c.iter x w)

    -- A YubiKey that is opened by its serial number has it, also after an agent was stopped.
    pub open_by_serial-HasSerial : (w : World) → HasSerial (open_by_serial c serial w).0
    unfolding open_by_serial try_serial
    open_by_serial-HasSerial =
        open_sesame-Answers HasSerial (try_serial c serial)
          (λ w. on_context-HasSerial (c.open_context w))
