-- ===== src/Age/Opening.antt =====
-- `wait_for_readers` and `open` of age-plugin-yubikey/src/key.rs: wait until a YubiKey is connected,
-- and choose one.
pub mod Waiting
pub mod Chosen
use remote_yubikey_manager.Common.{
  ℕ, zero, suc, ◌+◌, Bool, true, false, List, [], ◌∷◌, Option, none, some, ◌==◌, if◌then◌else◌,
}
use remote_yubikey_manager.Common.Eq.{nat_eq}
use remote_yubikey_manager.Common.Result.{Result, ok, err}
use remote_yubikey_manager.Common.Outcome.{Outcome, panic}
use remote_yubikey_manager.Common.Outcome
use remote_yubikey_manager.Age.Error.{Error, yubikey, no_matching_serial, multiple_yubikeys}
use remote_yubikey_manager.Age.Error
use remote_yubikey_manager.Age.Yubikey.{
  Cards, YubikeyError, any_connected, filter_connected, open_connection, timed_out, one_second,
}

module _ (c : Cards) where
  open c use {World, Context, Reader, YubiKey}

  -- The result of a loop; `none`: the fuel ran out.
  abbrev pub Waited : Type 0
  Waited = Option (Result Error Context) × World

  abbrev pub keep_waiting : (World → Waited) → ℕ → ℕ × World → Waited
  keep_waiting again start (end_, w) =
      if timed_out start end_ then (some (err Error.timed_out), w) else again (c.sleep one_second w)

  abbrev pub on_any : (World → Waited) → ℕ → Context → Bool × World → Waited
  on_any again start x (true, w) = (some (ok x), w)
  on_any again start x (false, w) = keep_waiting again start (c.now w)

  abbrev pub on_iter :
      (World → Waited) → ℕ → Context → Result YubikeyError (List Reader) × World → Waited
  on_iter again start x (err e, w) = (some (err (yubikey e)), w)
  on_iter again start x (ok readers, w) = on_any again start x (any_connected c readers w)

  abbrev pub on_opened : (World → Waited) → ℕ → Result YubikeyError Context × World → Waited
  on_opened again start (err e, w) = (some (err (yubikey e)), w)
  on_opened again start (ok x, w) = on_iter again start x (c.iter x w)

  unfoldable pub wait_from : ℕ → ℕ → World → Waited
  wait_from zero start w = (none, w)
  wait_from (suc fuel) start w = on_opened (wait_from fuel start) start (c.open_context w)

  unfoldable pub wait_for_readers : ℕ → World → Waited
  wait_for_readers fuel w = let (start, w') = c.now w in wait_from fuel start w'

  abbrev pub Found : Type 0
  Found = Outcome Error YubiKey × World

  -- `next` of the filtered readers
  abbrev pub on_connected :
      (World → Option (Reader × List Reader) × World)
      → Reader
      → List Reader
      → Bool × World
      → Option (Reader × List Reader) × World
  on_connected later r rs (true, w) = (some (r, rs), w)
  on_connected later r rs (false, w) = later w

  unfoldable pub next_connected : List Reader → World → Option (Reader × List Reader) × World
  next_connected [] w = (none, w)
  next_connected (r ∷ rs) w = on_connected (next_connected rs) r rs (filter_connected c r w)

  -- `open_connection(&reader)?`
  abbrev pub as_found : Result YubikeyError YubiKey × World → Found
  as_found (ok y, w) = (Outcome.ok y, w)
  as_found (err e, w) = (Outcome.err (yubikey e), w)

  module _ (serial : ℕ) where
    -- The closure of `find`: the connection is dropped at the end of its arm.
    abbrev pub on_found : Result YubikeyError YubiKey × World → Bool × World
    on_found (ok y, w) = (c.serial_of y == serial, c.reset y w)
    on_found (err e, w) = (false, w)

    unfoldable pub has_serial : Reader → World → Bool × World
    has_serial r w = on_found (open_connection c r w)

    abbrev pub open_if : (World → Found) → Reader → Bool × World → Found
    open_if later r (true, w) = as_found (open_connection c r w)
    open_if later r (false, w) = later w

    -- The readers after the first two are still filtered.
    abbrev pub if_connected : (World → Found) → Reader → Bool × World → Found
    if_connected later r (true, w) = open_if later r (has_serial r w)
    if_connected later r (false, w) = later w

    unfoldable pub find_among : List Reader → World → Found
    find_among [] w = (Outcome.err (no_matching_serial serial), w)
    find_among (r ∷ rs) w = if_connected (find_among rs) r (filter_connected c r w)

    unfoldable pub find_reader : Reader → Reader → List Reader → World → Found
    find_reader a b rs w =
        open_if (λ w'. open_if (find_among rs) b (has_serial b w')) a (has_serial a w)

    -- The only reader must have the serial number that was asked for.
    abbrev pub check_serial : YubiKey → World → Bool → Found
    check_serial y w true = (Outcome.ok y, w)
    check_serial y w false = (Outcome.err (no_matching_serial serial), c.reset y w)

    abbrev pub with_serial : Result YubikeyError YubiKey × World → Found
    with_serial (err e, w) = (Outcome.err (yubikey e), w)
    with_serial (ok y, w) = check_serial y w (c.serial_of y == serial)

  abbrev pub choose_second : Reader → Option (Reader × List Reader) × World → Option ℕ → Found
  choose_second a (none, w) none = as_found (open_connection c a w)
  choose_second a (none, w) (some serial) = with_serial serial (open_connection c a w)
  choose_second a (some (b, rest), w) (some serial) = find_reader serial a b rest w
  choose_second a (some (b, rest), w) none = (Outcome.err multiple_yubikeys, w)

  -- The match on the first two readers and the serial number; without a reader it is `unreachable!()`.
  abbrev pub choose : Option ℕ → Option (Reader × List Reader) × World → Found
  choose serial (none, w) = (panic, w)
  choose serial (some (a, rs), w) = choose_second a (next_connected rs w) serial

  abbrev pub on_iter_again : Option ℕ → Result YubikeyError (List Reader) × World → Found
  on_iter_again serial (err e, w) = (Outcome.err (yubikey e), w)
  on_iter_again serial (ok rs, w) = choose serial (next_connected rs w)

  abbrev pub on_waited : Option ℕ → Waited → Option (Outcome Error YubiKey) × World
  on_waited serial (none, w) = (none, w)
  on_waited serial (some (err e), w) = (some (Outcome.err e), w)
  on_waited serial (some (ok x), w) =
      let (r, w') = on_iter_again serial (c.iter x w) in (some r, w')

  -- The first look only decides what is printed, but its errors are returned.
  abbrev pub on_first_iter :
      ℕ
      → Option ℕ
      → Result YubikeyError (List Reader) × World
      → Option (Outcome Error YubiKey) × World
  on_first_iter fuel serial (err e, w) = (some (Outcome.err (yubikey e)), w)
  on_first_iter fuel serial (ok rs, w) =
      on_waited serial (wait_for_readers fuel (any_connected c rs w).1)

  abbrev pub on_first_context :
      ℕ → Option ℕ → Result YubikeyError Context × World → Option (Outcome Error YubiKey) × World
  on_first_context fuel serial (err e, w) = (some (Outcome.err (yubikey e)), w)
  on_first_context fuel serial (ok x, w) = on_first_iter fuel serial (c.iter x w)

  unfoldable pub open_yubikey : ℕ → Option ℕ → World → Option (Outcome Error YubiKey) × World
  open_yubikey fuel serial w = on_first_context fuel serial (c.open_context w)
