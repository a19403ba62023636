-- ===== src/Age/Yubikey.antt =====
-- The search for a YubiKey in age-plugin-yubikey/src/key.rs: readers, agents that hold a card, and the
-- two ways to open one. The crates yubikey, pcsc and sysinfo and the clock are the record `Cards`;
-- what is only printed or logged is left out.
pub mod Ledger
pub mod Found
pub mod Missing
use remote_yubikey_manager.Common.{
  ℕ, zero, suc, ◌+◌, ◌≤◌, Bool, true, false, ◌||◌, List, [], ◌∷◌, Option, none, some, leb, ◌==◌,
  if◌then◌else◌,
}
use remote_yubikey_manager.Common.Eq.{nat_eq, list_beq}
use remote_yubikey_manager.Common.Text.{Text, codes}
use remote_yubikey_manager.Common.Result.{Result, ok, err}

-- The errors of the yubikey crate that the source names (those of pcsc by their `inner`), and the
-- others.
pub data YubikeyError : Type 0 where
  no_smartcard removed_card sharing_violation applet_not_found not_found : YubikeyError
  authentication_error pin_locked : YubikeyError
  wrong_pin : ℕ → YubikeyError
  other : ℕ → YubikeyError

pub data Signal : Type 0 where
  interrupt hangup : Signal

-- What the program calls. An operation may change the world. `reset` is what happens to a card whose
-- connection is dropped, `disconnect` what `Disposition::LeaveCard` asks for. Times are in
-- milliseconds.
pub record Cards : Type 1 where
  pub World : Type 0
  pub Context : Type 0
  pub Reader : Type 0
  pub YubiKey : Type 0
  pub Process : Type 0
  pub open_context : World → Result YubikeyError Context × World
  pub iter : Context → World → Result YubikeyError (List Reader) × World
  pub open_reader : Reader → World → Result YubikeyError YubiKey × World
  pub serial_of : YubiKey → ℕ
  pub disconnect : YubiKey → World → World
  pub reset : YubiKey → World → World
  pub processes : World → List Process × World
  pub name : Process → Text
  pub kill_with : Process → Signal → World → Option Bool × World
  pub kill : Process → World → Bool × World
  pub now : World → ℕ × World
  pub sleep : ℕ → World → World

abbrev pub one_second : ℕ
one_second = 1000

abbrev pub fifteen_seconds : ℕ
fifteen_seconds = 15000

abbrev pub is_scdaemon : Text → Bool
is_scdaemon s = list_beq s (codes "scdaemon") || list_beq s (codes "scdaemon.exe")

abbrev pub is_yubikey_agent : Text → Bool
is_yubikey_agent s = list_beq s (codes "yubikey-agent") || list_beq s (codes "yubikey-agent.exe")

-- `SystemTime::now().duration_since(start)` with the guard `end >= FIFTEEN_SECONDS`; an error, for a
-- clock that was set back, falls to the other arm.
abbrev pub timed_out : ℕ → ℕ → Bool
timed_out start end = leb (start + fifteen_seconds) end

-- `open_error`: the first error that says that the YubiKey may have been there
abbrev pub save : Option YubikeyError → YubikeyError → Option YubikeyError
save (some e) _ = some e
save none sharing_violation = some sharing_violation
save none _ = none

abbrev pub or_not_found : Option YubikeyError → YubikeyError
or_not_found (some e) = e
or_not_found none = not_found

module _ (c : Cards) where
  open c use {World, Context, Reader, YubiKey, Process}

  abbrev pub Opened : Type 0
  Opened = Result YubikeyError YubiKey × World

  unfoldable pub disconnect_without_reset : YubiKey → World → World
  disconnect_without_reset yubikey w = c.disconnect yubikey w

  unfoldable pub on_open : Opened → Bool × World
  unfolding disconnect_without_reset
  on_open (err no_smartcard, w) = (false, w)
  on_open (err removed_card, w) = (false, w)
  on_open (err applet_not_found, w) = (false, w)
  on_open (err _, w) = (true, w)
  on_open (ok yubikey, w) = (true, disconnect_without_reset yubikey w)

  unfoldable pub filter_connected : Reader → World → Bool × World
  filter_connected reader w = on_open (c.open_reader reader w)

  -- `any(is_connected)`
  abbrev pub or_else : (World → Bool × World) → Bool × World → Bool × World
  or_else later (true, w) = (true, w)
  or_else later (false, w) = later w

  unfoldable pub any_connected : List Reader → World → Bool × World
  any_connected [] w = (false, w)
  any_connected (r ∷ rs) w = or_else (any_connected rs) (filter_connected r w)

  -- The arms on a process of `hunt_agents`; the result is whether it was stopped.
  abbrev pub or_kill : Process → Option Bool × World → Bool × World
  or_kill p (some stopped, w) = (stopped, w)
  or_kill p (none, w) = c.kill p w

  abbrev pub if_sent : Option Bool × World → Bool × World
  if_sent (some sent, w) = (sent, w)
  if_sent (none, w) = (false, w)

  unfoldable pub stop_agent : Process → World → Bool × World
  stop_agent p w =
      if is_scdaemon (c.name p)
      then or_kill p (c.kill_with p interrupt w)
      else if is_yubikey_agent (c.name p)
      then if_sent (c.kill_with p hangup w)
      else (false, w)

  abbrev pub also : (Bool → World → Bool × World) → Bool → Bool × World → Bool × World
  also later interrupted (stopped, w) = later (interrupted || stopped) w

  unfoldable pub stop_agents : List Process → Bool → World → Bool × World
  stop_agents [] interrupted w = (interrupted, w)
  stop_agents (p ∷ ps) interrupted w = also (stop_agents ps) interrupted (stop_agent p w)

  abbrev pub pause : Bool × World → Bool × World
  pause (true, w) = (true, c.sleep 100 w)
  pause (false, w) = (false, w)

  unfoldable pub hunt_agents : World → Bool × World
  hunt_agents w = let (ps, w') = c.processes w in pause (stop_agents ps false w')

  abbrev pub once_more : (World → Opened) → Bool × World → Opened
  once_more op (true, w) = op w
  once_more op (false, w) = (err sharing_violation, w)

  abbrev pub or_hunt : (World → Opened) → Opened → Opened
  or_hunt op (err sharing_violation, w) = once_more op (hunt_agents w)
  or_hunt op (err e, w) = (err e, w)
  or_hunt op (ok yubikey, w) = (ok yubikey, w)

  unfoldable pub open_sesame : (World → Opened) → World → Opened
  open_sesame op w = or_hunt op (op w)

  unfoldable pub open_connection : Reader → World → Opened
  open_connection reader = open_sesame (c.open_reader reader)

  module _ (serial : ℕ) where
    abbrev pub if_it_is : (World → Opened) → YubiKey → World → Bool → Opened
    if_it_is later yubikey w true = (ok yubikey, w)
    if_it_is later yubikey w false = later (disconnect_without_reset yubikey w)

    abbrev pub on_reader :
        (Option YubikeyError → World → Opened) → Option YubikeyError → Opened → Opened
    on_reader later open_error (err e, w) = later (save open_error e) w
    on_reader later open_error (ok yubikey, w) =
        if_it_is (later open_error) yubikey w (serial == c.serial_of yubikey)

    -- The loop over the readers
    unfoldable pub find_serial : List Reader → Option YubikeyError → World → Opened
    find_serial [] open_error w = (err (or_not_found open_error), w)
    find_serial (r ∷ rs) open_error w = on_reader (find_serial rs) open_error (c.open_reader r w)

    abbrev pub on_readers : Result YubikeyError (List Reader) × World → Opened
    on_readers (err e, w) = (err e, w)
    on_readers (ok readers, w) = find_serial readers none w

    abbrev pub on_context : Result YubikeyError Context × World → Opened
    on_context (err e, w) = (err e, w)
    on_context (ok context, w) = on_readers (c.iter context w)

    unfoldable pub try_serial : World → Opened
    try_serial w = on_context (c.open_context w)

    unfoldable pub open_by_serial : World → Opened
    open_by_serial = open_sesame try_serial
