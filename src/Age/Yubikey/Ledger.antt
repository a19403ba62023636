-- ===== src/Age/Yubikey/Ledger.antt =====
-- The connections that the search for a YubiKey in age-plugin-yubikey/src/key.rs opens, and how it
-- closes them.
use remote_yubikey_manager.Common.{
  ℕ, suc, ◌≡◌, ◌⊎◌, inl, inr, Bool, true, false, List, [], ◌∷◌, Option, none, some, ◌||◌,
  Bool-cases,
}
use remote_yubikey_manager.Common.Eq.{nat_eq}
use remote_yubikey_manager.Common.Result.{Result, ok, err}
use remote_yubikey_manager.Age.Yubikey.{
  Cards, YubikeyError, Signal, interrupt, hangup, no_smartcard, removed_card, sharing_violation,
  applet_not_found, not_found, authentication_error, pin_locked, wrong_pin, other, is_scdaemon,
  is_yubikey_agent, on_open, filter_connected, any_connected, or_else, stop_agent, or_kill, if_sent,
  stop_agents, also, pause, hunt_agents, once_more, or_hunt, open_sesame, open_connection,
}

module _ (c : Cards) (I : ℕ → c.World → Type 0) where
  open c use {World, Context, Reader, YubiKey, Process}

  -- One connection more after a success
  abbrev pub Counts : {E A : Type 0} → ℕ → Result E A × World → Type 0
  Counts n (ok _, w) = I (suc n) w
  Counts n (err _, w) = I n w

  abbrev pub IsAgent : Process → Type 0
  IsAgent p = (is_scdaemon (c.name p) ≡ true) ⊎ (is_yubikey_agent (c.name p) ≡ true)

  -- `I n` says that `n` connections are open, and may say more of the world. A success of
  -- `open_reader` adds one and `disconnect` takes one away; the other operations keep it, a signal
  -- only when an agent gets it. Of `reset` nothing is said.
  pub record IsLedger : Type 0 where
    pub open_context_keeps : (n : ℕ) (w : World) → I n w → I n (c.open_context w).1
    pub iter_keeps : (n : ℕ) (x : Context) (w : World) → I n w → I n (c.iter x w).1
    pub open_reader_counts : (n : ℕ) (r : Reader) (w : World) → I n w → Counts n (c.open_reader r w)
    pub disconnect_counts : (n : ℕ) (y : YubiKey) (w : World) → I (suc n) w → I n (c.disconnect y w)
    pub processes_keeps : (n : ℕ) (w : World) → I n w → I n (c.processes w).1
    pub kill_with_keeps :
        (n : ℕ) (p : Process) (s : Signal) (w : World)
        → IsAgent p
        → I n w
        → I n (c.kill_with p s w).1
    pub kill_keeps : (n : ℕ) (p : Process) (w : World) → IsAgent p → I n w → I n (c.kill p w).1
    pub now_keeps : (n : ℕ) (w : World) → I n w → I n (c.now w).1
    pub sleep_keeps : (n d : ℕ) (w : World) → I n w → I n (c.sleep d w)

  module _ (l : IsLedger) where
    on_open_keeps :
        (n : ℕ) (o : Result YubikeyError YubiKey × World) → Counts n o → I n (on_open c o).1
    unfolding on_open
    on_open_keeps n (err no_smartcard, w) h = h
    on_open_keeps n (err removed_card, w) h = h
    on_open_keeps n (err applet_not_found, w) h = h
    on_open_keeps n (err sharing_violation, w) h = h
    on_open_keeps n (err not_found, w) h = h
    on_open_keeps n (err authentication_error, w) h = h
    on_open_keeps n (err pin_locked, w) h = h
    on_open_keeps n (err (wrong_pin k), w) h = h
    on_open_keeps n (err (other k), w) h = h
    on_open_keeps n (ok y, w) h = l.disconnect_counts n y w h

    -- A look at a reader leaves no connection open.
    pub filter_connected_keeps :
        (n : ℕ) (r : Reader) (w : World) → I n w → I n (filter_connected c r w).1
    unfolding filter_connected
    filter_connected_keeps n r w h =
        on_open_keeps n (c.open_reader r w) (l.open_reader_counts n r w h)

    or_else_keeps :
        (n : ℕ) (later : World → Bool × World) (b : Bool × World)
        → ((w : World) → I n w → I n (later w).1)
        → I n b.1
        → I n (or_else c later b).1
    or_else_keeps n later (true, w) f h = h
    or_else_keeps n later (false, w) f h = f w h

    pub any_connected_keeps :
        (n : ℕ) (rs : List Reader) (w : World) → I n w → I n (any_connected c rs w).1
    unfolding any_connected
    any_connected_keeps n [] w h = h
    any_connected_keeps n (r ∷ rs) w h =
        or_else_keeps n (any_connected c rs) (filter_connected c r w) (any_connected_keeps n rs)
          (filter_connected_keeps n r w h)

    or_kill_keeps :
        (n : ℕ) (p : Process) (o : Option Bool × World)
        → IsAgent p
        → I n o.1
        → I n (or_kill c p o).1
    or_kill_keeps n p (some b, w) a h = h
    or_kill_keeps n p (none, w) a h = l.kill_keeps n p w a h

    if_sent_keeps : (n : ℕ) (o : Option Bool × World) → I n o.1 → I n (if_sent c o).1
    if_sent_keeps n (some b, w) h = h
    if_sent_keeps n (none, w) h = h

    stop_agent_keeps : (n : ℕ) (p : Process) (w : World) → I n w → I n (stop_agent c p w).1
    unfolding stop_agent
    stop_agent_keeps n p w h = elim (Bool-cases (is_scdaemon (c.name p))) [
      | inl s ↦ rw s (
          or_kill_keeps n p (c.kill_with p interrupt w) (inl s)
            (l.kill_with_keeps n p interrupt w (inl s) h))
      | inr s ↦ rw s (elim (Bool-cases (is_yubikey_agent (c.name p))) [
        | inl y ↦
            rw y
              (if_sent_keeps n (c.kill_with p hangup w) (l.kill_with_keeps n p hangup w (inr y) h))
        | inr y ↦ rw y h
      ])
    ]

    stop_agents_keeps :
        (n : ℕ) (ps : List Process) (b : Bool) (w : World) → I n w → I n (stop_agents c ps b w).1
    unfolding stop_agents
    stop_agents_keeps n [] b w h = h
    stop_agents_keeps n (p ∷ ps) b w h =
        stopped (stop_agent c p w) (stop_agents_keeps n ps) (stop_agent_keeps n p w h)
      where
        stopped :
            (o : Bool × World)
            → ((b' : Bool) (w' : World) → I n w' → I n (stop_agents c ps b' w').1)
            → I n o.1
            → I n (also c (stop_agents c ps) b o).1
        stopped (s, w') ih h' = ih (b || s) w' h'

    pause_keeps : (n : ℕ) (o : Bool × World) → I n o.1 → I n (pause c o).1
    pause_keeps n (true, w) h = l.sleep_keeps n 100 w h
    pause_keeps n (false, w) h = h

    -- Only agents are signalled, and no connection is opened or closed.
    hunt_agents_keeps : (n : ℕ) (w : World) → I n w → I n (hunt_agents c w).1
    unfolding hunt_agents
    hunt_agents_keeps n w h =
        pause_keeps n (stop_agents c (c.processes w).0 false (c.processes w).1)
          (stop_agents_keeps n (c.processes w).0 false (c.processes w).1 (l.processes_keeps n w h))

    module _ (op : World → Result YubikeyError YubiKey × World) (n : ℕ)
        (op_counts : (w : World) → I n w → Counts n (op w)) where
      once_more-Counts : (b : Bool × World) → I n b.1 → Counts n (once_more c op b)
      once_more-Counts (true, w) h = op_counts w h
      once_more-Counts (false, w) h = h

      or_hunt-Counts :
          (o : Result YubikeyError YubiKey × World) → Counts n o → Counts n (or_hunt c op o)
      or_hunt-Counts (err sharing_violation, w) h =
          once_more-Counts (hunt_agents c w) (hunt_agents_keeps n w h)
      or_hunt-Counts (err no_smartcard, w) h = h
      or_hunt-Counts (err removed_card, w) h = h
      or_hunt-Counts (err applet_not_found, w) h = h
      or_hunt-Counts (err not_found, w) h = h
      or_hunt-Counts (err authentication_error, w) h = h
      or_hunt-Counts (err pin_locked, w) h = h
      or_hunt-Counts (err (wrong_pin k), w) h = h
      or_hunt-Counts (err (other k), w) h = h
      or_hunt-Counts (ok y, w) h = h

      pub open_sesame-Counts : (w : World) → I n w → Counts n (open_sesame c op w)
      unfolding open_sesame
      open_sesame-Counts w h = or_hunt-Counts (op w) (op_counts w h)

    pub open_connection-Counts :
        (n : ℕ) (r : Reader) (w : World) → I n w → Counts n (open_connection c r w)
    unfolding open_connection
    open_connection-Counts n r w h =
        open_sesame-Counts (c.open_reader r) n (l.open_reader_counts n r) w h
