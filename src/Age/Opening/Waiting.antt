-- ===== src/Age/Opening/Waiting.antt =====
-- The wait for a reader in `wait_for_readers` of age-plugin-yubikey/src/key.rs.
use remote_yubikey_manager.Common.{
  ℕ, zero, suc, ◌+◌, ◌*◌, ◌≤◌, ◌≡◌, ◌≢◌, inl, inr, Bool, true, false, List, none, le→leb,
  Bool-cases, arith,
}
use remote_yubikey_manager.Common.Result.{Result, ok, err}
use remote_yubikey_manager.Age.Yubikey.{
  Cards, YubikeyError, any_connected, timed_out, one_second, fifteen_seconds,
}
use remote_yubikey_manager.Age.Yubikey.Ledger.{IsLedger, any_connected_keeps}
use remote_yubikey_manager.Age.Opening.{
  Waited, keep_waiting, on_any, on_iter, on_opened, wait_from, wait_for_readers,
}

module _ (c : Cards) where
  open c use {World, Context, Reader, YubiKey}

  -- A clock that is not set back: what it shows only grows, and by a sleep at least by its length.
  pub record IsClock (time : World → ℕ) : Type 0 where
    pub passes : (t : ℕ) → IsLedger c (λ n w. t ≤ time w)
    pub now_reads : (w : World) → (c.now w).0 ≡ time w
    pub sleep_lasts : (d : ℕ) (w : World) → time w + d ≤ time (c.sleep d w)

  module _ (time : World → ℕ) (k : IsClock time) where
    keep_waiting_ends :
        (again : World → Waited c) (start m t : ℕ) (w : World)
        → start + fifteen_seconds ≤ t + one_second * suc m
        → t ≤ time w
        → ((w' : World) → start + fifteen_seconds ≤ time w' + one_second * m → (again w').0 ≢ none)
        → (keep_waiting c again start (c.now w)).0 ≢ none
    keep_waiting_ends again start m t w h th ih = elim (Bool-cases (timed_out start (c.now w).0)) [
      | inl late ↦ rw late (λ q. cc)
      | inr early ↦ rw early (
          ih (c.sleep one_second (c.now w).1)
            (omega (arith, k.sleep_lasts one_second (c.now w).1, (k.passes t).now_keeps 0 w th)))
    ]

    last_ends :
        (again : World → Waited c) (start t : ℕ) (w : World)
        → start + fifteen_seconds ≤ t
        → t ≤ time w
        → (keep_waiting c again start (c.now w)).0 ≢ none
    last_ends again start t w h th =
        let late : timed_out start (c.now w).0 ≡ true =
          le→leb (start + fifteen_seconds) (c.now w).0 (omega (arith, k.now_reads w)) in
        rw late (λ q. cc)

    -- What a round does before it looks at the clock.
    module _ (again : World → Waited c) (start t : ℕ)
        (waits : (w : World) → t ≤ time w → (keep_waiting c again start (c.now w)).0 ≢ none) where
      any_ends :
          (x : Context) (b : Bool × World) → t ≤ time b.1 → (on_any c again start x b).0 ≢ none
      any_ends x (true, w) h = λ q. cc
      any_ends x (false, w) h = waits w h

      iter_ends :
          (x : Context) (o : Result YubikeyError (List Reader) × World)
          → t ≤ time o.1
          → (on_iter c again start x o).0 ≢ none
      iter_ends x (err e, w) h = λ q. cc
      iter_ends x (ok rs, w) h =
          any_ends x (any_connected c rs w)
            (any_connected_keeps c (λ n w. t ≤ time w) (k.passes t) 0 rs w h)

      round_ends :
          (o : Result YubikeyError Context × World)
          → t ≤ time o.1
          → (on_opened c again start o).0 ≢ none
      round_ends (err e, w) h = λ q. cc
      round_ends (ok x, w) h = iter_ends x (c.iter x w) ((k.passes t).iter_keeps 0 x w h)

    wait_from_ends :
        (m start t : ℕ) (w : World)
        → start + fifteen_seconds ≤ t + one_second * m
        → t ≤ time w
        → (wait_from c (suc m) start w).0 ≢ none
    unfolding wait_from
    wait_from_ends zero start t w h th =
        round_ends (wait_from c 0 start) start t
          (λ w' th'. last_ends (wait_from c 0 start) start t w' (omega (arith, h)) th')
          (c.open_context w) ((k.passes t).open_context_keeps 0 w th)
    wait_from_ends (suc m) start t w h th =
        round_ends (wait_from c (suc m) start) start t
          (λ w' th'.
            keep_waiting_ends (wait_from c (suc m) start) start m t w' h th'
              (λ w'' h''. wait_from_ends m start (time w'') w'' h'' (omega arith)))
          (c.open_context w) ((k.passes t).open_context_keeps 0 w th)

    -- With a clock that is not set back, the wait ends within 16 rounds.
    pub wait_for_readers_ends : (w : World) → (wait_for_readers c 16 w).0 ≢ none
    unfolding wait_for_readers
    wait_for_readers_ends w =
        wait_from_ends 15 (c.now w).0 (c.now w).0 (c.now w).1 (omega arith)
          (omega (arith, k.now_reads w, (k.passes (time w)).now_keeps 0 w (omega arith)))
