-- ===== src/Age/Tests/Opening.antt =====
-- The theorems on the search for a YubiKey, at three readers of which one is held by an agent.
use remote_yubikey_manager.Common.{
  ℕ, zero, suc, ◌≤◌, ◌≡◌, ◌≢◌, ◌↔◌, refl, [], ◌∷◌, none, some, arith,
}
use remote_yubikey_manager.Common.Result.{ok, err}
use remote_yubikey_manager.Age.Yubikey.{
  not_found, find_serial, open_by_serial, open_sesame, try_serial, disconnect_without_reset,
}
use remote_yubikey_manager.Age.Yubikey.Ledger.{Counts, IsLedger}
use remote_yubikey_manager.Age.Yubikey.Found.{HasSerial, open_by_serial-Counts}
use remote_yubikey_manager.Age.Yubikey.Missing.{Passes, find_serial-Passes}
use remote_yubikey_manager.Age.Opening.{open_yubikey, wait_for_readers}
use remote_yubikey_manager.Age.Opening.Waiting.{IsClock, wait_for_readers_ends}
use remote_yubikey_manager.Age.Opening.Chosen.{WantedIf, open_yubikey-Wanted}
use remote_yubikey_manager.Age.Tests.Crates.{World, start, open_reader, cards}

-- So many connections, and no reset
abbrev Balanced : ℕ → World → Type 0
Balanced n w = (w.opened ≡ n) × (w.resets ≡ 0)

open_reader-Balanced :
    (n r : ℕ) (w : World) → Balanced n w → Counts cards Balanced n (open_reader r w)
open_reader-Balanced n zero w h = h
open_reader-Balanced n (suc r) w h = omega arith

Balanced-IsLedger : IsLedger cards Balanced
Balanced-IsLedger = record {
  open_context_keeps = λ n w h. h;
  iter_keeps = λ n x w h. h;
  open_reader_counts = open_reader-Balanced;
  disconnect_counts = λ n y w h. omega arith;
  processes_keeps = λ n w h. h;
  kill_with_keeps = λ n p s w a h. h;
  kill_keeps = λ n p w a h. h;
  now_keeps = λ n w h. h;
  sleep_keeps = λ n d w h. h;
}

open_by_serial-Counts_example : Counts cards Balanced 0 (open_by_serial cards 5 start)
open_by_serial-Counts_example =
    open_by_serial-Counts cards Balanced Balanced-IsLedger 5 0 start (refl, refl)

find_serial-Passes_example :
    ((find_serial cards 9 (7 ∷ 5 ∷ []) none start).0 ≡ err not_found)
    ↔ Passes cards 9 (7 ∷ 5 ∷ []) start (find_serial cards 9 (7 ∷ 5 ∷ []) none start).1
find_serial-Passes_example = find_serial-Passes cards 9 (7 ∷ 5 ∷ []) start

-- The readers 7 and 5 have no YubiKey with the number 9, behind a shared one there might be one.
find_serial_missing : (find_serial cards 9 (7 ∷ 5 ∷ []) none start).0 ≡ err not_found
unfolding find_serial
find_serial_missing = refl

time-IsLedger : (t : ℕ) → IsLedger cards (λ n w. t ≤ w.time)
time-IsLedger t = record {
  open_context_keeps = λ n w h. h;
  iter_keeps = λ n x w h. h;
  open_reader_counts = λ n r w h. counted n r w h;
  disconnect_counts = λ n y w h. h;
  processes_keeps = λ n w h. h;
  kill_with_keeps = λ n p s w a h. h;
  kill_keeps = λ n p w a h. h;
  now_keeps = λ n w h. h;
  sleep_keeps = λ n d w h. omega arith;
}
  where
    counted :
        (n r : ℕ) (w : World) → t ≤ w.time → Counts cards (λ m v. t ≤ v.time) n (open_reader r w)
    counted n zero w h = h
    counted n (suc r) w h = h

pub time-IsClock : IsClock cards (λ w. w.time)
time-IsClock = record {
  passes = time-IsLedger;
  now_reads = λ w. refl;
  sleep_lasts = λ d w. omega arith;
}

wait_for_readers_ends_example : (wait_for_readers cards 16 start).0 ≢ none
wait_for_readers_ends_example = wait_for_readers_ends cards (λ w. w.time) time-IsClock start

reader_steady : (r : ℕ) (w : World) → HasSerial cards r (open_reader r w).0
reader_steady zero w = tt
reader_steady (suc r) w = refl

open_yubikey-Wanted_example : WantedIf cards 5 (open_yubikey cards 16 (some 5) start).0
open_yubikey-Wanted_example = open_yubikey-Wanted cards (λ r. r) reader_steady 5 16 start

-- The YubiKey 5 is found behind one of another number and a shared one; nothing was reset.
five_found : open_by_serial cards 5 start ≡ (ok 5, record start { opened = 1 })
unfolding open_by_serial open_sesame try_serial find_serial disconnect_without_reset
five_found = refl
