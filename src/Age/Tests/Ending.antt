-- ===== src/Age/Tests/Ending.antt =====
-- The theorems on the end of the plugin's calls, at a person who answers twice: one YubiKey is there,
-- another one is never inserted.
use remote_yubikey_manager.Common.{
  ℕ, zero, suc, ◌≤◌, ◌<◌, ◌≡◌, ◌≢◌, Bool, true, false, List, [], ◌∷◌, length, arith,
}
use remote_yubikey_manager.Common.Result.{Result, ok, err}
use remote_yubikey_manager.Common.Text.{Text, codes}
use remote_yubikey_manager.Age.Pin.{Answer, secret, refused}
use remote_yubikey_manager.Age.Yubikey.Ledger.{Counts, IsLedger}
use remote_yubikey_manager.Age.Step.{starved}
use remote_yubikey_manager.Age.Connection.{Callbacks, PluginError, fail}
use remote_yubikey_manager.Age.Connection.Patience.{IsPatient}
use remote_yubikey_manager.Age.Manage.{Manager, Prompt}
use remote_yubikey_manager.Age.Manage.Ending
use remote_yubikey_manager.Age.Builder.{build}
use remote_yubikey_manager.Age.Builder.Ending.{build_ends}
use remote_yubikey_manager.Age.Plugin.{unwrap_file_keys}
use remote_yubikey_manager.Age.Plugin.Ending.{unwrap_file_keys_ends}
use remote_yubikey_manager.Age.Plugin.Wrap.{wrap_file_keys}
use remote_yubikey_manager.Age.Plugin.Wrap.Ending.{wrap_file_keys_ends}
use remote_yubikey_manager.Age.Tests.Crates.{
  World, start, open_reader, cards, curve, crypto, keys, x509, padded, slot_numbers, stub_of,
  Certificate, manager, generator,
}
use remote_yubikey_manager.Age.Tests.Identities.{a_builder}
use remote_yubikey_manager.Age.Tests.Opening.{time-IsClock}
use remote_yubikey_manager.Age.Tests.Sessions.{two_files, a_plugin, file_key, draw}

-- How often the person answers still is the length of `pin`.
abbrev patience : World → ℕ
patience w = length w.pin

abbrev confirm_from : List ℕ → World → Result ⊥ (Result PluginError Bool) × World
confirm_from [] w = (ok (ok false), w)
confirm_from (n ∷ ns) w = (ok (ok true), record w { pin = ns })

abbrev secret_from : List ℕ → World → Answer PluginError ⊥ × World
secret_from [] w = (refused fail, w)
secret_from (n ∷ ns) w = (secret (codes "123456"), record w { pin = ns })

abbrev twice : Callbacks World
twice = record {
  IoError = ⊥;
  confirm = λ m w. confirm_from w.pin w;
  message = λ m w. (ok (ok tt), w);
  request_secret = λ serial prev w. secret_from w.pin w;
  error = λ e w. (ok (ok tt), w);
}

confirm_less :
    (ns : List ℕ) (w : World) → length ns ≤ patience w → patience (confirm_from ns w).1 ≤ patience w
confirm_less [] w h = omega arith
confirm_less (n ∷ ns) w h = omega arith

confirm_spent :
    (ns : List ℕ) (w : World)
    → length ns ≤ patience w
    → (confirm_from ns w).0 ≡ ok (ok true)
    → patience (confirm_from ns w).1 < patience w
confirm_spent [] w h e = cc
confirm_spent (n ∷ ns) w h e = omega arith

secret_less :
    (ns : List ℕ) (w : World) → length ns ≤ patience w → patience (secret_from ns w).1 ≤ patience w
secret_less [] w h = omega arith
secret_less (n ∷ ns) w h = omega arith

secret_spent :
    (ns : List ℕ) (w : World) (pin : Text)
    → length ns ≤ patience w
    → (secret_from ns w).0 ≡ secret pin
    → patience (secret_from ns w).1 < patience w
secret_spent [] w pin h e = cc
secret_spent (n ∷ ns) w pin h e = omega arith

patience-IsLedger : (p : ℕ) → IsLedger cards (λ n w. patience w ≤ p)
patience-IsLedger p = record {
  open_context_keeps = λ n w h. h;
  iter_keeps = λ n x w h. h;
  open_reader_counts = λ n r w h. counted n r w h;
  disconnect_counts = λ n y w h. h;
  processes_keeps = λ n w h. h;
  kill_with_keeps = λ n a s w i h. h;
  kill_keeps = λ n a w i h. h;
  now_keeps = λ n w h. h;
  sleep_keeps = λ n d w h. h;
}
  where
    counted :
        (n r : ℕ) (w : World)
        → patience w ≤ p
        → Counts cards (λ m v. patience v ≤ p) n (open_reader r w)
    counted n zero w h = h
    counted n (suc r) w h = h

twice-IsPatient : IsPatient curve cards keys twice (λ w. w.time) patience
twice-IsPatient = record {
  clock = time-IsClock;
  cards_keep = patience-IsLedger;
  reset_keeps = λ y w. omega arith;
  read_certificate_keeps = λ y slot w. omega arith;
  verify_pin_keeps = λ y pin w. omega arith;
  decrypt_data_keeps = λ y point slot w. omega arith;
  attest_keeps = λ y slot w. omega arith;
  instant_keeps = λ w. omega arith;
  confirm_keeps = λ m w. confirm_less w.pin w (omega arith);
  confirm_spends = λ m w e. confirm_spent w.pin w (omega arith) e;
  message_keeps = λ m w. omega arith;
  request_secret_keeps = λ serial e w. secret_less w.pin w (omega arith);
  request_secret_spends = λ serial e w pin q. secret_spent w.pin w pin (omega arith) q;
  error_keeps = λ e w. omega arith;
}

abbrev two_answers : World
two_answers = record start { pin = 1 ∷ 1 ∷ [] }

unwrap_file_keys_ends_example :
    (unwrap_file_keys curve crypto cards keys x509 twice 3 16 padded
      (stub_of 9 ∷ stub_of 7 ∷ [])
      two_files
      two_answers).0
    ≢ starved
unwrap_file_keys_ends_example =
    unwrap_file_keys_ends curve crypto cards keys x509 twice (λ w. w.time) patience twice-IsPatient
      3 padded (stub_of 9 ∷ stub_of 7 ∷ []) two_files two_answers (omega arith)

wrap_file_keys_ends_example :
    (wrap_file_keys curve crypto cards keys twice 3 16 padded draw slot_numbers
      (file_key ∷ [])
      a_plugin
      two_answers).0
    ≢ starved
wrap_file_keys_ends_example =
    wrap_file_keys_ends curve crypto cards keys twice (λ w. w.time) patience twice-IsPatient padded
      draw (λ w. omega arith) slot_numbers 3 (file_key ∷ []) a_plugin two_answers (omega arith)

-- A person who answers the prompts so often, first with the default PIN
abbrev ask_from : List ℕ → Prompt → World → Result ℕ Text × World
ask_from [] q w = (err 0, w)
ask_from (n ∷ ns) q w = ((manager.ask q w).0, record w { pin = ns })

abbrev asked_often : Manager cards Certificate
asked_often = record manager { ask = λ q w. ask_from w.pin q w }

ask_less :
    (ns : List ℕ) (q : Prompt) (w : World)
    → length ns ≤ patience w
    → patience (ask_from ns q w).1 ≤ patience w
ask_less [] q w h = omega arith
ask_less (n ∷ ns) q w h = omega arith

ask_spent :
    (ns : List ℕ) (q : Prompt) (w : World) (answer : Text)
    → length ns ≤ patience w
    → (ask_from ns q w).0 ≡ ok answer
    → patience (ask_from ns q w).1 < patience w
ask_spent [] q w answer h e = cc
ask_spent (n ∷ ns) q w answer h e = omega arith

asked_often-IsPatient : Ending.IsPatient cards asked_often patience
asked_often-IsPatient = record {
  ask_keeps = λ q w. ask_less w.pin q w (omega arith);
  ask_spends = λ q w answer e. ask_spent w.pin q w answer (omega arith) e;
  verify_pin_keeps = λ y pin w. omega arith;
  list_keys_keeps = λ y w. omega arith;
}

abbrev four_answers : World
four_answers = record start { pin = 1 ∷ 1 ∷ 1 ∷ 1 ∷ [] }

build_ends_example :
    (build curve cards keys asked_often generator x509 7 a_builder 5 5 four_answers).0 ≢ starved
build_ends_example =
    build_ends curve cards keys asked_often generator x509 patience asked_often-IsPatient 7
      a_builder 5 four_answers (omega arith)
