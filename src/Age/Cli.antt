-- ===== src/Age/Cli.antt =====
-- The command line of age-plugin-yubikey/src/main.rs: the options, the command that they ask for, and the
-- commands that print identities. The interactive setup is left out.
pub mod Commands
pub mod Printing
pub mod Printed
use remote_yubikey_manager.Common.{
  ℕ, zero, suc, ◌+◌, Bool, true, false, ◌&&◌, List, [], ◌∷◌, ◌++◌, Option, none, some, ltb, ◌==◌,
  if◌then◌else◌,
}
use remote_yubikey_manager.Common.Eq.{nat_eq}
use remote_yubikey_manager.Common.Text.{Text, codes}
use remote_yubikey_manager.Common.Result.{Result}
use remote_yubikey_manager.Common.Result
use remote_yubikey_manager.Common.Outcome.{Outcome, ok, err, panic, ◌>>=◌}
use remote_yubikey_manager.Age.Slots.{RetiredSlotId, SlotError, invalid_slot, ui_to_slot, ordinal}
use remote_yubikey_manager.Age.Stub.{Stub}
use remote_yubikey_manager.Age.Error.{
  Error, multiple_commands, invalid_flag_tui, invalid_flag_command, use_list_for_single_slot,
  slot_has_no_identity, yubikey,
}
use remote_yubikey_manager.Age.Error
use remote_yubikey_manager.Age.Policy.{
  PinPolicy, TouchPolicy, pin_policy_from_string, touch_policy_from_string,
}
use remote_yubikey_manager.Age.Yubikey.{
  Cards, YubikeyError, filter_connected, open_connection, disconnect_without_reset,
}
use remote_yubikey_manager.Age.Recipient.{Curve, Recipient, tag}
use remote_yubikey_manager.Age.Metadata.{X509, Metadata, extract}
use remote_yubikey_manager.Age.Connection.{Keys}
use remote_yubikey_manager.Age.Manage.{Key, Manager, list_compatible, try_as}
use remote_yubikey_manager.Age.Step.{Step, next, stopped, panicked, starved}
use remote_yubikey_manager.Age.Step
use remote_yubikey_manager.Age.Opening.{open_yubikey}

pub record PluginOptions : Type 0 where
  pub version : Bool
  pub age_plugin : Option Text
  pub force : Bool
  pub generate : Bool
  pub identity : Bool
  pub list : Bool
  pub list_all : Bool
  pub name : Option Text
  pub pin_policy : Option Text
  pub serial : Option ℕ
  pub slot : Option ℕ
  pub touch_policy : Option Text

pub record PluginFlags : Type 0 where
  pub serial : Option ℕ
  pub slot : Option RetiredSlotId
  pub name : Option Text
  pub pin_policy : Option PinPolicy
  pub touch_policy : Option TouchPolicy
  pub force : Bool

-- `map` and `transpose` of an option
abbrev pub transpose : {A B : Type 0} → (A → Outcome Error B) → Option A → Outcome Error (Option B)
transpose f none = ok none
transpose f (some a) = f a >>= λ b. ok (some b)

abbrev pub slot_outcome : Outcome SlotError RetiredSlotId → Outcome Error RetiredSlotId
slot_outcome (ok s) = ok s
slot_outcome (err (invalid_slot n)) = err (Error.invalid_slot n)
slot_outcome panic = panic

abbrev pub of_result : {A : Type 0} → Result Error A → Outcome Error A
of_result (Result.ok a) = ok a
of_result (Result.err e) = err e

unfoldable pub try_from : PluginOptions → Outcome Error PluginFlags
try_from opts = transpose (λ n. slot_outcome (ui_to_slot n)) opts.slot >>= λ slot.
    transpose (λ s. of_result (pin_policy_from_string s)) opts.pin_policy >>= λ pin_policy.
    transpose (λ s. of_result (touch_policy_from_string s)) opts.touch_policy >>= λ touch_policy.
    ok (record {
      serial = opts.serial;
      slot = slot;
      name = opts.name;
      pin_policy = pin_policy;
      touch_policy = touch_policy;
      force = opts.force;
    })

-- What the program goes on to do
pub data Command : Type 0 where
  run_state_machine : Text → Command
  print_version : Command
  run_generate : PluginFlags → Command
  print_details : PluginFlags → Bool → Command
  run_setup : PluginFlags → Command

abbrev pub count_true : List Bool → ℕ
count_true [] = 0
count_true (true ∷ bs) = suc (count_true bs)
count_true (false ∷ bs) = count_true bs

-- `identity` and `list`, up to the call of `print_details`
unfoldable pub check_identity : PluginFlags → Outcome Error Command
check_identity flags =
    if flags.force
    then err (invalid_flag_command (codes "--force") (codes "--identity"))
    else ok (print_details flags false)

abbrev pub is_some : {A : Type 0} → Option A → Bool
is_some none = false
is_some (some a) = true

unfoldable pub check_list : PluginFlags → Bool → Outcome Error Command
check_list flags all =
    if all && is_some flags.slot
    then err use_list_for_single_slot
    else if flags.force
    then err (
        invalid_flag_command (codes "--force")
          (codes "--list" ++ (if all then codes "-all" else [])))
    else ok (print_details flags all)

-- The part of `main` after the count of the commands, without an `--age-plugin`
unfoldable pub choose_command : PluginOptions → Outcome Error Command
choose_command opts =
    if opts.version
    then ok print_version
    else if opts.generate
    then (try_from opts >>= λ flags. ok (run_generate flags))
    else if opts.identity
    then try_from opts >>= check_identity
    else if opts.list
    then (try_from opts >>= λ flags. check_list flags false)
    else if opts.list_all
    then (try_from opts >>= λ flags. check_list flags true)
    else if opts.force
    then err (invalid_flag_tui (codes "--force"))
    else try_from opts >>= λ flags. ok (run_setup flags)

abbrev pub plugin_or : Option Text → Outcome Error Command → Outcome Error Command
plugin_or (some state_machine) other = ok (run_state_machine state_machine)
plugin_or none other = other

unfoldable pub dispatch : PluginOptions → Outcome Error Command
dispatch opts =
    if ltb 1 (count_true (opts.generate ∷ opts.identity ∷ opts.list ∷ opts.list_all ∷ []))
    then err multiple_commands
    else plugin_or opts.age_plugin (choose_command opts)
