-- ===== src/Age/Error.antt =====
-- `Error` of age-plugin-yubikey/src/error.rs, without the text that it prints. The errors of other
-- crates but yubikey stand as numbers.
use remote_yubikey_manager.Common.{ℕ}
use remote_yubikey_manager.Common.Text.{Text}
use remote_yubikey_manager.Age.Slots.{RetiredSlotId}
use remote_yubikey_manager.Age.Yubikey.{YubikeyError}

pub data Error : Type 0 where
  custom_management_key : Error
  dialog : ℕ → Error
  invalid_flag_command : Text → Text → Error
  invalid_flag_tui invalid_pin_policy : Text → Error
  invalid_slot : ℕ → Error
  invalid_touch_policy : Text → Error
  io : ℕ → Error
  management_key_auth multiple_commands multiple_yubikeys : Error
  no_empty_slots no_matching_serial : ℕ → Error
  puk_locked : Error
  slot_has_no_identity slot_is_not_empty : RetiredSlotId → Error
  timed_out use_list_for_single_slot : Error
  wrong_puk : ℕ → Error
  yubikey : YubikeyError → Error
