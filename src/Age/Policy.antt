-- ===== src/Age/Policy.antt =====
-- The PIN and touch policies by name, in age-plugin-yubikey/src/util.rs.
use remote_yubikey_manager.Common.{Option, none, some, if◌then◌else◌}
use remote_yubikey_manager.Common.Eq.{nat_eq, list_beq}
use remote_yubikey_manager.Common.Text.{Text, codes}
use remote_yubikey_manager.Common.Result.{Result, ok, err}
use remote_yubikey_manager.Age.Error.{Error, invalid_pin_policy, invalid_touch_policy}

-- `PinPolicy` and `TouchPolicy` of the yubikey crate
pub data PinPolicy : Type 0 where
  default never once always : PinPolicy

pub data TouchPolicy : Type 0 where
  default never always cached : TouchPolicy

unfoldable pub pin_policy_from_string : Text → Result Error PinPolicy
pin_policy_from_string s =
    if list_beq s (codes "always")
    then ok PinPolicy.always
    else if list_beq s (codes "once")
    then ok PinPolicy.once
    else if list_beq s (codes "never")
    then ok PinPolicy.never
    else err (invalid_pin_policy s)

unfoldable pub touch_policy_from_string : Text → Result Error TouchPolicy
touch_policy_from_string s =
    if list_beq s (codes "always")
    then ok TouchPolicy.always
    else if list_beq s (codes "cached")
    then ok TouchPolicy.cached
    else if list_beq s (codes "never")
    then ok TouchPolicy.never
    else err (invalid_touch_policy s)

-- The name of the translated text
unfoldable pub pin_policy_to_str : Option PinPolicy → Text
pin_policy_to_str (some PinPolicy.always) = codes "pin-policy-always"
pin_policy_to_str (some PinPolicy.once) = codes "pin-policy-once"
pin_policy_to_str (some PinPolicy.never) = codes "pin-policy-never"
pin_policy_to_str (some PinPolicy.default) = codes "unknown-policy"
pin_policy_to_str none = codes "unknown-policy"

unfoldable pub touch_policy_to_str : Option TouchPolicy → Text
touch_policy_to_str (some TouchPolicy.always) = codes "touch-policy-always"
touch_policy_to_str (some TouchPolicy.cached) = codes "touch-policy-cached"
touch_policy_to_str (some TouchPolicy.never) = codes "touch-policy-never"
touch_policy_to_str (some TouchPolicy.default) = codes "unknown-policy"
touch_policy_to_str none = codes "unknown-policy"
