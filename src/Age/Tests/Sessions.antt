-- ===== src/Age/Tests/Sessions.antt =====
-- The theorems on a connection and on the plugin, at a YubiKey with the key 8.
use remote_yubikey_manager.Common.{ℕ, ◌≡◌, ◌≢◌, refl, [], ◌∷◌, List, none, some, replicate}
use remote_yubikey_manager.Common.Bytes.{Bytes}
use remote_yubikey_manager.Common.Outcome.{ok, panic}
use remote_yubikey_manager.Age.Slots.{r1}
use remote_yubikey_manager.Age.Stanza.{
  RecipientLine, IsLine, Stanza, into_stanza, from_stanza, piv_p256,
}
use remote_yubikey_manager.Age.Recipient.{wrap_file_key, tag, to_encoded}
use remote_yubikey_manager.Age.Connection.{Connection, connect}
use remote_yubikey_manager.Age.Connection.Connect.{Fits, connect-Fits}
use remote_yubikey_manager.Age.Connection.Session.{request_pin_if_necessary, unwrap_file_key}
use remote_yubikey_manager.Age.Connection.Unwrapping.{
  unwrap_file_key-wrap_file_key, unwrap_file_key-ne-panic,
}
use remote_yubikey_manager.Age.Connection.Verified.{Allows, request_pin_if_necessary-Allows}
use remote_yubikey_manager.Age.Metadata.{binary_name, policy_extension_oid}
use remote_yubikey_manager.Age.Step.{Holds}
use remote_yubikey_manager.Age.Plugin.{unwrap_file_keys, RecipientPlugin}
use remote_yubikey_manager.Age.Plugin.Visits.{Returned, Tried, unwrap_file_keys-Tried}
use remote_yubikey_manager.Age.Plugin.Answers.{IsAnswer, unwrap_file_keys-IsAnswer}
use remote_yubikey_manager.Age.Plugin.Wrap.{wrap_file_keys}
use remote_yubikey_manager.Age.Plugin.Wrap.Everyone.{ForEveryone, wrap_file_keys-ForEveryone}
use remote_yubikey_manager.Age.Tests.Crates.{
  written, padded, padded-IsBase64, points, points-IsPoints, curve, curve-IsCurve, crypto,
  crypto-IsCrypto, start, cards, Certificate, keys, client, x509, slot_numbers, stub_of, World,
}

abbrev pub file_key : Bytes
file_key = replicate 16 9

-- A connection to the YubiKey 7
abbrev connection : Connection curve cards Certificate
connection = record {
  yubikey = 7;
  cert = (8, written binary_name [] policy_extension_oid (2 ∷ 2 ∷ []));
  pk = 8;
  slot = r1;
  tag = 8 ∷ 0 ∷ 0 ∷ 0 ∷ [];
  identity_index = 2;
  cached_metadata = none;
  last_touch = none;
}

-- A line for the key 8
abbrev a_line : RecipientLine Bytes
a_line = record {
  line_tag = 8 ∷ 0 ∷ 0 ∷ 0 ∷ [];
  epk_bytes = 3 ∷ replicate 32 2;
  encrypted_file_key = replicate 32 9;
}

a_line-IsLine : IsLine padded points a_line
a_line-IsLine = record {
  line_tag_length = refl;
  epk_compressed = refl;
  epk_valid = refl;
  key_length = refl;
}

same_tag : connection.tag ≡ tag curve 8
unfolding tag to_encoded
same_tag = refl

connect-Fits_example :
    Fits curve cards keys client
      (stub_of 7)
      (connect curve cards keys client (stub_of 7) 1 16 start).0
connect-Fits_example = connect-Fits curve cards keys client (stub_of 7) 1 16 start

request_pin_if_necessary-Allows_example :
    Allows curve cards keys x509 client connection
      (request_pin_if_necessary curve cards keys x509 client 2 connection start)
request_pin_if_necessary-Allows_example =
    request_pin_if_necessary-Allows curve cards keys x509 client connection 2 start

unwrap_file_key-wrap_file_key_example :
    (line : RecipientLine Bytes) × (wrap_file_key curve crypto file_key 8 3 ≡ some line)
    × (from_stanza padded points (into_stanza padded points line) ≡ some (some line))
    × ((unwrap_file_key curve cards keys crypto connection line start).0 ≡ ok file_key)
unwrap_file_key-wrap_file_key_example =
    unwrap_file_key-wrap_file_key curve cards keys curve-IsCurve crypto crypto-IsCrypto file_key 3
      refl connection (λ w. refl) padded padded-IsBase64 points-IsPoints same_tag start

unwrap_file_key-ne-panic_example :
    (unwrap_file_key curve cards keys crypto connection a_line start).0 ≢ panic
unwrap_file_key-ne-panic_example =
    unwrap_file_key-ne-panic curve cards keys curve-IsCurve crypto crypto-IsCrypto connection a_line
      padded a_line-IsLine refl start

-- A file with a stanza for the key, and one with a stanza that is invalid as well
abbrev pub two_files : List (List Stanza)
two_files =
    (into_stanza padded points a_line ∷ [])
    ∷ (into_stanza padded points a_line
        ∷ record { stanza_tag = piv_p256; args = []; body = [] }
        ∷ [])
    ∷ []

unwrap_file_keys-IsAnswer_example :
    Holds (IsAnswer curve crypto cards keys client padded two_files) (
      unwrap_file_keys curve crypto cards keys x509 client 2 16 padded
        (stub_of 7 ∷ [])
        two_files
        start)
unwrap_file_keys-IsAnswer_example =
    unwrap_file_keys-IsAnswer curve crypto cards keys client padded two_files x509 curve-IsCurve
      crypto-IsCrypto padded-IsBase64 points-IsPoints (λ e w. tt) 2 16 (stub_of 7 ∷ []) start

unwrap_file_keys-Tried_example :
    Returned curve crypto cards keys x509 client 2 16
      (Tried curve crypto cards keys x509 client 2 16 padded
        (stub_of 5 ∷ stub_of 7 ∷ [])
        two_files
        start)
      (unwrap_file_keys curve crypto cards keys x509 client 2 16 padded
        (stub_of 5 ∷ stub_of 7 ∷ [])
        two_files
        start)
unwrap_file_keys-Tried_example =
    unwrap_file_keys-Tried curve crypto cards keys x509 client 2 16 padded
      (stub_of 5 ∷ stub_of 7 ∷ []) two_files start

abbrev pub a_plugin : RecipientPlugin curve slot_numbers
a_plugin = record { recipients = 4 ∷ []; yubikeys = stub_of 7 ∷ stub_of 5 ∷ [] }

abbrev pub draw : World → ℕ × World
draw w = (3, w)

wrap_file_keys-ForEveryone_example :
    Holds
      (ForEveryone curve crypto cards keys client 1 16 padded draw curve-IsCurve crypto-IsCrypto
        slot_numbers a_plugin
        (file_key ∷ []))
      (wrap_file_keys curve crypto cards keys client 1 16 padded draw slot_numbers
        (file_key ∷ [])
        a_plugin
        start)
wrap_file_keys-ForEveryone_example =
    wrap_file_keys-ForEveryone curve crypto cards keys client 1 16 padded draw curve-IsCurve
      crypto-IsCrypto slot_numbers a_plugin (file_key ∷ []) start (refl, tt)
