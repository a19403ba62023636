-- ===== src/Age/Plugin/Wrap.antt =====
-- `RecipientPlugin::wrap_file_keys` of age-plugin-yubikey/src/plugin.rs: a stanza for each recipient, or
-- errors.
pub mod Everyone
pub mod Ending
use remote_yubikey_manager.Common.{ℕ, List, [], ◌∷◌, ◌++◌, Option, none, some}
use remote_yubikey_manager.Common.Bytes.{Bytes}
use remote_yubikey_manager.Common.Result.{Result, ok, err}
use remote_yubikey_manager.Age.Slots.{RetiredSlotId}
use remote_yubikey_manager.Age.Stub.{Slots, Stub}
use remote_yubikey_manager.Age.Stanza.{Base64, Stanza, RecipientLine, into_stanza}
use remote_yubikey_manager.Age.Yubikey.{Cards}
use remote_yubikey_manager.Age.Recipient.{Curve, Crypto, Recipient, wrap_file_key}
use remote_yubikey_manager.Age.Connection.{
  Callbacks, Keys, Connection, Attempt, connected, skipped, failed, broken, yk_opening, connect,
}
use remote_yubikey_manager.Age.Connection
use remote_yubikey_manager.Age.Connection.Session.{Session}
use remote_yubikey_manager.Age.Step.{
  Step, next, stopped, panicked, starved, ◌>>=◌, Holds, Holds->>=,
}
use remote_yubikey_manager.Age.Plugin.{RecipientError, identity, RecipientPlugin}

module _ {Point : Type 0} (k : Curve Point) (x : Crypto k) (c : Cards) (keys : Keys c Point)
    (cb : Callbacks c.World) where
  open c use {World, YubiKey}

  abbrev pub Wrapping : Type 0 → Type 0
  Wrapping A = Step cb.IoError A × World

  -- The recipients of the YubiKeys so far, and the errors
  abbrev pub Collected : Type 0
  Collected = List (Recipient k) × List RecipientError

  -- A connection is dropped once its recipient is known.
  abbrev pub on_connection :
      Stub RetiredSlotId
      → Collected
      → Option (Attempt cb.IoError (Session k c keys)) × World
      → Wrapping Collected
  on_connection stub a (none, w) = (starved, w)
  on_connection stub (pks, es) (some (connected conn), w) =
      (next (pks ++ (conn.pk ∷ []), es), c.reset conn.yubikey w)
  on_connection stub (pks, es) (some skipped, w) =
      (next (pks, es ++ (identity stub.identity_index (yk_opening stub.serial) ∷ [])), w)
  on_connection stub (pks, es) (some (failed (Connection.identity i e)), w) =
      (next (pks, es ++ (identity i e ∷ [])), w)
  on_connection stub a (some (failed (Connection.stanza e)), w) = (panicked, w)
  on_connection stub a (some (broken e), w) = (stopped e, w)

  module _ (fuel rounds : ℕ) where
    unfoldable pub collect : List (Stub RetiredSlotId) → Collected → World → Wrapping Collected
    collect [] a w = (next a, w)
    collect (stub ∷ stubs) a w =
        on_connection stub a (connect k c keys cb stub fuel rounds w) >>= λ a' w'.
        collect stubs a' w'

    -- `draw` is `EphemeralSecret::random`.
    module _ (b : Base64) (draw : World → x.EphemeralSecret × World) where
      abbrev pub on_line :
          (World → Wrapping (List Stanza))
          → Option (RecipientLine Point)
          → World
          → Wrapping (List Stanza)
      on_line later none w = (panicked, w)
      on_line later (some line) w =
          later w >>= λ ss w'. (next (into_stanza b k.points line ∷ ss), w')

      abbrev pub with_secret :
          (World → Wrapping (List Stanza))
          → Bytes
          → Recipient k
          → x.EphemeralSecret × World
          → Wrapping (List Stanza)
      with_secret later file_key pk (esk, w) = on_line later (wrap_file_key k x file_key pk esk) w

      -- The stanzas of a file key
      unfoldable pub wrap_for : Bytes → List (Recipient k) → World → Wrapping (List Stanza)
      wrap_for file_key [] w = (next [], w)
      wrap_for file_key (pk ∷ pks) w = with_secret (wrap_for file_key pks) file_key pk (draw w)

      unfoldable pub wrap_each :
          List Bytes → List (Recipient k) → World → Wrapping (List (List Stanza))
      wrap_each [] pks w = (next [], w)
      wrap_each (file_key ∷ file_keys) pks w = wrap_for file_key pks w >>= λ ss w'.
          wrap_each file_keys pks w' >>= λ rest w''. (next (ss ∷ rest), w'')

      abbrev pub finish :
          List Bytes
          → List (Recipient k)
          → Collected
          → World
          → Wrapping (Result (List RecipientError) (List (List Stanza)))
      finish file_keys recipients (pks, []) w =
          wrap_each file_keys (recipients ++ pks) w >>= λ sss w'. (next (ok sss), w')
      finish file_keys recipients (pks, e ∷ es) w = (next (err (e ∷ es)), w)

      module _ (slots : Slots RetiredSlotId) where
        unfoldable pub wrap_file_keys :
            List Bytes
            → RecipientPlugin k slots
            → World
            → Wrapping (Result (List RecipientError) (List (List Stanza)))
        wrap_file_keys file_keys p w =
            collect p.yubikeys ([], []) w >>= λ a w'. finish file_keys p.recipients a w'
