-- ===== src/Age/Plugin/Wrap/Ending.antt =====
-- `RecipientPlugin::wrap_file_keys` of age-plugin-yubikey/src/plugin.rs ends, for a person who does not
-- answer forever.
use remote_yubikey_manager.Common.{ℕ, ◌≤◌, ◌<◌, ◌≢◌, List, [], ◌∷◌, ◌++◌, Option, none, some, arith}
use remote_yubikey_manager.Common.Bytes.{Bytes}
use remote_yubikey_manager.Age.Slots.{RetiredSlotId}
use remote_yubikey_manager.Age.Stub.{Slots, Stub}
use remote_yubikey_manager.Age.Stanza.{Base64, Stanza, RecipientLine, into_stanza}
use remote_yubikey_manager.Age.Yubikey.{Cards}
use remote_yubikey_manager.Age.Recipient.{Curve, Crypto, Recipient, wrap_file_key}
use remote_yubikey_manager.Age.Connection.{
  Callbacks, Keys, Attempt, connected, skipped, failed, broken, connect,
}
use remote_yubikey_manager.Age.Connection
use remote_yubikey_manager.Age.Connection.Session.{Session}
use remote_yubikey_manager.Age.Connection.Patience.{IsPatient, Ends, connect-Ends}
use remote_yubikey_manager.Age.Step.{
  next, starved, ◌>>=◌, Finishes, Finishes->>=, Finishes-ne-starved,
}
use remote_yubikey_manager.Age.Plugin.{RecipientPlugin}
use remote_yubikey_manager.Age.Plugin.Wrap.{
  Wrapping, Collected, on_connection, collect, on_line, wrap_for, wrap_each, finish, wrap_file_keys,
}

module _ {Point : Type 0} (k : Curve Point) (x : Crypto k) (c : Cards) (keys : Keys c Point)
    (cb : Callbacks c.World) (time patience : c.World → ℕ)
    (l : IsPatient k c keys cb time patience) where
  open c use {World, YubiKey}

  module _ (p : ℕ) where
    abbrev Calm : World → Type 0
    Calm w = patience w ≤ p

    on_connection-Finishes :
        (stub : Stub RetiredSlotId) (a : Collected k x c keys cb)
        (o : Option (Attempt cb.IoError (Session k c keys)) × World)
        → Ends k c keys cb time patience p o
        → Finishes Calm (on_connection k x c keys cb stub a o)
    on_connection-Finishes stub a (none, w) h = h
    on_connection-Finishes stub (pks, es) (some (connected conn), w) h =
        omega (arith, l.reset_keeps conn.yubikey w)
    on_connection-Finishes stub (pks, es) (some skipped, w) h = h
    on_connection-Finishes stub (pks, es) (some (failed (Connection.identity i e)), w) h = h
    on_connection-Finishes stub a (some (failed (Connection.stanza e)), w) h = tt
    on_connection-Finishes stub a (some (broken e), w) h = tt

    collect-Finishes :
        (fuel : ℕ) (stubs : List (Stub RetiredSlotId)) (a : Collected k x c keys cb) (w : World)
        → p < fuel
        → patience w ≤ p
        → Finishes Calm (collect k x c keys cb fuel 16 stubs a w)
    unfolding collect
    collect-Finishes fuel [] a w enough h = h
    collect-Finishes fuel (stub ∷ stubs) a w enough h =
        Finishes->>= Calm Calm
          (on_connection k x c keys cb stub a (connect k c keys cb stub fuel 16 w))
          (λ a' w'. collect k x c keys cb fuel 16 stubs a' w')
          (on_connection-Finishes stub a (connect k c keys cb stub fuel 16 w)
            (connect-Ends k c keys cb time patience l stub fuel p w h enough))
          (λ a' w' h'. collect-Finishes fuel stubs a' w' enough h')

    module _ (fuel : ℕ) (b : Base64) (draw : World → x.EphemeralSecret × World)
        (draw_keeps : (w : World) → patience (draw w).1 ≤ patience w) where
      on_line-Finishes :
          (later : World → Wrapping k x c keys cb (List Stanza))
          (line : Option (RecipientLine Point)) (w : World)
          → patience w ≤ p
          → ((w' : World) → patience w' ≤ p → Finishes Calm (later w'))
          → Finishes Calm (on_line k x c keys cb fuel 16 b draw later line w)
      on_line-Finishes later none w h f = tt
      on_line-Finishes later (some line) w h f =
          Finishes->>= Calm Calm (later w) (λ ss w'. (next (into_stanza b k.points line ∷ ss), w'))
            (f w h) (λ ss w' h'. h')

      wrap_for-Finishes :
          (file_key : Bytes) (pks : List (Recipient k)) (w : World)
          → patience w ≤ p
          → Finishes Calm (wrap_for k x c keys cb fuel 16 b draw file_key pks w)
      unfolding wrap_for
      wrap_for-Finishes file_key [] w h = h
      wrap_for-Finishes file_key (pk ∷ pks) w h =
          on_line-Finishes (wrap_for k x c keys cb fuel 16 b draw file_key pks)
            (wrap_file_key k x file_key pk (draw w).0) (draw w).1 (omega (arith, draw_keeps w))
            (wrap_for-Finishes file_key pks)

      wrap_each-Finishes :
          (file_keys : List Bytes) (pks : List (Recipient k)) (w : World)
          → patience w ≤ p
          → Finishes Calm (wrap_each k x c keys cb fuel 16 b draw file_keys pks w)
      unfolding wrap_each
      wrap_each-Finishes [] pks w h = h
      wrap_each-Finishes (file_key ∷ file_keys) pks w h =
          Finishes->>= Calm Calm (wrap_for k x c keys cb fuel 16 b draw file_key pks w) _
            (wrap_for-Finishes file_key pks w h)
            (λ ss w' h'.
              Finishes->>= Calm Calm (wrap_each k x c keys cb fuel 16 b draw file_keys pks w') _
                (wrap_each-Finishes file_keys pks w' h') (λ rest w'' h''. h''))

      finish-Finishes :
          (file_keys : List Bytes) (recipients : List (Recipient k)) (a : Collected k x c keys cb)
          (w : World)
          → patience w ≤ p
          → Finishes Calm (finish k x c keys cb fuel 16 b draw file_keys recipients a w)
      finish-Finishes file_keys recipients (pks, []) w h =
          Finishes->>= Calm Calm
            (wrap_each k x c keys cb fuel 16 b draw file_keys (recipients ++ pks) w) _
            (wrap_each-Finishes file_keys (recipients ++ pks) w h) (λ sss w' h'. h')
      finish-Finishes file_keys recipients (pks, e ∷ es) w h = h

  module _ (b : Base64) (draw : World → x.EphemeralSecret × World)
      (draw_keeps : (w : World) → patience (draw w).1 ≤ patience w)
      (slots : Slots RetiredSlotId) where
    -- With a clock that is not set back and a person who confirms only so often, the call ends: its
    -- fuel does not run out, if it is more than how often that is, with 16 rounds for the wait for a
    -- YubiKey.
    pub wrap_file_keys_ends :
        (fuel : ℕ) (file_keys : List Bytes) (plugin : RecipientPlugin k slots) (w : World)
        → patience w < fuel
        → (wrap_file_keys k x c keys cb fuel 16 b draw slots file_keys plugin w).0 ≢ starved
    unfolding wrap_file_keys
    wrap_file_keys_ends fuel file_keys plugin w h =
        let p = patience w in
        Finishes-ne-starved (Calm p)
          (collect k x c keys cb fuel 16 plugin.yubikeys ([], []) w >>= λ a w'.
            finish k x c keys cb fuel 16 b draw file_keys plugin.recipients a w')
          (Finishes->>= (Calm p) (Calm p) (collect k x c keys cb fuel 16 plugin.yubikeys ([], []) w)
            (λ a w'. finish k x c keys cb fuel 16 b draw file_keys plugin.recipients a w')
            (collect-Finishes p fuel plugin.yubikeys ([], []) w h (omega arith))
            (λ a w' h'.
              finish-Finishes p fuel b draw draw_keeps file_keys plugin.recipients a w' h'))
