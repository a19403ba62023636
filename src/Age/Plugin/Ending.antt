-- ===== src/Age/Plugin/Ending.antt =====
-- `IdentityPlugin::unwrap_file_keys` of age-plugin-yubikey/src/plugin.rs ends, for a person who does
-- not answer forever.
use remote_yubikey_manager.Common.{ℕ, suc, ◌≤◌, ◌<◌, ◌≢◌, List, [], ◌∷◌, Option, none, some, arith}
use remote_yubikey_manager.Common.Bytes.{Bytes}
use remote_yubikey_manager.Common.Dict.{Dict, get}
use remote_yubikey_manager.Common.Eq.{nat_eq}
use remote_yubikey_manager.Common.Result.{Result, ok, err}
use remote_yubikey_manager.Common.Outcome.{Outcome, panic}
use remote_yubikey_manager.Age.Slots.{RetiredSlotId}
use remote_yubikey_manager.Age.Stub.{Stub}
use remote_yubikey_manager.Age.Stanza.{Base64, RecipientLine, Stanza}
use remote_yubikey_manager.Age.Candidates.{FileResult, Search, candidates}
use remote_yubikey_manager.Age.Yubikey.{Cards, disconnect_without_reset}
use remote_yubikey_manager.Age.Recipient.{Curve, Crypto}
use remote_yubikey_manager.Age.Metadata.{X509}
use remote_yubikey_manager.Age.Connection.{
  Callbacks, Keys, Attempt, connected, skipped, failed, broken, stanza, PluginError, connect,
}
use remote_yubikey_manager.Age.Connection.Patience.{IsPatient, Ends, connect-Ends}
use remote_yubikey_manager.Age.Connection.Ending.{
  PinEnds, request_pin_if_necessary-PinEnds, unwrap_file_key_keeps,
}
use remote_yubikey_manager.Age.Connection.Session.{
  Session, Pinned, Unwrapped, request_pin_if_necessary, unwrap_file_key,
}
use remote_yubikey_manager.Age.Step.{
  Step, next, starved, Finishes, Finishes->>=, Finishes-ne-starved,
}
use remote_yubikey_manager.Age.Plugin.{
  FileKeys, Stubs, ranked, reported, on_unwrapped, try_lines, try_file, try_files, on_pinned,
  on_connected, try_yubikeys, on_candidates, unwrap_file_keys,
}

module _ {Point : Type 0} (k : Curve Point) (x : Crypto k) (c : Cards) (keys : Keys c Point)
    (x509 : X509) (cb : Callbacks c.World) (time patience : c.World → ℕ)
    (l : IsPatient k c keys cb time patience) where
  open c use {World, YubiKey}

  module _ (p : ℕ) where
    abbrev Calm : World → Type 0
    Calm w = patience w ≤ p

    reported-Finishes :
        (leave : World → World) (o : Result cb.IoError (Result PluginError (Unit {0})) × World)
        → patience o.1 ≤ p
        → Finishes Calm (reported k x c keys x509 cb leave o)
    reported-Finishes leave (err e, w) h = tt
    reported-Finishes leave (ok (err e), w) h = tt
    reported-Finishes leave (ok (ok u), w) h = h

    module _ (file : ℕ) (file_keys : FileKeys) where
      abbrev Tried : Type 0
      Tried = Step cb.IoError (FileKeys × Session k c keys) × World

      on_unwrapped-Finishes :
          (index : ℕ) (later : Session k c keys → World → Tried) (o : Unwrapped k c keys x)
          → patience o.2 ≤ p
          → ((conn : Session k c keys) (w : World) → patience w ≤ p → Finishes Calm (later conn w))
          → Finishes Calm (on_unwrapped k x c keys x509 cb file file_keys index later o)
      on_unwrapped-Finishes index later (Outcome.ok key, conn, w) h f = h
      on_unwrapped-Finishes index later (Outcome.err u, conn, w) h f =
          let e = stanza (record { file_index = file; stanza_index = index }) in
          Finishes->>= Calm Calm (reported k x c keys x509 cb (c.reset conn.yubikey) (cb.error e w))
            (λ _ w'. later conn w')
            (reported-Finishes (c.reset conn.yubikey) (cb.error e w)
              (omega (arith, l.error_keeps e w)))
            (λ _ w' h'. f conn w' h')
      on_unwrapped-Finishes index later (panic, conn, w) h f = tt

      try_lines-Finishes :
          (index : ℕ) (lines : List (RecipientLine Point)) (conn : Session k c keys) (w : World)
          → patience w ≤ p
          → Finishes Calm (try_lines k x c keys x509 cb file file_keys index lines conn w)
      unfolding try_lines
      try_lines-Finishes index [] conn w h = h
      try_lines-Finishes index (line ∷ lines) conn w h =
          on_unwrapped-Finishes index
            (try_lines k x c keys x509 cb file file_keys (suc index) lines)
            (unwrap_file_key k c keys x conn line w)
            (unwrap_file_key_keeps k c keys cb time patience l p x conn line w h)
            (try_lines-Finishes (suc index) lines)

    try_file-Finishes :
        (file : ℕ) (lines : List (RecipientLine Point)) (r : Option (FileResult Bytes))
        (file_keys : FileKeys) (conn : Session k c keys) (w : World)
        → patience w ≤ p
        → Finishes Calm (try_file k x c keys x509 cb file lines r file_keys conn w)
    unfolding try_file
    try_file-Finishes file lines (some r) file_keys conn w h = h
    try_file-Finishes file lines none file_keys conn w h =
        try_lines-Finishes file file_keys 0 lines conn w h

    try_files-Finishes :
        (files : Dict ℕ (List (RecipientLine Point))) (file_keys : FileKeys)
        (conn : Session k c keys) (w : World)
        → patience w ≤ p
        → Finishes Calm (try_files k x c keys x509 cb files file_keys conn w)
    unfolding try_files
    try_files-Finishes [] file_keys conn w h = h
    try_files-Finishes ((file, lines) ∷ files) file_keys conn w h =
        Finishes->>= Calm Calm
          (try_file k x c keys x509 cb file lines (get file file_keys) file_keys conn w)
          (λ r w'. try_files k x c keys x509 cb files r.0 r.1 w')
          (try_file-Finishes file lines (get file file_keys) file_keys conn w h)
          (λ r w' h'. try_files-Finishes files r.0 r.1 w' h')

    module _ (fuel : ℕ) (enough : p < fuel) where
      on_pinned-Finishes :
          (files : Dict ℕ (List (RecipientLine Point))) (file_keys : FileKeys)
          (o : Pinned k c keys x509 cb)
          → PinEnds k c keys cb time patience l x509 p o
          → Finishes Calm (on_pinned k x c keys x509 cb fuel 16 files file_keys o)
      unfolding disconnect_without_reset
      on_pinned-Finishes files file_keys (none, conn, w) h = h
      on_pinned-Finishes files file_keys (some (err e), conn, w) h = tt
      on_pinned-Finishes files file_keys (some (ok (err e)), conn, w) h =
          Finishes->>= Calm Calm (reported k x c keys x509 cb (c.reset conn.yubikey) (cb.error e w))
            (λ _ w'. (next file_keys, c.reset conn.yubikey w'))
            (reported-Finishes (c.reset conn.yubikey) (cb.error e w)
              (omega (arith, l.error_keeps e w)))
            (λ _ w' h'. omega (arith, l.reset_keeps conn.yubikey w'))
      on_pinned-Finishes files file_keys (some (ok (ok u)), conn, w) h =
          Finishes->>= Calm Calm (try_files k x c keys x509 cb files file_keys conn w)
            (λ r w'. (next r.0, disconnect_without_reset c r.1.yubikey w'))
            (try_files-Finishes files file_keys conn w h)
            (λ r w' h'. (l.cards_keep p).disconnect_counts 0 r.1.yubikey w' h')

      on_connected-Finishes :
          (files : Dict ℕ (List (RecipientLine Point))) (file_keys : FileKeys)
          (o : Option (Attempt cb.IoError (Session k c keys)) × World)
          → Ends k c keys cb time patience p o
          → Finishes Calm (on_connected k x c keys x509 cb fuel 16 files file_keys o)
      on_connected-Finishes files file_keys (none, w) h = h
      on_connected-Finishes files file_keys (some skipped, w) h = h
      on_connected-Finishes files file_keys (some (broken e), w) h = tt
      on_connected-Finishes files file_keys (some (failed e), w) h =
          Finishes->>= Calm Calm (reported k x c keys x509 cb (λ w'. w') (cb.error e w))
            (λ _ w'. (next file_keys, w'))
            (reported-Finishes (λ w'. w') (cb.error e w) (omega (arith, l.error_keeps e w)))
            (λ _ w' h'. h')
      on_connected-Finishes files file_keys (some (connected conn), w) h =
          on_pinned-Finishes files file_keys (request_pin_if_necessary k c keys x509 cb fuel conn w)
            (request_pin_if_necessary-PinEnds k c keys cb time patience l x509 fuel p enough conn w
              h)

      try_yubikeys-Finishes :
          (stubs : List (Stub RetiredSlotId × Dict ℕ (List (RecipientLine Point))))
          (file_keys : FileKeys) (w : World)
          → patience w ≤ p
          → Finishes Calm (try_yubikeys k x c keys x509 cb fuel 16 stubs file_keys w)
      unfolding try_yubikeys
      try_yubikeys-Finishes [] file_keys w h = h
      try_yubikeys-Finishes ((stub, files) ∷ rest) file_keys w h =
          Finishes->>= Calm Calm
            (on_connected k x c keys x509 cb fuel 16 files file_keys
              (connect k c keys cb stub fuel 16 w))
            (λ file_keys' w'. try_yubikeys k x c keys x509 cb fuel 16 rest file_keys' w')
            (on_connected-Finishes files file_keys (connect k c keys cb stub fuel 16 w)
              (connect-Ends k c keys cb time patience l stub fuel p w h enough))
            (λ file_keys' w' h'. try_yubikeys-Finishes rest file_keys' w' h')

      on_candidates-Finishes :
          (o : Option (Search RetiredSlotId Point Bytes)) (w : World)
          → patience w ≤ p
          → Finishes Calm (on_candidates k x c keys x509 cb fuel 16 o w)
      on_candidates-Finishes none w h = tt
      on_candidates-Finishes (some st) w h =
          try_yubikeys-Finishes (ranked st.candidate_stanzas) st.file_keys w h

  -- With a clock that is not set back and a person who confirms and enters secrets only so often,
  -- the call ends: its fuel does not run out, if it is more than how often that is, with 16 rounds
  -- for the wait for a YubiKey.
  pub unwrap_file_keys_ends :
      (fuel : ℕ) (b : Base64) (yubikeys : Stubs) (files : List (List Stanza)) (w : World)
      → patience w < fuel
      → (unwrap_file_keys k x c keys x509 cb fuel 16 b yubikeys files w).0 ≢ starved
  unfolding unwrap_file_keys
  unwrap_file_keys_ends fuel b yubikeys files w h =
      let o = candidates b k.points yubikeys files in
      Finishes-ne-starved (λ w'. patience w' ≤ patience w)
        (on_candidates k x c keys x509 cb fuel 16 o w)
        (on_candidates-Finishes (patience w) fuel h o w (omega arith))
