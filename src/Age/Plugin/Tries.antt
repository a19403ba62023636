-- ===== src/Age/Plugin/Tries.antt =====
-- The loop over the YubiKeys in `IdentityPlugin::unwrap_file_keys` of age-plugin-yubikey/src/plugin.rs.
use remote_yubikey_manager.Common.{ℕ, suc, ◌≡◌, refl, ◌∙◌, List, [], ◌∷◌, Option, none, some, All}
use remote_yubikey_manager.Common.Bytes.{Bytes}
use remote_yubikey_manager.Common.Dict.{Dict, get}
use remote_yubikey_manager.Common.Eq.{nat_eq}
use remote_yubikey_manager.Common.Result.{Result, ok, err}
use remote_yubikey_manager.Common.Outcome.{Outcome, panic}
use remote_yubikey_manager.Age.Slots.{RetiredSlotId}
use remote_yubikey_manager.Age.Stub.{Stub}
use remote_yubikey_manager.Age.Stanza.{Base64, RecipientLine, IsLine}
use remote_yubikey_manager.Age.Candidates.{FileResult}
use remote_yubikey_manager.Age.Candidates.Lines.{Lines, Each}
use remote_yubikey_manager.Age.Yubikey.{Cards, disconnect_without_reset}
use remote_yubikey_manager.Age.Recipient.{Curve, IsCurve, Crypto, IsCrypto}
use remote_yubikey_manager.Age.Metadata.{X509}
use remote_yubikey_manager.Age.Connection.{
  Callbacks, Keys, Attempt, connected, skipped, failed, broken, IdentityError, stanza, PluginError,
  connect,
}
use remote_yubikey_manager.Age.Connection.Connect.{IsFor, Fits, connect-Fits}
use remote_yubikey_manager.Age.Connection.Session.{
  Session, Pinned, Unwrapped, request_pin_if_necessary, unwrap_file_key,
}
use remote_yubikey_manager.Age.Connection.Unwrapping.{unwrap_file_key-ne-panic}
use remote_yubikey_manager.Age.Connection.Kept.{
  unwrap_file_key-IsFor, request_pin_if_necessary-IsFor,
}
use remote_yubikey_manager.Age.Plugin.Growth.{Grown, Grown-same, Grown-then, Grown-or_insert}
use remote_yubikey_manager.Age.Step.{Step, next, stopped, panicked, starved, Holds, Holds->>=}
use remote_yubikey_manager.Age.Plugin.{
  FileKeys, reported, on_unwrapped, try_lines, try_file, try_files, on_pinned, on_connected,
  try_yubikeys,
}

module _ {Point : Type 0} (k : Curve Point) (x : Crypto k) (c : Cards) (keys : Keys c Point)
    (cb : Callbacks c.World) where
  open c use {World, YubiKey}

  -- The client acknowledges an error that it is sent.
  abbrev pub Acknowledged : Result cb.IoError (Result PluginError (Unit {0})) → Type 0
  Acknowledged (err e) = Unit {0}
  Acknowledged (ok (err e)) = ⊥
  Acknowledged (ok (ok _)) = Unit {0}

  module _ (x509 : X509) (P : Stub RetiredSlotId → ℕ → RecipientLine Point → Type 0) (b : Base64)
      (l : IsCurve k) (m : IsCrypto x)
      (fits : (stub : Stub RetiredSlotId) (file : ℕ) (line : RecipientLine Point)
        → P stub file line
        → IsLine b k.points line × (stub.tag ≡ line.line_tag))
      (acknowledges : (e : IdentityError) (w : World) → Acknowledged (cb.error e w).0) where
    reported-Holds :
        (leave : World → World) (o : Result cb.IoError (Result PluginError (Unit {0})) × World)
        → Acknowledged o.0
        → Holds (λ _. Unit {0}) (reported k x c keys x509 cb leave o)
    reported-Holds leave (err e, w) h = tt
    reported-Holds leave (ok (err e), w) h = h
    reported-Holds leave (ok (ok u), w) h = tt

    module _ (stub : Stub RetiredSlotId) where
      abbrev pub GoesOn : FileKeys → FileKeys × Session k c keys → Type 0
      GoesOn before (after, conn) = Grown k x c keys cb P before after × IsFor k c keys cb stub conn

      try_lines-Holds :
          (file : ℕ) (a : FileKeys) (index : ℕ) (lines : List (RecipientLine Point))
          (conn : Session k c keys) (w : World)
          → All (P stub file) lines
          → IsFor k c keys cb stub conn
          → Holds (GoesOn a) (try_lines k x c keys x509 cb file a index lines conn w)
      unfolding try_lines
      try_lines-Holds file a index [] conn w h f = (Grown-same k x c keys cb P a, f)
      try_lines-Holds file a index (line ∷ lines) conn w h f =
          unwrapped_by (unwrap_file_key k c keys x conn line w) refl
            (unwrap_file_key-IsFor k c keys cb stub x conn line f w)
            (λ conn' w' f'. try_lines-Holds file a (suc index) lines conn' w' h.1 f')
        where
          unwrapped_by :
              (o : Unwrapped k c keys x)
              → unwrap_file_key k c keys x conn line w ≡ o
              → IsFor k c keys cb stub o.1
              → ((conn' : Session k c keys) (w' : World)
                  → IsFor k c keys cb stub conn'
                  → Holds
                      (GoesOn a)
                      (try_lines k x c keys x509 cb file a (suc index) lines conn' w'))
              → Holds (GoesOn a) (
                  on_unwrapped k x c keys x509 cb file a index
                    (try_lines k x c keys x509 cb file a (suc index) lines)
                    o)
          unwrapped_by (Outcome.ok key, conn', w') e f' ih = (
            Grown-or_insert k x c keys cb P file key (get file a) a refl (record {
              stub = stub;
              line = line;
              conn = conn;
              world = w;
              candidate = h.0;
              belongs = f;
              opens = rw e refl;
            }),
            f',
          )
          unwrapped_by (Outcome.err u, conn', w') e f' ih =
              Holds->>= (λ _. Unit {0}) (GoesOn a)
                (reported k x c keys x509 cb (c.reset conn'.yubikey)
                  (cb.error (stanza (record { file_index = file; stanza_index = index })) w'))
                (λ _ w''. try_lines k x c keys x509 cb file a (suc index) lines conn' w'')
                (reported-Holds (c.reset conn'.yubikey)
                  (cb.error (stanza (record { file_index = file; stanza_index = index })) w')
                  (acknowledges (stanza (record { file_index = file; stanza_index = index })) w'))
                (λ _ w'' _. ih conn' w'' f')
          unwrapped_by (panic, conn', w') e f' ih =
              unwrap_file_key-ne-panic k c keys l x m conn line b (fits stub file line h.0).0
                (f.tag_agrees ∙ (fits stub file line h.0).1) w (rw e refl)

      try_file-Holds :
          (file : ℕ) (lines : List (RecipientLine Point)) (o : Option (FileResult Bytes))
          (a : FileKeys) (conn : Session k c keys) (w : World)
          → All (P stub file) lines
          → IsFor k c keys cb stub conn
          → Holds (GoesOn a) (try_file k x c keys x509 cb file lines o a conn w)
      unfolding try_file
      try_file-Holds file lines (some r) a conn w h f = (Grown-same k x c keys cb P a, f)
      try_file-Holds file lines none a conn w h f = try_lines-Holds file a 0 lines conn w h f

      try_files-Holds :
          (files : Dict ℕ (List (RecipientLine Point))) (a : FileKeys) (conn : Session k c keys)
          (w : World)
          → Each (λ file lines. All (P stub file) lines) files
          → IsFor k c keys cb stub conn
          → Holds (GoesOn a) (try_files k x c keys x509 cb files a conn w)
      unfolding try_files
      try_files-Holds [] a conn w h f = (Grown-same k x c keys cb P a, f)
      try_files-Holds ((file, lines) ∷ files) a conn w h f =
          Holds->>= (GoesOn a) (GoesOn a)
            (try_file k x c keys x509 cb file lines (get file a) a conn w)
            (λ r w'. try_files k x c keys x509 cb files r.0 r.1 w')
            (try_file-Holds file lines (get file a) a conn w h.0 f)
            (λ r w' g.
              widened r.0 (try_files k x c keys x509 cb files r.0 r.1 w') g.0
                (try_files-Holds files r.0 r.1 w' h.1 g.1))
        where
          widened :
              (a' : FileKeys) (o : Step cb.IoError (FileKeys × Session k c keys) × World)
              → Grown k x c keys cb P a a'
              → Holds (GoesOn a') o
              → Holds (GoesOn a) o
          widened a' (next (a'', conn'), w') g q = (Grown-then k x c keys cb P a a' a'' g q.0, q.1)
          widened a' (stopped e, w') g q = tt
          widened a' (panicked, w') g q = q
          widened a' (starved, w') g q = tt

      module _ (fuel rounds : ℕ) (files : Dict ℕ (List (RecipientLine Point))) (a : FileKeys)
          (each : Each (λ file lines. All (P stub file) lines) files) where
        on_pinned-Holds :
            (o : Pinned k c keys x509 cb)
            → IsFor k c keys cb stub o.1
            → Holds (Grown k x c keys cb P a) (on_pinned k x c keys x509 cb fuel rounds files a o)
        on_pinned-Holds (none, conn, w) f = tt
        on_pinned-Holds (some (err e), conn, w) f = tt
        on_pinned-Holds (some (ok (err e)), conn, w) f =
            Holds->>= (λ _. Unit {0}) (Grown k x c keys cb P a)
              (reported k x c keys x509 cb (c.reset conn.yubikey) (cb.error e w))
              (λ _ w'. (next a, c.reset conn.yubikey w'))
              (reported-Holds (c.reset conn.yubikey) (cb.error e w) (acknowledges e w))
              (λ _ w' _. Grown-same k x c keys cb P a)
        on_pinned-Holds (some (ok (ok u)), conn, w) f =
            Holds->>= (GoesOn a) (Grown k x c keys cb P a)
              (try_files k x c keys x509 cb files a conn w)
              (λ r w'. (next r.0, disconnect_without_reset c r.1.yubikey w'))
              (try_files-Holds files a conn w each f) (λ r w' g. g.0)

        on_connected-Holds :
            (o : Option (Attempt cb.IoError (Session k c keys)) × World)
            → Fits k c keys cb stub o.0
            → Holds
                (Grown k x c keys cb P a)
                (on_connected k x c keys x509 cb fuel rounds files a o)
        on_connected-Holds (none, w) f = tt
        on_connected-Holds (some skipped, w) f = Grown-same k x c keys cb P a
        on_connected-Holds (some (broken e), w) f = tt
        on_connected-Holds (some (failed e), w) f =
            Holds->>= (λ _. Unit {0}) (Grown k x c keys cb P a)
              (reported k x c keys x509 cb (λ w'. w') (cb.error e w)) (λ _ w'. (next a, w'))
              (reported-Holds (λ w'. w') (cb.error e w) (acknowledges e w))
              (λ _ w' _. Grown-same k x c keys cb P a)
        on_connected-Holds (some (connected conn), w) f =
            on_pinned-Holds (request_pin_if_necessary k c keys x509 cb fuel conn w)
              (request_pin_if_necessary-IsFor k c keys cb stub x509 fuel conn w f)

    -- The loop does not panic; it changes no result that a file has, and gives a key only to a file one
    -- of whose candidate lines was unwrapped to it.
    pub try_yubikeys-Holds :
        (fuel rounds : ℕ) (cs : List (Stub RetiredSlotId × Dict ℕ (List (RecipientLine Point))))
        (a : FileKeys) (w : World)
        → Lines P cs
        → Holds (Grown k x c keys cb P a) (try_yubikeys k x c keys x509 cb fuel rounds cs a w)
    unfolding try_yubikeys
    try_yubikeys-Holds fuel rounds [] a w h = Grown-same k x c keys cb P a
    try_yubikeys-Holds fuel rounds ((stub, files) ∷ rest) a w h =
        Holds->>= (Grown k x c keys cb P a) (Grown k x c keys cb P a)
          (on_connected k x c keys x509 cb fuel rounds files a
            (connect k c keys cb stub fuel rounds w))
          (λ a' w'. try_yubikeys k x c keys x509 cb fuel rounds rest a' w')
          (on_connected-Holds stub fuel rounds files a h.0 (connect k c keys cb stub fuel rounds w)
            (connect-Fits k c keys cb stub fuel rounds w))
          (λ a' w' g.
            widened a' (try_yubikeys k x c keys x509 cb fuel rounds rest a' w') g
              (try_yubikeys-Holds fuel rounds rest a' w' h.1))
      where
        widened :
            (a' : FileKeys) (o : Step cb.IoError FileKeys × World)
            → Grown k x c keys cb P a a'
            → Holds (Grown k x c keys cb P a') o
            → Holds (Grown k x c keys cb P a) o
        widened a' (next a'', w') g q = Grown-then k x c keys cb P a a' a'' g q
        widened a' (stopped e, w') g q = tt
        widened a' (panicked, w') g q = q
        widened a' (starved, w') g q = tt
