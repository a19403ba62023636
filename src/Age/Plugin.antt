-- ===== src/Age/Plugin.antt =====
-- `RecipientPlugin` and `IdentityPlugin` of age-plugin-yubikey/src/plugin.rs. The search for candidate
-- stanzas, which opens `IdentityPlugin::unwrap_file_keys`, is in the module Candidates.
pub mod Order
pub mod Visits
pub mod Growth
pub mod Tries
pub mod Answers
pub mod Ending
pub mod Wrap
use mathlib.Core.List.{reverse, filter}
use native.Mathlib.Decide.{dec_lt}
use remote_yubikey_manager.Common.{
  ℕ, zero, suc, ◌+◌, Bool, true, false, List, [], ◌∷◌, ◌++◌, Option, none, some, leb, ◌==◌, length,
  if◌then◌else◌,
}
use remote_yubikey_manager.Common.Bytes.{Bytes}
use remote_yubikey_manager.Common.Dict.{Dict, get, insert}
use remote_yubikey_manager.Common.Eq.{nat_eq, list_beq}
use remote_yubikey_manager.Common.Text.{Text, codes}
use remote_yubikey_manager.Common.Result.{Result, ok, err}
use remote_yubikey_manager.Common.Outcome.{Outcome, panic}
use remote_yubikey_manager.Common.Outcome
use remote_yubikey_manager.Age.Slots.{RetiredSlotId}
use remote_yubikey_manager.Age.Stub.{Slots, Stub, stub_from_bytes}
use remote_yubikey_manager.Age.Stanza.{Base64, Stanza, RecipientLine, into_stanza}
use remote_yubikey_manager.Age.Candidates.{
  StanzaError, FileResult, errors, unwrapped, Candidates, Search, candidates,
}
use remote_yubikey_manager.Age.Step.{Step, next, stopped, panicked, starved, ◌>>=◌}
use remote_yubikey_manager.Age.Yubikey.{Cards, disconnect_without_reset}
use remote_yubikey_manager.Age.Recipient.{
  Curve, Crypto, Recipient, recipient_from_bytes, wrap_file_key,
}
use remote_yubikey_manager.Age.Metadata.{X509}
use remote_yubikey_manager.Age.Connection.{
  Callbacks, Keys, Connection, Attempt, connected, skipped, failed, broken, IdentityError,
  PluginError, ErrorMessage, yk_opening, invalid_identity, invalid_recipient, Connecting, connect,
}
use remote_yubikey_manager.Age.Connection
use remote_yubikey_manager.Age.Connection.Session.{
  Session, Pinned, request_pin_if_necessary, Unwrapped, unwrap_file_key,
}

abbrev pub plugin_name : Text
plugin_name = codes "yubikey"

-- `recipient::Error` of age-plugin
pub data RecipientError : Type 0 where
  recipient identity : ℕ → ErrorMessage → RecipientError

module _ {Point : Type 0} (k : Curve Point) (slots : Slots RetiredSlotId) where
  pub record RecipientPlugin : Type 0 where
    pub recipients : List (Recipient k)
    pub yubikeys : List (Stub RetiredSlotId)

  abbrev pub push_recipient :
      ℕ
      → RecipientPlugin
      → Option (Recipient k)
      → Result RecipientError (Unit {0}) × RecipientPlugin
  push_recipient index p (some pk) = (ok tt, record p { recipients = p.recipients ++ (pk ∷ []) })
  push_recipient index p none = (err (recipient index invalid_recipient), p)

  unfoldable pub add_recipient :
      ℕ → Text → Bytes → RecipientPlugin → Result RecipientError (Unit {0}) × RecipientPlugin
  add_recipient index name bytes p =
      push_recipient index p
        (if list_beq name plugin_name then recipient_from_bytes k bytes else none)

  abbrev pub push_stub :
      ℕ
      → RecipientPlugin
      → Option (Stub RetiredSlotId)
      → Result RecipientError (Unit {0}) × RecipientPlugin
  push_stub index p (some stub) = (ok tt, record p { yubikeys = p.yubikeys ++ (stub ∷ []) })
  push_stub index p none = (err (identity index invalid_identity), p)

  unfoldable pub add_identity :
      ℕ → Text → Bytes → RecipientPlugin → Result RecipientError (Unit {0}) × RecipientPlugin
  add_identity index name bytes p =
      push_stub index p
        (if list_beq name plugin_name then stub_from_bytes slots bytes index else none)

-- `IdentityPlugin::add_identity`; the plugin is its list of stubs.
abbrev pub Stubs : Type 0
Stubs = List (Stub RetiredSlotId)

abbrev pub push_identity :
    ℕ → Stubs → Option (Stub RetiredSlotId) → Result IdentityError (Unit {0}) × Stubs
push_identity index yubikeys (some stub) = (ok tt, yubikeys ++ (stub ∷ []))
push_identity index yubikeys none = (err (Connection.identity index invalid_identity), yubikeys)

unfoldable pub add_identity_stub :
    Slots RetiredSlotId → ℕ → Text → Bytes → Stubs → Result IdentityError (Unit {0}) × Stubs
add_identity_stub slots index name bytes yubikeys =
    push_identity index yubikeys
      (if list_beq name plugin_name then stub_from_bytes slots bytes index else none)

abbrev pub Ranked : Type 0 → Type 0
Ranked Point = Stub RetiredSlotId × Dict ℕ (List (RecipientLine Point))

module _ {Point : Type 0} where
  -- `files.iter().map(|(_, stanzas)| stanzas.len()).sum()`
  unfoldable pub effectiveness : Dict ℕ (List (RecipientLine Point)) → ℕ
  effectiveness [] = 0
  effectiveness ((file, lines) ∷ files) = length lines + effectiveness files

  -- `sort_by_key` keeps the order of those with equal keys.
  unfoldable pub insert_sorted : Ranked Point → List (Ranked Point) → List (Ranked Point)
  insert_sorted x [] = x ∷ []
  insert_sorted x (y ∷ ys) =
      let later = y ∷ insert_sorted x ys in
      if leb (effectiveness x.1) (effectiveness y.1) then x ∷ y ∷ ys else later

  unfoldable pub sort_by_effectiveness : List (Ranked Point) → List (Ranked Point)
  sort_by_effectiveness [] = []
  sort_by_effectiveness (x ∷ xs) = insert_sorted x (sort_by_effectiveness xs)

  -- `retain`
  unfoldable pub retain_useful : List (Ranked Point) → List (Ranked Point)
  retain_useful = filter (λ x. dec_lt 0 (effectiveness x.1))

  unfoldable pub ranked : List (Ranked Point) → List (Ranked Point)
  ranked xs = retain_useful (reverse (sort_by_effectiveness xs))

abbrev pub FileKeys : Type 0
FileKeys = Dict ℕ (FileResult Bytes)

-- `entry(file).or_insert(Ok(key))`
unfoldable pub or_insert : ℕ → Bytes → Option (FileResult Bytes) → FileKeys → FileKeys
or_insert file key none file_keys = insert file (unwrapped key) file_keys
or_insert file key (some r) file_keys = file_keys

module _ {Point : Type 0} (k : Curve Point) (x : Crypto k) (c : Cards) (keys : Keys c Point)
    (x509 : X509) (cb : Callbacks c.World) where
  open c use {World, YubiKey}

  abbrev pub M : Type 0 → Type 0
  M A = Step cb.IoError A × World

  -- `callbacks.error(e)?.unwrap()`; `leave` is what becomes of the connection when it fails.
  abbrev pub reported :
      (World → World) → Result cb.IoError (Result PluginError (Unit {0})) × World → M (Unit {0})
  reported leave (err e, w) = (stopped e, leave w)
  reported leave (ok (err e), w) = (panicked, leave w)
  reported leave (ok (ok _), w) = (next tt, w)

  abbrev pub StanzaLines : Type 0
  StanzaLines = List (RecipientLine Point)

  module _ (file : ℕ) (file_keys : FileKeys) where
    abbrev pub on_unwrapped :
        ℕ
        → (Session k c keys → World → M (FileKeys × Session k c keys))
        → Unwrapped k c keys x
        → M (FileKeys × Session k c keys)
    on_unwrapped index later (Outcome.ok key, conn, w) =
        (next (or_insert file key (get file file_keys) file_keys, conn), w)
    on_unwrapped index later (Outcome.err _, conn, w) =
        reported (c.reset conn.yubikey)
          (cb.error (Connection.stanza (record { file_index = file; stanza_index = index })) w)
        >>= λ _ w'. later conn w'
    on_unwrapped index later (panic, conn, w) = (panicked, c.reset conn.yubikey w)

    -- The lines of a file with their indices, until one is unwrapped
    unfoldable pub try_lines :
        ℕ → StanzaLines → Session k c keys → World → M (FileKeys × Session k c keys)
    try_lines index [] conn w = (next (file_keys, conn), w)
    try_lines index (line ∷ lines) conn w =
        on_unwrapped index (try_lines (suc index) lines) (unwrap_file_key k c keys x conn line w)

  -- A file that has a result is skipped.
  unfoldable pub try_file :
      ℕ
      → StanzaLines
      → Option (FileResult Bytes)
      → FileKeys
      → Session k c keys
      → World
      → M (FileKeys × Session k c keys)
  try_file file lines (some r) file_keys conn w = (next (file_keys, conn), w)
  try_file file lines none file_keys conn w = try_lines file file_keys 0 lines conn w

  -- The files of a YubiKey, in whatever order the map gives them
  unfoldable pub try_files :
      Dict ℕ StanzaLines → FileKeys → Session k c keys → World → M (FileKeys × Session k c keys)
  try_files [] file_keys conn w = (next (file_keys, conn), w)
  try_files ((file, lines) ∷ files) file_keys conn w =
      try_file file lines (get file file_keys) file_keys conn w >>= λ r w'.
      try_files files r.0 r.1 w'

  module _ (fuel rounds : ℕ) where
    abbrev pub on_pinned : Dict ℕ StanzaLines → FileKeys → Pinned k c keys x509 cb → M FileKeys
    on_pinned files file_keys (none, conn, w) = (starved, w)
    on_pinned files file_keys (some (err e), conn, w) = (stopped e, c.reset conn.yubikey w)
    on_pinned files file_keys (some (ok (err e)), conn, w) =
        reported (c.reset conn.yubikey) (cb.error e w) >>= λ _ w'.
        (next file_keys, c.reset conn.yubikey w')
    on_pinned files file_keys (some (ok (ok _)), conn, w) =
        try_files files file_keys conn w >>= λ r w'.
        (next r.0, disconnect_without_reset c r.1.yubikey w')

    abbrev pub on_connected :
        Dict ℕ StanzaLines
        → FileKeys
        → Option (Attempt cb.IoError (Session k c keys)) × World
        → M FileKeys
    on_connected files file_keys (none, w) = (starved, w)
    on_connected files file_keys (some skipped, w) = (next file_keys, w)
    on_connected files file_keys (some (broken e), w) = (stopped e, w)
    on_connected files file_keys (some (failed e), w) =
        reported (λ w'. w') (cb.error e w) >>= λ _ w'. (next file_keys, w')
    on_connected files file_keys (some (connected conn), w) =
        on_pinned files file_keys (request_pin_if_necessary k c keys x509 cb fuel conn w)

    -- The loop over the YubiKeys
    unfoldable pub try_yubikeys :
        List (Stub RetiredSlotId × Dict ℕ StanzaLines) → FileKeys → World → M FileKeys
    try_yubikeys [] file_keys w = (next file_keys, w)
    try_yubikeys ((stub, files) ∷ rest) file_keys w =
        on_connected files file_keys (connect k c keys cb stub fuel rounds w) >>= λ file_keys' w'.
        try_yubikeys rest file_keys' w'

    abbrev pub on_candidates : Option (Search RetiredSlotId Point Bytes) → World → M FileKeys
    on_candidates none w = (panicked, w)
    on_candidates (some st) w = try_yubikeys (ranked st.candidate_stanzas) st.file_keys w

    unfoldable pub unwrap_file_keys : Base64 → Stubs → List (List Stanza) → World → M FileKeys
    unwrap_file_keys b yubikeys files w = on_candidates (candidates b k.points yubikeys files) w
