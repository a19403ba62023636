-- ===== src/Age/Plugin/Answers.antt =====
-- `IdentityPlugin::unwrap_file_keys` of age-plugin-yubikey/src/plugin.rs as a whole.
use mathlib.Core.Path.{subst}
use remote_yubikey_manager.Common.{
  ℕ, ◌≡◌, ◌≢◌, ◌⊎◌, refl, sym, ◌∙◌, inl, inr, List, [], ◌∷◌, some, All, get_elem?, true,
}
use remote_yubikey_manager.Common.Bytes.{Bytes}
use remote_yubikey_manager.Common.Dict.{get}
use remote_yubikey_manager.Common.Eq.{nat_eq, list_beq_iff}
use remote_yubikey_manager.Age.Slots.{RetiredSlotId}
use remote_yubikey_manager.Age.Stub.{Stub}
use remote_yubikey_manager.Age.Stanza.{
  Base64, IsBase64, IsPoints, Stanza, RecipientLine, IsLine, from_stanza,
}
use remote_yubikey_manager.Age.Stanza.RoundTrip.{from_stanza-IsLine}
use remote_yubikey_manager.Age.Candidates.{
  StanzaError, FileResult, errors, unwrapped, Search, matches,
}
use remote_yubikey_manager.Age.Candidates.Stanzas.{IsNoted, outcome}
use remote_yubikey_manager.Age.Candidates.Files.{file_errors, candidates-IsNoted}
use remote_yubikey_manager.Age.Candidates.Lines.{
  Each, Each-get, IsErrors, LinesIf, candidates-Lines,
}
use remote_yubikey_manager.Age.Yubikey.{Cards}
use remote_yubikey_manager.Age.Recipient.{Curve, IsCurve, Crypto, IsCrypto}
use remote_yubikey_manager.Age.Metadata.{X509}
use remote_yubikey_manager.Age.Connection.{Callbacks, Keys, IdentityError}
use remote_yubikey_manager.Age.Step.{Step, next, stopped, panicked, starved, Holds}
use remote_yubikey_manager.Age.Plugin.{
  FileKeys, Stubs, Ranked, ranked, on_candidates, try_yubikeys, unwrap_file_keys,
}
use remote_yubikey_manager.Age.Plugin.Order.{All-ranked}
use remote_yubikey_manager.Age.Plugin.Growth.{Source, Grown}
use remote_yubikey_manager.Age.Plugin.Tries.{Acknowledged, try_yubikeys-Holds}

module _ {Point : Type 0} (k : Curve Point) (x : Crypto k) (c : Cards) (keys : Keys c Point)
    (cb : Callbacks c.World) (b : Base64) (files : List (List Stanza)) where
  -- A line of a stanza of the file, with the tag of the stub.
  pub record IsCandidate (stub : Stub RetiredSlotId) (file : ℕ) (line : RecipientLine Point)
      : Type 0 where
    pub stanzas : List Stanza
    pub index : ℕ
    pub source : Stanza
    pub in_file : get_elem? files file ≡ some stanzas
    pub in_stanzas : get_elem? stanzas index ≡ some source
    pub read : from_stanza b k.points source ≡ some (some line)
    pub same_tag : stub.tag ≡ line.line_tag

  -- A file with structurally invalid stanzas is in error with all of them, in their order, and a file
  -- has a key only if a stanza of it was unwrapped to that key over a connection to the YubiKey of a
  -- stub with the stanza's tag.
  pub record IsAnswer (after : FileKeys) : Type 0 where
    pub invalid :
        (i : ℕ) (ss : List Stanza)
        → get_elem? files i ≡ some ss
        → file_errors b k.points i 0 ss ≢ []
        → get i after ≡ some (errors (file_errors b k.points i 0 ss))
    pub keyed :
        (file : ℕ) (key : Bytes)
        → get file after ≡ some (unwrapped key)
        → Source k x c keys cb IsCandidate file key

  module _ (x509 : X509) (l : IsCurve k) (m : IsCrypto x) (lb : IsBase64 b) (lp : IsPoints k.points)
      (acknowledges : (e : IdentityError) (w : c.World)
        → Acknowledged k x c keys cb (cb.error e w).0) where
    fits :
        (stub : Stub RetiredSlotId) (file : ℕ) (line : RecipientLine Point)
        → IsCandidate stub file line
        → IsLine b k.points line × (stub.tag ≡ line.line_tag)
    fits stub file line h = (from_stanza-IsLine b lb k.points lp h.source line h.read, h.same_tag)

    unwrapped-injective :
        {p q : Bytes} → Path (FileResult Bytes) (unwrapped p) (unwrapped q) → p ≡ q
    unwrapped-injective e = cc

    outcome-errors : (es : List StanzaError) → es ≢ [] → outcome {F = Bytes} es ≡ some (errors es)
    outcome-errors [] ne = absurd (ne refl)
    outcome-errors (e ∷ es) ne = refl

    after_loop :
        (st : Search RetiredSlotId Point Bytes)
        → ((i : ℕ) (ss : List Stanza)
            → get_elem? files i ≡ some ss
            → IsNoted i (file_errors b k.points i 0 ss) st)
        → LinesIf IsCandidate (some st)
        → (o : Step cb.IoError FileKeys × c.World)
        → Holds (Grown k x c keys cb IsCandidate st.file_keys) o
        → Holds IsAnswer o
    after_loop st noted lines (next after, w) g = record {
      invalid = λ i ss e ne.
          g.kept i (errors (file_errors b k.points i 0 ss))
            ((noted i ss e).noted ∙ outcome-errors (file_errors b k.points i 0 ss) ne);
      keyed = λ file key e. source_of file key (g.sourced file (unwrapped key) e);
    }
      where
        source_of :
            (file : ℕ) (key : Bytes)
            → (get file st.file_keys ≡ some (unwrapped key))
              ⊎ ((key' : Bytes) × (unwrapped key ≡ unwrapped key')
                  × Source k x c keys cb IsCandidate file key')
            → Source k x c keys cb IsCandidate file key
        source_of file key (inl old) =
            absurd (
              Each-get (λ f r. IsErrors IsCandidate r) file (unwrapped key) st.file_keys lines.1
                old)
        source_of file key (inr (key', e, s)) =
            subst (Source k x c keys cb IsCandidate file) (unwrapped-injective (sym e)) s
    after_loop st noted lines (stopped e, w) g = tt
    after_loop st noted lines (panicked, w) g = g
    after_loop st noted lines (starved, w) g = tt

    -- If the client acknowledges each error that it is sent, the call does not panic, and what it
    -- returns is as follows: a file with structurally invalid stanzas is in error with all of them, in
    -- their order, and a file has a key only if a stanza of it was unwrapped to that key over a
    -- connection to the YubiKey of a stub with the stanza's tag.
    pub unwrap_file_keys-IsAnswer :
        (fuel rounds : ℕ) (yubikeys : Stubs) (w : c.World)
        → Holds IsAnswer (unwrap_file_keys k x c keys x509 cb fuel rounds b yubikeys files w)
    unfolding unwrap_file_keys
    unwrap_file_keys-IsAnswer fuel rounds yubikeys w =
        let (st, found, noted) = candidates-IsNoted {F = Bytes} b k.points yubikeys files in
        let lines : LinesIf IsCandidate (some st) = subst (LinesIf {F = Bytes} IsCandidate) found (
          candidates-Lines Bytes IsCandidate b k.points yubikeys files
            (λ i ss j s line stub q g e t. record {
              stanzas = ss;
              index = j;
              source = s;
              in_file = q;
              in_stanzas = g;
              read = e;
              same_tag = matches-tag stub line t;
            })) in
        subst (λ o. Holds IsAnswer (on_candidates k x c keys x509 cb fuel rounds o w)) (sym found)
          (after_loop st noted lines
            (try_yubikeys k x c keys x509 cb fuel rounds (ranked st.candidate_stanzas) st.file_keys
              w)
            (try_yubikeys-Holds k x c keys cb x509 IsCandidate b l m fits acknowledges fuel rounds
              (ranked st.candidate_stanzas) st.file_keys w
              (All-ranked
                (λ (y : Ranked Point). Each (λ file ls. All (IsCandidate y.0 file) ls) y.1)
                st.candidate_stanzas lines.0)))
      where
        matches-tag :
            (stub : Stub RetiredSlotId) (line : RecipientLine Point)
            → matches stub line ≡ true
            → stub.tag ≡ line.line_tag
        matches-tag stub line t = (list_beq_iff stub.tag line.line_tag).0 (unfold matches in t)
