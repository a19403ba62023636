-- ===== src/Age/Candidates/Lines.antt =====
-- The lines that the search of `unwrap_file_keys` (age-plugin-yubikey/src/plugin.rs) records.
use mathlib.Core.Path.{subst}
use remote_yubikey_manager.Common.{
  ℕ, suc, ◌+◌, ◌≡◌, refl, inl, inr, true, List, [], ◌∷◌, ◌++◌, Option, none, some, map, All,
  All-append, Bool-cases, get_elem?, ◌==◌, ==_iff, arith,
}
use remote_yubikey_manager.Common.Dict.{Dict, get, insert, remove}
use remote_yubikey_manager.Common.Eq.{nat_eq}
use remote_yubikey_manager.Age.Stub.{Stub}
use remote_yubikey_manager.Age.Stanza.{Base64, Points, Stanza, RecipientLine, from_stanza}
use remote_yubikey_manager.Age.Candidates.{
  StanzaError, FileResult, errors, unwrapped, Candidates, Search, ◌>>=◌, or_default, matches,
  record_line, drop_file, push_error, note_line, note_stanza, note_stanzas, note_files, candidates,
}

module _ {V : Type 0} (Q : ℕ → V → Type 0) where
  abbrev pub Each : Dict ℕ V → Type 0
  Each m = All (λ y. Q y.0 y.1) m

  Each-insert : (key : ℕ) (v : V) (m : Dict ℕ V) → Q key v → Each m → Each (insert key v m)
  unfolding insert
  Each-insert key v [] q h = (q, tt)
  Each-insert key v ((j, w) ∷ m) q h = elim (Bool-cases (j == key)) [
    | inl t ↦ rw t (q, h.1)
    | inr f ↦ rw f (h.0, Each-insert key v m q h.1)
  ]

  Each-remove : (key : ℕ) (m : Dict ℕ V) → Each m → Each (remove key m)
  unfolding remove
  Each-remove key [] h = tt
  Each-remove key ((j, w) ∷ m) h = elim (Bool-cases (j == key)) [
    | inl t ↦ rw t (Each-remove key m h.1)
    | inr f ↦ rw f (h.0, Each-remove key m h.1)
  ]

  pub Each-get : (key : ℕ) (v : V) (m : Dict ℕ V) → Each m → get key m ≡ some v → Q key v
  unfolding get
  Each-get key v [] h e = cc
  Each-get key v ((j, w) ∷ m) h e = elim (Bool-cases (j == key)) [
    | inl t ↦
        let here : some w ≡ some v = rw t at e in
        let same : w ≡ v = cc in subst (λ i. Q i v) ((==_iff j key).0 t) (subst (Q j) same h.0)
    | inr f ↦ Each-get key v m h.1 (rw f at e)
  ]

module _ {Slot Point : Type 0} (P : Stub Slot → ℕ → RecipientLine Point → Type 0) where
  -- Every line that a stub is to try for a file is as `P` says.
  abbrev pub Lines : Candidates Slot Point → Type 0
  Lines cs = All (λ x. Each (λ file lines. All (P x.0 file) lines) x.1) cs

  old_lines :
      (stub : Stub Slot) (file : ℕ) (files : Dict ℕ (List (RecipientLine Point)))
      → Each (λ i lines. All (P stub i) lines) files
      → All (P stub file) (or_default (get file files))
  old_lines stub file files h = go (get file files) refl
    where
      go :
          (o : Option (List (RecipientLine Point)))
          → get file files ≡ o
          → All (P stub file) (or_default o)
      go none e = tt
      go (some lines) e = Each-get (λ i ls. All (P stub i) ls) file lines files h e

  Lines-record_line :
      (file : ℕ) (line : RecipientLine Point) (cs : Candidates Slot Point)
      → ((stub : Stub Slot) → matches stub line ≡ true → P stub file line)
      → Lines cs
      → Lines (record_line file line cs)
  unfolding record_line
  Lines-record_line file line [] new h = tt
  Lines-record_line file line ((stub, files) ∷ rest) new h = elim (Bool-cases (matches stub line)) [
    | inl t ↦ rw t (
      Each-insert (λ i lines. All (P stub i) lines) file
          (or_default (get file files) ++ (line ∷ [])) files
          (All-append (P stub file) (or_default (get file files)) (line ∷ [])
            (old_lines stub file files h.0) (new stub t, tt))
          h.0,
      h.1,
    )
    | inr f ↦ rw f (h.0, Lines-record_line file line rest new h.1)
  ]

  Lines-drop_file : (file : ℕ) (cs : Candidates Slot Point) → Lines cs → Lines (drop_file file cs)
  unfolding drop_file
  Lines-drop_file file [] h = tt
  Lines-drop_file file ((stub, files) ∷ rest) h =
      (Each-remove (λ i lines. All (P stub i) lines) file files h.0, Lines-drop_file file rest h.1)

  no-Lines : (yubikeys : List (Stub Slot)) → Lines (map (λ stub. (stub, [])) yubikeys)
  no-Lines [] = tt
  no-Lines (y ∷ ys) = (tt, no-Lines ys)

module _ {Slot Point F : Type 0} (P : Stub Slot → ℕ → RecipientLine Point → Type 0) where
  abbrev pub IsErrors : FileResult F → Type 0
  IsErrors (errors es) = Unit {0}
  IsErrors (unwrapped key) = ⊥

  -- The lines are as `P` says, and no file has a key.
  abbrev pub Recorded : Search Slot Point F → Type 0
  Recorded st = Lines P st.candidate_stanzas × Each (λ file r. IsErrors r) st.file_keys

  abbrev pub LinesIf : Option (Search Slot Point F) → Type 0
  LinesIf none = Unit
  LinesIf (some st) = Recorded st

  LinesIf->>= :
      (o : Option (Search Slot Point F)) (f : Search Slot Point F → Option (Search Slot Point F))
      → LinesIf o
      → ((st : Search Slot Point F) → Recorded st → LinesIf (f st))
      → LinesIf (o >>= f)
  LinesIf->>= none f h g = tt
  LinesIf->>= (some st) f h g = g st h

  note_line-Lines :
      (file : ℕ) (line : RecipientLine Point) (o : Option (FileResult F)) (st : Search Slot Point F)
      → ((stub : Stub Slot) → matches stub line ≡ true → P stub file line)
      → Recorded st
      → Recorded (note_line file line o st)
  unfolding note_line
  note_line-Lines file line none st new h =
      (Lines-record_line P file line st.candidate_stanzas new h.0, h.1)
  note_line-Lines file line (some r) st new h = h

  note_stanza-Lines :
      (file i : ℕ) (o : Option (Option (RecipientLine Point))) (st : Search Slot Point F)
      → ((line : RecipientLine Point) (stub : Stub Slot)
          → o ≡ some (some line)
          → matches stub line ≡ true
          → P stub file line)
      → Recorded st
      → LinesIf (note_stanza file i o st)
  unfolding note_stanza push_error
  note_stanza-Lines file i none st new h = h
  note_stanza-Lines file i (some (some line)) st new h =
      note_line-Lines file line (get file st.file_keys) st (λ stub. new line stub refl) h
  note_stanza-Lines file i (some none) st new h =
      pushed (push_error file e (get file st.file_keys) st.file_keys)
        (added (get file st.file_keys))
    where
      e : StanzaError
      e = record { file_index = file; stanza_index = i }

      Keyless : Option (Dict ℕ (FileResult F)) → Type 0
      Keyless none = Unit {0}
      Keyless (some keys) = Each (λ f r. IsErrors r) keys

      added : (r : Option (FileResult F)) → Keyless (push_error file e r st.file_keys)
      added none = Each-insert (λ f r. IsErrors r) file (errors (e ∷ [])) st.file_keys tt h.1
      added (some (errors es)) =
          Each-insert (λ f r. IsErrors r) file (errors (es ++ (e ∷ []))) st.file_keys tt h.1
      added (some (unwrapped key)) = tt

      pushed :
          (o : Option (Dict ℕ (FileResult F)))
          → Keyless o
          → LinesIf (
              o >>= λ keys. some (record {
                file_keys = keys;
                candidate_stanzas = drop_file file st.candidate_stanzas;
              }))
      pushed none q = tt
      pushed (some keys) q = (Lines-drop_file P file st.candidate_stanzas h.0, q)

  module _ (b : Base64) (k : Points Point) where
    note_stanzas-Lines :
        (file i : ℕ) (ss : List Stanza) (st : Search Slot Point F)
        → ((j : ℕ) (s : Stanza) (line : RecipientLine Point) (stub : Stub Slot)
            → get_elem? ss j ≡ some s
            → from_stanza b k s ≡ some (some line)
            → matches stub line ≡ true
            → P stub file line)
        → Recorded st
        → LinesIf (note_stanzas b k file i ss st)
    unfolding note_stanzas
    note_stanzas-Lines file i [] st new h = h
    note_stanzas-Lines file i (s ∷ ss) st new h =
        LinesIf->>= (note_stanza file i (from_stanza b k s) st) (note_stanzas b k file (suc i) ss)
          (note_stanza-Lines file i (from_stanza b k s) st (λ line stub. new 0 s line stub refl) h)
          (λ st'. note_stanzas-Lines file (suc i) ss st' (λ j. new (suc j)))

    note_files-Lines :
        (f : ℕ) (files : List (List Stanza)) (st : Search Slot Point F)
        → ((i : ℕ) (ss : List Stanza) (j : ℕ) (s : Stanza) (line : RecipientLine Point)
              (stub : Stub Slot)
            → get_elem? files i ≡ some ss
            → get_elem? ss j ≡ some s
            → from_stanza b k s ≡ some (some line)
            → matches stub line ≡ true
            → P stub (f + i) line)
        → Recorded st
        → LinesIf (note_files b k f files st)
    unfolding note_files
    note_files-Lines f [] st new h = h
    note_files-Lines f (stanzas ∷ files) st new h =
        LinesIf->>= (note_stanzas b k f 0 stanzas st) (note_files b k (suc f) files)
          (note_stanzas-Lines f 0 stanzas st
            (λ j s line stub g e m.
              let here : f + 0 ≡ f = omega arith in
              subst (λ i. P stub i line) here (new 0 stanzas j s line stub refl g e m))
            h)
          (λ st'. note_files-Lines (suc f) files st' (λ i ss j s line stub q g e m.
            let there : f + suc i ≡ suc f + i = omega arith in
            subst (λ n. P stub n line) there (new (suc i) ss j s line stub q g e m)))

module _ {Slot Point : Type 0} (F : Type 0) (P : Stub Slot → ℕ → RecipientLine Point → Type 0)
    (b : Base64) (k : Points Point) where
  -- Lines are recorded only from stanzas of the file, and for a stub that they match.
  pub candidates-Lines :
      (yubikeys : List (Stub Slot)) (files : List (List Stanza))
      → ((i : ℕ) (ss : List Stanza) (j : ℕ) (s : Stanza) (line : RecipientLine Point)
            (stub : Stub Slot)
          → get_elem? files i ≡ some ss
          → get_elem? ss j ≡ some s
          → from_stanza b k s ≡ some (some line)
          → matches stub line ≡ true
          → P stub i line)
      → LinesIf {F = F} P (candidates b k yubikeys files)
  unfolding candidates
  candidates-Lines yubikeys files new =
      note_files-Lines P b k 0 files
        (record { file_keys = []; candidate_stanzas = map (λ stub. (stub, [])) yubikeys })
        (λ i ss j s line stub q g e m.
          let same : i ≡ 0 + i = omega arith in
          subst (λ n. P stub n line) same (new i ss j s line stub q g e m))
        (no-Lines P yubikeys, tt)
