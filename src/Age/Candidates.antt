-- ===== src/Age/Candidates.antt =====
-- The first half of `IdentityPlugin::unwrap_file_keys` of age-plugin-yubikey/src/plugin.rs: which
-- stanzas of which files to try with which key, and which files are in error.
pub mod Stanzas
pub mod Files
pub mod Lines
use remote_yubikey_manager.Common.{
  ℕ, zero, suc, ◌+◌, ◌≡◌, Bool, List, [], ◌∷◌, ◌++◌, Option, none, some, map, if◌then◌else◌,
}
use remote_yubikey_manager.Common.Dict.{Dict, get, insert, remove}
use remote_yubikey_manager.Common.Eq.{nat_eq, list_beq}
use remote_yubikey_manager.Age.Stub.{Stub}
use remote_yubikey_manager.Age.Stanza.{Base64, Points, Stanza, RecipientLine, from_stanza}

-- `identity::Error::Stanza` of age-plugin, with the text of its message left out
pub record StanzaError : Type 0 where
  pub file_index : ℕ
  pub stanza_index : ℕ

-- A value of the map `file_keys`: the errors of a file, or its key.
pub data FileResult (FileKey : Type 0) : Type 0 where
  errors : List StanzaError → FileResult FileKey
  unwrapped : FileKey → FileResult FileKey

abbrev pub Candidates : Type 0 → Type 0 → Type 0
Candidates Slot Point = List (Stub Slot × Dict ℕ (List (RecipientLine Point)))

pub record Search (Slot Point FileKey : Type 0) : Type 0 where
  pub file_keys : Dict ℕ (FileResult FileKey)
  pub candidate_stanzas : Candidates Slot Point

infixl 5 ◌>>=◌
abbrev pub ◌>>=◌ : {A B : Type 0} → Option A → (A → Option B) → Option B
none >>= f = none
some a >>= f = f a

module _ {Point : Type 0} where
  abbrev pub or_default : Option (List (RecipientLine Point)) → List (RecipientLine Point)
  or_default none = []
  or_default (some lines) = lines

module _ {Slot Point : Type 0} where
  -- `Stub::matches`
  unfoldable pub matches : Stub Slot → RecipientLine Point → Bool
  matches stub line = list_beq stub.tag line.line_tag

  -- `files.entry(file).or_default().push(line)` for the first stub that matches
  unfoldable pub record_line :
      ℕ → RecipientLine Point → Candidates Slot Point → Candidates Slot Point
  record_line file line [] = []
  record_line file line ((stub, files) ∷ rest) =
      let later = (stub, files) ∷ record_line file line rest in
      if matches stub line
      then (stub, insert file (or_default (get file files) ++ (line ∷ [])) files) ∷ rest
      else later

  -- `candidates.remove(&file)` for each stub
  unfoldable pub drop_file : ℕ → Candidates Slot Point → Candidates Slot Point
  drop_file file [] = []
  drop_file file ((stub, files) ∷ rest) = (stub, remove file files) ∷ drop_file file rest

module _ {FileKey : Type 0} where
  -- `file_keys.entry(file).or_insert_with(|| Err(vec![]))` and the push; `none` is `unreachable!()`.
  unfoldable pub push_error :
      ℕ
      → StanzaError
      → Option (FileResult FileKey)
      → Dict ℕ (FileResult FileKey)
      → Option (Dict ℕ (FileResult FileKey))
  push_error file e none keys = some (insert file (errors (e ∷ [])) keys)
  push_error file e (some (errors es)) keys = some (insert file (errors (es ++ (e ∷ []))) keys)
  push_error file e (some (unwrapped key)) keys = none

module _ {Slot Point FileKey : Type 0} where
  -- The arms of the match on a stanza
  unfoldable pub note_line :
      ℕ
      → RecipientLine Point
      → Option (FileResult FileKey)
      → Search Slot Point FileKey
      → Search Slot Point FileKey
  note_line file line none st = record st {
    candidate_stanzas = record_line file line st.candidate_stanzas;
  }
  note_line file line (some result) st = st

  unfoldable pub note_stanza :
      ℕ
      → ℕ
      → Option (Option (RecipientLine Point))
      → Search Slot Point FileKey
      → Option (Search Slot Point FileKey)
  note_stanza file stanza_index none st = some st
  note_stanza file stanza_index (some (some line)) st =
      some (note_line file line (get file st.file_keys) st)
  note_stanza file stanza_index (some none) st =
      push_error file (record { file_index = file; stanza_index = stanza_index })
        (get file st.file_keys) st.file_keys
      >>= λ keys.
          some
            (record { file_keys = keys; candidate_stanzas = drop_file file st.candidate_stanzas })

  module _ (b : Base64) (k : Points Point) where
    unfoldable pub note_stanzas :
        ℕ → ℕ → List Stanza → Search Slot Point FileKey → Option (Search Slot Point FileKey)
    note_stanzas file stanza_index [] st = some st
    note_stanzas file stanza_index (s ∷ stanzas) st =
        note_stanza file stanza_index (from_stanza b k s) st
        >>= note_stanzas file (suc stanza_index) stanzas

    unfoldable pub note_files :
        ℕ → List (List Stanza) → Search Slot Point FileKey → Option (Search Slot Point FileKey)
    note_files file [] st = some st
    note_files file (stanzas ∷ files) st =
        note_stanzas file 0 stanzas st >>= note_files (suc file) files

    unfoldable pub candidates :
        List (Stub Slot) → List (List Stanza) → Option (Search Slot Point FileKey)
    candidates yubikeys files =
        note_files 0 files
          (record { file_keys = []; candidate_stanzas = map (λ stub. (stub, [])) yubikeys })
