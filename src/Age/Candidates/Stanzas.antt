-- ===== src/Age/Candidates/Stanzas.antt =====
-- What the arms on one stanza (age-plugin-yubikey/src/plugin.rs) do to its file and to the others.
use remote_yubikey_manager.Common.{
  ℕ, ◌≡◌, ◌≢◌, refl, sym, ◌∙◌, List, [], ◌∷◌, ◌++◌, Option, none, some, All, append-nil, Bool-cases,
  inl, inr, arith,
}
use remote_yubikey_manager.Common.Dict.{Dict, get, insert, get-insert, get-remove}
use remote_yubikey_manager.Common.Eq.{nat_eq}
use remote_yubikey_manager.Age.Stanza.{RecipientLine}
use remote_yubikey_manager.Age.Candidates.{
  StanzaError, FileResult, errors, Search, Candidates, matches, record_line, drop_file, push_error,
  note_line, note_stanza, or_default,
}

-- What `file_keys` holds of a file with these errors so far.
abbrev pub outcome : {F : Type 0} → List StanzaError → Option (FileResult F)
outcome [] = none
outcome (e ∷ es) = some (errors (e ∷ es))

-- No key has a line of the file to try.
abbrev pub Untried : {Slot Point : Type 0} → ℕ → Candidates Slot Point → Type 0
Untried file cs = All (λ c. get file c.1 ≡ none) cs

-- A file with these errors: they are recorded, and if there are any, no key is tried on it.
pub record IsNoted {Slot Point F : Type 0} (file : ℕ) (es : List StanzaError)
    (st : Search Slot Point F) : Type 0 where
  pub noted : get file st.file_keys ≡ outcome es
  pub untried : es ≢ [] → Untried file st.candidate_stanzas

module _ {Slot Point : Type 0} where
  record_line-Untried :
      (file g : ℕ) (line : RecipientLine Point) (cs : Candidates Slot Point)
      → file ≢ g
      → Untried g cs
      → Untried g (record_line file line cs)
  unfolding record_line
  record_line-Untried file g line [] ne h = tt
  record_line-Untried file g line ((stub, files) ∷ rest) ne h =
      elim (Bool-cases (matches stub line)) [
        | inl m ↦ rw m (get_other files ne ∙ h.0, h.1)
        | inr f ↦ rw f (h.0, record_line-Untried file g line rest ne h.1)
      ]
    where
      get_other :
          (files : Dict ℕ (List (RecipientLine Point)))
          → file ≢ g
          → get g (insert file (or_default (get file files) ++ (line ∷ [])) files) ≡ get g files
      get_other files ne =
          ground (arith, get-insert file g (or_default (get file files) ++ (line ∷ [])) files)

  drop_file-Untried : (file : ℕ) (cs : Candidates Slot Point) → Untried file (drop_file file cs)
  unfolding drop_file
  drop_file-Untried file [] = tt
  drop_file-Untried file ((stub, files) ∷ rest) =
      (ground (arith, get-remove file file files), drop_file-Untried file rest)

  drop_file_keeps :
      (file g : ℕ) (cs : Candidates Slot Point) → Untried g cs → Untried g (drop_file file cs)
  unfolding drop_file
  drop_file_keeps file g [] h = tt
  drop_file_keeps file g ((stub, files) ∷ rest) h =
      (ground (arith, get-remove file g files, h.0), drop_file_keeps file g rest h.1)

-- What a step leaves alone of another file.
pub record Keeps {Slot Point F : Type 0} (g : ℕ) (st st' : Search Slot Point F) : Type 0 where
  pub same_result : get g st'.file_keys ≡ get g st.file_keys
  pub still_untried : Untried g st.candidate_stanzas → Untried g st'.candidate_stanzas

-- The errors of a stanza, and those of the stanzas of a file.
abbrev pub error_of :
    {Point : Type 0} → ℕ → ℕ → Option (Option (RecipientLine Point)) → List StanzaError
error_of file i none = []
error_of file i (some none) = record { file_index = file; stanza_index = i } ∷ []
error_of file i (some (some line)) = []

module _ {F : Type 0} where
  pushed :
      (file : ℕ) (e : StanzaError) (es : List StanzaError) (keys : Dict ℕ (FileResult F))
      → get file keys ≡ outcome es
      → push_error file e (get file keys) keys ≡ some (insert file (errors (es ++ (e ∷ []))) keys)
  unfolding push_error
  pushed file e [] keys h = rw (h, push_error) refl
  pushed file e (x ∷ es) keys h = rw (h, push_error) refl

  inserted :
      (file : ℕ) (r : FileResult F) (keys : Dict ℕ (FileResult F))
      → get file (insert file r keys) ≡ some r
  inserted file r keys = ground (arith, get-insert file file r keys)

  outcome-add :
      (es : List StanzaError) (e : StanzaError)
      → outcome {F = F} (es ++ (e ∷ [])) ≡ some (errors (es ++ (e ∷ [])))
  outcome-add [] e = refl
  outcome-add (x ∷ es) e = refl

module _ {Slot Point F : Type 0} where
  pub Keeps-same : (g : ℕ) (st : Search Slot Point F) → Keeps g st st
  Keeps-same g st = record { same_result = refl; still_untried = λ h. h }

  pub Keeps-then :
      (g : ℕ) (st st' st'' : Search Slot Point F)
      → Keeps g st st'
      → Keeps g st' st''
      → Keeps g st st''
  Keeps-then g st st' st'' h h' = record {
    same_result = h'.same_result ∙ h.same_result;
    still_untried = λ u. h'.still_untried (h.still_untried u);
  }

  -- What a step on a file comes to, when the file had the errors `es` and has `new` more.
  abbrev pub Noted :
      ℕ → List StanzaError → Search Slot Point F → Option (Search Slot Point F) → Type 0
  Noted file es st o =
      (st' : Search Slot Point F) × (o ≡ some st')
      × IsNoted file es st'
      × ((g : ℕ) → g ≢ file → Keeps g st st')

  note_line-Noted :
      (file : ℕ) (line : RecipientLine Point) (es : List StanzaError) (st : Search Slot Point F)
      → IsNoted file es st
      → Noted file es st (some (note_line file line (get file st.file_keys) st))
  unfolding note_line
  note_line-Noted file line [] st h = (
    record st { candidate_stanzas = record_line file line st.candidate_stanzas },
    rw h.noted refl,
    record { noted = h.noted; untried = λ n. absurd (n refl) },
    λ g n. record {
      same_result = refl;
      still_untried = record_line-Untried file g line st.candidate_stanzas (λ e. n (sym e));
    },
  )
  note_line-Noted file line (e ∷ es) st h = (st, rw h.noted refl, h, λ g n. Keeps-same g st)

  note_error-Noted :
      (file i : ℕ) (es : List StanzaError) (st : Search Slot Point F)
      → IsNoted file es st
      → Noted file
          (es ++ error_of {Point = Point} file i (some none))
          st
          (note_stanza file i (some none) st)
  unfolding note_stanza
  note_error-Noted file i es st h =
      let e : StanzaError = record { file_index = file; stanza_index = i } in
      let keys = insert file (errors (es ++ (e ∷ []))) st.file_keys in
      (
        record { file_keys = keys; candidate_stanzas = drop_file file st.candidate_stanzas },
        rw (note_stanza, pushed file e es st.file_keys h.noted) refl,
        record {
          noted = inserted file (errors (es ++ (e ∷ []))) st.file_keys ∙ sym (outcome-add es e);
          untried = λ n. drop_file-Untried file st.candidate_stanzas;
        },
        λ g n. record {
          same_result = ground (arith, get-insert file g (errors (es ++ (e ∷ []))) st.file_keys);
          still_untried = drop_file_keeps file g st.candidate_stanzas;
        },
      )

  pub note_stanza-Noted :
      (file i : ℕ) (o : Option (Option (RecipientLine Point))) (es : List StanzaError)
      (st : Search Slot Point F)
      → IsNoted file es st
      → Noted file (es ++ error_of file i o) st (note_stanza file i o st)
  unfolding note_stanza
  note_stanza-Noted file i none es st h = (st, refl, rw (append-nil es) h, λ g n. Keeps-same g st)
  note_stanza-Noted file i (some none) es st h = note_error-Noted file i es st h
  note_stanza-Noted file i (some (some line)) es st h =
      rw (append-nil es) (note_line-Noted file line es st h)
