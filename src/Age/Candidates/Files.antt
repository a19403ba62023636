-- ===== src/Age/Candidates/Files.antt =====
-- The files of `unwrap_file_keys` (age-plugin-yubikey/src/plugin.rs), after the search.
use mathlib.Core.Path.{subst}
use mathlib.Core.Option.{some-injective}
use remote_yubikey_manager.Common.{
  ℕ, zero, suc, ◌+◌, ◌<◌, ◌≤◌, ◌≡◌, refl, sym, ◌∙◌, List, [], ◌∷◌, ◌++◌, Option, none, some, map,
  append_assoc, append-nil, get_elem?, arith,
}
use remote_yubikey_manager.Common.Dict.{get}
use remote_yubikey_manager.Common.Eq.{nat_eq}
use remote_yubikey_manager.Age.Stub.{Stub}
use remote_yubikey_manager.Age.Stanza.{Base64, Points, Stanza, from_stanza}
use remote_yubikey_manager.Age.Candidates.{
  StanzaError, Search, note_stanzas, note_files, candidates,
}
use remote_yubikey_manager.Age.Candidates.Stanzas.{
  IsNoted, Keeps, Keeps-same, Keeps-then, error_of, Noted, note_stanza-Noted,
}

module _ {Point : Type 0} (b : Base64) (k : Points Point) where
  -- The errors of a file's stanzas in their order.
  abbrev pub file_errors : ℕ → ℕ → List Stanza → List StanzaError
  file_errors file i [] = []
  file_errors file i (s ∷ ss) = error_of file i (from_stanza b k s) ++ file_errors file (suc i) ss

module _ {Slot Point F : Type 0} (b : Base64) (k : Points Point) where
  note_stanzas-Noted :
      (file i : ℕ) (ss : List Stanza) (es : List StanzaError) (st : Search Slot Point F)
      → IsNoted file es st
      → Noted file (es ++ file_errors b k file i ss) st (note_stanzas b k file i ss st)
  unfolding note_stanzas
  note_stanzas-Noted file i [] es st h = (st, refl, rw (append-nil es) h, λ g n. Keeps-same g st)
  note_stanzas-Noted file i (s ∷ ss) es st h =
      let (st1, e1, h1, k1) = note_stanza-Noted file i (from_stanza b k s) es st h in
      let (st2, e2, h2, k2) =
        note_stanzas-Noted file (suc i) ss (es ++ error_of file i (from_stanza b k s)) st1 h1 in
      (
        st2,
        rw (note_stanzas, e1) e2,
        rw
            (sym (
              append_assoc es (error_of file i (from_stanza b k s))
                (file_errors b k file (suc i) ss)))
            h2,
        λ g n. Keeps-then g st st1 st2 (k1 g n) (k2 g n),
      )

  -- The files from number `f` on are processed, and no other changes.
  Processed : ℕ → List (List Stanza) → Search Slot Point F → Option (Search Slot Point F) → Type 0
  Processed f files st o =
      (st' : Search Slot Point F) × (o ≡ some st')
      × ((i : ℕ) (ss : List Stanza)
          → get_elem? files i ≡ some ss
          → IsNoted (f + i) (file_errors b k (f + i) 0 ss) st')
      × ((g : ℕ) → g < f → Keeps g st st')

  IsNoted-Keeps :
      (g : ℕ) (es : List StanzaError) (st st' : Search Slot Point F)
      → Keeps g st st'
      → IsNoted g es st
      → IsNoted g es st'
  IsNoted-Keeps g es st st' h n = record {
    noted = h.same_result ∙ n.noted;
    untried = λ ne. h.still_untried (n.untried ne);
  }

  note_files-Processed :
      (f : ℕ) (files : List (List Stanza)) (st : Search Slot Point F)
      → ((g : ℕ) → f ≤ g → get g st.file_keys ≡ none)
      → Processed f files st (note_files b k f files st)
  unfolding Processed note_files
  note_files-Processed f [] st new = (st, refl, (λ i ss e. cc e), λ g h. Keeps-same g st)
  note_files-Processed f (stanzas ∷ files) st new =
      let (st1, e1, h1, k1) =
        note_stanzas-Noted f 0 stanzas [] st
          (record { noted = new f (omega arith); untried = λ n. absurd (n refl) }) in
      let (st2, e2, h2, k2) =
        note_files-Processed (suc f) files st1
          (λ g h. (k1 g (λ e. absurd (omega arith))).same_result ∙ new g (omega arith)) in
      (
        st2,
        rw (note_files, e1) e2,
        each st2 (IsNoted-Keeps f (file_errors b k f 0 stanzas) st1 st2 (k2 f (omega arith)) h1) h2,
        λ g h. Keeps-then g st st1 st2 (k1 g (λ e. absurd (omega arith))) (k2 g (omega arith)),
      )
    where
      each :
          (st' : Search Slot Point F)
          → IsNoted f (file_errors b k f 0 stanzas) st'
          → ((i : ℕ) (ss : List Stanza)
              → get_elem? files i ≡ some ss
              → IsNoted (suc f + i) (file_errors b k (suc f + i) 0 ss) st')
          → (i : ℕ) (ss : List Stanza) → get_elem? (stanzas ∷ files) i ≡ some ss
          → IsNoted (f + i) (file_errors b k (f + i) 0 ss) st'
      each st' h hs zero ss e =
          let here : f ≡ f + 0 = omega arith in
          let same : stanzas ≡ ss = some-injective _ _ e in
          subst (λ j. IsNoted j (file_errors b k j 0 ss) st') here
            (subst (λ x. IsNoted f (file_errors b k f 0 x) st') same h)
      each st' h hs (suc i) ss e =
          let next : suc f + i ≡ f + suc i = omega arith in
          subst (λ j. IsNoted j (file_errors b k j 0 ss) st') next (hs i ss e)

  -- The search does not meet `unreachable!()`, and after it each file is accounted for: one with
  -- structurally invalid stanzas is in error with all of these in their order, and no key has a
  -- line of it to try, whatever its other stanzas are; one with none is not in error.
  pub candidates-IsNoted :
      (yubikeys : List (Stub Slot)) (files : List (List Stanza))
      → (st : Search Slot Point F) × (candidates b k yubikeys files ≡ some st)
        × ((i : ℕ) (ss : List Stanza)
            → get_elem? files i ≡ some ss
            → IsNoted i (file_errors b k i 0 ss) st)
  unfolding candidates Processed get
  candidates-IsNoted yubikeys files =
      let (st, e, h, _) =
        note_files-Processed 0 files
          (record { file_keys = []; candidate_stanzas = map (λ stub. (stub, [])) yubikeys })
          (λ g n. refl) in
      (
        st,
        e,
        λ i ss g.
            let index : 0 + i ≡ i = omega arith in
            subst (λ j. IsNoted j (file_errors b k j 0 ss) st) index (h i ss g),
      )
