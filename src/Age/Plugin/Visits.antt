-- ===== src/Age/Plugin/Visits.antt =====
-- Which YubiKeys `IdentityPlugin::unwrap_file_keys` of age-plugin-yubikey/src/plugin.rs connects to, and
-- in which order.
use mathlib.Core.List.{filter, Perm}
use native.Mathlib.Decide.{dec_lt}
use remote_yubikey_manager.Common.{ℕ, ◌≡◌, refl, List, [], ◌∷◌, Option, none, some}
use remote_yubikey_manager.Common.Bytes.{Bytes}
use remote_yubikey_manager.Common.Eq.{nat_eq}
use remote_yubikey_manager.Age.Slots.{RetiredSlotId}
use remote_yubikey_manager.Age.Stanza.{Base64, Stanza}
use remote_yubikey_manager.Age.Candidates.{Search, candidates}
use remote_yubikey_manager.Age.Yubikey.{Cards}
use remote_yubikey_manager.Age.Recipient.{Curve, Crypto}
use remote_yubikey_manager.Age.Metadata.{X509}
use remote_yubikey_manager.Age.Connection.{Callbacks, Keys, Attempt, connect}
use remote_yubikey_manager.Age.Connection.Session.{Session}
use remote_yubikey_manager.Age.Step.{Step, next, stopped, panicked, starved, ◌>>=◌}
use remote_yubikey_manager.Age.Plugin.{
  Ranked, effectiveness, ranked, FileKeys, Stubs, on_connected, try_yubikeys, on_candidates,
  unwrap_file_keys,
}
use remote_yubikey_manager.Age.Plugin.Order.{Descends, ranked-Descends}

module _ {Point : Type 0} (k : Curve Point) (x : Crypto k) (c : Cards) (keys : Keys c Point)
    (x509 : X509) (cb : Callbacks c.World) (fuel rounds : ℕ) where
  open c use {World}

  -- One YubiKey: a connection to it is attempted, and what follows goes on with the file keys.
  pub record Visit (r : Ranked Point) (before : FileKeys) (w : World) (after : FileKeys)
      (w' : World) : Type 0 where
    pub attempt : Attempt cb.IoError (Session k c keys)
    pub between : World
    pub connects : connect k c keys cb r.0 fuel rounds w ≡ (some attempt, between)
    pub goes_on :
        on_connected k x c keys x509 cb fuel rounds r.1 before (some attempt, between)
        ≡ (next after, w')

  -- All YubiKeys of a list, one after the other, each in the world that the one before has left
  abbrev pub Visits : List (Ranked Point) → FileKeys → World → FileKeys → World → Type 0
  Visits [] before w after w' = (before ≡ after) × (w ≡ w')
  Visits (r ∷ rs) before w after w' =
      (mid : FileKeys) × (w1 : World) × Visit r before w mid w1 × Visits rs mid w1 after w'

  -- What becomes of a call that returns file keys.
  abbrev pub Returned : (FileKeys → World → Type 0) → Step cb.IoError FileKeys × World → Type 0
  Returned P (next after, w) = P after w
  Returned P (stopped e, w) = Unit {0}
  Returned P (panicked, w) = Unit {0}
  Returned P (starved, w) = Unit {0}

  visited :
      (r : Ranked Point) (before : FileKeys) (w : World)
      (o : Option (Attempt cb.IoError (Session k c keys)) × World)
      → connect k c keys cb r.0 fuel rounds w ≡ o
      → (m : Step cb.IoError FileKeys × World)
      → on_connected k x c keys x509 cb fuel rounds r.1 before o ≡ m
      → Returned (Visit r before w) m
  visited r before w (some attempt, between) e (next after, w') f = record {
    attempt = attempt;
    between = between;
    connects = e;
    goes_on = f;
  }
  visited r before w (none, between) e (next after, w') f = cc
  visited r before w o e (stopped x, w') f = tt
  visited r before w o e (panicked, w') f = tt
  visited r before w o e (starved, w') f = tt

  Visits-rest :
      (r : Ranked Point) (rs : List (Ranked Point)) (before : FileKeys) (w : World)
      (m : Step cb.IoError FileKeys × World)
      → Returned (Visit r before w) m
      → ((mid : FileKeys) (w1 : World)
          → Returned (Visits rs mid w1) (try_yubikeys k x c keys x509 cb fuel rounds rs mid w1))
      → Returned
          (Visits (r ∷ rs) before w)
          (m >>= λ mid w1. try_yubikeys k x c keys x509 cb fuel rounds rs mid w1)
  Visits-rest r rs before w (next mid, w1) v f =
      extended (try_yubikeys k x c keys x509 cb fuel rounds rs mid w1) (f mid w1)
    where
      extended :
          (o : Step cb.IoError FileKeys × World)
          → Returned (Visits rs mid w1) o
          → Returned (Visits (r ∷ rs) before w) o
      extended (next after, w') h = (mid, w1, v, h)
      extended (stopped e, w') h = tt
      extended (panicked, w') h = tt
      extended (starved, w') h = tt
  Visits-rest r rs before w (stopped e, w1) v f = tt
  Visits-rest r rs before w (panicked, w1) v f = tt
  Visits-rest r rs before w (starved, w1) v f = tt

  try_yubikeys-Visits :
      (rs : List (Ranked Point)) (before : FileKeys) (w : World)
      → Returned (Visits rs before w) (try_yubikeys k x c keys x509 cb fuel rounds rs before w)
  unfolding try_yubikeys
  try_yubikeys-Visits [] before w = (refl, refl)
  try_yubikeys-Visits ((stub, files) ∷ rs) before w =
      let o = connect k c keys cb stub fuel rounds w in
      let m = on_connected k x c keys x509 cb fuel rounds files before o in
      Visits-rest (stub, files) rs before w m (visited (stub, files) before w o refl m refl)
        (try_yubikeys-Visits rs)

  module _ (b : Base64) (yubikeys : Stubs) (files : List (List Stanza)) where
    -- The YubiKeys with a stanza, in the order of how many stanzas each can try, were all visited.
    pub record Tried (w : World) (after : FileKeys) (w' : World) : Type 0 where
      pub search : Search RetiredSlotId Point Bytes
      pub finds : candidates b k.points yubikeys files ≡ some search
      pub order : List (Ranked Point)
      pub descends : Descends order
      pub complete :
          Perm order (filter (λ r. dec_lt 0 (effectiveness r.1)) search.candidate_stanzas)
      pub visits : Visits order search.file_keys w after w'

    candidates-Tried :
        (o : Option (Search RetiredSlotId Point Bytes)) (w : World)
        → candidates b k.points yubikeys files ≡ o
        → Returned (Tried w) (on_candidates k x c keys x509 cb fuel rounds o w)
    candidates-Tried none w e = tt
    candidates-Tried (some st) w e =
        returned
          (try_yubikeys k x c keys x509 cb fuel rounds (ranked st.candidate_stanzas) st.file_keys w)
          (try_yubikeys-Visits (ranked st.candidate_stanzas) st.file_keys w)
      where
        returned :
            (m : Step cb.IoError FileKeys × World)
            → Returned (Visits (ranked st.candidate_stanzas) st.file_keys w) m
            → Returned (Tried w) m
        returned (next after, w') v = record {
          search = st;
          finds = e;
          order = ranked st.candidate_stanzas;
          descends = (ranked-Descends st.candidate_stanzas).0;
          complete = (ranked-Descends st.candidate_stanzas).1;
          visits = v;
        }
        returned (stopped x, w') v = tt
        returned (panicked, w') v = tt
        returned (starved, w') v = tt

    -- A call that returns has attempted to connect to each YubiKey that has a stanza to try, exactly
    -- once, one after the other, and to one with more stanzas to try before one with fewer; each was
    -- tried in the world and with the file keys that the one before has left, and the last one has
    -- left what is returned.
    pub unwrap_file_keys-Tried :
        (w : World)
        → Returned (Tried w) (unwrap_file_keys k x c keys x509 cb fuel rounds b yubikeys files w)
    unfolding unwrap_file_keys
    unwrap_file_keys-Tried w = candidates-Tried (candidates b k.points yubikeys files) w refl
