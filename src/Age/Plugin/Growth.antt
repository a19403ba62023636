-- ===== src/Age/Plugin/Growth.antt =====
-- The results of the files before and after a part of `IdentityPlugin::unwrap_file_keys` of
-- age-plugin-yubikey/src/plugin.rs.
use remote_yubikey_manager.Common.{
  ℕ, ◌≡◌, ◌⊎◌, sym, ◌∙◌, inl, inr, Option, none, some, Bool-cases, ◌==◌, ==_iff,
}
use mathlib.Core.Option.{some-injective}
use remote_yubikey_manager.Common.Bytes.{Bytes}
use remote_yubikey_manager.Common.Dict.{get, insert, get-insert}
use remote_yubikey_manager.Common.Eq.{nat_eq}
use remote_yubikey_manager.Common.Outcome.{Outcome}
use remote_yubikey_manager.Age.Slots.{RetiredSlotId}
use remote_yubikey_manager.Age.Stub.{Stub}
use remote_yubikey_manager.Age.Stanza.{RecipientLine}
use remote_yubikey_manager.Age.Candidates.{FileResult, unwrapped}
use remote_yubikey_manager.Age.Yubikey.{Cards}
use remote_yubikey_manager.Age.Recipient.{Curve, Crypto}
use remote_yubikey_manager.Age.Connection.{Callbacks, Keys}
use remote_yubikey_manager.Age.Connection.Connect.{IsFor}
use remote_yubikey_manager.Age.Connection.Session.{Session, unwrap_file_key}
use remote_yubikey_manager.Age.Plugin.{FileKeys, or_insert}

module _ {Point : Type 0} (k : Curve Point) (x : Crypto k) (c : Cards) (keys : Keys c Point)
    (cb : Callbacks c.World) where
  open c use {World, YubiKey}

  module _ (P : Stub RetiredSlotId → ℕ → RecipientLine Point → Type 0) where
    -- Where a key comes from: a candidate line of the file, unwrapped over a connection to the YubiKey of
    -- its stub.
    pub record Source (file : ℕ) (key : Bytes) : Type 0 where
      pub stub : Stub RetiredSlotId
      pub line : RecipientLine Point
      pub conn : Session k c keys
      pub world : World
      pub candidate : P stub file line
      pub belongs : IsFor k c keys cb stub conn
      pub opens : (unwrap_file_key k c keys x conn line world).0 ≡ Outcome.ok key

    -- No result is changed, and each new one is a key with a source.
    pub record Grown (before after : FileKeys) : Type 0 where
      pub kept :
          (file : ℕ) (r : FileResult Bytes) → get file before ≡ some r → get file after ≡ some r
      pub sourced :
          (file : ℕ) (r : FileResult Bytes)
          → get file after ≡ some r
          → (get file before ≡ some r) ⊎ ((key : Bytes) × (r ≡ unwrapped key) × Source file key)

    pub Grown-same : (a : FileKeys) → Grown a a
    Grown-same a = record { kept = λ f r e. e; sourced = λ f r e. inl e }

    pub Grown-then : (a b d : FileKeys) → Grown a b → Grown b d → Grown a d
    Grown-then a b d g h = record {
      kept = λ f r e. h.kept f r (g.kept f r e);
      sourced = λ f r e. elim (h.sourced f r e) [ inl q ↦ g.sourced f r q | inr s ↦ inr s ];
    }

    pub Grown-or_insert :
        (file : ℕ) (key : Bytes) (o : Option (FileResult Bytes)) (a : FileKeys)
        → get file a ≡ o
        → Source file key
        → Grown a (or_insert file key o a)
    unfolding or_insert
    Grown-or_insert file key (some r) a e s = Grown-same a
    Grown-or_insert file key none a e s = record { kept = kept_by; sourced = sourced_by }
      where
        kept_by :
            (f : ℕ) (r : FileResult Bytes)
            → get f a ≡ some r
            → get f (insert file (unwrapped key) a) ≡ some r
        kept_by f r q = elim (Bool-cases (file == f)) [
          | inl t ↦
              let same : file ≡ f = (==_iff file f).0 t in
              let bad : Path (Option (FileResult Bytes)) none (some r) = sym e ∙ rw (← same) at q in
              cc
          | inr n ↦ get-insert file f (unwrapped key) a ∙ rw n q
        ]

        sourced_by :
            (f : ℕ) (r : FileResult Bytes)
            → get f (insert file (unwrapped key) a) ≡ some r
            → (get f a ≡ some r) ⊎ ((key' : Bytes) × (r ≡ unwrapped key') × Source f key')
        sourced_by f r q = elim (Bool-cases (file == f)) [
          | inl t ↦
              let now : some (unwrapped key) ≡ some r =
                rw (get-insert file f (unwrapped key) a, t) at q in
              let same : unwrapped key ≡ r = some-injective _ _ now in
              inr (key, sym same, rw (← (==_iff file f).0 t) s)
          | inr n ↦ inl (rw (get-insert file f (unwrapped key) a, n) at q)
        ]
