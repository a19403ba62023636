-- ===== src/Age/Plugin/Wrap/Everyone.antt =====
-- Whom `RecipientPlugin::wrap_file_keys` of age-plugin-yubikey/src/plugin.rs wraps file keys for.
use remote_yubikey_manager.Common.{
  ℕ, ◌≡◌, ◌≢◌, refl, sym, List, [], ◌∷◌, ◌++◌, Option, none, some, All, length, append_assoc,
  append-nil,
}
use mathlib.Core.Path.{subst}
use remote_yubikey_manager.Common.Bytes.{Bytes}
use remote_yubikey_manager.Common.Result.{Result, ok, err}
use remote_yubikey_manager.Age.Slots.{RetiredSlotId}
use remote_yubikey_manager.Age.Stub.{Slots, Stub}
use remote_yubikey_manager.Age.Stanza.{Base64, Stanza, RecipientLine, into_stanza}
use remote_yubikey_manager.Age.Yubikey.{Cards}
use remote_yubikey_manager.Age.Recipient.{
  Curve, IsCurve, Crypto, IsCrypto, Recipient, tag, wrap_file_key,
}
use remote_yubikey_manager.Age.Recipient.Wrapping.{wrapped, wrap_file_key-wrapped}
use remote_yubikey_manager.Age.Connection.{
  Callbacks, Keys, Connection, Attempt, connected, skipped, failed, broken, yk_opening, connect,
}
use remote_yubikey_manager.Age.Connection
use remote_yubikey_manager.Age.Connection.Session.{Session}
use remote_yubikey_manager.Age.Connection.Connect.{Fits, connect-Fits}
use remote_yubikey_manager.Age.Step.{next, ◌>>=◌, Holds, Holds->>=}
use remote_yubikey_manager.Age.Plugin.{RecipientError, identity, RecipientPlugin}
use remote_yubikey_manager.Age.Plugin.Wrap.{
  Collected, on_connection, collect, wrap_for, wrap_each, finish, wrap_file_keys,
}

-- Two lists of one length, related item by item.
abbrev pub Pairs : {A B : Type 0} → (A → B → Type 0) → List A → List B → Type 0
Pairs R [] [] = Unit
Pairs R [] (y ∷ ys) = ⊥
Pairs R (x ∷ xs) [] = ⊥
Pairs R (x ∷ xs) (y ∷ ys) = R x y × Pairs R xs ys

Pairs-snoc :
    {A B : Type 0} (R : A → B → Type 0) (xs : List A) (ys : List B) (x : A) (y : B)
    → Pairs R xs ys
    → R x y
    → Pairs R (xs ++ (x ∷ [])) (ys ++ (y ∷ []))
Pairs-snoc R [] [] x y h r = (r, tt)
Pairs-snoc R [] (y' ∷ ys) x y h r = absurd h
Pairs-snoc R (x' ∷ xs) [] x y h r = absurd h
Pairs-snoc R (x' ∷ xs) (y' ∷ ys) x y h r = (h.0, Pairs-snoc R xs ys x y h.1 r)

append-ne-nil : {A : Type 0} (xs : List A) (x : A) → xs ++ (x ∷ []) ≢ []
append-ne-nil [] x = λ e. cc
append-ne-nil (y ∷ ys) x = λ e. cc

module _ {Point : Type 0} (k : Curve Point) (x : Crypto k) (c : Cards) (keys : Keys c Point)
    (cb : Callbacks c.World) where
  open c use {World, YubiKey}

  -- A recipient with the tag of a stub
  abbrev pub KeyOf : Stub RetiredSlotId → Recipient k → Type 0
  KeyOf stub pk = tag k pk ≡ stub.tag

  -- Without an error, each stub so far has its recipient.
  abbrev Complete : List (Stub RetiredSlotId) → Collected k x c keys cb → Type 0
  Complete stubs (pks, []) = Pairs KeyOf stubs pks
  Complete stubs (pks, e ∷ es) = Unit {0}

  Complete-error :
      (stubs : List (Stub RetiredSlotId)) (pks : List (Recipient k)) (es : List RecipientError)
      (e : RecipientError)
      → Complete stubs (pks, es ++ (e ∷ []))
  Complete-error stubs pks [] e = tt
  Complete-error stubs pks (e' ∷ es) e = tt

  Complete-next :
      (done : List (Stub RetiredSlotId)) (stub : Stub RetiredSlotId) (pks : List (Recipient k))
      (es : List RecipientError) (pk : Recipient k)
      → Complete done (pks, es)
      → KeyOf stub pk
      → Complete (done ++ (stub ∷ [])) (pks ++ (pk ∷ []), es)
  Complete-next done stub pks [] pk h r = Pairs-snoc KeyOf done pks stub pk h r
  Complete-next done stub pks (e ∷ es) pk h r = tt

  on_connection-Complete :
      (done : List (Stub RetiredSlotId)) (stub : Stub RetiredSlotId) (a : Collected k x c keys cb)
      (o : Option (Attempt cb.IoError (Session k c keys)) × World)
      → Complete done a
      → Fits k c keys cb stub o.0
      → Holds (Complete (done ++ (stub ∷ []))) (on_connection k x c keys cb stub a o)
  on_connection-Complete done stub a (none, w) h f = tt
  on_connection-Complete done stub (pks, es) (some (connected conn), w) h f =
      Complete-next done stub pks es conn.pk h f.key_agrees
  on_connection-Complete done stub (pks, es) (some skipped, w) h f =
      Complete-error (done ++ (stub ∷ [])) pks es
        (identity stub.identity_index (yk_opening stub.serial))
  on_connection-Complete done stub (pks, es) (some (failed (Connection.identity i e)), w) h f =
      Complete-error (done ++ (stub ∷ [])) pks es (identity i e)
  on_connection-Complete done stub a (some (failed (Connection.stanza e)), w) h f = f
  on_connection-Complete done stub a (some (broken e), w) h f = tt

  module _ (fuel rounds : ℕ) where
    collect-Complete :
        (done stubs : List (Stub RetiredSlotId)) (a : Collected k x c keys cb) (w : World)
        → Complete done a
        → Holds (Complete (done ++ stubs)) (collect k x c keys cb fuel rounds stubs a w)
    unfolding collect
    collect-Complete done [] a w h = subst (λ l. Complete l a) (sym (append-nil done)) h
    collect-Complete done (stub ∷ stubs) a w h =
        Holds->>= (Complete (done ++ (stub ∷ []))) (Complete (done ++ (stub ∷ stubs)))
          (on_connection k x c keys cb stub a (connect k c keys cb stub fuel rounds w))
          (λ a' w'. collect k x c keys cb fuel rounds stubs a' w')
          (on_connection-Complete done stub a (connect k c keys cb stub fuel rounds w) h
            (connect-Fits k c keys cb stub fuel rounds w))
          (λ a' w' h'.
            subst (λ l. Holds (Complete l) (collect k x c keys cb fuel rounds stubs a' w'))
              (append_assoc done (stub ∷ []) stubs)
              (collect-Complete (done ++ (stub ∷ [])) stubs a' w' h'))

    module _ (b : Base64) (draw : World → x.EphemeralSecret × World) where
      -- A stanza with the line that the file key is wrapped to for the recipient
      abbrev pub Sealed : Bytes → Recipient k → Stanza → Type 0
      Sealed file_key pk s =
          (esk : x.EphemeralSecret) × (line : RecipientLine Point) × (wrap_file_key k x file_key pk
              esk
            ≡ some line)
          × (s ≡ into_stanza b k.points line)

      module _ (l : IsCurve k) (m : IsCrypto x) where
        wrap_for-Sealed :
            (file_key : Bytes) (pks : List (Recipient k)) (w : World)
            → length file_key ≡ 16
            → Holds
                (Pairs (Sealed file_key) pks)
                (wrap_for k x c keys cb fuel rounds b draw file_key pks w)
        unfolding wrap_for
        wrap_for-Sealed file_key [] w h = tt
        wrap_for-Sealed file_key (pk ∷ pks) w h =
            rw (wrap_file_key-wrapped k l x m file_key pk (draw w).0 h) (
              Holds->>= (Pairs (Sealed file_key) pks) (Pairs (Sealed file_key) (pk ∷ pks))
                (wrap_for k x c keys cb fuel rounds b draw file_key pks (draw w).1)
                (λ ss w'.
                  (next (into_stanza b k.points (wrapped k l x m file_key pk (draw w).0) ∷ ss), w'))
                (wrap_for-Sealed file_key pks (draw w).1 h)
                (λ ss w' hs. (
                  (
                    (draw w).0,
                    wrapped k l x m file_key pk (draw w).0,
                    wrap_file_key-wrapped k l x m file_key pk (draw w).0 h,
                    refl,
                  ),
                  hs,
                )))

        abbrev pub AllSealed : List (Recipient k) → List Bytes → List (List Stanza) → Type 0
        AllSealed pks = Pairs (λ file_key ss. Pairs (Sealed file_key) pks ss)

        wrap_each-Sealed :
            (file_keys : List Bytes) (pks : List (Recipient k)) (w : World)
            → All (λ file_key. length file_key ≡ 16) file_keys
            → Holds
                (AllSealed pks file_keys)
                (wrap_each k x c keys cb fuel rounds b draw file_keys pks w)
        unfolding wrap_each
        wrap_each-Sealed [] pks w h = tt
        wrap_each-Sealed (file_key ∷ file_keys) pks w h =
            Holds->>= (Pairs (Sealed file_key) pks) (AllSealed pks (file_key ∷ file_keys))
              (wrap_for k x c keys cb fuel rounds b draw file_key pks w)
              (λ ss w'. wrap_each k x c keys cb fuel rounds b draw file_keys pks w' >>= λ rest w''.
                (next (ss ∷ rest), w''))
              (wrap_for-Sealed file_key pks w h.0)
              (λ ss w' hs.
                Holds->>= (AllSealed pks file_keys) (AllSealed pks (file_key ∷ file_keys))
                  (wrap_each k x c keys cb fuel rounds b draw file_keys pks w')
                  (λ rest w''. (next (ss ∷ rest), w'')) (wrap_each-Sealed file_keys pks w' h.1)
                  (λ rest w'' hr. (hs, hr)))

        module _ (slots : Slots RetiredSlotId) (p : RecipientPlugin k slots)
            (file_keys : List Bytes) where
          -- Either each stub has a recipient with its tag, and each file key has one stanza for each
          -- recipient of the plugin and of the stubs, in this order; or there are errors and no stanza.
          abbrev pub ForEveryone : Result (List RecipientError) (List (List Stanza)) → Type 0
          ForEveryone (ok sss) =
              (pks : List (Recipient k)) × Pairs KeyOf p.yubikeys pks
              × AllSealed (p.recipients ++ pks) file_keys sss
          ForEveryone (err es) = es ≢ []

          finish-ForEveryone :
              (a : Collected k x c keys cb) (w : World)
              → All (λ file_key. length file_key ≡ 16) file_keys
              → Complete p.yubikeys a
              → Holds ForEveryone
                  (finish k x c keys cb fuel rounds b draw file_keys p.recipients a w)
          finish-ForEveryone (pks, []) w h q =
              Holds->>= (AllSealed (p.recipients ++ pks) file_keys) ForEveryone
                (wrap_each k x c keys cb fuel rounds b draw file_keys (p.recipients ++ pks) w)
                (λ sss w'. (next (ok sss), w'))
                (wrap_each-Sealed file_keys (p.recipients ++ pks) w h) (λ sss w' hs. (pks, q, hs))
          finish-ForEveryone (pks, e ∷ es) w h q = λ z. cc

          -- The call never meets its `unreachable!()`. With file keys of 16 bytes it either fails with at
          -- least one error, or gives each file key a stanza for each recipient of the plugin and for a
          -- key with the tag of each stub, in this order.
          pub wrap_file_keys-ForEveryone :
              (w : World)
              → All (λ file_key. length file_key ≡ 16) file_keys
              → Holds ForEveryone
                  (wrap_file_keys k x c keys cb fuel rounds b draw slots file_keys p w)
          unfolding wrap_file_keys
          wrap_file_keys-ForEveryone w h =
              Holds->>= (Complete p.yubikeys) ForEveryone
                (collect k x c keys cb fuel rounds p.yubikeys ([], []) w)
                (λ a w'. finish k x c keys cb fuel rounds b draw file_keys p.recipients a w')
                (collect-Complete [] p.yubikeys ([], []) w tt)
                (λ a w' q. finish-ForEveryone a w' h q)
