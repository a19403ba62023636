-- ===== src/Age/Connection/Unwrapping.antt =====
-- `wrap_file_key` of age-plugin-yubikey/src/format.rs, the stanza, and `unwrap_file_key` of key.rs.
use remote_yubikey_manager.Common.{
  ◌≡◌, ◌≢◌, refl, sym, ap, ◌∙◌, Bool, true, false, Option, none, some, length, ◌==◌, ==_iff,
}
use remote_yubikey_manager.Common.Bytes.{Bytes}
use remote_yubikey_manager.Common.Eq.{nat_eq, list_beq, list_beq_iff}
use remote_yubikey_manager.Common.Result.{Result, ok, err}
use remote_yubikey_manager.Common.Outcome.{Outcome, panic}
use remote_yubikey_manager.Age.Policy.{TouchPolicy}
use remote_yubikey_manager.Age.Yubikey.{Cards, YubikeyError}
use remote_yubikey_manager.Age.Stanza.{
  Base64, IsBase64, IsPoints, RecipientLine, IsLine, into_stanza, from_stanza,
}
use remote_yubikey_manager.Age.Stanza.RoundTrip.{from_stanza-into_stanza}
use remote_yubikey_manager.Age.Recipient.{
  Curve, IsCurve, Crypto, IsCrypto, tag, salt, stanza_key_label, wrap_file_key, file_key_bytes,
}
use remote_yubikey_manager.Age.Recipient.Wrapping.{wrapped, wrap_file_key-wrapped, wrapped-IsLine}
use remote_yubikey_manager.Age.Connection.{Keys}
use remote_yubikey_manager.Age.Connection.Session.{
  Session, note_touch, needs_touch, touch_policy_of, open_key, on_decrypted, sized, on_shared,
  on_point, on_touch, unwrap_file_key,
}

module _ {Point : Type 0} (k : Curve Point) (c : Cards) (keys : Keys c Point) (l : IsCurve k)
    (x : Crypto k) (m : IsCrypto x) where
  open c use {World, YubiKey}

  note_touch_pk :
      (conn : Session k c keys) (b : Bool) (p : Option TouchPolicy) (w : World)
      → (note_touch k c keys conn b p w).0.pk ≡ conn.pk
  unfolding note_touch
  note_touch_pk conn true (some TouchPolicy.cached) w = refl
  note_touch_pk conn true (some TouchPolicy.always) w = refl
  note_touch_pk conn true (some TouchPolicy.never) w = refl
  note_touch_pk conn true (some TouchPolicy.default) w = refl
  note_touch_pk conn true none w = refl
  note_touch_pk conn false p w = refl

  open_key_pk :
      (conn conn' : Session k c keys)
      → conn.pk ≡ conn'.pk
      → (line : RecipientLine Point) (s : Bytes)
      → open_key k c keys x conn line s ≡ open_key k c keys x conn' line s
  unfolding open_key
  open_key_pk conn conn' e line s =
      ap
        (λ pk. on_decrypted k c keys x (
          x.aead_decrypt (x.hkdf (salt k x line.epk_bytes pk) stanza_key_label s) 16
            line.encrypted_file_key))
        e

  sized-length : (pt : Bytes) → length pt ≡ 16 → sized k c keys x pt ≡ Outcome.ok pt
  sized-length pt h =
      let fits : (length pt == file_key_bytes) ≡ true = (==_iff (length pt) file_key_bytes).1 h in
      rw fits refl

  module _ (file_key : Bytes) (esk : x.EphemeralSecret) (size : length file_key ≡ 16) where
    open_key-wrapped :
        (conn : Session k c keys)
        → open_key k c keys x conn
            (wrapped k l x m file_key conn.pk esk)
            (x.diffie_hellman esk conn.pk)
          ≡ Outcome.ok file_key
    unfolding open_key wrapped
    open_key-wrapped conn =
        ap
          (λ key. on_decrypted k c keys x (
            x.aead_decrypt key 16 (
              x.aead_encrypt
                (x.extract_expand (salt k x (k.to_encoded_point (x.public_key esk) true) conn.pk)
                  stanza_key_label (x.diffie_hellman esk conn.pk))
                file_key)))
          (m.hkdf-extract_expand (salt k x (k.to_encoded_point (x.public_key esk) true) conn.pk)
            stanza_key_label (x.diffie_hellman esk conn.pk))
        ∙ ap
            (λ n. on_decrypted k c keys x (
              x.aead_decrypt
                (x.extract_expand (salt k x (k.to_encoded_point (x.public_key esk) true) conn.pk)
                  stanza_key_label (x.diffie_hellman esk conn.pk))
                n
                (x.aead_encrypt
                  (x.extract_expand (salt k x (k.to_encoded_point (x.public_key esk) true) conn.pk)
                    stanza_key_label (x.diffie_hellman esk conn.pk))
                  file_key)))
            (sym size)
        ∙ ap (on_decrypted k c keys x) (
            m.aead_decrypt-aead_encrypt
              (x.extract_expand (salt k x (k.to_encoded_point (x.public_key esk) true) conn.pk)
                stanza_key_label (x.diffie_hellman esk conn.pk))
              file_key)
        ∙ sized-length file_key size

    module _ (conn : Session k c keys)
        (agrees : (w : World)
          → (keys.decrypt_data conn.yubikey
              (k.points.point_as_bytes (k.to_encoded_point (x.public_key esk) false))
              conn.slot
              w).0
            ≡ ok (x.diffie_hellman esk conn.pk)) where
      on_shared-wrapped :
          (b : Bool) (o : Result YubikeyError Bytes × World)
          → o.0 ≡ ok (x.diffie_hellman esk conn.pk)
          → (on_shared k c keys x conn (wrapped k l x m file_key conn.pk esk) b o).0
            ≡ Outcome.ok file_key
      on_shared-wrapped b (err e, w) h = cc
      on_shared-wrapped b (ok s, w) h =
          ap (λ o. (on_shared k c keys x conn (wrapped k l x m file_key conn.pk esk) b (o, w)).0) h
          ∙ open_key_pk
              (note_touch k c keys conn b (touch_policy_of k c keys conn.cached_metadata) w).0 conn
              (note_touch_pk conn b (touch_policy_of k c keys conn.cached_metadata) w)
              (wrapped k l x m file_key conn.pk esk) (x.diffie_hellman esk conn.pk)
          ∙ open_key-wrapped conn

      on_touch-wrapped :
          (o : Bool × World)
          → (on_touch k c keys x conn (wrapped k l x m file_key conn.pk esk) o).0
            ≡ Outcome.ok file_key
      on_touch-wrapped (b, w) =
          ap (λ p. (on_point k c keys x conn (wrapped k l x m file_key conn.pk esk) b w p).0)
            decoded
          ∙ on_shared-wrapped b
              (keys.decrypt_data conn.yubikey
                (k.points.point_as_bytes (k.to_encoded_point (x.public_key esk) false)) conn.slot w)
              (agrees w)
        where
          decoded :
              k.from_encoded_point (wrapped k l x m file_key conn.pk esk).epk_bytes
              ≡ some (x.public_key esk)
          decoded = unfold wrapped in l.from_encoded_point-to_encoded_point (x.public_key esk) true

      unwrap-wrapped :
          conn.tag ≡ tag k conn.pk
          → (w : World)
          → (unwrap_file_key k c keys x conn (wrapped k l x m file_key conn.pk esk) w).0
            ≡ Outcome.ok file_key
      unfolding unwrap_file_key
      unwrap-wrapped tagged w =
          rw (unwrap_file_key, same)
            (on_touch-wrapped (
              needs_touch k c keys (touch_policy_of k c keys conn.cached_metadata) conn.last_touch
                w))
        where
          same : list_beq conn.tag (wrapped k l x m file_key conn.pk esk).line_tag ≡ true
          same =
              (list_beq_iff conn.tag (wrapped k l x m file_key conn.pk esk).line_tag).1
                (unfold wrapped in tagged)

      -- A file key of 16 bytes that is wrapped for the key of a connection is written to a stanza,
      -- from which the line is read back and unwrapped to the file key, if the YubiKey computes the
      -- shared secret that the sender used.
      pub unwrap_file_key-wrap_file_key :
          (b : Base64)
          → IsBase64 b
          → IsPoints k.points
          → conn.tag ≡ tag k conn.pk
          → (w : World)
          → (line : RecipientLine Point) × (wrap_file_key k x file_key conn.pk esk ≡ some line)
            × (from_stanza b k.points (into_stanza b k.points line) ≡ some (some line))
            × ((unwrap_file_key k c keys x conn line w).0 ≡ Outcome.ok file_key)
      unwrap_file_key-wrap_file_key b lb lp tagged w = (
        wrapped k l x m file_key conn.pk esk,
        wrap_file_key-wrapped k l x m file_key conn.pk esk size,
        from_stanza-into_stanza b lb k.points lp (wrapped k l x m file_key conn.pk esk)
            (wrapped-IsLine k l x m b file_key conn.pk esk size),
        unwrap-wrapped tagged w,
      )

  module _ (conn : Session k c keys) (line : RecipientLine Point) where
    open_key-ne-panic :
        (conn' : Session k c keys) (s : Bytes) → open_key k c keys x conn' line s ≢ panic
    unfolding open_key
    open_key-ne-panic conn' s =
        go
          (x.aead_decrypt (x.hkdf (salt k x line.epk_bytes conn'.pk) stanza_key_label s) 16
            line.encrypted_file_key)
          refl
      where
        go :
            (o : Option Bytes)
            → x.aead_decrypt
                (x.hkdf (salt k x line.epk_bytes conn'.pk) stanza_key_label s)
                16
                line.encrypted_file_key
              ≡ o
            → on_decrypted k c keys x o ≢ panic
        go none e = λ h. cc
        go (some pt) e =
            rw
              (sized-length pt (
                m.length-aead_decrypt (x.hkdf (salt k x line.epk_bytes conn'.pk) stanza_key_label s)
                  16 line.encrypted_file_key pt e))
              (λ h. cc)

    on_shared-ne-panic :
        (b : Bool) (o : Result YubikeyError Bytes × World)
        → (on_shared k c keys x conn line b o).0 ≢ panic
    on_shared-ne-panic b (err e, w) = λ h. cc
    on_shared-ne-panic b (ok s, w) =
        open_key-ne-panic
          (note_touch k c keys conn b (touch_policy_of k c keys conn.cached_metadata) w).0 s

    on_touch-ne-panic :
        k.points.is_public_key line.epk_bytes ≡ true
        → (o : Bool × World) → (on_touch k c keys x conn line o).0 ≢ panic
    on_touch-ne-panic valid (b, w) =
        let point = l.is_public_key_decodes line.epk_bytes valid in
        rw point.1 (
          on_shared-ne-panic b (
            keys.decrypt_data conn.yubikey
              (k.points.point_as_bytes (k.to_encoded_point point.0 false)) conn.slot w))

    -- A line that was accepted from a stanza and has the connection's tag is unwrapped without a panic:
    -- it gives a file key or an error.
    pub unwrap_file_key-ne-panic :
        (b : Base64)
        → IsLine b k.points line
        → conn.tag ≡ line.line_tag
        → (w : World) → (unwrap_file_key k c keys x conn line w).0 ≢ panic
    unfolding unwrap_file_key
    unwrap_file_key-ne-panic b valid tagged w =
        let same : list_beq conn.tag line.line_tag ≡ true =
          (list_beq_iff conn.tag line.line_tag).1 tagged in
        rw (unwrap_file_key, same)
          (on_touch-ne-panic valid.epk_valid (
            needs_touch k c keys (touch_policy_of k c keys conn.cached_metadata) conn.last_touch w))
