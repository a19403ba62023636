-- ===== src/Age/Recipient/Wrapping.antt =====
-- Lines that `wrap_file_key` makes (age-plugin-yubikey/src/format.rs).
use remote_yubikey_manager.Common.{◌≡◌, refl, true, some, length, length-take, ◌==◌, ==_iff, arith}
use remote_yubikey_manager.Common.Bytes.{Bytes}
use remote_yubikey_manager.Age.Stanza.{
  RecipientLine, IsLine, Base64, tag_bytes, encrypted_file_key_bytes,
}
use remote_yubikey_manager.Age.Recipient.{
  Curve, IsCurve, Crypto, IsCrypto, Recipient, tag, to_encoded, salt, wrap_file_key,
  stanza_key_label,
}

module _ {Point : Type 0} (k : Curve Point) (l : IsCurve k) where
  pub length-tag : (pk : Recipient k) → length (tag k pk) ≡ 4
  unfolding tag
  length-tag pk =
      length-take tag_bytes (k.digest (k.points.point_as_bytes (to_encoded k pk)))
        (omega (arith, l.length-digest (k.points.point_as_bytes (to_encoded k pk))))

  module _ (x : Crypto k) (m : IsCrypto x) where
    -- The line that a file key is wrapped to
    unfoldable pub wrapped : Bytes → Recipient k → x.EphemeralSecret → RecipientLine Point
    wrapped file_key pk esk = record {
      line_tag = tag k pk;
      epk_bytes = k.to_encoded_point (x.public_key esk) true;
      encrypted_file_key =
          x.aead_encrypt
            (x.extract_expand (salt k x (k.to_encoded_point (x.public_key esk) true) pk)
              stanza_key_label (x.diffie_hellman esk pk))
            file_key;
    }

    pub wrap_file_key-wrapped :
        (file_key : Bytes) (pk : Recipient k) (esk : x.EphemeralSecret)
        → length file_key ≡ 16
        → wrap_file_key k x file_key pk esk ≡ some (wrapped file_key pk esk)
    unfolding wrap_file_key wrapped
    wrap_file_key-wrapped file_key pk esk h =
        let key =
          x.extract_expand (salt k x (k.to_encoded_point (x.public_key esk) true) pk)
            stanza_key_label (x.diffie_hellman esk pk) in
        let fits : (length (x.aead_encrypt key file_key) == encrypted_file_key_bytes) ≡ true =
          (==_iff (length (x.aead_encrypt key file_key)) encrypted_file_key_bytes).1
            (omega (arith, m.length-aead_encrypt key file_key)) in
        rw (wrap_file_key, fits) refl

    pub wrapped-IsLine :
        (b : Base64) (file_key : Bytes) (pk : Recipient k) (esk : x.EphemeralSecret)
        → length file_key ≡ 16
        → IsLine b k.points (wrapped file_key pk esk)
    unfolding wrapped
    wrapped-IsLine b file_key pk esk h =
        let key =
          x.extract_expand (salt k x (k.to_encoded_point (x.public_key esk) true) pk)
            stanza_key_label (x.diffie_hellman esk pk) in
        record {
          line_tag_length = length-tag pk;
          epk_compressed = l.is_compressed-to_encoded_point (x.public_key esk) true;
          epk_valid = l.is_public_key-to_encoded_point (x.public_key esk) true;
          key_length = omega (arith, m.length-aead_encrypt key file_key);
        }
