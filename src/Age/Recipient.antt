-- ===== src/Age/Recipient.antt =====
-- `Recipient` of age-plugin-yubikey/src/p256.rs and `RecipientLine::wrap_file_key` of format.rs. The
-- curve, the hash and the ciphers of the crates p256, sha2 and age-core are parameters.
pub mod Wrapping
use remote_yubikey_manager.Common.{
  ℕ, ◌+◌, ◌≡◌, Bool, true, false, List, [], ◌++◌, Option, none, some, length, take, ◌==◌,
  if◌then◌else◌,
}
use remote_yubikey_manager.Common.Bytes.{Bytes}
use remote_yubikey_manager.Common.Text.{Text}
use remote_yubikey_manager.Age.Stanza.{
  Points, RecipientLine, tag_bytes, encrypted_file_key_bytes, piv_p256,
}

-- `p256::PublicKey` with its encodings, compressed for `true`, and `Sha256::digest`.
pub record Curve (Point : Type 0) : Type 1 where
  pub points : Points Point
  pub PublicKey : Type 0
  pub from_encoded_point : Point → Option PublicKey
  pub to_encoded_point : PublicKey → Bool → Point
  pub digest : Bytes → Bytes

pub record IsCurve {Point : Type 0} (k : Curve Point) : Type 0 where
  pub from_encoded_point-to_encoded_point :
      (p : k.PublicKey) (compressed : Bool)
      → k.from_encoded_point (k.to_encoded_point p compressed) ≡ some p
  pub is_compressed-to_encoded_point :
      (p : k.PublicKey) (compressed : Bool)
      → k.points.is_compressed (k.to_encoded_point p compressed) ≡ compressed
  pub is_public_key-to_encoded_point :
      (p : k.PublicKey) (compressed : Bool)
      → k.points.is_public_key (k.to_encoded_point p compressed) ≡ true
  pub is_public_key_decodes :
      (x : Point)
      → k.points.is_public_key x ≡ true
      → (p : k.PublicKey) × (k.from_encoded_point x ≡ some p)
  pub length-digest : (bs : Bytes) → length (k.digest bs) ≡ 32

-- `PublicKeyInfo` of the yubikey crate
pub data PublicKeyInfo (Point : Type 0) : Type 0 where
  ec_p256 : Point → PublicKeyInfo Point
  other_key : PublicKeyInfo Point

module _ {Point : Type 0} (k : Curve Point) where
  abbrev pub Recipient : Type 0
  Recipient = k.PublicKey

  unfoldable pub from_encoded : Point → Option Recipient
  from_encoded encoded = k.from_encoded_point encoded

  unfoldable pub recipient_from_bytes : Bytes → Option Recipient
  unfolding from_encoded
  recipient_from_bytes bytes = elim (k.points.point_from_bytes bytes) [
    | none ↦ none
    | some encoded ↦ if k.points.is_compressed encoded then from_encoded encoded else none
  ]

  unfoldable pub from_spki : PublicKeyInfo Point → Option Recipient
  unfolding from_encoded
  from_spki (ec_p256 pubkey) = from_encoded pubkey
  from_spki other_key = none

  unfoldable pub to_encoded : Recipient → Point
  to_encoded pk = k.to_encoded_point pk true

  unfoldable pub tag : Recipient → Bytes
  tag pk = take tag_bytes (k.digest (k.points.point_as_bytes (to_encoded pk)))

-- Key agreement, `hkdf`, `aead_encrypt` and `aead_decrypt`. `extract_expand` is the HKDF that a shared
-- secret of p256 offers, with 32 bytes of output.
pub record Crypto {Point : Type 0} (k : Curve Point) : Type 1 where
  pub EphemeralSecret : Type 0
  pub public_key : EphemeralSecret → k.PublicKey
  pub diffie_hellman : EphemeralSecret → k.PublicKey → Bytes
  pub extract_expand : Bytes → Text → Bytes → Bytes
  pub hkdf : Bytes → Text → Bytes → Bytes
  pub aead_encrypt : Bytes → Bytes → Bytes
  pub aead_decrypt : Bytes → ℕ → Bytes → Option Bytes

-- The two forms of HKDF agree; a text of the expected length is decrypted from what it was encrypted
-- to, which is 16 bytes longer; and only texts of the expected length are decrypted.
pub record IsCrypto {Point : Type 0} {k : Curve Point} (x : Crypto k) : Type 0 where
  pub hkdf-extract_expand :
      (salt : Bytes) (label : Text) (ikm : Bytes)
      → x.hkdf salt label ikm ≡ x.extract_expand salt label ikm
  pub aead_decrypt-aead_encrypt :
      (key text : Bytes) → x.aead_decrypt key (length text) (x.aead_encrypt key text) ≡ some text
  pub length-aead_encrypt : (key text : Bytes) → length (x.aead_encrypt key text) ≡ length text + 16
  pub length-aead_decrypt :
      (key : Bytes) (n : ℕ) (sealed text : Bytes)
      → x.aead_decrypt key n sealed ≡ some text
      → length text ≡ n

-- `STANZA_KEY_LABEL` has the text of `STANZA_TAG`.
abbrev pub stanza_key_label : Text
stanza_key_label = piv_p256

abbrev pub file_key_bytes : ℕ
file_key_bytes = 16

module _ {Point : Type 0} (k : Curve Point) (x : Crypto k) where
  -- The salt of both sides
  unfoldable pub salt : Point → Recipient k → Bytes
  salt epk pk = k.points.point_as_bytes epk ++ k.points.point_as_bytes (to_encoded k pk)

  -- The secret is drawn at random by the caller; `none` is the panic of `copy_from_slice` on a text of
  -- another length.
  unfoldable pub wrap_file_key :
      Bytes → Recipient k → x.EphemeralSecret → Option (RecipientLine Point)
  unfolding salt
  wrap_file_key file_key pk esk =
      let epk_bytes = k.to_encoded_point (x.public_key esk) true in
      let shared_secret = x.diffie_hellman esk pk in
      let enc_key = x.extract_expand (salt epk_bytes pk) stanza_key_label shared_secret in
      let encrypted = x.aead_encrypt enc_key file_key in
      if length encrypted == encrypted_file_key_bytes
      then some
          (record { line_tag = tag k pk; epk_bytes = epk_bytes; encrypted_file_key = encrypted })
      else none
