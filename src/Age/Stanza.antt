-- ===== src/Age/Stanza.antt =====
-- `RecipientLine` of age-plugin-yubikey/src/format.rs. The base64 of the crate of that name and the
-- encoded points of p256 are parameters.
pub mod RoundTrip
use remote_yubikey_manager.Common.{
  ℕ, ◌+◌, ◌*◌, ◌/◌, ◌≡◌, Bool, true, ◌&&◌, List, [], ◌∷◌, Option, none, some, length, ◌==◌,
  if◌then◌else◌, arith,
}
use remote_yubikey_manager.Common.Bytes.{Bytes}
use remote_yubikey_manager.Common.Eq.{nat_eq, list_beq}
use remote_yubikey_manager.Common.Text.{Text, codes}

-- `BASE64_STANDARD_NO_PAD`: a text of base64 is its ASCII bytes.
pub record Base64 : Type 0 where
  pub encode : Bytes → Text
  pub decode : Text → Option Bytes

pub record IsBase64 (k : Base64) : Type 0 where
  pub decode-encode : (bs : Bytes) → k.decode (k.encode bs) ≡ some bs
  pub length-encode : (bs : Bytes) → length (k.encode bs) ≡ (4 * length bs + 2) / 3

-- `p256::EncodedPoint`, and whether `p256::PublicKey::from_encoded_point` takes it.
pub record Points (Point : Type 0) : Type 0 where
  pub point_from_bytes : Bytes → Option Point
  pub point_as_bytes : Point → Bytes
  pub is_compressed : Point → Bool
  pub is_public_key : Point → Bool

pub record IsPoints {Point : Type 0} (k : Points Point) : Type 0 where
  pub point_from_bytes-point_as_bytes :
      (p : Point) → k.point_from_bytes (k.point_as_bytes p) ≡ some p
  pub length-point_as_bytes :
      (p : Point) → k.is_compressed p ≡ true → length (k.point_as_bytes p) ≡ 33

-- `Stanza` of age-core
pub record Stanza : Type 0 where
  pub stanza_tag : Text
  pub args : List Text
  pub body : Bytes

pub record RecipientLine (Point : Type 0) : Type 0 where
  pub line_tag : Bytes
  pub epk_bytes : Point
  pub encrypted_file_key : Bytes

abbrev pub tag_bytes : ℕ
tag_bytes = 4

abbrev pub epk_length : ℕ
epk_length = 33

abbrev pub encrypted_file_key_bytes : ℕ
encrypted_file_key_bytes = 32

-- `STANZA_TAG` of main.rs
abbrev pub piv_p256 : Text
piv_p256 = codes "piv-p256"

module _ {Point : Type 0} (b : Base64) (k : Points Point) where
  unfoldable pub epk_from_bytes : Bytes → Option Point
  epk_from_bytes bytes = elim (k.point_from_bytes bytes) [
    | none ↦ none
    | some encoded ↦
        if k.is_compressed encoded && k.is_public_key encoded then some encoded else none
  ]

  unfoldable pub into_stanza : RecipientLine Point → Stanza
  into_stanza r = record {
    stanza_tag = piv_p256;
    args = b.encode r.line_tag ∷ b.encode (k.point_as_bytes r.epk_bytes) ∷ [];
    body = r.encrypted_file_key;
  }

  -- The decoder writes into a buffer of `n` bytes; the check of the text's length comes first.
  unfoldable pub fills : ℕ → Option Bytes → Option Bytes
  fills n none = none
  fills n (some bytes) = if length bytes == n then some bytes else none

  unfoldable pub base64_arg : Text → ℕ → Option Bytes
  base64_arg arg n = if length arg == (4 * n + 2) / 3 then fills n (b.decode arg) else none

  unfoldable pub epk_arg : Option Bytes → Option Point
  epk_arg none = none
  epk_arg (some bytes) = epk_from_bytes bytes

  unfoldable pub parse_args : List Text → Option Bytes × Option Point
  parse_args (tag ∷ epk ∷ []) = (base64_arg tag tag_bytes, epk_arg (base64_arg epk epk_length))
  parse_args _ = (none, none)

  unfoldable pub line_of : Option Bytes → Option Point → Bytes → Option (RecipientLine Point)
  line_of (some tag) (some epk) body =
      if length body == encrypted_file_key_bytes
      then some (record { line_tag = tag; epk_bytes = epk; encrypted_file_key = body })
      else none
  line_of (some tag) none body = none
  line_of none epk body = none

  -- `none`: not a stanza of this plugin; `some none`: one, but structurally invalid.
  unfoldable pub from_stanza : Stanza → Option (Option (RecipientLine Point))
  from_stanza s =
      let (tag, epk) = parse_args s.args in
      if list_beq s.stanza_tag piv_p256 then some (line_of tag epk s.body) else none

  -- The lengths of the arrays, and a valid compressed point.
  pub record IsLine (r : RecipientLine Point) : Type 0 where
    pub line_tag_length : length r.line_tag ≡ 4
    pub epk_compressed : k.is_compressed r.epk_bytes ≡ true
    pub epk_valid : k.is_public_key r.epk_bytes ≡ true
    pub key_length : length r.encrypted_file_key ≡ 32
