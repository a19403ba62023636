-- ===== src/Usbip/Setup.antt =====
-- usbip/src/setup.rs. The array `&[u8; 8]` is a list of eight bytes.
use Prim.Native.Nat.{bit_or}
use remote_yubikey_manager.Common.{ℕ, ◌+◌, ◌*◌, ◌≡◌, [], ◌∷◌, arith, get_elem?}
use remote_yubikey_manager.Common.Bits.{bit_or_shifted}
use remote_yubikey_manager.Common.Bytes.{Bytes, IsU8, as_u16}
use mathlib.Core.Option.{get_or}

pub record SetupPacket : Type 0 where
  pub request_type : ℕ
  pub request : ℕ
  pub value : ℕ
  pub index : ℕ
  pub length : ℕ

-- An index that the array's type keeps in range.
abbrev byte_at : Bytes → ℕ → ℕ
byte_at bs i = get_or (get_elem? bs i) 0

-- `(setup[hi] as u16) << 8 | (setup[lo] as u16)`
abbrev u16_at : Bytes → ℕ → ℕ → ℕ
u16_at bs hi lo = bit_or (as_u16 (byte_at bs hi * 256)) (byte_at bs lo)

unfoldable pub parse : Bytes → SetupPacket
parse setup = record {
  request_type = byte_at setup 0;
  request = byte_at setup 1;
  value = u16_at setup 3 2;
  index = u16_at setup 5 4;
  length = u16_at setup 7 6;
}

-- Every field is read little-endian from its two bytes.
pub parse_fields :
    (a b c d e f g h : ℕ)
    → IsU8 c
    → IsU8 d
    → IsU8 e
    → IsU8 f
    → IsU8 g
    → IsU8 h
    → parse (a ∷ b ∷ c ∷ d ∷ e ∷ f ∷ g ∷ h ∷ []) ≡ record {
      request_type = a;
      request = b;
      value = d * 256 + c;
      index = f * 256 + e;
      length = h * 256 + g;
    }
unfolding parse
parse_fields a b c d e f g h hc hd he hf hg hh =
    ground (arith, bit_or_shifted d c, bit_or_shifted f e, bit_or_shifted h g)
