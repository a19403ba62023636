-- ===== src/Usbip/Protocol/Header.antt =====
-- `UsbIpHeaderBasic` of usbip/src/usbip_protocol.rs.
use remote_yubikey_manager.Common.{ℕ, ◌+◌, ◌≡◌, ◌++◌, arith, get_elem?}
use remote_yubikey_manager.Common.Bytes.{
  Bytes, IsU32, u32_to_be_bytes, u32_from_be_bytes, u32_from_be_bytes-digits,
}
use remote_yubikey_manager.Usbip.Io.{Socket, Reader, ◌>>=◌, pure}
use mathlib.Core.Option.{get_or}

-- The protocol's own direction, not that of an endpoint.
abbrev pub direction_out : ℕ
direction_out = 0

abbrev pub direction_in : ℕ
direction_in = 1

pub record UsbIpHeaderBasic : Type 0 where
  pub command : ℕ
  pub seqnum : ℕ
  pub devid : ℕ
  pub direction : ℕ
  pub ep : ℕ

-- The fields are `u32`.
pub record IsHeader (h : UsbIpHeaderBasic) : Type 0 where
  pub command_fits : IsU32 h.command
  pub seqnum_fits : IsU32 h.seqnum
  pub devid_fits : IsU32 h.devid
  pub direction_fits : IsU32 h.direction
  pub ep_fits : IsU32 h.ep

-- `u32::from_be_bytes(bytes[i..i + 4])`, in an array whose type keeps the range in bounds.
abbrev u32_at : Bytes → ℕ → ℕ
u32_at bs i =
    u32_from_be_bytes (get_or (get_elem? bs i) 0) (get_or (get_elem? bs (i + 1)) 0)
      (get_or (get_elem? bs (i + 2)) 0) (get_or (get_elem? bs (i + 3)) 0)

unfoldable pub from_bytes : Bytes → UsbIpHeaderBasic
from_bytes bs = record {
  command = u32_at bs 0;
  seqnum = u32_at bs 4;
  devid = u32_at bs 8;
  direction = u32_at bs 12;
  ep = u32_at bs 16;
}

unfoldable pub header_bytes : UsbIpHeaderBasic → Bytes
header_bytes h =
    u32_to_be_bytes h.command
    ++ (u32_to_be_bytes h.seqnum
        ++ (u32_to_be_bytes h.devid ++ (u32_to_be_bytes h.direction ++ u32_to_be_bytes h.ep)))

module _ {S : Type 0} (k : Socket S) where
  unfoldable pub read_from_socket_with_command : ℕ → Reader S UsbIpHeaderBasic
  read_from_socket_with_command command = do
    seqnum ← k.read_u32
    devid ← k.read_u32
    direction ← k.read_u32
    ep ← k.read_u32
    pure (record {
      command = command;
      seqnum = seqnum;
      devid = devid;
      direction = direction;
      ep = ep;
    })

-- `from_bytes` reads back what `to_bytes` of a header wrote, if its fields fit 32 bits.
pub from_bytes-header_bytes : (h : UsbIpHeaderBasic) → IsHeader h → from_bytes (header_bytes h) ≡ h
unfolding from_bytes header_bytes u32_to_be_bytes
from_bytes-header_bytes h w = ground (
  arith,
  u32_from_be_bytes-digits h.command,
  u32_from_be_bytes-digits h.seqnum,
  u32_from_be_bytes-digits h.devid,
  u32_from_be_bytes-digits h.direction,
  u32_from_be_bytes-digits h.ep,
)
