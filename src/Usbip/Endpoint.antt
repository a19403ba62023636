-- ===== src/Usbip/Endpoint.antt =====
-- usbip/src/endpoint.rs
use Prim.Native.Nat.{bit_and}
use remote_yubikey_manager.Common.{
  ℕ, ◌%◌, ◌≤◌, ◌<◌, ◌≡◌, ◌↔◌, Bool, true, arith, ◌==◌, if◌then◌else◌,
}
use remote_yubikey_manager.Common.Bits.{bit_and_0x80, bit_and_0x7f}
use remote_yubikey_manager.Usbip.Consts.{Direction, dir_in, dir_out}

pub record UsbEndpoint : Type 0 where
  pub address : ℕ
  pub attributes : ℕ
  pub max_packet_size : ℕ
  pub interval : ℕ

unfoldable pub direction : UsbEndpoint → Direction
direction e = if bit_and e.address 0x80 == 0 then dir_out else dir_in

unfoldable pub is_ep0 : UsbEndpoint → Bool
is_ep0 e = bit_and e.address 0x7F == 0

pub direction-in : (e : UsbEndpoint) → e.address < 256 → (direction e ≡ dir_in) ↔ (128 ≤ e.address)
unfolding direction
direction-in e h = ground (arith, bit_and_0x80 e.address)

pub is_ep0_iff : (e : UsbEndpoint) → e.address < 256 → (is_ep0 e ≡ true) ↔ (e.address % 128 ≡ 0)
unfolding is_ep0
is_ep0_iff e h = ground (arith, bit_and_0x7f e.address)
