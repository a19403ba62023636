-- ===== src/Usbip/Host.antt =====
-- usbip/src/host.rs: handlers that pass a transfer to a device of the host by libusb. The calls of
-- the `rusb` crate are a parameter: each takes what the source gives it, and leaves a world.
pub mod Bounds
use Prim.Native.Nat.{bit_and}
use remote_yubikey_manager.Common.{
  ℕ, Bool, true, false, [], Option, none, some, leb, length, take, replicate, ◌==◌, if◌then◌else◌,
}
use remote_yubikey_manager.Common.Bytes.{Bytes}
use remote_yubikey_manager.Common.Outcome.{ok, panic}
use remote_yubikey_manager.Usbip.Io.{IoResult}
use remote_yubikey_manager.Usbip.Consts.{
  EndpointAttributes, attributes_code, Direction, dir_in, dir_out,
}
use remote_yubikey_manager.Usbip.Endpoint.{UsbEndpoint, direction}
use remote_yubikey_manager.Usbip.Setup.{SetupPacket}

-- A read is given the buffer that it fills; its result is the length that it reports, if it succeeds,
-- and the buffer afterwards.
abbrev pub Reading : Type 0 → Type 0
Reading W = Option ℕ × Bytes × W

pub record DeviceHandle (W : Type 0) : Type 0 where
  pub read_control : SetupPacket → Bytes → W → Reading W
  pub write_control : SetupPacket → Bytes → W → W
  pub read_interrupt : ℕ → Bytes → W → Reading W
  pub write_interrupt : ℕ → Bytes → W → W
  pub read_bulk : ℕ → Bytes → W → Reading W
  pub write_bulk : ℕ → Bytes → W → W

-- The device behind the lock of its handle, which all handlers of a device share.
pub record Locked (W : Type 0) : Type 0 where
  pub poisoned : Bool
  pub device : W

-- The lock after a transfer: a panic while it is held poisons it.
abbrev pub released : {W : Type 0} → W → Locked W
released w = record { poisoned = false; device = w }

abbrev pub left_poisoned : {W : Type 0} → W → Locked W
left_poisoned w = record { poisoned = true; device = w }

module _ {W : Type 0} (h : DeviceHandle W) where
  -- `Vec::from(&buffer[..len])`, which panics beyond the end of the buffer; a failed read answers with
  -- no bytes.
  unfoldable pub answer : Reading W → IoResult Bytes × Locked W
  answer (none, buffer, w) = (ok [], released w)
  answer (some len, buffer, w) =
      if leb len (length buffer)
      then (ok (take len buffer), released w)
      else (panic, left_poisoned w)

  -- The transfer, with the lock held
  unfoldable pub interface_transfer :
      UsbEndpoint → Bytes → SetupPacket → Bytes → W → IoResult Bytes × Locked W
  interface_transfer ep buffer setup req w =
      if ep.attributes == attributes_code EndpointAttributes.control
      then elim (direction ep) [
        | dir_in ↦ answer (h.read_control setup buffer w)
        | dir_out ↦ (ok [], released (h.write_control setup req w))
      ]
      else if ep.attributes == attributes_code EndpointAttributes.interrupt
      then elim (direction ep) [
        | dir_in ↦ answer (h.read_interrupt ep.address buffer w)
        | dir_out ↦ (ok [], released (h.write_interrupt ep.address req w))
      ]
      else if ep.attributes == attributes_code EndpointAttributes.bulk
      then elim (direction ep) [
        | dir_in ↦ answer (h.read_bulk ep.address buffer w)
        | dir_out ↦ (ok [], released (h.write_bulk ep.address req w))
      ]
      else (ok [], released w)

  -- `lock().unwrap()` panics on a poisoned lock.
  unfoldable pub host_interface_urb :
      UsbEndpoint → ℕ → SetupPacket → Bytes → Locked W → IoResult Bytes × Locked W
  host_interface_urb ep len setup req s =
      if s.poisoned then (panic, s) else interface_transfer ep (replicate len 0) setup req s.device

  unfoldable pub host_device_urb : ℕ → SetupPacket → Bytes → Locked W → IoResult Bytes × Locked W
  host_device_urb len setup req s =
      if s.poisoned
      then (panic, s)
      else if bit_and setup.request_type 0x80 == 0
      then (ok [], released (h.write_control setup req s.device))
      else answer (h.read_control setup (replicate len 0) s.device)
