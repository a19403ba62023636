-- ===== src/Usbip/Device/Urb.antt =====
-- `UsbDevice::handle_urb` (usbip/src/device.rs). `panic` is `unimplemented!`, an index out of range
-- or `unwrap` of `None`.
use Prim.Native.Nat.{bit_and}
use remote_yubikey_manager.Common.{
  ℕ, Bool, true, false, ◌&&◌, Option, none, some, get_elem?, [], ◌∷◌, ◌==◌, if◌then◌else◌,
}
use remote_yubikey_manager.Common.Bytes.{Bytes}
use remote_yubikey_manager.Common.Outcome.{ok, panic}
use remote_yubikey_manager.Usbip.Io.{IoResult}
use remote_yubikey_manager.Usbip.Consts.{
  EndpointAttributes, attributes_from_u8, StandardRequest, request_from_u8, dir_in, dir_out,
}
use remote_yubikey_manager.Usbip.Endpoint.{UsbEndpoint, direction}
use remote_yubikey_manager.Usbip.Setup.{SetupPacket}
use remote_yubikey_manager.Usbip.Device.{UsbDevice, UsbInterface}
use remote_yubikey_manager.Usbip.Device.Descriptors.{get_descriptor, shorten}
use remote_yubikey_manager.Usbip.Device.Handler.{Handlers}

abbrev is_get_descriptor : Option StandardRequest → Bool
is_get_descriptor (some StandardRequest.get_descriptor) = true
is_get_descriptor _ = false

abbrev is_set_configuration : Option StandardRequest → Bool
is_set_configuration (some StandardRequest.set_configuration) = true
is_set_configuration _ = false

module _ {W : Type 0} (hs : Handlers W) where
  -- `&self.interfaces[setup_packet.index as usize & 0xFF]`, and the call of its handler
  unfoldable pub to_interface :
      UsbDevice → UsbEndpoint → ℕ → SetupPacket → Bytes → W → IoResult Bytes × W
  to_interface d ep len setup out_data w =
      elim (get_elem? d.interfaces (bit_and setup.index 0xFF)) [
        | some intf ↦ hs.interface_urb intf.handler intf ep len setup out_data w
        | none ↦ (panic, w)
      ]

  -- What stands behind the standard request in both directions: the call of an interface's or of
  -- the device's own handler.
  unfoldable pub to_handler :
      UsbDevice → UsbEndpoint → ℕ → SetupPacket → Bytes → W → IoResult Bytes × W
  to_handler d ep len setup out_data w =
      if bit_and setup.request_type 0xF == 1
      then to_interface d ep len setup out_data w
      else if bit_and setup.request_type 0xF == 0
      then elim d.device_handler [
        | some h ↦ hs.device_urb h len setup out_data w
        | none ↦ (panic, w)
      ]
      else (panic, w)

  unfoldable pub control_in :
      UsbDevice → UsbEndpoint → ℕ → SetupPacket → Bytes → W → IoResult Bytes × W
  control_in d ep len setup out_data w =
      if setup.request_type == 0x80 && is_get_descriptor (request_from_u8 setup.request)
      then (get_descriptor d setup, w)
      else to_handler d ep len setup out_data w

  unfoldable pub control_out :
      UsbDevice → UsbEndpoint → ℕ → SetupPacket → Bytes → W → IoResult Bytes × W
  control_out d ep len setup out_data w =
      if setup.request_type == 0x00 && is_set_configuration (request_from_u8 setup.request)
      then (ok (shorten setup.length (d.configuration_value ∷ [])), w)
      else to_handler d ep len setup out_data w

  unfoldable pub to_endpoint :
      UsbEndpoint → Option UsbInterface → ℕ → SetupPacket → Bytes → W → IoResult Bytes × W
  to_endpoint ep none len setup out_data w = (panic, w)
  to_endpoint ep (some intf) len setup out_data w =
      hs.interface_urb intf.handler intf ep len setup out_data w

  unfoldable pub control :
      UsbDevice → UsbEndpoint → ℕ → SetupPacket → Bytes → W → IoResult Bytes × W
  control d ep len setup out_data w = elim (direction ep) [
    | dir_in ↦ control_in d ep len setup out_data w
    | dir_out ↦ control_out d ep len setup out_data w
  ]

  unfoldable pub handle_urb :
      UsbDevice
      → UsbEndpoint
      → Option UsbInterface
      → ℕ
      → SetupPacket
      → Bytes
      → W
      → IoResult Bytes × W
  handle_urb d ep intf len setup out_data w = elim (attributes_from_u8 ep.attributes) [
    | some EndpointAttributes.control ↦ control d ep len setup out_data w
    | some _ ↦ to_endpoint ep intf len setup out_data w
    | none ↦ (panic, w)
  ]
