-- ===== src/Usbip/Device/Layout.antt =====
-- The sizes of what a device is written as.
use remote_yubikey_manager.Common.{
  ◌+◌, ◌*◌, ◌≡◌, refl, List, [], ◌∷◌, arith, length, length-append, length-resize,
}
use remote_yubikey_manager.Common.Bytes.{u16_to_be_bytes, u32_to_be_bytes}
use remote_yubikey_manager.Common.Text.{as_bytes}
use remote_yubikey_manager.Usbip.Device.{
  UsbDevice, UsbInterface, to_bytes, interface_bytes, to_bytes_with_interfaces,
}

-- The bytes of a device are 312, whatever the lengths of its path and its bus id.
pub length-to_bytes : (d : UsbDevice) → length (to_bytes d) ≡ 312
unfolding to_bytes u16_to_be_bytes u32_to_be_bytes
length-to_bytes d =
    simp length-append
      (omega (arith, length-resize 256 0 (as_bytes d.path), length-resize 32 0 (as_bytes d.bus_id)))

length-interface_bytes : (is : List UsbInterface) → length (interface_bytes is) ≡ 4 * length is
unfolding interface_bytes
length-interface_bytes [] = refl
length-interface_bytes (i ∷ is) = omega (arith, length-interface_bytes is)

-- Four bytes follow for each interface.
pub length-to_bytes_with_interfaces :
    (d : UsbDevice) → length (to_bytes_with_interfaces d) ≡ 312 + 4 * length d.interfaces
unfolding to_bytes_with_interfaces
length-to_bytes_with_interfaces d =
    rw (length-append (to_bytes d) (interface_bytes d.interfaces), length-to_bytes d)
      (omega (arith, length-interface_bytes d.interfaces))
