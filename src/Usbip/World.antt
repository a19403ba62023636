-- ===== src/Usbip/World.antt =====
-- The simulated handlers together: what stands behind each shared handler, and the dispatch of the
-- two traits to it. A handler that panics under its lock leaves the lock poisoned, and
-- `lock().unwrap()` panics from then on.
pub mod Poisoning
use remote_yubikey_manager.Common.{ℕ, ◌≡◌, Bool, true, false, List, [], ◌∷◌, ◌==◌, if◌then◌else◌}
use remote_yubikey_manager.Common.Bytes.{Bytes}
use remote_yubikey_manager.Common.Outcome.{ok, err, panic}
use remote_yubikey_manager.Usbip.Io.{IoResult}
use remote_yubikey_manager.Usbip.Endpoint.{UsbEndpoint}
use remote_yubikey_manager.Usbip.Setup.{SetupPacket}
use remote_yubikey_manager.Usbip.Device.{UsbInterface}
use remote_yubikey_manager.Usbip.Device.Handler.{Handlers}
use remote_yubikey_manager.Usbip.Hid.{
  UsbHidKeyboardHandler, keyboard_urb, keyboard_class_descriptor,
}
use remote_yubikey_manager.Usbip.Cdc.{UsbCdcAcmHandler, cdc_urb, cdc_class_descriptor}
use remote_yubikey_manager.Usbip.Host.{DeviceHandle, Locked, host_interface_urb, host_device_urb}

-- The implementors of `UsbInterfaceHandler`.
pub data Handler : Type 0 where
  keyboard : UsbHidKeyboardHandler → Handler
  cdc_acm : UsbCdcAcmHandler → Handler
  host : Handler

pub record Slot : Type 0 where
  pub handler : Handler
  pub poisoned : Bool

-- The handlers by name, and the host's USB device under the lock of its handle.
pub record World (H : Type 0) : Type 0 where
  pub slots : ℕ → Slot
  pub usb : Locked H

module _ {H : Type 0} (dh : DeviceHandle H) where
  unfoldable pub dispatch :
      Handler
      → UsbEndpoint
      → ℕ
      → SetupPacket
      → Bytes
      → Locked H
      → IoResult Bytes × Handler × Locked H
  dispatch (keyboard h) ep len setup req usb =
      let (r, h') = keyboard_urb ep setup h in (r, keyboard h', usb)
  dispatch (cdc_acm h) ep len setup req usb = let (r, h') = cdc_urb ep h in (r, cdc_acm h', usb)
  dispatch host ep len setup req usb =
      let (r, usb') = host_interface_urb dh ep len setup req usb in (r, host, usb')

  abbrev put : ℕ → Slot → (ℕ → Slot) → ℕ → Slot
  put n v slots i = if n == i then v else slots i

  abbrev panics : IoResult Bytes → Bool
  panics panic = true
  panics _ = false

  unfoldable pub lock_and_handle :
      ℕ → UsbEndpoint → ℕ → SetupPacket → Bytes → World H → IoResult Bytes × World H
  lock_and_handle n ep len setup req w =
      if (w.slots n).poisoned
      then (panic, w)
      else (let (r, h, usb) = dispatch (w.slots n).handler ep len setup req w.usb in
          let slot : Slot = record { handler = h; poisoned = panics r } in
          (r, record { slots = put n slot w.slots; usb = usb }))

  unfoldable pub class_descriptor : Handler → Bytes
  class_descriptor (keyboard h) = keyboard_class_descriptor h
  class_descriptor (cdc_acm h) = cdc_class_descriptor
  class_descriptor host = []

  -- A panic of the device's handler poisons the lock of the device handler as well as that of the
  -- handle, on which the next call panics.
  abbrev pub world : Handlers (World H)
  unfolding lock_and_handle class_descriptor host_device_urb
  world = record {
    class_specific_descriptor = λ w n. class_descriptor (w.slots n).handler;
    interface_urb = λ n intf ep len setup req w. lock_and_handle n ep len setup req w;
    device_urb = λ n len setup req w.
        let (r, usb) = host_device_urb dh len setup req w.usb in (r, record w { usb = usb });
  }
