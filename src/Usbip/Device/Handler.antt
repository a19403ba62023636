-- ===== src/Usbip/Device/Handler.antt =====
-- The traits `UsbInterfaceHandler` and `UsbDeviceHandler` (usbip/src/interface.rs and device.rs) as
-- an interface. The objects behind the shared, locked handlers are one world `W`; a number names an
-- object in it, and a call returns its result with the world that it leaves.
use remote_yubikey_manager.Common.{ℕ, ◌++◌, List, [], ◌∷◌, Option, none, some}
use remote_yubikey_manager.Common.Bytes.{Bytes}
use remote_yubikey_manager.Common.Text.{Text}
use remote_yubikey_manager.Usbip.Io.{IoResult}
use remote_yubikey_manager.Usbip.Endpoint.{UsbEndpoint}
use remote_yubikey_manager.Usbip.Setup.{SetupPacket}
use remote_yubikey_manager.Usbip.Device.{UsbDevice, UsbInterface, new_string}

pub record Handlers (W : Type 0) : Type 0 where
  pub class_specific_descriptor : W → ℕ → Bytes
  pub interface_urb :
      ℕ → UsbInterface → UsbEndpoint → ℕ → SetupPacket → Bytes → W → IoResult Bytes × W
  pub device_urb : ℕ → ℕ → SetupPacket → Bytes → W → IoResult Bytes × W

module _ {W : Type 0} (hs : Handlers W) where
  -- `none` stands for the search of `new_string` that does not end.
  unfoldable pub with_interface :
      ℕ → ℕ → ℕ → Text → List UsbEndpoint → ℕ → W → UsbDevice → Option UsbDevice
  with_interface interface_class interface_subclass interface_protocol name endpoints handler w d =
      elim (new_string name d) [
        | none ↦ none
        | some (i, d') ↦ some (record d' {
          interfaces =
              d'.interfaces
              ++ record {
                interface_class = interface_class;
                interface_subclass = interface_subclass;
                interface_protocol = interface_protocol;
                endpoints = endpoints;
                string_interface = i;
                class_specific_descriptor = hs.class_specific_descriptor w handler;
                handler = handler;
              }
                ∷ [];
        })
      ]
