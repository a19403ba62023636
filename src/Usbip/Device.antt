-- ===== src/Usbip/Device.antt =====
-- usbip/src/device.rs and usbip/src/interface.rs: the device record, what it is built with, and
-- the transfers that it answers (child module `Urb`); the laws stand in the other children.
pub mod Descriptors
pub mod Handler
pub mod Urb
pub mod Layout
pub mod Strings
pub mod Lookup
pub mod Transfers
pub mod Configuration
use remote_yubikey_manager.Common.{
  ℕ, suc, zero, ◌+◌, ◌*◌, ◌/◌, ◌<◌, ◌≡◌, Bool, List, [], ◌∷◌, ◌++◌, Option, none, some, arith,
  length, resize, ◌==◌, if◌then◌else◌,
}
use remote_yubikey_manager.Common.Bytes.{Bytes, as_u8, u16_to_be_bytes, u32_to_be_bytes}
use remote_yubikey_manager.Common.Dict.{Dict, get, insert}
use remote_yubikey_manager.Common.Eq.{nat_eq}
use remote_yubikey_manager.Common.Text.{Text, codes, as_bytes}
use remote_yubikey_manager.Usbip.Consts.{UsbSpeed, speed_code, EndpointAttributes, attributes_code}
use remote_yubikey_manager.Usbip.Consts.{ep0_max_packet_size}
use remote_yubikey_manager.Usbip.Endpoint.{UsbEndpoint}

pub record Version : Type 0 where
  pub major : ℕ
  pub minor : ℕ
  pub patch : ℕ

-- `handler` is the name of the shared handler object, `Arc<Mutex<Box<dyn UsbInterfaceHandler>>>`.
pub record UsbInterface : Type 0 where
  pub interface_class : ℕ
  pub interface_subclass : ℕ
  pub interface_protocol : ℕ
  pub endpoints : List UsbEndpoint
  pub string_interface : ℕ
  pub class_specific_descriptor : Bytes
  pub handler : ℕ

pub record UsbDevice : Type 0 where
  pub path : Text
  pub bus_id : Text
  pub bus_num : ℕ
  pub dev_num : ℕ
  pub speed : ℕ
  pub vendor_id : ℕ
  pub product_id : ℕ
  pub device_bcd : Version
  pub device_class : ℕ
  pub device_subclass : ℕ
  pub device_protocol : ℕ
  pub configuration_value : ℕ
  pub num_configurations : ℕ
  pub interfaces : List UsbInterface
  pub device_handler : Option ℕ
  pub usb_version : Version
  pub ep0_in : UsbEndpoint
  pub ep0_out : UsbEndpoint
  pub string_pool : Dict ℕ Text
  pub string_configuration : ℕ
  pub string_manufacturer : ℕ
  pub string_product : ℕ
  pub string_serial : ℕ

abbrev default_version : Version
default_version = record { major = 0; minor = 0; patch = 0 }

abbrev ep0 : ℕ → UsbEndpoint
ep0 address = record {
  address = address;
  attributes = attributes_code EndpointAttributes.control;
  max_packet_size = ep0_max_packet_size;
  interval = 0;
}

-- `for i in 1..` over `u8`, as far as `fuel` rounds go. In a release build the counter goes on to 0
-- behind 255. `none` stands for a search that has not ended.
unfoldable pub first_free : ℕ → ℕ → Dict ℕ Text → Option ℕ
first_free zero i pool = none
first_free (suc fuel) i pool =
    let later = first_free fuel (as_u8 (i + 1)) pool in
    elim (get i pool) [ none ↦ some i | some s ↦ later ]

-- After 256 rounds every index has been seen: the loop of the source would not end either.
unfoldable pub new_string : Text → UsbDevice → Option (ℕ × UsbDevice)
new_string s d = elim (first_free 256 1 d.string_pool) [
  | none ↦ none
  | some i ↦ some (i, record d { string_pool = insert i s d.string_pool })
]

infixl 5 ◌>>=◌
abbrev ◌>>=◌ : {A B : Type 0} → Option A → (A → Option B) → Option B
none >>= f = none
some a >>= f = f a

-- `Self { ..., ..Self::default() }` of `UsbDevice::new`
abbrev unnamed : ℕ → UsbDevice
unnamed index = record {
  path = codes "/sys/bus/0/0/0";
  bus_id = codes "0-0-0";
  bus_num = 0;
  dev_num = index;
  speed = speed_code UsbSpeed.high;
  vendor_id = 0;
  product_id = 0;
  device_bcd = default_version;
  device_class = 0;
  device_subclass = 0;
  device_protocol = 0;
  configuration_value = 1;
  num_configurations = 1;
  interfaces = [];
  device_handler = none;
  usb_version = default_version;
  ep0_in = ep0 0x80;
  ep0_out = ep0 0x00;
  string_pool = [];
  string_configuration = 0;
  string_manufacturer = 0;
  string_product = 0;
  string_serial = 0;
}

unfoldable pub new : ℕ → Option UsbDevice
new index = do
  (configuration, d) ← new_string (codes "Default Configuration") (unnamed index)
  (manufacturer, d) ←
      new_string (codes "Manufacturer") (record d { string_configuration = configuration })
  (product, d) ← new_string (codes "Product") (record d { string_manufacturer = manufacturer })
  (serial, d) ← new_string (codes "Serial") (record d { string_product = product })
  some (record d { string_serial = serial })

-- The setters return the value that was there before.
abbrev set_name : ℕ → Text → UsbDevice → Option Text × UsbDevice
set_name i name d = (get i d.string_pool, record d { string_pool = insert i name d.string_pool })

unfoldable pub set_configuration_name : Text → UsbDevice → Option Text × UsbDevice
set_configuration_name name d = set_name d.string_configuration name d

unfoldable pub set_serial_number : Text → UsbDevice → Option Text × UsbDevice
set_serial_number name d = set_name d.string_serial name d

unfoldable pub set_product_name : Text → UsbDevice → Option Text × UsbDevice
set_product_name name d = set_name d.string_product name d

unfoldable pub set_manufacturer_name : Text → UsbDevice → Option Text × UsbDevice
set_manufacturer_name name d = set_name d.string_manufacturer name d

unfoldable pub with_device_handler : ℕ → UsbDevice → UsbDevice
with_device_handler handler d = record d { device_handler = some handler }

-- The two loops of `find_ep`: over an interface's endpoints, and over the interfaces.
unfoldable pub find_endpoint : ℕ → List UsbEndpoint → Option UsbEndpoint
find_endpoint ep [] = none
find_endpoint ep (e ∷ es) = if e.address == ep then some e else find_endpoint ep es

unfoldable pub find_in_interfaces :
    ℕ → List UsbInterface → Option (UsbEndpoint × Option UsbInterface)
unfolding find_endpoint
find_in_interfaces ep [] = none
find_in_interfaces ep (intf ∷ rest) =
    let later = find_in_interfaces ep rest in
    elim (find_endpoint ep intf.endpoints) [ some e ↦ some (e, some intf) | none ↦ later ]

unfoldable pub find_ep : UsbDevice → ℕ → Option (UsbEndpoint × Option UsbInterface)
unfolding find_in_interfaces
find_ep d ep =
    if ep == d.ep0_in.address
    then some (d.ep0_in, none)
    else if ep == d.ep0_out.address
    then some (d.ep0_out, none)
    else find_in_interfaces ep d.interfaces

unfoldable pub to_bytes : UsbDevice → Bytes
to_bytes d =
    resize 256 0 (as_bytes d.path)
    ++ (resize 32 0 (as_bytes d.bus_id)
        ++ (u32_to_be_bytes d.bus_num
            ++ (u32_to_be_bytes d.dev_num
                ++ (u32_to_be_bytes d.speed
                    ++ (u16_to_be_bytes d.vendor_id
                        ++ (u16_to_be_bytes d.product_id
                            ++ (d.device_bcd.major
                                ∷ d.device_bcd.minor
                                ∷ d.device_class
                                ∷ d.device_subclass
                                ∷ d.device_protocol
                                ∷ d.configuration_value
                                ∷ d.num_configurations
                                ∷ as_u8 (length d.interfaces)
                                ∷ [])))))))

unfoldable pub interface_bytes : List UsbInterface → Bytes
interface_bytes [] = []
interface_bytes (intf ∷ rest) =
    intf.interface_class
    ∷ intf.interface_subclass
    ∷ intf.interface_protocol
    ∷ 0
    ∷ interface_bytes rest

unfoldable pub to_bytes_with_interfaces : UsbDevice → Bytes
unfolding to_bytes interface_bytes
to_bytes_with_interfaces d = to_bytes d ++ interface_bytes d.interfaces
