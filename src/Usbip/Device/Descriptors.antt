-- ===== src/Usbip/Device/Descriptors.antt =====
-- The GET_DESCRIPTOR branch of `UsbDevice::handle_urb` (usbip/src/device.rs).
use remote_yubikey_manager.Common.{
  ℕ, suc, ◌+◌, ◌*◌, ◌/◌, List, [], ◌∷◌, ◌++◌, none, some, length, resize, set, ltb, ◌==◌,
  if◌then◌else◌,
}
use remote_yubikey_manager.Common.Bytes.{Bytes, as_u8, as_u16}
use remote_yubikey_manager.Common.Dict.{get}
use remote_yubikey_manager.Common.Eq.{nat_eq}
use remote_yubikey_manager.Common.Outcome.{ok, err}
use remote_yubikey_manager.Common.Text.{Text, encode_utf16}
use remote_yubikey_manager.Usbip.Io.{IoResult, invalid_string_index}
use remote_yubikey_manager.Usbip.Consts.{DescriptorType, descriptor_code, descriptor_from_u16}
use remote_yubikey_manager.Usbip.Endpoint.{UsbEndpoint}
use remote_yubikey_manager.Usbip.Setup.{SetupPacket}
use remote_yubikey_manager.Usbip.Device.{UsbDevice, UsbInterface}

unfoldable pub device_descriptor : UsbDevice → Bytes
device_descriptor d =
    0x12
    ∷ descriptor_code DescriptorType.device
    ∷ d.usb_version.minor
    ∷ d.usb_version.major
    ∷ d.device_class
    ∷ d.device_subclass
    ∷ d.device_protocol
    ∷ as_u8 d.ep0_in.max_packet_size
    ∷ as_u8 d.vendor_id
    ∷ as_u8 (d.vendor_id / 256)
    ∷ as_u8 d.product_id
    ∷ as_u8 (d.product_id / 256)
    ∷ d.device_bcd.minor
    ∷ d.device_bcd.major
    ∷ d.string_manufacturer
    ∷ d.string_product
    ∷ d.string_serial
    ∷ d.num_configurations
    ∷ []

unfoldable pub bos_descriptor : Bytes
bos_descriptor = 0x05 ∷ descriptor_code DescriptorType.bos ∷ 0x05 ∷ 0x00 ∷ 0x00 ∷ []

unfoldable pub endpoint_descriptor : UsbEndpoint → Bytes
endpoint_descriptor e =
    0x07
    ∷ descriptor_code DescriptorType.endpoint
    ∷ e.address
    ∷ e.attributes
    ∷ as_u8 e.max_packet_size
    ∷ as_u8 (e.max_packet_size / 256)
    ∷ e.interval
    ∷ []

unfoldable pub endpoint_descriptors : List UsbEndpoint → Bytes
endpoint_descriptors [] = []
endpoint_descriptors (e ∷ es) = endpoint_descriptor e ++ endpoint_descriptors es

unfoldable pub interface_head : ℕ → UsbInterface → Bytes
interface_head i intf =
    0x09
    ∷ descriptor_code DescriptorType.interface
    ∷ as_u8 i
    ∷ 0x00
    ∷ as_u8 (length intf.endpoints)
    ∷ intf.interface_class
    ∷ intf.interface_subclass
    ∷ intf.interface_protocol
    ∷ intf.string_interface
    ∷ []

-- The descriptor of interface `i`, with what is specific to its class and its endpoints.
unfoldable pub interface_descriptor : ℕ → UsbInterface → Bytes
interface_descriptor i intf =
    interface_head i intf ++ (intf.class_specific_descriptor ++ endpoint_descriptors intf.endpoints)

unfoldable pub interface_descriptors : ℕ → List UsbInterface → Bytes
interface_descriptors i [] = []
interface_descriptors i (intf ∷ rest) =
    interface_descriptor i intf ++ interface_descriptors (suc i) rest

-- The length in bytes 2 and 3 is filled in at the end.
abbrev pub unsized : UsbDevice → Bytes
unsized d =
    (0x09
      ∷ descriptor_code DescriptorType.configuration
      ∷ 0x00
      ∷ 0x00
      ∷ as_u8 (length d.interfaces)
      ∷ d.configuration_value
      ∷ d.string_configuration
      ∷ 0x80
      ∷ 0x32
      ∷ [])
    ++ interface_descriptors 0 d.interfaces

unfoldable pub configuration_descriptor : UsbDevice → Bytes
configuration_descriptor d =
    let desc = unsized d in
    let len = as_u16 (length desc) in set (set desc 2 (as_u8 len)) 3 (as_u8 (len / 256))

unfoldable pub language_ids : Bytes
language_ids = 4 ∷ descriptor_code DescriptorType.string ∷ 0x09 ∷ 0x04 ∷ []

unfoldable pub utf16_bytes : List ℕ → Bytes
utf16_bytes [] = []
utf16_bytes (u ∷ us) = as_u8 u ∷ as_u8 (u / 256) ∷ utf16_bytes us

-- `2 + bytes.len() as u8 * 2` wraps around in a release build.
unfoldable pub string_descriptor : Text → Bytes
string_descriptor s =
    let units = encode_utf16 s in
    as_u8 (2 + as_u8 (as_u8 (length units) * 2))
    ∷ descriptor_code DescriptorType.string
    ∷ utf16_bytes units

unfoldable pub qualifier_descriptor : UsbDevice → Bytes
qualifier_descriptor d =
    0x0A
    ∷ descriptor_code DescriptorType.device_qualifier
    ∷ d.usb_version.minor
    ∷ d.usb_version.major
    ∷ d.device_class
    ∷ d.device_subclass
    ∷ d.device_protocol
    ∷ as_u8 d.ep0_in.max_packet_size
    ∷ d.num_configurations
    ∷ 0x00
    ∷ []

-- `if setup_packet.length < desc.len() as u16 { desc.resize(setup_packet.length as usize, 0) }`
unfoldable pub shorten : ℕ → Bytes → Bytes
shorten wanted desc = if ltb wanted (as_u16 (length desc)) then resize wanted 0 desc else desc

unfoldable pub get_string : UsbDevice → SetupPacket → IoResult Bytes
get_string d setup =
    let index = as_u8 setup.value in
    if index == 0 then ok (shorten setup.length language_ids) else elim (get index d.string_pool) [
      | some s ↦ ok (shorten setup.length (string_descriptor s))
      | none ↦ err (invalid_string_index index)
    ]

-- The high byte of `value` is the descriptor's type.
unfoldable pub get_descriptor : UsbDevice → SetupPacket → IoResult Bytes
get_descriptor d setup = elim (descriptor_from_u16 (setup.value / 256)) [
  | some DescriptorType.device ↦ ok (shorten setup.length (device_descriptor d))
  | some DescriptorType.bos ↦ ok (shorten setup.length bos_descriptor)
  | some DescriptorType.configuration ↦ ok (shorten setup.length (configuration_descriptor d))
  | some DescriptorType.string ↦ get_string d setup
  | some DescriptorType.device_qualifier ↦ ok (shorten setup.length (qualifier_descriptor d))
  | _ ↦ ok []
]
