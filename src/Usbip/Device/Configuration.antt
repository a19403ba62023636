-- ===== src/Usbip/Device/Configuration.antt =====
-- The configuration descriptor of a device (usbip/src/device.rs), as a whole.
use remote_yubikey_manager.Common.{
  ℕ, suc, ◌+◌, ◌*◌, ◌/◌, ◌<◌, ◌≡◌, refl, sym, ap, append-nil, true, List, [], ◌∷◌, ◌++◌, some,
  arith, length, get_elem?, All,
}
use remote_yubikey_manager.Common.Bytes.{Bytes, as_u8, as_u16}
use remote_yubikey_manager.Usbip.Consts.{DescriptorType, descriptor_code}
use remote_yubikey_manager.Usbip.Endpoint.{UsbEndpoint}
use remote_yubikey_manager.Usbip.Verify.{verify_descriptor}
use remote_yubikey_manager.Usbip.Verify.Chains.{
  Chain, done, link, Chain-append, verify_descriptor-Chain,
}
use remote_yubikey_manager.Usbip.Device.{UsbDevice, UsbInterface}
use remote_yubikey_manager.Usbip.Device.Descriptors.{
  endpoint_descriptor, endpoint_descriptors, interface_head, interface_descriptor,
  interface_descriptors, configuration_descriptor, unsized,
}

Chain-one : (len : ℕ) (body : Bytes) → len ≡ suc (length body) → Chain (len ∷ body)
Chain-one len body h = link _ len body [] (ap (◌∷◌ len) (sym (append-nil body))) h done

endpoint_descriptor-Chain : (e : UsbEndpoint) → Chain (endpoint_descriptor e)
unfolding endpoint_descriptor
endpoint_descriptor-Chain e = Chain-one 7 _ refl

interface_head-Chain : (i : ℕ) (intf : UsbInterface) → Chain (interface_head i intf)
unfolding interface_head
interface_head-Chain i intf = Chain-one 9 _ refl

endpoint_descriptors-Chain : (es : List UsbEndpoint) → Chain (endpoint_descriptors es)
unfolding endpoint_descriptors
endpoint_descriptors-Chain [] = done
endpoint_descriptors-Chain (e ∷ es) =
    Chain-append _ (endpoint_descriptor-Chain e) (endpoint_descriptors-Chain es)

interface_descriptor-Chain :
    (i : ℕ) (intf : UsbInterface)
    → Chain intf.class_specific_descriptor
    → Chain (interface_descriptor i intf)
unfolding interface_descriptor
interface_descriptor-Chain i intf c =
    Chain-append _ (interface_head-Chain i intf)
      (Chain-append _ c (endpoint_descriptors-Chain intf.endpoints))

interface_descriptors-Chain :
    (i : ℕ) (is : List UsbInterface)
    → All (λ intf. Chain intf.class_specific_descriptor) is
    → Chain (interface_descriptors i is)
unfolding interface_descriptors
interface_descriptors-Chain i [] c = done
interface_descriptors-Chain i (intf ∷ is) (c, cs) =
    Chain-append _ (interface_descriptor-Chain i intf c) (interface_descriptors-Chain (suc i) is cs)

abbrev header_tail : UsbDevice → ℕ → Bytes
header_tail d len =
    descriptor_code DescriptorType.configuration
    ∷ as_u8 len
    ∷ as_u8 (len / 256)
    ∷ as_u8 (length d.interfaces)
    ∷ d.configuration_value
    ∷ d.string_configuration
    ∷ 0x80
    ∷ 0x32
    ∷ []

configuration_descriptor_parts :
    (d : UsbDevice)
    → configuration_descriptor d
      ≡ 9 ∷ (header_tail d (as_u16 (length (unsized d))) ++ interface_descriptors 0 d.interfaces)
unfolding configuration_descriptor
configuration_descriptor_parts d = refl

-- `verify_descriptor` accepts the configuration descriptor, if the class specific part of each
-- interface is a chain of descriptors.
pub configuration_descriptor-verify :
    (d : UsbDevice)
    → All (λ intf. Chain intf.class_specific_descriptor) d.interfaces
    → verify_descriptor (configuration_descriptor d) ≡ some true
configuration_descriptor-verify d c = verify_descriptor-Chain _ (
    link _ 9 (header_tail d (as_u16 (length (unsized d)))) _ (configuration_descriptor_parts d) refl
      (interface_descriptors-Chain 0 d.interfaces c))

-- The third and fourth byte of the configuration descriptor are its own length, low byte first, if
-- that fits 16 bits and the interfaces are less than 256; its fifth byte is then their number.
pub configuration_descriptor_counts :
    (d : UsbDevice)
    → length (configuration_descriptor d) < 65536
    → length d.interfaces < 256
    → (lo : ℕ) × (hi : ℕ) × (get_elem? (configuration_descriptor d) 2 ≡ some lo)
      × (get_elem? (configuration_descriptor d) 3 ≡ some hi)
      × (hi * 256 + lo ≡ length (configuration_descriptor d))
      × (get_elem? (configuration_descriptor d) 4 ≡ some (length d.interfaces))
configuration_descriptor_counts d small few =
    let n : ℕ = length (unsized d) in
    let e = configuration_descriptor_parts d in
    let size : length (configuration_descriptor d) ≡ n = rw e (omega arith) in
    (
      as_u8 (as_u16 n),
      as_u8 (as_u16 n / 256),
      rw e,
      rw e,
      omega (arith, size),
      rw e (ap some (omega arith)),
    )
