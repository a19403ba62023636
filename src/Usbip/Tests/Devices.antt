-- ===== src/Usbip/Tests/Devices.antt =====
-- The theorems on devices at the small ones.
use remote_yubikey_manager.Common.{
  ℕ, ◌+◌, ◌*◌, ◌≤◌, ◌<◌, ◌≡◌, refl, [], ◌∷◌, none, some, true, arith, length, ◌==◌, if◌then◌else◌,
}
use remote_yubikey_manager.Common.Dict.{get, insert}
use remote_yubikey_manager.Common.Dict.Keys.{All-get}
use remote_yubikey_manager.Common.Eq.{nat_eq}
use remote_yubikey_manager.Common.Text.{codes, encode_utf16}
use remote_yubikey_manager.Usbip.Setup.{SetupPacket}
use remote_yubikey_manager.Usbip.Device.{UsbDevice, new_string, find_ep, to_bytes_with_interfaces}
use remote_yubikey_manager.Usbip.Device.Descriptors.{
  get_descriptor, configuration_descriptor, string_descriptor, interface_descriptors,
  interface_descriptor, interface_head, endpoint_descriptors, endpoint_descriptor, utf16_bytes,
}
use remote_yubikey_manager.Usbip.Device.Strings.{new_string_takes-Least, Least}
use remote_yubikey_manager.Usbip.Device.Lookup.{find_ep-Finds, Finds}
use remote_yubikey_manager.Usbip.Device.Layout.{length-to_bytes_with_interfaces}
use remote_yubikey_manager.Usbip.Device.Transfers.{
  get_descriptor-whole, IsSmall, map_ok, front, whole_descriptor,
}
use remote_yubikey_manager.Usbip.Device.Configuration.{configuration_descriptor-verify}
use remote_yubikey_manager.Usbip.Verify.{verify_descriptor}
use remote_yubikey_manager.Usbip.Verify.Chains.{verify_descriptor-Chain, Chain, done, link}
use remote_yubikey_manager.Usbip.Tests.Data.{device, id1, keyboard_interface}

abbrev one : UsbDevice
one = device id1

find_ep-Finds_example : Finds one 0x81 (find_ep one 0x81)
find_ep-Finds_example = find_ep-Finds one 0x81

length-to_bytes_with_interfaces_example :
    length (to_bytes_with_interfaces one) ≡ 312 + 4 * length one.interfaces
length-to_bytes_with_interfaces_example = length-to_bytes_with_interfaces one

unused2 : get 2 one.string_pool ≡ none
unfolding get
unused2 = refl

new_string_takes-Least_example :
    (m : ℕ) × (new_string (codes "m") one
      ≡ some (m, record one { string_pool = insert m (codes "m") one.string_pool }))
    × (m ≤ 2)
    × Least 1 m one.string_pool
    × ((n : ℕ)
        → get n (insert m (codes "m") one.string_pool)
          ≡ (if m == n then some (codes "m") else get n one.string_pool))
new_string_takes-Least_example =
    new_string_takes-Least (codes "m") one 2 (omega arith) (omega arith) unused2

abbrev get_configuration : SetupPacket
get_configuration = record {
  request_type = 0x80;
  request = 6;
  value = 0x200;
  index = 0;
  length = 9;
}

one-IsSmall : IsSmall one
unfolding configuration_descriptor string_descriptor interface_descriptors interface_descriptor
    interface_head endpoint_descriptors endpoint_descriptor utf16_bytes encode_utf16
one-IsSmall = record {
  configuration_small = omega arith;
  strings_small = λ i s.
      All-get (λ e. length (string_descriptor e.1) < 65536) i s one.string_pool (omega arith, tt);
}

get_descriptor-whole_example :
    get_descriptor one get_configuration ≡ map_ok (front 9) (whole_descriptor one 0x200)
get_descriptor-whole_example = get_descriptor-whole one get_configuration one-IsSmall

class_specific-Chain : Chain keyboard_interface.class_specific_descriptor
class_specific-Chain = link _ 3 (0x21 ∷ 0x11 ∷ []) [] refl refl done

configuration_descriptor-verify_example :
    verify_descriptor (configuration_descriptor one) ≡ some true
configuration_descriptor-verify_example =
    configuration_descriptor-verify one (class_specific-Chain, tt)

verify_descriptor-Chain_example :
    verify_descriptor keyboard_interface.class_specific_descriptor ≡ some true
verify_descriptor-Chain_example =
    verify_descriptor-Chain keyboard_interface.class_specific_descriptor class_specific-Chain
