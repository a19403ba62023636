-- ===== src/Usbip/Device/Transfers.antt =====
-- What a device answers to control transfers.
use remote_yubikey_manager.Common.{
  ℕ, ◌/◌, ◌<◌, ◌≡◌, refl, ap, inl, inr, [], Option, none, some, arith, length, take, resize-eq-take,
  ltb, ◌==◌, if◌then◌else◌, Bool-cases,
}
use remote_yubikey_manager.Common.Bytes.{Bytes, as_u8, as_u16}
use remote_yubikey_manager.Common.Dict.{get}
use remote_yubikey_manager.Common.Eq.{nat_eq}
use remote_yubikey_manager.Common.Outcome.{ok, err, panic}
use remote_yubikey_manager.Common.Text.{Text}
use remote_yubikey_manager.Usbip.Io.{IoResult, invalid_string_index}
use remote_yubikey_manager.Usbip.Consts.{DescriptorType, descriptor_from_u16}
use remote_yubikey_manager.Usbip.Setup.{SetupPacket}
use remote_yubikey_manager.Usbip.Device.{UsbDevice}
use remote_yubikey_manager.Usbip.Device.Descriptors.{
  device_descriptor, bos_descriptor, configuration_descriptor, qualifier_descriptor, language_ids,
  string_descriptor, shorten, get_string, get_descriptor,
}

-- The front of `desc` that fits into `wanted` bytes.
abbrev pub front : ℕ → Bytes → Bytes
front wanted desc = if ltb wanted (length desc) then take wanted desc else desc

-- A descriptor of less than 64 KiB is cut to what the host asks for, and nothing is added.
shorten_lem :
    (wanted : ℕ) (desc : Bytes) → length desc < 65536 → shorten wanted desc ≡ front wanted desc
unfolding shorten
shorten_lem wanted desc h =
    let same : as_u16 (length desc) ≡ length desc = omega arith in
    rw same (elim (Bool-cases (ltb wanted (length desc))) [
      | inl lt ↦ rw lt (resize-eq-take wanted 0 desc (ground arith))
      | inr ge ↦ rw ge
    ])

-- The descriptors that a device has, whole: what GET_DESCRIPTOR names by `value`.
abbrev pub whole_string : ℕ → Option Text → IoResult Bytes
whole_string index none = err (invalid_string_index index)
whole_string index (some s) = ok (string_descriptor s)

abbrev pub whole : UsbDevice → ℕ → Option DescriptorType → IoResult Bytes
whole d index (some DescriptorType.device) = ok (device_descriptor d)
whole d index (some DescriptorType.bos) = ok bos_descriptor
whole d index (some DescriptorType.configuration) = ok (configuration_descriptor d)
whole d index (some DescriptorType.string) =
    if index == 0 then ok language_ids else whole_string index (get index d.string_pool)
whole d index (some DescriptorType.device_qualifier) = ok (qualifier_descriptor d)
whole d index _ = ok []

abbrev pub whole_descriptor : UsbDevice → ℕ → IoResult Bytes
whole_descriptor d value = whole d (as_u8 value) (descriptor_from_u16 (value / 256))

abbrev pub map_ok : (Bytes → Bytes) → IoResult Bytes → IoResult Bytes
map_ok f (ok bs) = ok (f bs)
map_ok f (err e) = err e
map_ok f panic = panic

-- All descriptors that are built from the device's data are shorter than 64 KiB.
pub record IsSmall (d : UsbDevice) : Type 0 where
  pub configuration_small : length (configuration_descriptor d) < 65536
  pub strings_small :
      (i : ℕ) (s : Text) → get i d.string_pool ≡ some s → length (string_descriptor s) < 65536

front-nil : (wanted : ℕ) → [] ≡ front wanted []
front-nil wanted = ground arith

get_string-front :
    (d : UsbDevice) (setup : SetupPacket) (o : Option Text)
    → get (as_u8 setup.value) d.string_pool ≡ o
    → IsSmall d
    → get_string d setup
      ≡ map_ok
          (front setup.length)
          (if as_u8 setup.value == 0 then ok language_ids else whole_string (as_u8 setup.value) o)
unfolding get_string language_ids
get_string-front d setup none e small = elim (Bool-cases (as_u8 setup.value == 0)) [
  | inl z ↦ rw z (ap ok (shorten_lem setup.length language_ids (omega arith)))
  | inr nz ↦ rw nz (rw e)
]
get_string-front d setup (some s) e small = elim (Bool-cases (as_u8 setup.value == 0)) [
  | inl z ↦ rw z (ap ok (shorten_lem setup.length language_ids (omega arith)))
  | inr nz ↦
      rw nz
        (rw e (ap ok (shorten_lem setup.length (string_descriptor s) (small.strings_small _ s e))))
]

get_descriptor_of_type :
    (d : UsbDevice) (setup : SetupPacket) (t : Option DescriptorType)
    → descriptor_from_u16 (setup.value / 256) ≡ t
    → IsSmall d
    → get_descriptor d setup ≡ map_ok (front setup.length) (whole d (as_u8 setup.value) t)
unfolding get_descriptor device_descriptor bos_descriptor qualifier_descriptor
get_descriptor_of_type d setup (some DescriptorType.device) e small =
    rw (e, get_descriptor) (ap ok (shorten_lem setup.length (device_descriptor d) (omega arith)))
get_descriptor_of_type d setup (some DescriptorType.bos) e small =
    rw (e, get_descriptor) (ap ok (shorten_lem setup.length bos_descriptor (omega arith)))
get_descriptor_of_type d setup (some DescriptorType.configuration) e small =
    rw (e, get_descriptor)
      (ap ok (shorten_lem setup.length (configuration_descriptor d) small.configuration_small))
get_descriptor_of_type d setup (some DescriptorType.string) e small =
    rw (e, get_descriptor) (get_string-front d setup _ refl small)
get_descriptor_of_type d setup (some DescriptorType.device_qualifier) e small =
    rw (e, get_descriptor) (ap ok (shorten_lem setup.length (qualifier_descriptor d) (omega arith)))
get_descriptor_of_type d setup _ e small = rw (e, get_descriptor) (ap ok (front-nil setup.length))

-- When the descriptors of the device are shorter than 64 KiB, GET_DESCRIPTOR answers with the
-- front of the descriptor that `value` names, as long as the host has asked for and no longer; a
-- string that the device does not have is an error, and a type that it does not know an empty
-- answer.
pub get_descriptor-whole :
    (d : UsbDevice) (setup : SetupPacket)
    → IsSmall d
    → get_descriptor d setup ≡ map_ok (front setup.length) (whole_descriptor d setup.value)
get_descriptor-whole d setup small = get_descriptor_of_type d setup _ refl small
