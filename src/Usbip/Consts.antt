-- ===== src/Usbip/Consts.antt =====
-- usbip/src/consts.rs and the constants of usbip_protocol.rs. `from_u8` and `from_u16` of an
-- enumeration are what `derive(FromPrimitive)` makes of its discriminants.
use remote_yubikey_manager.Common.{ℕ, ◌≡◌, Option, none, some, arith, ◌==◌, if◌then◌else◌}

abbrev pub usbip_version : ℕ
usbip_version = 0x0111

abbrev pub op_req_devlist : ℕ
op_req_devlist = 0x8005

abbrev pub op_req_import : ℕ
op_req_import = 0x8003

abbrev pub op_rep_devlist : ℕ
op_rep_devlist = 0x0005

abbrev pub op_rep_import : ℕ
op_rep_import = 0x0003

abbrev pub usbip_cmd_submit : ℕ
usbip_cmd_submit = 0x0001

abbrev pub usbip_cmd_unlink : ℕ
usbip_cmd_unlink = 0x0002

abbrev pub usbip_ret_submit : ℕ
usbip_ret_submit = 0x0003

abbrev pub usbip_ret_unlink : ℕ
usbip_ret_unlink = 0x0004

abbrev pub ep0_max_packet_size : ℕ
ep0_max_packet_size = 64

pub data UsbSpeed : Type 0 where
  unknown low full high wireless super super_plus : UsbSpeed

abbrev pub speed_code : UsbSpeed → ℕ
speed_code UsbSpeed.unknown = 0
speed_code UsbSpeed.low = 1
speed_code UsbSpeed.full = 2
speed_code UsbSpeed.high = 3
speed_code UsbSpeed.wireless = 4
speed_code UsbSpeed.super = 5
speed_code UsbSpeed.super_plus = 6

-- The direction of an endpoint, in the sense of rusb.
pub data Direction : Type 0 where
  dir_in dir_out : Direction

pub data EndpointAttributes : Type 0 where
  control isochronous bulk interrupt : EndpointAttributes

abbrev pub attributes_code : EndpointAttributes → ℕ
attributes_code control = 0
attributes_code isochronous = 1
attributes_code bulk = 2
attributes_code interrupt = 3

unfoldable pub attributes_from_u8 : ℕ → Option EndpointAttributes
attributes_from_u8 n =
    if n == 0
    then some control
    else if n == 1
    then some isochronous
    else if n == 2
    then some bulk
    else if n == 3
    then some interrupt
    else none

pub data StandardRequest : Type 0 where
  get_status clear_feature set_feature set_address get_descriptor set_descriptor : StandardRequest
  get_configuration set_configuration get_interface set_interface synch_frame : StandardRequest

abbrev pub request_code : StandardRequest → ℕ
request_code get_status = 0
request_code clear_feature = 1
request_code set_feature = 3
request_code set_address = 5
request_code get_descriptor = 6
request_code set_descriptor = 7
request_code get_configuration = 8
request_code set_configuration = 9
request_code get_interface = 10
request_code set_interface = 11
request_code synch_frame = 12

unfoldable pub request_from_u8 : ℕ → Option StandardRequest
request_from_u8 n =
    if n == 0
    then some get_status
    else if n == 1
    then some clear_feature
    else if n == 3
    then some set_feature
    else if n == 5
    then some set_address
    else if n == 6
    then some get_descriptor
    else if n == 7
    then some set_descriptor
    else if n == 8
    then some get_configuration
    else if n == 9
    then some set_configuration
    else if n == 10
    then some get_interface
    else if n == 11
    then some set_interface
    else if n == 12
    then some synch_frame
    else none

pub data DescriptorType : Type 0 where
  device configuration string interface endpoint device_qualifier : DescriptorType
  other_speed_configuration interface_power otg debug interface_association bos : DescriptorType

abbrev pub descriptor_code : DescriptorType → ℕ
descriptor_code device = 1
descriptor_code configuration = 2
descriptor_code string = 3
descriptor_code interface = 4
descriptor_code endpoint = 5
descriptor_code device_qualifier = 6
descriptor_code other_speed_configuration = 7
descriptor_code interface_power = 8
descriptor_code otg = 9
descriptor_code debug = 10
descriptor_code interface_association = 11
descriptor_code bos = 15

unfoldable pub descriptor_from_u16 : ℕ → Option DescriptorType
descriptor_from_u16 n =
    if n == 1
    then some device
    else if n == 2
    then some configuration
    else if n == 3
    then some string
    else if n == 4
    then some interface
    else if n == 5
    then some endpoint
    else if n == 6
    then some device_qualifier
    else if n == 7
    then some other_speed_configuration
    else if n == 8
    then some interface_power
    else if n == 9
    then some otg
    else if n == 10
    then some debug
    else if n == 11
    then some interface_association
    else if n == 15
    then some bos
    else none

pub attributes_from_u8_code :
    (n : ℕ) (a : EndpointAttributes) → attributes_from_u8 n ≡ some a → n ≡ attributes_code a
unfolding attributes_from_u8
attributes_from_u8_code n a h = ground arith

pub request_from_u8_code :
    (n : ℕ) (r : StandardRequest) → request_from_u8 n ≡ some r → n ≡ request_code r
unfolding request_from_u8
request_from_u8_code n r h = ground arith

pub descriptor_from_u16_code :
    (n : ℕ) (d : DescriptorType) → descriptor_from_u16 n ≡ some d → n ≡ descriptor_code d
unfolding descriptor_from_u16
descriptor_from_u16_code n d h = ground arith
