-- ===== src/Usbip/Protocol/Response.antt =====
-- `UsbIpResponse` of usbip/src/usbip_protocol.rs.
use remote_yubikey_manager.Common.{
  ℕ, Bool, true, List, [], ◌∷◌, ◌++◌, Option, none, some, ◌&&◌, length, replicate, ◌==◌,
  if◌then◌else◌,
}
use remote_yubikey_manager.Common.Bytes.{Bytes, as_u32, u16_to_be_bytes, u32_to_be_bytes}
use remote_yubikey_manager.Usbip.Consts.{
  usbip_version, op_rep_devlist, op_rep_import, usbip_ret_submit, usbip_ret_unlink,
}
use remote_yubikey_manager.Usbip.Device.{UsbDevice, to_bytes, to_bytes_with_interfaces}
use remote_yubikey_manager.Usbip.Protocol.Header.{UsbIpHeaderBasic, header_bytes, direction_in}

pub record RetSubmit : Type 0 where
  pub header : UsbIpHeaderBasic
  pub status : ℕ
  pub actual_length : ℕ
  pub start_frame : ℕ
  pub number_of_packets : ℕ
  pub error_count : ℕ
  pub transfer_buffer : Bytes
  pub iso_packet_descriptor : Bytes

pub data UsbIpResponse : Type 0 where
  rep_devlist : ℕ → ℕ → List UsbDevice → UsbIpResponse
  rep_import : ℕ → Option UsbDevice → UsbIpResponse
  ret_submit : RetSubmit → UsbIpResponse
  ret_unlink : UsbIpHeaderBasic → ℕ → UsbIpResponse

unfoldable pub devices_bytes : List UsbDevice → Bytes
devices_bytes [] = []
devices_bytes (d ∷ ds) = to_bytes_with_interfaces d ++ devices_bytes ds

unfoldable pub imported_bytes : Option UsbDevice → Bytes
imported_bytes none = []
imported_bytes (some d) = to_bytes d

unfoldable pub response_bytes : UsbIpResponse → Bytes
response_bytes (rep_devlist status device_count devices) =
    u16_to_be_bytes usbip_version
    ++ (u16_to_be_bytes op_rep_devlist
        ++ (u32_to_be_bytes status ++ (u32_to_be_bytes device_count ++ devices_bytes devices)))
response_bytes (rep_import status imported) =
    u16_to_be_bytes usbip_version
    ++ (u16_to_be_bytes op_rep_import ++ (u32_to_be_bytes status ++ imported_bytes imported))
response_bytes (ret_submit r) =
    header_bytes r.header
    ++ (u32_to_be_bytes r.status
        ++ (u32_to_be_bytes r.actual_length
            ++ (u32_to_be_bytes r.start_frame
                ++ (u32_to_be_bytes r.number_of_packets
                    ++ (u32_to_be_bytes r.error_count
                        ++ (replicate 8 0 ++ (r.transfer_buffer ++ r.iso_packet_descriptor)))))))
response_bytes (ret_unlink header status) =
    header_bytes header ++ (u32_to_be_bytes status ++ replicate 24 0)

-- The conditions that a debug build asserts while it writes a response.
unfoldable pub debug_asserts : UsbIpResponse → Bool
debug_asserts (ret_submit r) =
    r.header.command == usbip_ret_submit
    && (if r.header.direction == direction_in
        then r.actual_length == as_u32 (length r.transfer_buffer)
        else r.actual_length == 0)
debug_asserts (ret_unlink header status) = header.command == usbip_ret_unlink
debug_asserts _ = true

unfoldable pub devlist_reply : List UsbDevice → UsbIpResponse
devlist_reply devices = rep_devlist 0 (as_u32 (length devices)) devices

unfoldable pub import_success : UsbDevice → UsbIpResponse
import_success d = rep_import 0 (some d)

unfoldable pub import_fail : UsbIpResponse
import_fail = rep_import 1 none

unfoldable pub submit_success : UsbIpHeaderBasic → ℕ → ℕ → Bytes → Bytes → UsbIpResponse
submit_success header start_frame number_of_packets transfer_buffer iso_packet_descriptor =
    ret_submit (record {
      header = header;
      status = 0;
      actual_length = as_u32 (length transfer_buffer);
      start_frame = start_frame;
      number_of_packets = number_of_packets;
      error_count = 0;
      transfer_buffer = transfer_buffer;
      iso_packet_descriptor = iso_packet_descriptor;
    })

unfoldable pub submit_fail : UsbIpHeaderBasic → UsbIpResponse
submit_fail header = ret_submit (record {
  header = header;
  status = 1;
  actual_length = 0;
  start_frame = 0;
  number_of_packets = 0;
  error_count = 0;
  transfer_buffer = [];
  iso_packet_descriptor = [];
})

unfoldable pub unlink_success : UsbIpHeaderBasic → UsbIpResponse
unlink_success header = ret_unlink header 0

unfoldable pub unlink_fail : UsbIpHeaderBasic → UsbIpResponse
unlink_fail header = ret_unlink header 1
