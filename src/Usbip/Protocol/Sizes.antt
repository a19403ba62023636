-- ===== src/Usbip/Protocol/Sizes.antt =====
-- The sizes of the packets that the server writes.
use remote_yubikey_manager.Common.{
  ℕ, ◌+◌, ◌*◌, ◌^◌, ◌<◌, ◌≡◌, ◌≢◌, true, ◌==◌, if◌then◌else◌, List, [], ◌∷◌, none, some, length,
}
use remote_yubikey_manager.Usbip.Device.{UsbDevice}
use remote_yubikey_manager.Usbip.Protocol.Header.{direction_in}
use remote_yubikey_manager.Usbip.Protocol.Response.{
  UsbIpResponse, rep_devlist, rep_import, ret_submit, ret_unlink, debug_asserts,
}

-- The interfaces of all devices together.
abbrev pub interface_count : List UsbDevice → ℕ
interface_count [] = 0
interface_count (d ∷ ds) = length d.interfaces + interface_count ds

-- The size that the protocol gives a packet by the fields of its head: by the number of devices, by
-- whether an import succeeded, and by the direction, the actual length and the number of packets of a
-- URB. A packet for an OUT transfer has no place for data.
abbrev pub packet_size : UsbIpResponse → ℕ
packet_size (rep_devlist status device_count devices) =
    12 + 312 * device_count + 4 * interface_count devices
packet_size (rep_import status imported) = if status == 0 then 320 else 8
packet_size (ret_submit r) =
    48
    + (if r.header.direction == direction_in then r.actual_length else 0)
    + 16 * r.number_of_packets
packet_size (ret_unlink header status) = 48

-- The fields of the head tell of what follows.
abbrev pub IsComplete : UsbIpResponse → Type 0
IsComplete (rep_devlist status device_count devices) = device_count ≡ length devices
IsComplete (rep_import status none) = status ≢ 0
IsComplete (rep_import status (some d)) = status ≡ 0
IsComplete (ret_submit r) =
    (length r.transfer_buffer < 2 ^ 32)
    × (debug_asserts (ret_submit r) ≡ true)
    × (r.header.direction ≢ direction_in → r.transfer_buffer ≡ [])
    × (length r.iso_packet_descriptor ≡ 16 * r.number_of_packets)
IsComplete (ret_unlink header status) = Unit {0}
