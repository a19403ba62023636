-- ===== src/Usbip/Protocol/Command.antt =====
-- `UsbIpCommand` of usbip/src/usbip_protocol.rs. Assertions of debug builds are left out.
use remote_yubikey_manager.Common.{
  ℕ, ◌*◌, ◌≡◌, Bool, not, ◌&&◌, [], ◌++◌, length, replicate, ◌==◌, if◌then◌else◌,
}
use remote_yubikey_manager.Common.Bytes.{Bytes, IsU32, u16_to_be_bytes, u32_to_be_bytes}
use remote_yubikey_manager.Usbip.Io.{
  Socket, Reader, ◌>>=◌, pure, fail, unknown_version, unknown_command,
}
use remote_yubikey_manager.Usbip.Consts.{
  usbip_version, op_req_devlist, op_req_import, usbip_cmd_submit, usbip_cmd_unlink,
}
use remote_yubikey_manager.Usbip.Protocol.Header.{
  UsbIpHeaderBasic, IsHeader, header_bytes, read_from_socket_with_command, direction_in,
}

pub record CmdSubmit : Type 0 where
  pub header : UsbIpHeaderBasic
  pub transfer_flags : ℕ
  pub transfer_buffer_length : ℕ
  pub start_frame : ℕ
  pub number_of_packets : ℕ
  pub interval : ℕ
  pub setup : Bytes
  pub payload : Bytes
  pub iso_packet_descriptor : Bytes

pub data UsbIpCommand : Type 0 where
  devlist : ℕ → UsbIpCommand
  import : ℕ → Bytes → UsbIpCommand
  submit : CmdSubmit → UsbIpCommand
  unlink : UsbIpHeaderBasic → ℕ → UsbIpCommand

-- Whether isochronous packet descriptors follow the data.
unfoldable pub has_iso_packets : ℕ → Bool
has_iso_packets n = not (n == 0) && not (n == 0xFFFFFFFF)

module _ {S : Type 0} (k : Socket S) where
  unfoldable pub read_devlist : Reader S UsbIpCommand
  read_devlist = do status ← k.read_u32; pure (devlist status)

  unfoldable pub read_import : Reader S UsbIpCommand
  read_import = do status ← k.read_u32; busid ← k.read_exact 32; pure (import status busid)

  unfoldable pub read_submit : Reader S UsbIpCommand
  read_submit = do
    header ← read_from_socket_with_command k usbip_cmd_submit
    transfer_flags ← k.read_u32
    transfer_buffer_length ← k.read_u32
    start_frame ← k.read_u32
    number_of_packets ← k.read_u32
    interval ← k.read_u32
    setup ← k.read_exact 8
    payload ←
        (if header.direction == direction_in then pure [] else k.read_exact transfer_buffer_length)
    iso_packet_descriptor ←
        (if has_iso_packets number_of_packets
          then k.read_exact (16 * number_of_packets)
          else pure [])
    pure (
        submit (record {
          header = header;
          transfer_flags = transfer_flags;
          transfer_buffer_length = transfer_buffer_length;
          start_frame = start_frame;
          number_of_packets = number_of_packets;
          interval = interval;
          setup = setup;
          payload = payload;
          iso_packet_descriptor = iso_packet_descriptor;
        }))

  unfoldable pub read_unlink : Reader S UsbIpCommand
  read_unlink = do
    header ← read_from_socket_with_command k usbip_cmd_unlink
    unlink_seqnum ← k.read_u32
    padding ← k.read_exact 24
    pure (unlink header unlink_seqnum)

  unfoldable pub read_body : ℕ → Reader S UsbIpCommand
  read_body command =
      if command == op_req_devlist
      then read_devlist
      else if command == op_req_import
      then read_import
      else if command == usbip_cmd_submit
      then read_submit
      else if command == usbip_cmd_unlink
      then read_unlink
      else fail (unknown_command command)

  unfoldable pub read_from_socket : Reader S UsbIpCommand
  read_from_socket = do
    version ← k.read_u16
    if not (version == 0) && not (version == usbip_version)
        then fail (unknown_version version)
        else (k.read_u16 >>= read_body)

unfoldable pub command_bytes : UsbIpCommand → Bytes
command_bytes (devlist status) =
    u16_to_be_bytes usbip_version ++ (u16_to_be_bytes op_req_devlist ++ u32_to_be_bytes status)
command_bytes (import status busid) =
    u16_to_be_bytes usbip_version
    ++ (u16_to_be_bytes op_req_import ++ (u32_to_be_bytes status ++ busid))
command_bytes (submit c) =
    header_bytes c.header
    ++ (u32_to_be_bytes c.transfer_flags
        ++ (u32_to_be_bytes c.transfer_buffer_length
            ++ (u32_to_be_bytes c.start_frame
                ++ (u32_to_be_bytes c.number_of_packets
                    ++ (u32_to_be_bytes c.interval
                        ++ (c.setup ++ (c.payload ++ c.iso_packet_descriptor)))))))
command_bytes (unlink header unlink_seqnum) =
    header_bytes header ++ (u32_to_be_bytes unlink_seqnum ++ replicate 24 0)

-- What the protocol asks of a command: the machine integers fit, the arrays have their lengths,
-- the header's command is the packet's, and an IN transfer has no data and an OUT transfer all.
pub record IsSubmit (c : CmdSubmit) : Type 0 where
  pub header_fits : IsHeader c.header
  pub is_submit : c.header.command ≡ usbip_cmd_submit
  pub flags_fit : IsU32 c.transfer_flags
  pub length_fits : IsU32 c.transfer_buffer_length
  pub frame_fits : IsU32 c.start_frame
  pub packets_fit : IsU32 c.number_of_packets
  pub interval_fits : IsU32 c.interval
  pub setup_length : length c.setup ≡ 8
  pub payload_length :
      length c.payload
      ≡ (if c.header.direction == direction_in then 0 else c.transfer_buffer_length)
  pub iso_length :
      length c.iso_packet_descriptor
      ≡ (if has_iso_packets c.number_of_packets then 16 * c.number_of_packets else 0)

abbrev pub IsCommand : UsbIpCommand → Type 0
IsCommand (devlist status) = IsU32 status
IsCommand (import status busid) = IsU32 status × (length busid ≡ 32)
IsCommand (submit c) = IsSubmit c
IsCommand (unlink header unlink_seqnum) =
    IsHeader header × (header.command ≡ usbip_cmd_unlink) × IsU32 unlink_seqnum
