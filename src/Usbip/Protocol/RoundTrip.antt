-- ===== src/Usbip/Protocol/RoundTrip.antt =====
-- `to_bytes` of a command against `read_from_socket` (usbip/src/usbip_protocol.rs).
use remote_yubikey_manager.Common.{
  ℕ, ◌*◌, ◌<◌, ◌≡◌, refl, ◌⊎◌, [], ◌∷◌, ◌++◌, arith, length, append_assoc, ◌==◌, if◌then◌else◌, inl,
  inr, Bool, true, false, replicate,
}
use remote_yubikey_manager.Common.Bytes.{Bytes, IsU16, IsU32, u16_to_be_bytes, u32_to_be_bytes}
use remote_yubikey_manager.Usbip.Io.{Socket, IsStream, ◌>>=◌, pure}
use remote_yubikey_manager.Usbip.Consts.{
  usbip_version, op_req_devlist, op_req_import, usbip_cmd_submit, usbip_cmd_unlink,
}
use remote_yubikey_manager.Common.Outcome.{ok}
use remote_yubikey_manager.Usbip.Protocol.Header.{
  UsbIpHeaderBasic, IsHeader, header_bytes, read_from_socket_with_command, direction_in,
}
use remote_yubikey_manager.Usbip.Protocol.Command.{
  CmdSubmit, UsbIpCommand, devlist, import, submit, unlink, read_devlist, read_import, read_submit,
  read_unlink, read_body, read_from_socket, command_bytes, IsSubmit, IsCommand, has_iso_packets,
}

module _ {S : Type 0} (k : Socket S) (st : IsStream k) where
  open st use {feed, read_u16_lem, read_u32_lem, read_exact_lem}

  -- `read_exact` for a known number of bytes.
  read_exact_of_length :
      (n : ℕ) (front rest : Bytes) (s : S)
      → length front ≡ n
      → k.read_exact n (feed (front ++ rest) s) ≡ ok (front, feed rest s)
  read_exact_of_length n front rest s h = rw (← h) (read_exact_lem front rest s)

  read_header :
      (h : UsbIpHeaderBasic) (command : ℕ) (rest : Bytes) (s : S)
      → IsHeader h
      → h.command ≡ command
      → read_from_socket_with_command k command (
          feed
            (u32_to_be_bytes h.seqnum
              ++ (u32_to_be_bytes h.devid
                  ++ (u32_to_be_bytes h.direction ++ (u32_to_be_bytes h.ep ++ rest))))
            s)
        ≡ ok (h, feed rest s)
  unfolding read_from_socket_with_command
  read_header h command rest s w e = rw (← e) (
      simp (
        ◌>>=◌,
        read_u32_lem h.seqnum _ s w.seqnum_fits,
        read_u32_lem h.devid _ s w.devid_fits,
        read_u32_lem h.direction _ s w.direction_fits,
        read_u32_lem h.ep _ s w.ep_fits,
      ))

  length_zero : (xs : Bytes) → length xs ≡ 0 → xs ≡ []
  length_zero [] h = refl
  length_zero (x ∷ xs) h = absurd (omega arith)

  read_unless :
      (b : Bool) (n : ℕ) (front rest : Bytes) (s : S)
      → length front ≡ (if b then 0 else n)
      → (if b then pure [] else k.read_exact n) (feed (front ++ rest) s) ≡ ok (front, feed rest s)
  read_unless true n front rest s h = rw (length_zero front h)
  read_unless false n front rest s h = read_exact_of_length n front rest s h

  read_when :
      (b : Bool) (n : ℕ) (front rest : Bytes) (s : S)
      → length front ≡ (if b then n else 0)
      → (if b then k.read_exact n else pure []) (feed (front ++ rest) s) ≡ ok (front, feed rest s)
  read_when true n front rest s h = read_exact_of_length n front rest s h
  read_when false n front rest s h = rw (length_zero front h)

  read_devlist_lem :
      (status : ℕ) (rest : Bytes) (s : S)
      → IsU32 status
      → read_devlist k (feed (u32_to_be_bytes status ++ rest) s) ≡ ok (devlist status, feed rest s)
  unfolding read_devlist
  read_devlist_lem status rest s h = simp (◌>>=◌, read_u32_lem status rest s h)

  read_import_lem :
      (status : ℕ) (busid rest : Bytes) (s : S)
      → IsU32 status
      → length busid ≡ 32
      → read_import k (feed (u32_to_be_bytes status ++ (busid ++ rest)) s)
        ≡ ok (import status busid, feed rest s)
  unfolding read_import
  read_import_lem status busid rest s h hl =
      simp (◌>>=◌, read_u32_lem status _ s h, read_exact_of_length 32 busid rest s hl)

  -- The rest of the header after its command, as the writer lays it out.
  abbrev header_rest : UsbIpHeaderBasic → Bytes → Bytes
  header_rest h rest =
      u32_to_be_bytes h.seqnum
      ++ (u32_to_be_bytes h.devid
          ++ (u32_to_be_bytes h.direction ++ (u32_to_be_bytes h.ep ++ rest)))

  read_unlink_lem :
      (h : UsbIpHeaderBasic) (unlink_seqnum : ℕ) (rest : Bytes) (s : S)
      → IsHeader h
      → h.command ≡ usbip_cmd_unlink
      → IsU32 unlink_seqnum
      → read_unlink k
          (feed (header_rest h (u32_to_be_bytes unlink_seqnum ++ (replicate 24 0 ++ rest))) s)
        ≡ ok (unlink h unlink_seqnum, feed rest s)
  unfolding read_unlink
  read_unlink_lem h unlink_seqnum rest s w e hu = simp (
    ◌>>=◌,
    read_header h usbip_cmd_unlink _ s w e,
    read_u32_lem unlink_seqnum _ s hu,
    read_exact_of_length 24 (replicate 24 0) rest s refl,
  )

  read_submit_lem :
      (c : CmdSubmit) (rest : Bytes) (s : S)
      → IsSubmit c
      → read_submit k (
          feed
            (header_rest c.header (
              u32_to_be_bytes c.transfer_flags
              ++ (u32_to_be_bytes c.transfer_buffer_length
                  ++ (u32_to_be_bytes c.start_frame
                      ++ (u32_to_be_bytes c.number_of_packets
                          ++ (u32_to_be_bytes c.interval
                              ++ (c.setup ++ (c.payload ++ (c.iso_packet_descriptor ++ rest)))))))))
            s)
        ≡ ok (submit c, feed rest s)
  unfolding read_submit
  read_submit_lem c rest s w = simp (
    ◌>>=◌,
    read_header c.header usbip_cmd_submit _ s w.header_fits w.is_submit,
    read_u32_lem c.transfer_flags _ s w.flags_fit,
    read_u32_lem c.transfer_buffer_length _ s w.length_fits,
    read_u32_lem c.start_frame _ s w.frame_fits,
    read_u32_lem c.number_of_packets _ s w.packets_fit,
    read_u32_lem c.interval _ s w.interval_fits,
    read_exact_of_length 8 c.setup _ s w.setup_length,
    read_unless (c.header.direction == direction_in) c.transfer_buffer_length c.payload _ s
        w.payload_length,
    read_when (has_iso_packets c.number_of_packets) (16 * c.number_of_packets)
        c.iso_packet_descriptor rest s w.iso_length,
  )

  -- The header's first word is the two halves that the reader takes as version and command.
  header_bytes-split :
      (h : UsbIpHeaderBasic) (command : ℕ) (rest : Bytes)
      → h.command ≡ command
      → command < 65536
      → header_bytes h ++ rest
        ≡ u16_to_be_bytes 0 ++ (u16_to_be_bytes command ++ header_rest h rest)
  unfolding header_bytes u16_to_be_bytes u32_to_be_bytes
  header_bytes-split h command rest e small = ground arith

  read_after_version :
      (version command : ℕ) (rest : Bytes) (s : S)
      → (version ≡ 0) ⊎ (version ≡ usbip_version)
      → IsU16 command
      → read_from_socket k (feed (u16_to_be_bytes version ++ (u16_to_be_bytes command ++ rest)) s)
        ≡ read_body k command (feed rest s)
  unfolding read_from_socket
  read_after_version version command rest s (inl e) hc =
      rw e (simp (◌>>=◌, read_u16_lem 0 _ s (omega arith), read_u16_lem command rest s hc))
  read_after_version version command rest s (inr e) hc =
      rw e
        (simp (◌>>=◌, read_u16_lem usbip_version _ s (omega arith), read_u16_lem command rest s hc))

  -- Whatever command a client writes, the server reads it back in full and leaves the stream at
  -- the byte behind it, so commands can follow one another. The command is well formed: its
  -- integers fit, its arrays have their lengths, and data is there just as its header says.
  pub read_from_socket-command_bytes :
      (c : UsbIpCommand) (rest : Bytes) (s : S)
      → IsCommand c
      → read_from_socket k (feed (command_bytes c ++ rest) s) ≡ ok (c, feed rest s)
  unfolding command_bytes read_body
  read_from_socket-command_bytes (devlist status) rest s h =
      rw
        (
          append_assoc,
          append_assoc,
          read_after_version usbip_version op_req_devlist _ s (inr refl) (omega arith),
        )
        (read_devlist_lem status rest s h)
  read_from_socket-command_bytes (import status busid) rest s (h, hl) =
      rw
        (
          append_assoc,
          append_assoc,
          append_assoc,
          read_after_version usbip_version op_req_import _ s (inr refl) (omega arith),
        )
        (read_import_lem status busid rest s h hl)
  read_from_socket-command_bytes (submit c) rest s w = simp append_assoc (
      rw (header_bytes-split c.header usbip_cmd_submit _ w.is_submit (omega arith)) (
        rw (read_after_version 0 usbip_cmd_submit _ s (inl refl) (omega arith))
          (read_submit_lem c rest s w)))
  read_from_socket-command_bytes (unlink h unlink_seqnum) rest s (w, e, hu) = simp append_assoc (
      rw (header_bytes-split h usbip_cmd_unlink _ e (omega arith)) (
        rw (read_after_version 0 usbip_cmd_unlink _ s (inl refl) (omega arith))
          (read_unlink_lem h unlink_seqnum rest s w e hu)))
