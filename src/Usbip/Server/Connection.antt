-- ===== src/Usbip/Server/Connection.antt =====
-- `handler` of usbip/src/lib.rs. It is generic in the connection `S` and in the world `W` of the
-- handlers of the simulated devices.
use Prim.Native.Nat.{bit_or}
use remote_yubikey_manager.Common.{
  ℕ, zero, suc, Bool, true, false, [], Option, none, some, ◌==◌, if◌then◌else◌,
}
use remote_yubikey_manager.Common.Bytes.{Bytes, as_u8}
use remote_yubikey_manager.Common.Dict.{get}
use remote_yubikey_manager.Common.Eq.{nat_eq, list_eq}
use remote_yubikey_manager.Common.Outcome.{ok, err, panic}
use remote_yubikey_manager.Common.Text.{Text}
use remote_yubikey_manager.Usbip.Io.{IoResult, IoError, ErrorKind, kind, Socket}
use remote_yubikey_manager.Usbip.Consts.{usbip_ret_submit, usbip_ret_unlink}
use remote_yubikey_manager.Usbip.Setup.{parse}
use remote_yubikey_manager.Usbip.Device.{UsbDevice, find_ep}
use remote_yubikey_manager.Usbip.Device.Handler.{Handlers}
use remote_yubikey_manager.Usbip.Device.Urb.{handle_urb}
use remote_yubikey_manager.Usbip.Protocol.Header.{UsbIpHeaderBasic}
use remote_yubikey_manager.Usbip.Protocol.Command.{
  CmdSubmit, UsbIpCommand, devlist, import, submit, unlink, read_from_socket,
}
use remote_yubikey_manager.Usbip.Protocol.Response.{
  UsbIpResponse, response_bytes, devlist_reply, import_success, import_fail, submit_success,
  submit_fail, unlink_success,
}
use remote_yubikey_manager.Usbip.Server.Tables.{UsbIpServer, import_device, release_device}

-- What a connection's task sees and changes: its stream, the shared tables, the handlers, and its
-- variable `current_import_device_id`.
pub record Connection (S W : Type 0) : Type 0 where
  pub socket : S
  pub server : UsbIpServer
  pub world : W
  pub current_import_device_id : Option Text

-- How `handler` ends. `stuck` is none of its ends: the fuel ran out.
pub data Exit : Type 0 where
  finished : Exit
  failed : IoError → Exit
  panicked : Exit
  stuck : Exit

abbrev pub is_eof : ErrorKind → Bool
is_eof ErrorKind.unexpected_eof = true
is_eof _ = false

-- `header.ep`, with the bit of an IN endpoint set unless the transfer goes out
unfoldable pub real_ep : UsbIpHeaderBasic → ℕ
real_ep header = if header.direction == 0 then header.ep else bit_or header.ep 0x80

module _ {S W : Type 0} (k : Socket S) (hs : Handlers W) where
  -- `write_to_socket`
  unfoldable pub reply : UsbIpResponse → Connection S W → IoResult (Unit {0}) × Connection S W
  reply r c = elim (k.write_all (response_bytes r) c.socket) [
    | ok s ↦ (ok tt, record c { socket = s })
    | err e ↦ (err e, c)
    | panic ↦ (panic, c)
  ]

  unfoldable pub serve_devlist : Connection S W → IoResult (Unit {0}) × Connection S W
  serve_devlist c = reply (devlist_reply c.server.available_devices) c

  -- `current_import_device_id` is cleared first, whatever it held.
  unfoldable pub answer_import :
      Option UsbDevice × UsbIpServer → Connection S W → IoResult (Unit {0}) × Connection S W
  answer_import (none, s) c =
      reply import_fail (record c { server = s; current_import_device_id = none })
  answer_import (some d, s) c =
      reply (import_success d) (record c { server = s; current_import_device_id = some d.bus_id })

  unfoldable pub serve_import : Bytes → Connection S W → IoResult (Unit {0}) × Connection S W
  serve_import busid c = answer_import (import_device busid c.server) c

  -- The match on the result of the device's `handle_urb`
  unfoldable pub answer_urb : UsbIpHeaderBasic → IoResult Bytes × W → IoResult UsbIpResponse × W
  answer_urb header (ok bytes, w) = (ok (submit_success header 0 0 bytes []), w)
  answer_urb header (err e, w) = (ok (submit_fail header), w)
  answer_urb header (panic, w) = (panic, w)

  -- The answer to a submitted URB on the device that the connection holds.
  unfoldable pub submit_reply : UsbDevice → CmdSubmit → W → IoResult UsbIpResponse × W
  submit_reply d c w =
      let header = record c.header { command = usbip_ret_submit } in
      elim (find_ep d (as_u8 (real_ep c.header))) [
        | none ↦ (ok (submit_fail header), w)
        | some (ep, intf) ↦
            answer_urb header
              (handle_urb hs d ep intf c.transfer_buffer_length (parse c.setup) c.payload w)
      ]

  -- `current_import_device_id.and_then(|id| used_devices.get(id))`
  unfoldable pub current_device : Connection S W → Option UsbDevice
  current_device c = elim c.current_import_device_id [
    | none ↦ none
    | some id ↦ get id c.server.used_devices
  ]

  -- The answer is written when there is one.
  unfoldable pub write_answer :
      IoResult UsbIpResponse × W → Connection S W → IoResult (Unit {0}) × Connection S W
  write_answer (ok r, w) c = reply r (record c { world = w })
  write_answer (err e, w) c = (err e, record c { world = w })
  write_answer (panic, w) c = (panic, record c { world = w })

  unfoldable pub serve_submit : CmdSubmit → Connection S W → IoResult (Unit {0}) × Connection S W
  serve_submit cmd c = elim (current_device c) [
    | none ↦ (panic, c)
    | some d ↦ write_answer (submit_reply d cmd c.world) c
  ]

  unfoldable pub serve_unlink :
      UsbIpHeaderBasic → Connection S W → IoResult (Unit {0}) × Connection S W
  serve_unlink header c = reply (unlink_success (record header { command = usbip_ret_unlink })) c

  unfoldable pub serve : UsbIpCommand → Connection S W → IoResult (Unit {0}) × Connection S W
  serve (devlist status) c = serve_devlist c
  serve (import status busid) c = serve_import busid c
  serve (submit cmd) c = serve_submit cmd c
  serve (unlink header unlink_seqnum) c = serve_unlink header c

  -- The end of the loop by an error of the read: the device goes back first.
  unfoldable pub close : IoError → Connection S W → Exit × Connection S W
  close e c =
      let end : Exit = if is_eof (kind e) then finished else failed e in
      elim c.current_import_device_id [
        | none ↦ (end, c)
        | some id ↦ elim (release_device id c.server) [
          | none ↦ (panicked, c)
          | some s ↦ (end, record c { server = s })
        ]
      ]

  -- What follows the command of an iteration: the next one, or the end by a failed write.
  abbrev pub continue : IoResult (Unit {0}) × Connection S W → Option Exit × Connection S W
  continue (ok u, c) = (none, c)
  continue (err e, c) = (some (failed e), c)
  continue (panic, c) = (some panicked, c)

  abbrev pub on_command :
      Connection S W → IoResult (UsbIpCommand × S) → Option Exit × Connection S W
  on_command c (ok (cmd, s)) = continue (serve cmd (record c { socket = s }))
  on_command c (err e) = let (end, c') = close e c in (some end, c')
  on_command c panic = (some panicked, c)

  -- The body of the loop. `none`: the loop goes on.
  unfoldable pub iteration : Connection S W → Option Exit × Connection S W
  iteration c = on_command c (read_from_socket k c.socket)

  abbrev pub go_on :
      (Connection S W → Exit × Connection S W)
      → Option Exit × Connection S W
      → Exit × Connection S W
  go_on next (none, c) = next c
  go_on next (some end, c) = (end, c)

  unfoldable pub handler : ℕ → Connection S W → Exit × Connection S W
  handler zero c = (stuck, c)
  handler (suc fuel) c = go_on (handler fuel) (iteration c)
