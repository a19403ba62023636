-- ===== src/Usbip/Tests/Packets.antt =====
-- The theorems on packets and descriptors at those of a small client.
use remote_yubikey_manager.Common.{inl, refl, ℕ, ◌≡◌, ◌≢◌, [], ◌∷◌, ◌++◌, arith}
use remote_yubikey_manager.Common.Bytes.{u16_to_be_bytes}
use remote_yubikey_manager.Common.Outcome.{ok, err}
use remote_yubikey_manager.Usbip.Io.{unknown_version, unknown_command}
use remote_yubikey_manager.Usbip.Consts.{
  usbip_version, op_req_devlist, op_req_import, usbip_cmd_submit, usbip_cmd_unlink, op_rep_devlist,
}
use remote_yubikey_manager.Usbip.Protocol.Command.{submit, command_bytes, read_from_socket}
use remote_yubikey_manager.Usbip.Protocol.RoundTrip.{read_from_socket-command_bytes}
use remote_yubikey_manager.Usbip.Protocol.Progress.{read_from_socket_refuses}
use remote_yubikey_manager.Usbip.MockSocket.{mock, mock-IsStream, take_u16, take_u32, read_exact}
use remote_yubikey_manager.Usbip.Tests.Data.{poll_urb}
use remote_yubikey_manager.Usbip.Tests.Serving.{poll_urb-IsSubmit}

-- Two bytes of the next command wait behind the submit.
read_from_socket-command_bytes_example :
    read_from_socket mock
      (record { input = command_bytes (submit poll_urb) ++ (1 ∷ 17 ∷ []); output = [] })
    ≡ ok (submit poll_urb, record { input = 1 ∷ 17 ∷ []; output = [] })
unfolding take_u16 take_u32 read_exact
read_from_socket-command_bytes_example =
    read_from_socket-command_bytes mock mock-IsStream (submit poll_urb) (1 ∷ 17 ∷ [])
      (record { input = []; output = [] }) poll_urb-IsSubmit

abbrev other_version : ℕ
other_version = 0x100

read_from_socket_refuses_example :
    (other_version ≢ 0
      → other_version ≢ usbip_version
      → read_from_socket mock (record { input = 1 ∷ 0 ∷ 9 ∷ []; output = [] })
        ≡ err (unknown_version other_version))
    × (op_rep_devlist ≢ op_req_devlist
        → op_rep_devlist ≢ op_req_import
        → op_rep_devlist ≢ usbip_cmd_submit
        → op_rep_devlist ≢ usbip_cmd_unlink
        → read_from_socket mock (record {
          input = u16_to_be_bytes 0 ++ (u16_to_be_bytes op_rep_devlist ++ (9 ∷ []));
          output = [];
        })
          ≡ err (unknown_command op_rep_devlist))
unfolding take_u16 take_u32 read_exact u16_to_be_bytes
read_from_socket_refuses_example =
    read_from_socket_refuses mock mock-IsStream other_version 0 op_rep_devlist (9 ∷ [])
      (record { input = []; output = [] }) (omega arith) (inl refl) (omega arith)
