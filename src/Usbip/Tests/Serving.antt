-- ===== src/Usbip/Tests/Serving.antt =====
-- The theorems on the server at a client that lists, imports, polls a keyboard and unlinks.
use mathlib.Core.Path.{subst}
use mathlib.Core.List.{Perm}
use remote_yubikey_manager.Common.{ap, ℕ, ◌≡◌, ◌≢◌, refl, [], ◌∷◌, Option, none, some, arith, All}
use remote_yubikey_manager.Common.Dict.{get, insert, remove}
use remote_yubikey_manager.Common.Eq.{nat_eq, list_eq, list_beq}
use remote_yubikey_manager.Common.Text.{Text, as_bytes}
use remote_yubikey_manager.Common.Outcome.{ok}
use remote_yubikey_manager.Common.Bytes.{
  IsU32, u16_to_be_bytes, u32_to_be_bytes, u16_from_be_bytes, u32_from_be_bytes,
}
use remote_yubikey_manager.Usbip.Io.{io, unexpected_eof}
use remote_yubikey_manager.Usbip.Protocol.Command.{
  import, IsCommand, IsSubmit, read_from_socket, read_body, read_import, command_bytes,
  has_iso_packets,
}
use remote_yubikey_manager.Usbip.Protocol.Header.{IsHeader}
use remote_yubikey_manager.Usbip.Protocol.Response.{submit_success}
use remote_yubikey_manager.Usbip.Consts.{usbip_ret_submit}
use remote_yubikey_manager.Usbip.Server.Tables.{
  UsbIpServer, new_simulated, import_device, release_device, take_first, until_zero,
}
use remote_yubikey_manager.Usbip.Server.Connection.{
  Connection, Exit, panicked, stuck, handler, close, iteration, serve, submit_reply, answer_urb,
  real_ep, serve_import, answer_import, reply,
}
use remote_yubikey_manager.Usbip.Server.Consistency.{
  IsConsistent, DistinctIds, new_simulated-IsConsistent, import_device-IsConsistent,
}
use remote_yubikey_manager.Usbip.Server.Conservation.{release_device-import_device}
use remote_yubikey_manager.Usbip.Server.Reimport.{LetsGo, serve_import-LetsGo}
use remote_yubikey_manager.Usbip.Server.Ending.{handler-ends}
use remote_yubikey_manager.Usbip.Server.Serving.{commands_bytes, session, handler-session}
use remote_yubikey_manager.Usbip.Server.Answers.{Answers, handled, submit_reply-Answers}
use remote_yubikey_manager.Usbip.Server.Holders.{IsExclusive, update}
use remote_yubikey_manager.Usbip.Server.Interleaving.{
  Task, System, held, connection, Reachable, start, next, accept, iterate, Reachable-IsExclusive,
  close-returns, put, next_task,
}
use remote_yubikey_manager.Usbip.MockSocket.{
  MockSocket, mock, mock-IsStream, mock-IsDuplex, take_u16, take_u32, read_exact,
}
use remote_yubikey_manager.Usbip.Consts.{attributes_from_u8}
use remote_yubikey_manager.Usbip.Endpoint.{is_ep0, direction}
use remote_yubikey_manager.Usbip.Device.{find_ep, find_endpoint, find_in_interfaces}
use remote_yubikey_manager.Usbip.Device.Urb.{handle_urb, to_endpoint}
use remote_yubikey_manager.Usbip.Hid.{keyboard_urb, poll, poll_idle}
use remote_yubikey_manager.Usbip.World.{World, lock_and_handle, dispatch, class_descriptor}
use remote_yubikey_manager.Usbip.Host.{host_device_urb}
use remote_yubikey_manager.Usbip.Tests.Data.{
  device, id1, id2, two_devices, two_server, handlers, keyboards, poll_urb, key_a, busid1, commands,
  opened, header,
}

pub header-IsHeader :
    (command seqnum : ℕ) → IsU32 command → IsU32 seqnum → IsHeader (header command seqnum)
header-IsHeader command seqnum c n = record {
  command_fits = c;
  seqnum_fits = n;
  devid_fits = omega arith;
  direction_fits = omega arith;
  ep_fits = omega arith;
}

pub poll_urb-IsSubmit : IsSubmit poll_urb
unfolding has_iso_packets
poll_urb-IsSubmit = record {
  header_fits = header-IsHeader _ _ (omega arith) (omega arith);
  is_submit = refl;
  flags_fit = omega arith;
  length_fits = omega arith;
  frame_fits = omega arith;
  packets_fit = omega arith;
  interval_fits = omega arith;
  setup_length = refl;
  payload_length = refl;
  iso_length = refl;
}

commands-IsCommand : All IsCommand commands
commands-IsCommand = (
  omega arith,
  (
    (omega arith, refl),
    (poll_urb-IsSubmit, ((header-IsHeader _ _ (omega arith) (omega arith), refl, omega arith), tt)),
  ),
)

handler-session_example :
    handler mock handlers 5 (opened (commands_bytes commands))
    ≡ session mock mock-IsStream mock-IsDuplex handlers commands (opened (commands_bytes commands))
unfolding take_u16 take_u32 read_exact
handler-session_example =
    handler-session mock mock-IsStream mock-IsDuplex handlers 5 commands
      (opened (commands_bytes commands)) commands-IsCommand refl (omega arith)

-- A client that sends what is no command.
handler-ends_example : (handler mock handlers 4 (opened (1 ∷ 2 ∷ 3 ∷ []))).0 ≢ stuck
unfolding take_u16 take_u32 read_exact
handler-ends_example =
    handler-ends mock mock-IsStream mock-IsDuplex handlers 4 (opened (1 ∷ 2 ∷ 3 ∷ [])) (omega arith)

abbrev first : Text → ℕ
first [] = 0
first (c ∷ cs) = c

ids_differ : id2 ≢ id1
ids_differ e = let heads : Path ℕ 50 49 = ap first e in absurd (omega arith)

two-DistinctIds : DistinctIds two_devices
two-DistinctIds = ((ids_differ, tt), (tt, tt))

two-IsConsistent : IsConsistent two_server
unfolding new_simulated
two-IsConsistent = new_simulated-IsConsistent two_devices two-DistinctIds

-- The server after the device "1" is imported.
abbrev one_used : UsbIpServer
one_used = record { available_devices = device id2 ∷ []; used_devices = (id1, device id1) ∷ [] }

import1 : import_device busid1 two_server ≡ (some (device id1), one_used)
unfolding import_device take_first until_zero list_beq insert as_bytes
import1 = refl

release_device-import_device_example :
    (release_device id1 one_used
      ≡ some (record { available_devices = device id2 ∷ device id1 ∷ []; used_devices = [] }))
    × Perm (device id2 ∷ device id1 ∷ []) two_devices
release_device-import_device_example =
    release_device-import_device busid1 two_server (device id1) one_used two-IsConsistent import1

one-IsConsistent : IsConsistent one_used
one-IsConsistent =
    subst IsConsistent (ap (λ r. r.1) import1)
      (import_device-IsConsistent busid1 two_server two-IsConsistent)

abbrev back : UsbIpServer
back = record { available_devices = device id2 ∷ device id1 ∷ []; used_devices = [] }

release1 : release_device id1 one_used ≡ some back
unfolding release_device list_beq get remove
release1 = refl

submit_reply-Answers_example :
    Answers poll_urb.header keyboards
      (handled mock handlers (device id1) poll_urb keyboards)
      (submit_reply mock handlers (device id1) poll_urb keyboards)
submit_reply-Answers_example = submit_reply-Answers mock handlers (device id1) poll_urb keyboards

-- The first connection imports the device "1": its `handler` has read the command.
abbrev accepted : System MockSocket (World (Unit {0}))
accepted = record {
  server = new_simulated two_devices;
  world = keyboards;
  tasks =
      update 0
        (some (record {
          socket = record { input = command_bytes (import 0 busid1); output = [] };
          current_import_device_id = none;
        }))
        (λ i. none);
}

accepted-Reachable : Reachable mock handlers two_devices accepted
accepted-Reachable = next _ _ (start keyboards) (accept 0 _ refl)

abbrev first_task : Task MockSocket
first_task = record {
  socket = record { input = command_bytes (import 0 busid1); output = [] };
  current_import_device_id = none;
}

abbrev imported1 : System MockSocket (World (Unit {0}))
imported1 = put 0 (iteration mock handlers (connection accepted first_task)) accepted

imported1-Reachable : Reachable mock handlers two_devices imported1
imported1-Reachable = next _ _ accepted-Reachable (iterate 0 first_task refl)

Reachable-IsExclusive_example : IsExclusive imported1.server (held imported1)
Reachable-IsExclusive_example =
    Reachable-IsExclusive mock handlers two_devices imported1 two-DistinctIds imported1-Reachable

abbrev imported_next : Option Exit × Connection MockSocket (World (Unit {0}))
imported_next = iteration mock handlers (connection accepted first_task)

goes_on : imported_next.0 ≡ none
unfolding iteration serve serve_import answer_import reply import_device take_first until_zero
    list_beq insert as_bytes take_u16 take_u32 read_exact read_from_socket read_body read_import
    command_bytes new_simulated u16_to_be_bytes u32_to_be_bytes u16_from_be_bytes u32_from_be_bytes
goes_on = refl

abbrev held_task : Task MockSocket
held_task = record {
  socket = imported_next.1.socket;
  current_import_device_id = imported_next.1.current_import_device_id;
}

close-returns_example :
    (close mock handlers (io unexpected_eof) (connection imported1 held_task)).0 ≢ panicked
close-returns_example =
    close-returns mock handlers two_devices imported1 0 held_task (io unexpected_eof)
      two-DistinctIds imported1-Reachable (ap (λ e. next_task e imported_next.1) goes_on)

-- The first poll of the keyboard presses its first key.
polled :
    (submit_reply mock handlers (device id1) poll_urb keyboards).0
    ≡ ok (
        submit_success
          (record poll_urb.header { command = usbip_ret_submit })
          0
          0
          (0 ∷ 0 ∷ key_a.keys)
          [])
unfolding submit_reply answer_urb find_ep find_endpoint find_in_interfaces real_ep handle_urb
    to_endpoint attributes_from_u8 lock_and_handle class_descriptor host_device_urb dispatch
    keyboard_urb is_ep0 direction poll poll_idle
polled = refl

one_in_use : get id1 one_used.used_devices ≡ some (device id1)
unfolding get list_beq
one_in_use = refl

-- A connection that holds the device "1" and asks for it again.
serve_import-LetsGo_example :
    LetsGo id1
      (device id1)
      (serve_import mock handlers busid1
        (record (opened []) { server = one_used; current_import_device_id = some id1 })).1
serve_import-LetsGo_example =
    serve_import-LetsGo mock handlers busid1
      (record (opened []) { server = one_used; current_import_device_id = some id1 }) id1
      (device id1) one-IsConsistent refl one_in_use
