-- ===== src/Usbip/Tests/Interfaces.antt =====
-- The theorems on the simulated interfaces and the host's devices.
use remote_yubikey_manager.Common.{◌≡◌, refl, [], some, arith, length, length-replicate}
use remote_yubikey_manager.Common.Bytes.{Bytes}
use remote_yubikey_manager.Common.Outcome.{panic}
use remote_yubikey_manager.Usbip.Setup.{SetupPacket}
use remote_yubikey_manager.Usbip.Hid.{idle, from_ascii, keyboard_urb, keyboard_control}
use remote_yubikey_manager.Usbip.Hid.Polling.{polls, reports, polls_deliver}
use remote_yubikey_manager.Usbip.Host.{released, host_interface_urb}
use remote_yubikey_manager.Usbip.Host.Bounds.{
  IsBounded, Fills, FitsIn, PassesOn, host_interface_urb-FitsIn,
}
use remote_yubikey_manager.Usbip.World.{lock_and_handle, dispatch}
use remote_yubikey_manager.Usbip.Endpoint.{is_ep0}
use remote_yubikey_manager.Usbip.World.Poisoning.{Transfer, transfer}
use remote_yubikey_manager.Usbip.Tests.Data.{
  typed, key_a, half, full_host, keyboards, endpoint, control_endpoint,
}

polls_deliver_example :
    polls 4 typed
    ≡ (reports typed.pending_key_events, record typed { pending_key_events = []; state = idle })
polls_deliver_example = polls_deliver typed refl

pressed_a : from_ascii b'a' ≡ some key_a
unfolding from_ascii
pressed_a = refl

half-Fills : (buffer : Bytes) → Fills buffer (half buffer)
half-Fills buffer = (length-replicate (length buffer) 7, omega arith)

full_host-IsBounded : IsBounded full_host
full_host-IsBounded = record {
  read_control_fills = λ setup buffer w. half-Fills buffer;
  read_interrupt_fills = λ ep buffer w. half-Fills buffer;
  read_bulk_fills = λ ep buffer w. half-Fills buffer;
}

abbrev no_setup : SetupPacket
no_setup = record { request_type = 0; request = 0; value = 0; index = 0; length = 0 }

host_interface_urb-FitsIn_example :
    FitsIn 8 (host_interface_urb full_host (endpoint 0x81) 8 no_setup [] (released tt))
    × PassesOn full_host
        (endpoint 0x81)
        8
        no_setup
        []
        tt
        (host_interface_urb full_host (endpoint 0x81) 8 no_setup [] (released tt))
host_interface_urb-FitsIn_example =
    host_interface_urb-FitsIn full_host full_host-IsBounded (endpoint 0x81) 8 no_setup [] tt

-- A control request that the keyboard does not implement.
abbrev unknown_request : Transfer
unknown_request = record { endpoint = control_endpoint 0; len = 0; setup = no_setup; out_data = [] }

panicked : (transfer full_host 0 unknown_request keyboards).0 ≡ panic
unfolding lock_and_handle dispatch keyboard_urb is_ep0 keyboard_control
panicked = refl
