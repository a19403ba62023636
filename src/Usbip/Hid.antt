-- ===== src/Usbip/Hid.antt =====
-- usbip/src/hid.rs: a simulated keyboard.
pub mod Polling
use remote_yubikey_manager.Common.{
  ℕ, ◌+◌, ◌-◌, ◌/◌, ◌≡◌, Bool, ◌&&◌, ◌||◌, List, [], ◌∷◌, ◌++◌, Option, none, some, length,
  replicate, leb, ◌==◌, if◌then◌else◌,
}
use remote_yubikey_manager.Common.Bytes.{Bytes, as_u8}
use remote_yubikey_manager.Common.Outcome.{ok, panic}
use remote_yubikey_manager.Usbip.Io.{IoResult}
use remote_yubikey_manager.Usbip.Consts.{Direction, dir_in, dir_out}
use remote_yubikey_manager.Usbip.Endpoint.{UsbEndpoint, direction, is_ep0}
use remote_yubikey_manager.Usbip.Setup.{SetupPacket}

pub data KeyboardState : Type 0 where
  idle key_down : KeyboardState

pub record UsbHidKeyboardReport : Type 0 where
  pub modifier : ℕ
  pub keys : Bytes

pub record UsbHidKeyboardHandler : Type 0 where
  pub report_descriptor : Bytes
  pub pending_key_events : List UsbHidKeyboardReport
  pub state : KeyboardState

abbrev key_report : ℕ → UsbHidKeyboardReport
key_report key = record { modifier = 0; keys = key ∷ 0 ∷ 0 ∷ 0 ∷ 0 ∷ 0 ∷ [] }

-- `none` is `unimplemented!` for a character with no key.
unfoldable pub from_ascii : ℕ → Option UsbHidKeyboardReport
from_ascii ascii =
    if leb b'a' ascii && leb ascii b'z'
    then some (key_report (ascii - b'a' + 4))
    else if leb b'1' ascii && leb ascii b'9'
    then some (key_report (ascii - b'1' + 30))
    else if ascii == b'0'
    then some (key_report 39)
    else if ascii == 13 || ascii == 10
    then some (key_report 40)
    else none

unfoldable pub keyboard_descriptor : Bytes
keyboard_descriptor =
    0x05 ∷ 0x01 ∷ 0x09 ∷ 0x06 ∷ 0xA1 ∷ 0x01 ∷ 0x05 ∷ 0x07 ∷ 0x19 ∷ 0xE0 ∷ 0x29 ∷ 0xE7 ∷ 0x15 ∷ 0x00
    ∷ 0x25 ∷ 0x01 ∷ 0x75 ∷ 0x01 ∷ 0x95 ∷ 0x08 ∷ 0x81 ∷ 0x02 ∷ 0x95 ∷ 0x01 ∷ 0x75 ∷ 0x08 ∷ 0x81
    ∷ 0x01 ∷ 0x95 ∷ 0x06 ∷ 0x75 ∷ 0x08 ∷ 0x15 ∷ 0x00 ∷ 0x25 ∷ 0x65 ∷ 0x05 ∷ 0x07 ∷ 0x19 ∷ 0x00
    ∷ 0x29 ∷ 0x65 ∷ 0x81 ∷ 0x00 ∷ 0xC0 ∷ []

unfoldable pub new_keyboard : UsbHidKeyboardHandler
new_keyboard = record {
  report_descriptor = keyboard_descriptor;
  pending_key_events = [];
  state = idle;
}

-- Control transfers: the report descriptor, and SET_IDLE. Others are `unimplemented!`.
unfoldable pub keyboard_control : SetupPacket → UsbHidKeyboardHandler → IoResult Bytes
keyboard_control setup h =
    if setup.request_type == 0x81 && setup.request == 0x06
    then (if setup.value / 256 == 0x22 then ok h.report_descriptor else panic)
    else if setup.request_type == 0x21 && setup.request == 0x0A
    then ok []
    else panic

-- An IN transfer on the interrupt endpoint: a pending key goes down, and up at the next poll.
unfoldable pub poll_idle :
    List UsbHidKeyboardReport → UsbHidKeyboardHandler → Bytes × UsbHidKeyboardHandler
poll_idle [] h = ([], h)
poll_idle (r ∷ rest) h =
    (r.modifier ∷ 0 ∷ r.keys, record h { pending_key_events = rest; state = key_down })

unfoldable pub poll : UsbHidKeyboardHandler → Bytes × UsbHidKeyboardHandler
unfolding poll_idle
poll h = elim h.state [
  | idle ↦ poll_idle h.pending_key_events h
  | key_down ↦ (replicate 6 0, record h { state = idle })
]

unfoldable pub keyboard_urb :
    UsbEndpoint → SetupPacket → UsbHidKeyboardHandler → IoResult Bytes × UsbHidKeyboardHandler
keyboard_urb ep setup h = if is_ep0 ep then (keyboard_control setup h, h) else elim (direction ep) [
  | dir_in ↦ let (resp, h') = poll h in (ok resp, h')
  | dir_out ↦ (ok [], h)
]

unfoldable pub keyboard_class_descriptor : UsbHidKeyboardHandler → Bytes
keyboard_class_descriptor h =
    0x09
    ∷ 0x21
    ∷ 0x11
    ∷ 0x01
    ∷ 0x00
    ∷ 0x01
    ∷ 0x22
    ∷ as_u8 (length h.report_descriptor)
    ∷ as_u8 (length h.report_descriptor / 256)
    ∷ []
