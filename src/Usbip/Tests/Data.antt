-- ===== src/Usbip/Tests/Data.antt =====
-- A device with a keyboard and one with a serial port, a host of libusb, and the commands of a
-- client that lists, imports and polls.
use remote_yubikey_manager.Common.{length, ◌/◌, ℕ, List, [], ◌∷◌, none, some, replicate, false}
use remote_yubikey_manager.Common.Bytes.{Bytes}
use remote_yubikey_manager.Common.Text.{Text, codes}
use remote_yubikey_manager.Usbip.Consts.{usbip_cmd_submit, usbip_cmd_unlink}
use remote_yubikey_manager.Usbip.Endpoint.{UsbEndpoint}
use remote_yubikey_manager.Usbip.Device.{UsbDevice, UsbInterface, Version}
use remote_yubikey_manager.Usbip.Device.Handler.{Handlers}
use remote_yubikey_manager.Usbip.Hid.{UsbHidKeyboardReport, UsbHidKeyboardHandler, idle}
use remote_yubikey_manager.Usbip.Host.{DeviceHandle, Reading, released}
use remote_yubikey_manager.Usbip.World.{World, keyboard, world}
use remote_yubikey_manager.Usbip.Protocol.Header.{UsbIpHeaderBasic}
use remote_yubikey_manager.Usbip.Protocol.Command.{
  CmdSubmit, UsbIpCommand, devlist, import, submit, unlink,
}
use remote_yubikey_manager.Usbip.Server.Tables.{UsbIpServer}
use remote_yubikey_manager.Usbip.Server.Connection.{Connection}
use remote_yubikey_manager.Usbip.MockSocket.{MockSocket}

abbrev pub endpoint : ℕ → UsbEndpoint
endpoint address = record { address = address; attributes = 3; max_packet_size = 8; interval = 10 }

abbrev pub control_endpoint : ℕ → UsbEndpoint
control_endpoint address = record {
  address = address;
  attributes = 0;
  max_packet_size = 64;
  interval = 0;
}

abbrev pub keyboard_interface : UsbInterface
keyboard_interface = record {
  interface_class = 3;
  interface_subclass = 0;
  interface_protocol = 0;
  endpoints = endpoint 0x81 ∷ [];
  string_interface = 1;
  class_specific_descriptor = 3 ∷ 0x21 ∷ 0x11 ∷ [];
  handler = 0;
}

abbrev pub version : Version
version = record { major = 1; minor = 0; patch = 0 }

abbrev pub device : Text → UsbDevice
device id = record {
  path = codes "/sys/bus/1";
  bus_id = id;
  bus_num = 1;
  dev_num = 1;
  speed = 3;
  vendor_id = 0x1050;
  product_id = 0x0407;
  device_bcd = version;
  device_class = 0;
  device_subclass = 0;
  device_protocol = 0;
  configuration_value = 1;
  num_configurations = 1;
  interfaces = keyboard_interface ∷ [];
  device_handler = none;
  usb_version = version;
  ep0_in = control_endpoint 0x80;
  ep0_out = control_endpoint 0x00;
  string_pool = (1, codes "k") ∷ [];
  string_configuration = 1;
  string_manufacturer = 1;
  string_product = 1;
  string_serial = 1;
}

-- The bus ids "1" and "2".
abbrev pub id1 : Text
id1 = codes "1"

abbrev pub id2 : Text
id2 = codes "2"

abbrev pub two_devices : List UsbDevice
two_devices = device id1 ∷ device id2 ∷ []

-- A host whose reads fill the whole buffer and report half of it.
abbrev pub half : Bytes → Reading (Unit {0})
half buffer = (some (length buffer / 2), replicate (length buffer) 7, tt)

abbrev pub full_host : DeviceHandle (Unit {0})
full_host = record {
  read_control = λ setup buffer w. half buffer;
  write_control = λ setup bs w. w;
  read_interrupt = λ ep buffer w. half buffer;
  write_interrupt = λ ep bs w. w;
  read_bulk = λ ep buffer w. half buffer;
  write_bulk = λ ep bs w. w;
}

abbrev pub key_a : UsbHidKeyboardReport
key_a = record { modifier = 0; keys = 4 ∷ 0 ∷ 0 ∷ 0 ∷ 0 ∷ 0 ∷ [] }

abbrev pub key_b : UsbHidKeyboardReport
key_b = record { modifier = 0; keys = 5 ∷ 0 ∷ 0 ∷ 0 ∷ 0 ∷ 0 ∷ [] }

abbrev pub typed : UsbHidKeyboardHandler
typed = record {
  report_descriptor = 5 ∷ 1 ∷ [];
  pending_key_events = key_a ∷ key_b ∷ [];
  state = idle;
}

abbrev pub keyboards : World (Unit {0})
keyboards = record {
  slots = λ i. record { handler = keyboard typed; poisoned = false };
  usb = released tt;
}

abbrev pub handlers : Handlers (World (Unit {0}))
handlers = world full_host

abbrev pub header : ℕ → ℕ → UsbIpHeaderBasic
header command seqnum = record {
  command = command;
  seqnum = seqnum;
  devid = 1;
  direction = 1;
  ep = 1;
}

abbrev pub poll_urb : CmdSubmit
poll_urb = record {
  header = header usbip_cmd_submit 7;
  transfer_flags = 0;
  transfer_buffer_length = 8;
  start_frame = 0;
  number_of_packets = 0;
  interval = 10;
  setup = replicate 8 0;
  payload = [];
  iso_packet_descriptor = [];
}

abbrev pub busid1 : Bytes
busid1 = 49 ∷ replicate 31 0

abbrev pub commands : List UsbIpCommand
commands = devlist 0 ∷ import 0 busid1 ∷ submit poll_urb ∷ unlink (header usbip_cmd_unlink 8) 7 ∷ []

abbrev pub two_server : UsbIpServer
two_server = record { available_devices = two_devices; used_devices = [] }

abbrev pub opened : Bytes → Connection MockSocket (World (Unit {0}))
opened bytes = record {
  socket = record { input = bytes; output = [] };
  server = two_server;
  world = keyboards;
  current_import_device_id = none;
}
