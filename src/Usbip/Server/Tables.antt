-- ===== src/Usbip/Server/Tables.antt =====
-- `UsbIpServer` of usbip/src/lib.rs: the devices that can be imported, and those that are.
use remote_yubikey_manager.Common.{
  Bool, List, [], ◌∷◌, ◌++◌, Option, none, some, ◌==◌, if◌then◌else◌,
}
use remote_yubikey_manager.Common.Bytes.{Bytes}
use remote_yubikey_manager.Common.Dict.{Dict, get, insert, remove}
use remote_yubikey_manager.Common.Eq.{nat_eq, list_eq, list_beq}
use remote_yubikey_manager.Common.Outcome.{ok, err}
use remote_yubikey_manager.Common.Text.{Text, as_bytes}
use remote_yubikey_manager.Usbip.Io.{IoResult, device_in_use, device_not_found}
use remote_yubikey_manager.Usbip.Device.{UsbDevice}

pub record UsbIpServer : Type 0 where
  pub available_devices : List UsbDevice
  pub used_devices : Dict Text UsbDevice

unfoldable pub new_simulated : List UsbDevice → UsbIpServer
new_simulated devices = record { available_devices = devices; used_devices = [] }

unfoldable pub add_device : UsbDevice → UsbIpServer → UsbIpServer
add_device d s = record s { available_devices = s.available_devices ++ (d ∷ []) }

abbrev pub keep_before :
    UsbDevice → Option (UsbDevice × List UsbDevice) → Option (UsbDevice × List UsbDevice)
keep_before d none = none
keep_before d (some (e, es)) = some (e, d ∷ es)

-- `position` and `Vec::remove` in one: the first device that passes the test, and the others.
unfoldable pub take_first :
    (UsbDevice → Bool) → List UsbDevice → Option (UsbDevice × List UsbDevice)
take_first p [] = none
take_first p (d ∷ ds) = if p d then some (d, ds) else keep_before d (take_first p ds)

-- `values().find(|d| d.bus_id == bus_id)`
unfoldable pub find_used : Text → Dict Text UsbDevice → Option UsbDevice
find_used bus_id [] = none
find_used bus_id ((k, d) ∷ m) = if list_beq d.bus_id bus_id then some d else find_used bus_id m

unfoldable pub remove_device : Text → UsbIpServer → IoResult (Unit {0}) × UsbIpServer
remove_device bus_id s = elim (take_first (λ d. list_beq d.bus_id bus_id) s.available_devices) [
  | some (d, rest) ↦ (ok tt, record s { available_devices = rest })
  | none ↦ elim (find_used bus_id s.used_devices) [
    | some d ↦ (err (device_in_use d.bus_id), s)
    | none ↦ (err (device_not_found bus_id), s)
  ]
]

-- `busid[..busid.iter().position(|&x| x == 0).unwrap_or(busid.len())]`
unfoldable pub until_zero : Bytes → Bytes
until_zero [] = []
until_zero (b ∷ bs) = let rest = b ∷ until_zero bs in if b == 0 then [] else rest

-- The loop over the available devices of OP_REQ_IMPORT: the first device with this bus id goes to
-- the used ones.
unfoldable pub import_device : Bytes → UsbIpServer → Option UsbDevice × UsbIpServer
import_device busid s =
    elim (take_first (λ d. list_beq (until_zero busid) (as_bytes d.bus_id)) s.available_devices) [
      | none ↦ (none, s)
      | some (d, rest) ↦ (
        some d,
        record { available_devices = rest; used_devices = insert d.bus_id d s.used_devices },
      )
    ]

-- When a connection ends: the device that it holds goes back. `none` is `unreachable!()`.
unfoldable pub release_device : Text → UsbIpServer → Option UsbIpServer
release_device dev_id s = elim (get dev_id s.used_devices) [
  | none ↦ none
  | some d ↦ some (record {
    available_devices = s.available_devices ++ (d ∷ []);
    used_devices = remove dev_id s.used_devices;
  })
]
