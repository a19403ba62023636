-- ===== src/Usbip/Server/Reimport.antt =====
-- OP_REQ_IMPORT (usbip/src/lib.rs) on a connection that holds a device already.
use mathlib.Core.Option.{some-injective}
use remote_yubikey_manager.Common.{◌≡◌, ◌≢◌, refl, sym, ap, ◌∙◌, Option, none, some}
use remote_yubikey_manager.Common.Bytes.{Bytes}
use remote_yubikey_manager.Common.Dict.{get}
use remote_yubikey_manager.Common.Dict.Keys.{get-Absent, get-append}
use remote_yubikey_manager.Common.Eq.{nat_eq, list_eq}
use remote_yubikey_manager.Common.Text.{Text}
use remote_yubikey_manager.Usbip.Io.{Socket}
use remote_yubikey_manager.Usbip.Device.{UsbDevice}
use remote_yubikey_manager.Usbip.Device.Handler.{Handlers}
use remote_yubikey_manager.Usbip.Protocol.Response.{import_success, import_fail}
use remote_yubikey_manager.Usbip.Server.Tables.{UsbIpServer, import_device}
use remote_yubikey_manager.Usbip.Server.Connection.{Connection, serve_import, answer_import}
use remote_yubikey_manager.Usbip.Server.Consistency.{IsConsistent}
use remote_yubikey_manager.Usbip.Server.Conservation.{import_device-Imports}
use remote_yubikey_manager.Usbip.Server.Effects.{reply-tables, import_none-same}

-- The connection does not hold the device, and the device is in use all the same.
abbrev pub LetsGo : {S W : Type 0} → Text → UsbDevice → Connection S W → Type 0
LetsGo id d c = (c.current_import_device_id ≢ some id) × (get id c.server.used_devices ≡ some d)

module _ {S W : Type 0} (k : Socket S) (hs : Handlers W) where
  answered :
      (busid : Bytes) (c : Connection S W) (id : Text) (d : UsbDevice)
      (r : Option UsbDevice × UsbIpServer)
      → IsConsistent c.server
      → get id c.server.used_devices ≡ some d
      → import_device busid c.server ≡ r
      → LetsGo id d (answer_import k hs r c).1
  unfolding answer_import
  answered busid c id d (none, t) wf g e =
      let h =
        reply-tables k hs import_fail (record c { server = t; current_import_device_id = none }) in
      (
        λ held. cc (sym h.1 ∙ held),
        ap (λ s. get id s.used_devices) (h.0 ∙ import_none-same busid c.server t e) ∙ g,
      )
  answered busid c id d (some x, t) wf g e =
      let h =
        reply-tables k hs (import_success x)
          (record c { server = t; current_import_device_id = some x.bus_id }) in
      let m = import_device-Imports busid c.server x t wf e in
      (
        λ held.
            let same : x.bus_id ≡ id = some-injective _ _ (sym h.1 ∙ held) in
            cc (get-Absent x.bus_id c.server.used_devices m.unused, same, g),
        ap (λ s. get id s.used_devices) h.0
            ∙ ap (get id) m.added
            ∙ get-append id d c.server.used_devices _ g,
      )

  -- When the tables are consistent, an import on a connection that holds a device in use lets go
  -- of it, whether it finds another or none, and leaves it among the used devices.
  pub serve_import-LetsGo :
      (busid : Bytes) (c : Connection S W) (id : Text) (d : UsbDevice)
      → IsConsistent c.server
      → c.current_import_device_id ≡ some id
      → get id c.server.used_devices ≡ some d
      → LetsGo id d (serve_import k hs busid c).1
  unfolding serve_import
  serve_import-LetsGo busid c id d wf held g =
      answered busid c id d (import_device busid c.server) wf g refl
