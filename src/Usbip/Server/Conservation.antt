-- ===== src/Usbip/Server/Conservation.antt =====
-- The devices in the two tables of the server (usbip/src/lib.rs) together.
use mathlib.Core.Path.{subst, subst₂}
use mathlib.Core.Option.{some-injective}
use mathlib.Core.List.{Perm, perm_append_singleton}
use mathlib.Core.List.Perm
use remote_yubikey_manager.Common.{
  ◌≡◌, refl, sym, ap, List, [], ◌∷◌, ◌++◌, Option, none, some, Option-cases, inl, inr, append_assoc,
}
use remote_yubikey_manager.Common.Bytes.{Bytes}
use remote_yubikey_manager.Common.Dict.{get, insert, remove}
use remote_yubikey_manager.Common.Dict.Keys.{
  Absent, values, insert-Absent, values-remove-perm, get-add, remove-add,
}
use remote_yubikey_manager.Common.Eq.{nat_eq, list_eq, list_beq, list_beq_iff}
use remote_yubikey_manager.Common.Text.{Text, as_bytes}
use remote_yubikey_manager.Usbip.Device.{UsbDevice}
use remote_yubikey_manager.Usbip.Server.Tables.{
  UsbIpServer, take_first, until_zero, import_device, release_device,
}
use remote_yubikey_manager.Usbip.Server.TakeFirst.{take_first-Splits, Splits-perm}
use remote_yubikey_manager.Usbip.Server.Consistency.{IsConsistent, without}

-- Every device of a server, those in use last.
abbrev pub devices : UsbIpServer → List UsbDevice
devices s = s.available_devices ++ values s.used_devices

-- A device that `import_device` found, and what that says of the tables.
pub record Imports (busid : Bytes) (s : UsbIpServer) (d : UsbDevice) (t : UsbIpServer)
    : Type 0 where
  pub asked : until_zero busid ≡ as_bytes d.bus_id
  pub taken : Perm s.available_devices (d ∷ t.available_devices)
  pub unused : Absent d.bus_id s.used_devices
  pub added : t.used_devices ≡ s.used_devices ++ ((d.bus_id, d) ∷ [])

split-Imports :
    (busid : Bytes) (s : UsbIpServer) (d : UsbDevice) (rest : List UsbDevice)
    → IsConsistent s
    → take_first (λ d. list_beq (until_zero busid) (as_bytes d.bus_id)) s.available_devices
      ≡ some (d, rest)
    → Imports busid s d
        (record { available_devices = rest; used_devices = insert d.bus_id d s.used_devices })
split-Imports busid s d rest c e =
    let sp = take_first-Splits _ _ d rest e in
    let (kept, ne, absent) = without s _ d rest c sp in
    record {
      asked = (list_beq_iff (until_zero busid) (as_bytes d.bus_id)).0 sp.passes;
      taken = Splits-perm sp;
      unused = absent;
      added = insert-Absent d.bus_id d s.used_devices absent;
    }

-- When the tables are consistent, an import that finds a device takes one with the bus id that was
-- asked for, which no connection used, out of the available devices and puts it with the used
-- ones.
pub import_device-Imports :
    (busid : Bytes) (s : UsbIpServer) (d : UsbDevice) (t : UsbIpServer)
    → IsConsistent s
    → import_device busid s ≡ (some d, t)
    → Imports busid s d t
unfolding import_device
import_device-Imports busid s d t c h =
    elim (Option-cases
      (take_first (λ d. list_beq (until_zero busid) (as_bytes d.bus_id)) s.available_devices)) [
        | inl n ↦ cc (rw (n, import_device) at h)
        | inr ((e, rest), g) ↦
            let k = rw (g, import_device) at h in
            subst₂ (Imports busid s) (some-injective _ _ (ap (λ x. x.0) k)) (ap (λ x. x.1) k)
              (split-Imports busid s e rest c g)
      ]

values-append :
    (m : List (Text × UsbDevice)) (id : Text) (d : UsbDevice)
    → values (m ++ ((id, d) ∷ [])) ≡ values m ++ (d ∷ [])
values-append [] id d = refl
values-append (x ∷ m) id d = ap (◌∷◌ x.1) (values-append m id d)

-- What an import takes out of the available devices and adds to the used ones is conserved.
Imports-conserves :
    (busid : Bytes) (s : UsbIpServer) (d : UsbDevice) (t : UsbIpServer)
    → Imports busid s d t
    → Perm (devices t) (devices s)
Imports-conserves busid s d t i =
    let swapped : Perm (t.available_devices ++ (values s.used_devices ++ (d ∷ [])))
        (d ∷ (t.available_devices ++ values s.used_devices)) =
      rw (sym (append_assoc t.available_devices (values s.used_devices) (d ∷ [])))
        (perm_append_singleton d _) in
    rw (i.added, values-append s.used_devices d.bus_id d)
      (Perm.trans swapped (Perm.append_right (values s.used_devices) (Perm.symm i.taken)))

-- When the tables are consistent, a release that finds the device neither loses nor makes up one.
pub release_device-conserves :
    (id : Text) (s t : UsbIpServer)
    → IsConsistent s
    → release_device id s ≡ some t
    → Perm (devices t) (devices s)
unfolding release_device
release_device-conserves id s t c h = elim (Option-cases (get id s.used_devices)) [
  | inl n ↦ cc (rw (n, release_device) at h)
  | inr (d, g) ↦
      subst (λ t. Perm (devices t) (devices s)) (some-injective _ _ (rw (g, release_device) at h))
        (rw (append_assoc s.available_devices (d ∷ []) (values (remove id s.used_devices))) (
          Perm.append_left s.available_devices
            (Perm.symm (values-remove-perm id d s.used_devices c.used_distinct g))))
]

import_conserves_cases :
    (busid : Bytes) (s : UsbIpServer) (o : Option UsbDevice)
    → IsConsistent s
    → (import_device busid s).0 ≡ o
    → Perm (devices (import_device busid s).1) (devices s)
unfolding import_device
import_conserves_cases busid s (some d) c e =
    Imports-conserves busid s d _
      (import_device-Imports busid s d _ c (ap (λ x. (x, (import_device busid s).1)) e))
import_conserves_cases busid s none c e =
    elim (Option-cases
      (take_first (λ d. list_beq (until_zero busid) (as_bytes d.bus_id)) s.available_devices)) [
        | inl n ↦ rw (n, import_device) (Perm.refl _)
        | inr ((e', rest), g) ↦ cc (rw (g, import_device) at e)
      ]

-- When the tables are consistent, an import neither loses nor makes up a device.
pub import_device-conserves :
    (busid : Bytes) (s : UsbIpServer)
    → IsConsistent s
    → Perm (devices (import_device busid s).1) (devices s)
import_device-conserves busid s c = import_conserves_cases busid s _ c refl

-- When the tables are consistent and an import finds a device, releasing it undoes the import: the
-- used devices are those of before, and the available ones are a permutation of those of before,
-- with the device at the end.
pub release_device-import_device :
    (busid : Bytes) (s : UsbIpServer) (d : UsbDevice) (t : UsbIpServer)
    → IsConsistent s
    → import_device busid s ≡ (some d, t)
    → (release_device d.bus_id t
        ≡ some (record {
          available_devices = t.available_devices ++ (d ∷ []);
          used_devices = s.used_devices;
        }))
      × Perm (t.available_devices ++ (d ∷ [])) s.available_devices
unfolding release_device
release_device-import_device busid s d t c h =
    let i = import_device-Imports busid s d t c h in
    (
      rw
          (
            i.added,
            release_device,
            get-add d.bus_id d s.used_devices i.unused,
            i.added,
            remove-add d.bus_id d s.used_devices i.unused,
          )
          refl,
      Perm.trans (perm_append_singleton d t.available_devices) (Perm.symm i.taken),
    )
