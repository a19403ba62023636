-- ===== src/Usbip/Server/Consistency.antt =====
-- The bus ids in the tables of the server (usbip/src/lib.rs), and each operation on the tables.
use mathlib.Core.Path.{subst}
use mathlib.Core.Option.{some-injective}
use remote_yubikey_manager.Common.{
  ◌≡◌, refl, sym, ◌≢◌, Bool, List, [], ◌∷◌, ◌++◌, Option, none, some, All, All-append, All-map,
  All-both, All-out, Option-cases, inl, inr,
}
use remote_yubikey_manager.Common.Bytes.{Bytes}
use remote_yubikey_manager.Common.Dict.{get, insert, remove}
use remote_yubikey_manager.Common.Dict.Keys.{
  Absent, Distinct, insert-Absent, Distinct-add, All-remove, Absent-remove, Distinct-remove,
  All-get,
}
use remote_yubikey_manager.Common.Eq.{nat_eq, list_eq, list_beq}
use remote_yubikey_manager.Common.Text.{Text, as_bytes}
use remote_yubikey_manager.Usbip.Device.{UsbDevice}
use remote_yubikey_manager.Usbip.Server.Tables.{
  UsbIpServer, new_simulated, add_device, take_first, remove_device, until_zero, import_device,
  release_device, find_used,
}
use remote_yubikey_manager.Usbip.Server.TakeFirst.{Splits, take_first-Splits}

abbrev pub DistinctIds : List UsbDevice → Type 0
DistinctIds [] = Unit {0}
DistinctIds (d ∷ ds) = All (λ e. e.bus_id ≢ d.bus_id) ds × DistinctIds ds

pub record IsConsistent (s : UsbIpServer) : Type 0 where
  pub keyed : All (λ e. e.1.bus_id ≡ e.0) s.used_devices
  pub used_distinct : Distinct s.used_devices
  pub available_distinct : DistinctIds s.available_devices
  pub apart : All (λ d. Absent d.bus_id s.used_devices) s.available_devices

DistinctIds-out :
    (front behind : List UsbDevice) (d : UsbDevice)
    → DistinctIds (front ++ (d ∷ behind))
    → DistinctIds (front ++ behind) × All (λ e. e.bus_id ≢ d.bus_id) (front ++ behind)
DistinctIds-out [] behind d h = (h.1, h.0)
DistinctIds-out (x ∷ front) behind d h =
    let (ne, others) = All-out (λ e. e.bus_id ≢ x.bus_id) front behind d h.0 in
    let (distinct, apart) = DistinctIds-out front behind d h.1 in
    ((others, distinct), ((λ eq. ne (sym eq)), apart))

DistinctIds-add :
    (xs : List UsbDevice) (d : UsbDevice)
    → DistinctIds xs
    → All (λ e. e.bus_id ≢ d.bus_id) xs
    → DistinctIds (xs ++ (d ∷ []))
DistinctIds-add [] d h a = (tt, tt)
DistinctIds-add (x ∷ xs) d h a = (
  All-append (λ e. e.bus_id ≢ x.bus_id) xs (d ∷ []) h.0 ((λ eq. a.0 (sym eq)), tt),
  DistinctIds-add xs d h.1 a.1,
)

-- The tables without a device that was available.
pub without :
    (s : UsbIpServer) (p : UsbDevice → Bool) (d : UsbDevice) (rest : List UsbDevice)
    → IsConsistent s
    → Splits p s.available_devices d rest
    → IsConsistent (record s { available_devices = rest })
      × All (λ e. e.bus_id ≢ d.bus_id) rest
      × Absent d.bus_id s.used_devices
without s p d rest c sp =
    let (distinct, ne) =
      DistinctIds-out sp.before sp.behind d (rw sp.whole at c.available_distinct) in
    let (absent, apart) =
      All-out (λ e. Absent e.bus_id s.used_devices) sp.before sp.behind d
        (rw sp.whole at c.apart) in
    (
      record {
        keyed = c.keyed;
        used_distinct = c.used_distinct;
        available_distinct = rw sp.others distinct;
        apart = rw sp.others apart;
      },
      rw sp.others ne,
      absent,
    )

moved :
    (s : UsbIpServer) (p : UsbDevice → Bool) (d : UsbDevice) (rest : List UsbDevice)
    → IsConsistent s
    → Splits p s.available_devices d rest
    → IsConsistent
        (record { available_devices = rest; used_devices = insert d.bus_id d s.used_devices })
moved s p d rest c sp =
    let (kept, ne, absent) = without s p d rest c sp in
    rw (insert-Absent d.bus_id d s.used_devices absent) (record {
      keyed = All-append (λ e. e.1.bus_id ≡ e.0) s.used_devices _ c.keyed (refl, tt);
      used_distinct = Distinct-add d.bus_id d s.used_devices absent c.used_distinct;
      available_distinct = kept.available_distinct;
      apart =
          All-map rest
            (λ e h.
              All-append (λ x. x.0 ≢ e.bus_id) s.used_devices ((d.bus_id, d) ∷ []) h.0
                ((λ eq. h.1 (sym eq)), tt))
            (All-both (λ e. Absent e.bus_id s.used_devices) (λ e. e.bus_id ≢ d.bus_id) rest
              kept.apart ne);
    })

import_device_cases :
    (busid : Bytes) (s : UsbIpServer) (o : Option (UsbDevice × List UsbDevice))
    → take_first (λ d. list_beq (until_zero busid) (as_bytes d.bus_id)) s.available_devices ≡ o
    → IsConsistent s
    → IsConsistent (import_device busid s).1
unfolding import_device
import_device_cases busid s none e c = rw (e, import_device) c
import_device_cases busid s (some (d, rest)) e c =
    rw (e, import_device) (moved s _ d rest c (take_first-Splits _ _ d rest e))

-- An import keeps the tables consistent, whether a device with the bus id is available or not.
pub import_device-IsConsistent :
    (busid : Bytes) (s : UsbIpServer) → IsConsistent s → IsConsistent (import_device busid s).1
import_device-IsConsistent busid s c = import_device_cases busid s _ refl c

released :
    (id : Text) (s : UsbIpServer) (d : UsbDevice)
    → get id s.used_devices ≡ some d
    → IsConsistent s
    → IsConsistent (record {
      available_devices = s.available_devices ++ (d ∷ []);
      used_devices = remove id s.used_devices;
    })
released id s d g c =
    let same : d.bus_id ≡ id = All-get (λ e. e.1.bus_id ≡ e.0) id d s.used_devices c.keyed g in
    record {
      keyed = All-remove (λ e. e.1.bus_id ≡ e.0) id s.used_devices c.keyed;
      used_distinct = Distinct-remove id s.used_devices c.used_distinct;
      available_distinct = DistinctIds-add s.available_devices d c.available_distinct (
          All-map s.available_devices
            (λ e absent eq.
              All-get (λ x. x.0 ≢ e.bus_id) id d s.used_devices absent g (cc (eq, same)))
            c.apart);
      apart =
          All-append (λ e. Absent e.bus_id (remove id s.used_devices)) s.available_devices (d ∷ [])
            (All-map s.available_devices (λ e. All-remove (λ x. x.0 ≢ e.bus_id) id s.used_devices)
              c.apart)
            (rw same (Absent-remove id s.used_devices), tt);
    }

-- The end of a connection that holds a device keeps the tables consistent.
pub release_device-IsConsistent :
    (id : Text) (s t : UsbIpServer) → release_device id s ≡ some t → IsConsistent s → IsConsistent t
unfolding release_device
release_device-IsConsistent id s t e c = elim (Option-cases (get id s.used_devices)) [
  | inl n ↦ cc (rw (n, release_device) at e)
  | inr (d, g) ↦
      subst IsConsistent (some-injective _ _ (rw (g, release_device) at e)) (released id s d g c)
]

-- Adding a device whose bus id is in neither table keeps consistent tables consistent.
pub add_device-IsConsistent :
    (d : UsbDevice) (s : UsbIpServer)
    → All (λ e. e.bus_id ≢ d.bus_id) s.available_devices
    → Absent d.bus_id s.used_devices
    → IsConsistent s
    → IsConsistent (add_device d s)
unfolding add_device
add_device-IsConsistent d s fresh unused c = record {
  keyed = c.keyed;
  used_distinct = c.used_distinct;
  available_distinct = DistinctIds-add s.available_devices d c.available_distinct fresh;
  apart =
      All-append (λ e. Absent e.bus_id s.used_devices) s.available_devices (d ∷ []) c.apart
        (unused, tt);
}

remove_device_cases :
    (id : Text) (s : UsbIpServer) (o : Option (UsbDevice × List UsbDevice))
    → take_first (λ d. list_beq d.bus_id id) s.available_devices ≡ o
    → IsConsistent s
    → IsConsistent (remove_device id s).1
unfolding remove_device
remove_device_cases id s (some (d, rest)) e c =
    rw (e, remove_device) (without s _ d rest c (take_first-Splits _ _ d rest e)).0
remove_device_cases id s none e c = elim (Option-cases (find_used id s.used_devices)) [
  | inl n ↦ rw (e, n, remove_device) c
  | inr (d, g) ↦ rw (e, g, remove_device) c
]

-- Removing a device keeps consistent tables consistent, whether it is available, in use or
-- unknown.
pub remove_device-IsConsistent :
    (id : Text) (s : UsbIpServer) → IsConsistent s → IsConsistent (remove_device id s).1
remove_device-IsConsistent id s c = remove_device_cases id s _ refl c

-- A server starts consistent when the bus ids of its devices differ.
pub new_simulated-IsConsistent :
    (ds : List UsbDevice) → DistinctIds ds → IsConsistent (new_simulated ds)
unfolding new_simulated
new_simulated-IsConsistent ds h = record {
  keyed = tt;
  used_distinct = tt;
  available_distinct = h;
  apart = All_tt ds;
}
  where
    All_tt : (xs : List UsbDevice) → All (λ d. Absent d.bus_id (new_simulated ds).used_devices) xs
    All_tt [] = tt
    All_tt (x ∷ xs) = (tt, All_tt xs)
