-- ===== src/Usbip/Server/Interleaving.antt =====
-- `server` and the tasks that it spawns: the iterations of the connections in any order, with
-- devices added and removed between them.
use mathlib.Core.Path.{subst}
use remote_yubikey_manager.Common.{
  ◌⊎◌, ℕ, ◌≡◌, refl, sym, ap, ◌∙◌, ◌≢◌, Bool, true, false, List, Option, none, some, Option-cases,
  inl, inr, arith, if◌then◌else◌, All,
}
use remote_yubikey_manager.Common.Dict.Keys.{Absent}
use remote_yubikey_manager.Common.Eq.{nat_eq, list_eq}
use remote_yubikey_manager.Common.Text.{Text}
use remote_yubikey_manager.Usbip.Io.{Socket, kind, IoError}
use remote_yubikey_manager.Usbip.Device.{UsbDevice}
use remote_yubikey_manager.Usbip.Device.Handler.{Handlers}
use remote_yubikey_manager.Usbip.Server.Tables.{
  UsbIpServer, new_simulated, add_device, remove_device, release_device,
}
use remote_yubikey_manager.Usbip.Server.Connection.{
  Connection, Exit, finished, failed, panicked, is_eof, iteration, close,
}
use remote_yubikey_manager.Usbip.Server.Consistency.{
  DistinctIds, new_simulated-IsConsistent, add_device-IsConsistent, remove_device-IsConsistent,
}
use remote_yubikey_manager.Usbip.Server.Effects.{Effect, iteration-Effect, GivesBack}
use remote_yubikey_manager.Usbip.Server.Holders.{
  IsExclusive, update, IsExclusive-eq, IsExclusive-used, IsExclusive-drop, Effect-IsExclusive,
  release_device-IsExclusive,
}

-- The stream of a connection that is served, and its `current_import_device_id`.
pub record Task (S : Type 0) : Type 0 where
  pub socket : S
  pub current_import_device_id : Option Text

pub record System (S W : Type 0) : Type 0 where
  pub server : UsbIpServer
  pub world : W
  pub tasks : ℕ → Option (Task S)

abbrev pub holds : {S : Type 0} → Option (Task S) → Option Text
holds none = none
holds (some t) = t.current_import_device_id

module _ {S W : Type 0} where
  abbrev pub held : System S W → ℕ → Option Text
  held y i = holds (y.tasks i)

  abbrev pub connection : System S W → Task S → Connection S W
  connection y t = record {
    socket = t.socket;
    server = y.server;
    world = y.world;
    current_import_device_id = t.current_import_device_id;
  }

  -- The task after an iteration: a connection that has ended has none.
  abbrev pub next_task : Option Exit → Connection S W → Option (Task S)
  next_task none c =
      some (record { socket = c.socket; current_import_device_id = c.current_import_device_id })
  next_task (some e) c = none

  abbrev pub put : ℕ → Option Exit × Connection S W → System S W → System S W
  put i (end, c) y = record {
    server = c.server;
    world = c.world;
    tasks = update i (next_task end c) y.tasks;
  }

add_device-used : (d : UsbDevice) (s : UsbIpServer) → (add_device d s).used_devices ≡ s.used_devices
unfolding add_device
add_device-used d s = refl

remove_device-used :
    (id : Text) (s : UsbIpServer) → (remove_device id s).1.used_devices ≡ s.used_devices
unfolding remove_device
remove_device-used id s = ground arith

module _ {S W : Type 0} (k : Socket S) (hs : Handlers W) where
  pub data Step (y : System S W) : System S W → Type 0 where
    accept :
        (i : ℕ) (socket : S)
        → y.tasks i ≡ none
        → Step y (record y {
          tasks =
              update i (some (record { socket = socket; current_import_device_id = none })) y.tasks;
        })
    iterate :
        (i : ℕ) (t : Task S)
        → y.tasks i ≡ some t
        → Step y (put i (iteration k hs (connection y t)) y)
    add :
        (d : UsbDevice)
        → All (λ e. e.bus_id ≢ d.bus_id) y.server.available_devices
        → Absent d.bus_id y.server.used_devices
        → Step y (record y { server = add_device d y.server })
    remove : (id : Text) → Step y (record y { server = (remove_device id y.server).1 })

  pub data Reachable (ds : List UsbDevice) : System S W → Type 0 where
    start :
        (w : W) → Reachable ds (record { server = new_simulated ds; world = w; tasks = λ i. none })
    next : (y z : System S W) → Reachable ds y → Step y z → Reachable ds z

  holds-update :
      (i : ℕ) (o : Option (Task S)) (f : ℕ → Option (Task S)) (j : ℕ)
      → update i (holds o) (λ l. holds (f l)) j ≡ holds (update i o f j)
  holds-update i o f j = ground arith

  update_twice :
      (i : ℕ) (a b : Option Text) (f : ℕ → Option Text) (j : ℕ)
      → update i b (update i a f) j ≡ update i b f j
  update_twice i a b f j = ground arith

  iterated :
      (y : System S W) (i : ℕ) (t : Task S) (r : Option Exit × Connection S W)
      → held y i ≡ t.current_import_device_id
      → Effect y.server t.current_import_device_id r.1.server r.1.current_import_device_id
        ⊎ GivesBack k hs (connection y t) r
      → IsExclusive y.server (held y)
      → IsExclusive r.1.server (update i (holds (next_task r.0 r.1)) (held y))
  iterated y i t (none, c) e (inl h) x =
      Effect-IsExclusive y.server c.server (held y) i _
        (subst (λ o. Effect y.server o c.server c.current_import_device_id) (sym e) h) x
  iterated y i t (some end, c) e (inl h) x =
      let after =
        Effect-IsExclusive y.server c.server (held y) i _
          (subst (λ o. Effect y.server o c.server c.current_import_device_id) (sym e) h) x in
      IsExclusive-eq c.server _ _ (update_twice i c.current_import_device_id none (held y))
        (IsExclusive-drop c.server _ i after)
  iterated y i t (none, c) e (inr (id, h, r, n)) x = absurd (n refl)
  iterated y i t (some end, c) e (inr (id, h, r, n)) x =
      release_device-IsExclusive y.server c.server (held y) i id (e ∙ h) r x

  Step-IsExclusive :
      (y z : System S W) → Step y z → IsExclusive y.server (held y) → IsExclusive z.server (held z)
  Step-IsExclusive y z (accept i s free) x =
      IsExclusive-eq y.server (update i none (held y)) (held z) (holds-update i _ y.tasks)
        (IsExclusive-drop y.server (held y) i x)
  Step-IsExclusive y z (iterate i t e) x =
      IsExclusive-eq z.server
        (update i
          (holds
            (next_task (iteration k hs (connection y t)).0 (iteration k hs (connection y t)).1))
          (held y))
        (held z)
        (holds-update i
          (next_task (iteration k hs (connection y t)).0 (iteration k hs (connection y t)).1)
          y.tasks)
        (iterated y i t (iteration k hs (connection y t)) (ap holds e)
          (iteration-Effect k hs (connection y t)) x)
  Step-IsExclusive y z (add d fresh unused) x =
      IsExclusive-used y.server z.server (held y)
        (add_device-IsConsistent d y.server fresh unused x.consistent) (add_device-used d y.server)
        x
  Step-IsExclusive y z (remove id) x =
      IsExclusive-used y.server z.server (held y)
        (remove_device-IsConsistent id y.server x.consistent) (remove_device-used id y.server) x

  -- If the bus ids of the devices at the start differ, and each device that is added has a bus id that
  -- is in neither table, then in every state that is reached the tables are consistent, every
  -- device that a connection holds is in use, and no two connections hold the same device.
  pub Reachable-IsExclusive :
      (ds : List UsbDevice) (y : System S W)
      → DistinctIds ds
      → Reachable ds y
      → IsExclusive y.server (held y)
  Reachable-IsExclusive ds _ h (start w) = record {
    consistent = new_simulated-IsConsistent ds h;
    in_use = λ i id e. cc e;
    exclusive = λ i j id e. cc e;
  }
  Reachable-IsExclusive ds _ h (next y z r s) =
      Step-IsExclusive y z s (Reachable-IsExclusive ds y h r)

  -- If the bus ids of the devices at the start differ, and each device that is added has a bus id
  -- that is in neither table, then in every state that is reached a connection whose read fails
  -- ends without a panic: a device that it holds is found among the used ones.
  pub close-returns :
      (ds : List UsbDevice) (y : System S W) (i : ℕ) (t : Task S) (e : IoError)
      → DistinctIds ds
      → Reachable ds y
      → y.tasks i ≡ some t
      → (close k hs e (connection y t)).0 ≢ panicked
  unfolding close release_device
  close-returns ds y i t e h r at_i p = elim (Option-cases t.current_import_device_id) [
    | inl n ↦ ends (is_eof (kind e)) (rw (n, close) at p)
    | inr (id, g) ↦
        let (d, u) = (Reachable-IsExclusive ds y h r).in_use i id (ap holds at_i ∙ g) in
        ends (is_eof (kind e)) (rw (g, close, release_device, u) at p)
  ]
    where
      ends : (b : Bool) → (if b then finished else failed e) ≢ panicked
      ends true q = cc
      ends false q = cc
