-- ===== src/Usbip/Server/Effects.antt =====
-- What an iteration of `handler` does to the tables and to the device that the connection holds.
use mathlib.Core.Path.{subst, subst₂}
use remote_yubikey_manager.Common.{
  ◌∙◌, ◌⊎◌, ◌≢◌, arith, ◌≡◌, refl, sym, ap, Option, none, some, Option-cases, inl, inr,
}
use remote_yubikey_manager.Common.Bytes.{Bytes}
use remote_yubikey_manager.Common.Outcome.{ok, err, panic}
use remote_yubikey_manager.Common.Eq.{nat_eq, list_beq}
use remote_yubikey_manager.Common.Text.{Text, as_bytes}
use remote_yubikey_manager.Usbip.Io.{IoResult, IoError, Socket}
use remote_yubikey_manager.Usbip.Device.{UsbDevice}
use remote_yubikey_manager.Usbip.Device.Handler.{Handlers}
use remote_yubikey_manager.Usbip.Protocol.Command.{
  UsbIpCommand, CmdSubmit, read_from_socket, devlist, import, submit, unlink,
}
use remote_yubikey_manager.Usbip.Protocol.Response.{UsbIpResponse, import_success, import_fail}
use remote_yubikey_manager.Usbip.Server.Tables.{
  UsbIpServer, import_device, take_first, until_zero, release_device,
}
use remote_yubikey_manager.Usbip.Server.Connection.{
  Connection, iteration, close, continue, on_command, Exit, reply, write_answer, answer_import,
  serve_devlist, serve_import, serve_submit, serve_unlink, serve, submit_reply, current_device,
}

-- The three things that a command can do to the tables and to the id that a connection holds.
pub data Effect (s : UsbIpServer) (held : Option Text) : UsbIpServer → Option Text → Type 0 where
  kept : Effect s held s held
  dropped : Effect s held s none
  imported :
      (busid : Bytes) (d : UsbDevice) (t : UsbIpServer)
      → import_device busid s ≡ (some d, t)
      → Effect s held t (some d.bus_id)

pub import_none-same :
    (busid : Bytes) (s t : UsbIpServer) → import_device busid s ≡ (none, t) → t ≡ s
unfolding import_device
import_none-same busid s t h =
    elim (Option-cases
      (take_first (λ d. list_beq (until_zero busid) (as_bytes d.bus_id)) s.available_devices)) [
        | inl n ↦ sym (ap (λ x. x.1) (rw (n, import_device) at h))
        | inr ((e, rest), g) ↦ cc (rw (g, import_device) at h)
      ]

module _ {S W : Type 0} (k : Socket S) (hs : Handlers W) where
  pub reply-tables :
      (r : UsbIpResponse) (c : Connection S W)
      → ((reply k hs r c).1.server ≡ c.server)
        × ((reply k hs r c).1.current_import_device_id ≡ c.current_import_device_id)
  unfolding reply
  reply-tables r c = ground arith

  abbrev SameTables : Connection S W → Connection S W → Type 0
  SameTables c c' =
      (c'.server ≡ c.server) × (c'.current_import_device_id ≡ c.current_import_device_id)

  serve_submit-tables :
      (cmd : CmdSubmit) (c : Connection S W) → SameTables c (serve_submit k hs cmd c).1
  unfolding serve_submit write_answer
  serve_submit-tables cmd c = elim (Option-cases (current_device k hs c)) [
    | inl n ↦ rw (n, serve_submit) (refl, refl)
    | inr (d, g) ↦ rw (g, serve_submit) (answered (submit_reply k hs d cmd c.world))
  ]
    where
      answered : (a : IoResult UsbIpResponse × W) → SameTables c (write_answer k hs a c).1
      answered (ok r, w) = reply-tables r (record c { world = w })
      answered (err e, w) = (refl, refl)
      answered (panic, w) = (refl, refl)

  -- `Effect` of one connection on another with the same tables.
  abbrev HasEffect : Connection S W → Connection S W → Type 0
  HasEffect c c' = Effect c.server c.current_import_device_id c'.server c'.current_import_device_id

  SameTables-HasEffect : (c c' : Connection S W) → SameTables c c' → HasEffect c c'
  SameTables-HasEffect c c' h =
      subst₂ (Effect c.server c.current_import_device_id) (sym h.0) (sym h.1) kept

  serve_import-HasEffect :
      (busid : Bytes) (c : Connection S W) → HasEffect c (serve_import k hs busid c).1
  unfolding serve_import answer_import
  serve_import-HasEffect busid c = go (import_device busid c.server) refl
    where
      go :
          (r : Option UsbDevice × UsbIpServer)
          → import_device busid c.server ≡ r
          → HasEffect c (answer_import k hs r c).1
      go (some d, t) e =
          let h =
            reply-tables (import_success d)
              (record c { server = t; current_import_device_id = some d.bus_id }) in
          subst₂ (Effect c.server c.current_import_device_id) (sym h.0) (sym h.1)
            (imported busid d t e)
      go (none, t) e =
          let h =
            reply-tables import_fail (record c { server = t; current_import_device_id = none }) in
          subst₂ (Effect c.server c.current_import_device_id)
            (sym (h.0 ∙ import_none-same busid c.server t e)) (sym h.1) dropped

  -- Whatever the command and however it ends, it has one of the three effects.
  pub serve-Effect :
      (cmd : UsbIpCommand) (c : Connection S W)
      → Effect c.server c.current_import_device_id
          (serve k hs cmd c).1.server
          (serve k hs cmd c).1.current_import_device_id
  unfolding serve serve_devlist serve_unlink
  serve-Effect (devlist status) c =
      SameTables-HasEffect c (serve k hs (devlist status) c).1 (reply-tables _ c)
  serve-Effect (import status busid) c = serve_import-HasEffect busid c
  serve-Effect (submit cmd) c =
      SameTables-HasEffect c (serve_submit k hs cmd c).1 (serve_submit-tables cmd c)
  serve-Effect (unlink header seqnum) c =
      SameTables-HasEffect c (serve k hs (unlink header seqnum) c).1 (reply-tables _ c)

  -- What an iteration that ends the connection does to the tables: it gives the device back.
  abbrev pub GivesBack : Connection S W → Option Exit × Connection S W → Type 0
  GivesBack c (end, c') =
      (id : Text) × (c.current_import_device_id ≡ some id)
      × (release_device id c.server ≡ some c'.server)
      × (end ≢ none)

  close-GivesBack :
      (e : IoError) (c : Connection S W)
      → HasEffect c (close k hs e c).1 ⊎ GivesBack c (some (close k hs e c).0, (close k hs e c).1)
  unfolding close
  close-GivesBack e c = elim (Option-cases c.current_import_device_id) [
    | inl n ↦
        let same : (close k hs e c).1 ≡ c = simp (n, close) in
        inl (subst (HasEffect c) (sym same) kept)
    | inr (id, g) ↦ elim (Option-cases (release_device id c.server)) [
      | inl n ↦
          let same : (close k hs e c).1 ≡ c = simp (g, n, close) in
          inl (subst (HasEffect c) (sym same) kept)
      | inr (s, r) ↦
          let given : (close k hs e c).1.server ≡ s = rw (g, r, close) refl in
          inr (id, g, r ∙ ap some (sym given), λ eq. cc)
    ]
  ]

  -- An iteration has one of the three effects, or it ends the connection and gives back its device.
  pub iteration-Effect :
      (c : Connection S W)
      → Effect c.server c.current_import_device_id
          (iteration k hs c).1.server
          (iteration k hs c).1.current_import_device_id
        ⊎ GivesBack c (iteration k hs c)
  unfolding iteration
  iteration-Effect c = go (read_from_socket k c.socket)
    where
      after :
          (r : IoResult (Unit {0}) × Connection S W)
          → HasEffect c r.1
          → HasEffect c (continue k hs r).1
      after (ok u, c') h = h
      after (err e, c') h = h
      after (panic, c') h = h

      go :
          (r : IoResult (UsbIpCommand × S))
          → HasEffect c (on_command k hs c r).1 ⊎ GivesBack c (on_command k hs c r)
      go (ok (cmd, s)) = inl (after _ (serve-Effect cmd (record c { socket = s })))
      go (err e) = close-GivesBack e c
      go panic = inl kept
