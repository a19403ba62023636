-- ===== src/Usbip/Server/Ending.antt =====
-- How many iterations the loop of `handler` (usbip/src/lib.rs) takes.
use remote_yubikey_manager.Common.{
  ℕ, zero, suc, ◌+◌, ◌≤◌, ◌<◌, ◌≡◌, ◌≢◌, refl, Bool, true, false, Option, none, some, Option-cases,
  inl, inr, arith, length, if◌then◌else◌,
}
use remote_yubikey_manager.Common.Bytes.{Bytes}
use remote_yubikey_manager.Common.Outcome.{ok, err, panic, Outcome-cases}
use remote_yubikey_manager.Usbip.Io.{IoResult, IoError, Socket, IsStream, IsDuplex, kind}
use remote_yubikey_manager.Usbip.Device.{UsbDevice}
use remote_yubikey_manager.Usbip.Device.Handler.{Handlers}
use remote_yubikey_manager.Usbip.Protocol.Command.{
  UsbIpCommand, CmdSubmit, devlist, import, submit, unlink, read_from_socket,
}
use remote_yubikey_manager.Usbip.Protocol.Progress.{read_from_socket_takes}
use remote_yubikey_manager.Usbip.Protocol.Response.{
  UsbIpResponse, response_bytes, import_success, import_fail,
}
use remote_yubikey_manager.Usbip.Server.Tables.{UsbIpServer, import_device, release_device}
use remote_yubikey_manager.Usbip.Server.Connection.{
  Connection, Exit, finished, failed, stuck, is_eof, reply, serve_devlist, serve_import,
  answer_import, serve_submit, write_answer, serve_unlink, serve, submit_reply, current_device,
  close, continue, on_command, iteration, go_on, handler,
}

module _ {S W : Type 0} (k : Socket S) (l : IsStream k) (x : IsDuplex k l) (hs : Handlers W) where
  -- What the peer has sent and nobody has read.
  abbrev pub waiting : Connection S W → Bytes
  waiting c = l.incoming c.socket

  reply-waiting : (r : UsbIpResponse) (c : Connection S W) → waiting (reply k hs r c).1 ≡ waiting c
  unfolding reply
  reply-waiting r c = elim (Outcome-cases (k.write_all (response_bytes r) c.socket)) [
    | inl (s, e) ↦ rw (e, reply) (x (response_bytes r) c.socket s e)
    | inr (inl (e, h)) ↦ rw (h, reply) refl
    | inr (inr h) ↦ rw (h, reply) refl
  ]

  write_answer-waiting :
      (a : IoResult UsbIpResponse × W) (c : Connection S W)
      → waiting (write_answer k hs a c).1 ≡ waiting c
  unfolding write_answer
  write_answer-waiting (ok r, w) c = reply-waiting r (record c { world = w })
  write_answer-waiting (err e, w) c = refl
  write_answer-waiting (panic, w) c = refl

  answer_import-waiting :
      (f : Option UsbDevice × UsbIpServer) (c : Connection S W)
      → waiting (answer_import k hs f c).1 ≡ waiting c
  unfolding answer_import
  answer_import-waiting (some d, s) c =
      reply-waiting (import_success d)
        (record c { server = s; current_import_device_id = some d.bus_id })
  answer_import-waiting (none, s) c =
      reply-waiting import_fail (record c { server = s; current_import_device_id = none })

  serve_submit-waiting :
      (cmd : CmdSubmit) (c : Connection S W) → waiting (serve_submit k hs cmd c).1 ≡ waiting c
  unfolding serve_submit
  serve_submit-waiting cmd c = elim (Option-cases (current_device k hs c)) [
    | inl n ↦ rw (n, serve_submit) refl
    | inr (d, g) ↦ rw (g, serve_submit) (write_answer-waiting (submit_reply k hs d cmd c.world) c)
  ]

  -- Serving a command reads nothing.
  pub serve-waiting :
      (cmd : UsbIpCommand) (c : Connection S W) → waiting (serve k hs cmd c).1 ≡ waiting c
  unfolding serve serve_devlist serve_import serve_unlink
  serve-waiting (devlist status) c = reply-waiting _ c
  serve-waiting (import status busid) c = answer_import-waiting (import_device busid c.server) c
  serve-waiting (submit cmd) c = serve_submit-waiting cmd c
  serve-waiting (unlink header seqnum) c = reply-waiting _ c

  close-ends : (e : IoError) (c : Connection S W) → (close k hs e c).0 ≢ stuck
  unfolding close
  close-ends e c p = elim (Option-cases c.current_import_device_id) [
    | inl n ↦ not_stuck (is_eof (kind e)) (rw (n, close) at p)
    | inr (id, g) ↦ elim (Option-cases (release_device id c.server)) [
      | inl n ↦ cc (rw (g, close, n) at p)
      | inr (s, r) ↦ not_stuck (is_eof (kind e)) (rw (g, close, r) at p)
    ]
  ]
    where
      not_stuck : (b : Bool) → (if b then finished else failed e) ≢ stuck
      not_stuck true q = cc
      not_stuck false q = cc

  -- An iteration that goes on has read four bytes at least; none of its ends is `stuck`.
  Advances : Connection S W → Option Exit × Connection S W → Type 0
  Advances c (none, c') = length (waiting c') + 4 ≤ length (waiting c)
  Advances c (some e, c') = e ≢ stuck

  iteration-Advances : (c : Connection S W) → Advances c (iteration k hs c)
  unfolding iteration Advances
  iteration-Advances c = go (read_from_socket k c.socket) refl
    where
      after :
          (r : IoResult (Unit {0}) × Connection S W)
          → length (waiting r.1) + 4 ≤ length (waiting c)
          → Advances c (continue k hs r)
      after (ok u, c') h = h
      after (err e, c') h = λ p. cc
      after (panic, c') h = λ p. cc

      go :
          (r : IoResult (UsbIpCommand × S))
          → read_from_socket k c.socket ≡ r
          → Advances c (on_command k hs c r)
      go (ok (cmd, s)) h = after (serve k hs cmd (record c { socket = s })) (
          rw (serve-waiting cmd (record c { socket = s }))
            (read_from_socket_takes k l c.socket s cmd h))
      go (err e) h = close-ends e c
      go panic h = λ p. cc

  -- Whatever bytes the peer has sent, and whatever the handlers do, the loop ends within its fuel
  -- if that is greater than the number of the bytes. Writes do not touch what the stream holds.
  pub handler-ends :
      (fuel : ℕ) (c : Connection S W) → length (waiting c) < fuel → (handler k hs fuel c).0 ≢ stuck
  unfolding handler Advances
  handler-ends zero c h = absurd (omega arith)
  handler-ends (suc fuel) c h =
      go (iteration k hs c) (iteration-Advances c) (λ c' fewer. handler-ends fuel c' (omega arith))
    where
      go :
          (r : Option Exit × Connection S W)
          → Advances c r
          → ((c' : Connection S W)
              → length (waiting c') + 4 ≤ length (waiting c)
              → (handler k hs fuel c').0 ≢ stuck)
          → (go_on k hs (handler k hs fuel) r).0 ≢ stuck
      go (none, c') a ih = ih c' a
      go (some end, c') a ih = a
