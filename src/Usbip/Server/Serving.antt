-- ===== src/Usbip/Server/Serving.antt =====
-- A whole connection of `handler` (usbip/src/lib.rs), against a session of commands.
use remote_yubikey_manager.Common.{
  ℕ, zero, suc, ◌<◌, ◌≡◌, refl, sym, ap, ◌∙◌, List, [], ◌∷◌, ◌++◌, arith, length, All,
}
use remote_yubikey_manager.Common.Bytes.{Bytes}
use remote_yubikey_manager.Common.Outcome.{ok, err, panic}
use remote_yubikey_manager.Usbip.Io.{
  IoResult, io, unexpected_eof, Socket, IsStream, IsDuplex, ◌>>=◌,
}
use remote_yubikey_manager.Usbip.Device.Handler.{Handlers}
use remote_yubikey_manager.Usbip.Protocol.Command.{
  UsbIpCommand, IsCommand, command_bytes, read_from_socket,
}
use remote_yubikey_manager.Usbip.Protocol.RoundTrip.{read_from_socket-command_bytes}
use remote_yubikey_manager.Usbip.Server.Connection.{
  Connection, Exit, failed, panicked, serve, close, continue, on_command, iteration, go_on, handler,
}
use remote_yubikey_manager.Usbip.Server.Ending.{waiting, serve-waiting}

-- What a client sends for a list of commands.
abbrev pub commands_bytes : List UsbIpCommand → Bytes
commands_bytes [] = []
commands_bytes (cmd ∷ cmds) = command_bytes cmd ++ commands_bytes cmds

module _ {S W : Type 0} (k : Socket S) (l : IsStream k) (x : IsDuplex k l) (hs : Handlers W) where
  -- The connection with the stream moved behind a command: only `rest` waits.
  abbrev pub moved_to : Bytes → Connection S W → Connection S W
  moved_to rest c = record c { socket = l.feed rest c.socket }

  -- What follows a command: the session goes on unless the answer cannot be written or a handler
  -- panics.
  abbrev pub and_then :
      (Connection S W → Exit × Connection S W)
      → IoResult (Unit {0}) × Connection S W
      → Exit × Connection S W
  and_then f (ok u, c) = f c
  and_then f (err e, c) = (failed e, c)
  and_then f (panic, c) = (panicked, c)

  -- A session by its commands: they are served one by one, until the client leaves.
  abbrev pub session : List UsbIpCommand → Connection S W → Exit × Connection S W
  session [] c = close k hs (io unexpected_eof) c
  session (cmd ∷ cmds) c =
      and_then (session cmds) (serve k hs cmd (moved_to (commands_bytes cmds) c))

  read_nothing : (s : S) → l.incoming s ≡ [] → read_from_socket k s ≡ err (io unexpected_eof)
  unfolding read_from_socket
  read_nothing s h =
      let whole : l.feed [] s ≡ s = rw (sym h) (l.feed_incoming s) in
      let eof : k.read_u16 s ≡ err (io unexpected_eof) =
        rw (sym whole) (l.read_u16_eof [] s (omega arith)) in
      rw (◌>>=◌, eof) refl

  read_next :
      (cmd : UsbIpCommand) (rest : Bytes) (s : S)
      → IsCommand cmd
      → l.incoming s ≡ command_bytes cmd ++ rest
      → read_from_socket k s ≡ ok (cmd, l.feed rest s)
  read_next cmd rest s h e =
      let whole : l.feed (command_bytes cmd ++ rest) s ≡ s = rw (sym e) (l.feed_incoming s) in
      ap (read_from_socket k) (sym whole) ∙ read_from_socket-command_bytes k l cmd rest s h

  -- When the stream holds the bytes of well-formed commands and then ends, `handler` does just
  -- what the session of these commands does, if its fuel is greater than their number. Writes do
  -- not touch what the stream holds.
  pub handler-session :
      (fuel : ℕ) (cmds : List UsbIpCommand) (c : Connection S W)
      → All IsCommand cmds
      → waiting k l x hs c ≡ commands_bytes cmds
      → length cmds < fuel
      → handler k hs fuel c ≡ session cmds c
  unfolding handler iteration
  handler-session zero cmds c wf e h = absurd (omega arith)
  handler-session (suc fuel) [] c wf e h =
      ap (λ r. go_on k hs (handler k hs fuel) (on_command k hs c r)) (read_nothing c.socket e)
  handler-session (suc fuel) (cmd ∷ cmds) c wf e h =
      ap (λ r. go_on k hs (handler k hs fuel) (on_command k hs c r))
        (read_next cmd (commands_bytes cmds) c.socket wf.0 e)
      ∙ follows (serve k hs cmd (moved_to (commands_bytes cmds) c))
          (serve-waiting k l x hs cmd (moved_to (commands_bytes cmds) c)
            ∙ l.incoming-feed (commands_bytes cmds) c.socket)
          (λ c' e'. handler-session fuel cmds c' wf.1 e' (omega arith))
    where
      follows :
          (r : IoResult (Unit {0}) × Connection S W)
          → waiting k l x hs r.1 ≡ commands_bytes cmds
          → ((c' : Connection S W)
              → waiting k l x hs c' ≡ commands_bytes cmds
              → handler k hs fuel c' ≡ session cmds c')
          → go_on k hs (handler k hs fuel) (continue k hs r) ≡ and_then (session cmds) r
      follows (ok u, c') e ih = ih c' e
      follows (err i, c') e ih = refl
      follows (panic, c') e ih = refl
