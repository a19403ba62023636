-- ===== src/Usbip/Protocol/Progress.antt =====
-- What `read_from_socket` (usbip/src/usbip_protocol.rs) takes off a stream, and what it refuses.
use remote_yubikey_manager.Common.{
  ℕ, ◌+◌, ◌*◌, ◌≤◌, ◌≡◌, refl, ◌≢◌, ◌⊎◌, Bool, true, false, not, ◌&&◌, [], ◌++◌, arith, length,
  ◌==◌, if◌then◌else◌,
}
use remote_yubikey_manager.Common.Bytes.{Bytes, IsU16, u16_to_be_bytes}
use remote_yubikey_manager.Common.Outcome.{ok, err, panic}
use remote_yubikey_manager.Usbip.Io.{
  Socket, IsStream, Reader, IoResult, ◌>>=◌, pure, fail, IoError, unknown_version, unknown_command,
}
use remote_yubikey_manager.Usbip.Consts.{
  usbip_version, op_req_devlist, op_req_import, usbip_cmd_submit, usbip_cmd_unlink,
}
use remote_yubikey_manager.Usbip.Protocol.Header.{read_from_socket_with_command, direction_in}
use remote_yubikey_manager.Usbip.Protocol.Command.{
  UsbIpCommand, read_devlist, read_import, read_submit, read_unlink, read_body, read_from_socket,
  has_iso_packets,
}

module _ {S : Type 0} (k : Socket S) (st : IsStream k) where
  open st use {incoming, feed, read_u16_lem, read_u16_takes, read_u32_takes, read_exact_takes}

  -- A reader that takes `n` bytes at least when it succeeds.
  record Takes {A : Type 0} (n : ℕ) (m : Reader S A) : Type 0 where
    took : (s s' : S) (a : A) → m s ≡ ok (a, s') → length (incoming s') + n ≤ length (incoming s)

  Takes-u16 : Takes 2 k.read_u16
  Takes-u16 = record { took = λ s s' v h. omega (arith, read_u16_takes s s' v h) }

  Takes-u32 : Takes 0 k.read_u32
  Takes-u32 = record { took = λ s s' v h. omega (arith, read_u32_takes s s' v h) }

  Takes-exact : (n : ℕ) → Takes 0 (k.read_exact n)
  Takes-exact n = record { took = λ s s' v h. omega (arith, (read_exact_takes n s s' v h).1) }

  Takes-pure : {A : Type 0} (a : A) → Takes 0 (pure {S = S} a)
  Takes-pure a = record { took = λ s s' v h. ground arith }

  Takes-fail : {A : Type 0} (n : ℕ) (e : IoError) → Takes {A = A} n (fail e)
  Takes-fail n e = record { took = λ s s' v h. cc }

  >>=-took :
      {A B : Type 0} (i j : ℕ) (m : Reader S A) (f : A → Reader S B)
      → Takes i m
      → ((a : A) → Takes j (f a))
      → (r : IoResult (A × S)) (s s' : S) (b : B) → m s ≡ r
      → (m >>= f) s ≡ ok (b, s')
      → length (incoming s') + (i + j) ≤ length (incoming s)
  >>=-took i j m f tm tf (ok (a, s₁)) s s' b e h =
      omega (arith, tm.took s s₁ a e, (tf a).took s₁ s' b (rw (e, ◌>>=◌) at h))
  >>=-took i j m f tm tf (err x) s s' b e h = cc (rw (e, ◌>>=◌) at h)
  >>=-took i j m f tm tf panic s s' b e h = cc (rw (e, ◌>>=◌) at h)

  Takes-bind :
      {A B : Type 0} (i j : ℕ) (m : Reader S A) (f : A → Reader S B)
      → Takes i m
      → ((a : A) → Takes j (f a))
      → Takes (i + j) (m >>= f)
  Takes-bind i j m f tm tf = record {
    took = λ s s' b h. >>=-took i j m f tm tf (m s) s s' b refl h;
  }

  then-Takes :
      {A B : Type 0} {m : Reader S A} {f : A → Reader S B}
      → Takes 0 m
      → ((a : A) → Takes 0 (f a))
      → Takes 0 (m >>= f)
  then-Takes tm tf = Takes-bind 0 0 _ _ tm tf

  Takes-if :
      {A : Type 0} {n : ℕ} (b : Bool) {m m' : Reader S A}
      → Takes n m
      → Takes n m'
      → Takes n (if b then m else m')
  Takes-if true t t' = t
  Takes-if false t t' = t'

  Takes-header : (command : ℕ) → Takes 0 (read_from_socket_with_command k command)
  unfolding read_from_socket_with_command
  Takes-header command = then-Takes Takes-u32 λ a.
      then-Takes Takes-u32 λ b. then-Takes Takes-u32 λ c. then-Takes Takes-u32 λ d. Takes-pure _

  Takes-devlist : Takes 0 (read_devlist k)
  unfolding read_devlist
  Takes-devlist = then-Takes Takes-u32 λ status. Takes-pure _

  Takes-import : Takes 0 (read_import k)
  unfolding read_import
  Takes-import = then-Takes Takes-u32 λ status. then-Takes (Takes-exact 32) λ busid. Takes-pure _

  Takes-unlink : Takes 0 (read_unlink k)
  unfolding read_unlink
  Takes-unlink =
      then-Takes (Takes-header usbip_cmd_unlink)
        λ h. then-Takes Takes-u32 λ n. then-Takes (Takes-exact 24) λ padding. Takes-pure _

  Takes-submit : Takes 0 (read_submit k)
  unfolding read_submit
  Takes-submit = then-Takes (Takes-header usbip_cmd_submit) λ h. then-Takes Takes-u32 λ flags.
      then-Takes Takes-u32 λ n. then-Takes Takes-u32 λ frame. then-Takes Takes-u32 λ packets.
        then-Takes Takes-u32 λ interval. then-Takes (Takes-exact 8) λ setup.
          then-Takes (Takes-if (h.direction == direction_in) (Takes-pure []) (Takes-exact n))
            λ payload.
              then-Takes
                (Takes-if (has_iso_packets packets) (Takes-exact (16 * packets)) (Takes-pure []))
                λ iso. Takes-pure _

  Takes-body : (command : ℕ) → Takes 0 (read_body k command)
  unfolding read_body
  Takes-body command = Takes-if (command == op_req_devlist) Takes-devlist (
      Takes-if (command == op_req_import) Takes-import (
        Takes-if (command == usbip_cmd_submit) Takes-submit (
          Takes-if (command == usbip_cmd_unlink) Takes-unlink
            (Takes-fail 0 (unknown_command command)))))

  -- A command that is read has taken four bytes at least off the stream, whatever the bytes are.
  pub read_from_socket_takes :
      (s s' : S) (c : UsbIpCommand)
      → read_from_socket k s ≡ ok (c, s')
      → length (incoming s') + 4 ≤ length (incoming s)
  unfolding read_from_socket
  read_from_socket_takes =
      (Takes-bind 2 2 _ _ Takes-u16 λ version.
        Takes-if (not (version == 0) && not (version == usbip_version))
          (Takes-fail 2 (unknown_version version))
          (Takes-bind 2 0 k.read_u16 (read_body k) Takes-u16 Takes-body)).took

  refuses_word :
      (version word : ℕ) (rest : Bytes) (s : S)
      → IsU16 version
      → IsU16 word
      → (not (version == 0) && not (version == usbip_version)) ≡ false
      → word ≢ op_req_devlist
      → word ≢ op_req_import
      → word ≢ usbip_cmd_submit
      → word ≢ usbip_cmd_unlink
      → read_from_socket k (feed (u16_to_be_bytes version ++ (u16_to_be_bytes word ++ rest)) s)
        ≡ err (unknown_command word)
  unfolding read_from_socket read_body
  refuses_word version word rest s hv hw known p q x y =
      simp (◌>>=◌, read_u16_lem version _ s hv, known, read_u16_lem word _ s hw) (ground arith)

  -- A stream that begins with another version than 0 and 0x0111 is refused with that version as the
  -- error; one with either of these versions and a command word of none of the four requests is
  -- refused with that word.
  pub read_from_socket_refuses :
      (version known word : ℕ) (rest : Bytes) (s : S)
      → IsU16 version
      → (known ≡ 0) ⊎ (known ≡ usbip_version)
      → IsU16 word
      → (version ≢ 0
          → version ≢ usbip_version
          → read_from_socket k (feed (u16_to_be_bytes version ++ rest) s)
            ≡ err (unknown_version version))
        × (word ≢ op_req_devlist
            → word ≢ op_req_import
            → word ≢ usbip_cmd_submit
            → word ≢ usbip_cmd_unlink
            → read_from_socket k (feed (u16_to_be_bytes known ++ (u16_to_be_bytes word ++ rest)) s)
              ≡ err (unknown_command word))
  unfolding read_from_socket read_body
  read_from_socket_refuses version known word rest s hv hk hw = (
    λ p q. simp (◌>>=◌, read_u16_lem version _ s hv) (ground arith),
    refuses_word known word rest s (ground arith) hw (ground arith),
  )
