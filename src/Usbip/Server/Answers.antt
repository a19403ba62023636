-- ===== src/Usbip/Server/Answers.antt =====
-- The answers that `handler` writes for submitted URBs.
use mathlib.Core.Path.{subst}
use remote_yubikey_manager.Common.{
  ◌≡◌, ◌≢◌, ◌↔◌, ◌⊎◌, refl, true, [], Option, none, some, Bool-cases, inl, inr, length, ◌==◌,
  ==_iff, ==_refl, arith,
}
use remote_yubikey_manager.Common.Bytes.{Bytes, as_u8, as_u32}
use remote_yubikey_manager.Common.Outcome.{ok, err, panic}
use remote_yubikey_manager.Usbip.Io.{IoResult}
use remote_yubikey_manager.Usbip.Consts.{usbip_ret_submit}
use remote_yubikey_manager.Usbip.Device.{UsbDevice, UsbInterface, find_ep}
use remote_yubikey_manager.Usbip.Device.Handler.{Handlers}
use remote_yubikey_manager.Usbip.Device.Urb.{handle_urb}
use remote_yubikey_manager.Usbip.Io.{Socket}
use remote_yubikey_manager.Usbip.Endpoint.{UsbEndpoint}
use remote_yubikey_manager.Usbip.Setup.{parse}
use remote_yubikey_manager.Usbip.Protocol.Header.{UsbIpHeaderBasic, direction_in}
use remote_yubikey_manager.Usbip.Protocol.Command.{CmdSubmit}
use remote_yubikey_manager.Usbip.Protocol.Response.{
  UsbIpResponse, RetSubmit, rep_devlist, rep_import, ret_submit, ret_unlink, submit_success,
  submit_fail, debug_asserts,
}
use remote_yubikey_manager.Usbip.Server.Connection.{submit_reply, answer_urb, real_ep}

-- What every answer to a URB with this header has: the same header but for the command, RET_SUBMIT,
-- and no isochronous packets.
pub record Returns (header : UsbIpHeaderBasic) (r : RetSubmit) : Type 0 where
  pub same_header : r.header ≡ record header { command = usbip_ret_submit }
  pub no_packets : (r.iso_packet_descriptor ≡ []) × (r.number_of_packets ≡ 0) × (r.error_count ≡ 0)

-- The answer that a URB failed: a status other than 0 and no data.
abbrev pub FailsUrb : UsbIpHeaderBasic → RetSubmit → Type 0
FailsUrb header r =
    Returns header r
    × (r.status ≢ 0)
    × (r.actual_length ≡ 0)
    × (r.transfer_buffer ≡ [])
    × (debug_asserts (ret_submit r) ≡ true)

-- The answer with the data of a handler: status 0, these data and their length. What debug builds
-- assert of it holds exactly for an IN transfer, or when the length is 0.
abbrev pub SucceedsUrb : UsbIpHeaderBasic → Bytes → RetSubmit → Type 0
SucceedsUrb header bs r =
    Returns header r
    × (r.status ≡ 0)
    × (r.actual_length ≡ as_u32 (length bs))
    × (r.transfer_buffer ≡ bs)
    × ((debug_asserts (ret_submit r) ≡ true)
        ↔ ((header.direction ≡ direction_in) ⊎ (as_u32 (length bs) ≡ 0)))

abbrev pub IsReturn : (RetSubmit → Type 0) → IoResult UsbIpResponse → Type 0
IsReturn P (ok (ret_submit r)) = P r
IsReturn P (ok (rep_devlist s n ds)) = ⊥
IsReturn P (ok (rep_import s d)) = ⊥
IsReturn P (ok (ret_unlink h s)) = ⊥
IsReturn P (err e) = ⊥
IsReturn P panic = ⊥

-- A result and the world after it, by what the handler of the endpoint did, if there is one: its data
-- are the answer, its error is answered as a failure, its panic ends the task, and an endpoint that the
-- device has not is answered as a failure.
abbrev pub Answers :
    {W : Type 0}
    → UsbIpHeaderBasic
    → W
    → Option (IoResult Bytes × W)
    → IoResult UsbIpResponse × W
    → Type 0
Answers header w none o = IsReturn (FailsUrb header) o.0 × (o.1 ≡ w)
Answers header w (some (ok bs, w')) o = IsReturn (SucceedsUrb header bs) o.0 × (o.1 ≡ w')
Answers header w (some (err e, w')) o = IsReturn (FailsUrb header) o.0 × (o.1 ≡ w')
Answers header w (some (panic, w')) o = (o.0 ≡ panic) × (o.1 ≡ w')

fail-FailsUrb :
    (header : UsbIpHeaderBasic)
    → IsReturn (FailsUrb header) (ok (submit_fail (record header { command = usbip_ret_submit })))
unfolding submit_fail debug_asserts
fail-FailsUrb header = (
  record { same_header = refl; no_packets = (refl, refl, refl) },
  (λ e. omega (arith, e)),
  refl,
  refl,
  elim (Bool-cases (header.direction == direction_in)) [ inl t ↦ rw t refl | inr f ↦ rw f refl ],
)

success-SucceedsUrb :
    (header : UsbIpHeaderBasic) (bs : Bytes)
    → IsReturn
        (SucceedsUrb header bs)
        (ok (submit_success (record header { command = usbip_ret_submit }) 0 0 bs []))
unfolding submit_success debug_asserts
success-SucceedsUrb header bs = (
  record { same_header = refl; no_packets = (refl, refl, refl) },
  refl,
  refl,
  refl,
  elim (Bool-cases (header.direction == direction_in)) [
    | inl t ↦ (
      (λ _. inl ((==_iff header.direction direction_in).0 t)),
      (λ _. rw (t, ==_refl (as_u32 (length bs))) refl),
    )
    | inr f ↦ (
      (λ e. inr ((==_iff (as_u32 (length bs)) 0).0 (rw f at e))),
      (λ h. elim h [
        | inl i ↦ cc ((==_iff header.direction direction_in).1 i)
        | inr z ↦ rw (f, z) refl
      ]),
    )
  ],
)

IsReturn-asserts :
    (P : RetSubmit → Type 0) (r : UsbIpResponse)
    → ((x : RetSubmit) → P x → debug_asserts (ret_submit x) ≡ true)
    → IsReturn P (ok r)
    → debug_asserts r ≡ true
IsReturn-asserts P (ret_submit r) f h = f r h
IsReturn-asserts P (rep_devlist s n ds) f h = absurd h
IsReturn-asserts P (rep_import s d) f h = absurd h
IsReturn-asserts P (ret_unlink x s) f h = absurd h

asserted :
    {W : Type 0} (header : UsbIpHeaderBasic) (w : W) (handled : Option (IoResult Bytes × W))
    (r : UsbIpResponse) (w' : W)
    → header.direction ≡ direction_in
    → Answers header w handled (ok r, w')
    → debug_asserts r ≡ true
asserted header w none r w' i a = IsReturn-asserts (FailsUrb header) r (λ x f. f.4) a.0
asserted header w (some (ok bs, w1)) r w' i a =
    IsReturn-asserts (SucceedsUrb header bs) r (λ x f. f.4.1 (inl i)) a.0
asserted header w (some (err e, w1)) r w' i a =
    IsReturn-asserts (FailsUrb header) r (λ x f. f.4) a.0
asserted header w (some (panic, w1)) r w' i a = cc

module _ {S W : Type 0} (k : Socket S) (hs : Handlers W) where
  answer_urb-Answers :
      (header : UsbIpHeaderBasic) (w : W) (r : IoResult Bytes × W)
      → Answers header w (some r) (answer_urb k hs (record header { command = usbip_ret_submit }) r)
  unfolding answer_urb
  answer_urb-Answers header w (ok bytes, w') = (success-SucceedsUrb header bytes, refl)
  answer_urb-Answers header w (err e, w') = (fail-FailsUrb header, refl)
  answer_urb-Answers header w (panic, w') = (refl, refl)

  -- What `handle_urb` does with a URB at the endpoint that was found, if one was.
  abbrev pub handled_at :
      UsbDevice
      → CmdSubmit
      → W
      → Option (UsbEndpoint × Option UsbInterface)
      → Option (IoResult Bytes × W)
  handled_at d c w none = none
  handled_at d c w (some (ep, intf)) =
      some (handle_urb hs d ep intf c.transfer_buffer_length (parse c.setup) c.payload w)

  abbrev pub handled : UsbDevice → CmdSubmit → W → Option (IoResult Bytes × W)
  handled d c w = handled_at d c w (find_ep d (as_u8 (real_ep c.header)))

  replied :
      (d : UsbDevice) (c : CmdSubmit) (w : W) (e : Option (UsbEndpoint × Option UsbInterface))
      → Answers c.header w (handled_at d c w e) (elim e [
        | none ↦ (ok (submit_fail (record c.header { command = usbip_ret_submit })), w)
        | some (ep, intf) ↦
            answer_urb k hs
              (record c.header { command = usbip_ret_submit })
              (handle_urb hs d ep intf c.transfer_buffer_length (parse c.setup) c.payload w)
      ])
  replied d c w none = (fail-FailsUrb c.header, refl)
  replied d c w (some (ep, intf)) =
      answer_urb-Answers c.header w
        (handle_urb hs d ep intf c.transfer_buffer_length (parse c.setup) c.payload w)

  -- Each URB is answered under its own header, with the command RET_SUBMIT and no isochronous
  -- packets: with status 0, the data of its handler and their length; as a failure without data, if
  -- the handler fails or the device has not the endpoint; a panic of the handler passes on. What a
  -- debug build asserts holds of a failure, and of data exactly for an IN transfer or a length of 0:
  -- for an OUT transfer the data of a handler are answered although the protocol has no place for
  -- them.
  pub submit_reply-Answers :
      (d : UsbDevice) (c : CmdSubmit) (w : W)
      → Answers c.header w (handled d c w) (submit_reply k hs d c w)
  unfolding submit_reply
  submit_reply-Answers d c w = replied d c w (find_ep d (as_u8 (real_ep c.header)))

  -- The length check of a debug build holds for each answer to a URB of an IN transfer.
  pub submit_reply_asserts :
      (d : UsbDevice) (c : CmdSubmit) (w : W) (r : UsbIpResponse)
      → c.header.direction ≡ direction_in
      → (submit_reply k hs d c w).0 ≡ ok r
      → debug_asserts r ≡ true
  submit_reply_asserts d c w r i e =
      asserted c.header w (handled d c w) r (submit_reply k hs d c w).1 i (
        subst (λ o. Answers c.header w (handled d c w) (o, (submit_reply k hs d c w).1)) e
          (submit_reply-Answers d c w))
