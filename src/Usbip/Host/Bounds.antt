-- ===== src/Usbip/Host/Bounds.antt =====
-- The answers that usbip/src/host.rs passes on from libusb.
use Prim.Native.Nat.{bit_and}
use remote_yubikey_manager.Common.{
  ℕ, zero, suc, true, false, ◌≤◌, ◌≡◌, ◌≢◌, refl, sym, ap, [], ◌∷◌, ◌++◌, none, some, inl, inr,
  length, take, drop, length-take, replicate, length-replicate, le→leb, ◌==◌, ==_iff, Bool-cases,
  arith,
}
use remote_yubikey_manager.Common.Bytes.{Bytes}
use remote_yubikey_manager.Common.Outcome.{ok}
use remote_yubikey_manager.Usbip.Io.{IoResult}
use remote_yubikey_manager.Usbip.Consts.{
  EndpointAttributes, attributes_code, Direction, dir_in, dir_out,
}
use remote_yubikey_manager.Usbip.Endpoint.{UsbEndpoint, direction}
use remote_yubikey_manager.Usbip.Setup.{SetupPacket}
use remote_yubikey_manager.Usbip.Host.{
  DeviceHandle, Reading, Locked, released, answer, interface_transfer, host_interface_urb,
  host_device_urb,
}

-- A read keeps the size of its buffer, and reports no more bytes than it has.
abbrev pub Fills : {W : Type 0} → Bytes → Reading W → Type 0
Fills buffer (none, after, w) = length after ≡ length buffer
Fills buffer (some len, after, w) = (length after ≡ length buffer) × (len ≤ length buffer)

pub record IsBounded {W : Type 0} (h : DeviceHandle W) : Type 0 where
  pub read_control_fills :
      (setup : SetupPacket) (buffer : Bytes) (w : W) → Fills buffer (h.read_control setup buffer w)
  pub read_interrupt_fills :
      (ep : ℕ) (buffer : Bytes) (w : W) → Fills buffer (h.read_interrupt ep buffer w)
  pub read_bulk_fills : (ep : ℕ) (buffer : Bytes) (w : W) → Fills buffer (h.read_bulk ep buffer w)

-- An answer with exactly the bytes that the read reports, the front of its buffer, or with none for
-- one that failed; the lock is free afterwards.
abbrev pub Reports : {W : Type 0} → Reading W → IoResult Bytes × Locked W → Type 0
Reports (none, after, w) o = o ≡ (ok [], released w)
Reports (some len, after, w) o =
    (bs : Bytes) × (rest : Bytes) × (o ≡ (ok bs, released w))
    × (length bs ≡ len)
    × (after ≡ bs ++ rest)

-- An answer with at most that many bytes, no error and no panic, and a lock that is free afterwards.
abbrev pub FitsIn : {W : Type 0} → ℕ → IoResult Bytes × Locked W → Type 0
FitsIn n o = (bs : Bytes) × (o.0 ≡ ok bs) × (length bs ≤ n) × (o.1.poisoned ≡ false)

take-drop : (n : ℕ) (bs : Bytes) → take n bs ++ drop n bs ≡ bs
take-drop zero bs = refl
take-drop (suc n) [] = refl
take-drop (suc n) (b ∷ bs) = ap (λ l. b ∷ l) (take-drop n bs)

split-take :
    (n : ℕ) (bs : Bytes)
    → n ≤ length bs
    → (length (take n bs) ≡ n) × (rest : Bytes) × (bs ≡ take n bs ++ rest)
split-take n bs h = (length-take n bs h, drop n bs, sym (take-drop n bs))

module _ {W : Type 0} (h : DeviceHandle W) where
  module _ (ep : UsbEndpoint) (len : ℕ) (setup : SetupPacket) (req : Bytes) (w : W) where
    abbrev buffer : Bytes
    buffer = replicate len 0

    -- What a transfer passes on, by the kind of the endpoint and its direction: the read or the write
    -- of libusb of this kind, and nothing for another kind.
    pub data PassesOn (o : IoResult Bytes × Locked W) : Type 0 where
      control_in :
          ep.attributes ≡ attributes_code EndpointAttributes.control
          → direction ep ≡ dir_in
          → Reports (h.read_control setup buffer w) o
          → PassesOn o
      control_out :
          ep.attributes ≡ attributes_code EndpointAttributes.control
          → direction ep ≡ dir_out
          → o ≡ (ok [], released (h.write_control setup req w))
          → PassesOn o
      interrupt_in :
          ep.attributes ≡ attributes_code EndpointAttributes.interrupt
          → direction ep ≡ dir_in
          → Reports (h.read_interrupt ep.address buffer w) o
          → PassesOn o
      interrupt_out :
          ep.attributes ≡ attributes_code EndpointAttributes.interrupt
          → direction ep ≡ dir_out
          → o ≡ (ok [], released (h.write_interrupt ep.address req w))
          → PassesOn o
      bulk_in :
          ep.attributes ≡ attributes_code EndpointAttributes.bulk
          → direction ep ≡ dir_in
          → Reports (h.read_bulk ep.address buffer w) o
          → PassesOn o
      bulk_out :
          ep.attributes ≡ attributes_code EndpointAttributes.bulk
          → direction ep ≡ dir_out
          → o ≡ (ok [], released (h.write_bulk ep.address req w))
          → PassesOn o
      neither :
          ep.attributes ≢ attributes_code EndpointAttributes.control
          → ep.attributes ≢ attributes_code EndpointAttributes.interrupt
          → ep.attributes ≢ attributes_code EndpointAttributes.bulk
          → o ≡ (ok [], released w)
          → PassesOn o

module _ {W : Type 0} (h : DeviceHandle W) (b : IsBounded h) where
  answer-Reports : (given : Bytes) (r : Reading W) → Fills given r → Reports r (answer h r)
  unfolding answer
  answer-Reports given (none, after, w) f = refl
  answer-Reports given (some len, after, w) f =
      let fits : len ≤ length after = omega (arith, f.0, f.1) in
      let (size, rest, whole) = split-take len after fits in
      (take len after, rest, rw (le→leb len (length after) fits) refl, size, whole)

  answer-FitsIn : (n : ℕ) (r : Reading W) → Fills (replicate n 0) r → FitsIn n (answer h r)
  unfolding answer
  answer-FitsIn n (none, after, w) f = ([], refl, omega arith, refl)
  answer-FitsIn n (some len, after, w) f =
      let size = length-replicate {A = ℕ} n 0 in
      let fits : len ≤ length after = omega (arith, f.0, f.1) in
      (
        take len after,
        rw (le→leb len (length after) fits) refl,
        omega (arith, (split-take len after fits).0, f.1, size),
        rw (le→leb len (length after) fits) refl,
      )

  none-FitsIn : (n : ℕ) (w : W) → FitsIn {W = W} n (ok [], released w)
  none-FitsIn n w = ([], refl, omega arith, refl)

  module _ (ep : UsbEndpoint) (len : ℕ) (setup : SetupPacket) (req : Bytes) (w : W) where
    abbrev Passed : IoResult Bytes × Locked W → Type 0
    Passed o = FitsIn len o × PassesOn h ep len setup req w o

    by_direction :
        (d : Direction) (r : Reading W) (w' : W)
        → direction ep ≡ d
        → Fills (replicate len 0) r
        → ((o : IoResult Bytes × Locked W)
            → direction ep ≡ dir_in
            → Reports r o
            → PassesOn h ep len setup req w o)
        → ((o : IoResult Bytes × Locked W)
            → direction ep ≡ dir_out
            → o ≡ (ok [], released w')
            → PassesOn h ep len setup req w o)
        → Passed (elim d [ dir_in ↦ answer h r | dir_out ↦ (ok [], released w') ])
    by_direction dir_in r w' e f reads writes =
        (answer-FitsIn len r f, reads (answer h r) e (answer-Reports (replicate len 0) r f))
    by_direction dir_out r w' e f reads writes =
        (none-FitsIn len w', writes (ok [], released w') e refl)

    abbrev code : EndpointAttributes → ℕ
    code = attributes_code

    same : (a : EndpointAttributes) → (ep.attributes == code a) ≡ true → ep.attributes ≡ code a
    same a t = (==_iff ep.attributes (code a)).0 t

    differs : (a : EndpointAttributes) → (ep.attributes == code a) ≡ false → ep.attributes ≢ code a
    differs a f e = cc ((==_iff ep.attributes (code a)).1 e)

    transfer-Passed : Passed (interface_transfer h ep (replicate len 0) setup req w)
    unfolding interface_transfer
    transfer-Passed = elim (Bool-cases (ep.attributes == code EndpointAttributes.control)) [
      | inl t ↦ rw t (
          by_direction (direction ep) _ _ refl (b.read_control_fills setup (replicate len 0) w)
            (λ o. control_in (same EndpointAttributes.control t))
            (λ o. control_out (same EndpointAttributes.control t)))
      | inr f ↦ elim (Bool-cases (ep.attributes == code EndpointAttributes.interrupt)) [
        | inl t ↦
            rw (f, t)
              (by_direction (direction ep) _ _ refl
                (b.read_interrupt_fills ep.address (replicate len 0) w)
                (λ o. interrupt_in (same EndpointAttributes.interrupt t))
                (λ o. interrupt_out (same EndpointAttributes.interrupt t)))
        | inr g ↦ elim (Bool-cases (ep.attributes == code EndpointAttributes.bulk)) [
          | inl t ↦
              rw (f, g, t)
                (by_direction (direction ep) _ _ refl
                  (b.read_bulk_fills ep.address (replicate len 0) w)
                  (λ o. bulk_in (same EndpointAttributes.bulk t))
                  (λ o. bulk_out (same EndpointAttributes.bulk t)))
          | inr i ↦
              rw (f, g, i)
                (
                  none-FitsIn len w,
                  neither (differs EndpointAttributes.control f)
                      (differs EndpointAttributes.interrupt g) (differs EndpointAttributes.bulk i)
                      refl,
                )
        ]
      ]
    ]

  -- With a handle whose lock is not poisoned, a transfer to an endpoint of a host device passes on the
  -- read or the write of libusb for the kind of the endpoint and its direction, and nothing for
  -- another kind. A read is answered with exactly the bytes that it reports, the front of its buffer,
  -- which are no more than the URB has room for, and a failed one with none. There is no error and no
  -- panic, and the lock is free afterwards, if libusb reports no more bytes than its buffer has.
  pub host_interface_urb-FitsIn :
      (ep : UsbEndpoint) (len : ℕ) (setup : SetupPacket) (req : Bytes) (w : W)
      → FitsIn len (host_interface_urb h ep len setup req (released w))
        × PassesOn h ep len setup req w (host_interface_urb h ep len setup req (released w))
  unfolding host_interface_urb
  host_interface_urb-FitsIn ep len setup req w = transfer-Passed ep len setup req w

  pub host_device_urb-FitsIn :
      (len : ℕ) (setup : SetupPacket) (req : Bytes) (w : W)
      → FitsIn len (host_device_urb h len setup req (released w))
  unfolding host_device_urb
  host_device_urb-FitsIn len setup req w =
      elim (Bool-cases (bit_and setup.request_type 0x80 == 0)) [
        | inl t ↦ rw t (none-FitsIn len (h.write_control setup req w))
        | inr f ↦ rw f (
            answer-FitsIn len (h.read_control setup (replicate len 0) w)
              (b.read_control_fills setup (replicate len 0) w))
      ]
