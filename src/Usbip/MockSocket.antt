-- ===== src/Usbip/MockSocket.antt =====
-- `MockSocket` of usbip/src/util.rs, a connection whose peer has sent all that it will send, with
-- the readers and the writer that tokio derives for it. It shows that `IsStream` can be met.
use remote_yubikey_manager.Common.{
  ℕ, ◌+◌, ◌≤◌, ◌<◌, ◌≡◌, refl, sym, ap, [], ◌∷◌, ◌++◌, arith, length, take, drop, length-take,
  length-drop, length-append, take-length-append, drop-length-append, leb, leb→le, le→leb,
  if◌then◌else◌,
}
use remote_yubikey_manager.Common.Bytes.{
  Bytes, IsU16, IsU32, u16_to_be_bytes, u32_to_be_bytes, u16_from_be_bytes, u32_from_be_bytes,
}
use remote_yubikey_manager.Common.Outcome.{ok, err}
use remote_yubikey_manager.Usbip.Io.{IoResult, io, unexpected_eof, Socket, IsStream, IsDuplex}

pub record MockSocket : Type 0 where
  pub input : Bytes
  pub output : Bytes

unfoldable pub new : Bytes → MockSocket
new input = record { input = input; output = [] }

unfoldable pub take_u16 : Bytes → Bytes → IoResult (ℕ × MockSocket)
take_u16 (a ∷ b ∷ rest) output =
    ok (u16_from_be_bytes a b, record { input = rest; output = output })
take_u16 (a ∷ []) output = err (io unexpected_eof)
take_u16 [] output = err (io unexpected_eof)

unfoldable pub take_u32 : Bytes → Bytes → IoResult (ℕ × MockSocket)
take_u32 (a ∷ b ∷ c ∷ d ∷ rest) output =
    ok (u32_from_be_bytes a b c d, record { input = rest; output = output })
take_u32 (a ∷ b ∷ c ∷ []) output = err (io unexpected_eof)
take_u32 (a ∷ b ∷ []) output = err (io unexpected_eof)
take_u32 (a ∷ []) output = err (io unexpected_eof)
take_u32 [] output = err (io unexpected_eof)

unfoldable pub read_exact : ℕ → MockSocket → IoResult (Bytes × MockSocket)
read_exact n s =
    if leb n (length s.input)
    then ok (take n s.input, record s { input = drop n s.input })
    else err (io unexpected_eof)

abbrev pub mock : Socket MockSocket
unfolding take_u16 take_u32 read_exact
mock = record {
  read_u16 = λ s. take_u16 s.input s.output;
  read_u32 = λ s. take_u32 s.input s.output;
  read_exact = read_exact;
  write_all = λ out s. ok (record s { output = s.output ++ out });
}

pub read_exact_lem :
    (front rest : Bytes) (s : MockSocket)
    → read_exact (length front) (record s { input = front ++ rest })
      ≡ ok (front, record s { input = rest })
unfolding read_exact
read_exact_lem front rest s =
    let fits : length front ≤ length (front ++ rest) = omega (arith, length-append front rest) in
    rw (le→leb _ _ fits, take-length-append front rest, drop-length-append front rest)

pub read_exact_takes :
    (n : ℕ) (s s' : MockSocket) (bs : Bytes)
    → read_exact n s ≡ ok (bs, s')
    → (length bs ≡ n) × (length s'.input + n ≡ length s.input)
unfolding read_exact
read_exact_takes n s s' bs h =
    ground (arith, leb→le n (length s.input), length-take n s.input, length-drop n s.input)

pub take_u16_takes :
    (input output : Bytes) (s' : MockSocket) (v : ℕ)
    → take_u16 input output ≡ ok (v, s')
    → length s'.input + 2 ≡ length input
unfolding take_u16
take_u16_takes (a ∷ b ∷ rest) output s' v h = ground arith
take_u16_takes (a ∷ []) output s' v h = cc
take_u16_takes [] output s' v h = cc

pub take_u32_takes :
    (input output : Bytes) (s' : MockSocket) (v : ℕ)
    → take_u32 input output ≡ ok (v, s')
    → length s'.input + 4 ≡ length input
unfolding take_u32
take_u32_takes (a ∷ b ∷ c ∷ d ∷ rest) output s' v h = ground arith
take_u32_takes (a ∷ b ∷ c ∷ []) output s' v h = cc
take_u32_takes (a ∷ b ∷ []) output s' v h = cc
take_u32_takes (a ∷ []) output s' v h = cc
take_u32_takes [] output s' v h = cc

pub take_u16_eof :
    (bs output : Bytes) → length bs < 2 → take_u16 bs output ≡ err (io unexpected_eof)
unfolding take_u16
take_u16_eof (a ∷ b ∷ rest) output h = absurd (omega arith)
take_u16_eof (a ∷ []) output h = refl
take_u16_eof [] output h = refl

pub take_u16_lem :
    (v : ℕ) (rest output : Bytes)
    → IsU16 v
    → take_u16 (u16_to_be_bytes v ++ rest) output ≡ ok (v, record { input = rest; output = output })
unfolding take_u16 u16_to_be_bytes u16_from_be_bytes
take_u16_lem v rest output h = ground arith

pub take_u32_lem :
    (v : ℕ) (rest output : Bytes)
    → IsU32 v
    → take_u32 (u32_to_be_bytes v ++ rest) output ≡ ok (v, record { input = rest; output = output })
unfolding take_u32 u32_to_be_bytes u32_from_be_bytes
take_u32_lem v rest output h = ground arith

-- The mock meets what the program relies on in a connection.
abbrev pub mock-IsStream : IsStream mock
unfolding take_u16 take_u32 read_exact
mock-IsStream = record {
  incoming = λ s. s.input;
  feed = λ bs s. record s { input = bs };
  feed_incoming = λ s. refl;
  incoming-feed = λ bs s. refl;
  read_u16_lem = λ v rest s h. take_u16_lem v rest s.output h;
  read_u32_lem = λ v rest s h. take_u32_lem v rest s.output h;
  read_exact_lem = λ front rest s. read_exact_lem front rest s;
  read_u16_eof = λ bs s h. take_u16_eof bs s.output h;
  read_u16_takes = λ s s' v h. take_u16_takes s.input s.output s' v h;
  read_u32_takes = λ s s' v h. take_u32_takes s.input s.output s' v h;
  read_exact_takes = λ n s s' bs h. read_exact_takes n s s' bs h;
}

ok-injective : {a b : MockSocket} → Path (IoResult MockSocket) (ok a) (ok b) → a ≡ b
ok-injective e = cc

pub mock-IsDuplex : IsDuplex mock mock-IsStream
unfolding mock mock-IsStream
mock-IsDuplex bs s s' h =
    let same : record s { output = s.output ++ bs } ≡ s' = ok-injective h in
    ap (λ t. t.input) (sym same)
