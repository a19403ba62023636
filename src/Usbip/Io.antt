-- ===== src/Usbip/Io.antt =====
-- `std::io::Error` as the program builds it and tests it, and the byte stream of a connection
-- (`AsyncReadExt` and `AsyncWriteExt` of tokio), which is a parameter of all that uses it.
use remote_yubikey_manager.Common.{ℕ, ◌+◌, ◌<◌, ◌≡◌, ◌++◌, length}
use remote_yubikey_manager.Common.Bytes.{Bytes, IsU16, IsU32, u16_to_be_bytes, u32_to_be_bytes}
use remote_yubikey_manager.Common.Text.{Text}
use remote_yubikey_manager.Common.Outcome.{Outcome, ok, err, panic}

pub data ErrorKind : Type 0 where
  unexpected_eof other not_found invalid_input : ErrorKind
  transport : ℕ → ErrorKind

-- An error with the value that its message holds. `io` is an error of the stream itself.
pub data IoError : Type 0 where
  unknown_version unknown_command invalid_string_index : ℕ → IoError
  device_in_use device_not_found : Text → IoError
  io : ErrorKind → IoError

unfoldable pub kind : IoError → ErrorKind
kind (unknown_version v) = other
kind (unknown_command c) = other
kind (invalid_string_index i) = invalid_input
kind (device_in_use b) = other
kind (device_not_found b) = not_found
kind (io k) = k

abbrev pub IoResult {ℓ} : Type ℓ → Type ℓ
IoResult A = Outcome IoError A

-- The calls that the program makes on a connection.
pub record Socket (S : Type 0) : Type 0 where
  pub read_u16 : S → IoResult (ℕ × S)
  pub read_u32 : S → IoResult (ℕ × S)
  pub read_exact : ℕ → S → IoResult (Bytes × S)
  pub write_all : Bytes → S → IoResult S

-- What tokio documents of the readers: integers are big-endian, a read takes as many bytes as it
-- returns, and one that meets the end of the stream first fails with `UnexpectedEof`.
-- `incoming` is what the peer has sent and nobody has read; `feed bs s` is `s` with that set to `bs`.
pub record IsStream {S : Type 0} (k : Socket S) : Type 0 where
  pub incoming : S → Bytes
  pub feed : Bytes → S → S
  pub feed_incoming : (s : S) → feed (incoming s) s ≡ s
  pub incoming-feed : (bs : Bytes) (s : S) → incoming (feed bs s) ≡ bs
  pub read_u16_lem :
      (v : ℕ) (rest : Bytes) (s : S)
      → IsU16 v
      → k.read_u16 (feed (u16_to_be_bytes v ++ rest) s) ≡ ok (v, feed rest s)
  pub read_u32_lem :
      (v : ℕ) (rest : Bytes) (s : S)
      → IsU32 v
      → k.read_u32 (feed (u32_to_be_bytes v ++ rest) s) ≡ ok (v, feed rest s)
  pub read_exact_lem :
      (front rest : Bytes) (s : S)
      → k.read_exact (length front) (feed (front ++ rest) s) ≡ ok (front, feed rest s)
  pub read_u16_eof :
      (bs : Bytes) (s : S) → length bs < 2 → k.read_u16 (feed bs s) ≡ err (io unexpected_eof)
  pub read_u16_takes :
      (s s' : S) (v : ℕ)
      → k.read_u16 s ≡ ok (v, s')
      → length (incoming s') + 2 ≡ length (incoming s)
  pub read_u32_takes :
      (s s' : S) (v : ℕ)
      → k.read_u32 s ≡ ok (v, s')
      → length (incoming s') + 4 ≡ length (incoming s)
  pub read_exact_takes :
      (n : ℕ) (s s' : S) (bs : Bytes)
      → k.read_exact n s ≡ ok (bs, s')
      → (length bs ≡ n) × (length (incoming s') + n ≡ length (incoming s))

-- Writes do not touch what the peer has sent: the two directions of a connection are apart.
abbrev pub IsDuplex : {S : Type 0} (k : Socket S) → IsStream k → Type 0
IsDuplex {S} k l = (bs : Bytes) (s s' : S) → k.write_all bs s ≡ ok s' → l.incoming s' ≡ l.incoming s

abbrev pub Reader : Type 0 → Type 0 → Type 0
Reader S A = S → IoResult (A × S)

infixl 5 ◌>>=◌
abbrev pub ◌>>=◌ : {S A B : Type 0} → Reader S A → (A → Reader S B) → Reader S B
◌>>=◌ m f s = elim (m s) [ ok (a, s') ↦ f a s' | err e ↦ err e | panic ↦ panic ]

abbrev pub pure : {S A : Type 0} → A → Reader S A
pure a s = ok (a, s)

abbrev pub fail : {S A : Type 0} → IoError → Reader S A
fail e s = err e
