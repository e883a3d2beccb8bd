-- ===== src/Ipc/Framing.antt =====
-- internal/ipc/framing.go: length-prefixed messages. A writer is the list of the bytes written to it;
-- a reader is the bytes that are still to come before the stream ends.
pub mod RoundTrip
use wireguide.Base.{
  ℕ, ◌+◌, ◌*◌, ◌/◌, ◌%◌, Bool, List, [], ◌∷◌, ◌++◌, if◌then◌else◌, ltb, ◌==◌, length, take, drop,
}
use wireguide.Base.Bytes.{Bytes}
use wireguide.Base.Result.{Result, ok, err}

pub data FrameError : Type 0 where
  too_large empty_frame short_header short_body : FrameError

abbrev pub max_frame_size : ℕ
max_frame_size = 1024 * 1024

-- binary.BigEndian.PutUint32, on a number below 2 ^ 32
unfoldable pub put_uint32 : ℕ → Bytes
put_uint32 n = n / 16777216 % 256 ∷ n / 65536 % 256 ∷ n / 256 % 256 ∷ n % 256 ∷ []

abbrev pub uint32 : ℕ → ℕ → ℕ → ℕ → ℕ
uint32 a b c d = a * 16777216 + b * 65536 + c * 256 + d

-- writeRawFrame: the writer afterwards, where the write succeeds
unfoldable pub write_raw_frame : Bytes → Bytes → Result FrameError Bytes
unfolding put_uint32
write_raw_frame written message =
    if ltb max_frame_size (length message)
    then err too_large
    else ok (written ++ (put_uint32 (length message) ++ message))

-- the body, behind its length
unfoldable pub read_body : ℕ → Bytes → Result FrameError (Bytes × Bytes)
read_body n stream =
    if ltb max_frame_size n
    then err too_large
    else if n == 0
    then err empty_frame
    else if ltb (length stream) n
    then err short_body
    else ok (take n stream, drop n stream)

-- ReadFrameRaw: the message, and what is left to read
unfoldable pub read_frame_raw : Bytes → Result FrameError (Bytes × Bytes)
unfolding read_body
read_frame_raw (a ∷ b ∷ c ∷ d ∷ stream) = read_body (uint32 a b c d) stream
read_frame_raw _ = err short_header
