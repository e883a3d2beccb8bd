-- ===== src/Ipc/Framing/RoundTrip.antt =====
-- A reader gets back what a writer wrote.
use wireguide.Base.{
  ℕ, zero, suc, ◌+◌, ◌/◌, ◌%◌, ◌≤◌, ◌<◌, [], ◌∷◌, ◌++◌, ltb, ◌==◌, length, take, drop, ◌≡◌, refl,
  arith, ap, sym, ◌∙◌, Bool-cases, inl, inr, length-append, take-append, drop-append,
}
use wireguide.Base.Bytes.{Bytes}
use wireguide.Base.Result.{ok, OnOk, OnOk-apply}
use wireguide.Ipc.Framing.{
  max_frame_size, put_uint32, uint32, write_raw_frame, read_body, read_frame_raw,
}

uint32-digits :
    (n : ℕ)
    → n < 4294967296
    → uint32 (n / 16777216 % 256) (n / 65536 % 256) (n / 256 % 256) (n % 256) ≡ n
uint32-digits n h = omega arith

read_body-append :
    (message rest : Bytes)
    → 0 < length message
    → length message ≤ max_frame_size
    → read_body (length message) (message ++ rest) ≡ ok (message, rest)
unfolding read_body
read_body-append message rest some_byte fits =
    ground (arith, length-append message rest, take-append message rest, drop-append message rest)

abbrev ReadsBack : Bytes → Bytes → Bytes → Type 0
ReadsBack message rest frame = read_frame_raw (frame ++ rest) ≡ ok (message, rest)

write-OnOk :
    (message rest : Bytes)
    → 0 < length message
    → OnOk (ReadsBack message rest) (write_raw_frame [] message)
unfolding write_raw_frame read_frame_raw put_uint32
write-OnOk message rest some_byte = elim (Bool-cases (ltb max_frame_size (length message))) [
  | inl large ↦ rw large tt
  | inr fits ↦ rw fits (
      ap (λ n. read_body n (message ++ rest)) (uint32-digits (length message) (ground arith))
      ∙ read_body-append message rest some_byte (ground arith))
]

-- The frame that writeRawFrame writes for a non-empty message, with anything behind it, is read as
-- that message, with exactly what was behind it left to read.
pub write-read :
    (message rest frame : Bytes)
    → 0 < length message
    → write_raw_frame [] message ≡ ok frame
    → read_frame_raw (frame ++ rest) ≡ ok (message, rest)
write-read message rest frame some_byte written =
    OnOk-apply (ReadsBack message rest) (write_raw_frame [] message)
      (write-OnOk message rest some_byte) written

length-take-drop :
    (n : ℕ) (s : Bytes)
    → n ≤ length s
    → (length (take n s) ≡ n) × (length s ≡ n + length (drop n s))
length-take-drop zero s h = (refl, omega arith)
length-take-drop (suc n) [] h = absurd (omega arith)
length-take-drop (suc n) (x ∷ s) h =
    let (taken, left) = length-take-drop n s (omega arith) in (omega arith, omega arith)

take-drop : (n : ℕ) (s : Bytes) → take n s ++ drop n s ≡ s
take-drop zero s = refl
take-drop (suc n) [] = refl
take-drop (suc n) (x ∷ s) = ap (◌∷◌ x) (take-drop n s)

abbrev IsBody : ℕ → Bytes → Bytes × Bytes → Type 0
IsBody n stream (message, rest) =
    (0 < length message)
    × (length message ≤ max_frame_size)
    × (length message ≡ n)
    × (stream ≡ message ++ rest)

read_body-OnOk : (n : ℕ) (stream : Bytes) → OnOk (IsBody n stream) (read_body n stream)
unfolding read_body
read_body-OnOk n stream = elim (Bool-cases (ltb max_frame_size n)) [
  | inl large ↦ rw large tt
  | inr fits ↦ elim (Bool-cases (n == 0)) [
    | inl nothing ↦ rw (fits, nothing) tt
    | inr some_byte ↦ elim (Bool-cases (ltb (length stream) n)) [
      | inl short ↦ rw (fits, some_byte, short) tt
      | inr enough ↦
          let (taken, left) = length-take-drop n stream (ground arith) in
          rw (fits, some_byte, enough)
            (ground arith, ground arith, ground arith, sym (take-drop n stream))
    ]
  ]
]

-- Whatever the stream holds, a message that ReadFrameRaw returns has between one byte and the size
-- limit, and the stream was the message's length in four bytes, the message and what is left.
pub read-bounds :
    (stream message rest : Bytes)
    → read_frame_raw stream ≡ ok (message, rest)
    → (0 < length message)
      × (length message ≤ max_frame_size)
      × (a : ℕ) × (b : ℕ) × (c : ℕ) × (d : ℕ) × (uint32 a b c d ≡ length message)
      × (stream ≡ a ∷ b ∷ c ∷ d ∷ (message ++ rest))
unfolding read_frame_raw read_body
read-bounds (a ∷ b ∷ c ∷ d ∷ stream) message rest h =
    let (some_byte, fits, same, split) =
      OnOk-apply (IsBody (uint32 a b c d) stream) (read_body (uint32 a b c d) stream)
        (read_body-OnOk (uint32 a b c d) stream) h in
    (some_byte, fits, a, b, c, d, sym same, ap (λ x. a ∷ b ∷ c ∷ d ∷ x) split)
read-bounds _ message rest h = cc
