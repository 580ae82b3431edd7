-- ===== src/Wire/Frames.antt =====
-- The frames that pcsc/wire.go, `writeMessage`, puts on a connection, and `readMessage` of the fake
-- daemon, internal/pcscfake/pcscfake.go, which takes them off it. What a connection still brings is a
-- byte list.
use pcscid.Common.{
  ℕ, zero, suc, ◌^◌, ◌≤◌, false, List, [], ◌∷◌, ◌++◌, append_assoc, ◌≡◌, refl, ap, ◌∙◌, arith,
  Bytes, All, length, length-append, take, drop, take_of_append, drop_of_append, ltb, if◌then◌else◌,
  Result, ok, err, ◌>>=◌,
}
use pcscid.Wire.Words.{IsWord, uint32-put_uint32}
use pcscid.Wire.{put_uint32, uint32_at, write_message}

pub data FrameError : Type 0 where
  unexpected_end : FrameError
  oversized : ℕ → FrameError

-- `io.ReadFull` into a buffer of `n` bytes: those, and what is left.
unfoldable pub read_full : ℕ → Bytes → Result FrameError (Bytes × Bytes)
read_full n input =
    if ltb (length input) n then err unexpected_end else ok (take n input, drop n input)

-- The body behind the header.
unfoldable pub read_body : ℕ → ℕ → Bytes → Result FrameError ((ℕ × Bytes) × Bytes)
unfolding read_full
read_body size command input =
    if ltb (2 ^ 20) size
    then err (oversized size)
    else (do (body, rest) ← read_full size input; ok ((command, body), rest))

unfoldable pub read_message : Bytes → Result FrameError ((ℕ × Bytes) × Bytes)
unfolding read_full read_body
read_message input = do
  (head, rest) ← read_full 8 input
  read_body (uint32_at 0 head) (uint32_at 4 head) rest

-- Messages one after the other.
unfoldable pub write_messages : List (ℕ × Bytes) → Bytes
unfolding write_message
write_messages [] = []
write_messages ((command, body) ∷ ms) = write_message command body ++ write_messages ms

unfoldable pub read_messages : ℕ → Bytes → Result FrameError (List (ℕ × Bytes) × Bytes)
unfolding read_message
read_messages zero input = ok ([], input)
read_messages (suc n) input = do
  (m, rest) ← read_message input
  (ms, rest) ← read_messages n rest
  ok (m ∷ ms, rest)

read_full-append : (n : ℕ) (s rest : Bytes) → length s ≡ n → read_full n (s ++ rest) ≡ ok (s, rest)
unfolding read_full
read_full-append n s rest h =
    let enough : ltb (length (s ++ rest)) n ≡ false = ground (arith, length-append {0} s rest, h) in
    rw enough (λ i. ok (take_of_append n s rest h i, drop_of_append n s rest h i))

-- A command that is a word, and a body that the daemon takes.
abbrev pub IsMessage : ℕ × Bytes → Type 0
IsMessage m = IsWord m.0 × (length m.1 ≤ 2 ^ 20)

pub read-write_message :
    (command : ℕ) (body rest : Bytes)
    → IsMessage (command, body)
    → read_message (write_message command body ++ rest) ≡ ok ((command, body), rest)
unfolding read_message read_body write_message
read-write_message command body rest h =
    let head = put_uint32 (length body) ++ put_uint32 command in
    let size : uint32_at 0 head ≡ length body =
      uint32-put_uint32 (length body) (put_uint32 command) (omega (arith, h.1)) in
    let number : uint32_at 4 head ≡ command = uint32-put_uint32 command [] h.0 in
    let fits : ltb (2 ^ 20) (length body) ≡ false = ground (arith, h.1) in
    ap (λ r. r >>= (λ (head, rest). read_body (uint32_at 0 head) (uint32_at 4 head) rest))
      (read_full-append 8 head (body ++ rest) refl)
    ∙ (λ i. read_body (size i) (number i) (body ++ rest))
    ∙ rw fits (rw (read_full-append (length body) body rest refl) refl)

-- Messages whose commands are words and whose bodies have at most a mebibyte, written one after the
-- other, are read as they were written, whatever follows them, and what follows is left.
pub read-write_messages :
    (ms : List (ℕ × Bytes)) (rest : Bytes)
    → All IsMessage ms
    → read_messages (length ms) (write_messages ms ++ rest) ≡ ok (ms, rest)
unfolding read_messages write_messages
read-write_messages [] rest h = refl
read-write_messages ((command, body) ∷ ms) rest h =
    let more = write_messages ms ++ rest in
    ap (read_messages (suc (length ms)))
      (append_assoc (write_message command body) (write_messages ms) rest)
    ∙ rw (read-write_message command body more h.0, read-write_messages ms rest h.1) refl
