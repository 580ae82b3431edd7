-- ===== src/Wire.antt =====
-- pcsc/wire.go: little endian words, frames and C strings of the pcscd protocol.
pub mod Words
pub mod Messages
pub mod States
pub mod Frames
pub mod Hostile
use pcscid.Common.{
  ℕ, zero, suc, ◌+◌, ◌*◌, ◌/◌, ◌%◌, List, [], ◌∷◌, ◌++◌, Bytes, length, take, drop, replicate, ◌==◌,
  if◌then◌else◌,
}

-- `binary.LittleEndian.PutUint32`
abbrev pub put_uint32 : ℕ → Bytes
put_uint32 n = n % 256 ∷ n / 256 % 256 ∷ n / 65536 % 256 ∷ n / 16777216 % 256 ∷ []

-- `binary.LittleEndian.Uint32` on the first four bytes. Every caller slices a message of a fixed
-- size, so the last case, a panic in Go, is not met.
unfoldable pub uint32 : Bytes → ℕ
uint32 (a ∷ b ∷ c ∷ d ∷ rest) = a + 256 * b + 65536 * c + 16777216 * d
uint32 _ = 0

-- The word at an offset.
abbrev pub uint32_at : ℕ → Bytes → ℕ
uint32_at offset b = uint32 (drop offset b)

unfoldable pub pack_le : List ℕ → Bytes
pack_le [] = []
pack_le (field ∷ fields) = put_uint32 field ++ pack_le fields

-- What `writeMessage` writes: the size, the command and the body.
unfoldable pub write_message : ℕ → Bytes → Bytes
write_message command body = put_uint32 (length body) ++ (put_uint32 command ++ body)

-- `cString`: the bytes before the first zero byte, or all of them.
unfoldable pub c_string : Bytes → Bytes
c_string [] = []
c_string (c ∷ s) = if c == 0 then [] else c ∷ c_string s

-- A zeroed buffer of `n` bytes with `s` copied into it: what does not fit is left out.
unfoldable pub buffer : ℕ → Bytes → Bytes
buffer n s = take n (s ++ replicate n 0)

abbrev pub max_reader_name : ℕ
max_reader_name = 128

abbrev pub max_readers : ℕ
max_readers = 16

abbrev pub reader_state_wire_sz : ℕ
reader_state_wire_sz = 184

abbrev pub max_attr_size : ℕ
max_attr_size = 264

abbrev pub max_atr_size : ℕ
max_atr_size = 33

abbrev pub max_buffer_size : ℕ
max_buffer_size = 264
