-- ===== src/Wire/States.antt =====
-- pcsc/wire.go, `decodeReaderState`, and the loop of `states` in pcsc/ipc.go; beside them the
-- encoder of the fake daemon, internal/pcscfake/pcscfake.go, written independently of it.
pub mod Agreement
use pcscid.Common.{
  ℕ, zero, suc, ◌+◌, ◌-◌, ◌*◌, Bool, true, false, List, [], ◌∷◌, ◌++◌, Bytes, length, take, drop,
  replicate, ltb, if◌then◌else◌,
}
use pcscid.Tags.{is_empty}
use pcscid.Wire.{
  put_uint32, uint32, uint32_at, c_string, buffer, max_readers, reader_state_wire_sz, max_atr_size,
}

-- pcsc/pcsc.go
pub record ReaderState : Type 0 where
  pub reader : Bytes
  pub event_counter : ℕ
  pub state : ℕ
  pub atr : Bytes
  pub protocol : ℕ

-- A claimed length beyond the field counts as none.
unfoldable pub atr_length : ℕ → ℕ
atr_length claimed = if ltb max_atr_size claimed then 0 else claimed

unfoldable pub decode_reader_state : Bytes → ReaderState
unfolding uint32 atr_length
decode_reader_state buf = record {
  reader = c_string (take 128 buf);
  event_counter = uint32_at 128 buf;
  state = uint32_at 132 buf;
  atr = take (atr_length (uint32_at 176 buf)) (drop 140 buf);
  protocol = uint32_at 180 buf;
}

-- The loop over the entries left: those without a name are skipped.
unfoldable pub decode_entries : ℕ → Bytes → List ReaderState
unfolding decode_reader_state is_empty
decode_entries zero raw = []
decode_entries (suc n) raw =
    let entry = decode_reader_state raw in
    let rest = decode_entries n (drop reader_state_wire_sz raw) in
    if is_empty entry.reader then rest else entry ∷ rest

unfoldable pub decode_states : Bytes → List ReaderState
unfolding decode_entries
decode_states raw = decode_entries max_readers raw

-- A reader of the fake daemon: its name, and what a state entry shows of it.
pub record FakeReader : Type 0 where
  pub name : Bytes
  pub atr : Bytes
  pub present : Bool
  pub event_counter : ℕ

abbrev pub state_absent : ℕ
state_absent = 0x0002

-- `statePresent | 0x0010 | 0x0020 | 0x0040`
abbrev pub state_present_bits : ℕ
state_present_bits = 0x0074

unfoldable pub fake_state : FakeReader → ℕ
fake_state r = if r.present then state_present_bits else state_absent

unfoldable pub fake_protocol : FakeReader → ℕ
fake_protocol r = if r.present then 2 else 0

-- `encodeReaderStateInto` on a zeroed entry, for a name that fits its field: the sharing word and
-- the three bytes of padding stay zero.
unfoldable pub encode_reader_state : FakeReader → Bytes
unfolding fake_state fake_protocol
encode_reader_state r =
    buffer 128 r.name
    ++ (put_uint32 r.event_counter
        ++ (put_uint32 (fake_state r)
            ++ (put_uint32 0
                ++ (buffer max_atr_size r.atr
                    ++ (replicate 3 0
                        ++ (put_uint32 (length (take max_atr_size r.atr))
                            ++ put_uint32 (fake_protocol r)))))))

-- `encodeStatesLocked` over the readers in the order of their names: entries beyond `n` are left
-- out, and the array is padded with zero entries.
unfoldable pub encode_entries : ℕ → List FakeReader → Bytes
unfolding encode_reader_state
encode_entries zero rs = []
encode_entries (suc n) [] = replicate 184 0 ++ encode_entries n []
encode_entries (suc n) (r ∷ rs) = encode_reader_state r ++ encode_entries n rs

unfoldable pub encode_states : List FakeReader → Bytes
unfolding encode_entries
encode_states rs = encode_entries max_readers rs
