-- ===== src/Wire/Hostile.antt =====
-- What the client makes of answers that the daemon should never send.
use pcscid.Common.{
  ℕ, zero, suc, ◌≤◌, [], ◌∷◌, ◌≡◌, ◌≢◌, arith, inl, inr, Bytes, All, length, take, drop,
  length-take, Bool-cases, false,
}
use pcscid.Tags.{is_empty}
use pcscid.Wire.Messages.{attr_length, decode_getset}
use pcscid.Wire.States.{ReaderState, atr_length, decode_reader_state, decode_entries, decode_states}
use pcscid.Wire.{c_string, uint32_at}

-- A name that is there and fits its field, and an ATR that fits its field.
pub record IsBounded (s : ReaderState) : Type 0 where
  pub named : s.reader ≢ []
  pub name_short : length s.reader ≤ 128
  pub atr_short : length s.atr ≤ 33

length-c_string : (s : Bytes) → length (c_string s) ≤ length s
unfolding c_string
length-c_string [] = omega arith
length-c_string (c ∷ s) = ground (arith, length-c_string s)

atr_length-bound : (n : ℕ) → atr_length n ≤ 33
unfolding atr_length
atr_length-bound n = ground arith

attr_length-bound : (n : ℕ) → attr_length n ≤ 264
unfolding attr_length
attr_length-bound n = ground arith

decode-IsBounded :
    (raw : Bytes)
    → is_empty (decode_reader_state raw).reader ≡ false
    → IsBounded (decode_reader_state raw)
unfolding decode_reader_state is_empty
decode-IsBounded raw h = record {
  named = λ e. ground (arith, e);
  name_short = omega (arith, length-c_string (take 128 raw), length-take {0} 128 raw);
  atr_short = omega (
    arith,
    length-take {0} (atr_length (uint32_at 176 raw)) (drop 140 raw),
    atr_length-bound (uint32_at 176 raw),
  );
}

decode_entries-IsBounded :
    (n : ℕ) (raw : Bytes)
    → All IsBounded (decode_entries n raw) × (length (decode_entries n raw) ≤ n)
unfolding decode_entries
decode_entries-IsBounded zero raw = (tt, omega arith)
decode_entries-IsBounded (suc n) raw =
    let later = decode_entries-IsBounded n (drop 184 raw) in
    elim (Bool-cases (is_empty (decode_reader_state raw).reader)) [
      | inl blank ↦ rw blank (later.0, omega (arith, later.1))
      | inr named ↦ rw named ((decode-IsBounded raw named, later.0), omega (arith, later.1))
    ]

-- Whatever bytes the daemon sends, the client reads at most sixteen readers, each with a name of 1
-- to 128 bytes and an ATR of at most 33, and an attribute value of at most 264 bytes.
pub states-IsBounded :
    (raw message : Bytes)
    → All IsBounded (decode_states raw)
      × (length (decode_states raw) ≤ 16)
      × (length (decode_getset message).attr ≤ 264)
unfolding decode_states decode_getset
states-IsBounded raw message =
    let entries = decode_entries-IsBounded 16 raw in
    (
      entries.0,
      entries.1,
      omega (
        arith,
        length-take {0} (attr_length (uint32_at 272 message)) (drop 8 message),
        attr_length-bound (uint32_at 272 message),
      ),
    )
