-- ===== src/Wire/States/Agreement.antt =====
-- The client reads the reader states that the fake daemon writes.
use pcscid.Common.{
  ℕ, zero, suc, ◌≤◌, true, false, List, [], ◌∷◌, ◌++◌, append_assoc, map, ◌≡◌, ◌≢◌, refl, ap, ◌∙◌,
  arith, Bytes, All, length, take, drop, replicate, take_of_append, take-append, length-take,
  drop_of_append, length-append,
}
use pcscid.Tags.{is_empty}
use pcscid.Wire.Messages.RoundTrip.{word, word_past}
use pcscid.Wire.States.{
  ReaderState, FakeReader, atr_length, decode_reader_state, decode_entries, decode_states,
  fake_state, fake_protocol, encode_reader_state, encode_entries, encode_states,
}
use pcscid.Wire.Words.{IsWord, NoZero, length-buffer, c_string-buffer, drop_past, buffer_prefix}
use pcscid.Wire.{put_uint32, uint32, c_string, buffer, max_readers}

-- A name that is a C string with at least one byte and fits its field, a counter that is a word,
-- and an ATR that fits its field.
pub record IsShown (r : FakeReader) : Type 0 where
  pub named : r.name ≢ []
  pub name_text : NoZero r.name
  pub name_short : length r.name ≤ 128
  pub counter_word : IsWord r.event_counter
  pub atr_short : length r.atr ≤ 33

-- What the client is to see of a reader.
abbrev pub shown : FakeReader → ReaderState
shown r = record {
  reader = r.name;
  event_counter = r.event_counter;
  state = fake_state r;
  atr = r.atr;
  protocol = fake_protocol r;
}

module _ (r : FakeReader) (rest : Bytes) (h : IsShown r) where
  -- What stands behind the ATR field, and behind the name.
  tail : Bytes
  tail =
      replicate 3 0
      ++ (put_uint32 (length (take 33 r.atr)) ++ (put_uint32 (fake_protocol r) ++ rest))

  behind : Bytes
  behind =
      put_uint32 r.event_counter
      ++ (put_uint32 (fake_state r) ++ (put_uint32 0 ++ (buffer 33 r.atr ++ tail)))

  encode-split : encode_reader_state r ++ rest ≡ buffer 128 r.name ++ behind
  unfolding encode_reader_state behind tail
  encode-split = simp append_assoc

  atr_length-shown : atr_length (length (take 33 r.atr)) ≡ length r.atr
  unfolding atr_length
  atr_length-shown = ground (arith, length-take 33 r.atr, h.atr_short)

  decode-encode_reader_state : decode_reader_state (encode_reader_state r ++ rest) ≡ shown r
  unfolding decode_reader_state behind tail
  decode-encode_reader_state =
      let f = buffer 128 r.name in
      let l = length-buffer 128 r.name in
      let g = buffer 33 r.atr in
      let k = length-buffer 33 r.atr in
      let len = length (take 33 r.atr) in
      let claimed : uint32 (drop 176 (f ++ behind)) ≡ len = word_past 48 len f behind l (
        word_past 3 len g tail k
          (word len (omega (arith, length-take {0} 33 r.atr, h.atr_short)))) in
      let size = ap atr_length claimed ∙ atr_length-shown in
      ap decode_reader_state encode-split ∙ λ i. record {
        reader =
            (ap c_string (take_of_append 128 f behind l)
                ∙ c_string-buffer 128 r.name h.name_text h.name_short)
              i;
        event_counter =
            word_past 0 r.event_counter f behind l (word r.event_counter h.counter_word) i;
        state = word_past 4 (fake_state r) f behind l (word (fake_state r) state_word) i;
        atr =
            (ap (λ n. take n (drop 140 (f ++ behind))) size
                ∙ ap (take (length r.atr)) (drop_past 12 f behind l)
                ∙ take-append (length r.atr) g tail (omega (arith, k, h.atr_short))
                ∙ buffer_prefix 33 r.atr h.atr_short)
              i;
        protocol =
            word_past 52 (fake_protocol r) f behind l
              (word_past 7 (fake_protocol r) g tail k (word (fake_protocol r) protocol_word)) i;
      }
    where
      state_word : IsWord (fake_state r)
      state_word = unfold fake_state in ground arith

      protocol_word : IsWord (fake_protocol r)
      protocol_word = unfold fake_protocol in ground arith

pub length-encode_reader_state : (r : FakeReader) → length (encode_reader_state r) ≡ 184
unfolding encode_reader_state
length-encode_reader_state r = omega (
  arith,
  length-append {0} (buffer 128 r.name) (
      put_uint32 r.event_counter
      ++ (put_uint32 (fake_state r)
          ++ (put_uint32 0
              ++ (buffer 33 r.atr
                  ++ (replicate 3 0
                      ++ (put_uint32 (length (take 33 r.atr)) ++ put_uint32 (fake_protocol r))))))),
  length-append {0} (buffer 33 r.atr)
      (replicate 3 0 ++ (put_uint32 (length (take 33 r.atr)) ++ put_uint32 (fake_protocol r))),
  length-buffer 128 r.name,
  length-buffer 33 r.atr,
)

blank_entry :
    (rest : Bytes) → is_empty (decode_reader_state (replicate 184 0 ++ rest)).reader ≡ true
unfolding decode_reader_state c_string is_empty
blank_entry rest = refl

decode_entries_skip :
    (n : ℕ) (raw : Bytes)
    → is_empty (decode_reader_state raw).reader ≡ true
    → decode_entries (suc n) raw ≡ decode_entries n (drop 184 raw)
unfolding decode_entries
decode_entries_skip n raw e = rw e refl

decode_entries_take :
    (n : ℕ) (raw : Bytes)
    → is_empty (decode_reader_state raw).reader ≡ false
    → decode_entries (suc n) raw ≡ decode_reader_state raw ∷ decode_entries n (drop 184 raw)
unfolding decode_entries
decode_entries_take n raw e = rw e refl

not-is_empty : (s : Bytes) → s ≢ [] → is_empty s ≡ false
unfolding is_empty
not-is_empty [] ne = absurd (ne refl)
not-is_empty (c ∷ s) ne = refl

take_nil : (n : ℕ) → take {A = FakeReader} n [] ≡ []
take_nil zero = refl
take_nil (suc n) = refl

decode-encode_entries :
    (n : ℕ) (rs : List FakeReader)
    → All IsShown rs
    → decode_entries n (encode_entries n rs) ≡ map shown (take n rs)
unfolding encode_entries
decode-encode_entries zero rs h = unfold decode_entries in refl
decode-encode_entries (suc n) [] h =
    let more = encode_entries n [] in
    decode_entries_skip n (replicate 184 0 ++ more) (blank_entry more)
    ∙ ap (decode_entries n) (drop_of_append 184 (replicate 184 0) more refl)
    ∙ decode-encode_entries n [] tt
    ∙ ap (map shown) (take_nil n)
decode-encode_entries (suc n) (r ∷ rs) h =
    let more = encode_entries n rs in
    let first = decode-encode_reader_state r more h.0 in
    decode_entries_take n (encode_reader_state r ++ more)
      (ap (λ (s : ReaderState). is_empty s.reader) first ∙ not-is_empty r.name h.0.named)
    ∙ (λ i.
        first i
        ∷ decode_entries n
            (drop_of_append 184 (encode_reader_state r) more (length-encode_reader_state r) i))
    ∙ ap (◌∷◌ (shown r)) (decode-encode_entries n rs h.1)

-- Of any readers whose names are C strings of 1 to 128 bytes, whose counters are words and whose
-- ATRs have at most 33 bytes, the client reads exactly the first sixteen, each as the daemon holds
-- it, and no entry for the padding.
pub decode-encode_states :
    (rs : List FakeReader)
    → All IsShown rs
    → decode_states (encode_states rs) ≡ map shown (take 16 rs)
unfolding decode_states encode_states
decode-encode_states rs h = decode-encode_entries max_readers rs h
