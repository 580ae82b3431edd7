-- ===== src/Examples/Sessions.antt =====
-- The unit registry and the wire messages at concrete inputs.
use pcscid.Wire.Frames.{IsMessage, read_messages, write_messages, read-write_messages}
use pcscid.Common.{
  ℕ, ◌++◌, ok, ◌*◌, ◌≤◌, true, List, [], ◌∷◌, none, some, ◌≡◌, ◌≢◌, refl, arith, inl, inr, Bytes,
  All, codes, length, take, replicate, lookup, map,
}
use pcscid.Units.Adoption.{IsExclusive}
use pcscid.Units.Memory.{changes_keep, adopted_repeat}
use pcscid.Units.Ports.{ports_unique, changes-IsExclusive, new-IsExclusive}
use pcscid.Units.{
  Facts, Registry, Change, adopts, forgets, cached, adopt, changes, new_unit_registry,
}
use pcscid.Wire.Messages.RoundTrip.{
  AreTransmitWords, AreConnectFields, AreGetsetFields, decode-encode,
}
use pcscid.Wire.Messages.{
  VersionMsg, EstablishMsg, ReleaseMsg, DisconnectMsg, WaitMsg, TransmitMsg, ConnectMsg, GetsetMsg,
  decode_version, encode_version, decode_establish, encode_establish, decode_release,
  encode_release, decode_disconnect, encode_disconnect, decode_wait, encode_wait, decode_transmit,
  encode_transmit, decode_connect, encode_connect, decode_getset, encode_getset,
}
use pcscid.Wire.States.Agreement.{IsShown, shown, decode-encode_states}
use pcscid.Wire.Words.{NoZero}
use pcscid.Wire.States.{FakeReader, decode_states, encode_states}

abbrev left : Bytes
left = codes "left"

abbrev pub right : Bytes
right = codes "right"

abbrev probe : Bytes → Bytes → Facts
probe serial port = record { serial = serial; port = port; uid = 4 ∷ 5 ∷ 6 ∷ 7 ∷ []; protocol = 2 }

-- Both readers claim the same port, then the first one is unplugged and the second asks again.
abbrev story : List Change
story =
    adopts left (probe [] (codes "1-4"))
    ∷ adopts right (probe [] (codes "1-4"))
    ∷ forgets left
    ∷ adopts right (probe (codes "A1") (codes "1-4"))
    ∷ []

abbrev pub after : Registry
after = changes story new_unit_registry

second_refused : (cached right (changes (take 2 story) new_unit_registry)).port ≡ []
unfolding changes new_unit_registry lookup pcscid.Common.put pcscid.Common.bytes_eq
second_refused = refl

pub known_after : lookup right after.facts ≡ some (probe (codes "A1") (codes "1-4"))
unfolding changes new_unit_registry lookup pcscid.Common.put pcscid.Common.bytes_eq
    pcscid.Common.delete
known_after = refl

port_after : codes "1-4" ≡ (cached right after).port
unfolding changes new_unit_registry lookup pcscid.Common.put pcscid.Common.bytes_eq
    pcscid.Common.delete
port_after = refl

filled : codes "1-4" ≢ []
filled e = cc

not_forgotten : All (λ c. c ≢ forgets right) (take 2 story)
not_forgotten = ((λ e. cc), ((λ e. cc), tt))

pub after-IsExclusive : IsExclusive after
after-IsExclusive = changes-IsExclusive story new_unit_registry new-IsExclusive

ports_unique_example : right ≡ right
ports_unique_example =
    ports_unique story right right (probe (codes "A1") (codes "1-4"))
      (probe (codes "A1") (codes "1-4")) known_after known_after filled refl

changes_keep_example :
    ((cached right after).serial ≢ [] → (cached right (changes (take 2 story) after)).serial ≢ [])
    × ((cached right after).port ≢ [] → (cached right (changes (take 2 story) after)).port ≢ [])
changes_keep_example = changes_keep (take 2 story) right after after-IsExclusive not_forgotten

adopted_repeat_example :
    ((adopt right (probe [] (codes "1-4")) after).1.serial ≡ (cached right after).serial)
    × ((adopt right (probe [] (codes "1-4")) after).1.port ≡ (cached right after).port)
adopted_repeat_example =
    adopted_repeat right (probe [] (codes "1-4")) after after-IsExclusive (inl refl)
      (inr port_after)

-- Two readers as the fake daemon holds them.
abbrev readers : List FakeReader
readers =
    record { name = left; atr = 59 ∷ 128 ∷ 128 ∷ 1 ∷ 1 ∷ []; present = true; event_counter = 7 }
    ∷ record { name = right; atr = []; present = true; event_counter = 0 }
    ∷ []

left-NoZero : NoZero left
left-NoZero = (omega arith, (omega arith, (omega arith, (omega arith, tt))))

right-NoZero : NoZero right
right-NoZero = (omega arith, (omega arith, (omega arith, (omega arith, (omega arith, tt)))))

IsShown-readers : All IsShown readers
IsShown-readers = (
  record {
    named = λ e. cc;
    name_text = left-NoZero;
    name_short = omega arith;
    counter_word = omega arith;
    atr_short = omega arith;
  },
  (
    record {
      named = λ e. cc;
      name_text = right-NoZero;
      name_short = omega arith;
      counter_word = omega arith;
      atr_short = omega arith;
    },
    tt,
  ),
)

decode-encode_states_example : decode_states (encode_states readers) ≡ map shown (take 16 readers)
decode-encode_states_example = decode-encode_states readers IsShown-readers

abbrev version_msg : VersionMsg
version_msg = record { major = 4; minor = 5; rv = 0 }

abbrev establish_msg : EstablishMsg
establish_msg = record { scope = 2; context = 4294967295; rv = 0 }

abbrev release_msg : ReleaseMsg
release_msg = record { context = 4294967295; rv = 0 }

abbrev disconnect_msg : DisconnectMsg
disconnect_msg = record { card = 70000; disposition = 1; rv = 0 }

abbrev wait_msg : WaitMsg
wait_msg = record { timeout_ms = 250; rv = 2148532234 }

abbrev transmit_msg : TransmitMsg
transmit_msg = record {
  card = 70000;
  send_pci_proto = 2;
  send_pci_len = 16;
  send_length = 5;
  recv_pci_proto = 2;
  recv_pci_len = 16;
  recv_length = 64;
  rv = 0;
}

abbrev connect_msg : ConnectMsg
connect_msg = record {
  context = 4294967295;
  reader = left;
  share_mode = 2;
  preferred_protocols = 3;
  card = 0;
  active_protocol = 0;
  rv = 0;
}

abbrev getset_msg : GetsetMsg
getset_msg = record { card = 70000; attr_id = 131328; attr = right; attr_len = 5; rv = 0 }

AreTransmitWords-msg : AreTransmitWords transmit_msg
AreTransmitWords-msg = record {
  card_word = omega arith;
  send_proto_word = omega arith;
  send_pci_word = omega arith;
  send_word = omega arith;
  recv_proto_word = omega arith;
  recv_pci_word = omega arith;
  recv_word = omega arith;
  rv_word = omega arith;
}

AreConnectFields-msg : AreConnectFields connect_msg
AreConnectFields-msg = record {
  context_word = omega arith;
  share_word = omega arith;
  preferred_word = omega arith;
  card_word = omega arith;
  active_word = omega arith;
  rv_word = omega arith;
  name_text = left-NoZero;
  name_short = omega arith;
}

AreGetsetFields-msg : AreGetsetFields getset_msg
AreGetsetFields-msg = record {
  card_word = omega arith;
  attr_id_word = omega arith;
  rv_word = omega arith;
  exact = refl;
  fits = omega arith;
}

decode-encode_example :
    (decode_version (encode_version version_msg) ≡ version_msg)
    × (decode_establish (encode_establish establish_msg) ≡ establish_msg)
    × (decode_release (encode_release release_msg) ≡ release_msg)
    × (decode_disconnect (encode_disconnect disconnect_msg) ≡ disconnect_msg)
    × (decode_wait (encode_wait wait_msg) ≡ wait_msg)
    × (decode_transmit (encode_transmit transmit_msg) ≡ transmit_msg)
    × (decode_connect (encode_connect connect_msg) ≡ connect_msg)
    × (decode_getset (encode_getset getset_msg) ≡ getset_msg)
decode-encode_example =
    decode-encode version_msg establish_msg release_msg disconnect_msg wait_msg transmit_msg
      connect_msg getset_msg (omega arith, omega arith, omega arith)
      (omega arith, omega arith, omega arith) (omega arith, omega arith)
      (omega arith, omega arith, omega arith) (omega arith, omega arith) AreTransmitWords-msg
      AreConnectFields-msg AreGetsetFields-msg

-- An establish request and a request for the states.
abbrev requests : List (ℕ × Bytes)
requests = (1, encode_establish establish_msg) ∷ (18, []) ∷ []

AreMessages-requests : All IsMessage requests
unfolding encode_establish
AreMessages-requests = ((omega arith, omega arith), ((omega arith, omega arith), tt))

read-write_messages_example :
    read_messages 2 (write_messages requests ++ 0 ∷ []) ≡ ok (requests, 0 ∷ [])
read-write_messages_example = read-write_messages requests (0 ∷ []) AreMessages-requests
