-- ===== src/Daemon.antt =====
-- internal/pcscfake/pcscfake.go: the state of the fake daemon, and its handlers. The daemon holds its
-- lock through the part of a handler that touches the state, so a handler is one function on it.
pub mod Serving
pub mod Link
use pcscid.Common.{
  ℕ, zero, suc, ◌+◌, ◌-◌, ◌*◌, ◌%◌, Bool, true, false, not, ◌&&◌, ◌||◌, List, [], ◌∷◌, ◌++◌, Option,
  none, some, Bytes, length, take, drop, map, replicate, Table, lookup, put, bytes_eq, ltb, ◌==◌,
  if◌then◌else◌,
}
use pcscid.Machine.{sort_texts}
use pcscid.Tags.{is_empty}
use pcscid.Wire.States.{FakeReader, encode_states}
use pcscid.Wire.{put_uint32, uint32_at, c_string, buffer}

abbrev pub err_invalid_handle : ℕ
err_invalid_handle = 0x80100003

abbrev pub err_unknown_reader : ℕ
err_unknown_reader = 0x80100009

abbrev pub err_no_smartcard : ℕ
err_no_smartcard = 0x8010000C

abbrev pub err_comm_data_lost : ℕ
err_comm_data_lost = 0x8010002F

abbrev pub err_unsupported_feature : ℕ
err_unsupported_feature = 0x8010001F

abbrev pub protocol_t1 : ℕ
protocol_t1 = 0x0002

-- `Reader`. A counter of failures that is not positive is 0.
pub record Reader : Type 0 where
  pub atr : Bytes
  pub uid : Bytes
  pub serial : Bytes
  pub channel_id : ℕ
  pub present : Bool
  pub event_counter : ℕ
  pub fail_connects : ℕ
  pub fail_uid_probes : ℕ
  pub stuck_uid : Bool
  pub uid_probes : ℕ
  pub attrib_probes : ℕ
  pub fail_reset_reconnects : ℕ
  pub reset_lag : Bool

abbrev pub new_reader : Reader
new_reader = record {
  atr = [];
  uid = [];
  serial = [];
  channel_id = 0;
  present = false;
  event_counter = 0;
  fail_connects = 0;
  fail_uid_probes = 0;
  stuck_uid = false;
  uid_probes = 0;
  attrib_probes = 0;
  fail_reset_reconnects = 0;
  reset_lag = false;
}

-- `Server`. A connection is a number. A card holds a pointer to its reader, which stays in the map:
-- here it is the reader's name.
pub record Server : Type 0 where
  pub offered_minor : ℕ
  pub readers : Table Reader
  pub waiters : List ℕ
  pub cards : List (ℕ × Bytes)
  pub handles : ℕ

-- The calls of a test change the readers. `InsertCard` and `RemoveCard` let the lock go before
-- `wakeWaiters` takes it again, so the signal is a step of its own: between the two a client may
-- register, and gets a signal for a change that it already saw.
pub data Change : Type 0 where
  inserts : Bytes → Bytes → Bytes → Change
  removes : Bytes → Change
  sets_serial : Bytes → Bytes → Change
  sets_channel_id : Bytes → ℕ → Change
  wakes : Change

abbrev pub or_new : Option Reader → Reader
or_new none = new_reader
or_new (some r) = r

-- Every waiting connection gets a signal, which whoever holds the connection writes, and waits no
-- more.
unfoldable pub wake_waiters : Server → Server
wake_waiters s = record s { waiters = [] }

-- `InsertCard` and `RemoveCard` up to where they let the lock go.
unfoldable pub insert_card : Bytes → Bytes → Bytes → Server → Server
unfolding lookup put
insert_card name atr uid s =
    let r = or_new (lookup name s.readers) in
    record s {
      readers =
          put name
            (record r {
              atr = atr;
              uid = uid;
              present = true;
              event_counter = (r.event_counter + 1) % 4294967296;
              reset_lag = false;
            })
            s.readers;
    }

-- A change of a reader that is there.
unfoldable pub update : Bytes → (Reader → Reader) → Option Reader → Server → Server
unfolding put
update name f none s = s
update name f (some r) s = record s { readers = put name (f r) s.readers }

abbrev pub emptied : Reader → Reader
emptied r = record r { present = false; event_counter = (r.event_counter + 1) % 4294967296 }

unfoldable pub remove_card : Bytes → Server → Server
unfolding update lookup
remove_card name s = update name emptied (lookup name s.readers) s

unfoldable pub set_serial : Bytes → Bytes → Server → Server
unfolding lookup put
set_serial name serial s =
    let r = or_new (lookup name s.readers) in
    record s { readers = put name (record r { serial = serial }) s.readers }

unfoldable pub set_channel_id : Bytes → ℕ → Server → Server
unfolding lookup put
set_channel_id name id s =
    let r = or_new (lookup name s.readers) in
    record s { readers = put name (record r { channel_id = id }) s.readers }

-- What a state entry shows of a reader.
abbrev pub entry_of : Bytes → Reader → FakeReader
entry_of name r = record {
  name = name;
  atr = r.atr;
  present = r.present;
  event_counter = r.event_counter;
}

abbrev pub names_of : Table Reader → List Bytes
names_of readers = map (λ (name, r). name) readers

-- The readers in the order of their names.
unfoldable pub sorted_readers : Table Reader → List FakeReader
unfolding sort_texts lookup
sorted_readers readers =
    map (λ name. entry_of name (or_new (lookup name readers))) (sort_texts (names_of readers))

unfoldable pub encode_states_locked : Server → Bytes
unfolding encode_states sorted_readers
encode_states_locked s = encode_states (sorted_readers s.readers)

unfoldable pub is_waiting : ℕ → List ℕ → Bool
is_waiting conn [] = false
is_waiting conn (c ∷ cs) = (c == conn) || is_waiting conn cs

unfoldable pub without : ℕ → List ℕ → List ℕ
without conn [] = []
without conn (c ∷ cs) = let rest = without conn cs in if c == conn then rest else c ∷ rest

unfoldable pub register : ℕ → Server → Server
unfolding without
register conn s = record s { waiters = conn ∷ without conn s.waiters }

unfoldable pub unregister : ℕ → Server → Bool × Server
unfolding is_waiting without
unregister conn s = (is_waiting conn s.waiters, record s { waiters = without conn s.waiters })

unfoldable pub card_of : ℕ → List (ℕ × Bytes) → Option Bytes
card_of handle [] = none
card_of handle ((other, name) ∷ cards) =
    let rest = card_of handle cards in if other == handle then some name else rest

unfoldable pub without_card : ℕ → List (ℕ × Bytes) → List (ℕ × Bytes)
without_card handle [] = []
without_card handle ((other, name) ∷ cards) =
    let rest = without_card handle cards in if other == handle then rest else (other, name) ∷ rest
