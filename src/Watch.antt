-- ===== src/Watch.antt =====
-- pcscid.go: `readerTracking`, a round of `pollLoop`, and `identify`. The events of a round are a
-- list, in the order in which they are emitted; a session that is cancelled emits a prefix of them.
pub mod Insertions
pub mod Steady
pub mod Connection
pub mod Reports
use pcscid.CardType.{detect_type}
use pcscid.Common.{
  ℕ, ◌/◌, ◌%◌, Bool, true, false, not, ◌&&◌, ◌||◌, List, [], ◌∷◌, ◌++◌, Option, none, some, Bytes,
  Table, lookup, put, delete, bytes_eq, ◌==◌, if◌then◌else◌,
}
use pcscid.Event.{Kind, insert, remove, Source, uid_source, no_source, Card, Event}
use pcscid.Tags.{is_empty, btag, reader_tag_with_machine}
use pcscid.Units.{Facts, Registry, new_unit_registry, cached, adopt, forget}
use pcscid.Wire.States.{ReaderState}

pub record Tracking : Type 0 where
  pub present : Table Bool
  pub counters : Table ℕ
  pub units : Registry

unfoldable pub new_tracking : Tracking
unfolding new_unit_registry
new_tracking = record { present = []; counters = []; units = new_unit_registry }

-- What `pollLoop` starts with on a fresh connection: only the presence is kept.
unfoldable pub fresh_connection : Tracking → Tracking
unfolding new_unit_registry
fresh_connection t = record { present = t.present; counters = []; units = new_unit_registry }

-- `st.State & pcsc.ReaderPresent != 0`
unfoldable pub is_present : ℕ → Bool
is_present state = not (state / 4 % 2 == 0)

unfoldable pub or_false : Option Bool → Bool
or_false none = false
or_false (some b) = b

unfoldable pub was_present : Bytes → Tracking → Bool
unfolding or_false
was_present reader t = or_false (lookup reader t.present)

-- `prev, known := ...; known && prev != st.EventCounter`
unfoldable pub has_moved : ℕ → Option ℕ → Bool
has_moved counter none = false
has_moved counter (some prev) = not (prev == counter)

unfoldable pub is_seen : Bytes → List ReaderState → Bool
is_seen reader [] = false
is_seen reader (st ∷ states) = bytes_eq st.reader reader || is_seen reader states

unfoldable pub remember : ReaderState → Tracking → Tracking
unfolding is_present
remember st t = record t {
  present = put st.reader (is_present st.state) t.present;
  counters =
      if is_present st.state
      then put st.reader st.event_counter t.counters
      else delete st.reader t.counters;
}

-- An absent card: `emit` of the removal, where there was one.
unfoldable pub removal : Bytes → Bool → List Event
removal reader false = []
removal reader true =
    record {
      kind = remove;
      card = none;
      reader = reader;
      reader_tag = [];
      reader_serial = [];
      reader_port = [];
    }
    ∷ []

module _ (sha256 : Bytes → Bytes) (machine : Bytes) where
  unfoldable pub identify : ReaderState → Facts → Card
  unfolding detect_type btag is_empty
  identify st facts =
      let card_type = detect_type st.atr in
      let card : Card = record {
        id = [];
        card_type = card_type;
        uid = facts.uid;
        atr = st.atr;
        reader = st.reader;
        source = no_source;
      } in
      if is_empty facts.uid
      then card
      else record card { id = btag sha256 card_type facts.uid; source = uid_source }

  -- The event of an insertion, unless it is suppressed.
  unfoldable pub insertion : ReaderState → Facts → Card → Source → List Event
  unfolding reader_tag_with_machine
  insertion st facts card no_source = []
  insertion st facts card uid_source =
      record {
        kind = insert;
        card = some card;
        reader = st.reader;
        reader_tag = reader_tag_with_machine sha256 st.reader facts.serial facts.port machine;
        reader_serial = facts.serial;
        reader_port = facts.port;
      }
      ∷ []

  -- `probeReaderCard` on a state of the outside: it is given the claims and the cached facts.
  module _ {W : Type 0} (probe : Bytes → Table Bytes → Facts → W → Facts × W) where
    pub record Loop : Type 0 where
      pub tracking : Tracking
      pub world : W
      pub events : List Event

    -- The probe of a card that was inserted, the adoption of its facts, and the event.
    unfoldable pub inserted : ReaderState → Loop → Loop
    unfolding identify insertion adopt cached
    inserted st l =
        let units = l.tracking.units in
        let (fresh, world) = probe st.reader units.by_port (cached st.reader units) l.world in
        let (adopted_units, facts) = adopt st.reader fresh units in
        let card = identify st facts in
        record {
          tracking = record {
            present = l.tracking.present;
            counters = l.tracking.counters;
            units = adopted_units;
          };
          world = world;
          events = l.events ++ insertion st facts card card.source;
        }

    -- What is done on a state before it is remembered.
    unfoldable pub react : ReaderState → Loop → Loop
    unfolding inserted removal is_present was_present has_moved
    react st l =
        let was = was_present st.reader l.tracking in
        if is_present st.state
        then if not was || has_moved st.event_counter (lookup st.reader l.tracking.counters)
          then inserted st l
          else l
        else record l { events = l.events ++ removal st.reader was }

    unfoldable pub visit : ReaderState → Loop → Loop
    unfolding react remember
    visit st l = let m = react st l in record m { tracking = remember st m.tracking }

    unfoldable pub visit_all : List ReaderState → Loop → Loop
    unfolding visit
    visit_all [] l = l
    visit_all (st ∷ states) l = visit_all states (visit st l)

    -- A reader that is tracked and not seen in this round.
    unfoldable pub drop_reader : Bytes → Bool → Loop → Loop
    unfolding removal forget
    drop_reader reader was l = record l {
      tracking = record {
        present = delete reader l.tracking.present;
        counters = delete reader l.tracking.counters;
        units = forget reader l.tracking.units;
      };
      events = l.events ++ removal reader was;
    }

    -- The loop over the tracked readers; Go visits them in no fixed order.
    unfoldable pub drop_unseen : List ReaderState → Table Bool → Loop → Loop
    unfolding drop_reader is_seen
    drop_unseen states [] l = l
    drop_unseen states ((reader, was) ∷ tracked) l =
        drop_unseen states tracked (if is_seen reader states then l else drop_reader reader was l)

    -- One round of `pollLoop` on the states that the daemon answered.
    unfoldable pub poll_round : List ReaderState → Loop → Loop
    unfolding visit_all drop_unseen
    poll_round states l = let m = visit_all states l in drop_unseen states m.tracking.present m

    -- Rounds on one connection.
    unfoldable pub poll_rounds : List (List ReaderState) → Loop → Loop
    unfolding poll_round
    poll_rounds [] l = l
    poll_rounds (states ∷ rounds) l = poll_rounds rounds (poll_round states l)
