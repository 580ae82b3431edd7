-- ===== src/Watch/Insertions.antt =====
-- Which insertions are reported, and as what.
use pcscid.CardType.{detect_type}
use pcscid.Common.{
  Bool, true, false, not, ◌||◌, List, [], ◌∷◌, some, none, ◌≡◌, ◌≢◌, refl, inl, inr, arith, Bytes,
  Table, lookup, All, All-append, if◌then◌else◌, Bool-cases,
}
use pcscid.Event.{insert, remove, uid_source, Card, Event}
use pcscid.Tags.{is_empty, btag, reader_tag_with_machine}
use pcscid.Units.{Facts, adopt, cached}
use pcscid.Watch.{
  Tracking, removal, identify, insertion, Loop, inserted, react, visit, visit_all, drop_reader,
  drop_unseen, poll_round, poll_rounds, is_present, was_present, has_moved, is_seen,
}
use pcscid.Wire.States.{ReaderState}

module _ (sha256 : Bytes → Bytes) (machine : Bytes) where
  -- An insertion is that of a card with a UID, under the tags that follow from the UID, the answer
  -- to reset, and the reader's name and unit facts; a removal names no card.
  pub data IsReport (ev : Event) : Type 0 where
    reports_card :
        (c : Card)
        → ev.kind ≡ insert
        → ev.card ≡ some c
        → c.uid ≢ []
        → c.source ≡ uid_source
        → c.reader ≡ ev.reader
        → c.card_type ≡ detect_type c.atr
        → c.id ≡ btag sha256 (detect_type c.atr) c.uid
        → ev.reader_tag
          ≡ reader_tag_with_machine sha256 ev.reader ev.reader_serial ev.reader_port machine
        → IsReport ev
    reports_removal : ev.kind ≡ remove → ev.card ≡ none → IsReport ev

  removal-IsReport : (reader : Bytes) (was : Bool) → All IsReport (removal reader was)
  unfolding removal
  removal-IsReport reader false = tt
  removal-IsReport reader true = (reports_removal refl refl, tt)

  insertion-IsReport :
      (st : ReaderState) (facts : Facts)
      → let card = identify sha256 machine st facts in
        All IsReport (insertion sha256 machine st facts card card.source)
  unfolding insertion identify is_empty
  insertion-IsReport st facts = elim (Bool-cases (is_empty facts.uid)) [
    | inl missing ↦ rw missing tt
    | inr found ↦
        rw found (
          (reports_card _ refl refl (λ e. absurd (ground (arith, e))) refl refl refl refl refl, tt))
  ]

  module _ {W : Type 0} (probe : Bytes → Table Bytes → Facts → W → Facts × W) where
    react-IsReport :
        (st : ReaderState) (l : Loop sha256 machine probe)
        → All IsReport l.events
        → All IsReport (react sha256 machine probe st l).events
    unfolding react inserted
    react-IsReport st l h = elim (Bool-cases (is_present st.state)) [
      | inl here ↦
          elim (Bool-cases (
            not (was_present st.reader l.tracking)
            || has_moved st.event_counter (lookup st.reader l.tracking.counters))) [
              | inl news ↦
                  let units = l.tracking.units in
                  let fresh = (probe st.reader units.by_port (cached st.reader units) l.world).0 in
                  rw (here, news)
                    (All-append IsReport l.events _ h
                      (insertion-IsReport st (adopt st.reader fresh units).1))
              | inr old ↦ rw (here, old) h
            ]
      | inr gone ↦ rw gone (
          All-append IsReport l.events _ h
            (removal-IsReport st.reader (was_present st.reader l.tracking)))
    ]

    visit_all-IsReport :
        (states : List ReaderState) (l : Loop sha256 machine probe)
        → All IsReport l.events
        → All IsReport (visit_all sha256 machine probe states l).events
    unfolding visit_all visit
    visit_all-IsReport [] l h = h
    visit_all-IsReport (st ∷ states) l h =
        visit_all-IsReport states (visit sha256 machine probe st l) (react-IsReport st l h)

    drop_reader-IsReport :
        (seen : Bool) (reader : Bytes) (was : Bool) (l : Loop sha256 machine probe)
        → All IsReport l.events
        → All IsReport (if seen then l else drop_reader sha256 machine probe reader was l).events
    unfolding drop_reader
    drop_reader-IsReport true reader was l h = h
    drop_reader-IsReport false reader was l h =
        All-append IsReport l.events _ h (removal-IsReport reader was)

    drop_unseen-IsReport :
        (states : List ReaderState) (tracked : Table Bool) (l : Loop sha256 machine probe)
        → All IsReport l.events
        → All IsReport (drop_unseen sha256 machine probe states tracked l).events
    unfolding drop_unseen
    drop_unseen-IsReport states [] l h = h
    drop_unseen-IsReport states ((reader, was) ∷ tracked) l h =
        drop_unseen-IsReport states tracked _
          (drop_reader-IsReport (is_seen reader states) reader was l h)

    pub poll_rounds-IsReport :
        (rounds : List (List ReaderState)) (l : Loop sha256 machine probe)
        → All IsReport l.events
        → All IsReport (poll_rounds sha256 machine probe rounds l).events
    unfolding poll_rounds poll_round
    poll_rounds-IsReport [] l h = h
    poll_rounds-IsReport (states ∷ rounds) l h =
        let m = visit_all sha256 machine probe states l in
        poll_rounds-IsReport rounds (poll_round sha256 machine probe states l)
          (drop_unseen-IsReport states m.tracking.present m (visit_all-IsReport states l h))

-- Whatever states the daemon answers and whatever the probes answer, every event of a connection is
-- either the insertion of a card with a UID that is not empty, whose btag is that of the type of its
-- answer to reset and of its UID, under the tag of the reader's name and unit facts, or a removal
-- without a card.
pub reports-IsReport :
    (sha256 : Bytes → Bytes) (machine : Bytes) {W : Type 0}
    (probe : Bytes → Table Bytes → Facts → W → Facts × W) (rounds : List (List ReaderState))
    (tracking : Tracking) (world : W)
    → All
        (IsReport sha256 machine)
        (poll_rounds sha256 machine probe rounds
          (record { tracking = tracking; world = world; events = [] })).events
reports-IsReport sha256 machine probe rounds tracking world =
    poll_rounds-IsReport sha256 machine probe rounds _ tt
