-- ===== src/Watch/Steady.antt =====
-- A round on states that did not change reports nothing.
use pcscid.Common.{
  Bool, true, false, not, ◌||◌, List, [], ◌∷◌, append-nil, none, some, ◌≡◌, refl, ap, ◌∙◌, inl, inr,
  arith, ◌==◌, Bytes, Table, lookup, put, delete, lookup-put, lookup-delete, bytes_eq, bytes_eq_iff,
  All, if◌then◌else◌, Bool-cases,
}
use pcscid.Units.{Facts}
use pcscid.Watch.{
  Tracking, removal, remember, Loop, inserted, react, visit, visit_all, drop_reader, drop_unseen,
  poll_round, is_present, was_present, or_false, has_moved, is_seen,
}
use pcscid.Wire.States.{ReaderState}

-- The names are distinct.
abbrev pub AreDistinct : List ReaderState → Type 0
AreDistinct [] = Unit
AreDistinct (st ∷ states) = (is_seen st.reader states ≡ false) × AreDistinct states

-- What is tracked of a reader is what its state says.
pub record IsTracked (t : Tracking) (st : ReaderState) : Type 0 where
  pub presence : lookup st.reader t.present ≡ some (is_present st.state)
  pub counter : is_present st.state ≡ true → lookup st.reader t.counters ≡ some st.event_counter

remember-IsTracked : (st : ReaderState) (t : Tracking) → IsTracked (remember st t) st
unfolding remember
remember-IsTracked st t = record {
  presence =
      lookup-put st.reader st.reader (is_present st.state) t.present
      ∙ rw ((bytes_eq_iff st.reader st.reader).1 refl) refl;
  counter = λ here. rw here (
      lookup-put st.reader st.reader st.event_counter t.counters
      ∙ rw ((bytes_eq_iff st.reader st.reader).1 refl) refl);
}

-- Remembering another reader.
remember-IsTracked_other :
    (st other : ReaderState) (t : Tracking)
    → bytes_eq other.reader st.reader ≡ false
    → IsTracked t st
    → IsTracked (remember other t) st
unfolding remember
remember-IsTracked_other st other t apart h = record {
  presence =
      lookup-put other.reader st.reader (is_present other.state) t.present ∙ rw apart h.presence;
  counter = λ here. kept (is_present other.state) (h.counter here);
}
  where
    kept :
        (b : Bool)
        → lookup st.reader t.counters ≡ some st.event_counter
        → lookup st.reader (
            if b
            then put other.reader other.event_counter t.counters
            else delete other.reader t.counters)
          ≡ some st.event_counter
    kept true e = lookup-put other.reader st.reader other.event_counter t.counters ∙ rw apart e
    kept false e = lookup-delete other.reader st.reader t.counters ∙ rw apart e

not-is_seen :
    (st : ReaderState) (states : List ReaderState) (reader : Bytes)
    → is_seen reader (st ∷ states) ≡ false
    → (bytes_eq st.reader reader ≡ false) × (is_seen reader states ≡ false)
unfolding is_seen
not-is_seen st states reader h = ground arith

seen_first : (st : ReaderState) (states : List ReaderState) → is_seen st.reader (st ∷ states) ≡ true
unfolding is_seen
seen_first st states = rw ((bytes_eq_iff st.reader st.reader).1 refl) refl

seen_more :
    (r : Bytes) (st : ReaderState) (states : List ReaderState)
    → is_seen r states ≡ true
    → is_seen r (st ∷ states) ≡ true
unfolding is_seen
seen_more r st states h = ground arith

abbrev Probe : Type 0 → Type 0
Probe W = Bytes → Table Bytes → Facts → W → Facts × W

module _ (sha256 : Bytes → Bytes) (machine : Bytes) {W : Type 0} (probe : Probe W) where
  react-tracking :
      (st : ReaderState) (l : Loop sha256 machine probe)
      → ((react sha256 machine probe st l).tracking.present ≡ l.tracking.present)
        × ((react sha256 machine probe st l).tracking.counters ≡ l.tracking.counters)
  unfolding react inserted
  react-tracking st l = elim (Bool-cases (is_present st.state)) [
    | inl here ↦
        elim (Bool-cases (
          not (was_present st.reader l.tracking)
          || has_moved st.event_counter (lookup st.reader l.tracking.counters))) [
            | inl news ↦ rw (here, news) (refl, refl)
            | inr old ↦ rw (here, old) (refl, refl)
          ]
    | inr gone ↦ rw gone (refl, refl)
  ]

  -- A state that is tracked already is passed over.
  react-IsTracked :
      (st : ReaderState) (l : Loop sha256 machine probe)
      → IsTracked l.tracking st
      → (react sha256 machine probe st l).events ≡ l.events
  unfolding react was_present or_false has_moved removal
  react-IsTracked st l h = elim (Bool-cases (is_present st.state)) [
    | inl here ↦
        let same : (st.event_counter == st.event_counter) ≡ true = ground arith in
        rw (here, h.presence, h.counter here, same, here) refl
    | inr gone ↦ rw (gone, h.presence, gone) (append-nil l.events)
  ]

  visit-IsTracked :
      (st : ReaderState) (l : Loop sha256 machine probe)
      → IsTracked (visit sha256 machine probe st l).tracking st
  unfolding visit
  visit-IsTracked st l = remember-IsTracked st (react sha256 machine probe st l).tracking

  visit-IsTracked_other :
      (st other : ReaderState) (l : Loop sha256 machine probe)
      → bytes_eq other.reader st.reader ≡ false
      → IsTracked l.tracking st
      → IsTracked (visit sha256 machine probe other l).tracking st
  unfolding visit
  visit-IsTracked_other st other l apart h =
      let m = react sha256 machine probe other l in
      let e = react-tracking other l in
      remember-IsTracked_other st other m.tracking apart (record {
        presence = ap (lookup st.reader) e.0 ∙ h.presence;
        counter = λ here. ap (lookup st.reader) e.1 ∙ h.counter here;
      })

  -- The states behind one that is tracked do not name its reader.
  visit_all-IsTracked_other :
      (st : ReaderState) (states : List ReaderState) (l : Loop sha256 machine probe)
      → is_seen st.reader states ≡ false
      → IsTracked l.tracking st
      → IsTracked (visit_all sha256 machine probe states l).tracking st
  unfolding visit_all
  visit_all-IsTracked_other st [] l unseen h = h
  visit_all-IsTracked_other st (other ∷ states) l unseen h =
      let (apart, rest) = not-is_seen other states st.reader unseen in
      visit_all-IsTracked_other st states (visit sha256 machine probe other l) rest
        (visit-IsTracked_other st other l apart h)

  visit_all-IsTracked :
      (states : List ReaderState) (l : Loop sha256 machine probe)
      → AreDistinct states
      → All (IsTracked (visit_all sha256 machine probe states l).tracking) states
  unfolding visit_all
  visit_all-IsTracked [] l h = tt
  visit_all-IsTracked (st ∷ states) l h = (
    visit_all-IsTracked_other st states (visit sha256 machine probe st l) h.0
        (visit-IsTracked st l),
    visit_all-IsTracked states (visit sha256 machine probe st l) h.1,
  )

  -- Tracked states are passed over, and stay tracked.
  visit_all-quiet :
      (states : List ReaderState) (l : Loop sha256 machine probe)
      → AreDistinct states
      → All (IsTracked l.tracking) states
      → (visit_all sha256 machine probe states l).events ≡ l.events
  unfolding visit_all visit
  visit_all-quiet [] l d h = refl
  visit_all-quiet (st ∷ states) l d h =
      visit_all-quiet states (visit sha256 machine probe st l) d.1 (still states d.0 h.1)
      ∙ react-IsTracked st l h.0
    where
      still :
          (others : List ReaderState)
          → is_seen st.reader others ≡ false
          → All (IsTracked l.tracking) others
          → All (IsTracked (visit sha256 machine probe st l).tracking) others
      still [] u k = tt
      still (other ∷ others) u k =
          let (apart, rest) = not-is_seen other others st.reader u in
          (
            visit-IsTracked_other other st l
                (ground (
                  arith,
                  apart,
                  bytes_eq_iff other.reader st.reader,
                  bytes_eq_iff st.reader other.reader,
                ))
                k.0,
            still others rest k.1,
          )

  drop_unseen-IsTracked :
      (st : ReaderState) (states : List ReaderState) (tracked : Table Bool)
      (l : Loop sha256 machine probe)
      → is_seen st.reader states ≡ true
      → IsTracked l.tracking st
      → IsTracked (drop_unseen sha256 machine probe states tracked l).tracking st
  unfolding drop_unseen drop_reader
  drop_unseen-IsTracked st states [] l seen h = h
  drop_unseen-IsTracked st states ((reader, was) ∷ tracked) l seen h =
      drop_unseen-IsTracked st states tracked _ seen (dropped (is_seen reader states) refl)
    where
      dropped :
          (b : Bool)
          → is_seen reader states ≡ b
          → IsTracked (if b then l else drop_reader sha256 machine probe reader was l).tracking st
      dropped true e = h
      dropped false e =
          let apart : bytes_eq reader st.reader ≡ false = ground (
            arith,
            seen,
            e,
            bytes_eq_iff reader st.reader,
            λ (q : reader ≡ st.reader). ap (λ r. is_seen r states) q,
          ) in
          record {
            presence = lookup-delete reader st.reader l.tracking.present ∙ rw apart h.presence;
            counter = λ here.
                lookup-delete reader st.reader l.tracking.counters ∙ rw apart (h.counter here);
          }

  -- A reader that is not seen is forgotten.
  drop_unseen-gone :
      (r : Bytes) (states : List ReaderState) (tracked : Table Bool) (l : Loop sha256 machine probe)
      → is_seen r states ≡ false
      → (lookup r tracked ≡ none → lookup r l.tracking.present ≡ none)
      → lookup r (drop_unseen sha256 machine probe states tracked l).tracking.present ≡ none
  unfolding drop_unseen drop_reader lookup
  drop_unseen-gone r states [] l unseen h = h refl
  drop_unseen-gone r states ((reader, was) ∷ tracked) l unseen h =
      drop_unseen-gone r states tracked _ unseen (dropped (is_seen reader states) refl)
    where
      dropped :
          (b : Bool)
          → is_seen reader states ≡ b
          → lookup r tracked ≡ none
          → lookup r
              (if b then l else drop_reader sha256 machine probe reader was l).tracking.present
            ≡ none
      dropped true e k =
          let apart : bytes_eq reader r ≡ false = ground (
            arith,
            unseen,
            e,
            bytes_eq_iff reader r,
            λ (q : reader ≡ r). ap (λ r. is_seen r states) q,
          ) in
          h (rw apart k)
      dropped false e k = elim (Bool-cases (bytes_eq reader r)) [
        | inl same ↦ lookup-delete reader r l.tracking.present ∙ rw same refl
        | inr apart ↦ lookup-delete reader r l.tracking.present ∙ rw apart (h (rw apart k))
      ]

  visit_all-unseen :
      (r : Bytes) (states : List ReaderState) (l : Loop sha256 machine probe)
      → is_seen r states ≡ false
      → lookup r (visit_all sha256 machine probe states l).tracking.present
        ≡ lookup r l.tracking.present
  unfolding visit_all visit remember
  visit_all-unseen r [] l unseen = refl
  visit_all-unseen r (st ∷ states) l unseen =
      let (apart, rest) = not-is_seen st states r unseen in
      let m = react sha256 machine probe st l in
      visit_all-unseen r states (visit sha256 machine probe st l) rest
      ∙ (lookup-put st.reader r (is_present st.state) m.tracking.present ∙ rw apart refl)
      ∙ ap (lookup r) (react-tracking st l).0

  drop_unseen-quiet :
      (states : List ReaderState) (tracked : Table Bool) (l : Loop sha256 machine probe)
      → All (λ e. is_seen e.0 states ≡ true) tracked
      → drop_unseen sha256 machine probe states tracked l ≡ l
  unfolding drop_unseen
  drop_unseen-quiet states [] l h = refl
  drop_unseen-quiet states ((reader, was) ∷ tracked) l h =
      ap
        (λ b.
          drop_unseen sha256 machine probe states tracked
            (if b then l else drop_reader sha256 machine probe reader was l))
        h.0
      ∙ drop_unseen-quiet states tracked l h.1

seen_entries :
    (states : List ReaderState) (table : Table Bool)
    → ((r : Bytes) → is_seen r states ≡ false → lookup r table ≡ none)
    → All (λ e. is_seen e.0 states ≡ true) table
unfolding lookup
seen_entries states [] h = tt
seen_entries states ((reader, was) ∷ table) h = (first, seen_entries states table rest)
  where
    first : is_seen reader states ≡ true
    first = elim (Bool-cases (is_seen reader states)) [
      | inl seen ↦ seen
      | inr unseen ↦ absurd (ground (arith, h reader unseen, bytes_eq_iff reader reader))
    ]

    rest : (r : Bytes) → is_seen r states ≡ false → lookup r table ≡ none
    rest r unseen = ground (
      arith,
      h r unseen,
      first,
      bytes_eq_iff reader r,
      λ (q : reader ≡ r). ap (λ r. is_seen r states) q,
    )

module _ (sha256 : Bytes → Bytes) (machine : Bytes) {W : Type 0} (probe : Probe W) where
  -- What a round leaves tracked.
  poll_round-IsTracked :
      (states : List ReaderState) (l : Loop sha256 machine probe)
      → AreDistinct states
      → All (IsTracked (poll_round sha256 machine probe states l).tracking) states
        × ((r : Bytes)
            → is_seen r states ≡ false
            → lookup r (poll_round sha256 machine probe states l).tracking.present ≡ none)
  unfolding poll_round
  poll_round-IsTracked states l distinct =
      let m = visit_all sha256 machine probe states l in
      (
        seen_kept m states (λ r h. h) (visit_all-IsTracked sha256 machine probe states l distinct),
        λ r unseen.
            drop_unseen-gone sha256 machine probe r states m.tracking.present m unseen (λ h. h),
      )
    where
      seen_kept :
          (m : Loop sha256 machine probe) (some_states : List ReaderState)
          → ((r : Bytes) → is_seen r some_states ≡ true → is_seen r states ≡ true)
          → All (IsTracked m.tracking) some_states
          → All
              (IsTracked (drop_unseen sha256 machine probe states m.tracking.present m).tracking)
              some_states
      seen_kept m [] sub h = tt
      seen_kept m (st ∷ more) sub h = (
        drop_unseen-IsTracked sha256 machine probe st states m.tracking.present m
            (sub st.reader (seen_first st more)) h.0,
        seen_kept m more (λ r k. sub r (seen_more r st more k)) h.1,
      )

-- On states with distinct names, a second round on the same states reports nothing, whatever was
-- tracked before the first one and whatever the probes of it answered.
pub poll_round-steady :
    (sha256 : Bytes → Bytes) (machine : Bytes) {W : Type 0} (probe : Probe W)
    (states : List ReaderState) (l : Loop sha256 machine probe)
    → AreDistinct states
    → (poll_round sha256 machine probe states (poll_round sha256 machine probe states l)).events
      ≡ (poll_round sha256 machine probe states l).events
poll_round-steady sha256 machine probe states l distinct =
    let first = poll_round sha256 machine probe states l in
    let (known, gone) = poll_round-IsTracked sha256 machine probe states l distinct in
    quiet first known gone
  where
    quiet :
        (first : Loop sha256 machine probe)
        → All (IsTracked first.tracking) states
        → ((r : Bytes) → is_seen r states ≡ false → lookup r first.tracking.present ≡ none)
        → (poll_round sha256 machine probe states first).events ≡ first.events
    quiet first known gone =
        let m = visit_all sha256 machine probe states first in
        let seen = seen_entries states m.tracking.present (λ r unseen.
          visit_all-unseen sha256 machine probe r states first unseen ∙ gone r unseen) in
        unfold poll_round in
        ap (λ (k : Loop sha256 machine probe). k.events)
          (drop_unseen-quiet sha256 machine probe states m.tracking.present m seen)
        ∙ visit_all-quiet sha256 machine probe states first distinct known
