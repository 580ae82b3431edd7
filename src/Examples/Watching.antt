-- ===== src/Examples/Watching.antt =====
-- A session at a concrete daemon.
use pcscid.Common.{
  ◌≡◌, refl, ℕ, suc, List, [], ◌∷◌, Bytes, Table, All, codes, length, replicate, ◌%◌,
}
use pcscid.Units.{Facts}
use pcscid.Watch.Insertions.{IsReport, reports-IsReport}
use pcscid.Watch.Steady.{AreDistinct, poll_round-steady}
use pcscid.Watch.{new_tracking, is_seen, poll_round, poll_rounds, Loop}
use pcscid.Wire.States.{ReaderState}

-- A stand-in for SHA-256, of the right size.
abbrev toy_digest : Bytes → Bytes
toy_digest m = replicate 32 (length m % 256)

-- Every card has the same UID. The state counts the probes.
abbrev toy_probe : Bytes → Table Bytes → Facts → ℕ → Facts × ℕ
toy_probe reader claims known n =
    (record { serial = []; port = []; uid = 4 ∷ 5 ∷ 6 ∷ 7 ∷ []; protocol = 2 }, suc n)

abbrev shows : ℕ → ℕ → ReaderState
shows state counter = record {
  reader = codes "ACS";
  event_counter = counter;
  state = state;
  atr = [];
  protocol = 2;
}

-- A card is inserted, stays, is swapped, and the reader is unplugged.
abbrev story : List (List ReaderState)
story = (shows 0x74 1 ∷ []) ∷ (shows 0x74 1 ∷ []) ∷ (shows 0x74 3 ∷ []) ∷ [] ∷ []

abbrev start : Loop toy_digest [] toy_probe
start = record { tracking = new_tracking; world = 0; events = [] }

reports-IsReport_example :
    All (IsReport toy_digest []) (poll_rounds toy_digest [] toy_probe story start).events
reports-IsReport_example = reports-IsReport toy_digest [] toy_probe story new_tracking 0

abbrev one_card : List ReaderState
one_card = shows 0x74 1 ∷ []

one_report : length (poll_round toy_digest [] toy_probe one_card start).events ≡ 1
unfolding poll_round pcscid.Common.put pcscid.Common.lookup new_tracking pcscid.Common.bytes_eq
one_report = refl

AreDistinct-one : AreDistinct one_card
unfolding is_seen
AreDistinct-one = (refl, tt)

poll_round-steady_example :
    (poll_round toy_digest [] toy_probe one_card
      (poll_round toy_digest [] toy_probe one_card start)).events
    ≡ (poll_round toy_digest [] toy_probe one_card start).events
poll_round-steady_example = poll_round-steady toy_digest [] toy_probe one_card start AreDistinct-one
