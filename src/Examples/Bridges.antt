-- ===== src/Examples/Bridges.antt =====
-- The bridge at concrete inputs.
use Prim.Native.Nat.{max}
use Prim.Native.String.{String}
use pcscid.Common.{
  ℕ, ◌-◌, ◌^◌, ◌≤◌, ◌<◌, ◌*◌, true, false, List, [], ◌∷◌, ◌++◌, some, ◌≡◌, refl, arith, Bytes,
  codes, All, length, drop, replicate, lookup, put,
}
use pcscid.Bridge.Dedup.Bound.{length-attempts}
use pcscid.Bridge.Dedup.Window.{allow_repeat, allow_again}
use pcscid.Bridge.Dedup.{
  Dedup, Attempt, attempts, allow, pair_key, new_bridge_dedup, bridge_dedup_max,
}
use pcscid.Bridge.Feed.{Bridge, Sign, feed, event_tag, second}
use pcscid.Bridge.Hub.Polling.{since-run}
use pcscid.Bridge.Hub.Queues.{Ordered, run-Ordered}
use pcscid.Bridge.Hub.Ring.{Holds, added, numbered, run-Holds}
use pcscid.Bridge.Hub.{
  BridgeEvent, Item, Call, adds, subscribes, cancels, receives, since, run, new_bridge_hub, trim,
}
use pcscid.Cli.Lines.{rebuilt, feed-print_event}
use pcscid.Cli.{line, print_event}
use pcscid.Event.{Event, Card, insert, uid_source}

abbrev item : String → Item
item card = record { reader = codes "qr-xlrk-i5"; card = codes card; sig = [] }

abbrev calls : List Call
calls =
    subscribes ∷ adds (item "a") ∷ adds (item "b") ∷ receives 0 ∷ adds (item "c") ∷ cancels 0 ∷ []

-- A ring of two keeps the last two of three.
ring_test : since 1 (run calls (new_bridge_hub 2)) ≡ drop 1 (numbered 0 (added calls))
unfolding since run new_bridge_hub
ring_test = refl

run-Holds_example : Holds 2 (run calls (new_bridge_hub 2)) (added calls)
run-Holds_example = run-Holds 2 calls (omega arith)

since-run_example :
    (1 < 2 ^ 63
      → since 1 (run calls (new_bridge_hub 2))
        ≡ drop (max 1 (length (added calls) - 2)) (numbered 0 (added calls)))
    × (2 ^ 63 ≤ 1
        → 1 < 2 ^ 64
        → since 1 (run calls (new_bridge_hub 2))
          ≡ drop (length (added calls) - 2) (numbered 0 (added calls)))
since-run_example = since-run 2 calls 1 (omega arith)

run-Ordered_example :
    All (Ordered (run calls (new_bridge_hub 2)).next) (run calls (new_bridge_hub 2)).subs
unfolding new_bridge_hub
run-Ordered_example = run-Ordered calls (new_bridge_hub 2) (omega arith) tt

abbrev attempt : ℕ → String → Attempt
attempt t card = record { time = t; reader = codes "r"; card = codes card }

abbrev filter_at_zero : Dedup
filter_at_zero = record { window = 30; grace = 20; start = 0; last = [] }

allow_repeat_example :
    (allow 60 (codes "r") (codes "a") (
      attempts
        (attempt 41 "b" ∷ attempt 55 "a" ∷ [])
        (allow 40 (codes "r") (codes "a") filter_at_zero).0)).1
    ≡ false
unfolding allow lookup put
allow_repeat_example =
    allow_repeat 40 60 (codes "r") (codes "a") filter_at_zero (attempt 41 "b" ∷ attempt 55 "a" ∷ [])
      (omega arith) (omega arith) (omega arith) (omega arith)

other_pair : ¬ (pair_key (codes "r") (codes "b") ≡ pair_key (codes "r") (codes "a"))
unfolding pair_key
other_pair e = ground arith

allow_again_example :
    (allow 80
      (codes "r")
      (codes "a")
      (attempts (attempt 50 "a" ∷ attempt 79 "b" ∷ []) (new_bridge_dedup 0 30 20))).1
    ≡ true
allow_again_example =
    allow_again 0 30 20 80 (codes "r") (codes "a") (attempt 50 "a" ∷ attempt 79 "b" ∷ [])
      (omega arith) ((λ e. omega arith), ((λ e. absurd (other_pair e)), tt))

length-attempts_example :
    length (attempts (attempt 50 "a" ∷ attempt 79 "b" ∷ []) (new_bridge_dedup 0 30 20)).last
    ≤ bridge_dedup_max
length-attempts_example = length-attempts 0 30 20 (attempt 50 "a" ∷ attempt 79 "b" ∷ [])

abbrev toy_digest : Bytes → Bytes
toy_digest m = replicate 32 (length m)

abbrev toy_sign : Sign
toy_sign m = codes "sig"

abbrev card : Card
card = record {
  id = codes "r3v-401-5gmr";
  card_type = codes "felica";
  uid = 1 ∷ 2 ∷ 3 ∷ [];
  atr = [];
  reader = codes "ACS ACR122U 00 00";
  source = uid_source;
}

abbrev inserted : Event
inserted = record {
  kind = insert;
  card = some card;
  reader = codes "ACS ACR122U 00 00";
  reader_tag = codes "qr-xlrk-i5";
  reader_serial = [];
  reader_port = [];
}

abbrev bridge : Bridge
bridge = record {
  hub = record { next = 0; cap = 64; buf = []; subs = []; made = 0 };
  dedup = record { window = 3 * second; grace = 2 * second; start = 0; last = [] };
  signer = some toy_sign;
}

feed-print_event_example :
    (e : BridgeEvent) × ((feed toy_digest (5 * second) inserted bridge).hub.buf
      ≡ trim 64 ([] ++ e ∷ []))
    × (print_event toy_digest (some toy_sign) inserted ≡ line (rebuilt (some toy_sign) e))
unfolding allow event_tag lookup
feed-print_event_example =
    feed-print_event toy_digest (5 * second) inserted card bridge refl refl refl
