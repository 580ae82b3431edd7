-- ===== src/Bridge/Dedup/Bound.antt =====
-- The table of pairs is bounded.
use pcscid.Common.{
  ℕ, ◌≤◌, ◌<◌, List, [], ◌∷◌, arith, Bytes, Table, lookup, length, length-put, length-insert_known,
  Option-cases, inl, inr,
}
use pcscid.Bridge.Dedup.{
  Dedup, Attempt, bridge_dedup_max, pair_key, make_room, allow, attempts, new_bridge_dedup,
}

length-make_room : (now window : ℕ) (m : Table ℕ) → length (make_room now window m) < 1024
unfolding make_room
length-make_room now window m = ground arith

length-allow :
    (now : ℕ) (reader card : Bytes) (d : Dedup)
    → length d.last ≤ bridge_dedup_max
    → length (allow now reader card d).0.last ≤ bridge_dedup_max
unfolding allow
length-allow now reader card d h =
    let key = pair_key reader card in
    let room = make_room now d.window d.last in
    elim (Option-cases (lookup key d.last)) [
      | inl new ↦ ground (arith, length-make_room now d.window d.last, length-put key now room)
      | inr (t, known) ↦ ground (
        arith,
        length-make_room now d.window d.last,
        length-put key now room,
        length-insert_known key now t d.last known,
      )
    ]

length-attempts_from :
    (seq : List Attempt) (d : Dedup)
    → length d.last ≤ bridge_dedup_max
    → length (attempts seq d).last ≤ bridge_dedup_max
unfolding attempts
length-attempts_from [] d h = h
length-attempts_from (a ∷ rest) d h =
    length-attempts_from rest (allow a.time a.reader a.card d).0
      (length-allow a.time a.reader a.card d h)

-- Whatever presentations arrive and when, a new filter never remembers more than 1024 pairs.
pub length-attempts :
    (now window grace : ℕ) (seq : List Attempt)
    → length (attempts seq (new_bridge_dedup now window grace)).last ≤ bridge_dedup_max
unfolding new_bridge_dedup
length-attempts now window grace seq =
    length-attempts_from seq (new_bridge_dedup now window grace) (omega arith)
