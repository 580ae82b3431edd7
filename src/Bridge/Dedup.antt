-- ===== src/Bridge/Dedup.antt =====
-- bridge.go, `bridgeDedup`: the same reader and card pair is dropped for a while. Times are
-- nanoseconds of the monotonic clock, so a later call has a time that is not smaller.
pub mod Window
pub mod Bound
use pcscid.Common.{
  ℕ, ◌-◌, Bool, true, false, List, [], ◌∷◌, ◌++◌, Option, none, some, Bytes, Table, lookup, put,
  length, ltb, leb, if◌then◌else◌,
}

pub record Dedup : Type 0 where
  pub window : ℕ
  pub grace : ℕ
  pub start : ℕ
  pub last : Table ℕ

abbrev pub bridge_dedup_max : ℕ
bridge_dedup_max = 1024

unfoldable pub new_bridge_dedup : ℕ → ℕ → ℕ → Dedup
new_bridge_dedup now window grace = record {
  window = window;
  grace = grace;
  start = now;
  last = [];
}

-- `reader + "|" + card`
unfoldable pub pair_key : Bytes → Bytes → Bytes
pair_key reader card = reader ++ (b'|' ∷ card)

-- The loop that deletes the stale entries.
unfoldable pub drop_stale : ℕ → ℕ → Table ℕ → Table ℕ
drop_stale now window [] = []
drop_stale now window ((k, t) ∷ m) =
    if leb window (now - t) then drop_stale now window m else (k, t) ∷ drop_stale now window m

-- The room made before a new pair is written.
unfoldable pub make_room : ℕ → ℕ → Table ℕ → Table ℕ
unfolding drop_stale
make_room now window m =
    if leb bridge_dedup_max (length m)
    then (if leb bridge_dedup_max (length (drop_stale now window m))
        then []
        else drop_stale now window m)
    else m

-- `t, ok := d.last[key]; ok && now.Sub(t) < d.window`
unfoldable pub is_recent : ℕ → ℕ → Option ℕ → Bool
is_recent now window none = false
is_recent now window (some t) = ltb (now - t) window

unfoldable pub allow : ℕ → Bytes → Bytes → Dedup → Dedup × Bool
unfolding pair_key make_room is_recent
allow now reader card d =
    if ltb (now - d.start) d.grace
    then (d, false)
    else if is_recent now d.window (lookup (pair_key reader card) d.last)
    then (record d { last = put (pair_key reader card) now d.last }, false)
    else (record d { last = put (pair_key reader card) now (make_room now d.window d.last) }, true)

-- A presentation, and when it happens.
pub record Attempt : Type 0 where
  pub time : ℕ
  pub reader : Bytes
  pub card : Bytes

unfoldable pub attempts : List Attempt → Dedup → Dedup
unfolding allow
attempts [] d = d
attempts (a ∷ rest) d = attempts rest (allow a.time a.reader a.card d).0
