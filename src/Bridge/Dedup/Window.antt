-- ===== src/Bridge/Dedup/Window.antt =====
-- When a repeated presentation is dropped, and when it is served again.
use pcscid.Common.{
  ℕ, ◌+◌, ◌-◌, ◌≤◌, ◌<◌, true, false, List, [], ◌∷◌, some, ◌≡◌, refl, ◌∙◌, arith, Bytes, Table,
  lookup, put, All, length, ltb, leb, length-put, lookup-put, bytes_eq, bytes_eq_iff, Bool-cases,
  inl, inr,
}
use pcscid.Bridge.Dedup.{
  Dedup, Attempt, bridge_dedup_max, pair_key, drop_stale, make_room, is_recent, allow, attempts,
  new_bridge_dedup,
}

make_room_small :
    (now window : ℕ) (m : Table ℕ) → length m < bridge_dedup_max → make_room now window m ≡ m
unfolding make_room
make_room_small now window m h = ground arith

-- The pair `k` was presented at `t` or later.
record Seen (k : Bytes) (t : ℕ) (d : Dedup) : Type 0 where
  at : ℕ
  found : lookup k d.last ≡ some at
  late : t ≤ at

abbrev noted : Dedup → Bytes → ℕ → Table ℕ → Dedup
noted d k now m = record d { last = put k now m }

Seen-noted :
    {k : Bytes} {t : ℕ} (d : Dedup) (j : Bytes) (now : ℕ)
    → Seen k t d
    → t ≤ now
    → Seen k t (noted d j now d.last)
Seen-noted {k} {t} d j now s h = elim (Bool-cases (bytes_eq j k)) [
  | inl same ↦ record { at = now; found = lookup-put j k now d.last ∙ rw same; late = h }
  | inr other ↦ record {
    at = s.at;
    found = lookup-put j k now d.last ∙ rw other s.found;
    late = s.late;
  }
]

-- While there is room, an attempt keeps what was seen, and adds at most one pair.
record Kept (k : Bytes) (t : ℕ) (d d' : Dedup) : Type 0 where
  seen : Seen k t d'
  grows : length d'.last ≤ length d.last + 1
  same_window : d'.window ≡ d.window
  same_start : (d'.start ≡ d.start) × (d'.grace ≡ d.grace)

Kept-allow :
    {k : Bytes} {t : ℕ} (now : ℕ) (reader card : Bytes) (d : Dedup)
    → Seen k t d
    → t ≤ now
    → length d.last < bridge_dedup_max
    → Kept k t d (allow now reader card d).0
unfolding allow
Kept-allow {k} {t} now reader card d s h small = elim (Bool-cases (ltb (now - d.start) d.grace)) [
  | inl early ↦
      rw early
        (record { seen = s; grows = omega arith; same_window = refl; same_start = (refl, refl) })
  | inr on ↦ elim (Bool-cases (is_recent now d.window (lookup key d.last))) [
    | inl recent ↦ rw (on, recent) wrote
    | inr stale ↦ rw (on, stale, make_room_small now d.window d.last small) wrote
  ]
]
  where
    key : Bytes
    key = pair_key reader card

    wrote : Kept k t d (noted d key now d.last)
    wrote = record {
      seen = Seen-noted d key now s h;
      grows = length-put key now d.last;
      same_window = refl;
      same_start = (refl, refl);
    }

Kept-attempts :
    {k : Bytes} {t : ℕ} (seq : List Attempt) (d : Dedup)
    → Seen k t d
    → All (λ a. t ≤ a.time) seq
    → length d.last + length seq ≤ bridge_dedup_max
    → Seen k t (attempts seq d) × ((attempts seq d).window ≡ d.window)
unfolding attempts
Kept-attempts [] d s h small = (s, refl)
Kept-attempts (a ∷ rest) d s h small =
    let kept = Kept-allow a.time a.reader a.card d s h.0 (omega arith) in
    let g = kept.grows in
    let (later, w) =
      Kept-attempts rest (allow a.time a.reader a.card d).0 kept.seen h.1 (omega arith) in
    (later, w ∙ kept.same_window)

Seen-allow :
    (now : ℕ) (reader card : Bytes) (d : Dedup)
    → d.grace ≤ now - d.start
    → Seen (pair_key reader card) now (allow now reader card d).0
unfolding allow
Seen-allow now reader card d h =
    let key = pair_key reader card in
    record {
      at = now;
      found = ground (
        arith,
        h,
        bytes_eq_iff key key,
        lookup-put key key now d.last,
        lookup-put key key now (make_room now d.window d.last),
      );
      late = omega arith;
    }

allow-recent :
    (now t : ℕ) (reader card : Bytes) (d : Dedup)
    → Seen (pair_key reader card) t d
    → now - t < d.window
    → (allow now reader card d).1 ≡ false
unfolding allow is_recent
allow-recent now t reader card d s h = let found = s.found in let late = s.late in ground arith

-- Once the startup grace is over, a presentation of a reader and card pair at `t` silences the
-- pair: whatever presentations follow (none of them before `t`, and so few that the table of 1024
-- pairs does not fill), the pair is not served again before the window has passed.
pub allow_repeat :
    (t now : ℕ) (reader card : Bytes) (d : Dedup) (seq : List Attempt)
    → d.grace ≤ t - d.start
    → All (λ a. t ≤ a.time) seq
    → length (allow t reader card d).0.last + length seq ≤ bridge_dedup_max
    → now - t < d.window
    → (allow now reader card (attempts seq (allow t reader card d).0)).1 ≡ false
allow_repeat t now reader card d seq grace late small short =
    let d' = (allow t reader card d).0 in
    let (seen, w) = Kept-attempts seq d' (Seen-allow t reader card d grace) late small in
    let w' = window-allow t reader card d in
    allow-recent now t reader card (attempts seq d') seen (omega (arith, w, w'))
  where
    window-allow :
        (now : ℕ) (reader card : Bytes) (d : Dedup) → (allow now reader card d).0.window ≡ d.window
    window-allow now reader card d = unfold allow in ground arith

-- Every entry of the pair `k` is older than the window at `now`.
abbrev Old : Bytes → ℕ → ℕ → Table ℕ → Type 0
Old k now window = All (λ e. e.0 ≡ k → window ≤ now - e.1)

Old-put :
    (k j : Bytes) (now window t : ℕ) (m : Table ℕ)
    → Old k now window m
    → (j ≡ k → window ≤ now - t)
    → Old k now window (put j t m)
unfolding put
Old-put k j now window t [] o h = (h, tt)
Old-put k j now window t ((i, v) ∷ m) o h = elim (Bool-cases (bytes_eq i j)) [
  | inl same ↦ rw same (h, o.1)
  | inr other ↦ rw other (o.0, Old-put k j now window t m o.1 h)
]

Old-drop_stale :
    (k : Bytes) (now window at w : ℕ) (m : Table ℕ)
    → Old k now window m
    → Old k now window (drop_stale at w m)
unfolding drop_stale
Old-drop_stale k now window at w [] o = tt
Old-drop_stale k now window at w ((i, v) ∷ m) o = elim (Bool-cases (leb w (at - v))) [
  | inl stale ↦ rw stale (Old-drop_stale k now window at w m o.1)
  | inr fresh ↦ rw fresh (o.0, Old-drop_stale k now window at w m o.1)
]

Old-make_room :
    (k : Bytes) (now window at w : ℕ) (m : Table ℕ)
    → Old k now window m
    → Old k now window (make_room at w m)
unfolding make_room
Old-make_room k now window at w m o = elim (Bool-cases (leb bridge_dedup_max (length m))) [
  | inl full ↦ elim (Bool-cases (leb bridge_dedup_max (length (drop_stale at w m)))) [
    | inl still ↦ rw (full, still) tt
    | inr room ↦ rw (full, room) (Old-drop_stale k now window at w m o)
  ]
  | inr room ↦ rw room o
]

Old-allow :
    (k : Bytes) (now window at : ℕ) (reader card : Bytes) (d : Dedup)
    → Old k now window d.last
    → (pair_key reader card ≡ k → window ≤ now - at)
    → Old k now window (allow at reader card d).0.last
unfolding allow
Old-allow k now window at reader card d o h =
    let key = pair_key reader card in
    elim (Bool-cases (ltb (at - d.start) d.grace)) [
      | inl early ↦ rw early o
      | inr on ↦ elim (Bool-cases (is_recent at d.window (lookup key d.last))) [
        | inl recent ↦ rw (on, recent) (Old-put k key now window at d.last o h)
        | inr stale ↦
            rw (on, stale)
              (Old-put k key now window at (make_room at d.window d.last)
                (Old-make_room k now window at d.window d.last o) h)
      ]
    ]

Old-lookup :
    (k : Bytes) (now window : ℕ) (m : Table ℕ)
    → Old k now window m
    → is_recent now window (lookup k m) ≡ false
unfolding lookup is_recent
Old-lookup k now window [] o = refl
Old-lookup k now window ((i, v) ∷ m) o = elim (Bool-cases (bytes_eq i k)) [
  | inl same ↦ let old = o.0 ((bytes_eq_iff i k).0 same) in rw (same, is_recent) (ground arith)
  | inr other ↦ rw (other, lookup) (Old-lookup k now window m o.1)
]

-- What the attempts leave alone.
record Served (now window grace start : ℕ) (k : Bytes) (d : Dedup) : Type 0 where
  same_window : d.window ≡ window
  same_grace : d.grace ≡ grace
  same_start : d.start ≡ start
  old : Old k now window d.last

Served-attempts :
    {now window grace start : ℕ} {k : Bytes} (seq : List Attempt) (d : Dedup)
    → Served now window grace start k d
    → All (λ a. pair_key a.reader a.card ≡ k → window ≤ now - a.time) seq
    → Served now window grace start k (attempts seq d)
unfolding attempts
Served-attempts [] d s h = s
Served-attempts {now} {window} {grace} {start} {k} (a ∷ rest) d s h =
    Served-attempts rest (allow a.time a.reader a.card d).0
      (record {
        same_window = same.0 ∙ s.same_window;
        same_grace = same.1 ∙ s.same_grace;
        same_start = same.2 ∙ s.same_start;
        old = Old-allow k now window a.time a.reader a.card d s.old h.0;
      })
      h.1
  where
    same :
        ((allow a.time a.reader a.card d).0.window ≡ d.window)
        × ((allow a.time a.reader a.card d).0.grace ≡ d.grace)
        × ((allow a.time a.reader a.card d).0.start ≡ d.start)
    same = unfold allow in (ground arith, ground arith, ground arith)

-- A new filter serves a presentation after its startup grace if every earlier presentation of the
-- same pair lies at least a window back, whatever else was presented and however full the table
-- became.
pub allow_again :
    (start window grace now : ℕ) (reader card : Bytes) (seq : List Attempt)
    → grace ≤ now - start
    → All (λ a. pair_key a.reader a.card ≡ pair_key reader card → window ≤ now - a.time) seq
    → (allow now reader card (attempts seq (new_bridge_dedup start window grace))).1 ≡ true
unfolding new_bridge_dedup
allow_again start window grace now reader card seq over old =
    let d = attempts seq (new_bridge_dedup start window grace) in
    let s =
      Served-attempts {k = pair_key reader card} seq (new_bridge_dedup start window grace)
        (record { same_window = refl; same_grace = refl; same_start = refl; old = tt }) old in
    served d s over
  where
    served :
        (d : Dedup)
        → Served now window grace start (pair_key reader card) d
        → grace ≤ now - start
        → (allow now reader card d).1 ≡ true
    served d s over =
        let quiet = Old-lookup (pair_key reader card) now window d.last s.old in
        let w = s.same_window in
        let g = s.same_grace in let b = s.same_start in unfold allow in ground arith
