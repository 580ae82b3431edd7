-- ===== src/Bridge/Hub/Ring.antt =====
-- The ring holds the newest presentations of the whole history, numbered from 1.
use pcscid.Common.{
  ℕ, suc, ◌+◌, ◌-◌, ◌%◌, ◌^◌, ◌≤◌, ◌<◌, List, [], ◌∷◌, ◌++◌, append_assoc, append-nil, ◌≡◌, refl,
  sym, ap, ◌∙◌, arith, length, drop, ltb, Bool-cases, inl, inr, length-append, length-drop,
  drop_nil, drop-append, drop-drop,
}
use pcscid.Bridge.Hub.{
  Hub, BridgeEvent, Item, Call, adds, subscribes, cancels, receives, trim, add, subscribe, cancel,
  receive, step, run, new_bridge_hub, int64_mod,
}

-- The items that a sequence of calls adds.
abbrev pub added : List Call → List Item
added [] = []
added (adds x ∷ cs) = x ∷ added cs
added (subscribes ∷ cs) = added cs
added (cancels ch ∷ cs) = added cs
added (receives ch ∷ cs) = added cs

abbrev pub event : ℕ → Item → BridgeEvent
event i x = record { id = i; reader = x.reader; card = x.card; sig = x.sig }

-- The history as events, when `i` items came before.
abbrev pub numbered : ℕ → List Item → List BridgeEvent
numbered i [] = []
numbered i (x ∷ xs) = event (i + 1) x ∷ numbered (i + 1) xs

pub length-numbered : (i : ℕ) (xs : List Item) → length (numbered i xs) ≡ length xs
length-numbered i [] = refl
length-numbered i (x ∷ xs) = ap suc (length-numbered (i + 1) xs)

numbered-append :
    (i : ℕ) (xs ys : List Item)
    → numbered i (xs ++ ys) ≡ numbered i xs ++ numbered (i + length xs) ys
numbered-append i [] ys = let e : i ≡ i + 0 = omega arith in ap (λ k. numbered k ys) e
numbered-append i (x ∷ xs) ys =
    let e : i + 1 + length xs ≡ i + suc (length xs) = omega arith in
    ap (◌∷◌ (event (i + 1) x))
      (numbered-append (i + 1) xs ys ∙ ap (λ k. numbered (i + 1) xs ++ numbered k ys) e)

-- `hist` is what was added so far; the ring is its newest part, of at most `cap` events.
pub record Holds (cap : ℕ) (h : Hub) (hist : List Item) : Type 0 where
  pub capacity : h.cap ≡ cap
  pub counts : h.next ≡ length hist
  pub ring : h.buf ≡ drop (length hist - cap) (numbered 0 hist)

trim-drop : (cap : ℕ) (evs : List BridgeEvent) → trim cap evs ≡ drop (length evs - cap) evs
unfolding trim
trim-drop cap evs = elim (Bool-cases (ltb cap (length evs))) [
  | inl over ↦ rw over
  | inr fits ↦ let e : length evs - cap ≡ 0 = ground arith in rw fits (ap (λ k. drop k evs) (sym e))
]

-- Cutting the ring after each addition is cutting the whole history once.
trim_of_drop :
    (cap : ℕ) (evs : List BridgeEvent) (ev : BridgeEvent)
    → trim cap (drop (length evs - cap) evs ++ ev ∷ [])
      ≡ drop (length (evs ++ ev ∷ []) - cap) (evs ++ ev ∷ [])
trim_of_drop cap evs ev =
    let k = length evs - cap in
    let more = length-append {0} evs (ev ∷ []) in
    let kept : k ≤ length evs = omega arith in
    let e : length (drop k evs ++ ev ∷ []) - cap + k ≡ length (evs ++ ev ∷ []) - cap =
      omega (arith, length-append {0} (drop k evs) (ev ∷ []), length-drop {0} k evs, more) in
    trim-drop cap (drop k evs ++ ev ∷ [])
    ∙ ap (drop (length (drop k evs ++ ev ∷ []) - cap)) (sym (drop-append k evs (ev ∷ []) kept))
    ∙ drop-drop (length (drop k evs ++ ev ∷ []) - cap) k (evs ++ ev ∷ [])
    ∙ ap (λ n. drop n (evs ++ ev ∷ [])) e

trim_of_drop_at :
    (cap n : ℕ) (evs : List BridgeEvent) (ev : BridgeEvent)
    → length evs ≡ n
    → trim cap (drop (n - cap) evs ++ ev ∷ [])
      ≡ drop (length (evs ++ ev ∷ []) - cap) (evs ++ ev ∷ [])
trim_of_drop_at cap n evs ev e = rw (← e) (trim_of_drop cap evs ev)

Holds-add :
    {cap : ℕ} {h : Hub} {hist : List Item} (x : Item)
    → Holds cap h hist
    → length hist + 1 < 2 ^ 63
    → Holds cap (add x.reader x.card x.sig h).0 (hist ++ x ∷ [])
unfolding add
Holds-add {cap} {h} {hist} x v small = record {
  capacity = v.capacity;
  counts = omega (arith, length-append {0} hist (x ∷ []), v.counts);
  ring =
      let n = length hist in
      let all = numbered 0 hist in
      let ev = event (0 + n + 1) x in
      let number : (h.next + 1) % int64_mod ≡ 0 + n + 1 = omega (arith, v.counts, small) in
      let same = length-numbered 0 hist in
      let after = numbered-append 0 hist (x ∷ []) in
      let lengths : length (all ++ ev ∷ []) ≡ length (hist ++ x ∷ []) =
        omega (arith, length-append {0} all (ev ∷ []), length-append {0} hist (x ∷ []), same) in
      rw (v.capacity, v.ring, number)
        (trim_of_drop_at cap n all ev same
          ∙ ap (λ k. drop (k - cap) (all ++ ev ∷ [])) lengths
          ∙ ap (drop (length (hist ++ x ∷ []) - cap)) (sym after));
}

Holds-new : (cap : ℕ) → Holds cap (new_bridge_hub cap) []
unfolding new_bridge_hub
Holds-new cap = record { capacity = refl; counts = refl; ring = sym (drop_nil (0 - cap)) }

-- A call keeps the history, with the item that it adds.
Holds-step :
    {cap : ℕ} {h : Hub} {hist : List Item} (c : Call)
    → Holds cap h hist
    → length hist + 1 < 2 ^ 63
    → Holds cap (step c h) (hist ++ added (c ∷ []))
unfolding step subscribe cancel receive
Holds-step (adds x) v small = Holds-add x v small
Holds-step {cap} {h} {hist} subscribes v small =
    rw append-nil (record { capacity = v.capacity; counts = v.counts; ring = v.ring })
Holds-step {cap} {h} {hist} (cancels ch) v small =
    rw append-nil (record { capacity = v.capacity; counts = v.counts; ring = v.ring })
Holds-step {cap} {h} {hist} (receives ch) v small =
    rw append-nil (record { capacity = v.capacity; counts = v.counts; ring = v.ring })

added-cons : (c : Call) (cs : List Call) → added (c ∷ cs) ≡ added (c ∷ []) ++ added cs
added-cons (adds x) cs = refl
added-cons subscribes cs = refl
added-cons (cancels ch) cs = refl
added-cons (receives ch) cs = refl

pub length-added : (cs : List Call) → length (added cs) ≤ length cs
length-added [] = omega arith
length-added (adds x ∷ cs) = omega (arith, length-added cs)
length-added (subscribes ∷ cs) = omega (arith, length-added cs)
length-added (cancels ch ∷ cs) = omega (arith, length-added cs)
length-added (receives ch ∷ cs) = omega (arith, length-added cs)

Holds-run :
    {cap : ℕ} (cs : List Call) {h : Hub} {hist : List Item}
    → Holds cap h hist
    → length hist + length cs < 2 ^ 63
    → Holds cap (run cs h) (hist ++ added cs)
unfolding run
Holds-run [] {hist = hist} v small = rw append-nil v
Holds-run {cap} (c ∷ cs) {h} {hist} v small =
    let short : length (added (c ∷ [])) ≤ 1 = length-added (c ∷ []) in
    let more = length-append {0} hist (added (c ∷ [])) in
    rw (added-cons c cs, ← append_assoc)
      (Holds-run cs (Holds-step c v (omega arith)) (omega (arith, more, short)))

-- After any sequence of fewer than 2 ^ 63 calls on a new hub, interleaved in any way, the counter
-- is the number of presentations added, and the ring holds exactly the newest `cap` of them, in
-- order, numbered from 1 without a gap.
pub run-Holds :
    (cap : ℕ) (cs : List Call)
    → length cs < 2 ^ 63
    → Holds cap (run cs (new_bridge_hub cap)) (added cs)
run-Holds cap cs small = Holds-run cs (Holds-new cap) (omega arith)
