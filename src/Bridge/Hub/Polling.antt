-- ===== src/Bridge/Hub/Polling.antt =====
-- What a poll by cursor returns.
use Prim.Native.Nat.{max}
use pcscid.Common.{
  ℕ, zero, suc, ◌+◌, ◌-◌, ◌%◌, ◌^◌, ◌≤◌, ◌<◌, List, [], ◌∷◌, ◌≡◌, refl, sym, ap, ◌∙◌, arith, length,
  drop, drop_nil, drop-drop, length-drop, ltb, Bool-cases, inl, inr, true,
}
use pcscid.Bridge.Hub.Ring.{added, event, numbered, length-added, Holds, run-Holds}
use pcscid.Bridge.Hub.{Item, Call, int64_lt, later_than, since, run, new_bridge_hub}

int64_lt-small : (a b : ℕ) → a < 2 ^ 63 → b < 2 ^ 63 → int64_lt a b ≡ ltb a b
unfolding int64_lt
int64_lt-small a b ha hb =
    let ea : (a + 2 ^ 63) % 2 ^ 64 ≡ a + 2 ^ 63 = omega arith in
    let eb : (b + 2 ^ 63) % 2 ^ 64 ≡ b + 2 ^ 63 = omega arith in rw (ea, eb) (ground arith)

int64_lt-negative : (a b : ℕ) → 2 ^ 63 ≤ a → a < 2 ^ 64 → b < 2 ^ 63 → int64_lt a b ≡ true
unfolding int64_lt
int64_lt-negative a b lo hi hb =
    let ea : (a + 2 ^ 63) % 2 ^ 64 ≡ a - 2 ^ 63 = omega arith in
    let eb : (b + 2 ^ 63) % 2 ^ 64 ≡ b + 2 ^ 63 = omega arith in rw (ea, eb) (ground arith)

later_than-numbered :
    (k i : ℕ) (xs : List Item)
    → k < 2 ^ 63
    → i + length xs < 2 ^ 63
    → later_than k (numbered i xs) ≡ drop (k - i) (numbered i xs)
unfolding later_than
later_than-numbered k i [] hk small = sym (drop_nil (k - i))
later_than-numbered k i (x ∷ xs) hk small =
    let rest = later_than-numbered k (i + 1) xs hk (omega arith) in
    rw (int64_lt-small k (i + 1) hk (omega arith)) (elim (Bool-cases (ltb k (i + 1))) [
      | inl new ↦
          let now : k - i ≡ 0 = ground arith in
          let next : k - (i + 1) ≡ 0 = ground arith in
          rw (new, now) (ap (◌∷◌ (event (i + 1) x)) (rest ∙ rw next))
      | inr old ↦ let e : k - i ≡ suc (k - (i + 1)) = ground arith in rw (old, e) rest
    ])

later_than-negative :
    (k i : ℕ) (xs : List Item)
    → 2 ^ 63 ≤ k
    → k < 2 ^ 64
    → i + length xs < 2 ^ 63
    → later_than k (numbered i xs) ≡ numbered i xs
unfolding later_than
later_than-negative k i [] lo hi small = refl
later_than-negative k i (x ∷ xs) lo hi small =
    rw (int64_lt-negative k (i + 1) lo hi (omega arith))
      (ap (◌∷◌ (event (i + 1) x)) (later_than-negative k (i + 1) xs lo hi (omega arith)))

drop-numbered :
    (m i : ℕ) (xs : List Item)
    → m ≤ length xs
    → drop m (numbered i xs) ≡ numbered (i + m) (drop m xs)
drop-numbered zero i xs h = let e : i ≡ i + 0 = omega arith in ap (λ k. numbered k xs) e
drop-numbered (suc m) i [] h = absurd (omega arith)
drop-numbered (suc m) i (x ∷ xs) h =
    let e : i + 1 + m ≡ i + suc m = omega arith in
    drop-numbered m (i + 1) xs (omega arith) ∙ ap (λ k. numbered k (drop m xs)) e

-- After any sequence of fewer than 2 ^ 63 calls on a new hub, a poll with a cursor that is not
-- negative returns exactly the presentations with a greater number, oldest first, of which those
-- older than the newest `cap` are gone; a poll with a negative cursor returns the whole ring.
pub since-run :
    (cap : ℕ) (cs : List Call) (cursor : ℕ)
    → length cs < 2 ^ 63
    → (cursor < 2 ^ 63
        → since cursor (run cs (new_bridge_hub cap))
          ≡ drop (max cursor (length (added cs) - cap)) (numbered 0 (added cs)))
      × (2 ^ 63 ≤ cursor
          → cursor < 2 ^ 64
          → since cursor (run cs (new_bridge_hub cap))
            ≡ drop (length (added cs) - cap) (numbered 0 (added cs)))
unfolding since
since-run cap cs k small = (
  λ hk.
      rw (holds.ring, shifted)
        (later_than-numbered k (0 + m) (drop m hist) hk fits
          ∙ ap (drop (k - (0 + m))) (sym shifted)
          ∙ drop-drop (k - (0 + m)) m (numbered 0 hist)
          ∙ ap (λ n. drop n (numbered 0 hist)) (both k)),
  λ lo hi. rw (holds.ring, shifted) (later_than-negative k (0 + m) (drop m hist) lo hi fits),
)
  where
    hist : List Item
    hist = added cs

    m : ℕ
    m = length hist - cap

    holds : Holds cap (run cs (new_bridge_hub cap)) hist
    holds = run-Holds cap cs small

    shifted : drop m (numbered 0 hist) ≡ numbered (0 + m) (drop m hist)
    shifted = drop-numbered m 0 hist (omega arith)

    fits : 0 + m + length (drop m hist) < 2 ^ 63
    fits = omega (arith, length-drop {0} m hist, length-added cs)

    both : (k : ℕ) → k - (0 + m) + m ≡ max k m
    both k = omega arith
