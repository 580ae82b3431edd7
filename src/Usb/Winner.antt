-- ===== src/Usb/Winner.antt =====
-- Which candidate the USB traffic singles out.
use pcscid.Common.{
  ℕ, ◌+◌, ◌≤◌, false, List, [], ◌∷◌, ◌++◌, some, ◌≡◌, ◌≢◌, ◌↔◌, refl, sym, ap, ◌∙◌, subst, arith,
  inl, inr, Bytes, Table, lookup, All, All-of_append,
}
use pcscid.Tags.{is_empty}
use pcscid.Usb.{Race, enter_present, race, judge, usb_urb_winner, or_zero}
use pcscid.Usb.Runs.{delta, nobody, leads, Led, race-Led}
use pcscid.Usb.Lead.{
  Won, race-Under, race-Won, race-append, enter-Won, Won-judge, enter_present-delta,
}

-- A candidate that moved by two or more, and by two more than every other.
pub record Dominates (before after : Table ℕ) (candidates : List Bytes) (w : Bytes) : Type 0 where
  pub ahead : List Bytes
  pub behind : List Bytes
  pub place : candidates ≡ ahead ++ w ∷ behind
  pub named : w ≢ []
  pub moves : 2 ≤ delta before after w
  pub others : All (λ c. delta before after c + 2 ≤ delta before after w) (ahead ++ behind)

module _ (before after : Table ℕ) where
  All-below :
      (m d : ℕ) (cs : List Bytes)
      → m + 2 ≤ d
      → All (λ c. delta before after c ≤ m) cs
      → All (λ c. delta before after c + 2 ≤ d) cs
  All-below m d [] h k = tt
  All-below m d (c ∷ cs) h k = (omega (arith, h, k.0), All-below m d cs h k.1)

  judge-Dominates :
      (candidates : List Bytes) (r : Race) (w : Bytes)
      → Led before after candidates r
      → judge r ≡ some w
      → Dominates before after candidates w
  unfolding judge is_empty
  judge-Dominates candidates r w h e =
      let same : r.winner ≡ w = ground arith in
      let filled : is_empty r.winner ≡ false = ground arith in
      let margin : r.runner_up + 2 ≤ r.winner_delta = ground arith in
      let named : r.winner ≢ [] = λ z. ground (arith, z, filled) in
      subst (Dominates before after candidates) same (elim h.standing [
        | nobody z zero_delta ↦ absurd (named z)
        | leads ahead behind place moves others ↦ record {
          ahead = ahead;
          behind = behind;
          place = place;
          named = named;
          moves = omega (arith, moves, margin);
          others =
              subst (λ d. All (λ c. delta before after c + 2 ≤ d) (ahead ++ behind)) moves
                (All-below r.runner_up r.winner_delta (ahead ++ behind) margin others);
        }
      ])

  Dominates-judge :
      (candidates : List Bytes) (w : Bytes)
      → Dominates before after candidates w
      → judge
          (race before after candidates (record { winner = []; winner_delta = 0; runner_up = 0 }))
        ≡ some w
  unfolding race
  Dominates-judge candidates w h =
      let d = delta before after w in
      let start : Race = record { winner = []; winner_delta = 0; runner_up = 0 } in
      let (low, low') =
        All-of_append (λ c. delta before after c + 2 ≤ d) h.ahead h.behind h.others in
      let mid = race before after h.ahead start in
      let under =
        race-Under before after d h.ahead start low
          (record { low_top = omega (arith, h.moves); low_runner = omega (arith, h.moves) }) in
      let won : Won before after w d
          (enter_present w (lookup w before) (or_zero (lookup w after)) mid) =
        elim (enter_present-delta before after w mid) [
          | inl e ↦ subst (Won before after w d) (sym e) (enter-Won before after w d mid refl under)
          | inr (e, z) ↦ absurd (omega (arith, z, h.moves))
        ] in
      ap (λ l. judge (race before after l start)) h.place
      ∙ ap judge (race-append before after h.ahead (w ∷ h.behind) start)
      ∙ Won-judge before after w d (race before after h.behind _) h.named h.moves
          (race-Won before after w d h.behind _ low' won)

-- The traffic singles out a candidate exactly when its counter moved by at least two, and by at
-- least two more than that of every other candidate; one that was not there before counts as not
-- moved.
pub usb_urb_winner-Dominates :
    (before after : Table ℕ) (candidates : List Bytes) (w : Bytes)
    → (usb_urb_winner (some before) (some after) candidates ≡ some w)
      ↔ Dominates before after candidates w
unfolding usb_urb_winner
usb_urb_winner-Dominates before after candidates w = (
  λ e.
      judge-Dominates before after candidates _ w
        (race-Led before after [] candidates
          (record { winner = []; winner_delta = 0; runner_up = 0 })
          (record { standing = nobody refl refl; topped = tt; behind_it = omega arith }))
        e,
  Dominates-judge before after candidates w,
)
