-- ===== src/Usb/Lead.antt =====
-- The loop of `usbUrbWinner` over a candidate that dominates the others.
use pcscid.Common.{
  ℕ, ◌+◌, ◌≤◌, true, false, List, [], ◌∷◌, ◌++◌, some, ◌≡◌, ◌≢◌, refl, sym, ap, ◌∙◌, subst, arith,
  ◌⊎◌, inl, inr, Bytes, Table, lookup, All, ltb, Bool-cases, Option-cases,
}
use pcscid.Tags.{is_empty}
use pcscid.Usb.{Race, enter, enter_present, race, judge, or_zero}
use pcscid.Usb.Runs.{delta}

not-is_empty : (s : Bytes) → s ≢ [] → is_empty s ≡ false
unfolding is_empty
not-is_empty [] ne = absurd (ne refl)
not-is_empty (c ∷ s) ne = refl

module _ (before after : Table ℕ) where
  -- The other direction: before the dominating candidate, and behind it.
  pub record Under (d : ℕ) (r : Race) : Type 0 where
    pub low_top : r.winner_delta + 2 ≤ d
    pub low_runner : r.runner_up + 2 ≤ d

  pub record Won (w : Bytes) (d : ℕ) (r : Race) : Type 0 where
    pub won : r.winner ≡ w
    pub top : r.winner_delta ≡ d
    pub margin : r.runner_up + 2 ≤ d

  pub enter_present-delta :
      (c : Bytes) (r : Race)
      → (enter_present c (lookup c before) (or_zero (lookup c after)) r
          ≡ enter c (delta before after c) r)
        ⊎ ((enter_present c (lookup c before) (or_zero (lookup c after)) r ≡ r)
            × (delta before after c ≡ 0))
  unfolding enter_present
  enter_present-delta c r = elim (Option-cases (lookup c before)) [
    | inl absent ↦ rw (absent, enter_present) (inr (refl, refl))
    | inr (base, there) ↦ rw (there, enter_present) (inl refl)
  ]

  enter-Under :
      (d : ℕ) (c : Bytes) (r : Race)
      → delta before after c + 2 ≤ d
      → Under d r
      → Under d (enter c (delta before after c) r)
  unfolding enter
  enter-Under d c r low h = elim (Bool-cases (ltb r.winner_delta (delta before after c))) [
    | inl faster ↦ rw faster (record { low_top = low; low_runner = h.low_top })
    | inr slower ↦ elim (Bool-cases (ltb r.runner_up (delta before after c))) [
      | inl second ↦ rw (slower, second) (record { low_top = h.low_top; low_runner = low })
      | inr last ↦ rw (slower, last) h
    ]
  ]

  enter-Won_other :
      (w : Bytes) (d : ℕ) (c : Bytes) (r : Race)
      → delta before after c + 2 ≤ d
      → Won w d r
      → Won w d (enter c (delta before after c) r)
  unfolding enter
  enter-Won_other w d c r low h =
      let slower : ltb r.winner_delta (delta before after c) ≡ false = ground (arith, h.top, low) in
      elim (Bool-cases (ltb r.runner_up (delta before after c))) [
        | inl second ↦ rw (slower, second) (record { won = h.won; top = h.top; margin = low })
        | inr last ↦ rw (slower, last) h
      ]

  pub race-Under :
      (d : ℕ) (cs : List Bytes) (r : Race)
      → All (λ c. delta before after c + 2 ≤ d) cs
      → Under d r
      → Under d (race before after cs r)
  unfolding race
  race-Under d [] r low h = h
  race-Under d (c ∷ cs) r low h = race-Under d cs _ low.1 (elim (enter_present-delta c r) [
    | inl e ↦ subst (Under d) (sym e) (enter-Under d c r low.0 h)
    | inr (e, z) ↦ subst (Under d) (sym e) h
  ])

  pub race-Won :
      (w : Bytes) (d : ℕ) (cs : List Bytes) (r : Race)
      → All (λ c. delta before after c + 2 ≤ d) cs
      → Won w d r
      → Won w d (race before after cs r)
  unfolding race
  race-Won w d [] r low h = h
  race-Won w d (c ∷ cs) r low h = race-Won w d cs _ low.1 (elim (enter_present-delta c r) [
    | inl e ↦ subst (Won w d) (sym e) (enter-Won_other w d c r low.0 h)
    | inr (e, z) ↦ subst (Won w d) (sym e) h
  ])

  pub race-append :
      (xs ys : List Bytes) (r : Race)
      → race before after (xs ++ ys) r ≡ race before after ys (race before after xs r)
  unfolding race
  race-append [] ys r = refl
  race-append (x ∷ xs) ys r = race-append xs ys _

  pub enter-Won :
      (w : Bytes) (d : ℕ) (r : Race)
      → delta before after w ≡ d
      → Under d r
      → Won w d (enter w (delta before after w) r)
  unfolding enter
  enter-Won w d r e u =
      let faster : ltb r.winner_delta (delta before after w) ≡ true =
        ground (arith, e, u.low_top) in
      rw faster (record { won = refl; top = e; margin = u.low_top })

  pub Won-judge : (w : Bytes) (d : ℕ) (r : Race) → w ≢ [] → 2 ≤ d → Won w d r → judge r ≡ some w
  unfolding judge
  Won-judge w d r ne two h =
      let filled : is_empty r.winner ≡ false = ap is_empty h.won ∙ not-is_empty w ne in
      ground (arith, filled, two, h.won, h.top, h.margin)
