-- ===== src/Usb/Runs.antt =====
-- The loop of `usbUrbWinner`: what it knows behind the candidates that it has seen.
use pcscid.Common.{
  ℕ, ◌-◌, ◌≤◌, List, [], ◌∷◌, ◌++◌, Option, none, some, ◌≡◌, refl, sym, ap, ◌∙◌, subst, arith, inl,
  inr, Bytes, Table, lookup, All, All-append, All-of_append, ltb, Bool-cases, Option-cases,
  append_assoc, append-nil,
}
use pcscid.Usb.{Race, enter, enter_present, race, or_zero}

-- What a candidate's counter moved by. One that was not there before has not moved.
abbrev pub moved : Option ℕ → ℕ → ℕ
moved none after = 0
moved (some base) after = after - base

abbrev pub delta : Table ℕ → Table ℕ → Bytes → ℕ
delta before after c = moved (lookup c before) (or_zero (lookup c after))

module _ (before after : Table ℕ) where
  -- What the race knows behind a list of candidates.
  pub data Standing (seen : List Bytes) (r : Race) : Type 0 where
    nobody : r.winner ≡ [] → r.winner_delta ≡ 0 → Standing seen r
    leads :
        (ahead behind : List Bytes)
        → seen ≡ ahead ++ r.winner ∷ behind
        → r.winner_delta ≡ delta before after r.winner
        → All (λ c. delta before after c ≤ r.runner_up) (ahead ++ behind)
        → Standing seen r

  -- All that was seen stays at or below the winner.
  pub record Led (seen : List Bytes) (r : Race) : Type 0 where
    pub standing : Standing seen r
    pub topped : All (λ c. delta before after c ≤ r.winner_delta) seen
    pub behind_it : r.runner_up ≤ r.winner_delta

  pub All-up :
      (m n : ℕ) (cs : List Bytes)
      → m ≤ n
      → All (λ c. delta before after c ≤ m) cs
      → All (λ c. delta before after c ≤ n) cs
  All-up m n [] h k = tt
  All-up m n (c ∷ cs) h k = (omega (arith, h, k.0), All-up m n cs h k.1)

  -- A candidate that does not take the lead stands behind the winner.
  Standing-follow :
      (seen : List Bytes) (c : Bytes) (r : Race) (up : ℕ)
      → Led seen r
      → r.runner_up ≤ up
      → delta before after c ≤ up
      → (up ≤ r.winner_delta)
      → Led (seen ++ c ∷ []) (record r { runner_up = up })
  Standing-follow seen c r up h old new below = record {
    standing = elim h.standing [
      | nobody e z ↦ nobody e z
      | leads ahead behind place moves others ↦
          let (first, last) =
            All-of_append (λ c. delta before after c ≤ r.runner_up) ahead behind others in
          leads ahead (behind ++ c ∷ [])
            (ap (λ l. l ++ c ∷ []) place ∙ append_assoc ahead (r.winner ∷ behind) (c ∷ [])) moves
            (All-append (λ c. delta before after c ≤ up) ahead (behind ++ c ∷ [])
              (All-up r.runner_up up ahead old first)
              (All-append (λ c. delta before after c ≤ up) behind (c ∷ [])
                (All-up r.runner_up up behind old last) (new, tt)))
    ];
    topped =
        All-append (λ c. delta before after c ≤ r.winner_delta) seen (c ∷ []) h.topped
          (omega (arith, new, below), tt);
    behind_it = below;
  }

  enter-Led :
      (seen : List Bytes) (c : Bytes) (r : Race)
      → Led seen r
      → Led (seen ++ c ∷ []) (enter c (delta before after c) r)
  unfolding enter
  enter-Led seen c r h = elim (Bool-cases (ltb r.winner_delta (delta before after c))) [
    | inl faster ↦ rw faster (record {
      standing = leads seen [] refl refl (
          subst (All (λ c. delta before after c ≤ r.winner_delta)) (sym (append-nil seen))
            h.topped);
      topped =
          All-append (λ e. delta before after e ≤ delta before after c) seen (c ∷ [])
            (All-up r.winner_delta (delta before after c) seen (ground arith) h.topped)
            (omega arith, tt);
      behind_it = ground arith;
    })
    | inr slower ↦ elim (Bool-cases (ltb r.runner_up (delta before after c))) [
      | inl second ↦
          rw (slower, second)
            (Standing-follow seen c r (delta before after c) h (ground arith) (omega arith)
              (ground arith))
      | inr last ↦
          rw (slower, last)
            (Standing-follow seen c r r.runner_up h (omega arith) (ground arith) h.behind_it)
    ]
  ]

  enter_present-Led :
      (seen : List Bytes) (c : Bytes) (r : Race)
      → Led seen r
      → Led (seen ++ c ∷ []) (enter_present c (lookup c before) (or_zero (lookup c after)) r)
  unfolding enter_present
  enter_present-Led seen c r h = elim (Option-cases (lookup c before)) [
    | inl absent ↦
        rw (absent, enter_present)
          (Standing-follow seen c r r.runner_up h (omega arith) (rw absent (omega arith))
            h.behind_it)
    | inr (base, there) ↦
        let e : delta before after c ≡ or_zero (lookup c after) - base = rw there refl in
        rw (there, enter_present)
          (subst (λ d. Led (seen ++ c ∷ []) (enter c d r)) e (enter-Led seen c r h))
  ]

  pub race-Led :
      (seen candidates : List Bytes) (r : Race)
      → Led seen r
      → Led (seen ++ candidates) (race before after candidates r)
  unfolding race
  race-Led seen [] r h = subst (λ l. Led l r) (sym (append-nil seen)) h
  race-Led seen (c ∷ candidates) r h =
      let next = enter_present c (lookup c before) (or_zero (lookup c after)) r in
      subst (λ l. Led l (race before after candidates next)) (append_assoc seen (c ∷ []) candidates)
        (race-Led (seen ++ c ∷ []) candidates next (enter_present-Led seen c r h))
