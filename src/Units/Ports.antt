-- ===== src/Units/Ports.antt =====
-- No two readers of a session share a port.
use pcscid.Common.{
  false, not, ◌&&◌, List, [], ◌∷◌, none, some, ◌≡◌, ◌≢◌, refl, ◌∙◌, arith, inl, inr, Bytes, lookup,
  lookup-delete, bytes_eq, bytes_eq_iff, if◌then◌else◌, Bool-cases, Option-cases,
}
use pcscid.Tags.{is_empty}
use pcscid.Units.{
  Facts, Registry, is_own, adopt, forget, forget_known, change, changes, Change, adopts, forgets,
  new_unit_registry,
}
use pcscid.Units.Adoption.{IsExclusive, is_empty_iff, adopt-IsExclusive}

module _ (reader : Bytes) (f : Facts) (r : Registry) (inv : IsExclusive r) where
  holder-forget_known :
      (p : Bytes)
      → lookup p (forget_known reader (some f) r).by_port ≡ (
          if (not (is_empty f.port) && is_own reader (lookup f.port r.by_port)) && bytes_eq f.port p
          then none
          else lookup p r.by_port)
  unfolding forget_known
  holder-forget_known p = ground (arith, lookup-delete f.port p r.by_port)

  remembered-forget_known :
      (q : Bytes)
      → lookup q (forget_known reader (some f) r).facts
        ≡ (if bytes_eq reader q then none else lookup q r.facts)
  unfolding forget_known
  remembered-forget_known q = lookup-delete reader q r.facts

  forget-claims_known :
      lookup reader r.facts ≡ some f
      → (p q : Bytes) → lookup p (forget_known reader (some f) r).by_port ≡ some q
      → (g : Facts) × (lookup q (forget_known reader (some f) r).facts ≡ some g) × (g.port ≡ p)
  unfolding is_own
  forget-claims_known known p q h =
      let who = holder-forget_known p in
      let before : lookup p r.by_port ≡ some q = ground arith in
      let (g, found, port) = inv.claims_known p q before in
      elim (Bool-cases (bytes_eq reader q)) [
        | inl same ↦ absurd (
            ground (
              arith,
              who,
              inv.claims_filled,
              bytes_eq_iff reader q,
              bytes_eq_iff reader reader,
              bytes_eq_iff f.port p,
              is_empty_iff f.port,
            ))
        | inr other ↦ (g, remembered-forget_known q ∙ rw other found, port)
      ]

  forget-known_claims :
      (q : Bytes) (g : Facts)
      → lookup q (forget_known reader (some f) r).facts ≡ some g
      → g.port ≢ []
      → lookup g.port (forget_known reader (some f) r).by_port ≡ some q
  unfolding is_own
  forget-known_claims q g h filled =
      let who = holder-forget_known g.port in
      let known = remembered-forget_known q in
      let other : bytes_eq reader q ≡ false = ground arith in
      let before : lookup q r.facts ≡ some g = ground arith in
      ground (
        arith,
        who,
        inv.known_claims q g before filled,
        bytes_eq_iff reader q,
        bytes_eq_iff q reader,
        bytes_eq_iff f.port g.port,
      )

  forget-IsExclusive_known :
      lookup reader r.facts ≡ some f → IsExclusive (forget_known reader (some f) r)
  forget-IsExclusive_known known = record {
    claims_filled = ground (arith, holder-forget_known [], inv.claims_filled);
    claims_known = forget-claims_known known;
    known_claims = forget-known_claims;
  }

pub forget-IsExclusive :
    (reader : Bytes) (r : Registry) → IsExclusive r → IsExclusive (forget reader r)
unfolding forget
forget-IsExclusive reader r inv = elim (Option-cases (lookup reader r.facts)) [
  | inl unknown ↦ rw (unknown, forget, forget_known) inv
  | inr (f, known) ↦ rw (known, forget) (forget-IsExclusive_known reader f r inv known)
]

pub changes-IsExclusive :
    (cs : List Change) (r : Registry) → IsExclusive r → IsExclusive (changes cs r)
unfolding changes change
changes-IsExclusive [] r inv = inv
changes-IsExclusive (adopts reader fresh ∷ cs) r inv =
    changes-IsExclusive cs (adopt reader fresh r).0 (adopt-IsExclusive reader fresh r inv)
changes-IsExclusive (forgets reader ∷ cs) r inv =
    changes-IsExclusive cs (forget reader r) (forget-IsExclusive reader r inv)

pub new-IsExclusive : IsExclusive new_unit_registry
unfolding new_unit_registry lookup
new-IsExclusive = record {
  claims_filled = refl;
  claims_known = λ p q h. absurd (ground arith);
  known_claims = λ q f h. absurd (ground arith);
}

-- In a session that adopts and forgets in any order, whatever the probes answer, two readers never
-- share a port identity.
pub ports_unique :
    (cs : List Change) (q q' : Bytes) (f f' : Facts)
    → lookup q (changes cs new_unit_registry).facts ≡ some f
    → lookup q' (changes cs new_unit_registry).facts ≡ some f'
    → f.port ≢ []
    → f.port ≡ f'.port
    → q ≡ q'
ports_unique cs q q' f f' h h' filled same =
    let inv = changes-IsExclusive cs new_unit_registry new-IsExclusive in
    let claim = inv.known_claims q f h filled in
    let claim' = inv.known_claims q' f' h' (λ e. filled (same ∙ e)) in cc (same, claim, claim')
