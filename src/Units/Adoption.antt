-- ===== src/Units/Adoption.antt =====
-- Adoption keeps the claims on ports exclusive.
use pcscid.Common.{
  true, false, not, ◌&&◌, [], ◌∷◌, none, some, ◌≡◌, ◌≢◌, refl, sym, ◌∙◌, arith, ◌⊎◌, inl, inr,
  Bytes, Table, lookup, lookup-put, lookup-delete, bytes_eq, bytes_eq_iff, if◌then◌else◌,
  Bool-cases, Option-cases, ap,
}
use pcscid.Tags.{is_empty}
use pcscid.Units.{
  Facts, Registry, cached, or_none, is_foreign, gives_up, unclaimed_port, kept_port, release, claim,
  adopted, adopt,
}

-- Claims and remembered ports are the same relation, between readers and ports.
pub record IsExclusive (r : Registry) : Type 0 where
  pub claims_filled : lookup [] r.by_port ≡ none
  pub claims_known :
      (p q : Bytes)
      → lookup p r.by_port ≡ some q
      → (f : Facts) × (lookup q r.facts ≡ some f) × (f.port ≡ p)
  pub known_claims :
      (q : Bytes) (f : Facts)
      → lookup q r.facts ≡ some f
      → f.port ≢ []
      → lookup f.port r.by_port ≡ some q

pub is_empty_iff : (s : Bytes) → is_empty s ≡ true → s ≡ []
unfolding is_empty
is_empty_iff [] h = refl
is_empty_iff (c ∷ s) h = cc

pub is_empty_nil : (s : Bytes) → s ≡ [] → is_empty s ≡ true
unfolding is_empty
is_empty_nil s e = rw e

-- The port that a probe ends with is free, or the reader's own.
abbrev Free : Bytes → Bytes → Table Bytes → Type 0
Free reader p by_port = (p ≡ []) ⊎ ((lookup p by_port ≡ none) ⊎ (lookup p by_port ≡ some reader))

not-foreign :
    (reader p : Bytes) (by_port : Table Bytes)
    → is_foreign reader (lookup p by_port) ≡ false
    → (lookup p by_port ≡ none) ⊎ (lookup p by_port ≡ some reader)
unfolding is_foreign
not-foreign reader p by_port h = elim (Option-cases (lookup p by_port)) [
  | inl e ↦ inl e
  | inr (o, e) ↦
      let same : bytes_eq o reader ≡ true = ground arith in
      inr (e ∙ ap some ((bytes_eq_iff o reader).0 same))
]

unclaimed-Free :
    (reader p : Bytes) (by_port : Table Bytes)
    → Free reader (unclaimed_port reader p by_port) by_port
unfolding unclaimed_port is_empty
unclaimed-Free reader p by_port = elim (Bool-cases (is_empty p)) [
  | inl empty ↦ rw (is_empty_iff p empty, unclaimed_port) (inl refl)
  | inr filled ↦ elim (Bool-cases (is_foreign reader (lookup p by_port))) [
    | inl foreign ↦ rw (filled, foreign) (inl refl)
    | inr fits ↦ rw (filled, fits) (inr (not-foreign reader p by_port fits))
  ]
]

kept-Free :
    (reader : Bytes) (old : Facts) (port : Bytes) (by_port : Table Bytes)
    → Free reader port by_port
    → Free reader (kept_port reader old port by_port) by_port
unfolding kept_port
kept-Free reader old port by_port free =
    elim (Bool-cases (is_empty port && not (is_empty old.port))) [
      | inl lost ↦ elim (Bool-cases (is_foreign reader (lookup old.port by_port))) [
        | inl foreign ↦ rw (lost, foreign, kept_port) free
        | inr fits ↦ rw (lost, fits, kept_port) (inr (not-foreign reader old.port by_port fits))
      ]
      | inr has ↦ rw (has, kept_port) free
    ]

adopted-Free :
    (reader : Bytes) (fresh : Facts) (r : Registry)
    → Free reader (adopted reader fresh r).port r.by_port
unfolding adopted
adopted-Free reader fresh r =
    kept-Free reader (cached reader r) (unclaimed_port reader fresh.port r.by_port) r.by_port
      (unclaimed-Free reader fresh.port r.by_port)

lookup-claim :
    (reader port p : Bytes) (by_port : Table Bytes)
    → lookup p (claim reader port by_port)
      ≡ (if not (is_empty port) && bytes_eq port p then some reader else lookup p by_port)
unfolding claim
lookup-claim reader port p by_port = ground (arith, lookup-put port p reader by_port)

lookup-release :
    (reader : Bytes) (old : Facts) (port p : Bytes) (by_port : Table Bytes)
    → lookup p (release reader old port by_port)
      ≡ (if gives_up reader old port by_port && bytes_eq old.port p then none else lookup p by_port)
unfolding release
lookup-release reader old port p by_port = ground (arith, lookup-delete old.port p by_port)

-- Who holds a port after an adoption: the reader that adopts it, or who held it before.
holder :
    (reader : Bytes) (fresh : Facts) (r : Registry) (p : Bytes)
    → lookup p (adopt reader fresh r).0.by_port ≡ (
        if not (is_empty (adopted reader fresh r).port) && bytes_eq (adopted reader fresh r).port p
        then some reader
        else if gives_up reader (cached reader r) (adopted reader fresh r).port r.by_port
            && bytes_eq (cached reader r).port p
        then none
        else lookup p r.by_port)
unfolding adopt
holder reader fresh r p =
    let now = (adopted reader fresh r).port in
    lookup-claim reader now p (release reader (cached reader r) now r.by_port)
    ∙ rw (lookup-release reader (cached reader r) now p r.by_port)

pub remembered :
    (reader : Bytes) (fresh : Facts) (r : Registry) (q : Bytes)
    → lookup q (adopt reader fresh r).0.facts
      ≡ (if bytes_eq reader q then some (adopted reader fresh r) else lookup q r.facts)
unfolding adopt
remembered reader fresh r q = lookup-put reader q (adopted reader fresh r) r.facts

pub cached-known :
    (q : Bytes) (f : Facts) (r : Registry) → lookup q r.facts ≡ some f → cached q r ≡ f
unfolding cached
cached-known q f r e = rw (e, or_none)

not-gives_up :
    (reader : Bytes) (old : Facts) (port : Bytes) (by_port : Table Bytes)
    → old.port ≢ []
    → lookup old.port by_port ≡ some reader
    → gives_up reader old port by_port ≡ false
    → old.port ≡ port
unfolding gives_up
not-gives_up reader old port by_port filled mine h =
    ground (arith, is_empty_iff old.port, bytes_eq_iff old.port port, bytes_eq_iff reader reader)

foreign_kept :
    (reader q : Bytes) (old : Facts) (port p : Bytes) (by_port : Table Bytes)
    → bytes_eq reader q ≡ false
    → lookup p by_port ≡ some q
    → (gives_up reader old port by_port && bytes_eq old.port p) ≡ false
unfolding gives_up
foreign_kept reader q old port p by_port other held =
    ground (arith, bytes_eq_iff old.port p, bytes_eq_iff reader q, bytes_eq_iff q reader)

module _ (reader : Bytes) (fresh : Facts) (r : Registry) (inv : IsExclusive r) where
  -- A port that the reader holds and does not adopt again is given up.
  adopt_releases :
      (p : Bytes) (f : Facts)
      → lookup p r.by_port ≡ some reader
      → lookup reader r.facts ≡ some f
      → f.port ≡ p
      → (not (is_empty (adopted reader fresh r).port) && bytes_eq (adopted reader fresh r).port p)
        ≡ false
      → (gives_up reader (cached reader r) (adopted reader fresh r).port r.by_port
          && bytes_eq (cached reader r).port p)
        ≡ false
      → ⊥
  adopt_releases p f held found port free stays =
      let now = adopted reader fresh r in
      let old = cached reader r in
      let same : old.port ≡ p = ap (λ (g : Facts). g.port) (cached-known reader f r found) ∙ port in
      let filled : old.port ≢ [] = λ none_there. ground (arith, inv.claims_filled, none_there) in
      let kept : gives_up reader old now.port r.by_port ≡ false =
        ground (arith, bytes_eq_iff old.port p) in
      let mine : lookup old.port r.by_port ≡ some reader = rw same held in
      let again = not-gives_up reader old now.port r.by_port filled mine kept in
      ground (arith, again, is_empty_iff now.port, bytes_eq_iff now.port p)

  adopt-claims_known :
      (p q : Bytes)
      → lookup p (adopt reader fresh r).0.by_port ≡ some q
      → (f : Facts) × (lookup q (adopt reader fresh r).0.facts ≡ some f) × (f.port ≡ p)
  adopt-claims_known p q h =
      let now = adopted reader fresh r in
      let old = cached reader r in
      let new = not (is_empty now.port) && bytes_eq now.port p in
      let dropped = gives_up reader old now.port r.by_port && bytes_eq old.port p in
      let known = remembered reader fresh r q in
      let e : (if new then some reader else if dropped then none else lookup p r.by_port) ≡ some q =
        sym (holder reader fresh r p) ∙ h in
      elim (Bool-cases new) [
        | inl taken ↦
            let mine : reader ≡ q = ground arith in
            let port : now.port ≡ p = ground (arith, bytes_eq_iff now.port p) in
            (now, known ∙ rw ((bytes_eq_iff reader q).1 mine), port)
        | inr free ↦ elim (Bool-cases dropped) [
          | inl gone ↦ absurd (ground arith)
          | inr stays ↦
              let before : lookup p r.by_port ≡ some q = ground arith in
              let (f, found, port) = inv.claims_known p q before in
              elim (Bool-cases (bytes_eq reader q)) [
                | inr other ↦ (f, known ∙ rw other found, port)
                | inl same ↦
                    let mine : reader ≡ q = (bytes_eq_iff reader q).0 same in
                    absurd (
                      adopt_releases p f (before ∙ ap some (sym mine))
                        (ap (λ k. lookup k r.facts) mine ∙ found) port free stays)
              ]
        ]
      ]

  -- Another reader's port is neither adopted nor given up.
  other_keeps :
      (q : Bytes) (f : Facts)
      → bytes_eq reader q ≡ false
      → lookup q r.facts ≡ some f
      → lookup f.port r.by_port ≡ some q
      → f.port ≢ []
      → Free reader (adopted reader fresh r).port r.by_port
      → ((not (is_empty (adopted reader fresh r).port)
            && bytes_eq (adopted reader fresh r).port f.port)
          ≡ false)
        × ((gives_up reader (cached reader r) (adopted reader fresh r).port r.by_port
              && bytes_eq (cached reader r).port f.port)
            ≡ false)
  other_keeps q f other before held filled free = (
    ground (arith, bytes_eq_iff (adopted reader fresh r).port f.port, bytes_eq_iff reader q),
    foreign_kept reader q (cached reader r) (adopted reader fresh r).port f.port r.by_port other
        held,
  )

  adopt-known_claims :
      (q : Bytes) (f : Facts)
      → lookup q (adopt reader fresh r).0.facts ≡ some f
      → f.port ≢ []
      → lookup f.port (adopt reader fresh r).0.by_port ≡ some q
  adopt-known_claims q f h filled =
      let now = adopted reader fresh r in
      let old = cached reader r in
      let who = holder reader fresh r f.port in
      let known = remembered reader fresh r q in
      elim (Bool-cases (bytes_eq reader q)) [
        | inl same ↦
            let mine : reader ≡ q = (bytes_eq_iff reader q).0 same in
            let e : now ≡ f = ground arith in
            let port : now.port ≡ f.port = ap (λ (g : Facts). g.port) e in
            ground (arith, who, mine, port, bytes_eq_iff now.port f.port, is_empty_iff now.port)
        | inr other ↦
            let before : lookup q r.facts ≡ some f = ground arith in
            let held = inv.known_claims q f before filled in
            let free = adopted-Free reader fresh r in
            let theirs = other_keeps q f other before held filled free in
            who ∙ rw (theirs.0, theirs.1) held
      ]

  adopt-claims_filled : lookup [] (adopt reader fresh r).0.by_port ≡ none
  adopt-claims_filled =
      let now = adopted reader fresh r in
      ground (
        arith,
        holder reader fresh r [],
        inv.claims_filled,
        bytes_eq_iff now.port [],
        is_empty_nil now.port,
      )

  pub adopt-IsExclusive : IsExclusive (adopt reader fresh r).0
  adopt-IsExclusive = record {
    claims_filled = adopt-claims_filled;
    claims_known = adopt-claims_known;
    known_claims = adopt-known_claims;
  }
