-- ===== src/Units/Memory.antt =====
-- What a session knows of a reader is not lost by a later probe.
use pcscid.Common.{
  false, List, [], ◌∷◌, some, ◌≡◌, ◌≢◌, refl, ap, ◌∙◌, arith, ◌⊎◌, inl, inr, Bytes, All, lookup,
  bytes_eq, bytes_eq_iff, if◌then◌else◌, Bool-cases, Option-cases, lookup-delete,
}
use pcscid.Tags.{is_empty}
use pcscid.Units.Adoption.{IsExclusive, is_empty_iff, is_empty_nil, adopt-IsExclusive, remembered}
use pcscid.Units.Ports.{forget-IsExclusive}
use pcscid.Units.{
  Facts, Registry, Change, adopts, forgets, cached, or_none, is_foreign, adopted_serial,
  unclaimed_port, kept_port, adopted, adopt, forget, forget_known, change, changes,
}

is_empty-not : (s : Bytes) → s ≢ [] → is_empty s ≡ false
unfolding is_empty
is_empty-not [] h = absurd (h refl)
is_empty-not (c ∷ s) h = refl

adopted-serial :
    (reader : Bytes) (fresh : Facts) (r : Registry)
    → (cached reader r).serial ≢ []
    → (adopted reader fresh r).serial ≢ []
unfolding adopted adopted_serial
adopted-serial reader fresh r h =
    let old = cached reader r in
    elim (Bool-cases (is_empty fresh.serial)) [
      | inl failed ↦ rw (failed, adopted_serial) h
      | inr read ↦ rw (read, adopted_serial) (λ e. ground (arith, is_empty_nil fresh.serial, e))
    ]

cached-own :
    (reader : Bytes) (r : Registry)
    → IsExclusive r
    → (cached reader r).port ≢ []
    → lookup (cached reader r).port r.by_port ≡ some reader
cached-own reader r inv h = elim (Option-cases (lookup reader r.facts)) [
  | inl unknown ↦ absurd (h (unfold cached or_none in rw (unknown, or_none)))
  | inr (f, known) ↦
      let e : cached reader r ≡ f = unfold cached or_none in rw (known, or_none) in
      rw e (inv.known_claims reader f known (λ z. h (ap (λ (g : Facts). g.port) e ∙ z)))
]

adopted-port :
    (reader : Bytes) (fresh : Facts) (r : Registry)
    → IsExclusive r
    → (cached reader r).port ≢ []
    → (adopted reader fresh r).port ≢ []
unfolding adopted kept_port is_foreign
adopted-port reader fresh r inv h =
    let old = cached reader r in
    let port = unclaimed_port reader fresh.port r.by_port in
    let own = cached-own reader r inv h in
    let filled = is_empty-not old.port h in
    elim (Bool-cases (is_empty port)) [
      | inl lost ↦
          rw (lost, filled, own, is_foreign, (bytes_eq_iff reader reader).1 refl, kept_port) h
      | inr got ↦ rw (got, kept_port) (λ e. ground (arith, is_empty_nil port, e))
    ]

cached-adopt :
    (reader : Bytes) (fresh : Facts) (r : Registry) (q : Bytes)
    → cached q (adopt reader fresh r).0
      ≡ (if bytes_eq reader q then adopted reader fresh r else cached q r)
unfolding cached or_none
cached-adopt reader fresh r q = ground (arith, remembered reader fresh r q)

cached-forget :
    (reader : Bytes) (r : Registry) (q : Bytes)
    → bytes_eq reader q ≡ false
    → cached q (forget reader r) ≡ cached q r
unfolding cached forget forget_known
cached-forget reader r q other = elim (Option-cases (lookup reader r.facts)) [
  | inl unknown ↦ rw (unknown, forget_known)
  | inr (f, known) ↦ rw (known, forget_known, lookup-delete reader q r.facts, other)
]

-- A session that goes on from a state with exclusive claims and does not forget a reader keeps
-- the tier of that reader: a serial once known stays known, and a port once known stays known,
-- whatever later probes answer, for this reader and for the others.
pub changes_keep :
    (cs : List Change) (reader : Bytes) (r : Registry)
    → IsExclusive r
    → All (λ c. c ≢ forgets reader) cs
    → ((cached reader r).serial ≢ [] → (cached reader (changes cs r)).serial ≢ [])
      × ((cached reader r).port ≢ [] → (cached reader (changes cs r)).port ≢ [])
unfolding changes change
changes_keep [] reader r inv kept = (λ h. h, λ h. h)
changes_keep (adopts q fresh ∷ cs) reader r inv kept =
    let later =
      changes_keep cs reader (adopt q fresh r).0 (adopt-IsExclusive q fresh r inv) kept.1 in
    let now = cached-adopt q fresh r reader in
    elim (Bool-cases (bytes_eq q reader)) [
      | inl same ↦
          let e : q ≡ reader = (bytes_eq_iff q reader).0 same in
          let mine : cached reader (adopt q fresh r).0 ≡ adopted reader fresh r =
            now ∙ rw same (ap (λ k. adopted k fresh r) e) in
          (
            λ h. later.0 (rw mine (adopted-serial reader fresh r h)),
            λ h. later.1 (rw mine (adopted-port reader fresh r inv h)),
          )
      | inr other ↦
          let theirs : cached reader (adopt q fresh r).0 ≡ cached reader r = now ∙ rw other in
          (λ h. later.0 (rw theirs h), λ h. later.1 (rw theirs h))
    ]
changes_keep (forgets q ∷ cs) reader r inv kept =
    let later = changes_keep cs reader (forget q r) (forget-IsExclusive q r inv) kept.1 in
    elim (Bool-cases (bytes_eq q reader)) [
      | inl same ↦ absurd (kept.0 (ap forgets ((bytes_eq_iff q reader).0 same)))
      | inr other ↦
          let theirs = cached-forget q r reader other in
          (λ h. later.0 (rw theirs h), λ h. later.1 (rw theirs h))
    ]

-- With exclusive claims, a probe that answers for each of serial and port nothing, or what is
-- remembered already, leaves the reader's unit identity as it is.
pub adopted_repeat :
    (reader : Bytes) (fresh : Facts) (r : Registry)
    → IsExclusive r
    → (fresh.serial ≡ []) ⊎ (fresh.serial ≡ (cached reader r).serial)
    → (fresh.port ≡ []) ⊎ (fresh.port ≡ (cached reader r).port)
    → ((adopt reader fresh r).1.serial ≡ (cached reader r).serial)
      × ((adopt reader fresh r).1.port ≡ (cached reader r).port)
unfolding adopt adopted adopted_serial unclaimed_port kept_port is_foreign
adopted_repeat reader fresh r inv hs hp =
    (ground (arith, is_empty_nil fresh.serial, is_empty_iff fresh.serial), repeat_port)
  where
    repeat_port :
        kept_port reader (cached reader r) (unclaimed_port reader fresh.port r.by_port) r.by_port
        ≡ (cached reader r).port
    repeat_port = elim (Bool-cases (is_empty (cached reader r).port)) [
      | inl none_known ↦
          ground (arith, is_empty_nil fresh.port, is_empty_iff (cached reader r).port none_known)
      | inr known ↦
          let filled : (cached reader r).port ≢ [] =
            λ e. ground (arith, is_empty_nil (cached reader r).port e) in
          let own = cached-own reader r inv filled in
          ground (arith, own, bytes_eq_iff reader reader, is_empty_nil fresh.port)
    ]
