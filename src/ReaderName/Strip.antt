-- ===== src/ReaderName/Strip.antt =====
-- One round of `normalizeReaderName`, in both directions.
use pcscid.Common.{
  ℕ, suc, ◌≤◌, ◌<◌, true, [], ◌∷◌, ◌++◌, none, some, ◌≡◌, refl, ap, ◌↔◌, inl, inr, arith, Bytes,
  length, take, drop, Option-cases, length-append, take_of_append,
}
use pcscid.ReaderName.{last_index_byte, all_digits, is_hotplug_index, strip}

-- A hotplug index group: one or two decimal digits.
pub record IsIndex (s : Bytes) : Type 0 where
  pub digits : all_digits s ≡ true
  pub nonempty : 0 < length s
  pub short : length s ≤ 2

pub is_hotplug_index_iff : (s : Bytes) → (is_hotplug_index s ≡ true) ↔ IsIndex s
unfolding is_hotplug_index
is_hotplug_index_iff s = (λ h. ground arith, λ h. ground (arith, h.digits, h.nonempty, h.short))

last_index_byte-digits : (s : Bytes) → all_digits s ≡ true → last_index_byte b' ' s ≡ none
unfolding last_index_byte all_digits
last_index_byte-digits [] h = refl
last_index_byte-digits (c ∷ s) h = ground (arith, last_index_byte-digits s)

last_index_byte-append :
    (r s : Bytes)
    → last_index_byte b' ' s ≡ none
    → last_index_byte b' ' (r ++ (b' ' ∷ s)) ≡ some (length r)
unfolding last_index_byte
last_index_byte-append [] s h = ground arith
last_index_byte-append (c ∷ r) s h = ground (arith, last_index_byte-append r s h)

-- Where the byte stands, the text splits.
last_index_byte-splits :
    (c : ℕ) (s : Bytes) {i : ℕ}
    → last_index_byte c s ≡ some i
    → s ≡ take i s ++ (c ∷ drop (suc i) s)
unfolding last_index_byte
last_index_byte-splits c [] h = cc
last_index_byte-splits c (x ∷ s) {i} h = elim (Option-cases (last_index_byte c s)) [
  | inl absent ↦ let e : (x ≡ c) × (i ≡ 0) = ground arith in rw (e.0, e.1)
  | inr (j, found) ↦
      let e : i ≡ suc j = ground arith in rw e (ap (◌∷◌ x) (last_index_byte-splits c s found))
]

-- An appended index group is taken off again.
pub strip-append : (r s : Bytes) → IsIndex s → strip (r ++ (b' ' ∷ s)) ≡ some r
unfolding strip
strip-append r s h =
    rw (last_index_byte-append r s (last_index_byte-digits s h.digits), strip) ground
      (
        arith,
        length-append {0} r (b' ' ∷ s),
        (is_hotplug_index_iff s).1 h,
        h.nonempty,
        take_of_append {0} (length r) r (b' ' ∷ s) refl,
        drop_of_append_suc r s,
      )
  where
    drop_of_append_suc : (r s : Bytes) → drop (suc (length r)) (r ++ (b' ' ∷ s)) ≡ s
    drop_of_append_suc [] s = refl
    drop_of_append_suc (c ∷ r) s = drop_of_append_suc r s

-- What a round takes off is a space and an index group.
pub strip-splits :
    (r : Bytes) {shorter : Bytes}
    → strip r ≡ some shorter
    → (s : Bytes) × IsIndex s × (r ≡ shorter ++ (b' ' ∷ s))
unfolding strip
strip-splits r {shorter} h = elim (Option-cases (last_index_byte b' ' r)) [
  | inl absent ↦ absurd (ground arith)
  | inr (i, found) ↦
      let tail = drop (suc i) r in
      let index : is_hotplug_index tail ≡ true = ground arith in
      let kept : take i r ≡ shorter = ground arith in
      (tail, (is_hotplug_index_iff tail).0 index, rw (← kept) (last_index_byte-splits b' ' r found))
]
