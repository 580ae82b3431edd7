-- ===== src/ReaderName/Stable.antt =====
-- `normalizeReaderName` takes off all trailing index groups, and nothing else.
use pcscid.Common.{
  ℕ, zero, suc, ◌≤◌, ◌<◌, List, [], ◌∷◌, ◌++◌, append_assoc, append-nil, none, some, ◌≡◌, refl, sym,
  ap, ◌∙◌, inl, inr, arith, Bytes, All, length, Option-cases, length-append, All-append,
}
use pcscid.ReaderName.{last_index_byte, strip, normalize_fuel, normalize_reader_name}
use pcscid.ReaderName.Strip.{IsIndex, strip-append, strip-splits}

-- The text of a list of index groups, each behind a space.
abbrev pub groups : List Bytes → Bytes
groups [] = []
groups (g ∷ gs) = b' ' ∷ (g ++ groups gs)

length-strip : (r : Bytes) {shorter : Bytes} → strip r ≡ some shorter → length shorter < length r
length-strip r {shorter} h =
    let (s, index, e) = strip-splits r h in
    omega (arith, ap length e, length-append {0} shorter (b' ' ∷ s))

normalize_fuel_stop : (f : ℕ) (r : Bytes) → strip r ≡ none → normalize_fuel f r ≡ r
unfolding normalize_fuel
normalize_fuel_stop zero r h = refl
normalize_fuel_stop (suc f) r h = rw (h, normalize_fuel)

strip_nil : strip [] ≡ none
unfolding strip last_index_byte
strip_nil = refl

length-eq-zero : (r : Bytes) → length r ≤ 0 → strip r ≡ none
length-eq-zero [] h = strip_nil
length-eq-zero (c ∷ r) h = absurd (omega arith)

-- Any fuel that is enough gives the same name.
normalize_fuel_enough :
    (f g : ℕ) (r : Bytes) → length r ≤ f → length r ≤ g → normalize_fuel f r ≡ normalize_fuel g r
unfolding normalize_fuel
normalize_fuel_enough zero g r hf hg = sym (normalize_fuel_stop g r (length-eq-zero r hf))
normalize_fuel_enough (suc f) zero r hf hg = normalize_fuel_stop (suc f) r (length-eq-zero r hg)
normalize_fuel_enough (suc f) (suc g) r hf hg = elim (Option-cases (strip r)) [
  | inl stop ↦ rw (stop, normalize_fuel)
  | inr (r', more) ↦
      let l = length-strip r more in
      rw (more, normalize_fuel) (normalize_fuel_enough f g r' (omega arith) (omega arith))
]

normalize_step :
    (r : Bytes) {r' : Bytes}
    → strip r ≡ some r'
    → normalize_reader_name r ≡ normalize_reader_name r'
unfolding normalize_reader_name
normalize_step r {r'} more =
    let l = length-strip r more in
    normalize_fuel_enough (length r) (suc (length r)) r (omega arith) (omega arith)
    ∙ rw (more, normalize_fuel)
        (normalize_fuel_enough (length r) (length r') r' (omega arith) (omega arith))

normalize_stop : (r : Bytes) → strip r ≡ none → normalize_reader_name r ≡ r
unfolding normalize_reader_name
normalize_stop r h = normalize_fuel_stop (length r) r h

-- Index groups at the end of a name, however many, do not change its normal form.
pub normalize-groups :
    (gs : List Bytes) (r : Bytes)
    → All IsIndex gs
    → normalize_reader_name (r ++ groups gs) ≡ normalize_reader_name r
normalize-groups [] r h = rw append-nil
normalize-groups (g ∷ gs) r h =
    ap normalize_reader_name (sym (append_assoc r (b' ' ∷ g) (groups gs)))
    ∙ normalize-groups gs (r ++ (b' ' ∷ g)) h.1
    ∙ normalize_step (r ++ (b' ' ∷ g)) (strip-append r g h.0)

-- What a reader name is made of: its normal form, which no round shortens, and index groups.
pub record Decomposes (r : Bytes) (n : Bytes) : Type 0 where
  pub indices : List Bytes
  pub are_indices : All IsIndex indices
  pub splits : r ≡ n ++ groups indices
  pub normal : strip n ≡ none

groups-append : (gs : List Bytes) (g : Bytes) → groups (gs ++ g ∷ []) ≡ groups gs ++ (b' ' ∷ g)
groups-append [] g = ap (◌∷◌ b' ') (append-nil g)
groups-append (h ∷ gs) g = simp (groups-append gs g, append_assoc)

Decomposes-fuel : (f : ℕ) (r : Bytes) → length r ≤ f → Decomposes r (normalize_fuel f r)
unfolding normalize_fuel
Decomposes-fuel zero r h = record {
  indices = [];
  are_indices = tt;
  splits = sym (append-nil r);
  normal = length-eq-zero r h;
}
Decomposes-fuel (suc f) r h = elim (Option-cases (strip r)) [
  | inl stop ↦
      rw (stop, normalize_fuel)
        (record { indices = []; are_indices = tt; splits = sym (append-nil r); normal = stop })
  | inr (r', more) ↦
      let l = length-strip r more in
      let d = Decomposes-fuel f r' (omega arith) in
      let (s, index, e) = strip-splits r more in
      rw (more, normalize_fuel)
        (record {
          indices = d.indices ++ s ∷ [];
          are_indices = All-append IsIndex d.indices (s ∷ []) d.are_indices (index, tt);
          splits =
              e
              ∙ ap (λ t. t ++ (b' ' ∷ s)) d.splits
              ∙ append_assoc (normalize_fuel f r') (groups d.indices) (b' ' ∷ s)
              ∙ ap (λ t. normalize_fuel f r' ++ t) (sym (groups-append d.indices s));
          normal = d.normal;
        })
]

-- `normalizeReaderName` returns a name that ends in no index group and differs from its argument
-- by trailing index groups only.
pub normalize-Decomposes : (r : Bytes) → Decomposes r (normalize_reader_name r)
unfolding normalize_reader_name
normalize-Decomposes r = Decomposes-fuel (length r) r (omega arith)

-- Normalising twice is normalising once.
pub normalize_idem :
    (r : Bytes) → normalize_reader_name (normalize_reader_name r) ≡ normalize_reader_name r
normalize_idem r = normalize_stop (normalize_reader_name r) (normalize-Decomposes r).normal
