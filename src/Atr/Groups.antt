-- ===== src/Atr/Groups.antt =====
-- What the two loops of `ParseATR` consume, and that they end.
use pcscid.Atr.{Scan, take_interface, read_interface, read_bit, read_bits, read_group, read_groups}
use pcscid.Common.{
  subst, ℕ, zero, suc, ◌≤◌, ◌<◌, Bool, true, false, bit_and, List, [], ◌∷◌, ◌++◌, ◌≡◌, refl, sym,
  ap, ◌∙◌, arith, inl, inr, append_assoc, append-nil, Bytes, AreBytes, length, ◌==◌, Bool-cases,
  List-cases, ok, bind-eq-ok, holds_under, holds_under→true, not, ◌||◌,
}

-- The bytes of the finished groups.
unfoldable pub bytes_of : List Bytes → Bytes
bytes_of [] = []
bytes_of (g ∷ gs) = g ++ bytes_of gs

pub bytes_of-append : (gs hs : List Bytes) → bytes_of (gs ++ hs) ≡ bytes_of gs ++ bytes_of hs
unfolding bytes_of
bytes_of-append [] hs = refl
bytes_of-append (g ∷ gs) hs =
    rw (bytes_of-append gs hs) (sym (append_assoc g (bytes_of gs) (bytes_of hs)))

-- From one state of the inner loop to a later one: bytes only move from the rest to the group.
pub record Moves (s s' : Scan) : Type 0 where
  pub moved : s'.group ++ s'.rest ≡ s.group ++ s.rest
  pub kept : s'.groups ≡ s.groups
  pub shrinks : length s'.rest ≤ length s.rest
  pub bytes : AreBytes s.rest → AreBytes s'.rest
  pub mask : AreBytes s.rest → s.next < 16 → s'.next < 16

Moves-refl : (s : Scan) → Moves s s
Moves-refl s = record {
  moved = refl;
  kept = refl;
  shrinks = omega arith;
  bytes = λ h. h;
  mask = λ h n. n;
}

Moves-trans : (s t u : Scan) → Moves s t → Moves t u → Moves s u
Moves-trans s t u h k = record {
  moved = k.moved ∙ h.moved;
  kept = k.kept ∙ h.kept;
  shrinks = omega (arith, h.shrinks, k.shrinks);
  bytes = λ b. k.bytes (h.bytes b);
  mask = λ b n. k.mask (h.bytes b) (h.mask b n);
}

take_interface-Moves :
    (bit value : ℕ) (rest : Bytes) (s : Scan)
    → s.rest ≡ value ∷ rest
    → Moves s (take_interface bit value rest s)
unfolding take_interface
take_interface-Moves bit value rest s e = record {
  moved = append_assoc s.group (value ∷ []) rest ∙ ap (◌++◌ s.group) (sym e);
  kept = refl;
  shrinks = rw e (omega arith);
  bytes = λ h. (subst AreBytes e h).1;
  mask = λ h n. let b = (subst AreBytes e h).0 in ground (arith, b, n);
}

-- A bit of the mask that is set takes a byte, or there is none to take.
read_interface-Moves :
    (bit : ℕ) (s s' : Scan)
    → read_interface bit s s.rest ≡ ok s'
    → Moves s s' × (length s'.rest < length s.rest)
unfolding read_interface
read_interface-Moves bit s s' h = elim (List-cases s.rest) [
  | inl e ↦ absurd (ground arith)
  | inr (value, rest, e) ↦
      let now : take_interface bit value rest s ≡ s' = ground arith in
      (
        subst (Moves s) now (take_interface-Moves bit value rest s e),
        subst (λ (t : Scan). length t.rest < length s.rest) now
            (unfold take_interface in rw e (omega arith)),
      )
]

read_bit-Moves : (mask bit : ℕ) (s s' : Scan) → read_bit mask bit s ≡ ok s' → Moves s s'
unfolding read_bit
read_bit-Moves mask bit s s' h = elim (Bool-cases (bit_and mask bit == 0)) [
  | inl clear ↦ let same : s ≡ s' = ground arith in subst (Moves s) same (Moves-refl s)
  | inr set ↦ (read_interface-Moves bit s s' (ground arith)).0
]

read_bits-Moves :
    (mask : ℕ) (bits : List ℕ) (s s' : Scan) → read_bits mask bits s ≡ ok s' → Moves s s'
unfolding read_bits
read_bits-Moves mask [] s s' h =
    let same : s ≡ s' = ground arith in subst (Moves s) same (Moves-refl s)
read_bits-Moves mask (bit ∷ bits) s s' h =
    let (mid, first, later) = bind-eq-ok (read_bit mask bit s) (read_bits mask bits) h in
    Moves-trans s mid s' (read_bit-Moves mask bit s mid first)
      (read_bits-Moves mask bits mid s' later)

-- Whether some bit of the list is set.
some_bit : ℕ → List ℕ → Bool
some_bit mask [] = false
some_bit mask (bit ∷ bits) = not (bit_and mask bit == 0) || some_bit mask bits

read_bits-shrinks :
    (mask : ℕ) (bits : List ℕ) (s s' : Scan)
    → some_bit mask bits ≡ true
    → read_bits mask bits s ≡ ok s'
    → length s'.rest < length s.rest
unfolding read_bits some_bit read_bit
read_bits-shrinks mask [] s s' some h = absurd (ground arith)
read_bits-shrinks mask (bit ∷ bits) s s' some h =
    let (mid, first, later) = bind-eq-ok (read_bit mask bit s) (read_bits mask bits) h in
    elim (Bool-cases (bit_and mask bit == 0)) [
      | inl clear ↦
          let same : s ≡ mid = ground arith in
          let more = read_bits-shrinks mask bits mid s' (ground arith) later in rw same more
      | inr set ↦
          let less = (read_interface-Moves bit s mid (ground arith)).1 in
          omega (arith, less, (read_bits-Moves mask bits mid s' later).shrinks)
    ]

-- A mask of four bits that is not zero has a bit set.
mask_bit : (mask : ℕ) → suc mask < 16 → some_bit (suc mask) (1 ∷ 2 ∷ 4 ∷ 8 ∷ []) ≡ true
unfolding some_bit holds_under
mask_bit mask h =
    holds_under→true (λ m. some_bit (suc m) (1 ∷ 2 ∷ 4 ∷ 8 ∷ [])) {b = mask} {bound = 15}
      (omega (arith, h)) refl

bytes_of-grouped :
    (gs : List Bytes) (g rest : Bytes) (hs : List Bytes) (all : Bytes)
    → gs ≡ hs
    → g ++ rest ≡ all
    → bytes_of (gs ++ g ∷ []) ++ rest ≡ bytes_of hs ++ all
unfolding bytes_of
bytes_of-grouped gs g rest hs all same moved =
    let shuffle : (bytes_of gs ++ (g ++ [])) ++ rest ≡ bytes_of gs ++ (g ++ rest) =
      simp (append_assoc, append-nil) in
    ap (λ b. b ++ rest) (bytes_of-append gs (g ∷ []))
    ∙ shuffle
    ∙ ap (λ ks. bytes_of ks ++ (g ++ rest)) same
    ∙ ap (◌++◌ (bytes_of hs)) moved

pub read_group-Moves :
    (mask : ℕ) (s s' : Scan)
    → read_group mask s ≡ ok s'
    → (bytes_of s'.groups ++ s'.rest ≡ bytes_of s.groups ++ s.rest)
      × (AreBytes s.rest → AreBytes s'.rest × (s'.next < 16))
unfolding read_group
read_group-Moves mask s s' h =
    let start = record s { next = 0; group = [] } in
    let (mid, first, later) =
      bind-eq-ok (read_bits mask (1 ∷ 2 ∷ 4 ∷ 8 ∷ []) start)
        (λ t. ok (record t { groups = t.groups ++ t.group ∷ [] })) h in
    let m = read_bits-Moves mask (1 ∷ 2 ∷ 4 ∷ 8 ∷ []) start mid first in
    let now : record mid { groups = mid.groups ++ mid.group ∷ [] } ≡ s' = ground arith in
    subst
      (λ (t : Scan).
        (bytes_of t.groups ++ t.rest ≡ bytes_of s.groups ++ s.rest)
        × (AreBytes s.rest → AreBytes t.rest × (t.next < 16)))
      now
      (
        bytes_of-grouped mid.groups mid.group mid.rest s.groups s.rest m.kept m.moved,
        λ b. (m.bytes b, m.mask b (omega arith)),
      )

pub read_group-shrinks :
    (mask : ℕ) (s s' : Scan)
    → suc mask < 16
    → read_group (suc mask) s ≡ ok s'
    → length s'.rest < length s.rest
unfolding read_group
read_group-shrinks mask s s' small h =
    let start = record s { next = 0; group = [] } in
    let (mid, first, later) =
      bind-eq-ok (read_bits (suc mask) (1 ∷ 2 ∷ 4 ∷ 8 ∷ []) start)
        (λ t. ok (record t { groups = t.groups ++ t.group ∷ [] })) h in
    let less =
      read_bits-shrinks (suc mask) (1 ∷ 2 ∷ 4 ∷ 8 ∷ []) start mid (mask_bit mask small) first in
    let now : record mid { groups = mid.groups ++ mid.group ∷ [] } ≡ s' = ground arith in
    subst (λ (t : Scan). length t.rest < length s.rest) now less

-- The groups that are read, and the bytes left, are the bytes that were left before.
pub read_groups-bytes :
    (fuel mask : ℕ) (s s' : Scan)
    → read_groups fuel mask s ≡ ok s'
    → bytes_of s'.groups ++ s'.rest ≡ bytes_of s.groups ++ s.rest
unfolding read_groups
read_groups-bytes fuel zero s s' h =
    let same : s ≡ s' = ground arith in ap (λ (t : Scan). bytes_of t.groups ++ t.rest) (sym same)
read_groups-bytes zero (suc mask) s s' h = absurd (ground arith)
read_groups-bytes (suc fuel) (suc mask) s s' h =
    let (mid, first, later) =
      bind-eq-ok (read_group (suc mask) s) (λ t. read_groups fuel t.next t) h in
    read_groups-bytes fuel mid.next mid s' later ∙ (read_group-Moves (suc mask) s mid first).0
