-- ===== src/Atr/Fuel.antt =====
-- `ParseATR` ends: each round of its outer loop reads a byte or fails.
use pcscid.Atr.{
  out_of_fuel, Scan, read_interface, read_bit, read_bits, read_group, read_groups, read_tck,
  no_trailing, finish, Atr, parse_atr,
}
use pcscid.Atr.Groups.{read_group-Moves, read_group-shrinks}
use pcscid.Common.{
  ℕ, zero, suc, ◌/◌, ◌%◌, ◌<◌, Bool, true, false, not, ◌&&◌, bit_and, List, [], ◌∷◌, ◌++◌, ◌≢◌,
  arith, inl, inr, Bytes, AreBytes, length, take, drop, ltb, ◌==◌, Bool-cases, ok, err, fails_first,
  fails_next, bind-eq-err,
}

read_interface-fuel : (bit : ℕ) (s : Scan) (b : Bytes) → read_interface bit s b ≢ err out_of_fuel
unfolding read_interface
read_interface-fuel bit s [] h = ground arith
read_interface-fuel bit s (value ∷ rest) h = ground arith

read_bit-fuel : (mask bit : ℕ) (s : Scan) → read_bit mask bit s ≢ err out_of_fuel
unfolding read_bit
read_bit-fuel mask bit s h = elim (Bool-cases (bit_and mask bit == 0)) [
  | inl clear ↦ ground arith
  | inr set ↦ read_interface-fuel bit s s.rest (ground arith)
]

read_bits-fuel : (mask : ℕ) (bits : List ℕ) (s : Scan) → read_bits mask bits s ≢ err out_of_fuel
unfolding read_bits
read_bits-fuel mask [] s h = ground arith
read_bits-fuel mask (bit ∷ bits) s h =
    elim (bind-eq-err (read_bit mask bit s) (read_bits mask bits) h) [
      | fails_first e ↦ read_bit-fuel mask bit s e
      | fails_next mid e e' ↦ read_bits-fuel mask bits mid e'
    ]

read_group-fuel : (mask : ℕ) (s : Scan) → read_group mask s ≢ err out_of_fuel
unfolding read_group
read_group-fuel mask s h =
    let start = record s { next = 0; group = [] } in
    elim (bind-eq-err (read_bits mask (1 ∷ 2 ∷ 4 ∷ 8 ∷ []) start)
      (λ t. ok (record t { groups = t.groups ++ t.group ∷ [] })) h) [
        | fails_first e ↦ read_bits-fuel mask (1 ∷ 2 ∷ 4 ∷ 8 ∷ []) start e
        | fails_next mid e e' ↦ ground arith
      ]

read_groups-fuel :
    (fuel mask : ℕ) (s : Scan)
    → mask < 16
    → AreBytes s.rest
    → length s.rest < fuel
    → read_groups fuel mask s ≢ err out_of_fuel
unfolding read_groups
read_groups-fuel fuel zero s small bytes enough h = ground arith
read_groups-fuel zero (suc mask) s small bytes enough h = ground arith
read_groups-fuel (suc fuel) (suc mask) s small bytes enough h =
    elim (bind-eq-err (read_group (suc mask) s) (λ t. read_groups fuel t.next t) h) [
      | fails_first e ↦ read_group-fuel (suc mask) s e
      | fails_next mid e e' ↦
          let less = read_group-shrinks mask s mid small e in
          let (bytes', small') = (read_group-Moves (suc mask) s mid e).1 bytes in
          read_groups-fuel fuel mid.next mid small' bytes' (omega (arith, less, enough)) e'
    ]

no_trailing-fuel : (rest : Bytes) (a : Atr) → no_trailing rest a ≢ err out_of_fuel
unfolding no_trailing
no_trailing-fuel [] a h = ground arith
no_trailing-fuel (c ∷ rest) a h = ground arith

read_tck-fuel : (has_tck : Bool) (rest : Bytes) → read_tck has_tck rest ≢ err out_of_fuel
unfolding read_tck
read_tck-fuel false rest h = ground arith
read_tck-fuel true [] h = ground arith
read_tck-fuel true (c ∷ rest) h = ground arith

finish-fuel : (ts t0 : ℕ) (s : Scan) → finish ts t0 s ≢ err out_of_fuel
unfolding finish
finish-fuel ts t0 s h =
    let count = t0 % 16 in
    let has_tck = ltb 1 (length s.protocols) in
    elim (Bool-cases (ltb (length s.rest) count)) [
      | inl short ↦ ground arith
      | inr enough ↦
          elim (bind-eq-err (read_tck has_tck (drop count s.rest))
            (λ (tck, rest). no_trailing rest (record {
              ts = ts;
              t0 = t0;
              interface_bytes = s.groups;
              historical = take count s.rest;
              protocols = s.protocols;
              has_tck = has_tck;
              tck = tck;
            }))
            {e = out_of_fuel} (ground arith)) [
              | fails_first e ↦ read_tck-fuel has_tck (drop count s.rest) e
              | fails_next mid e e' ↦ no_trailing-fuel mid.1 _ e'
            ]
    ]

-- Of any bytes `ParseATR` returns an answer or one of its own errors: it never runs out of the fuel
-- that the model gives its loop, one round more than there are bytes behind the format byte.
pub parse_atr-ends : (b : Bytes) → AreBytes b → parse_atr b ≢ err out_of_fuel
unfolding parse_atr
parse_atr-ends [] bytes h = ground arith
parse_atr-ends (ts ∷ []) bytes h = ground arith
parse_atr-ends (ts ∷ t0 ∷ rest) bytes h =
    let start : Scan = record {
      pos = 2;
      rest = rest;
      protocols = 0 ∷ [];
      next = 0;
      group = [];
      groups = [];
    } in
    let fuel = suc (length rest) in
    elim (Bool-cases (not (ts == 0x3b) && not (ts == 0x3f))) [
      | inl bad ↦ ground arith
      | inr good ↦
          elim (bind-eq-err (read_groups fuel (t0 / 16) start) (finish ts t0) {e = out_of_fuel}
            (ground arith)) [
              | fails_first e ↦
                  read_groups-fuel fuel (t0 / 16) start (omega (arith, bytes.1.0)) bytes.1.1
                    (omega arith) e
              | fails_next mid e e' ↦ finish-fuel ts t0 mid e'
            ]
    ]
