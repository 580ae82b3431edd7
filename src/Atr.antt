-- ===== src/Atr.antt =====
-- atr.go: `ParseATR` and `ChecksumOK`. The bytes not read yet stand for `b[pos:]`.
pub mod Groups
pub mod Grammar
pub mod Fuel
use pcscid.Common.{
  ℕ, zero, suc, ◌+◌, ◌-◌, ◌/◌, ◌%◌, Bool, true, false, not, ◌&&◌, ◌||◌, bit_and, bit_xor, List, [],
  ◌∷◌, ◌++◌, Bytes, length, take, drop, ltb, leb, ◌==◌, if◌then◌else◌, Result, ok, err, ◌>>=◌,
}

pub record Atr : Type 0 where
  pub ts : ℕ
  pub t0 : ℕ
  pub interface_bytes : List Bytes
  pub historical : Bytes
  pub protocols : List ℕ
  pub has_tck : Bool
  pub tck : ℕ

-- The errors of `ParseATR`, with the numbers that they name, and `out_of_fuel`, which is the
-- model's own and is never returned (see Atr/Fuel).
pub data AtrError : Type 0 where
  too_short : ℕ → AtrError
  bad_initial : ℕ → AtrError
  missing_interface : ℕ → AtrError
  missing_historical : ℕ → ℕ → AtrError
  missing_tck : AtrError
  trailing : ℕ → AtrError
  out_of_fuel : AtrError

-- `slices.Contains`
unfoldable pub contains : List ℕ → ℕ → Bool
contains [] p = false
contains (q ∷ qs) p = q == p || contains qs p

unfoldable pub add_protocol : List ℕ → ℕ → List ℕ
unfolding contains
add_protocol protocols p = if contains protocols p then protocols else protocols ++ p ∷ []

-- The variables of the loops.
pub record Scan : Type 0 where
  pub pos : ℕ
  pub rest : Bytes
  pub protocols : List ℕ
  pub next : ℕ
  pub group : Bytes
  pub groups : List Bytes

-- The body behind the two tests of the inner loop.
unfoldable pub take_interface : ℕ → ℕ → Bytes → Scan → Scan
unfolding add_protocol
take_interface bit value rest s = record s {
  pos = s.pos + 1;
  rest = rest;
  protocols = if bit == 8 then add_protocol s.protocols (value % 16) else s.protocols;
  next = if bit == 8 then value / 16 else s.next;
  group = s.group ++ value ∷ [];
}

unfoldable pub read_interface : ℕ → Scan → Bytes → Result AtrError Scan
unfolding take_interface
read_interface bit s [] = err (missing_interface s.pos)
read_interface bit s (value ∷ rest) = ok (take_interface bit value rest s)

unfoldable pub read_bit : ℕ → ℕ → Scan → Result AtrError Scan
unfolding read_interface
read_bit mask bit s = if bit_and mask bit == 0 then ok s else read_interface bit s s.rest

unfoldable pub read_bits : ℕ → List ℕ → Scan → Result AtrError Scan
unfolding read_bit
read_bits mask [] s = ok s
read_bits mask (bit ∷ bits) s = do s' ← read_bit mask bit s; read_bits mask bits s'

-- One round of the outer loop, up to `groups = append(groups, group)`.
unfoldable pub read_group : ℕ → Scan → Result AtrError Scan
unfolding read_bits
read_group mask s = do
  s' ← read_bits mask (1 ∷ 2 ∷ 4 ∷ 8 ∷ []) (record s { next = 0; group = [] })
  ok (record s' { groups = s'.groups ++ s'.group ∷ [] })

-- `for mask != 0`, on fuel.
unfoldable pub read_groups : ℕ → ℕ → Scan → Result AtrError Scan
unfolding read_group
read_groups fuel zero s = ok s
read_groups zero (suc mask) s = err out_of_fuel
read_groups (suc fuel) (suc mask) s = do s' ← read_group (suc mask) s; read_groups fuel s'.next s'

-- The checksum byte, if any: its value, and the bytes behind it.
unfoldable pub read_tck : Bool → Bytes → Result AtrError (ℕ × Bytes)
read_tck false rest = ok (0, rest)
read_tck true [] = err missing_tck
read_tck true (tck ∷ rest) = ok (tck, rest)

unfoldable pub no_trailing : Bytes → Atr → Result AtrError Atr
no_trailing [] a = ok a
no_trailing (c ∷ rest) a = err (trailing (length (c ∷ rest)))

-- All that follows the interface bytes.
unfoldable pub finish : ℕ → ℕ → Scan → Result AtrError Atr
unfolding read_tck no_trailing
finish ts t0 s =
    let count = t0 % 16 in
    let has_tck = ltb 1 (length s.protocols) in
    if ltb (length s.rest) count then err (missing_historical count (length s.rest)) else (do
      (tck, rest) ← read_tck has_tck (drop count s.rest)
      no_trailing rest (record {
        ts = ts;
        t0 = t0;
        interface_bytes = s.groups;
        historical = take count s.rest;
        protocols = s.protocols;
        has_tck = has_tck;
        tck = tck;
      }))

unfoldable pub parse_atr : Bytes → Result AtrError Atr
unfolding read_groups finish
parse_atr [] = err (too_short 0)
parse_atr (ts ∷ []) = err (too_short 1)
parse_atr (ts ∷ t0 ∷ rest) =
    if not (ts == 0x3b) && not (ts == 0x3f) then err (bad_initial ts) else (do
      s ←
          read_groups (suc (length rest)) (t0 / 16)
            (record { pos = 2; rest = rest; protocols = 0 ∷ []; next = 0; group = []; groups = [] })
      finish ts t0 s)

unfoldable pub xor_all : ℕ → Bytes → ℕ
xor_all sum [] = sum
xor_all sum (b ∷ bs) = xor_all (bit_xor sum b) bs

-- `ChecksumOK`, on the raw ATR.
unfoldable pub checksum_ok : Atr → Bytes → Bool
unfolding xor_all
checksum_ok a raw =
    if not a.has_tck || ltb (length raw) 3
    then true
    else xor_all 0 (take (length raw - 2) (drop 1 raw)) == a.tck
