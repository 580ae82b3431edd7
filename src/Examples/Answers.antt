-- ===== src/Examples/Answers.antt =====
-- Answers to reset at concrete inputs.
use pcscid.Atr.Fuel.{parse_atr-ends}
use pcscid.Atr.Grammar.{write_atr, write-parse_atr}
use pcscid.Atr.{Atr, out_of_fuel, trailing, missing_tck, parse_atr}
use pcscid.CardType.Names.{detect_type-separates}
use pcscid.CardType.{detect_type}
use pcscid.Common.{
  ◌%◌, true, ltb, List, [], ◌∷◌, ◌≡◌, ◌≢◌, refl, arith, Bytes, codes, length, Result, ok, err,
}

-- An e-passport: two groups of one interface byte each, no historical bytes, and a checksum.
abbrev passport : Bytes
passport = 0x3B ∷ 0x84 ∷ 0x80 ∷ 0x01 ∷ 0x80 ∷ 0x82 ∷ 0x90 ∷ 0x00 ∷ 0x97 ∷ []

abbrev passport_atr : Atr
passport_atr = record {
  ts = 0x3B;
  t0 = 0x84;
  interface_bytes = (0x80 ∷ []) ∷ (0x01 ∷ []) ∷ [];
  historical = 0x80 ∷ 0x82 ∷ 0x90 ∷ 0x00 ∷ [];
  protocols = 0 ∷ 1 ∷ [];
  has_tck = true;
  tck = 0x97;
}

passport_parsed : parse_atr passport ≡ ok passport_atr
unfolding parse_atr
passport_parsed = refl

trailing_refused : parse_atr (0x3B ∷ 0x00 ∷ 0x55 ∷ []) ≡ err (trailing 1)
unfolding parse_atr
trailing_refused = refl

tck_needed : parse_atr (0x3B ∷ 0x80 ∷ 0x01 ∷ []) ≡ err missing_tck
unfolding parse_atr
tck_needed = refl

passport_type : detect_type passport ≡ codes "german eid/passport (npa)"
unfolding detect_type pcscid.Common.bytes_eq
passport_type = refl

write-parse_atr_example :
    (write_atr passport_atr ≡ passport)
    × (length passport_atr.historical ≡ passport_atr.t0 % 16)
    × (passport_atr.has_tck ≡ ltb 1 (length passport_atr.protocols))
write-parse_atr_example = write-parse_atr passport passport_atr passport_parsed

parse_atr-ends_example : parse_atr (0x3B ∷ 0xF0 ∷ []) ≢ err out_of_fuel
parse_atr-ends_example = parse_atr-ends (0x3B ∷ 0xF0 ∷ []) (omega arith, (omega arith, tt))

detect_type-separates_example :
    (detect_type passport ≡ detect_type passport) × (codes "ab" ≡ codes "ab")
detect_type-separates_example =
    detect_type-separates passport passport (codes "ab") (codes "ab") refl
