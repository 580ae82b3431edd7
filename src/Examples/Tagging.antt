-- ===== src/Examples/Tagging.antt =====
-- Reader names and tags at concrete inputs.
use pcscid.Common.{
  ◌%◌, [], ◌∷◌, ◌++◌, ◌≡◌, refl, arith, Bytes, codes, length, replicate, length-replicate,
}
use pcscid.ReaderName.Stable.{groups}
use pcscid.ReaderName.Strip.{IsIndex}
use pcscid.ReaderName.{all_digits, normalize_reader_name}
use pcscid.Tags.Parts.{NoBar, unit_fact, btag_parts-injective, machine_parts-injective}
use pcscid.Tags.Shape.{IsTag, tags-IsTag}
use pcscid.Tags.Stability.{reader_tag-groups}
use pcscid.Tags.{btag_format, btag, machine_parts, concat_parts, reader_tag_with_machine}
use pcscid.ReaderName.Stable.{Decomposes, normalize-Decomposes}

-- A stand-in for SHA-256, of the right size.
abbrev toy_digest : Bytes → Bytes
toy_digest m = replicate 32 (length m % 256)

abbrev acs : Bytes
acs = codes "ACS ACR122U"

acs_normal : normalize_reader_name (codes "ACS ACR122U 01 00") ≡ acs
unfolding normalize_reader_name
acs_normal = refl

format_test :
    btag_format (0 ∷ 35 ∷ 36 ∷ 10 ∷ 255 ∷ 9 ∷ 11 ∷ 12 ∷ 13 ∷ 14 ∷ 77 ∷ []) 10 (3 ∷ 6 ∷ [])
    ≡ codes "0z0-a39-bcde"
unfolding btag_format
format_test = refl

IsIndex-one : IsIndex (codes "01")
unfolding all_digits
IsIndex-one = record { digits = refl; nonempty = omega arith; short = omega arith }

IsIndex-zero : IsIndex (codes "00")
unfolding all_digits
IsIndex-zero = record { digits = refl; nonempty = omega arith; short = omega arith }

reader_tag-groups_example :
    reader_tag_with_machine toy_digest (acs ++ groups (codes "01" ∷ codes "00" ∷ [])) [] [] []
    ≡ reader_tag_with_machine toy_digest (acs ++ groups (codes "00" ∷ [])) [] [] []
reader_tag-groups_example =
    reader_tag-groups toy_digest acs (codes "01" ∷ codes "00" ∷ []) (codes "00" ∷ []) [] [] []
      (IsIndex-one, (IsIndex-zero, tt)) (IsIndex-zero, tt)

tags-IsTag_example :
    IsTag 3 3 4 (btag toy_digest (codes "felica") (4 ∷ 5 ∷ 6 ∷ 7 ∷ []))
    × IsTag 2 4 2 (reader_tag_with_machine toy_digest acs (codes "A1") [] [])
tags-IsTag_example =
    tags-IsTag toy_digest (λ m. length-replicate 32 (length m % 256)) (codes "felica")
      (4 ∷ 5 ∷ 6 ∷ 7 ∷ []) acs (codes "A1") [] []

normalize-Decomposes_example :
    Decomposes (codes "ACS ACR122U 01 00") (normalize_reader_name (codes "ACS ACR122U 01 00"))
normalize-Decomposes_example = normalize-Decomposes (codes "ACS ACR122U 01 00")

btag_parts-injective_example : (codes "felica" ≡ codes "felica") × (codes "ab" ≡ codes "ab")
btag_parts-injective_example =
    btag_parts-injective (codes "felica") (codes "felica") (codes "ab") (codes "ab") (omega arith)
      (omega arith) refl

acs-NoBar : (r : Bytes) → r ≡ acs → NoBar r
acs-NoBar r e = rw e (omega arith)

machine_parts-injective_example :
    (normalize_reader_name (acs ++ codes " 01 00") ≡ normalize_reader_name (acs ++ codes " 00"))
    × (unit_fact (codes "A1") [] ≡ unit_fact (codes "A1") (codes "2-1"))
    × (codes "aa:bb" ≡ codes "aa:bb")
unfolding normalize_reader_name machine_parts concat_parts
machine_parts-injective_example =
    machine_parts-injective (acs ++ codes " 01 00") (codes "A1") [] (codes "aa:bb")
      (acs ++ codes " 00") (codes "A1") (codes "2-1") (codes "aa:bb") (acs-NoBar _ refl)
      (acs-NoBar _ refl) (omega arith, tt) (omega arith, omega arith) refl
