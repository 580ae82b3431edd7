-- ===== src/CardType/Names.antt =====
-- The names that card types get, as the tags and the btags see them.
use pcscid.Atr.{parse_atr}
use pcscid.CardType.{
  find, find_known, name_or, from_index, pcsc_standard, pcsc_card_type, known_atr, pcsc_rid,
  hex_upper, standard_name, contactless_name, rid_name, parsed_name, detect_type,
}
use pcscid.Common.{
  ℕ, Bool, true, not, ◌&&◌, List, [], ◌∷◌, Option, none, some, ◌≡◌, refl, arith, inl, inr, Bytes,
  codes, bytes_eq, length, get_or, leb, ◌==◌, Bool-cases, Result, ok, err,
}
use pcscid.Tags.Parts.{NoBar, btag_parts-injective}
use pcscid.Tags.{concat_parts, btag_parts}

no_bar : Bytes → Bool
no_bar [] = true
no_bar (c ∷ s) = not (c == b'|') && no_bar s

no_bar→NoBar : (s : Bytes) → no_bar s ≡ true → NoBar s
unfolding no_bar
no_bar→NoBar [] h = tt
no_bar→NoBar (c ∷ s) h = (ground arith, no_bar→NoBar s (ground arith))

no_bars : List Bytes → Bool
no_bars [] = true
no_bars (s ∷ ss) = no_bar s && no_bars ss

names : {A : Type 0} → List (A × Bytes) → List Bytes
names [] = []
names ((k, name) ∷ rows) = name ∷ names rows

find-NoBar :
    (key : ℕ) (rows : List (ℕ × Bytes)) (other : Bytes)
    → no_bars (names rows) ≡ true
    → NoBar other
    → NoBar (name_or other (find key rows))
unfolding find name_or no_bars names
find-NoBar key [] other h ho = ho
find-NoBar key ((k, name) ∷ rows) other h ho = elim (Bool-cases (k == key)) [
  | inl hit ↦ rw hit (no_bar→NoBar name (ground arith))
  | inr miss ↦ rw miss (find-NoBar key rows other (ground arith) ho)
]

find_known-NoBar :
    (key : Bytes) (rows : List (Bytes × Bytes)) (other : Bytes)
    → no_bars (names rows) ≡ true
    → NoBar other
    → NoBar (name_or other (find_known key rows))
unfolding find_known name_or no_bars names
find_known-NoBar key [] other h ho = ho
find_known-NoBar key ((k, name) ∷ rows) other h ho = elim (Bool-cases (bytes_eq k key)) [
  | inl hit ↦ rw hit (no_bar→NoBar name (ground arith))
  | inr miss ↦ rw miss (find_known-NoBar key rows other (ground arith) ho)
]

standard-NoBar : (standard : ℕ) → NoBar (standard_name standard)
unfolding standard_name no_bars no_bar names
standard-NoBar standard =
    find-NoBar standard pcsc_standard (codes "pc/sc contactless, unspecified") refl
      (no_bar→NoBar (codes "pc/sc contactless, unspecified") refl)

contactless-NoBar : (standard card_type : ℕ) → NoBar (contactless_name standard card_type)
unfolding contactless_name no_bars no_bar names
contactless-NoBar standard card_type = elim (Bool-cases (standard == 0x03)) [
  | inl known ↦
      rw known (
        find-NoBar card_type pcsc_card_type (standard_name standard) refl (standard-NoBar standard))
  | inr other ↦ rw other (standard-NoBar standard)
]

unknown-NoBar : NoBar (codes "unknown")
unfolding no_bar
unknown-NoBar = no_bar→NoBar (codes "unknown") refl

rid-NoBar : (found : Option Bytes) → NoBar (rid_name found)
unfolding rid_name
rid-NoBar none = unknown-NoBar
rid-NoBar (some found) = elim (Bool-cases (leb (length found) 7)) [
  | inl short ↦ rw short unknown-NoBar
  | inr long ↦ rw long (contactless-NoBar (get_or found 5 0) (get_or found 7 0))
]

parsed-NoBar : (r : Result pcscid.Atr.AtrError pcscid.Atr.Atr) → NoBar (parsed_name r)
unfolding parsed_name
parsed-NoBar (err e) = unknown-NoBar
parsed-NoBar (ok a) = rid-NoBar (from_index pcsc_rid a.historical)

detect_type-NoBar : (atr : Bytes) → NoBar (detect_type atr)
unfolding detect_type no_bars no_bar names
detect_type-NoBar atr =
    find_known-NoBar (hex_upper atr) known_atr (parsed_name (parse_atr atr)) refl
      (parsed-NoBar (parse_atr atr))

-- Two presented cards, with whatever bytes as answers to reset, are hashed as the same text only if
-- the types that are detected from the answers are equal and the UIDs are equal.
pub detect_type-separates :
    (atr atr' uid uid' : Bytes)
    → concat_parts (btag_parts (detect_type atr) uid)
      ≡ concat_parts (btag_parts (detect_type atr') uid')
    → (detect_type atr ≡ detect_type atr') × (uid ≡ uid')
detect_type-separates atr atr' uid uid' =
    btag_parts-injective (detect_type atr) (detect_type atr') uid uid' (detect_type-NoBar atr)
      (detect_type-NoBar atr')
