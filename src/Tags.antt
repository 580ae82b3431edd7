-- ===== src/Tags.antt =====
-- pcscid.go, the derivation of btags and reader tags: `btagFormat`, `digestID`, `Btag`,
-- `ReaderTag`, `ReaderTagWithSerial`, `ReaderTagWithUnit`, `ReaderTagWithMachine`; and `unitTier`
-- of readerid.go. SHA-256 is a parameter: `crypto/sha256` is not the repository's.
pub mod Shape
pub mod Parts
pub mod Stability
use pcscid.Common.{
  ℕ, ◌+◌, ◌%◌, Bool, true, false, List, [], ◌∷◌, ◌++◌, Bytes, codes, length, get_or, take, ◌==◌,
  if◌then◌else◌, bytes_eq,
}
use pcscid.ReaderName.{normalize_reader_name}

abbrev pub btag_alphabet : Bytes
btag_alphabet = codes "0123456789abcdefghijklmnopqrstuvwxyz"

-- `btagAlphabet[int(b)%len(btagAlphabet)]`
unfoldable pub btag_char : ℕ → ℕ
btag_char b = get_or btag_alphabet (b % length btag_alphabet) 0

-- The inner loop, over the dash positions.
pub append_dashes : ℕ → List ℕ → Bytes → Bytes
append_dashes i [] id = id
append_dashes i (d ∷ ds) id = append_dashes i ds (if i == d then id ++ b'-' ∷ [] else id)

-- The outer loop, at index `i`.
pub format_from : ℕ → Bytes → List ℕ → Bytes → Bytes
format_from i [] dashes id = id
format_from i (b ∷ bs) dashes id =
    format_from (i + 1) bs dashes (append_dashes i dashes id ++ btag_char b ∷ [])

unfoldable pub btag_format : Bytes → ℕ → List ℕ → Bytes
unfolding format_from append_dashes btag_char
btag_format sum n dashes = format_from 0 (take n sum) dashes []

-- What `digestID` writes to the hash.
unfoldable pub concat_parts : List Bytes → Bytes
concat_parts [] = []
concat_parts (p ∷ ps) = p ++ concat_parts ps

unfoldable pub is_empty : Bytes → Bool
is_empty [] = true
is_empty (x ∷ s) = false

-- The parts hashed by `Btag`.
unfoldable pub btag_parts : Bytes → Bytes → List Bytes
btag_parts card_type tag = codes "pcscid/v1|" ∷ card_type ∷ codes "|" ∷ tag ∷ []

-- The parts hashed by `ReaderTag`.
unfoldable pub model_parts : Bytes → List Bytes
model_parts reader = codes "pcscid/reader/v1|" ∷ normalize_reader_name reader ∷ []

-- The parts hashed by `ReaderTagWithUnit`, its three cases in order.
unfoldable pub unit_parts : Bytes → Bytes → Bytes → List Bytes
unfolding model_parts
unit_parts reader [] [] = model_parts reader
unit_parts reader [] (p ∷ port) =
    codes "pcscid/reader/v3|" ∷ normalize_reader_name reader ∷ codes "|" ∷ (p ∷ port) ∷ []
unit_parts reader (s ∷ serial) port =
    codes "pcscid/reader/v2|" ∷ normalize_reader_name reader ∷ codes "|" ∷ (s ∷ serial) ∷ []

-- `unit` of `ReaderTagWithMachine`.
unfoldable pub unit_text : Bytes → Bytes → Bytes
unit_text [] [] = codes "model"
unit_text [] (p ∷ port) = codes "port:" ++ p ∷ port
unit_text (s ∷ serial) port = codes "serial:" ++ s ∷ serial

-- The parts hashed by `ReaderTagWithMachine`.
unfoldable pub machine_parts : Bytes → Bytes → Bytes → Bytes → List Bytes
unfolding unit_parts unit_text
machine_parts reader serial port [] = unit_parts reader serial port
machine_parts reader serial port (m ∷ machine) =
    codes "pcscid/reader/m1|"
    ∷ normalize_reader_name reader
    ∷ codes "|"
    ∷ unit_text serial port
    ∷ codes "|"
    ∷ (m ∷ machine)
    ∷ []

-- `unitTier`
pub data Tier : Type 0 where
  serial_tier port_tier model_tier : Tier

unfoldable pub unit_tier : Bytes → Bytes → Tier
unit_tier [] [] = model_tier
unit_tier [] (p ∷ rest) = port_tier
unit_tier (s ∷ rest) q = serial_tier

module _ (sha256 : Bytes → Bytes) where
  unfoldable pub digest_id : List Bytes → Bytes
  unfolding concat_parts
  digest_id parts = sha256 (concat_parts parts)

  unfoldable pub btag : Bytes → Bytes → Bytes
  unfolding digest_id btag_parts btag_format
  btag card_type tag = btag_format (digest_id (btag_parts card_type tag)) 10 (3 ∷ 6 ∷ [])

  unfoldable pub reader_tag : Bytes → Bytes
  unfolding digest_id model_parts btag_format
  reader_tag reader = btag_format (digest_id (model_parts reader)) 8 (2 ∷ 6 ∷ [])

  unfoldable pub reader_tag_with_unit : Bytes → Bytes → Bytes → Bytes
  unfolding digest_id unit_parts btag_format
  reader_tag_with_unit reader serial port =
      btag_format (digest_id (unit_parts reader serial port)) 8 (2 ∷ 6 ∷ [])

  unfoldable pub reader_tag_with_serial : Bytes → Bytes → Bytes
  unfolding reader_tag_with_unit
  reader_tag_with_serial reader serial = reader_tag_with_unit reader serial []

  unfoldable pub reader_tag_with_machine : Bytes → Bytes → Bytes → Bytes → Bytes
  unfolding digest_id machine_parts btag_format
  reader_tag_with_machine reader serial port machine =
      btag_format (digest_id (machine_parts reader serial port machine)) 8 (2 ∷ 6 ∷ [])
