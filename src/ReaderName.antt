-- ===== src/ReaderName.antt =====
-- pcscid.go, `normalizeReaderName` and `isHotplugIndex`: the stable part of a pcscd reader name.
pub mod Strip
pub mod Stable
use pcscid.Common.{
  ℕ, zero, suc, ◌+◌, ◌-◌, Bool, true, false, not, ◌&&◌, ◌||◌, List, [], ◌∷◌, Option, none, some,
  Bytes, length, take, drop, ltb, leb, ◌==◌, if◌then◌else◌,
}

-- `strings.LastIndexByte`
pub last_index_byte : ℕ → Bytes → Option ℕ
last_index_byte c [] = none
last_index_byte c (x ∷ s) = elim (last_index_byte c s) [
  | some i ↦ some (suc i)
  | none ↦ if x == c then some 0 else none
]

abbrev pub is_digit : ℕ → Bool
is_digit c = not (ltb c b'0' || ltb b'9' c)

-- The loop over the bytes of `s`.
unfoldable pub all_digits : Bytes → Bool
all_digits [] = true
all_digits (c ∷ s) = is_digit c && all_digits s

unfoldable pub is_hotplug_index : Bytes → Bool
unfolding all_digits
is_hotplug_index s = if length s == 0 || ltb 2 (length s) then false else all_digits s

-- One round of the loop: the shortened name, or none where it returns.
pub strip : Bytes → Option Bytes
strip reader = elim (last_index_byte b' ' reader) [
  | none ↦ none
  | some last ↦
      if suc last == length reader
      then none
      else if is_hotplug_index (drop (suc last) reader)
      then some (take last reader)
      else none
]

pub normalize_fuel : ℕ → Bytes → Bytes
normalize_fuel zero reader = reader
normalize_fuel (suc fuel) reader = elim (strip reader) [
  | none ↦ reader
  | some shorter ↦ normalize_fuel fuel shorter
]

-- Each round drops at least a space and a digit, so the length is enough fuel.
unfoldable pub normalize_reader_name : Bytes → Bytes
unfolding normalize_fuel strip last_index_byte is_hotplug_index
normalize_reader_name reader = normalize_fuel (length reader) reader
