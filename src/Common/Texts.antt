-- ===== src/Common/Texts.antt =====
-- What the source uses of Go's `strings` and `strconv`, on byte strings. White space and case are
-- those of ASCII.
use Prim.Native.Nat.{ℕ, ◌+◌, ◌-◌, ◌*◌, ◌^◌}
use mathlib.Core.Bool.{Bool, true, false, ◌&&◌, ◌||◌}
use mathlib.Core.List.{List, [], ◌∷◌, ◌++◌}
use mathlib.Core.Option.{Option, none, some}
use pcscid.Common.Lists.{Bytes}
use pcscid.Common.Tests.{ltb, leb, ◌==◌, if◌then◌else◌}

abbrev pub is_space : ℕ → Bool
is_space c = c == 32 || (leb 9 c && leb c 13)

unfoldable pub trim_left : (ℕ → Bool) → Bytes → Bytes
trim_left cut [] = []
trim_left cut (c ∷ s) = if cut c then trim_left cut s else c ∷ s

unfoldable pub trim_right : (ℕ → Bool) → Bytes → Bytes
trim_right cut [] = []
trim_right cut (c ∷ s) = elim (trim_right cut s) [
  | [] ↦ if cut c then [] else c ∷ []
  | d ∷ t ↦ c ∷ d ∷ t
]

-- `strings.Trim` for a set of single bytes, and `strings.TrimSpace`.
unfoldable pub trim : (ℕ → Bool) → Bytes → Bytes
unfolding trim_left trim_right
trim cut s = trim_right cut (trim_left cut s)

unfoldable pub trim_space : Bytes → Bytes
unfolding trim
trim_space s = trim is_space s

-- A field that is begun is put before the fields that follow it.
unfoldable pub add_field : Bytes → List Bytes → List Bytes
add_field [] rest = rest
add_field (c ∷ s) rest = (c ∷ s) ∷ rest

-- `strings.Fields`: `seen` is the field that is being read.
unfoldable pub fields_from : Bytes → Bytes → List Bytes
unfolding add_field
fields_from seen [] = add_field seen []
fields_from seen (c ∷ s) =
    let rest = fields_from (if is_space c then [] else seen ++ c ∷ []) s in
    if is_space c then add_field seen rest else rest

unfoldable pub fields : Bytes → List Bytes
unfolding fields_from
fields s = fields_from [] s

abbrev pub upper_byte : ℕ → ℕ
upper_byte c = if leb b'a' c && leb c b'z' then c - 32 else c

abbrev pub lower_byte : ℕ → ℕ
lower_byte c = if leb b'A' c && leb c b'Z' then c + 32 else c

unfoldable pub to_upper : Bytes → Bytes
to_upper [] = []
to_upper (c ∷ s) = upper_byte c ∷ to_upper s

unfoldable pub to_lower : Bytes → Bytes
to_lower [] = []
to_lower (c ∷ s) = lower_byte c ∷ to_lower s

-- `strings.HasPrefix`, and `strings.Contains`.
unfoldable pub starts_with : Bytes → Bytes → Bool
starts_with [] s = true
starts_with (p ∷ ps) [] = false
starts_with (p ∷ ps) (c ∷ s) = p == c && starts_with ps s

unfoldable pub contains_text : Bytes → Bytes → Bool
unfolding starts_with
contains_text [] p = starts_with p []
contains_text (c ∷ s) p = starts_with p (c ∷ s) || contains_text s p

abbrev pub prepend : ℕ → Option Bytes → Option Bytes
prepend c none = none
prepend c (some s) = some (c ∷ s)

-- The text before the first occurrence of a byte, if it occurs: `s[:strings.IndexByte(s, c)]`.
unfoldable pub before_byte : ℕ → Bytes → Option Bytes
before_byte c [] = none
before_byte c (x ∷ s) = let rest = prepend x (before_byte c s) in if x == c then some [] else rest

-- The value of a digit, 16 where it is none.
abbrev pub digit_value : ℕ → ℕ
digit_value c =
    if leb b'0' c && leb c b'9'
    then c - 48
    else if leb b'a' c && leb c b'f'
    then c - 87
    else if leb b'A' c && leb c b'F'
    then c - 55
    else 16

-- `strconv.ParseUint(s, base, 32)`, with none for its errors: a digit that is none of the base, an
-- empty text, and a number beyond 32 bits.
unfoldable pub parse_digits : ℕ → ℕ → Bytes → Option ℕ
parse_digits base n [] = some n
parse_digits base n (c ∷ s) =
    let m = n * base + digit_value c in
    let rest = parse_digits base m s in
    if ltb (digit_value c) base && ltb m (2 ^ 32) then rest else none

unfoldable pub parse_uint : ℕ → Bytes → Option ℕ
unfolding parse_digits
parse_uint base [] = none
parse_uint base (c ∷ s) = parse_digits base 0 (c ∷ s)
