-- ===== src/CardType.antt =====
-- cardtype.go: the card type behind an answer to reset, and its three tables.
pub mod Names
use pcscid.Atr.{Atr, AtrError, parse_atr}
use pcscid.Common.{
  ℕ, ◌+◌, ◌-◌, ◌/◌, ◌%◌, Bool, true, false, ◌&&◌, List, [], ◌∷◌, Option, none, some, Bytes, codes,
  bytes_eq, length, get_or, drop, take, ltb, leb, ◌==◌, if◌then◌else◌, Result, ok, err,
}

-- One of the two tables keyed by a byte.
unfoldable pub find : ℕ → List (ℕ × Bytes) → Option Bytes
find key [] = none
find key ((k, name) ∷ rows) = if k == key then some name else find key rows

-- `knownATR`, with its keys as the answers that they stand for in hex.
unfoldable pub find_known : Bytes → List (Bytes × Bytes) → Option Bytes
find_known key [] = none
find_known key ((k, name) ∷ rows) = if bytes_eq k key then some name else find_known key rows

abbrev pub pcsc_rid : Bytes
pcsc_rid = 0xA0 ∷ 0x00 ∷ 0x00 ∷ 0x03 ∷ 0x06 ∷ []

abbrev pub pcsc_standard : List (ℕ × Bytes)
pcsc_standard =
    (0x00, codes "rfid, no standard given")
    ∷ (0x01, codes "rfid, iso 14443 type a part 1")
    ∷ (0x02, codes "rfid, iso 14443 type a part 2")
    ∷ (0x03, codes "iso 14443 type a, pc/sc part 3")
    ∷ []

abbrev pub pcsc_card_type : List (ℕ × Bytes)
pcsc_card_type =
    (0x00, codes "contactless, card name not given")
    ∷ (0x01, codes "mifare classic 1k")
    ∷ (0x02, codes "mifare classic 4k")
    ∷ (0x03, codes "mifare ultralight")
    ∷ (0x04, codes "sle55r")
    ∷ (0x06, codes "sr176")
    ∷ (0x07, codes "sri x4k")
    ∷ (0x08, codes "at88rf020")
    ∷ (0x09, codes "at88sc0204crf")
    ∷ (0x0A, codes "at88sc0808crf")
    ∷ (0x0B, codes "at88sc1616crf")
    ∷ (0x0C, codes "at88sc3216crf")
    ∷ (0x0D, codes "at88sc6416crf")
    ∷ (0x0E, codes "srf55v10p")
    ∷ (0x0F, codes "srf55v02p")
    ∷ (0x10, codes "srf55v10s")
    ∷ (0x11, codes "srf55v02s")
    ∷ (0x12, codes "tag it")
    ∷ (0x13, codes "lri512")
    ∷ (0x14, codes "icodesli")
    ∷ (0x15, codes "tempsens")
    ∷ (0x16, codes "i-code1")
    ∷ (0x17, codes "picopass 2k")
    ∷ (0x18, codes "picopass 2ks")
    ∷ (0x19, codes "picopass 16k")
    ∷ (0x1A, codes "picopass 16ks")
    ∷ (0x1B, codes "picopass 16k(8x2)")
    ∷ (0x1C, codes "picopass 16ks(8x2)")
    ∷ (0x1D, codes "picopass 32ks(16+16)")
    ∷ (0x1E, codes "picopass 32ks(16+8x2)")
    ∷ (0x1F, codes "picopass 32ks(8x2+16)")
    ∷ (0x20, codes "picopass 32ks(8x2+8x2)")
    ∷ (0x21, codes "lri64")
    ∷ (0x22, codes "i.code uid")
    ∷ (0x23, codes "i.code epc")
    ∷ (0x24, codes "lri12")
    ∷ (0x25, codes "lri128")
    ∷ (0x26, codes "mifare mini")
    ∷ (0x27, codes "my-d move (sle 66r01p)")
    ∷ (0x28, codes "my-d nfc (sle 66rxxp)")
    ∷ (0x29, codes "my-d proximity 2 (sle 66rxxs)")
    ∷ (0x2A, codes "my-d proximity enhanced (sle 55rxxe)")
    ∷ (0x2B, codes "my-d light (srf 55v01p)")
    ∷ (0x2C, codes "pjm stack tag (srf 66v10st)")
    ∷ (0x2D, codes "pjm item tag (srf 66v10it)")
    ∷ (0x2E, codes "pjm light (srf 66v01st)")
    ∷ (0x2F, codes "jewel tag")
    ∷ (0x30, codes "topaz nfc tag")
    ∷ (0x31, codes "at88sc0104crf")
    ∷ (0x32, codes "at88sc0404crf")
    ∷ (0x33, codes "at88rf01c")
    ∷ (0x34, codes "at88rf04c")
    ∷ (0x35, codes "i-code sl2")
    ∷ (0x36, codes "mifare plus sl1 2k")
    ∷ (0x37, codes "mifare plus sl1 4k")
    ∷ (0x38, codes "mifare plus sl2 2k")
    ∷ (0x39, codes "mifare plus sl2 4k")
    ∷ (0x3A, codes "mifare ultralight c")
    ∷ (0x3B, codes "felica")
    ∷ (0x3C, codes "melexis sensor tag (mlx90129)")
    ∷ (0x3D, codes "mifare ultralight ev1")
    ∷ []

abbrev pub known_atr : List (Bytes × Bytes)
known_atr =
    (codes "3B8480018082900097", codes "german eid/passport (npa)")
    ∷ (codes "3B8D80018073C021C057597562694B65FF7F", codes "yubikey 5 nfc")
    ∷ (codes "3B8580015A4356445659", codes "deutschlandticket (vdv-ka)")
    ∷ []

-- A digit of the upper case hex form.
abbrev pub hex_digit : ℕ → ℕ
hex_digit d = if ltb d 10 then 48 + d else 55 + d

unfoldable pub hex_upper : Bytes → Bytes
hex_upper [] = []
hex_upper (b ∷ bs) = hex_digit (b / 16) ∷ hex_digit (b % 16) ∷ hex_upper bs

-- `bytes.HasPrefix`, and `bytes.Index` as the text behind the prefix of the first match: the
-- index itself is only used to look behind it.
unfoldable pub has_prefix : Bytes → Bytes → Bool
has_prefix [] s = true
has_prefix (p ∷ ps) [] = false
has_prefix (p ∷ ps) (c ∷ s) = p == c && has_prefix ps s

unfoldable pub from_index : Bytes → Bytes → Option Bytes
unfolding has_prefix
from_index p [] = if has_prefix p [] then some [] else none
from_index p (c ∷ s) = if has_prefix p (c ∷ s) then some (c ∷ s) else from_index p s

unfoldable pub name_or : Bytes → Option Bytes → Bytes
name_or other none = other
name_or other (some name) = name

-- The name by the standard byte alone.
unfoldable pub standard_name : ℕ → Bytes
unfolding find name_or
standard_name standard =
    name_or (codes "pc/sc contactless, unspecified") (find standard pcsc_standard)

-- The name by the standard and the card type byte.
unfoldable pub contactless_name : ℕ → ℕ → Bytes
unfolding find name_or standard_name
contactless_name standard card_type =
    if standard == 0x03
    then name_or (standard_name standard) (find card_type pcsc_card_type)
    else standard_name standard

-- The historical bytes from the RID on: the two bytes stand at 5 and 7 behind its start.
unfoldable pub rid_name : Option Bytes → Bytes
unfolding contactless_name
rid_name none = codes "unknown"
rid_name (some found) =
    if leb (length found) 7
    then codes "unknown"
    else contactless_name (get_or found 5 0) (get_or found 7 0)

unfoldable pub parsed_name : Result AtrError Atr → Bytes
unfolding rid_name from_index
parsed_name (err e) = codes "unknown"
parsed_name (ok a) = rid_name (from_index pcsc_rid a.historical)

unfoldable pub detect_type : Bytes → Bytes
unfolding find_known hex_upper name_or parsed_name parse_atr
detect_type atr = name_or (parsed_name (parse_atr atr)) (find_known (hex_upper atr) known_atr)
