-- ===== src/Machine.antt =====
-- readerid.go, `machineIDFrom` and `isHardwareEthernet`: the identity of a machine, from the addresses
-- of its ethernet ports.
pub mod Order
use pcscid.Common.{
  ℕ, Bool, true, false, not, ◌&&◌, ◌||◌, List, [], ◌∷◌, ◌++◌, Option, none, some, Bytes, codes, ltb,
  ◌==◌, if◌then◌else◌, trim, trim_space,
}
use pcscid.Tags.{is_empty}
use pcscid.Usb.{Node, read_sys_num}

unfoldable pub is_hardware_ethernet : Node → Bool
unfolding read_sys_num
is_hardware_ethernet node =
    (read_sys_num node (codes "type") == 1)
    && not (node.has (codes "phy80211"))
    && node.has (codes "device")

-- An address that is not empty, nor made of zeros and colons alone.
unfoldable pub burned_in : Bytes → List Bytes
unfolding trim is_empty
burned_in mac =
    if is_empty mac || is_empty (trim (λ c. c == b'0' || c == b':') mac) then [] else mac ∷ []

unfoldable pub address_of : Option Bytes → List Bytes
unfolding burned_in trim_space
address_of none = []
address_of (some raw) = burned_in (trim_space raw)

-- What an interface adds to the addresses.
unfoldable pub mac_of : Node → List Bytes
unfolding is_hardware_ethernet address_of
mac_of node = if is_hardware_ethernet node then address_of (node.file (codes "address")) else []

unfoldable pub macs_of : List Node → List Bytes
unfolding mac_of
macs_of [] = []
macs_of (node ∷ nodes) = mac_of node ++ macs_of nodes

-- Go's order on strings.
unfoldable pub text_le : Bytes → Bytes → Bool
text_le [] s = true
text_le (c ∷ s) [] = false
text_le (c ∷ s) (d ∷ t) = ltb c d || ((c == d) && text_le s t)

unfoldable pub insert_text : Bytes → List Bytes → List Bytes
unfolding text_le
insert_text s [] = s ∷ []
insert_text s (t ∷ ts) = let rest = t ∷ insert_text s ts in if text_le s t then s ∷ t ∷ ts else rest

-- `slices.Sort`: the order is total on texts, so every sort gives this list.
unfoldable pub sort_texts : List Bytes → List Bytes
unfolding insert_text
sort_texts [] = []
sort_texts (s ∷ ts) = insert_text s (sort_texts ts)

-- `strings.Join` with the separator "|"
unfoldable pub join_bar : List Bytes → Bytes
join_bar [] = []
join_bar (s ∷ []) = s
join_bar (s ∷ t ∷ ts) = s ++ (b'|' ∷ join_bar (t ∷ ts))

-- No list stands for an unreadable directory.
unfoldable pub machine_id_from : Option (List Node) → Bytes
unfolding join_bar sort_texts macs_of
machine_id_from none = []
machine_id_from (some nodes) = join_bar (sort_texts (macs_of nodes))
