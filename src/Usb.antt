-- ===== src/Usb.antt =====
-- readerid.go: the USB port of a reader, found in the sysfs tree. A scan reads one state of the tree.
pub mod Runs
pub mod Lead
pub mod Winner
pub mod Scan
pub mod Ports
use pcscid.Common.{
  ℕ, zero, suc, ◌+◌, ◌-◌, ◌*◌, Bool, true, false, not, ◌&&◌, ◌||◌, List, [], ◌∷◌, ◌++◌, Option,
  none, some, Bytes, codes, length, get_or, take, Table, lookup, put, bytes_eq, ltb, leb, ◌==◌,
  if◌then◌else◌, trim, trim_space, fields, to_upper, to_lower, contains_text, before_byte,
  parse_uint, Result, ok, err, ◌>>=◌,
}
use pcscid.ReaderName.{normalize_reader_name, is_hotplug_index}
use pcscid.Tags.{is_empty}
use pcscid.Units.{is_foreign}

-- An entry of a sysfs directory: whether it is a directory, the attribute files below it, and what
-- `os.Stat` finds below it.
pub record Node : Type 0 where
  pub name : Bytes
  pub is_dir : Bool
  pub file : Bytes → Option Bytes
  pub has : Bytes → Bool

-- A sysfs root: none is configured, it is unreadable, or `os.ReadDir` lists its entries.
pub data Root : Type 0 where
  no_root : Root
  unreadable : Root
  listing : List Node → Root

abbrev pub channel_id_usb_type : ℕ
channel_id_usb_type = 0x0020

abbrev pub ccid_interface_class : ℕ
ccid_interface_class = 0x0B

abbrev pub urb_winner_min_delta : ℕ
urb_winner_min_delta = 2

abbrev pub urb_winner_margin : ℕ
urb_winner_margin = 2

abbrev pub or_zero : Option ℕ → ℕ
or_zero none = 0
or_zero (some n) = n

abbrev pub trimmed : Option Bytes → Bytes
trimmed none = []
trimmed (some raw) = trim_space raw

unfoldable pub read_sys_string : Node → Bytes → Bytes
unfolding trim_space
read_sys_string node attribute = trimmed (node.file attribute)

abbrev pub number : ℕ → Option Bytes → ℕ
number base none = 0
number base (some raw) = or_zero (parse_uint base (trim_space raw))

unfoldable pub read_sys_hex : Node → Bytes → ℕ
unfolding parse_uint trim_space
read_sys_hex node attribute = number 16 (node.file attribute)

unfoldable pub read_sys_num : Node → Bytes → ℕ
unfolding parse_uint trim_space
read_sys_num node attribute = number 10 (node.file attribute)

abbrev pub is_hex_digit : ℕ → Bool
is_hex_digit c =
    (leb b'0' c && leb c b'9') || (leb b'a' c && leb c b'f') || (leb b'A' c && leb c b'F')

unfoldable pub is_hex_group : Bytes → Bool
is_hex_group (c ∷ d ∷ []) = is_hex_digit c && is_hex_digit d
is_hex_group _ = false

-- The last two fields, the last one first.
unfoldable pub last_fields : List Bytes → Option (Bytes × Bytes)
last_fields [] = none
last_fields (a ∷ []) = none
last_fields (a ∷ b ∷ []) = some (b, a)
last_fields (a ∷ b ∷ c ∷ rest) = last_fields (b ∷ c ∷ rest)

unfoldable pub slot_identity : Option (Bytes × Bytes) → Bytes → Bytes
unfolding is_hex_group to_lower
slot_identity none devpath = devpath
slot_identity (some (slot, digit)) devpath =
    if not (is_hex_group slot) || not (is_hex_group digit)
    then devpath
    else if bytes_eq slot (codes "00")
    then devpath
    else devpath ++ (codes "#" ++ to_lower slot)

unfoldable pub port_identity : Bytes → Bytes → Bytes
unfolding slot_identity last_fields fields
port_identity reader devpath = slot_identity (last_fields (fields reader)) devpath

-- Why a scan refuses.
pub data Reason : Type 0 where
  no_root_configured tree_unreadable devpath_unreadable no_such_device no_tokens no_match : Reason
  no_devpath claimed_port singled_out_claimed no_traffic ambiguous : Reason

-- `usbPortPath`
unfoldable pub devpath_of : Option Bytes → Result Reason Bytes
unfolding trim_space
devpath_of none = err devpath_unreadable
devpath_of (some raw) = ok (trim_space raw)

unfoldable pub is_at : ℕ → ℕ → Node → Bool
unfolding read_sys_num
is_at bus dev node =
    node.is_dir
    && (read_sys_num node (codes "busnum") == bus)
    && (read_sys_num node (codes "devnum") == dev)

unfoldable pub port_path_in : ℕ → ℕ → List Node → Result Reason Bytes
unfolding is_at devpath_of
port_path_in bus dev [] = err no_such_device
port_path_in bus dev (node ∷ nodes) =
    let rest = port_path_in bus dev nodes in
    if is_at bus dev node then devpath_of (node.file (codes "devpath")) else rest

unfoldable pub usb_port_path : Root → ℕ → ℕ → Result Reason Bytes
unfolding port_path_in
usb_port_path no_root bus dev = err no_root_configured
usb_port_path unreadable bus dev = err tree_unreadable
usb_port_path (listing nodes) bus dev = port_path_in bus dev nodes

-- `usbCCIDDevices`: the names that the map holds, perhaps more than once.
unfoldable pub add_ccid : Node → Option Bytes → List Bytes → List Bytes
unfolding read_sys_hex
add_ccid node none rest = rest
add_ccid node (some []) rest = rest
add_ccid node (some (c ∷ name)) rest =
    if read_sys_hex node (codes "bInterfaceClass") == ccid_interface_class
    then (c ∷ name) ∷ rest
    else rest

unfoldable pub usb_ccid_devices : List Node → List Bytes
unfolding add_ccid before_byte
usb_ccid_devices [] = []
usb_ccid_devices (node ∷ nodes) =
    add_ccid node (before_byte b':' node.name) (usb_ccid_devices nodes)

unfoldable pub is_among : Bytes → List Bytes → Bool
is_among name [] = false
is_among name (other ∷ names) = bytes_eq other name || is_among name names

-- The counter below a name, 0 where there is no such entry.
unfoldable pub urbnum_of : Bytes → List Node → ℕ
unfolding read_sys_num
urbnum_of name [] = 0
urbnum_of name (node ∷ nodes) =
    let rest = urbnum_of name nodes in
    if bytes_eq node.name name then read_sys_num node (codes "urbnum") else rest

unfoldable pub counts_of : List Node → List Bytes → Table ℕ
unfolding urbnum_of
counts_of nodes [] = []
counts_of nodes (name ∷ names) = put name (urbnum_of name nodes) (counts_of nodes names)

-- `usbUrbSnapshot`, with none for the nil map.
unfoldable pub usb_urb_snapshot : Root → Option (Table ℕ)
unfolding counts_of usb_ccid_devices
usb_urb_snapshot no_root = none
usb_urb_snapshot unreadable = none
usb_urb_snapshot (listing nodes) = some (counts_of nodes (usb_ccid_devices nodes))

-- The variables of the loop of `usbUrbWinner`.
pub record Race : Type 0 where
  pub winner : Bytes
  pub winner_delta : ℕ
  pub runner_up : ℕ

-- A counter that fell has a negative delta in the source, which passes neither test; here it is 0.
unfoldable pub enter : Bytes → ℕ → Race → Race
enter candidate delta r =
    if ltb r.winner_delta delta
    then record { winner = candidate; winner_delta = delta; runner_up = r.winner_delta }
    else if ltb r.runner_up delta
    then record r { runner_up = delta }
    else r

unfoldable pub enter_present : Bytes → Option ℕ → ℕ → Race → Race
unfolding enter
enter_present candidate none after r = r
enter_present candidate (some base) after r = enter candidate (after - base) r

unfoldable pub race : Table ℕ → Table ℕ → List Bytes → Race → Race
unfolding enter_present
race before after [] r = r
race before after (candidate ∷ candidates) r =
    race before after candidates
      (enter_present candidate (lookup candidate before) (or_zero (lookup candidate after)) r)

unfoldable pub judge : Race → Option Bytes
unfolding is_empty
judge r =
    if is_empty r.winner
      || ltb r.winner_delta urb_winner_min_delta
      || ltb (r.winner_delta - r.runner_up) urb_winner_margin
    then none
    else some r.winner

unfoldable pub usb_urb_winner : Option (Table ℕ) → Option (Table ℕ) → List Bytes → Option Bytes
unfolding race judge
usb_urb_winner none after candidates = none
usb_urb_winner (some before) none candidates = none
usb_urb_winner (some before) (some after) candidates =
    judge (race before after candidates (record { winner = []; winner_delta = 0; runner_up = 0 }))

-- `(` first and `)` last, in a token of two bytes or more.
unfoldable pub is_parenthesised : Bytes → Bool
is_parenthesised token =
    leb 2 (length token)
    && (get_or token 0 0 == b'(')
    && (get_or token (length token - 1) 0 == b')')

unfoldable pub is_dropped : Bytes → Bytes → Bool
unfolding is_hotplug_index is_parenthesised trim is_empty
is_dropped field token =
    is_hotplug_index field || is_parenthesised token || is_empty (trim (λ c. c == b'0') token)

unfoldable pub tokens_of : List Bytes → List Bytes
unfolding is_dropped to_upper
tokens_of [] = []
tokens_of (field ∷ fs) =
    let rest = tokens_of fs in
    if is_dropped field (to_upper field) then rest else to_upper field ∷ rest

unfoldable pub reader_name_tokens : Bytes → List Bytes
unfolding tokens_of fields normalize_reader_name
reader_name_tokens reader = tokens_of (fields (normalize_reader_name reader))

unfoldable pub tokens_in : Bytes → List Bytes → Bool
unfolding contains_text
tokens_in device [] = true
tokens_in device (token ∷ tokens) = contains_text device token && tokens_in device tokens

-- The tests of the scan on an entry. The texts are taken as ASCII: `strings.ToUpper` and
-- `strings.TrimSpace` of the source also know the letters and the white space of Unicode.
unfoldable pub is_candidate : List Bytes → List Bytes → Node → Bool
unfolding contains_text is_among tokens_in to_upper read_sys_string
is_candidate ccid tokens node =
    not (contains_text node.name (codes ":"))
    && is_among node.name ccid
    && node.is_dir
    && tokens_in
        (to_upper (
          read_sys_string node (codes "manufacturer")
          ++ (codes " " ++ read_sys_string node (codes "product"))))
        tokens

unfoldable pub candidates_of : List Bytes → List Bytes → List Node → List Node
unfolding is_candidate
candidates_of ccid tokens [] = []
candidates_of ccid tokens (node ∷ nodes) =
    let rest = candidates_of ccid tokens nodes in
    if is_candidate ccid tokens node then node ∷ rest else rest
