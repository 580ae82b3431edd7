-- ===== src/Examples/Ports.antt =====
-- A reader at a concrete USB tree, and a machine with two network interfaces.
use mathlib.Core.List.Perm
use pcscid.Common.{
  ℕ, Bool, true, false, List, [], ◌∷◌, Option, none, some, ◌≡◌, ◌↔◌, refl, Bytes, codes, Table,
  bytes_eq, if◌then◌else◌,
}
use pcscid.Machine.Order.{machine_id_from-perm}
use pcscid.Machine.{machine_id_from}
use pcscid.Usb.Winner.{Dominates, usb_urb_winner-Dominates}
use pcscid.Usb.{Node, usb_urb_winner}

-- The files of a directory, by their names.
abbrev read_file : Table Bytes → Bytes → Option Bytes
read_file [] name = none
read_file ((other, text) ∷ files) name =
    let rest = read_file files name in if bytes_eq other name then some text else rest

abbrev directory : Bytes → Table Bytes → Node
directory name files = record {
  name = name;
  is_dir = true;
  file = read_file files;
  has = λ entry. bytes_eq entry (codes "device");
}

abbrev contactless : Node
contactless = directory (codes "1-2") (
    (codes "manufacturer", codes "ACS\n")
    ∷ (codes "product", codes "ACR122U\n")
    ∷ (codes "devpath", codes "2\n")
    ∷ [])

abbrev interface : Node
interface = directory (codes "1-2:1.0") ((codes "bInterfaceClass", codes "0b\n") ∷ [])

abbrev pub tree : List Node
tree = contactless ∷ interface ∷ []

abbrev acr122u : Bytes
acr122u = codes "ACS ACR122U PICC Interface 00 00"

abbrev pub acr122u_short : Bytes
acr122u_short = codes "ACS ACR122U 00 00"

abbrev counts : ℕ → ℕ → Table ℕ
counts first second = (codes "1-1", first) ∷ (codes "1-2", second) ∷ []

usb_urb_winner-Dominates_example :
    (usb_urb_winner (some (counts 5 5)) (some (counts 6 9)) (codes "1-1" ∷ codes "1-2" ∷ [])
      ≡ some (codes "1-2"))
    ↔ Dominates (counts 5 5) (counts 6 9) (codes "1-1" ∷ codes "1-2" ∷ []) (codes "1-2")
usb_urb_winner-Dominates_example =
    usb_urb_winner-Dominates (counts 5 5) (counts 6 9) (codes "1-1" ∷ codes "1-2" ∷ [])
      (codes "1-2")

winner_by_margin :
    usb_urb_winner (some (counts 5 5)) (some (counts 6 9)) (codes "1-1" ∷ codes "1-2" ∷ [])
    ≡ some (codes "1-2")
unfolding usb_urb_winner pcscid.Common.lookup bytes_eq
winner_by_margin = refl

winner_without_margin :
    usb_urb_winner (some (counts 5 5)) (some (counts 8 9)) (codes "1-1" ∷ codes "1-2" ∷ []) ≡ none
unfolding usb_urb_winner pcscid.Common.lookup bytes_eq
winner_without_margin = refl

abbrev port_with : Bytes → Bytes → Node
port_with name address =
    directory name ((codes "type", codes "1\n") ∷ (codes "address", address) ∷ [])

abbrev eth0 : Node
eth0 = port_with (codes "eth0") (codes "52:54:00:00:00:02\n")

abbrev eth1 : Node
eth1 = port_with (codes "eth1") (codes "52:54:00:00:00:01\n")

sorted_addresses :
    machine_id_from (some (eth0 ∷ eth1 ∷ [])) ≡ codes "52:54:00:00:00:01|52:54:00:00:00:02"
unfolding machine_id_from bytes_eq
sorted_addresses = refl

machine_id_from-perm_example :
    machine_id_from (some (eth0 ∷ eth1 ∷ [])) ≡ machine_id_from (some (eth1 ∷ eth0 ∷ []))
machine_id_from-perm_example =
    machine_id_from-perm (eth0 ∷ eth1 ∷ []) (eth1 ∷ eth0 ∷ []) (Perm.swap eth1 eth0 [])
