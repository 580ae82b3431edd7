-- ===== src/Examples/Inventories.antt =====
-- An inventory of one reader without a card, whose port the scan pins.
use mathlib.Core.List.{Memᴰ}
use pcscid.Common.{
  ℕ, true, false, List, [], ◌∷◌, none, Bytes, codes, replicate, ◌≡◌, ◌≢◌, refl, sym, subst,
}
use pcscid.Examples.Ports.{tree, acr122u_short}
use pcscid.Examples.Reading.{wedging, start}
use pcscid.Inventory.Claims.{identify_readers-ports}
use pcscid.Inventory.{ReaderInfo, info_of, identify_readers}
use pcscid.Uid.{Session}
use pcscid.Usb.{Root, listing}
use pcscid.Wire.States.{ReaderState}

abbrev no_digest : Bytes → Bytes
no_digest s = replicate 32 0

abbrev usb : ℕ × ℕ → Root
usb w = listing tree

abbrev idle_reader : ReaderState
idle_reader = record {
  reader = acr122u_short;
  event_counter = 0;
  state = 2;
  atr = [];
  protocol = 0;
}

abbrev fresh_session : Session (ℕ × ℕ)
fresh_session = record { world = start; acts = [] }

abbrev entry : ReaderInfo
entry =
    info_of wedging usb true no_digest [] idle_reader
      (record { serial = []; port = codes "2"; card = none })

listed :
    identify_readers wedging usb true no_digest [] (idle_reader ∷ []) fresh_session ≡ entry ∷ []
unfolding identify_readers pcscid.Common.bytes_eq pcscid.Common.lookup pcscid.Common.put
listed = refl

in_inventory :
    Memᴰ entry (identify_readers wedging usb true no_digest [] (idle_reader ∷ []) fresh_session)
in_inventory = subst (Memᴰ entry) (sym listed) (Memᴰ.head refl)

pinned_port : entry.port ≢ []
unfolding info_of
pinned_port e = cc

identify_readers-ports_example : entry.reader ≡ entry.reader
unfolding pcscid.Watch.is_seen
identify_readers-ports_example =
    identify_readers-ports wedging usb true no_digest [] (idle_reader ∷ []) fresh_session entry
      entry (refl, tt) in_inventory in_inventory pinned_port refl
