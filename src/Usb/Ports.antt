-- ===== src/Usb/Ports.antt =====
-- The ports that the scan hands out.
use mathlib.Core.List.{Memᴰ}
use pcscid.Common.{false, List, ◌≡◌, Bytes, Table, lookup, ok}
use pcscid.Units.{is_foreign}
use pcscid.Usb.{Node}
use pcscid.Usb.Scan.{resolve}

-- A port that no other reader owns, and that is the port identity of one of the candidates.
pub record IsHandedOut (reader : Bytes) (claims : Table Bytes) (candidates : List Node)
    (port : Bytes) : Type 0 where
  pub node : Node
  pub candidate : Memᴰ node candidates
  pub resolved : resolve reader node ≡ ok port
  pub free : is_foreign reader (lookup port claims) ≡ false
