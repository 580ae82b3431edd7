-- ===== src/Probe.antt =====
-- readerid.go: `probeReaderCard` and the attributes that it asks the driver for.
pub mod Closing
pub mod Identity
pub mod Recorded
use pcscid.Common.{
  ℕ, zero, suc, ◌/◌, ◌%◌, Bool, true, false, not, ◌&&◌, ◌||◌, List, [], ◌∷◌, Option, none, some,
  Bytes, Table, length, ◌==◌, if◌then◌else◌, trim, trim_space, Result, ok, err,
}
use pcscid.Tags.{is_empty}
use pcscid.Uid.{
  CardConn, Pcscd, Session, Reading, act, Act, asks, answered, disconnect, open_card, insist_uid,
  uid_apdu, leave_card,
}
use pcscid.Units.{Facts, no_facts}
use pcscid.Usb.{Root, Reason, channel_id_usb_type, port_identity, usb_port_path, usb_urb_snapshot}
use pcscid.Usb.Scan.{usb_port_path_by_reader}
use pcscid.Wire.{uint32}

abbrev pub attr_vendor_ifd_serial_no : ℕ
attr_vendor_ifd_serial_no = 0x0103

abbrev pub attr_channel_id : ℕ
attr_channel_id = 0x0110

abbrev pub pinning_exchanges : ℕ
pinning_exchanges = 2

unfoldable pub is_placeholder_serial : Bytes → Bool
unfolding trim is_empty
is_placeholder_serial serial = not (is_empty serial) && is_empty (trim (λ c. c == b'0') serial)

unfoldable pub usable_serial : Bytes → Bytes
unfolding is_placeholder_serial
usable_serial serial = if is_placeholder_serial serial then [] else serial

-- `readVendorSerial` behind the question.
unfoldable pub serial_of : Option Bytes → Bytes
unfolding usable_serial trim_space trim
serial_of none = []
serial_of (some attr) = usable_serial (trim_space (trim (λ c. c == 0) attr))

pub data ChannelReason : Type 0 where
  no_channel_id : ChannelReason
  malformed : ℕ → ChannelReason
  not_usb : ℕ → ChannelReason

-- `readChannelID` behind the question: the bus and the device.
unfoldable pub channel_of : Option Bytes → Result ChannelReason (ℕ × ℕ)
unfolding uint32
channel_of none = err no_channel_id
channel_of (some attr) =
    let id = uint32 attr in
    if not (length attr == 4)
    then err (malformed (length attr))
    else if not (id / 65536 == channel_id_usb_type)
    then err (not_usb id)
    else ok (id / 256 % 256, id % 256)

-- The port that a channel id leads to, qualified by the slot; none on any failure.
unfoldable pub qualified : Bytes → Result Reason Bytes → Bytes
unfolding port_identity
qualified reader (err reason) = []
qualified reader (ok []) = []
qualified reader (ok (c ∷ port)) = port_identity reader (c ∷ port)

unfoldable pub channel_port : Root → Bytes → Result ChannelReason (ℕ × ℕ) → Bytes
unfolding qualified usb_port_path
channel_port root reader (err reason) = []
channel_port root reader (ok (bus, dev)) = qualified reader (usb_port_path root bus dev)

unfoldable pub or_unresolved : Result Reason Bytes → Bytes
or_unresolved (ok port) = port
or_unresolved (err reason) = []

unfoldable pub is_known : Facts → Bool
unfolding is_empty
is_known cached = not (is_empty cached.serial) || not (is_empty cached.port)

module _ {W : Type 0} (pcscd : Pcscd W) (sysfs : W → Root) (use_usb_path : Bool) where
  unfoldable pub ask : CardConn → ℕ → Session W → Option Bytes × Session W
  ask card attribute s =
      let (attr, world) = pcscd.get_attrib card attribute s.world in
      (attr, act pcscd (asks card attribute) world s)

  -- The port by the channel id, where there is no serial and ports are enabled.
  unfoldable pub ask_channel : Bytes → Bytes → CardConn → Session W → (Bytes × Bytes) × Session W
  unfolding ask channel_of channel_port is_empty
  ask_channel reader serial card s =
      let (attr, t) = ask card attr_channel_id s in
      if is_empty serial && use_usb_path
      then ((serial, channel_port (sysfs t.world) reader (channel_of attr)), t)
      else ((serial, []), s)

  -- The serial and the port before the exchange for the UID: from the session, or asked for.
  unfoldable pub ask_identity :
      Bool → Bytes → Facts → CardConn → Session W → (Bytes × Bytes) × Session W
  unfolding ask ask_channel serial_of
  ask_identity true reader cached card s = ((cached.serial, cached.port), s)
  ask_identity false reader cached card s =
      let (attr, t) = ask card attr_vendor_ifd_serial_no s in
      ask_channel reader (serial_of attr) card t

  -- The exchanges that add to the traffic.
  unfoldable pub pin : ℕ → Option CardConn → Session W → Session W
  pin zero live s = s
  pin (suc n) none s = s
  pin (suc n) (some card) s =
      pin n (some card) (answered pcscd card (pcscd.transmit card uid_apdu 64 s.world) s).1

  -- The snapshot before the first exchange.
  unfoldable pub snapshot_before : Bool → W → Option (Table ℕ)
  unfolding usb_urb_snapshot
  snapshot_before known world =
      if use_usb_path && not known then usb_urb_snapshot (sysfs world) else none

  -- The scan by name, where nothing else told the unit.
  unfoldable pub scan_port :
      Bool
      → Bytes
      → Option (Table ℕ)
      → Table Bytes
      → Bytes × Bytes
      → Option CardConn
      → Session W
      → Bytes × Session W
  unfolding pin or_unresolved usb_port_path_by_reader usb_urb_snapshot is_empty
  scan_port known reader before claims (serial, port) live s =
      let t = pin pinning_exchanges live s in
      let root = sysfs t.world in
      if use_usb_path && not known && is_empty serial && is_empty port
      then (
        or_unresolved (usb_port_path_by_reader root reader before (usb_urb_snapshot root) claims),
        t,
      )
      else (port, s)

  -- The deferred disconnection of the connection that is live at the end.
  unfoldable pub hang_up : Option CardConn → Session W → Session W
  unfolding disconnect
  hang_up none s = s
  hang_up (some card) s = disconnect pcscd card leave_card s

  -- The probe over an open connection.
  unfoldable pub probe_card :
      Bool
      → Bytes
      → Option (Table ℕ)
      → Table Bytes
      → Facts
      → CardConn
      → Session W
      → Facts × Session W
  unfolding ask_identity insist_uid scan_port hang_up
  probe_card known reader before claims cached card s =
      let (unit, t) = ask_identity known reader cached card s in
      let (reading, u) = insist_uid pcscd reader card t in
      let (port, v) = scan_port known reader before claims unit reading.live u in
      (
        record { serial = unit.0; port = port; uid = reading.uid; protocol = reading.protocol },
        hang_up reading.live v,
      )

  unfoldable pub probe_opened :
      Bool
      → Bytes
      → Option (Table ℕ)
      → Table Bytes
      → Facts
      → Option CardConn × Session W
      → Facts × Session W
  unfolding probe_card
  probe_opened known reader before claims cached (none, s) = (no_facts, s)
  probe_opened known reader before claims cached (some card, s) =
      probe_card known reader before claims cached card s

  unfoldable pub probe_reader_card : Bytes → Table Bytes → Facts → Session W → Facts × Session W
  unfolding is_known snapshot_before open_card probe_opened
  probe_reader_card reader claims cached s =
      let known = is_known cached in
      probe_opened known reader (snapshot_before known s.world) claims cached
        (open_card pcscd reader s)
