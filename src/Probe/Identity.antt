-- ===== src/Probe/Identity.antt =====
-- A reader whose unit is known keeps its identity.
use pcscid.Common.{
  ℕ, Bool, true, false, not, ◌&&◌, [], Option, none, some, ◌≡◌, refl, arith, ◌⊎◌, inl, inr, Bytes,
  Table,
}
use pcscid.Probe.{
  ask_identity, scan_port, probe_card, probe_opened, probe_reader_card, is_known, snapshot_before,
}
use pcscid.Tags.{is_empty}
use pcscid.Uid.{CardConn, Pcscd, Session, open_card, insist_uid}
use pcscid.Units.Adoption.{IsExclusive}
use pcscid.Units.Memory.{adopted_repeat}
use pcscid.Units.{Facts, Registry, cached, adopt}
use pcscid.Usb.{Root}

-- The probe answers nothing, or what the session holds.
record Repeats (held fresh : Facts) : Type 0 where
  serial : (fresh.serial ≡ []) ⊎ (fresh.serial ≡ held.serial)
  port : (fresh.port ≡ []) ⊎ (fresh.port ≡ held.port)

module _ {W : Type 0} (pcscd : Pcscd W) (sysfs : W → Root) (use_usb_path : Bool) where
  scan_port-known :
      (reader : Bytes) (before : Option (Table ℕ)) (claims : Table Bytes) (unit : Bytes × Bytes)
      (live : Option CardConn) (s : Session W)
      → scan_port pcscd sysfs use_usb_path true reader before claims unit live s ≡ (unit.1, s)
  unfolding scan_port
  scan_port-known reader before claims (serial, port) live s =
      let skipped : (use_usb_path && not true && is_empty serial && is_empty port) ≡ false =
        ground arith in
      rw skipped refl

  probe_card-Repeats :
      (reader : Bytes) (before : Option (Table ℕ)) (claims : Table Bytes) (held : Facts)
      (card : CardConn) (s : Session W)
      → Repeats held (probe_card pcscd sysfs use_usb_path true reader before claims held card s).0
  unfolding probe_card ask_identity
  probe_card-Repeats reader before claims held card s =
      let (reading, u) = insist_uid pcscd reader card s in
      let e = scan_port-known reader before claims (held.serial, held.port) reading.live u in
      record { serial = inr refl; port = rw e (inr refl) }

  probe_opened-Repeats :
      (reader : Bytes) (before : Option (Table ℕ)) (claims : Table Bytes) (held : Facts)
      (opened : Option CardConn × Session W)
      → Repeats held (probe_opened pcscd sysfs use_usb_path true reader before claims held opened).0
  unfolding probe_opened
  probe_opened-Repeats reader before claims held (none, s) = record {
    serial = inl refl;
    port = inl refl;
  }
  probe_opened-Repeats reader before claims held (some card, s) =
      probe_card-Repeats reader before claims held card s

  probe_reader_card-Repeats :
      (reader : Bytes) (claims : Table Bytes) (held : Facts) (s : Session W)
      → is_known held ≡ true
      → Repeats held (probe_reader_card pcscd sysfs use_usb_path reader claims held s).0
  unfolding probe_reader_card
  probe_reader_card-Repeats reader claims held s known = rw known (
      probe_opened-Repeats reader (snapshot_before pcscd sysfs use_usb_path true s.world) claims
        held (open_card pcscd reader s))

-- While a session with exclusive claims holds a serial or a port of a reader, a presentation, its
-- probe and the adoption of what the probe answers, leaves the serial and the port of the reader as
-- they are, whatever the daemon, the driver, the card and the USB tree answer.
pub presentation-keeps :
    {W : Type 0} (pcscd : Pcscd W) (sysfs : W → Root) (use_usb_path : Bool) (reader : Bytes)
    (units : Registry) (s : Session W)
    → IsExclusive units
    → is_known (cached reader units) ≡ true
    → let fresh =
        (probe_reader_card pcscd sysfs use_usb_path reader units.by_port
          (cached reader units)
          s).0 in
      ((adopt reader fresh units).1.serial ≡ (cached reader units).serial)
      × ((adopt reader fresh units).1.port ≡ (cached reader units).port)
presentation-keeps pcscd sysfs use_usb_path reader units s inv known =
    let held = cached reader units in
    let fresh = (probe_reader_card pcscd sysfs use_usb_path reader units.by_port held s).0 in
    let h = probe_reader_card-Repeats pcscd sysfs use_usb_path reader units.by_port held s known in
    adopted_repeat reader fresh units inv h.serial h.port
