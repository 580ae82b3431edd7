-- ===== src/Probe/Closing.antt =====
-- A probe leaves no connection open.
use pcscid.Common.{
  ℕ, zero, suc, Bool, true, false, not, ◌&&◌, List, Option, none, some, inl, inr, Bytes, Table,
  Bool-cases, [], refl, sym, subst,
}
use pcscid.Probe.{
  attr_vendor_ifd_serial_no, attr_channel_id, serial_of, pinning_exchanges, ask, ask_channel,
  ask_identity, pin, scan_port, hang_up, probe_card, probe_opened, probe_reader_card, is_known,
  snapshot_before,
}
use pcscid.Probe.Recorded.{probe_reader_card-Agrees}
use pcscid.Tags.{is_empty}
use pcscid.Uid.Holding.{
  Holds, begins, transmitting, asking, leaving, connect_loop-Holds, insist_loop-Holds,
}
use pcscid.Uid.Recorded.{recording, Agrees}
use pcscid.Uid.{Act, CardConn, Pcscd, Session, disconnect, open_card, insist_uid, uid_read_delay}
use pcscid.Units.{Facts}
use pcscid.Usb.{Root}

module _ {W : Type 0} (pcscd : Pcscd W) (sysfs : W → Root) (use_usb_path : Bool)
    (start : Option CardConn) where
  ask_channel-Holds :
      (reader serial : Bytes) (card : CardConn) (s : Session W)
      → Holds start s.acts (some card)
      → Holds start (ask_channel pcscd sysfs use_usb_path reader serial card s).1.acts (some card)
  unfolding ask_channel ask
  ask_channel-Holds reader serial card s h = elim (Bool-cases (is_empty serial && use_usb_path)) [
    | inl asked ↦ rw asked (asking card attr_channel_id h)
    | inr skipped ↦ rw skipped h
  ]

  ask_identity-Holds :
      (known : Bool) (reader : Bytes) (cached : Facts) (card : CardConn) (s : Session W)
      → Holds start s.acts (some card)
      → let r = ask_identity pcscd sysfs use_usb_path known reader cached card s in
        Holds start r.1.acts (some card)
  unfolding ask_identity ask
  ask_identity-Holds true reader cached card s h = h
  ask_identity-Holds false reader cached card s h =
      let (attr, t) = ask pcscd sysfs use_usb_path card attr_vendor_ifd_serial_no s in
      ask_channel-Holds reader (serial_of attr) card t (asking card attr_vendor_ifd_serial_no h)

  pin-Holds :
      (n : ℕ) (live : Option CardConn) (s : Session W)
      → Holds start s.acts live
      → Holds start (pin pcscd sysfs use_usb_path n live s).acts live
  unfolding pin
  pin-Holds zero live s h = h
  pin-Holds (suc n) none s h = h
  pin-Holds (suc n) (some card) s h = pin-Holds n (some card) _ (transmitting card _ h)

  scan_port-Holds :
      (known : Bool) (reader : Bytes) (before : Option (Table ℕ)) (claims : Table Bytes)
      (unit : Bytes × Bytes) (live : Option CardConn) (s : Session W)
      → Holds start s.acts live
      → let r = scan_port pcscd sysfs use_usb_path known reader before claims unit live s in
        Holds start r.1.acts live
  unfolding scan_port
  scan_port-Holds known reader before claims (serial, port) live s h =
      elim (Bool-cases (use_usb_path && not known && is_empty serial && is_empty port)) [
        | inl scanned ↦ rw scanned (pin-Holds pinning_exchanges live s h)
        | inr skipped ↦ rw skipped h
      ]

  hang_up-Holds :
      (live : Option CardConn) (s : Session W)
      → Holds start s.acts live
      → Holds start (hang_up pcscd sysfs use_usb_path live s).acts none
  unfolding hang_up disconnect
  hang_up-Holds none s h = h
  hang_up-Holds (some card) s h = leaving card h

  probe_card-closes :
      (known : Bool) (reader : Bytes) (before : Option (Table ℕ)) (claims : Table Bytes)
      (cached : Facts) (card : CardConn) (s : Session W)
      → Holds start s.acts (some card)
      → let r = probe_card pcscd sysfs use_usb_path known reader before claims cached card s in
        Holds start r.1.acts none
  unfolding probe_card insist_uid
  probe_card-closes known reader before claims cached card s h =
      let (unit, t) = ask_identity pcscd sysfs use_usb_path known reader cached card s in
      let (reading, u) = insist_uid pcscd reader card t in
      hang_up-Holds reading.live _ (
        scan_port-Holds known reader before claims unit reading.live u (
          insist_loop-Holds pcscd start 2 reader card t
            (ask_identity-Holds known reader cached card s h)))

  probe_opened-closes :
      (known : Bool) (reader : Bytes) (before : Option (Table ℕ)) (claims : Table Bytes)
      (cached : Facts) (opened : Option CardConn × Session W)
      → Holds start opened.1.acts opened.0
      → let r = probe_opened pcscd sysfs use_usb_path known reader before claims cached opened in
        Holds start r.1.acts none
  unfolding probe_opened
  probe_opened-closes known reader before claims cached (none, s) h = h
  probe_opened-closes known reader before claims cached (some card, s) h =
      probe_card-closes known reader before claims cached card s h

-- Whatever the daemon, the driver, the card and the USB tree answer, of the calls that the client
-- gets in a probe that starts with no connection open: at most one connection is open at a time, each
-- exchange, each question for an attribute and each disconnection is asked of the one that is open,
-- the connections behind card resets included, and none is open at the end.
pub probe_reader_card-closes :
    {W : Type 0} (pcscd : Pcscd W) (sysfs : W → Root) (use_usb_path : Bool) (reader : Bytes)
    (claims : Table Bytes) (cached : Facts) (world : W)
    → let (facts, s) =
        probe_reader_card
          (recording pcscd)
          (λ w. sysfs w.0)
          use_usb_path
          reader
          claims
          cached
          (record { world = (world, []); acts = [] }) in
      Agrees s × Holds none s.world.1 none
unfolding probe_reader_card open_card
probe_reader_card-closes {W} pcscd sysfs use_usb_path reader claims cached world =
    let start : Session _ = record { world = (world, []); acts = [] } in
    let tree : W × List Act → Root = λ w. sysfs w.0 in
    let known = is_known cached in
    let before = snapshot_before (recording pcscd) tree use_usb_path known start.world in
    let logged = probe_reader_card-Agrees pcscd tree use_usb_path reader claims cached start refl in
    let closed =
      probe_opened-closes (recording pcscd) tree use_usb_path none known reader before claims cached
        (open_card (recording pcscd) reader start)
        (connect_loop-Holds (recording pcscd) none uid_read_delay 2 reader start begins) in
    (logged, subst (λ acts. Holds none acts none) (sym logged) closed)
