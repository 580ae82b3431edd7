-- ===== src/Probe/Recorded.antt =====
-- The log of a probe against the calls that the client gets.
use pcscid.Common.{
  ℕ, zero, suc, Bool, true, false, not, ◌&&◌, List, ◌∷◌, Option, none, some, ap, inl, inr, Bytes,
  Table, Bool-cases,
}
use pcscid.Probe.{
  attr_vendor_ifd_serial_no, attr_channel_id, serial_of, pinning_exchanges, ask, ask_channel,
  ask_identity, pin, scan_port, hang_up, probe_card, probe_opened, probe_reader_card, is_known,
  snapshot_before,
}
use pcscid.Tags.{is_empty}
use pcscid.Uid.Recorded.{
  recording, Agrees, connect_loop-Agrees, disconnect-Agrees, insist_loop-Agrees, transmitted-Agrees,
}
use pcscid.Uid.{
  CardConn, Pcscd, Act, asks, Session, open_card, insist_uid, uid_read_delay, leave_card,
}
use pcscid.Units.{Facts}
use pcscid.Usb.{Root}

module _ {W : Type 0} (pcscd : Pcscd W) (sysfs : W × List Act → Root) (use_usb_path : Bool) where
  ask-Agrees :
      (card : CardConn) (attribute : ℕ) (s : Session (W × List Act))
      → Agrees s
      → Agrees (ask (recording pcscd) sysfs use_usb_path card attribute s).1
  unfolding ask recording
  ask-Agrees card attribute s h = ap (◌∷◌ (asks card attribute)) h

  ask_channel-Agrees :
      (reader serial : Bytes) (card : CardConn) (s : Session (W × List Act))
      → Agrees s
      → Agrees (ask_channel (recording pcscd) sysfs use_usb_path reader serial card s).1
  unfolding ask_channel
  ask_channel-Agrees reader serial card s h = elim (Bool-cases (is_empty serial && use_usb_path)) [
    | inl asked ↦ rw asked (ask-Agrees card attr_channel_id s h)
    | inr skipped ↦ rw skipped h
  ]

  ask_identity-Agrees :
      (known : Bool) (reader : Bytes) (cached : Facts) (card : CardConn)
      (s : Session (W × List Act))
      → Agrees s
      → Agrees (ask_identity (recording pcscd) sysfs use_usb_path known reader cached card s).1
  unfolding ask_identity
  ask_identity-Agrees true reader cached card s h = h
  ask_identity-Agrees false reader cached card s h =
      let (attr, t) = ask (recording pcscd) sysfs use_usb_path card attr_vendor_ifd_serial_no s in
      ask_channel-Agrees reader (serial_of attr) card t
        (ask-Agrees card attr_vendor_ifd_serial_no s h)

  pin-Agrees :
      (n : ℕ) (live : Option CardConn) (s : Session (W × List Act))
      → Agrees s
      → Agrees (pin (recording pcscd) sysfs use_usb_path n live s)
  unfolding pin
  pin-Agrees zero live s h = h
  pin-Agrees (suc n) none s h = h
  pin-Agrees (suc n) (some card) s h =
      pin-Agrees n (some card) _ (transmitted-Agrees pcscd card s h)

  scan_port-Agrees :
      (known : Bool) (reader : Bytes) (before : Option (Table ℕ)) (claims : Table Bytes)
      (unit : Bytes × Bytes) (live : Option CardConn) (s : Session (W × List Act))
      → Agrees s
      → Agrees
          (scan_port (recording pcscd) sysfs use_usb_path known reader before claims unit live s).1
  unfolding scan_port
  scan_port-Agrees known reader before claims (serial, port) live s h =
      elim (Bool-cases (use_usb_path && not known && is_empty serial && is_empty port)) [
        | inl scanned ↦ rw scanned (pin-Agrees pinning_exchanges live s h)
        | inr skipped ↦ rw skipped h
      ]

  hang_up-Agrees :
      (live : Option CardConn) (s : Session (W × List Act))
      → Agrees s
      → Agrees (hang_up (recording pcscd) sysfs use_usb_path live s)
  unfolding hang_up
  hang_up-Agrees none s h = h
  hang_up-Agrees (some card) s h = disconnect-Agrees pcscd card leave_card s h

  probe_opened-Agrees :
      (known : Bool) (reader : Bytes) (before : Option (Table ℕ)) (claims : Table Bytes)
      (cached : Facts) (opened : Option CardConn × Session (W × List Act))
      → Agrees opened.1
      → Agrees
          (probe_opened
            (recording pcscd)
            sysfs
            use_usb_path
            known
            reader
            before
            claims
            cached
            opened).1
  unfolding probe_opened probe_card insist_uid
  probe_opened-Agrees known reader before claims cached (none, s) h = h
  probe_opened-Agrees known reader before claims cached (some card, s) h =
      let (unit, t) =
        ask_identity (recording pcscd) sysfs use_usb_path known reader cached card s in
      let (reading, u) = insist_uid (recording pcscd) reader card t in
      hang_up-Agrees reading.live _ (
        scan_port-Agrees known reader before claims unit reading.live u (
          insist_loop-Agrees pcscd 2 reader card t
            (ask_identity-Agrees known reader cached card s h)))

  pub probe_reader_card-Agrees :
      (reader : Bytes) (claims : Table Bytes) (cached : Facts) (s : Session (W × List Act))
      → Agrees s
      → Agrees (probe_reader_card (recording pcscd) sysfs use_usb_path reader claims cached s).1
  unfolding probe_reader_card open_card
  probe_reader_card-Agrees reader claims cached s h =
      probe_opened-Agrees (is_known cached) reader
        (snapshot_before (recording pcscd) sysfs use_usb_path (is_known cached) s.world) claims
        cached (open_card (recording pcscd) reader s)
        (connect_loop-Agrees pcscd uid_read_delay 2 reader s h)
