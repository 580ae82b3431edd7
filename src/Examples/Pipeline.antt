-- ===== src/Examples/Pipeline.antt =====
-- A probe of a reader by the client, over the link to the fake daemon: every layer from the bytes on
-- the socket to the UID.
use pcscid.Client.Cards.{client_calls}
use pcscid.Client.{Client, handshake, establish}
use pcscid.Common.{ℕ, true, false, List, [], ◌∷◌, Bytes, ◌≡◌, refl}
use pcscid.Daemon.Link.Delivery.{at}
use pcscid.Daemon.Link.{Link, link}
use pcscid.Daemon.{Reader, new_reader, Server}
use pcscid.Examples.Daemons.{name}
use pcscid.Probe.{probe_reader_card}
use pcscid.Uid.{Session}
use pcscid.Units.{no_facts}
use pcscid.Usb.{no_root}

-- A reader whose card is not found at once, and answers 63 00 until it is reset.
abbrev wedged_reader : Reader
wedged_reader = record new_reader {
  atr = 0x3B ∷ 0x00 ∷ [];
  uid = 4 ∷ 5 ∷ 6 ∷ 7 ∷ [];
  serial = 0x41 ∷ 0x31 ∷ [];
  present = true;
  fail_connects = 1;
  stuck_uid = true;
  fail_reset_reconnects = 1;
}

abbrev wedged_daemon : Server
wedged_daemon = record {
  offered_minor = 4;
  readers = (name, wedged_reader) ∷ [];
  waiters = [];
  cards = [];
  handles = 0;
}

abbrev session : Session (Client Link)
session = record {
  world = record { conn = at wedged_daemon [] []; context = 1; major = 4; minor = 4 };
  acts = [];
}

probed :
    (probe_reader_card (client_calls link) (λ cl. no_root) true name [] no_facts session).0
    ≡ record { serial = 0x41 ∷ 0x31 ∷ []; port = []; uid = 4 ∷ 5 ∷ 6 ∷ 7 ∷ []; protocol = 2 }
unfolding probe_reader_card client_calls link pcscid.Common.bytes_eq pcscid.Common.lookup
    pcscid.Common.put pcscid.Client.◌>>=◌ pcscid.Client.◌>>◌ pcscid.Wire.write_message
    pcscid.Wire.Messages.encode_connect pcscid.Wire.Messages.decode_connect
    pcscid.Wire.Messages.encode_getset pcscid.Wire.Messages.decode_getset
    pcscid.Wire.Messages.encode_transmit pcscid.Wire.Messages.decode_transmit
    pcscid.Wire.Messages.encode_disconnect pcscid.Wire.Messages.decode_disconnect
probed = refl
