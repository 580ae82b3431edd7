-- ===== src/Lib.antt =====
-- pcscid: identification of smart cards presented to readers of the local pcscd daemon.
--
-- The program talks the pcscd wire protocol (pcsc/), reads the unique tag of each presented card,
-- derives a short btag from it and a tag for the reader, and reports insertions and removals. The
-- command line (cmd/pcscid) prints a line for each insertion and can serve the same presentations
-- to browser pages through a loopback bridge (bridge.go).
--
--   ReaderName  pcscid.go       normalizeReaderName and isHotplugIndex
--   Tags        pcscid.go       Btag, ReaderTag and its variants, with the texts they hash
--   Event       pcscid.go       the data that Watch reports
--   Atr         atr.go          ParseATR and ChecksumOK
--   CardType    cardtype.go     DetectType and its tables
--   Uid         uid.go          the retries and card resets behind insistUID, with a log of the calls made
--                               and the connections that they were made on; Uid/Recorded has a client
--                               that keeps a record of the calls it gets
--   Units       readerid.go     readerFacts and unitRegistry
--   Usb         readerid.go     the USB port of a reader: the scan of the tree and the traffic
--   Probe       readerid.go     probeReaderCard: serial, port and UID over a card connection
--   Inventory   readers.go      IdentifyReaders
--   Machine     readerid.go     machineIDFrom
--   Signer      sign.go         the ssh wire format, the key files, the signature of a line
--   Client      pcsc/ipc.go     ipcClient and ipcCard, over a connection; Client/Cards has the calls of
--                               pcsc/pcsc.go as Uid and Probe take them
--   Daemon      internal/pcscfake the fake daemon: its state and handlers (Daemon, Daemon/Serving),
--                               negotiate and dispatch (Daemon/Serving/Requests), and its loop on a
--                               connection to the client (Daemon/Link)
--   Wire        pcsc/wire.go    the messages of the protocol; Wire/States holds the reader states of
--                               pcsc/ipc.go and the encoder of internal/pcscfake/pcscfake.go
--   Watch       pcscid.go       readerTracking, the rounds of pollLoop, identify; Watch/Connection has
--                               the loops of pollLoop and watchLoop around them
--   Bridge      bridge.go       bridgeHub, bridgeDedup and Feed
--   Cli         cmd/pcscid      the loop of run over the events
--   Common                      shared types, tests, maps, fallible calls and lemmas
--   Examples                    the theorems at concrete inputs, and tests
--
-- Watch joins the parts: a round reads the states (Wire), probes the readers whose card is new,
-- adopts what a probe answers (Units), types the card by its answer to reset (CardType over Atr)
-- and derives the tags (Tags over ReaderName). Cli prints its events and feeds them to Bridge.
--
-- Strings and byte slices are lists of byte values (`Bytes`); a nil slice is the empty list. Go
-- maps keyed by strings are association lists (Common/Maps). A method that holds its mutex from
-- start to end is one function from state to state, and a run is a sequence of calls. Machine
-- integers keep their wrap-around where the code can reach it.
--
-- Upper case, white space and fields are those of ASCII (Common/Texts), where Go's strings package
-- also knows the letters and the white space of Unicode. So what is modelled of readerNameTokens, of
-- the candidates of usbPortPathByReader, of readSysString, of readVendorSerial, of machineIDFrom and
-- of decodeOpenSSHArmor is their behaviour on names, strings of the USB tree, attributes, network
-- addresses and key files whose texts are ASCII.
--
-- Parameters: SHA-256, the calls of Ed25519, SHA-512 and base64 (Crypto), the signer of the command
-- line and the bridge, the calls of the pcscd client and the clock that the UID reading
-- makes (a record of operations on a state of the outside), the connection of the client (Conn), and
-- in Watch the probe of a reader, which Probe models. A USB tree or a network directory is the list
-- of its entries, as one read finds it; the tree may differ at each read.
--
-- Daemon/Link joins the client to the fake daemon by two byte streams in order that lose nothing.
-- What changes while they talk is a list of moments: each write and each read of the client takes
-- one, and its changes happen just then. InsertCard and RemoveCard let the daemon's lock go before
-- wakeWaiters takes it again, so a change of a card and the signal for it are two steps (Change), and
-- a registration may come between them. So a theorem about all lists of moments is about every
-- interleaving of these steps with the traffic of one connection.
--
-- Fuel: the daemon's loop has as many rounds as there are bytes to read, and each round reads a
-- header of eight. normalizeReaderName's loop has one round more than the name has bytes, and each round
-- shortens the name; ParseATR's loop has one round more than there are bytes behind the format
-- byte, and each round reads a byte. The retry loops are recursions on the attempts left.
-- A watch does not end by itself: Watch/Connection runs as many of its steps as it is told.
--
-- Not modelled: logging, the dialling and the listening of sockets (pcsc/ipc.go, the fake daemon),
-- the options and the cancellation of Watch, HTTP (bridge.go), the flags, the environment and the
-- settings report (cmd/pcscid), and version.go.
pub mod Common
pub mod ReaderName
pub mod Tags
pub mod Event
pub mod Atr
pub mod CardType
pub mod Uid
pub mod Inventory
pub mod Signer
pub mod Client
pub mod Daemon
pub mod Units
pub mod Wire
pub mod Usb
pub mod Machine
pub mod Probe
pub mod Watch
pub mod Bridge
pub mod Cli
mod Examples
