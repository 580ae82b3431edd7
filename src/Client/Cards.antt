-- ===== src/Client/Cards.antt =====
-- pcsc/pcsc.go: the calls that the reading of a UID and the probe of a reader make, by the client.
use pcscid.Client.Calls.{connect, transmit, get_attrib, disconnect}
use pcscid.Client.{Conn, ClientError, pcsc_error, Client}
use pcscid.Common.{ℕ, Bool, false, Option, none, some, Bytes, ◌==◌, if◌then◌else◌, Result, ok, err}
use pcscid.Uid.{CardConn, Opened, opened, mismatch, failed, Pcscd}

abbrev pub err_proto_mismatch : ℕ
err_proto_mismatch = 0x8010000F

-- `errors.Is` with `ErrProtoMismatch`.
unfoldable pub is_mismatch : ClientError → Bool
is_mismatch (pcsc_error code) = code == err_proto_mismatch
is_mismatch _ = false

abbrev pub opened_of : Result ClientError CardConn → Opened
opened_of (ok card) = opened card
opened_of (err e) = if is_mismatch e then mismatch else failed

abbrev pub bytes_of : Result ClientError Bytes → Option Bytes
bytes_of (ok b) = some b
bytes_of (err e) = none

-- A pause leaves the connection as it is.
unfoldable pub client_calls : {C : Type 0} → Conn C → Pcscd (Client C)
unfolding is_mismatch connect transmit get_attrib disconnect
client_calls conn = record {
  connect =
      λ reader preferred cl. let (r, cl') = connect conn reader preferred cl in (opened_of r, cl');
  transmit =
      λ card apdu size cl. let (r, cl') = transmit conn card apdu size cl in (bytes_of r, cl');
  get_attrib =
      λ card attribute cl. let (r, cl') = get_attrib conn card attribute cl in (bytes_of r, cl');
  disconnect = λ card disposition cl. (disconnect conn card disposition cl).1;
  sleep = λ ms cl. cl;
}
