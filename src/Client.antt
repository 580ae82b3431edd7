-- ===== src/Client.antt =====
-- pcsc/ipc.go: the client of the pcscd protocol, over a connection that is a parameter. A call is a
-- function on the client's state that returns a value or an error.
pub mod Calls
pub mod Cards
pub mod Runs
pub mod Outcome
pub mod Silent
pub mod Bounds
use pcscid.Common.{
  ℕ, zero, suc, ◌+◌, ◌*◌, Bool, true, false, not, ◌&&◌, ◌||◌, List, [], ◌∷◌, ◌++◌, Bytes, length,
  ltb, leb, ◌==◌, if◌then◌else◌, Result, ok, err,
}
use pcscid.Wire.{write_message}
use pcscid.Wire.Messages.{
  VersionMsg, encode_version, decode_version, EstablishMsg, encode_establish, decode_establish,
}

-- What a read of a number of bytes, `readRaw`, comes to.
pub data Got : Type 0 where
  got : Bytes → Got
  timed_out : Got
  broken : Got

-- A connection with its deadline, as net.Conn: a write and a deadline report whether they went through.
pub record Conn (C : Type 0) : Type 0 where
  pub write : Bytes → C → Bool × C
  pub read : ℕ → C → Got × C
  pub set_deadline : ℕ → C → Bool × C
  pub close : C → C

pub data ClientError : Type 0 where
  sending receiving : ℕ → ClientError
  receiving_buffer no_deadline name_too_long empty_apdu : ClientError
  wrong_version : ℕ → ℕ → ClientError
  oversized_response : ℕ → ClientError
  pcsc_error : ℕ → ClientError

pub record Client (C : Type 0) : Type 0 where
  pub conn : C
  pub context : ℕ
  pub major : ℕ
  pub minor : ℕ

abbrev pub Action : Type 0 → Type 0 → Type 0
Action C A = Client C → Result ClientError A × Client C

module _ {C : Type 0} where
  abbrev pub pure : {A : Type 0} → A → Action C A
  pure a cl = (ok a, cl)

  abbrev pub raise : {A : Type 0} → ClientError → Action C A
  raise e cl = (err e, cl)

  infixl 5 ◌>>=◌ ◌>>◌
  unfoldable pub ◌>>=◌ : {A B : Type 0} → Action C A → (A → Action C B) → Action C B
  ◌>>=◌ m f cl = let (r, cl') = m cl in elim r [ ok a ↦ f a cl' | err e ↦ raise e cl' ]

  unfoldable pub ◌>>◌ : {B : Type 0} → Action C (Unit {0}) → Action C B → Action C B
  unfolding ◌>>=◌
  m >> k = m >>= λ _. k

abbrev pub command_timeout : ℕ
command_timeout = 30000

abbrev pub wait_slack : ℕ
wait_slack = 15000

abbrev pub wait_margin : ℕ
wait_margin = 100

abbrev pub protocol_version_major : ℕ
protocol_version_major = 4

abbrev pub protocol_version_minor : ℕ
protocol_version_minor = 4

abbrev pub protocol_version_minor_backward : ℕ
protocol_version_minor_backward = 2

-- The commands of pcsc/wire.go.
abbrev pub cmd_establish_context : ℕ
cmd_establish_context = 0x01

abbrev pub cmd_release_context : ℕ
cmd_release_context = 0x02

abbrev pub cmd_connect : ℕ
cmd_connect = 0x04

abbrev pub cmd_disconnect : ℕ
cmd_disconnect = 0x06

abbrev pub cmd_transmit : ℕ
cmd_transmit = 0x09

abbrev pub cmd_get_attrib : ℕ
cmd_get_attrib = 0x0F

abbrev pub cmd_version : ℕ
cmd_version = 0x11

abbrev pub cmd_get_readers_state : ℕ
cmd_get_readers_state = 0x12

abbrev pub cmd_wait_reader_state_change : ℕ
cmd_wait_reader_state_change = 0x13

abbrev pub cmd_stop_waiting_reader_state_change : ℕ
cmd_stop_waiting_reader_state_change = 0x14

-- The error codes of pcsc/const.go that this client names.
abbrev pub err_timeout : ℕ
err_timeout = 0x8010000A

abbrev pub err_service_stopped : ℕ
err_service_stopped = 0x8010001E

module _ {C : Type 0} (conn : Conn C) where
  abbrev pub sent : ClientError → Bool × C → Client C → Result ClientError (Unit {0}) × Client C
  sent e (true, c) cl = (ok tt, record cl { conn = c })
  sent e (false, c) cl = (err e, record cl { conn = c })

  unfoldable pub write : ClientError → Bytes → Action C (Unit {0})
  write e b cl = sent e (conn.write b cl.conn) cl

  unfoldable pub set_deadline : ℕ → Action C (Unit {0})
  set_deadline ms cl = sent no_deadline (conn.set_deadline ms cl.conn) cl

  abbrev pub received : ClientError → Got × C → Client C → Result ClientError Bytes × Client C
  received e (got b, c) cl = (ok b, record cl { conn = c })
  received e (timed_out, c) cl = (err e, record cl { conn = c })
  received e (broken, c) cl = (err e, record cl { conn = c })

  unfoldable pub read_raw : ClientError → ℕ → Action C Bytes
  read_raw e n cl = received e (conn.read n cl.conn) cl

  -- The error of an answer, if its code is not zero.
  abbrev pub check : ℕ → Action C (Unit {0})
  check code = if code == 0 then pure tt else raise (pcsc_error code)

  unfoldable pub exchange : ℕ → Bytes → ℕ → Action C Bytes
  unfolding set_deadline write read_raw
  exchange command body expect = do
    set_deadline command_timeout
    write (sending command) (write_message command body)
    read_raw (receiving command) expect

  unfoldable pub keep_version : ℕ → ℕ → Action C (Unit {0})
  keep_version major minor cl = (ok tt, record cl { major = major; minor = minor })

  -- What `handshake` makes of an answer; `retry` is its next round.
  unfoldable pub judge_version : (ℕ → ℕ → Action C (Unit {0})) → VersionMsg → Action C (Unit {0})
  unfolding keep_version
  judge_version retry resp =
      if resp.rv == 0
      then (if resp.major == protocol_version_major
          then keep_version resp.major resp.minor
          else raise (wrong_version resp.major resp.minor))
      else if resp.rv == err_service_stopped
          && resp.major == protocol_version_major
          && leb protocol_version_minor_backward resp.minor
      then retry resp.major resp.minor
      else raise (pcsc_error resp.rv)

  -- The loop of `handshake`, with the rounds left.
  unfoldable pub handshake_rounds : ℕ → ℕ → ℕ → Action C (Unit {0})
  unfolding write read_raw judge_version
  handshake_rounds zero major minor = raise (pcsc_error err_service_stopped)
  handshake_rounds (suc left) major minor = do
    write (sending cmd_version) (
        write_message cmd_version
          (encode_version (record { major = major; minor = minor; rv = 0 })))
    body ← read_raw (receiving cmd_version) 12
    judge_version (handshake_rounds left) (decode_version body)

  unfoldable pub handshake : Action C (Unit {0})
  unfolding handshake_rounds
  handshake = handshake_rounds 2 protocol_version_major protocol_version_minor

  unfoldable pub keep_context : ℕ → Action C (Unit {0})
  keep_context context cl = (ok tt, record cl { context = context })

  unfoldable pub establish : Action C (Unit {0})
  unfolding exchange keep_context
  establish = do
    body ←
        exchange cmd_establish_context
          (encode_establish (record { scope = 0; context = 0; rv = 0 })) 12
    check (decode_establish body).rv
    keep_context (decode_establish body).context
