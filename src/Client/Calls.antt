-- ===== src/Client/Calls.antt =====
-- pcsc/ipc.go: the calls behind the handshake.
use pcscid.Client.{
  Got, got, timed_out, broken, Conn, ClientError, sending, receiving, receiving_buffer,
  name_too_long, empty_apdu, oversized_response, pcsc_error, Client, Action, pure, raise, ◌>>=◌,
  ◌>>◌, command_timeout, wait_slack, wait_margin, cmd_connect, cmd_disconnect, cmd_transmit,
  cmd_get_attrib, cmd_get_readers_state, cmd_release_context, cmd_wait_reader_state_change,
  cmd_stop_waiting_reader_state_change, err_timeout, write, set_deadline, read_raw, check, exchange,
}
use pcscid.Common.{
  ℕ, ◌+◌, ◌%◌, ◌||◌, List, [], Bytes, length, ltb, leb, ◌==◌, if◌then◌else◌, Result,
}
use pcscid.Uid.{CardConn}
use pcscid.Wire.Messages.{
  encode_connect, decode_connect, encode_transmit, decode_transmit, encode_getset, decode_getset,
  encode_disconnect, decode_disconnect, encode_wait, decode_wait, encode_release,
}
use pcscid.Wire.States.{ReaderState, decode_states}
use pcscid.Wire.{write_message, max_reader_name, max_attr_size, max_buffer_size}

module _ {C : Type 0} (conn : Conn C) where
  -- 2944 bytes are sixteen states of 184.
  unfoldable pub states : Action C (List ReaderState)
  unfolding set_deadline write read_raw decode_states
  states = do
    set_deadline conn command_timeout
    write conn (sending cmd_get_readers_state) (write_message cmd_get_readers_state [])
    raw ← read_raw conn (receiving cmd_get_readers_state) 2944
    pure (decode_states raw)

  unfoldable pub connect : Bytes → ℕ → Action C CardConn
  unfolding exchange
  connect reader preferred cl =
      if leb max_reader_name (length reader)
      then raise name_too_long cl
      else (do
        body ←
            exchange conn cmd_connect
              (encode_connect (record {
                context = cl.context;
                reader = reader;
                share_mode = 2;
                preferred_protocols = preferred;
                card = 0;
                active_protocol = 0;
                rv = 0;
              }))
              152
        let resp = decode_connect body
        check conn resp.rv
        pure (record { handle = resp.card; protocol = resp.active_protocol }))
          cl

  -- `maxResp`, where it is not positive or beyond the buffer.
  unfoldable pub response_size : ℕ → ℕ
  response_size size = if size == 0 || ltb max_buffer_size size then max_buffer_size else size

  -- The read of the response buffer, whose length the answer names.
  unfoldable pub read_response : ℕ → Action C Bytes
  unfolding read_raw
  read_response size =
      if ltb max_buffer_size size
      then raise (oversized_response size)
      else read_raw conn receiving_buffer size

  unfoldable pub transmit : CardConn → Bytes → ℕ → Action C Bytes
  unfolding set_deadline write read_raw response_size read_response
  transmit card apdu size = if length apdu == 0 then raise empty_apdu else (do
    set_deadline conn command_timeout
    write conn (sending cmd_transmit) (
        write_message cmd_transmit (
          encode_transmit (record {
            card = card.handle;
            send_pci_proto = card.protocol;
            send_pci_len = 8;
            send_length = length apdu;
            recv_pci_proto = card.protocol;
            recv_pci_len = 8;
            recv_length = response_size size;
            rv = 0;
          })))
    write conn (sending cmd_transmit) apdu
    body ← read_raw conn (receiving cmd_transmit) 32
    let resp = decode_transmit body
    check conn resp.rv
    read_response resp.recv_length)

  unfoldable pub get_attrib : CardConn → ℕ → Action C Bytes
  unfolding exchange
  get_attrib card attribute = do
    body ←
        exchange conn cmd_get_attrib
          (encode_getset (record {
            card = card.handle;
            attr_id = attribute;
            attr = [];
            attr_len = max_attr_size;
            rv = 0;
          }))
          280
    let resp = decode_getset body
    check conn resp.rv
    pure resp.attr

  unfoldable pub disconnect : CardConn → ℕ → Action C (Unit {0})
  unfolding exchange
  disconnect card disposition = do
    body ←
        exchange conn cmd_disconnect
          (encode_disconnect (record { card = card.handle; disposition = disposition; rv = 0 })) 12
    check conn (decode_disconnect body).rv

  -- The read of the one answer behind a withdrawn registration: without it, the wait timed out.
  unfoldable pub last_signal : Got × C → Client C → Result ClientError (Unit {0}) × Client C
  last_signal (got b, c) cl =
      (do check conn (decode_wait b).rv; raise (pcsc_error err_timeout)) (record cl { conn = c })
  last_signal (timed_out, c) cl = raise (pcsc_error err_timeout) (record cl { conn = c })
  last_signal (broken, c) cl = raise (pcsc_error err_timeout) (record cl { conn = c })

  -- The withdrawal of a registration that timed out; `request` is the body of the stop request.
  unfoldable pub stop_wait : Bytes → Action C (Unit {0})
  unfolding set_deadline write last_signal
  stop_wait request = do
    set_deadline conn wait_slack
    write conn (sending cmd_stop_waiting_reader_state_change)
        (write_message cmd_stop_waiting_reader_state_change request)
    λ cl. last_signal (conn.read 8 cl.conn) cl

  -- The read of the signal.
  unfoldable pub signalled : Bytes → Got × C → Client C → Result ClientError (Unit {0}) × Client C
  unfolding stop_wait
  signalled request (got b, c) cl = check conn (decode_wait b).rv (record cl { conn = c })
  signalled request (timed_out, c) cl = stop_wait request (record cl { conn = c })
  signalled request (broken, c) cl =
      raise (receiving cmd_wait_reader_state_change) (record cl { conn = c })

  unfoldable pub wait_change_new : ℕ → Action C (Unit {0})
  unfolding set_deadline write read_raw signalled
  wait_change_new timeout = do
    set_deadline conn command_timeout
    write conn (sending cmd_wait_reader_state_change)
        (write_message cmd_wait_reader_state_change [])
    dump ← read_raw conn (receiving cmd_wait_reader_state_change) 2944
    set_deadline conn (timeout + wait_margin)
    λ cl. signalled [] (conn.read 8 cl.conn) cl

  unfoldable pub wait_change_old : ℕ → Action C (Unit {0})
  unfolding set_deadline write signalled
  wait_change_old timeout =
      let ms = timeout % 4294967296 in
      let request = encode_wait (record { timeout_ms = if ms == 0 then 1 else ms; rv = 0 }) in
      (do
        set_deadline conn (timeout + wait_margin)
        write conn (sending cmd_wait_reader_state_change)
            (write_message cmd_wait_reader_state_change request)
        λ cl. signalled request (conn.read 8 cl.conn) cl)

  unfoldable pub wait_change : ℕ → Action C (Unit {0})
  unfolding wait_change_new wait_change_old
  wait_change timeout cl =
      if leb 4 cl.minor then wait_change_new timeout cl else wait_change_old timeout cl

  -- A step of `close`, whose errors are ignored.
  abbrev pub ignoring : Action C (Unit {0}) → Client C → Client C
  ignoring m cl = (m cl).1

  unfoldable pub close : Client C → C
  unfolding set_deadline write
  close cl =
      let stop = ignoring (
        write conn (sending cmd_stop_waiting_reader_state_change)
          (write_message cmd_stop_waiting_reader_state_change [])) in
      let release = ignoring (
        write conn (sending cmd_release_context) (
          write_message cmd_release_context
            (encode_release (record { context = cl.context; rv = 0 })))) in
      let limit = ignoring (set_deadline conn 2000) in
      let cl' = if leb 4 cl.minor then stop (limit cl) else cl in
      conn.close (release (limit cl')).conn
