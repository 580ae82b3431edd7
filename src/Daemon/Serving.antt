-- ===== src/Daemon/Serving.antt =====
-- internal/pcscfake/pcscfake.go: what the fake daemon answers on a connection.
pub mod Requests
use pcscid.Common.{
  ℕ, zero, suc, ◌+◌, ◌-◌, ◌*◌, ◌%◌, Bool, true, false, not, ◌&&◌, ◌||◌, List, [], ◌∷◌, ◌++◌, Option,
  none, some, Bytes, length, take, drop, lookup, put, bytes_eq, ltb, ◌==◌, if◌then◌else◌,
}
use pcscid.Daemon.{
  err_invalid_handle, err_unknown_reader, err_no_smartcard, err_comm_data_lost,
  err_unsupported_feature, protocol_t1, Reader, Server, update, card_of, without_card,
}
use pcscid.Tags.{is_empty}
use pcscid.Wire.{put_uint32, uint32_at, c_string, buffer}

-- Whether a connection to a reader finds the card, and the reader behind the attempt.
unfoldable pub attempt : Reader → Bool × Reader
attempt r =
    if r.present && ltb 0 r.fail_connects
    then (false, record r { fail_connects = r.fail_connects - 1 })
    else if r.present && r.reset_lag && ltb 0 r.fail_reset_reconnects
    then (false, record r { fail_reset_reconnects = r.fail_reset_reconnects - 1 })
    else if r.present
    then (true, record r { reset_lag = false })
    else (false, r)

abbrev pub connect_answer : Bytes → ℕ → ℕ → ℕ → Bytes
connect_answer body handle protocol rv =
    take 140 body ++ (put_uint32 handle ++ (put_uint32 protocol ++ put_uint32 rv))

unfoldable pub connect_found : Bytes → Bytes → Bool × Reader → Server → Bytes × Server
unfolding put without_card
connect_found body name (true, r) s =
    let handle = (s.handles + 1) % 4294967296 in
    (
      connect_answer body handle protocol_t1 0,
      record s {
        readers = put name r s.readers;
        handles = handle;
        cards = (handle, name) ∷ without_card handle s.cards;
      },
    )
connect_found body name (false, r) s =
    (connect_answer body 0 0 err_no_smartcard, record s { readers = put name r s.readers })

unfoldable pub connect_to : Bytes → Bytes → Option Reader → Server → Bytes × Server
unfolding connect_found attempt
connect_to body name none s = (connect_answer body 0 0 err_unknown_reader, s)
connect_to body name (some r) s = connect_found body name (attempt r) s

unfoldable pub connect : Bytes → Server → Bytes × Server
unfolding connect_to c_string lookup
connect body s =
    let name = c_string (take 128 (drop 4 body)) in connect_to body name (lookup name s.readers) s

-- How an exchange with a card goes.
pub data Turnout : Type 0 where
  unknown flaky stuck : Turnout
  served : Bytes → Turnout

unfoldable pub turnout : Option Reader → Turnout
turnout none = unknown
turnout (some r) =
    if ltb 0 r.fail_uid_probes then flaky else if r.stuck_uid then stuck else served r.uid

-- The reader behind the exchange.
unfoldable pub exchanged : Reader → Reader
exchanged r =
    if ltb 0 r.fail_uid_probes
    then record r { fail_uid_probes = r.fail_uid_probes - 1 }
    else if r.stuck_uid
    then record r { uid_probes = r.uid_probes + 1 }
    else r

unfoldable pub is_uid_probe : Bytes → Bool
unfolding bytes_eq
is_uid_probe send = bytes_eq send (0xFF ∷ 0xCA ∷ 0 ∷ 0 ∷ 0 ∷ [])

-- The code and the response; a card without a UID answers as one that is stuck.
unfoldable pub respond : Turnout → Bytes → ℕ × Bytes
unfolding is_uid_probe is_empty
respond unknown send = (err_invalid_handle, [])
respond flaky send = (err_comm_data_lost, [])
respond stuck send = (0, if is_uid_probe send then 0x63 ∷ 0x00 ∷ [] else 0x6D ∷ 0x00 ∷ [])
respond (served uid) send = (
  0,
  if is_uid_probe send
      then (if is_empty uid then 0x63 ∷ 0x00 ∷ [] else uid ++ (0x90 ∷ 0x00 ∷ []))
      else 0x6D ∷ 0x00 ∷ [],
)

-- The 32 bytes of the struct, and the response behind them.
abbrev pub transmit_answer : Bytes → ℕ → ℕ × Bytes → Bytes
transmit_answer body send_length (rv, resp) =
    let pci = put_uint32 (uint32_at 4 body) in
    put_uint32 (uint32_at 0 body)
    ++ (pci
        ++ (put_uint32 8
            ++ (put_uint32 send_length
                ++ (pci
                    ++ (put_uint32 8 ++ (put_uint32 (length resp) ++ (put_uint32 rv ++ resp)))))))

-- The reader of a card.
unfoldable pub reader_of : Server → Option Bytes → Option Reader
unfolding lookup
reader_of s none = none
reader_of s (some name) = lookup name s.readers

-- A change of the reader of a card.
unfoldable pub update_card : (Reader → Reader) → Option Bytes → Server → Server
unfolding update lookup
update_card f none s = s
update_card f (some name) s = update name f (lookup name s.readers) s

unfoldable pub transmit : Bytes → Bytes → Server → Bytes × Server
unfolding turnout respond reader_of update_card card_of exchanged
transmit body send s =
    let card = card_of (uint32_at 0 body) s.cards in
    (
      transmit_answer body (length send) (respond (turnout (reader_of s card)) send),
      update_card exchanged card s,
    )

-- The value of an attribute, where the reader has one.
unfoldable pub value_of : ℕ → Reader → Bytes
unfolding is_empty
value_of attribute r =
    if attribute == 0x0103
    then r.serial
    else if attribute == 0x0110 && not (r.channel_id == 0)
    then put_uint32 r.channel_id
    else []

unfoldable pub asked : ℕ → Reader → Reader
asked attribute r =
    if attribute == 0x0103 || attribute == 0x0110
    then record r { attrib_probes = r.attrib_probes + 1 }
    else r

-- The code and the value.
unfoldable pub attribute_of : ℕ → Option Reader → ℕ × Bytes
unfolding value_of is_empty
attribute_of attribute none = (err_invalid_handle, [])
attribute_of attribute (some r) =
    (if is_empty (value_of attribute r) then err_unsupported_feature else 0, value_of attribute r)

abbrev pub attribute_answer : Bytes → ℕ × Bytes → Bytes
attribute_answer body (rv, value) =
    put_uint32 (uint32_at 0 body)
    ++ (put_uint32 (uint32_at 4 body)
        ++ (buffer 264 value ++ (put_uint32 (length value) ++ put_uint32 rv)))

unfoldable pub get_attrib : Bytes → Server → Bytes × Server
unfolding attribute_of reader_of update_card asked card_of buffer
get_attrib body s =
    let card = card_of (uint32_at 0 body) s.cards in
    let attribute = uint32_at 4 body in
    (
      attribute_answer body (attribute_of attribute (reader_of s card)),
      update_card (asked attribute) card s,
    )

abbrev pub power_cycled : Reader → Reader
power_cycled r = record r { stuck_uid = false; reset_lag = true }

unfoldable pub disconnect : Bytes → Server → Bytes × Server
unfolding update_card card_of without_card
disconnect body s =
    let handle = uint32_at 0 body in
    let t =
      if uint32_at 4 body == 0x0001
      then update_card power_cycled (card_of handle s.cards) s
      else s in
    (body, record t { cards = without_card handle s.cards })
