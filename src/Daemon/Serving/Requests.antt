-- ===== src/Daemon/Serving/Requests.antt =====
-- internal/pcscfake/pcscfake.go: `negotiate`, `dispatch` and the loop of `serve`.
use pcscid.Common.{
  ℕ, Bool, true, false, not, ◌&&◌, ◌||◌, [], ◌++◌, Option, none, some, Bytes, length, take, drop,
  ltb, ◌==◌, if◌then◌else◌,
}
use pcscid.Daemon.Serving.{connect, transmit, get_attrib, disconnect}
use pcscid.Daemon.{Server, encode_states_locked, register, unregister}
use pcscid.Wire.{put_uint32, uint32_at}

-- A message that was served: the daemon behind it, what it wrote, what of the input is left, and
-- whether it is done with the connection.
pub record Turn : Type 0 where
  pub server : Server
  pub answer : Bytes
  pub left : Bytes
  pub done : Bool

abbrev pub answered : Bytes → Bytes × Server → Option Turn
answered left (answer, s) = some (record { server = s; answer = answer; left = left; done = false })

-- An error, or the end of the connection.
abbrev pub hangs_up : Bytes → Bytes → Server → Option Turn
hangs_up answer left s = some (record { server = s; answer = answer; left = left; done = true })

-- `encodeVersion` and `encodeWait` of the daemon.
abbrev pub encode_version : ℕ → ℕ → ℕ → Bytes
encode_version major minor rv = put_uint32 major ++ (put_uint32 minor ++ put_uint32 rv)

abbrev pub encode_wait : Bytes
encode_wait = put_uint32 0 ++ put_uint32 0

unfoldable pub accepts : ℕ → ℕ → ℕ → Bool
accepts offered major minor =
    ((major == 4) && (minor == offered)) || ((offered == 5) && (minor == 4))

-- A round of `negotiate`: the answer, and whether the version is accepted. Without an answer, the
-- connection ends.
unfoldable pub negotiate : ℕ → ℕ → Bytes → Option (Bytes × Bool)
unfolding accepts
negotiate offered command body =
    if not (command == 0x11) || not (length body == 12)
    then none
    else some (
        if accepts offered (uint32_at 0 body) (uint32_at 4 body)
        then (encode_version 4 offered 0, true)
        else (encode_version 4 offered 0x8010001E, false))

-- The answer to a stop request, where the connection was waiting.
abbrev pub stopped : Bytes → Bool × Server → Option Turn
stopped left (true, s) = answered left (encode_wait, s)
stopped left (false, s) = answered left ([], s)

-- `transmit` reads the buffer behind its message: none while it is not there.
unfoldable pub serve_transmit : Bytes → Bytes → Server → Option Turn
unfolding transmit
serve_transmit body left s =
    let size = uint32_at 12 body in
    if ltb (length left) size
    then none
    else answered (drop size left) (transmit body (take size left) s)

-- None while a buffer of the message is missing.
unfoldable pub dispatch : ℕ → ℕ → Bytes → Bytes → Server → Option Turn
unfolding serve_transmit encode_states_locked register unregister connect get_attrib disconnect
dispatch conn command body left s =
    if command == 0x01
    then (if length body == 12
        then answered left (take 4 body ++ (put_uint32 1 ++ put_uint32 0), s)
        else hangs_up [] left s)
    else if command == 0x02
    then hangs_up (if length body == 8 then body else []) left s
    else if command == 0x12
    then answered left (encode_states_locked s, s)
    else if command == 0x13
    then (if ltb s.offered_minor 4
        then (if length body == 8 then answered left ([], register conn s) else hangs_up [] left s)
        else answered left (encode_states_locked s, register conn s))
    else if command == 0x14
    then (if ltb s.offered_minor 4 && not (length body == 8)
        then hangs_up [] left s
        else stopped left (unregister conn s))
    else if command == 0x04
    then (if length body == 152 then answered left (connect body s) else hangs_up [] left s)
    else if command == 0x09
    then (if length body == 32 then serve_transmit body left s else hangs_up [] left s)
    else if command == 0x0F
    then (if length body == 280 then answered left (get_attrib body s) else hangs_up [] left s)
    else if command == 0x06
    then (if length body == 12 then answered left (disconnect body s) else hangs_up [] left s)
    else hangs_up [] left s
