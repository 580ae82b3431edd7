-- ===== src/Daemon/Link.antt =====
-- A stream socket between the client of pcsc/ipc.go and the fake daemon of
-- internal/pcscfake/pcscfake.go: two byte streams in order, on which nothing is lost. The daemon
-- serves what it has read as soon as it is there, and a read of the client waits until its deadline.
-- What tests change meanwhile is a list of moments: every write and every read of the client takes
-- one, and its changes happen before the daemon serves what was written, or before the deadline of
-- the read. Where a test inserts or removes a card, the change and its signal are two steps, in one
-- moment or in two. So any interleaving of these steps with the traffic is a list of moments, and the
-- moments that no test makes, a signal without a change before it, are among them.
pub mod Delivery
pub mod Steps
pub mod Reading
pub mod Version
pub mod Handshake
pub mod Waiting
pub mod Signals
pub mod Waits
use pcscid.Client.{Got, got, timed_out, broken, Conn}
use pcscid.Common.{
  ℕ, zero, suc, ◌+◌, Bool, true, false, not, ◌&&◌, ◌||◌, List, [], ◌∷◌, ◌++◌, Option, none, some,
  Bytes, length, take, drop, ltb, if◌then◌else◌, Result, ok, err,
}
use pcscid.Daemon.Serving.Requests.{Turn, encode_wait, negotiate, dispatch}
use pcscid.Daemon.{
  Server, Change, inserts, removes, sets_serial, sets_channel_id, insert_card, remove_card,
  set_serial, set_channel_id, wakes, wake_waiters, is_waiting, without,
}
use pcscid.Wire.Frames.{FrameError, unexpected_end, oversized, read_message}

pub data Phase : Type 0 where
  negotiating serving hung_up : Phase

-- What the client wrote and the daemon did not serve yet, and what the daemon wrote and the client
-- did not read yet.
pub record Link : Type 0 where
  pub server : Server
  pub phase : Phase
  pub inbox : Bytes
  pub outbox : Bytes
  pub moments : List (List Change)

-- The number of the connection.
abbrev pub own : ℕ
own = 1

-- `serve` ends: the connection waits no more.
abbrev pub hang_up : Link → Link
hang_up l = record l {
  server = record l.server { waiters = without own l.server.waiters };
  phase = hung_up;
}

unfoldable pub apply : Change → Server → Server
unfolding insert_card remove_card set_serial set_channel_id wake_waiters
apply (inserts name atr uid) s = insert_card name atr uid s
apply (removes name) s = remove_card name s
apply (sets_serial name serial) s = set_serial name serial s
apply (sets_channel_id name id) s = set_channel_id name id s
apply wakes s = wake_waiters s

-- The steps that wake the waiters.
unfoldable pub signals : Change → Bool
signals (inserts name atr uid) = false
signals (removes name) = false
signals (sets_serial name serial) = false
signals (sets_channel_id name id) = false
signals wakes = true

-- A change, with the signal that `wakeWaiters` writes to the connection if it is waiting.
unfoldable pub change : Change → Link → Link
unfolding apply signals is_waiting
change c l = record l {
  server = apply c l.server;
  outbox =
      if signals c && is_waiting own l.server.waiters then l.outbox ++ encode_wait else l.outbox;
}

unfoldable pub change_all : List Change → Link → Link
unfolding change
change_all [] l = l
change_all (c ∷ cs) l = change_all cs (change c l)

-- The changes of the next moment.
unfoldable pub happen_at : List (List Change) → Link → Link
unfolding change_all
happen_at [] l = l
happen_at (cs ∷ later) l = change_all cs (record l { moments = later })

unfoldable pub happen : Link → Link
unfolding happen_at
happen l = happen_at l.moments l

unfoldable pub negotiated : Option (Bytes × Bool) → Bytes → Link → Link
negotiated none rest l = hang_up (record l { inbox = rest })
negotiated (some (answer, true)) rest l = record l {
  inbox = rest;
  outbox = l.outbox ++ answer;
  phase = serving;
}
negotiated (some (answer, false)) rest l = record l { inbox = rest; outbox = l.outbox ++ answer }

unfoldable pub turned : Link → Turn → Link
turned l t =
    let l' = record l { server = t.server; inbox = t.left; outbox = l.outbox ++ t.answer } in
    if t.done then hang_up l' else l'

unfoldable pub dispatched : Link → Option Turn → Option Link
unfolding turned
dispatched l none = none
dispatched l (some t) = some (turned l t)

-- The message that is there, in each phase.
unfoldable pub serve_message : Phase → (ℕ × Bytes) × Bytes → Link → Option Link
unfolding negotiated negotiate dispatched dispatch
serve_message negotiating ((command, body), rest) l =
    some (negotiated (negotiate l.server.offered_minor command body) rest l)
serve_message serving ((command, body), rest) l =
    dispatched l (dispatch own command body rest l.server)
serve_message hung_up ((command, body), rest) l = none

unfoldable pub serve_next : Result FrameError ((ℕ × Bytes) × Bytes) → Link → Option Link
unfolding serve_message
serve_next (err unexpected_end) l = none
serve_next (err (oversized n)) l = some (hang_up l)
serve_next (ok m) l = serve_message l.phase m l

-- What the daemon does with what is there; none while it waits for more.
unfoldable pub serve_one : Link → Option Link
unfolding serve_next read_message
serve_one l = serve_next (read_message l.inbox) l

-- The daemon serves until it waits: each turn takes at least the eight bytes of a header, so the
-- number of the bytes that are there is enough fuel, unless it has hung up.
unfoldable pub serve : ℕ → Link → Link
unfolding serve_one
serve zero l = l
serve (suc fuel) l = elim (serve_one l) [ none ↦ l | some l' ↦ serve fuel l' ]

abbrev pub is_open : Phase → Bool
is_open negotiating = true
is_open serving = true
is_open hung_up = false

unfoldable pub send : Bytes → Link → Bool × Link
unfolding serve
send b l =
    if is_open l.phase
    then (true, serve (length (l.inbox ++ b)) (record l { inbox = l.inbox ++ b }))
    else (false, l)

-- `io.ReadFull`: what there is of the bytes is lost when the deadline passes.
unfoldable pub take_in : ℕ → Link → Got × Link
take_in n l =
    if ltb (length l.outbox) n
    then (if is_open l.phase then timed_out else broken, record l { outbox = [] })
    else (got (take n l.outbox), record l { outbox = drop n l.outbox })

unfoldable pub link : Conn Link
unfolding happen send take_in
link = record {
  write = λ b l. send b (happen l);
  read = λ n l. take_in n (happen l);
  set_deadline = λ ms l. (true, l);
  close = λ l. hang_up l;
}
