-- ===== src/Uid.antt =====
-- uid.go: the reading of a card's UID, which insists on it across exchanges and card resets.
pub mod Answers
pub mod Effort
pub mod Holding
pub mod Last
pub mod Lost
pub mod Recorded
pub mod Outcome
use pcscid.Common.{
  ℕ, zero, suc, ◌+◌, ◌-◌, Bool, true, false, ◌&&◌, ◌||◌, not, List, [], ◌∷◌, ◌++◌, Option, none,
  some, Bytes, length, take, get_or, ltb, ◌==◌, if◌then◌else◌,
}
use pcscid.Tags.{is_empty}

-- An open connection: its handle, and the protocol it negotiated.
pub record CardConn : Type 0 where
  pub handle : ℕ
  pub protocol : ℕ

-- What `Client.Connect` returns: `ErrProtoMismatch` is told from the other errors.
pub data Opened : Type 0 where
  opened : CardConn → Opened
  mismatch : Opened
  failed : Opened

-- The calls of the pcscd client and of the clock, on a state of the outside. A transmission or the
-- question for an attribute returns nothing on an error.
pub record Pcscd (W : Type 0) : Type 0 where
  pub connect : Bytes → ℕ → W → Opened × W
  pub transmit : CardConn → Bytes → ℕ → W → Option Bytes × W
  pub get_attrib : CardConn → ℕ → W → Option Bytes × W
  pub disconnect : CardConn → ℕ → W → W
  pub sleep : ℕ → W → W

-- What was done, the newest first: connections that opened and that did not, exchanges with their
-- answers, questions for an attribute, disconnections that reset the card and that leave it, each
-- with the connection it was asked of, and pauses in milliseconds.
pub data Act : Type 0 where
  opens : CardConn → Act
  refused : Act
  transmits : CardConn → Option Bytes → Act
  asks : CardConn → ℕ → Act
  resets : CardConn → Act
  leaves : CardConn → Act
  pauses : ℕ → Act

pub record Session (W : Type 0) : Type 0 where
  pub world : W
  pub acts : List Act

abbrev pub uid_apdu : Bytes
uid_apdu = 0xFF ∷ 0xCA ∷ 0x00 ∷ 0x00 ∷ 0x00 ∷ []

abbrev pub wedged_sw1 : ℕ
wedged_sw1 = 0x63

abbrev pub wedged_sw2 : ℕ
wedged_sw2 = 0x00

abbrev pub uid_read_attempts : ℕ
uid_read_attempts = 3

abbrev pub uid_read_rounds : ℕ
uid_read_rounds = 3

abbrev pub uid_read_delay : ℕ
uid_read_delay = 60

abbrev pub reset_reopen_settle : ℕ
reset_reopen_settle = 100

abbrev pub reset_reopen_attempts : ℕ
reset_reopen_attempts = 8

abbrev pub reset_reopen_delay : ℕ
reset_reopen_delay = 150

-- pcsc/const.go
abbrev pub protocol_any : ℕ
protocol_any = 3

abbrev pub protocol_raw : ℕ
protocol_raw = 4

abbrev pub leave_card : ℕ
leave_card = 0

abbrev pub reset_card : ℕ
reset_card = 1

unfoldable pub is_random_uid : Bytes → Bool
is_random_uid uid = length uid == 4 && get_or uid 0 0 == 0x08

-- What an exchange comes to.
pub record Exchange : Type 0 where
  pub uid : Bytes
  pub done : Bool
  pub wedged : Bool

abbrev pub suspect : Exchange
suspect = record { uid = []; done = false; wedged = false }

-- An answer with the status word 90 00, without it.
unfoldable pub accepted : Bytes → Exchange
unfolding is_random_uid is_empty
accepted uid =
    if is_empty uid
    then suspect
    else if is_random_uid uid
    then record { uid = []; done = true; wedged = false }
    else record { uid = uid; done = true; wedged = false }

unfoldable pub by_status : ℕ → ℕ → Bytes → Exchange
unfolding accepted
by_status sw1 sw2 uid =
    if not (sw1 == 0x90) || not (sw2 == 0x00)
    then record { uid = []; done = false; wedged = sw1 == wedged_sw1 && sw2 == wedged_sw2 }
    else accepted uid

-- `uidExchange` behind the transmission.
unfoldable pub classify : Option Bytes → Exchange
unfolding by_status
classify none = suspect
classify (some resp) =
    if ltb (length resp) 2
    then suspect
    else by_status (get_or resp (length resp - 2) 0) (get_or resp (length resp - 1) 0)
        (take (length resp - 2) resp)

-- What `insistUID` returns: the UID, if any, the protocol, and the connection to close.
pub record Reading : Type 0 where
  pub uid : Bytes
  pub protocol : ℕ
  pub live : Option CardConn

unfoldable pub act_of : Opened → Act
act_of (opened card) = opens card
act_of mismatch = refused
act_of failed = refused

abbrev pub act_of_disposition : CardConn → ℕ → Act
act_of_disposition card disposition = if disposition == reset_card then resets card else leaves card

unfoldable pub card_of : Opened → Option CardConn
card_of (opened card) = some card
card_of mismatch = none
card_of failed = none

module _ {W : Type 0} (pcscd : Pcscd W) where
  abbrev pub act : Act → W → Session W → Session W
  act a world s = record { world = world; acts = a ∷ s.acts }

  unfoldable pub sleep : ℕ → Session W → Session W
  sleep ms s = act (pauses ms) (pcscd.sleep ms s.world) s

  unfoldable pub disconnect : CardConn → ℕ → Session W → Session W
  disconnect card disposition s =
      act (act_of_disposition card disposition) (pcscd.disconnect card disposition s.world) s

  unfoldable pub connect : Bytes → ℕ → Session W → Opened × Session W
  unfolding act_of
  connect reader preferred s =
      let (o, world) = pcscd.connect reader preferred s.world in (o, act (act_of o) world s)

  unfoldable pub raw_fallback : Bytes → Opened → Session W → Option CardConn × Session W
  unfolding connect card_of
  raw_fallback reader (opened card) s = (some card, s)
  raw_fallback reader failed s = (none, s)
  raw_fallback reader mismatch s = let (o, t) = connect reader protocol_raw s in (card_of o, t)

  unfoldable pub connect_card : Bytes → Session W → Option CardConn × Session W
  unfolding raw_fallback
  connect_card reader s = let (o, t) = connect reader protocol_any s in raw_fallback reader o t

  -- The end of one round of the loop: the card, or the rounds that follow.
  unfoldable pub or_retry :
      Option CardConn × Session W → Option CardConn × Session W → Option CardConn × Session W
  or_retry (some card, s) next = (some card, s)
  or_retry (none, s) next = next

  -- The loop of `openCard` and of `reopenCardAfterReset`, with the attempts left after this one.
  unfoldable pub connect_loop : ℕ → ℕ → Bytes → Session W → Option CardConn × Session W
  unfolding connect_card sleep or_retry
  connect_loop delay zero reader s = connect_card reader s
  connect_loop delay (suc left) reader s =
      let now = connect_card reader s in
      or_retry now (connect_loop delay left reader (sleep delay now.1))

  unfoldable pub open_card : Bytes → Session W → Option CardConn × Session W
  unfolding connect_loop
  open_card reader s = connect_loop uid_read_delay (uid_read_attempts - 1) reader s

  unfoldable pub reopen_card_after_reset : Bytes → Session W → Option CardConn × Session W
  unfolding connect_loop
  reopen_card_after_reset reader s =
      connect_loop reset_reopen_delay (reset_reopen_attempts - 1) reader
        (sleep reset_reopen_settle s)

  abbrev pub answered : CardConn → Option Bytes × W → Session W → Option Bytes × Session W
  answered card (resp, world) s = (resp, act (transmits card resp) world s)

  unfoldable pub uid_exchange : CardConn → Session W → Exchange × Session W
  unfolding classify
  uid_exchange card s =
      let (resp, t) = answered card (pcscd.transmit card uid_apdu 64 s.world) s in
      (classify resp, t)

  -- The end of one round of the loop of `transmitUID`: the UID and `done`, or the rounds that
  -- follow.
  unfoldable pub or_again :
      Exchange → Session W → (Bytes × Bool) × Session W → (Bytes × Bool) × Session W
  or_again e s next =
      if e.done then ((e.uid, true), s) else if e.wedged then (([], false), s) else next

  -- The loop, with the attempts left after this one.
  unfoldable pub transmit_loop : ℕ → CardConn → Session W → (Bytes × Bool) × Session W
  unfolding uid_exchange sleep or_again
  transmit_loop zero card s = let (e, t) = uid_exchange card s in or_again e t (([], false), t)
  transmit_loop (suc left) card s =
      let (e, t) = uid_exchange card s in
      let next = transmit_loop left card (sleep uid_read_delay t) in or_again e t next

  -- `transmitUID`, less the protocol, which is that of the connection.
  unfoldable pub transmit_uid : CardConn → Session W → (Bytes × Bool) × Session W
  unfolding transmit_loop
  transmit_uid card s = transmit_loop (uid_read_attempts - 1) card s

  -- Behind the reset: the rounds that follow on the card that is back, or none.
  unfoldable pub or_lost :
      ℕ
      → Option CardConn × Session W
      → (CardConn → Session W → Reading × Session W)
      → Reading × Session W
  or_lost protocol (none, s) next = (record { uid = []; protocol = protocol; live = none }, s)
  or_lost protocol (some card, s) next = next card s

  -- The loop of `insistUID`, with the rounds left after this one.
  unfoldable pub insist_loop : ℕ → Bytes → CardConn → Session W → Reading × Session W
  unfolding transmit_uid disconnect reopen_card_after_reset or_lost
  insist_loop zero reader live s =
      let ((uid, done), t) = transmit_uid live s in
      let given_up : Reading = record { uid = []; protocol = live.protocol; live = some live } in
      if done then (record given_up { uid = uid }, t) else (given_up, t)
  insist_loop (suc left) reader live s =
      let ((uid, done), t) = transmit_uid live s in
      let next =
        or_lost live.protocol (reopen_card_after_reset reader (disconnect live reset_card t))
          (λ card u. insist_loop left reader card u) in
      if done then (record { uid = uid; protocol = live.protocol; live = some live }, t) else next

  unfoldable pub insist_uid : Bytes → CardConn → Session W → Reading × Session W
  unfolding insist_loop
  insist_uid reader card s = insist_loop (uid_read_rounds - 1) reader card s
