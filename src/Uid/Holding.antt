-- ===== src/Uid/Holding.antt =====
-- Which connection is open while the UID of a card is read.
use pcscid.Common.{
  ℕ, zero, suc, Bool, false, List, [], ◌∷◌, Option, none, some, ◌≡◌, refl, subst, inl, inr, Bytes,
  Bool-cases,
}
use pcscid.Uid.{
  Exchange, Reading, CardConn, Opened, opened, mismatch, failed, Pcscd, Act, opens, refused,
  transmits, asks, resets, leaves, pauses, Session, act_of, card_of, raw_fallback, connect_card,
  connect, or_retry, or_again, or_lost, uid_read_delay, connect_loop, reopen_card_after_reset,
  sleep, disconnect, uid_exchange, transmit_loop, transmit_uid, insist_loop, protocol_any,
  protocol_raw, reset_card,
}

-- A log, from the connection that was open before it to the one that is open behind it. At most one
-- connection is open: one is opened only where none is, and what is asked of a connection, its end
-- included, is asked of the one that is open.
pub data Holds (start : Option CardConn) : List Act → Option CardConn → Type 0 where
  begins : Holds start [] start
  opening :
      {acts : List Act} (c : CardConn)
      → Holds start acts none
      → Holds start (opens c ∷ acts) (some c)
  refusing : {acts : List Act} → Holds start acts none → Holds start (refused ∷ acts) none
  transmitting :
      {acts : List Act} (c : CardConn) (resp : Option Bytes)
      → Holds start acts (some c)
      → Holds start (transmits c resp ∷ acts) (some c)
  asking :
      {acts : List Act} (c : CardConn) (attribute : ℕ)
      → Holds start acts (some c)
      → Holds start (asks c attribute ∷ acts) (some c)
  resetting :
      {acts : List Act} (c : CardConn)
      → Holds start acts (some c)
      → Holds start (resets c ∷ acts) none
  leaving :
      {acts : List Act} (c : CardConn)
      → Holds start acts (some c)
      → Holds start (leaves c ∷ acts) none
  pausing :
      {acts : List Act} {live : Option CardConn} (ms : ℕ)
      → Holds start acts live
      → Holds start (pauses ms ∷ acts) live

module _ {W : Type 0} (pcscd : Pcscd W) (start : Option CardConn) where
  act_of-Holds :
      (o : Opened) (acts : List Act)
      → Holds start acts none
      → Holds start (act_of o ∷ acts) (card_of o)
  unfolding act_of card_of
  act_of-Holds (opened card) acts h = opening card h
  act_of-Holds mismatch acts h = refusing h
  act_of-Holds failed acts h = refusing h

  raw_fallback-Holds :
      (reader : Bytes) (o : Opened) (s : Session W)
      → Holds start s.acts (card_of o)
      → let r = raw_fallback pcscd reader o s in Holds start r.1.acts r.0
  unfolding raw_fallback connect card_of
  raw_fallback-Holds reader (opened card) s h = h
  raw_fallback-Holds reader failed s h = h
  raw_fallback-Holds reader mismatch s h =
      act_of-Holds (pcscd.connect reader protocol_raw s.world).0 s.acts h

  connect_card-Holds :
      (reader : Bytes) (s : Session W)
      → Holds start s.acts none
      → let r = connect_card pcscd reader s in Holds start r.1.acts r.0
  unfolding connect_card connect
  connect_card-Holds reader s h =
      let (o, world) = pcscd.connect reader protocol_any s.world in
      raw_fallback-Holds reader o (record { world = world; acts = act_of o ∷ s.acts })
        (act_of-Holds o s.acts h)

  or_retry-Holds :
      (now next : Option CardConn × Session W)
      → Holds start now.1.acts now.0
      → (now.0 ≡ none → Holds start next.1.acts next.0)
      → let r = or_retry pcscd now next in Holds start r.1.acts r.0
  unfolding or_retry
  or_retry-Holds (some card, s) next h k = h
  or_retry-Holds (none, s) next h k = k refl

  pub connect_loop-Holds :
      (delay left : ℕ) (reader : Bytes) (s : Session W)
      → Holds start s.acts none
      → let r = connect_loop pcscd delay left reader s in Holds start r.1.acts r.0
  unfolding connect_loop sleep
  connect_loop-Holds delay zero reader s h = connect_card-Holds reader s h
  connect_loop-Holds delay (suc left) reader s h =
      let now = connect_card pcscd reader s in
      let held = connect_card-Holds reader s h in
      let next = sleep pcscd delay now.1 in
      or_retry-Holds now (connect_loop pcscd delay left reader next) held (λ e.
        connect_loop-Holds delay left reader next
          (pausing delay (subst (Holds start now.1.acts) e held)))

  or_again-Holds :
      (card : CardConn) (e : Exchange) (s : Session W) (next : (Bytes × Bool) × Session W)
      → Holds start s.acts (some card)
      → Holds start next.1.acts (some card)
      → Holds start (or_again pcscd e s next).1.acts (some card)
  unfolding or_again
  or_again-Holds card e s next h k = elim (Bool-cases e.done) [
    | inl final ↦ rw final h
    | inr unsure ↦ elim (Bool-cases e.wedged) [
      | inl stuck ↦ rw (unsure, stuck) h
      | inr free ↦ rw (unsure, free) k
    ]
  ]

  transmit_loop-Holds :
      (left : ℕ) (card : CardConn) (s : Session W)
      → Holds start s.acts (some card)
      → Holds start (transmit_loop pcscd left card s).1.acts (some card)
  unfolding transmit_loop uid_exchange sleep
  transmit_loop-Holds zero card s h =
      let (e, t) = uid_exchange pcscd card s in
      or_again-Holds card e t (([], false), t) (transmitting card _ h) (transmitting card _ h)
  transmit_loop-Holds (suc left) card s h =
      let (e, t) = uid_exchange pcscd card s in
      let u = sleep pcscd uid_read_delay t in
      or_again-Holds card e t (transmit_loop pcscd left card u) (transmitting card _ h)
        (transmit_loop-Holds left card u (pausing _ (transmitting card _ h)))

  or_lost-Holds :
      (protocol : ℕ) (card : Option CardConn × Session W)
      (next : CardConn → Session W → Reading × Session W)
      → Holds start card.1.acts card.0
      → ((c : CardConn)
          → Holds start card.1.acts (some c)
          → let r = next c card.1 in Holds start r.1.acts r.0.live)
      → let r = or_lost pcscd protocol card next in Holds start r.1.acts r.0.live
  unfolding or_lost
  or_lost-Holds protocol (none, s) next h k = h
  or_lost-Holds protocol (some c, s) next h k = k c h

  -- The connection that is returned is the one that is open.
  pub insist_loop-Holds :
      (left : ℕ) (reader : Bytes) (live : CardConn) (s : Session W)
      → Holds start s.acts (some live)
      → let r = insist_loop pcscd left reader live s in Holds start r.1.acts r.0.live
  unfolding insist_loop transmit_uid reopen_card_after_reset disconnect sleep
  insist_loop-Holds zero reader live s h =
      let ((uid, done), t) = transmit_uid pcscd live s in
      let j = transmit_loop-Holds 2 live s h in
      elim (Bool-cases done) [ inl final ↦ rw final j | inr unsure ↦ rw unsure j ]
  insist_loop-Holds (suc left) reader live s h =
      let ((uid, done), t) = transmit_uid pcscd live s in
      let j = transmit_loop-Holds 2 live s h in
      let back = reopen_card_after_reset pcscd reader (disconnect pcscd live reset_card t) in
      elim (Bool-cases done) [
        | inl final ↦ rw final j
        | inr unsure ↦ rw unsure (
            or_lost-Holds live.protocol back (λ card u. insist_loop pcscd left reader card u)
              (connect_loop-Holds _ 7 reader _ (pausing _ (resetting live j)))
              (λ c held. insist_loop-Holds left reader c back.1 held))
      ]
