-- ===== src/Uid/Recorded.antt =====
-- The log of a reading against the calls that the client gets.
use pcscid.Common.{
  ℕ, zero, suc, Bool, false, List, [], ◌∷◌, Option, none, some, ◌≡◌, ap, inl, inr, Bytes,
  Bool-cases,
}
use pcscid.Uid.{
  Exchange, Reading, CardConn, Opened, opened, mismatch, failed, Pcscd, Act, transmits, asks,
  pauses, Session, act_of, act_of_disposition, raw_fallback, connect_card, connect, or_retry,
  or_again, or_lost, uid_read_delay, connect_loop, reopen_card_after_reset, sleep, answered,
  disconnect, uid_exchange, transmit_loop, transmit_uid, insist_loop, protocol_raw, protocol_any,
  reset_card, uid_apdu,
}

-- The client that passes its calls on, and keeps a record of its own: each call that it gets, the
-- newest first, with the connection that the call names.
unfoldable pub recording : {W : Type 0} → Pcscd W → Pcscd (W × List Act)
recording pcscd = record {
  connect = λ reader preferred w.
      let (o, world) = pcscd.connect reader preferred w.0 in (o, (world, act_of o ∷ w.1));
  transmit = λ card apdu size w.
      let (resp, world) = pcscd.transmit card apdu size w.0 in
      (resp, (world, transmits card resp ∷ w.1));
  get_attrib = λ card attribute w.
      let (attr, world) = pcscd.get_attrib card attribute w.0 in
      (attr, (world, asks card attribute ∷ w.1));
  disconnect = λ card disposition w.
      (pcscd.disconnect card disposition w.0, act_of_disposition card disposition ∷ w.1);
  sleep = λ ms w. (pcscd.sleep ms w.0, pauses ms ∷ w.1);
}

-- The log is the record.
abbrev pub Agrees : {W : Type 0} → Session (W × List Act) → Type 0
Agrees s = s.world.1 ≡ s.acts

module _ {W : Type 0} (pcscd : Pcscd W) where
  connect-Agrees :
      (reader : Bytes) (preferred : ℕ) (s : Session (W × List Act))
      → Agrees s
      → Agrees (connect (recording pcscd) reader preferred s).1
  unfolding connect recording
  connect-Agrees reader preferred s h =
      ap (◌∷◌ (act_of (pcscd.connect reader preferred s.world.0).0)) h

  raw_fallback-Agrees :
      (reader : Bytes) (o : Opened) (s : Session (W × List Act))
      → Agrees s
      → Agrees (raw_fallback (recording pcscd) reader o s).1
  unfolding raw_fallback
  raw_fallback-Agrees reader (opened card) s h = h
  raw_fallback-Agrees reader failed s h = h
  raw_fallback-Agrees reader mismatch s h = connect-Agrees reader protocol_raw s h

  connect_card-Agrees :
      (reader : Bytes) (s : Session (W × List Act))
      → Agrees s
      → Agrees (connect_card (recording pcscd) reader s).1
  unfolding connect_card
  connect_card-Agrees reader s h =
      let (o, t) = connect (recording pcscd) reader protocol_any s in
      raw_fallback-Agrees reader o t (connect-Agrees reader protocol_any s h)

  or_retry-Agrees :
      (now next : Option CardConn × Session (W × List Act))
      → Agrees now.1
      → Agrees next.1
      → Agrees (or_retry (recording pcscd) now next).1
  unfolding or_retry
  or_retry-Agrees (some card, s) next h k = h
  or_retry-Agrees (none, s) next h k = k

  sleep-Agrees :
      (ms : ℕ) (s : Session (W × List Act)) → Agrees s → Agrees (sleep (recording pcscd) ms s)
  unfolding sleep recording
  sleep-Agrees ms s h = ap (◌∷◌ (pauses ms)) h

  pub connect_loop-Agrees :
      (delay left : ℕ) (reader : Bytes) (s : Session (W × List Act))
      → Agrees s
      → Agrees (connect_loop (recording pcscd) delay left reader s).1
  unfolding connect_loop
  connect_loop-Agrees delay zero reader s h = connect_card-Agrees reader s h
  connect_loop-Agrees delay (suc left) reader s h =
      let now = connect_card (recording pcscd) reader s in
      let next = sleep (recording pcscd) delay now.1 in
      let tried = connect_card-Agrees reader s h in
      or_retry-Agrees now (connect_loop (recording pcscd) delay left reader next) tried
        (connect_loop-Agrees delay left reader next (sleep-Agrees delay now.1 tried))

  pub transmitted-Agrees :
      (card : CardConn) (s : Session (W × List Act))
      → Agrees s
      → Agrees
          (answered
            (recording pcscd)
            card
            ((recording pcscd).transmit card uid_apdu 64 s.world)
            s).1
  unfolding recording
  transmitted-Agrees card s h =
      ap (◌∷◌ (transmits card (pcscd.transmit card uid_apdu 64 s.world.0).0)) h

  uid_exchange-Agrees :
      (card : CardConn) (s : Session (W × List Act))
      → Agrees s
      → Agrees (uid_exchange (recording pcscd) card s).1
  unfolding uid_exchange
  uid_exchange-Agrees card s h = transmitted-Agrees card s h

  pub disconnect-Agrees :
      (card : CardConn) (disposition : ℕ) (s : Session (W × List Act))
      → Agrees s
      → Agrees (disconnect (recording pcscd) card disposition s)
  unfolding disconnect recording
  disconnect-Agrees card disposition s h = ap (◌∷◌ (act_of_disposition card disposition)) h

  or_again-Agrees :
      (e : Exchange) (s : Session (W × List Act)) (next : (Bytes × Bool) × Session (W × List Act))
      → Agrees s
      → Agrees next.1
      → Agrees (or_again (recording pcscd) e s next).1
  unfolding or_again
  or_again-Agrees e s next h k = elim (Bool-cases e.done) [
    | inl final ↦ rw final h
    | inr unsure ↦ elim (Bool-cases e.wedged) [
      | inl stuck ↦ rw (unsure, stuck) h
      | inr free ↦ rw (unsure, free) k
    ]
  ]

  transmit_loop-Agrees :
      (left : ℕ) (card : CardConn) (s : Session (W × List Act))
      → Agrees s
      → Agrees (transmit_loop (recording pcscd) left card s).1
  unfolding transmit_loop
  transmit_loop-Agrees zero card s h =
      let (e, t) = uid_exchange (recording pcscd) card s in
      let sent = uid_exchange-Agrees card s h in or_again-Agrees e t (([], false), t) sent sent
  transmit_loop-Agrees (suc left) card s h =
      let (e, t) = uid_exchange (recording pcscd) card s in
      let sent = uid_exchange-Agrees card s h in
      let u = sleep (recording pcscd) uid_read_delay t in
      or_again-Agrees e t (transmit_loop (recording pcscd) left card u) sent
        (transmit_loop-Agrees left card u (sleep-Agrees uid_read_delay t sent))

  or_lost-Agrees :
      (protocol : ℕ) (card : Option CardConn × Session (W × List Act))
      (next : CardConn → Session (W × List Act) → Reading × Session (W × List Act))
      → Agrees card.1
      → ((c : CardConn) → Agrees (next c card.1).1)
      → Agrees (or_lost (recording pcscd) protocol card next).1
  unfolding or_lost
  or_lost-Agrees protocol (none, s) next h k = h
  or_lost-Agrees protocol (some c, s) next h k = k c

  reopen-Agrees :
      (reader : Bytes) (s : Session (W × List Act))
      → Agrees s
      → Agrees (reopen_card_after_reset (recording pcscd) reader s).1
  unfolding reopen_card_after_reset
  reopen-Agrees reader s h = connect_loop-Agrees _ 7 reader _ (sleep-Agrees _ s h)

  pub insist_loop-Agrees :
      (left : ℕ) (reader : Bytes) (live : CardConn) (s : Session (W × List Act))
      → Agrees s
      → Agrees (insist_loop (recording pcscd) left reader live s).1
  unfolding insist_loop transmit_uid
  insist_loop-Agrees zero reader live s h =
      let ((uid, done), t) = transmit_uid (recording pcscd) live s in
      let sent = transmit_loop-Agrees 2 live s h in
      elim (Bool-cases done) [ inl final ↦ rw final sent | inr unsure ↦ rw unsure sent ]
  insist_loop-Agrees (suc left) reader live s h =
      let ((uid, done), t) = transmit_uid (recording pcscd) live s in
      let sent = transmit_loop-Agrees 2 live s h in
      let t' = disconnect (recording pcscd) live reset_card t in
      let back = reopen_card_after_reset (recording pcscd) reader t' in
      let again = reopen-Agrees reader t' (disconnect-Agrees live reset_card t sent) in
      elim (Bool-cases done) [
        | inl final ↦ rw final sent
        | inr unsure ↦ rw unsure (
            or_lost-Agrees live.protocol back
              (λ card u. insist_loop (recording pcscd) left reader card u) again
              (λ c. insist_loop-Agrees left reader c back.1 again))
      ]
