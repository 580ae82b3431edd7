-- ===== src/Uid/Effort.antt =====
-- What the reading of a UID costs, and which connection it leaves open.
use pcscid.Common.{
  subst, sym, ◌⊎◌, ℕ, zero, suc, ◌+◌, ◌*◌, ◌≤◌, Bool, false, List, [], ◌∷◌, Option, none, some, ◌≡◌,
  refl, arith, inl, inr, Bytes, Bool-cases,
}
use pcscid.Uid.Holding.{Holds, begins, insist_loop-Holds}
use pcscid.Uid.Recorded.{recording, Agrees, insist_loop-Agrees}
use pcscid.Uid.{
  Exchange, Reading, CardConn, Opened, opened, mismatch, failed, Pcscd, Act, refused, transmits,
  resets, pauses, Session, act_of, connect, raw_fallback, connect_card, or_retry, or_again, or_lost,
  uid_read_delay, connect_loop, reopen_card_after_reset, sleep, disconnect, uid_exchange,
  transmit_loop, transmit_uid, insist_loop, insist_uid, protocol_any, protocol_raw, reset_card,
  reset_reopen_settle, reset_reopen_delay,
}

unfoldable pub transmits_in : List Act → ℕ
transmits_in [] = 0
transmits_in (transmits card resp ∷ acts) = suc (transmits_in acts)
transmits_in (_ ∷ acts) = transmits_in acts

unfoldable pub resets_in : List Act → ℕ
resets_in [] = 0
resets_in (resets card ∷ acts) = suc (resets_in acts)
resets_in (_ ∷ acts) = resets_in acts

unfoldable pub paused_in : List Act → ℕ
paused_in [] = 0
paused_in (pauses ms ∷ acts) = ms + paused_in acts
paused_in (_ ∷ acts) = paused_in acts

-- A number of equal pauses.
abbrev pub times : ℕ → ℕ → ℕ
times zero ms = 0
times (suc n) ms = ms + times n ms

-- What stands between two logs.
pub record Spent (before after : List Act) (exchanges rounds ms : ℕ) : Type 0 where
  transmitted : transmits_in after ≤ transmits_in before + exchanges
  pub reset : resets_in after ≡ resets_in before + rounds
  paused : paused_in after ≤ paused_in before + ms

module _ {W : Type 0} (pcscd : Pcscd W) where
  raw_fallback-Spent :
      (reader : Bytes) (o : Opened) (world : W) (s : Session W)
      → let r = raw_fallback pcscd reader o (record { world = world; acts = act_of o ∷ s.acts }) in
        Spent s.acts r.1.acts 0 0 0
  unfolding raw_fallback connect act_of transmits_in resets_in paused_in
  raw_fallback-Spent reader (opened card) world s = record {
    transmitted = omega arith;
    reset = omega arith;
    paused = omega arith;
  }
  raw_fallback-Spent reader failed world s = record {
    transmitted = omega arith;
    reset = omega arith;
    paused = omega arith;
  }
  raw_fallback-Spent reader mismatch world s =
      elim (pcscd.connect reader protocol_raw world).0
        as (λ o. Spent s.acts (act_of o ∷ refused ∷ s.acts) 0 0 0) [
          | opened card ↦ record {
            transmitted = omega arith;
            reset = omega arith;
            paused = omega arith;
          }
          | mismatch ↦ record {
            transmitted = omega arith;
            reset = omega arith;
            paused = omega arith;
          }
          | failed ↦ record { transmitted = omega arith; reset = omega arith; paused = omega arith }
        ]

  connect_card-Spent :
      (reader : Bytes) (s : Session W)
      → let r = connect_card pcscd reader s in Spent s.acts r.1.acts 0 0 0
  unfolding connect_card connect
  connect_card-Spent reader s =
      let (o, world) = pcscd.connect reader protocol_any s.world in
      raw_fallback-Spent reader o world s

  or_retry-Spent :
      (delay left : ℕ) (before : List Act) (now next : Option CardConn × Session W)
      → Spent before now.1.acts 0 0 0
      → (now.0 ≡ none → Spent (pauses delay ∷ now.1.acts) next.1.acts 0 0 (times left delay))
      → let r = or_retry pcscd now next in Spent before r.1.acts 0 0 (times (suc left) delay)
  unfolding or_retry transmits_in resets_in paused_in
  or_retry-Spent delay left before (some card, s) next h k = record {
    transmitted = h.transmitted;
    reset = h.reset;
    paused = omega (arith, h.paused);
  }
  or_retry-Spent delay left before (none, s) next h k =
      let j = k refl in
      record {
        transmitted = omega (arith, h.transmitted, j.transmitted);
        reset = omega (arith, h.reset, j.reset);
        paused = omega (arith, h.paused, j.paused);
      }

  pub connect_loop-Spent :
      (delay left : ℕ) (reader : Bytes) (s : Session W)
      → let r = connect_loop pcscd delay left reader s in
        Spent s.acts r.1.acts 0 0 (times left delay)
  unfolding connect_loop sleep
  connect_loop-Spent delay zero reader s = connect_card-Spent reader s
  connect_loop-Spent delay (suc left) reader s =
      let now = connect_card pcscd reader s in
      let next = sleep pcscd delay now.1 in
      or_retry-Spent delay left s.acts now (connect_loop pcscd delay left reader next)
        (connect_card-Spent reader s) (λ e. connect_loop-Spent delay left reader next)

  or_again-session :
      (e : Exchange) (s : Session W) (next : (Bytes × Bool) × Session W)
      → ((or_again pcscd e s next).1 ≡ s) ⊎ ((or_again pcscd e s next).1 ≡ next.1)
  unfolding or_again
  or_again-session e s next = elim (Bool-cases e.done) [
    | inl final ↦ rw final (inl refl)
    | inr unsure ↦ elim (Bool-cases e.wedged) [
      | inl stuck ↦ rw (unsure, stuck) (inl refl)
      | inr free ↦ rw (unsure, free) (inr refl)
    ]
  ]

  uid_exchange-Spent :
      (card : CardConn) (s : Session W) → Spent s.acts (uid_exchange pcscd card s).1.acts 1 0 0
  unfolding uid_exchange transmits_in resets_in paused_in
  uid_exchange-Spent card s = record {
    transmitted = omega arith;
    reset = omega arith;
    paused = omega arith;
  }

  pub transmit_loop-Spent :
      (left : ℕ) (card : CardConn) (s : Session W)
      → Spent s.acts
          (transmit_loop pcscd left card s).1.acts
          (suc left)
          0
          (times left uid_read_delay)
  unfolding transmit_loop sleep transmits_in resets_in paused_in
  transmit_loop-Spent zero card s =
      let (e, t) = uid_exchange pcscd card s in
      elim (or_again-session e t (([], false), t)) [
        | inl same ↦
            subst (λ (u : Session W). Spent s.acts u.acts 1 0 0) (sym same)
              (uid_exchange-Spent card s)
        | inr same ↦
            subst (λ (u : Session W). Spent s.acts u.acts 1 0 0) (sym same)
              (uid_exchange-Spent card s)
      ]
  transmit_loop-Spent (suc left) card s =
      let (e, t) = uid_exchange pcscd card s in
      let h = uid_exchange-Spent card s in
      let u = sleep pcscd uid_read_delay t in
      let j = transmit_loop-Spent left card u in
      let cost : Session W → Type 0 =
        λ v. Spent s.acts v.acts (suc (suc left)) 0 (times (suc left) uid_read_delay) in
      elim (or_again-session e t (transmit_loop pcscd left card u)) [
        | inl same ↦ subst cost (sym same) (record {
          transmitted = omega (arith, h.transmitted);
          reset = h.reset;
          paused = omega (arith, h.paused);
        })
        | inr same ↦ subst cost (sym same) (record {
          transmitted = omega (arith, h.transmitted, j.transmitted);
          reset = omega (arith, h.reset, j.reset);
          paused = omega (arith, h.paused, j.paused);
        })
      ]

  -- The reset, and the connection after it.
  pub reset-Spent :
      (reader : Bytes) (card : CardConn) (s : Session W)
      → let r = reopen_card_after_reset pcscd reader (disconnect pcscd card reset_card s) in
        Spent s.acts r.1.acts 0 1 1150
  unfolding reopen_card_after_reset disconnect sleep transmits_in resets_in paused_in
  reset-Spent reader card s =
      let h =
        connect_loop-Spent reset_reopen_delay 7 reader
          (sleep pcscd reset_reopen_settle (disconnect pcscd card reset_card s)) in
      record {
        transmitted = omega (arith, h.transmitted);
        reset = omega (arith, h.reset);
        paused = omega (arith, h.paused);
      }

  -- What the rounds cost, and that they close what they open.
  pub record Insisted (left : ℕ) (before : List Act) (r : Reading × Session W) : Type 0 where
    pub tried : transmits_in r.1.acts ≤ transmits_in before + (suc left) * 3
    pub rounds : resets_in r.1.acts ≤ resets_in before + left
    pub waited : paused_in r.1.acts ≤ paused_in before + 120 + left * 1270

  or_lost-Insisted :
      (left protocol : ℕ) (before middle : List Act) (card : Option CardConn × Session W)
      (next : CardConn → Session W → Reading × Session W)
      → Spent before middle 3 0 120
      → Spent middle card.1.acts 0 1 1150
      → ((c : CardConn) (t : Session W) → Insisted left t.acts (next c t))
      → Insisted (suc left) before (or_lost pcscd protocol card next)
  unfolding or_lost
  or_lost-Insisted left protocol before middle (none, s) next h j k = record {
    tried = omega (arith, h.transmitted, j.transmitted);
    rounds = omega (arith, h.reset, j.reset);
    waited = omega (arith, h.paused, j.paused);
  }
  or_lost-Insisted left protocol before middle (some c, s) next h j k =
      let l = k c s in
      record {
        tried = omega (arith, h.transmitted, j.transmitted, l.tried);
        rounds = omega (arith, h.reset, j.reset, l.rounds);
        waited = omega (arith, h.paused, j.paused, l.waited);
      }

  ended-Insisted :
      (left : ℕ) (before : List Act) (uid : Bytes) (live : CardConn) (s : Session W)
      → Spent before s.acts 3 0 120
      → Insisted left before (record { uid = uid; protocol = live.protocol; live = some live }, s)
  ended-Insisted left before uid live s h = record {
    tried = omega (arith, h.transmitted);
    rounds = omega (arith, h.reset);
    waited = omega (arith, h.paused);
  }

  pub insist_loop-Insisted :
      (left : ℕ) (reader : Bytes) (live : CardConn) (s : Session W)
      → Insisted left s.acts (insist_loop pcscd left reader live s)
  unfolding insist_loop transmit_uid
  insist_loop-Insisted zero reader live s =
      let ((uid, done), t) = transmit_uid pcscd live s in
      let h = transmit_loop-Spent 2 live s in
      elim (Bool-cases done) [
        | inl final ↦ rw final (ended-Insisted 0 s.acts uid live t h)
        | inr unsure ↦ rw unsure (ended-Insisted 0 s.acts [] live t h)
      ]
  insist_loop-Insisted (suc left) reader live s =
      let ((uid, done), t) = transmit_uid pcscd live s in
      let h = transmit_loop-Spent 2 live s in
      elim (Bool-cases done) [
        | inl final ↦ rw final (ended-Insisted (suc left) s.acts uid live t h)
        | inr unsure ↦ rw unsure (
            or_lost-Insisted left live.protocol s.acts t.acts
              (reopen_card_after_reset pcscd reader (disconnect pcscd live reset_card t))
              (λ card u. insist_loop pcscd left reader card u) h (reset-Spent reader live t)
              (λ card u. insist_loop-Insisted left reader card u))
      ]

-- Whatever the daemon and the card answer, of the calls that the client gets while the UID is read on
-- an open connection: there are at most nine exchanges, two card resets and 2660 ms of pauses; every
-- exchange and every reset is asked of the one connection that is open then, the given one at first; a
-- connection is opened only where none is open; and the one that is returned, if any, is the one that
-- is open at the end.
pub insist_uid-effort :
    {W : Type 0} (pcscd : Pcscd W) (reader : Bytes) (card : CardConn) (world : W)
    → let (r, s) =
        insist_uid (recording pcscd) reader card (record { world = (world, []); acts = [] }) in
      Agrees s
      × (transmits_in s.acts ≤ 9)
      × (resets_in s.acts ≤ 2)
      × (paused_in s.acts ≤ 2660)
      × Holds (some card) s.acts r.live
unfolding insist_uid transmits_in resets_in paused_in
insist_uid-effort pcscd reader card world =
    let start : Session _ = record { world = (world, []); acts = [] } in
    let h = insist_loop-Insisted (recording pcscd) 2 reader card start in
    (
      insist_loop-Agrees pcscd 2 reader card start refl,
      omega (arith, h.tried),
      omega (arith, h.rounds),
      omega (arith, h.waited),
      insist_loop-Holds (recording pcscd) (some card) 2 reader card start begins,
    )
