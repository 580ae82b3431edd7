-- ===== src/Uid/Outcome.antt =====
-- What the reading of a UID ends with, and why.
use pcscid.Common.{
  ℕ, zero, suc, ◌+◌, Bool, true, false, List, [], ◌∷◌, ◌++◌, Option, none, some, ◌≡◌, ◌≢◌, refl,
  sym, ap, ◌∙◌, subst, arith, inl, inr, Bytes, Bool-cases,
}
use pcscid.Uid.Answers.{success, classify-done}
use pcscid.Uid.Effort.{resets_in, transmit_loop-Spent, reset-Spent}
use pcscid.Uid.Last.{Closes, transmit_loop-Closes}
use pcscid.Uid.Lost.{Unreturned, reset, waits, Failed, connect_loop-Failed}
use pcscid.Uid.Recorded.{recording, Agrees, insist_loop-Agrees}
use pcscid.Uid.{
  CardConn, Pcscd, Act, transmits, resets, Session, classify, Reading, is_random_uid, or_lost,
  sleep, disconnect, transmit_uid, insist_loop, insist_uid, reopen_card_after_reset, reset_card,
  reset_reopen_delay, reset_reopen_settle,
}

-- How a reading ends: with the UID of the last answer; with a random UID as the last answer, which
-- counts as none; with the card lost behind a reset, eight attempts to connect again or more having
-- failed since; or with every reset made, and a last answer that is not final. The connection that is
-- left is that of the last exchange, and only in the third case there is none.
pub data Verdict (allowed : ℕ) (r : Reading) (acts : List Act) : Type 0 where
  reads :
      (before : List Act) (card : CardConn)
      → acts ≡ transmits card (some (r.uid ++ success)) ∷ before
      → r.uid ≢ []
      → is_random_uid r.uid ≡ false
      → r.live ≡ some card
      → Verdict allowed r acts
  shies :
      (before : List Act) (card : CardConn) (u : Bytes)
      → acts ≡ transmits card (some (u ++ success)) ∷ before
      → is_random_uid u ≡ true
      → r.uid ≡ []
      → r.live ≡ some card
      → Verdict allowed r acts
  loses : Failed 8 acts → r.uid ≡ [] → r.live ≡ none → Verdict allowed r acts
  wears_out :
      (before : List Act) (card : CardConn) (resp : Option Bytes)
      → acts ≡ transmits card resp ∷ before
      → (classify resp).done ≡ false
      → r.uid ≡ []
      → r.live ≡ some card
      → resets_in acts ≡ allowed
      → Verdict allowed r acts

module _ {W : Type 0} (pcscd : Pcscd W) where
  -- A final answer ends the reading.
  Closes-Verdict :
      (allowed : ℕ) (uid : Bytes) (done : Bool) (card : CardConn) (acts : List Act)
      → Closes card uid done acts
      → done ≡ true
      → Verdict allowed (record { uid = uid; protocol = card.protocol; live = some card }) acts
  Closes-Verdict allowed uid done card acts f final =
      let a = classify-done f.resp (f.agrees ∙ final) in
      let last = f.last ∙ ap (λ o. transmits card o ∷ f.before) a.answer in
      let counts = f.reads final ∙ a.counts in
      elim (Bool-cases (is_random_uid a.body)) [
        | inl random ↦ shies f.before card a.body last random (counts ∙ rw random refl) refl
        | inr own ↦
            let e : uid ≡ a.body = counts ∙ rw own refl in
            reads f.before card
              (last ∙ ap (λ u. transmits card (some (u ++ success)) ∷ f.before) (sym e))
              (λ z. a.filled (sym e ∙ z)) (ap is_random_uid e ∙ own) refl
      ]

  worn-Verdict :
      (allowed : ℕ) (uid : Bytes) (done : Bool) (card : CardConn) (acts : List Act)
      → Closes card uid done acts
      → done ≡ false
      → resets_in acts ≡ allowed
      → Verdict allowed (record { uid = []; protocol = card.protocol; live = some card }) acts
  worn-Verdict allowed uid done card acts f unsure spent =
      wears_out f.before card f.resp f.last (f.agrees ∙ unsure) refl refl spent

  -- The card behind a reset.
  or_lost-Verdict :
      (allowed protocol : ℕ) (card : Option CardConn × Session W)
      (next : CardConn → Session W → Reading × Session W)
      → (card.0 ≡ none → Failed 8 card.1.acts)
      → ((c : CardConn) → let r = next c card.1 in Verdict allowed r.0 r.1.acts)
      → let r = or_lost pcscd protocol card next in Verdict allowed r.0 r.1.acts
  unfolding or_lost
  or_lost-Verdict allowed protocol (none, s) next h k = loses (h refl) refl refl
  or_lost-Verdict allowed protocol (some c, s) next h k = k c

  reopen-Failed :
      (reader uid : Bytes) (done : Bool) (live : CardConn) (t : Session W)
      → Closes live uid done t.acts
      → done ≡ false
      → let back = reopen_card_after_reset pcscd reader (disconnect pcscd live reset_card t) in
        back.0 ≡ none → Failed 8 back.1.acts
  unfolding reopen_card_after_reset disconnect sleep
  reopen-Failed reader uid done live t f unsure =
      connect_loop-Failed pcscd 0 reset_reopen_delay 7 reader
        (sleep pcscd reset_reopen_settle (disconnect pcscd live reset_card t))
        (record {
          count = 0;
          enough = omega arith;
          since = waits reset_reopen_settle (
              subst (λ acts. Unreturned 0 (resets live ∷ acts)) (sym f.last)
                (reset live f.resp (f.agrees ∙ unsure)));
        })

  insist_loop-Verdict :
      (left allowed : ℕ) (reader : Bytes) (live : CardConn) (s : Session W)
      → resets_in s.acts + left ≡ allowed
      → let r = insist_loop pcscd left reader live s in Verdict allowed r.0 r.1.acts
  unfolding insist_loop transmit_uid
  insist_loop-Verdict zero allowed reader live s budget =
      let ((uid, done), t) = transmit_uid pcscd live s in
      let spent = transmit_loop-Spent pcscd 2 live s in
      let end = transmit_loop-Closes pcscd 2 live s in
      elim (Bool-cases done) [
        | inl final ↦ rw final (Closes-Verdict allowed uid done live t.acts end final)
        | inr unsure ↦ rw unsure (
            worn-Verdict allowed uid done live t.acts end unsure
              (omega (arith, spent.reset, budget)))
      ]
  insist_loop-Verdict (suc left) allowed reader live s budget =
      let ((uid, done), t) = transmit_uid pcscd live s in
      let spent = transmit_loop-Spent pcscd 2 live s in
      let end = transmit_loop-Closes pcscd 2 live s in
      let back = reopen_card_after_reset pcscd reader (disconnect pcscd live reset_card t) in
      let more = reset-Spent pcscd reader live t in
      elim (Bool-cases done) [
        | inl final ↦ rw final (Closes-Verdict allowed uid done live t.acts end final)
        | inr unsure ↦ rw unsure (
            or_lost-Verdict allowed live.protocol back
              (λ card u. insist_loop pcscd left reader card u)
              (reopen-Failed reader uid done live t end unsure)
              (λ c.
                insist_loop-Verdict left allowed reader c back.1
                  (omega (arith, spent.reset, more.reset, budget))))
      ]

-- Whatever the daemon and the card answer, the reading of a UID ends, by the calls that the client
-- gets, in one of four ways: with a UID that is not empty and not random, which the last exchange
-- answered with the status word of success; without one, because the last exchange answered a random
-- UID; without one, because the card did not come back from a reset: the last exchange had no final
-- answer, its connection was reset, and since then nothing was done but pauses and at least eight
-- connections that did not open; or without one after both resets, the last exchange having had no
-- final answer. The connection that is returned is that of the last exchange, and none in the third
-- case.
pub insist_uid-outcome :
    {W : Type 0} (pcscd : Pcscd W) (reader : Bytes) (card : CardConn) (world : W)
    → let (r, s) =
        insist_uid (recording pcscd) reader card (record { world = (world, []); acts = [] }) in
      Agrees s × Verdict 2 r s.acts
unfolding insist_uid resets_in
insist_uid-outcome {W} pcscd reader card world =
    let start : Session (W × List Act) = record { world = (world, []); acts = [] } in
    (
      insist_loop-Agrees pcscd 2 reader card start refl,
      insist_loop-Verdict (recording pcscd) 2 2 reader card start (omega arith),
    )
