-- ===== src/Uid/Lost.antt =====
-- A card that does not come back from a reset.
use pcscid.Common.{
  ℕ, zero, suc, ◌+◌, ◌≤◌, false, List, ◌∷◌, Option, none, some, ◌≡◌, refl, arith, Bytes,
}
use pcscid.Uid.{
  CardConn, Opened, opened, mismatch, failed, Pcscd, Act, refused, transmits, resets, pauses,
  Session, act_of, card_of, connect, raw_fallback, connect_card, or_retry, connect_loop, sleep,
  classify, protocol_any, protocol_raw,
}

-- The last exchange had no final answer, the connection was reset for it, and all that was done since
-- is a number of connections that did not open, and pauses.
pub data Unreturned : ℕ → List Act → Type 0 where
  reset :
      {acts : List Act} (card : CardConn) (resp : Option Bytes)
      → (classify resp).done ≡ false
      → Unreturned 0 (resets card ∷ transmits card resp ∷ acts)
  refuses : {n : ℕ} {acts : List Act} → Unreturned n acts → Unreturned (suc n) (refused ∷ acts)
  waits : {n : ℕ} {acts : List Act} (ms : ℕ) → Unreturned n acts → Unreturned n (pauses ms ∷ acts)

-- At least as many connections did not open.
pub record Failed (attempts : ℕ) (acts : List Act) : Type 0 where
  pub count : ℕ
  pub enough : attempts ≤ count
  pub since : Unreturned count acts

fewer : (m n : ℕ) (acts : List Act) → Failed n acts → m ≤ n → Failed m acts
fewer m n acts h e = record {
  count = h.count;
  enough = omega (arith, h.enough, e);
  since = h.since;
}

module _ {W : Type 0} (pcscd : Pcscd W) where
  act_of-Failed :
      (n : ℕ) (o : Opened) (acts : List Act)
      → Failed n acts
      → card_of o ≡ none
      → Failed (suc n) (act_of o ∷ acts)
  unfolding act_of card_of
  act_of-Failed n (opened card) acts h e = absurd (ground arith)
  act_of-Failed n mismatch acts h e = record {
    count = suc h.count;
    enough = omega (arith, h.enough);
    since = refuses h.since;
  }
  act_of-Failed n failed acts h e = record {
    count = suc h.count;
    enough = omega (arith, h.enough);
    since = refuses h.since;
  }

  raw_fallback-Failed :
      (n : ℕ) (reader : Bytes) (o : Opened) (s : Session W)
      → (card_of o ≡ none → Failed n s.acts)
      → let r = raw_fallback pcscd reader o s in r.0 ≡ none → Failed n r.1.acts
  unfolding raw_fallback connect card_of
  raw_fallback-Failed n reader (opened card) s h e = absurd (ground arith)
  raw_fallback-Failed n reader failed s h e = h refl
  raw_fallback-Failed n reader mismatch s h e =
      fewer n (suc n) _
        (act_of-Failed n (pcscd.connect reader protocol_raw s.world).0 s.acts (h refl) e)
        (omega arith)

  connect_card-Failed :
      (n : ℕ) (reader : Bytes) (s : Session W)
      → Failed n s.acts
      → let r = connect_card pcscd reader s in r.0 ≡ none → Failed (suc n) r.1.acts
  unfolding connect_card connect
  connect_card-Failed n reader s h =
      let (o, world) = pcscd.connect reader protocol_any s.world in
      raw_fallback-Failed (suc n) reader o (record { world = world; acts = act_of o ∷ s.acts })
        (act_of-Failed n o s.acts h)

  or_retry-Failed :
      (n : ℕ) (now next : Option CardConn × Session W)
      → (now.0 ≡ none → next.0 ≡ none → Failed n next.1.acts)
      → let r = or_retry pcscd now next in r.0 ≡ none → Failed n r.1.acts
  unfolding or_retry
  or_retry-Failed n (some card, s) next h e = absurd (ground arith)
  or_retry-Failed n (none, s) next h e = h refl e

  pub connect_loop-Failed :
      (n delay left : ℕ) (reader : Bytes) (s : Session W)
      → Failed n s.acts
      → let r = connect_loop pcscd delay left reader s in
        r.0 ≡ none → Failed (suc left + n) r.1.acts
  unfolding connect_loop sleep
  connect_loop-Failed n delay zero reader s h e =
      fewer (1 + n) (suc n) _ (connect_card-Failed n reader s h e) (omega arith)
  connect_loop-Failed n delay (suc left) reader s h e =
      let now = connect_card pcscd reader s in
      let next = sleep pcscd delay now.1 in
      or_retry-Failed (suc (suc left) + n) now (connect_loop pcscd delay left reader next)
        (λ missed end.
          let k = connect_card-Failed n reader s h missed in
          let paused : Failed (suc n) next.acts = record {
            count = k.count;
            enough = k.enough;
            since = waits delay k.since;
          } in
          fewer (suc (suc left) + n) (suc left + suc n) _
            (connect_loop-Failed (suc n) delay left reader next paused end) (omega arith))
        e
