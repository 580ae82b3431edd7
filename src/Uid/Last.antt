-- ===== src/Uid/Last.antt =====
-- The last exchange of a round.
use pcscid.Common.{
  ℕ, zero, suc, Bool, true, false, List, [], ◌∷◌, Option, ◌≡◌, refl, ◌∙◌, arith, inl, inr, Bytes,
  Bool-cases,
}
use pcscid.Uid.{
  CardConn, Pcscd, Act, transmits, Session, classify, Exchange, or_again, sleep, uid_exchange,
  transmit_loop, uid_apdu, uid_read_delay,
}

-- The last thing done is an exchange on the connection, and whether its answer is final decides.
pub record Closes (card : CardConn) (uid : Bytes) (done : Bool) (acts : List Act) : Type 0 where
  pub before : List Act
  pub resp : Option Bytes
  pub last : acts ≡ transmits card resp ∷ before
  pub agrees : (classify resp).done ≡ done
  pub reads : done ≡ true → uid ≡ (classify resp).uid

-- An answer that is not final gives no UID.
unsure-Closes :
    (card : CardConn) (uid uid' : Bytes) (done : Bool) (acts : List Act)
    → Closes card uid done acts
    → done ≡ false
    → Closes card uid' false acts
unsure-Closes card uid uid' done acts now unsure = record {
  before = now.before;
  resp = now.resp;
  last = now.last;
  agrees = now.agrees ∙ unsure;
  reads = λ e. absurd (ground arith);
}

module _ {W : Type 0} (pcscd : Pcscd W) where
  uid_exchange-Closes :
      (card : CardConn) (s : Session W)
      → let (e, t) = uid_exchange pcscd card s in Closes card e.uid e.done t.acts
  unfolding uid_exchange
  uid_exchange-Closes card s = record {
    before = s.acts;
    resp = (pcscd.transmit card uid_apdu 64 s.world).0;
    last = refl;
    agrees = refl;
    reads = λ e. refl;
  }

  or_again-Closes :
      (card : CardConn) (e : Exchange) (s : Session W) (next : (Bytes × Bool) × Session W)
      → Closes card e.uid e.done s.acts
      → (e.done ≡ false → Closes card next.0.0 next.0.1 next.1.acts)
      → let r = or_again pcscd e s next in Closes card r.0.0 r.0.1 r.1.acts
  unfolding or_again
  or_again-Closes card e s next now later = elim (Bool-cases e.done) [
    | inl final ↦ rw final (record {
      before = now.before;
      resp = now.resp;
      last = now.last;
      agrees = now.agrees ∙ final;
      reads = λ h. now.reads final;
    })
    | inr unsure ↦ elim (Bool-cases e.wedged) [
      | inl stuck ↦ rw (unsure, stuck) (unsure-Closes card e.uid [] e.done s.acts now unsure)
      | inr free ↦ rw (unsure, free) (later unsure)
    ]
  ]

  pub transmit_loop-Closes :
      (left : ℕ) (card : CardConn) (s : Session W)
      → let r = transmit_loop pcscd left card s in Closes card r.0.0 r.0.1 r.1.acts
  unfolding transmit_loop
  transmit_loop-Closes zero card s =
      let (e, t) = uid_exchange pcscd card s in
      let now = uid_exchange-Closes card s in
      or_again-Closes card e t (([], false), t) now (unsure-Closes card e.uid [] e.done t.acts now)
  transmit_loop-Closes (suc left) card s =
      let (e, t) = uid_exchange pcscd card s in
      let u = sleep pcscd uid_read_delay t in
      or_again-Closes card e t (transmit_loop pcscd left card u) (uid_exchange-Closes card s)
        (λ unsure. transmit_loop-Closes left card u)
