-- ===== src/Daemon/Link/Handshake.antt =====
-- What the version handshake over the link comes to.
use pcscid.Client.{
  Client, ClientError, pcsc_error, judge_version, handshake_rounds, handshake, keep_version, Action,
  err_service_stopped,
}
use pcscid.Common.{
  ℕ, ◌≤◌, true, false, List, [], ◌∷◌, ◌≡◌, refl, sym, ap, ◌∙◌, arith, Bool-cases, inl, inr, leb,
  Result, ok, err, subst,
}
use pcscid.Daemon.Link.Delivery.{at, waits, apply_all, waits-idle, minor-apply_all}
use pcscid.Daemon.Link.{Link, link}
use pcscid.Daemon.Serving.Requests.{accepts}
use pcscid.Daemon.{Server, Change}
use pcscid.Wire.Words.{IsWord}
use pcscid.Common.{◌≢◌}
use pcscid.Daemon.Link.Version.{link_in, round, answered_version}

-- What the handshake leaves: both sides are on the daemon's version, and the link is between two
-- calls.
pub record Agreed (cl : Client Link) (minor : ℕ) (run : Result ClientError (Unit {0}) × Client Link)
    : Type 0 where
  pub server : Server
  pub later : List (List Change)
  pub returned : run ≡ (ok tt, record cl { conn = at server [] later; major = 4; minor = minor })
  pub offered : server.offered_minor ≡ minor
  pub idle : waits server ≡ false

judge-agreed :
    (retry : ℕ → ℕ → Action Link (Unit {0})) (m : ℕ) (cl : Client Link)
    → judge_version link retry (answered_version m true) cl
      ≡ (ok tt, record cl { major = 4; minor = m })
unfolding judge_version keep_version
judge-agreed retry m cl = refl

judge-retries :
    (retry : ℕ → ℕ → Action Link (Unit {0})) (m : ℕ) (cl : Client Link)
    → 2 ≤ m
    → judge_version link retry (answered_version m false) cl ≡ retry 4 m cl
unfolding judge_version
judge-retries retry m cl h = let fits : leb 2 m ≡ true = ground (arith, h) in rw fits refl

accepts-own : (m n : ℕ) → m ≡ n → accepts m 4 n ≡ true
unfolding accepts
accepts-own m n e = ground (arith, e)

-- Whatever minor version of at least 2 the daemon offers, and whatever readers change meanwhile, the
-- handshake ends with both sides on the offered version, after one retry at most.
pub handshake-Agreed :
    (cl : Client Link) (s : Server) (first second third fourth : List Change)
    (later : List (List Change))
    → waits s ≡ false
    → IsWord s.offered_minor
    → 2 ≤ s.offered_minor
    → Agreed cl s.offered_minor (
        handshake link
          (record cl { conn = link_in false s [] (first ∷ second ∷ third ∷ fourth ∷ later) }))
unfolding handshake
handshake-Agreed cl s first second third fourth later idle v h =
    let s1 = apply_all second (apply_all first s) in
    let same = minor-apply_all second (apply_all first s) ∙ minor-apply_all first s in
    let idle1 = waits-idle second (apply_all first s) (waits-idle first s idle) in
    elim (Bool-cases (accepts s.offered_minor 4 4)) [
      | inl at_once ↦ record {
        server = s1;
        later = third ∷ fourth ∷ later;
        returned =
            round 1 4 true cl s first second (third ∷ fourth ∷ later) idle (omega arith) v at_once
            ∙ judge-agreed (handshake_rounds link 1) s.offered_minor
                (record cl { conn = at s1 [] (third ∷ fourth ∷ later) });
        offered = same;
        idle = idle1;
      }
      | inr retried ↦ record {
        server = apply_all fourth (apply_all third s1);
        later = later;
        returned =
            round 1 4 false cl s first second (third ∷ fourth ∷ later) idle (omega arith) v retried
            ∙ judge-retries (handshake_rounds link 1) s.offered_minor
                (record cl { conn = link_in false s1 [] (third ∷ fourth ∷ later) }) h
            ∙ round 0 s.offered_minor true cl s1 third fourth later idle1 v
                (subst IsWord (sym same) v) (accepts-own s1.offered_minor s.offered_minor same)
            ∙ judge-agreed (handshake_rounds link 0) s1.offered_minor
                (record cl { conn = at (apply_all fourth (apply_all third s1)) [] later })
            ∙ λ i. (
              ok tt,
              record cl {
                conn = at (apply_all fourth (apply_all third s1)) [] later;
                major = 4;
                minor = same i;
              },
            );
        offered = minor-apply_all fourth (apply_all third s1) ∙ minor-apply_all third s1 ∙ same;
        idle = waits-idle fourth (apply_all third s1) (waits-idle third s1 idle1);
      }
    ]

refuses-others : (m n : ℕ) → m ≢ n → (m ≡ 5 → n ≢ 4) → accepts m 4 n ≡ false
unfolding accepts
refuses-others m n h k = ground (arith, h, k)

judge-refuses :
    (retry : ℕ → ℕ → Action Link (Unit {0})) (m : ℕ) (cl : Client Link)
    → m ≤ 1
    → judge_version link retry (answered_version m false) cl
      ≡ (err (pcsc_error err_service_stopped), cl)
unfolding judge_version
judge-refuses retry m cl h = let low : leb 2 m ≡ false = ground (arith, h) in rw low refl

-- With a daemon that offers a minor version below 2, and whatever readers change meanwhile, the
-- handshake ends with the daemon's code, that its service is stopped.
pub handshake-refused :
    (cl : Client Link) (s : Server) (first second : List Change) (later : List (List Change))
    → waits s ≡ false
    → s.offered_minor ≤ 1
    → (handshake link (record cl { conn = link_in false s [] (first ∷ second ∷ later) })).0
      ≡ err (pcsc_error err_service_stopped)
unfolding handshake
handshake-refused cl s first second later idle h =
    let s1 = apply_all second (apply_all first s) in
    ap (λ r. r.0)
      (round 1 4 false cl s first second later idle (omega arith) (omega (arith, h)) (
          refuses-others s.offered_minor 4 (λ e. absurd (omega (arith, e, h)))
            (λ e. absurd (omega (arith, e, h))))
        ∙ judge-refuses (handshake_rounds link 1) s.offered_minor
            (record cl { conn = link_in false s1 [] later }) h)
