-- ===== src/Daemon/Link/Signals.antt =====
-- A wait for a change of the readers, over the link, from the registration to the signal or the deadline.
use pcscid.Client.Calls.{signalled}
use pcscid.Client.{Got, got, Client, ClientError}
use pcscid.Common.{
  ℕ, Bool, true, false, not, ◌||◌, List, [], ◌∷◌, ◌++◌, append-nil, Bytes, ◌≡◌, refl, sym, ap, ◌∙◌,
  length, Bool-cases, inl, inr, if◌then◌else◌, Result, ok,
}
use pcscid.Daemon.Link.Delivery.{
  at, waits, apply_all, any_signals, with_signal, waits-idle, happen-waiting,
}
use pcscid.Daemon.Link.Steps.{read-idle, take_in-exact, take_in-late}
use pcscid.Daemon.Link.Waiting.{Ended, timed_out_error, IsStop, registered, stop_wait-Ended}
use pcscid.Daemon.Link.{Link, link, own, take_in, happen}
use pcscid.Daemon.Serving.Requests.{encode_wait}
use pcscid.Daemon.{Server, Change, register, is_waiting}
use pcscid.Wire.Messages.{decode_wait}

-- What a wait returns.
abbrev pub outcome : Bool → Result ClientError (Unit {0})
outcome changed = if changed then ok tt else timed_out_error

pub waits-register : (s : Server) → waits (register own s) ≡ true
unfolding register is_waiting
waits-register s = refl

split_signal : (b : Bool) (out : Bytes) → with_signal b out ≡ out ++ with_signal b []
unfolding with_signal
split_signal true out = refl
split_signal false out = sym (append-nil out)

-- A read on a connection that waits: what was there, and behind it a signal, if there was one.
pub read-waiting :
    (n : ℕ) (a : Bytes) (s : Server) (cs : List Change) (later : List (List Change))
    → waits s ≡ true
    → length a ≡ n
    → link.read n (at s a (cs ∷ later))
      ≡ (got a, at (apply_all cs s) (with_signal (any_signals cs) []) later)
unfolding link
read-waiting n a s cs later waiting h =
    ap (take_in n) (happen-waiting s a cs later waiting)
    ∙ ap (λ out. take_in n (at (apply_all cs s) out later)) (split_signal (any_signals cs) a)
    ∙ take_in-exact n a (with_signal (any_signals cs) []) (apply_all cs s) later h

module _ (cl : Client Link) (request : Bytes) where
  -- The signal is there.
  signal-taken :
      (out : Link) (c : Link)
      → signalled link request (got encode_wait, c) (record cl { conn = out })
        ≡ (ok tt, record cl { conn = c })
  unfolding signalled decode_wait
  signal-taken out c = refl

  signal-there :
      (s : Server) (cs : List Change) (later : List (List Change))
      → waits s ≡ false
      → let here = at s (encode_wait ++ []) (cs ∷ later) in
        Ended cl (ok tt) (signalled link request (link.read 8 here) (record cl { conn = here }))
  signal-there s cs later idle = record {
    server = apply_all cs s;
    later = later;
    returned =
        ap
          (λ r.
            signalled link request r (record cl { conn = at s (encode_wait ++ []) (cs ∷ later) }))
          (read-idle 8 encode_wait [] s cs later idle refl)
        ∙ signal-taken _ _;
    idle = waits-idle cs s idle;
  }

  -- The signal is awaited: it comes before the deadline, or the registration is withdrawn.
  pub signal-awaited :
      (s : Server) (cs racing last : List Change) (later : List (List Change))
      → waits s ≡ true
      → IsStop (apply_all cs s) request
      → let here = at s [] (cs ∷ racing ∷ last ∷ later) in
        Ended cl
          (outcome (any_signals cs))
          (signalled link request (link.read 8 here) (record cl { conn = here }))
  unfolding link with_signal signalled
  signal-awaited s cs racing last later waiting h = elim (Bool-cases (any_signals cs)) [
    | inl came ↦ record {
      server = t;
      later = racing ∷ last ∷ later;
      returned =
          ap taken (
            ap (take_in 8) (happened came)
            ∙ take_in-exact 8 encode_wait [] t (racing ∷ last ∷ later) refl)
          ∙ signal-taken (at s [] (cs ∷ racing ∷ last ∷ later)) (at t [] (racing ∷ last ∷ later))
          ∙ λ i. (outcome (sym came i), record cl { conn = at t [] (racing ∷ last ∷ later) });
      idle = registered cs s true waiting came;
    }
    | inr late ↦
        let e =
          ap taken (ap (take_in 8) (happened late) ∙ take_in-late 7 t (racing ∷ last ∷ later)) in
        let end =
          stop_wait-Ended cl request t racing last later h (registered cs s false waiting late) in
        record {
          server = end.server;
          later = end.later;
          returned = e ∙ end.returned ∙ λ i.
              (outcome (sym late i), record cl { conn = at end.server [] end.later });
          idle = end.idle;
        }
  ]
    where
      t : Server
      t = apply_all cs s

      taken : Got × Link → Result ClientError (Unit {0}) × Client Link
      taken r = signalled link request r (record cl { conn = at s [] (cs ∷ racing ∷ last ∷ later) })

      happened :
          {b : Bool}
          → any_signals cs ≡ b
          → happen (at s [] (cs ∷ racing ∷ last ∷ later))
            ≡ at t (with_signal b []) (racing ∷ last ∷ later)
      happened e = happen-waiting s [] cs (racing ∷ last ∷ later) waiting ∙ λ i.
          at t (with_signal (e i) []) (racing ∷ last ∷ later)

  -- A signal may be there already.
  pub signal-next :
      (b : Bool) (s : Server) (cs racing last : List Change) (later : List (List Change))
      → waits s ≡ not b
      → IsStop (apply_all cs s) request
      → let here = at s (with_signal b []) (cs ∷ racing ∷ last ∷ later) in
        Ended cl
          (outcome (b || any_signals cs))
          (signalled link request (link.read 8 here) (record cl { conn = here }))
  unfolding with_signal
  signal-next true s cs racing last later waiting h =
      signal-there s cs (racing ∷ last ∷ later) waiting
  signal-next false s cs racing last later waiting h =
      signal-awaited s cs racing last later waiting h

pub Ended-after :
    (cl : Client Link) (r : Result ClientError (Unit {0}))
    (run run' : Result ClientError (Unit {0}) × Client Link)
    → run ≡ run'
    → Ended cl r run'
    → Ended cl r run
Ended-after cl r run run' e h = record {
  server = h.server;
  later = h.later;
  returned = e ∙ h.returned;
  idle = h.idle;
}
