-- ===== src/Daemon/Link/Waiting.antt =====
-- A wait for a change of the readers, over the link: `waitChange` of pcsc/ipc.go against the
-- registrations of the fake daemon.
use pcscid.Client.Calls.{stop_wait, last_signal}
use pcscid.Client.Runs.{then-ok, write-ok}
use pcscid.Client.{
  Got, got, timed_out, Conn, Client, ClientError, pcsc_error, err_timeout, Action, raise, check,
}
use pcscid.Common.{
  ℕ, ◌≤◌, Bool, true, false, not, ◌&&◌, List, [], ◌∷◌, ◌++◌, Bytes, ◌≡◌, refl, ap, ◌∙◌, arith,
  length, Bool-cases, inl, inr, ltb, ◌==◌, Result, err,
}
use pcscid.Daemon.Link.Delivery.{
  at, waits, apply_all, any_signals, with_signal, waits-idle, waits-apply_all, minor-apply_all,
}
use pcscid.Daemon.Link.Steps.{write-waiting, read-idle, deadline-link}
use pcscid.Daemon.Link.{Link, link, own}
use pcscid.Daemon.Serving.Requests.{stopped, dispatch, encode_wait}
use pcscid.Daemon.{Server, Change, unregister, without, is_waiting}
use pcscid.Wire.Frames.{IsMessage}
use pcscid.Wire.Messages.{decode_wait}
use pcscid.Wire.{write_message}

-- A call that returned, and left the link as it was between two calls: nothing unread in either
-- direction, and no registration.
pub record Ended (cl : Client Link) (r : Result ClientError (Unit {0}))
    (run : Result ClientError (Unit {0}) × Client Link) : Type 0 where
  pub server : Server
  pub later : List (List Change)
  pub returned : run ≡ (r, record cl { conn = at server [] later })
  pub idle : waits server ≡ false

without-idle : (c : ℕ) (ws : List ℕ) → is_waiting c (without c ws) ≡ false
unfolding is_waiting without
without-idle c [] = refl
without-idle c (w ∷ ws) = elim (Bool-cases (w == c)) [
  | inl same ↦ rw same (without-idle c ws)
  | inr other ↦ rw (other, is_waiting) (rw other (without-idle c ws))
]

zero_code : (decode_wait encode_wait).rv ≡ 0
unfolding decode_wait pcscid.Wire.uint32
zero_code = refl

abbrev pub timed_out_error : Result ClientError (Unit {0})
timed_out_error = err (pcsc_error err_timeout)

-- The request that withdraws a registration has a body that the daemon takes.
abbrev pub IsStop : Server → Bytes → Type 0
IsStop s request =
    (length request ≤ 8) × ((ltb s.offered_minor 4 && not (length request == 8)) ≡ false)

-- The daemon behind a withdrawal.
abbrev quit : Server → Server
quit s = record s { waiters = without own s.waiters }

-- A registration survives the moments without a signal.
pub registered :
    (cs : List Change) (s : Server) (b : Bool)
    → waits s ≡ true
    → any_signals cs ≡ b
    → waits (apply_all cs s) ≡ not b
registered cs s b waiting e =
    waits-apply_all cs s ∙ ap (λ w. w && not (any_signals cs)) waiting ∙ ap not e

stop-served :
    (request : Bytes) (s : Server) (b : Bool)
    → IsStop s request
    → waits s ≡ b
    → dispatch own 0x14 request [] s ≡ stopped [] (b, quit s)
unfolding dispatch unregister
stop-served request s b h e = rw h.1 (ap (λ w. stopped [] (w, quit s)) e)

-- The one answer behind a withdrawal, whichever it is: a signal that raced it, or its own.
stop-answered :
    (request : Bytes) (s : Server) (cs : List Change) (later : List (List Change))
    → IsStop s request
    → waits s ≡ true
    → link.write (write_message 0x14 request) (at s [] (cs ∷ later))
      ≡ (true, at (quit (apply_all cs s)) (encode_wait ++ []) later)
unfolding with_signal
stop-answered request s cs later h waiting = elim (Bool-cases (any_signals cs)) [
  | inl raced ↦
      write-waiting 0x14 request [] s (quit t) [] cs later message waiting
        (stop-served request t false kept (registered cs s true waiting raced))
      ∙ λ i. (true, at (quit t) (with_signal (raced i) [] ++ []) later)
  | inr alone ↦
      write-waiting 0x14 request encode_wait s (quit t) [] cs later message waiting
        (stop-served request t true kept (registered cs s false waiting alone))
      ∙ λ i. (true, at (quit t) (with_signal (alone i) [] ++ encode_wait) later)
]
  where
    t : Server
    t = apply_all cs s

    message : IsMessage (0x14, request)
    message = (omega arith, omega (arith, h.0))

    kept : IsStop t request
    kept = (h.0, ap (λ m. ltb m 4 && not (length request == 8)) (minor-apply_all cs s) ∙ h.1)

-- A wait that timed out.
pub stop_wait-Ended :
    (cl : Client Link) (request : Bytes) (s : Server) (racing last : List Change)
    (later : List (List Change))
    → IsStop s request
    → waits s ≡ true
    → Ended cl timed_out_error
        (stop_wait link request (record cl { conn = at s [] (racing ∷ last ∷ later) }))
unfolding stop_wait
stop_wait-Ended cl request s racing last later h waiting = record {
  server = apply_all last t;
  later = later;
  returned =
      then-ok _ _ cl0 cl0 (deadline-link 15000 cl0)
      ∙ then-ok _ _ cl0 cl1
          (write-ok link _ _ cl0 cl1.conn (stop-answered request s racing (last ∷ later) h waiting))
      ∙ ap (λ r. last_signal link r cl1) (read-idle 8 encode_wait [] t last later quiet refl)
      ∙ last-timeout;
  idle = waits-idle last t quiet;
}
  where
    t : Server
    t = quit (apply_all racing s)

    quiet : waits t ≡ false
    quiet = without-idle own (apply_all racing s).waiters

    cl0 : Client Link
    cl0 = record cl { conn = at s [] (racing ∷ last ∷ later) }

    cl1 : Client Link
    cl1 = record cl { conn = at t (encode_wait ++ []) (last ∷ later) }

    last-timeout :
        last_signal link (got encode_wait, at (apply_all last t) [] later) cl1
        ≡ (timed_out_error, record cl { conn = at (apply_all last t) [] later })
    last-timeout = unfold last_signal pcscid.Client.◌>>◌ decode_wait in refl
