-- ===== src/Daemon/Link/Steps.antt =====
-- One request and one read of the client over the link.
use pcscid.Client.Runs.{deadline-ok}
use pcscid.Client.{Client, set_deadline, got, timed_out}
use pcscid.Common.{
  ℕ, zero, suc, true, false, List, [], ◌∷◌, ◌++◌, append-nil, none, some, Bytes, ◌≡◌, refl, sym, ap,
  ◌∙◌, arith, length, drop, take_of_append, drop_of_append, length-append, ltb, ok, err,
}
use pcscid.Daemon.Link.Delivery.{
  at, waits, apply_all, any_signals, with_signal, happen-idle, happen-waiting,
}
use pcscid.Daemon.Link.{
  Link, own, turned, dispatched, serve_message, serve_next, serve_one, serve, send, take_in, link,
}
use pcscid.Daemon.Serving.Requests.{answered, dispatch}
use pcscid.Daemon.{Server, Change}
use pcscid.Wire.Frames.{unexpected_end, read_full, read_message, IsMessage, read-write_message}
use pcscid.Wire.{write_message}

read_nothing : read_message [] ≡ err unexpected_end
unfolding read_message read_full
read_nothing = refl

serve_one-idle : (l : Link) → l.inbox ≡ [] → serve_one l ≡ none
unfolding serve_one serve_next
serve_one-idle l e =
    ap (λ b. serve_next (read_message b) l) e ∙ ap (λ r. serve_next r l) read_nothing

-- A daemon with nothing to read waits.
serve-idle : (fuel : ℕ) (l : Link) → l.inbox ≡ [] → serve fuel l ≡ l
unfolding serve
serve-idle zero l e = refl
serve-idle (suc fuel) l e = rw (serve_one-idle l e, serve) refl

-- A daemon that reads the whole input in one turn.
pub serve-once :
    (fuel : ℕ) (l l' : Link) → serve_one l ≡ some l' → l'.inbox ≡ [] → serve (suc fuel) l ≡ l'
unfolding serve
serve-once fuel l l' one e = rw (one, serve) (serve-idle fuel l' e)

pub read_one :
    (command : ℕ) (body : Bytes)
    → IsMessage (command, body)
    → read_message (write_message command body) ≡ ok ((command, body), [])
read_one command body h =
    ap read_message (sym (append-nil (write_message command body)))
    ∙ read-write_message command body [] h

-- A request that the daemon answers.
pub send-answered :
    (command : ℕ) (body answer : Bytes) (s s' : Server) (out : Bytes) (later : List (List Change))
    → IsMessage (command, body)
    → dispatch own command body [] s ≡ answered [] (answer, s')
    → send (write_message command body) (at s out later) ≡ (true, at s' (out ++ answer) later)
unfolding send write_message
send-answered command body answer s s' out later h e =
    ap (λ l. (true, l))
      (serve-once (length (drop 1 (write_message command body))) given (at s' (out ++ answer) later)
        turn refl)
  where
    given : Link
    given = record (at s out later) { inbox = write_message command body }

    turn : serve_one given ≡ some (at s' (out ++ answer) later)
    turn =
        unfold serve_one serve_next serve_message dispatched turned in
        ap (λ r. serve_next r given) (read_one command body h) ∙ ap (dispatched given) e

pub take_in-exact :
    (n : ℕ) (a b : Bytes) (s : Server) (later : List (List Change))
    → length a ≡ n
    → take_in n (at s (a ++ b) later) ≡ (got a, at s b later)
unfolding take_in
take_in-exact n a b s later h =
    let enough : ltb (length (a ++ b)) n ≡ false = ground (arith, length-append {0} a b, h) in
    rw enough (λ i. (got (take_of_append n a b h i), at s (drop_of_append n a b h i) later))

pub take_in-late :
    (n : ℕ) (s : Server) (later : List (List Change))
    → take_in (suc n) (at s [] later) ≡ (timed_out, at s [] later)
unfolding take_in
take_in-late n s later = let short : ltb 0 (suc n) ≡ true = ground arith in rw short refl

-- A request of a client whose connection does not wait, behind the changes of a moment.
pub write-idle :
    (command : ℕ) (body answer : Bytes) (s s' : Server) (out : Bytes) (cs : List Change)
    (later : List (List Change))
    → IsMessage (command, body)
    → waits s ≡ false
    → dispatch own command body [] (apply_all cs s) ≡ answered [] (answer, s')
    → link.write (write_message command body) (at s out (cs ∷ later))
      ≡ (true, at s' (out ++ answer) later)
unfolding link
write-idle command body answer s s' out cs later h idle e =
    ap (send (write_message command body)) (happen-idle s out cs later idle)
    ∙ send-answered command body answer (apply_all cs s) s' out later h e

-- The same for a connection that waits.
pub write-waiting :
    (command : ℕ) (body answer : Bytes) (s s' : Server) (out : Bytes) (cs : List Change)
    (later : List (List Change))
    → IsMessage (command, body)
    → waits s ≡ true
    → dispatch own command body [] (apply_all cs s) ≡ answered [] (answer, s')
    → link.write (write_message command body) (at s out (cs ∷ later))
      ≡ (true, at s' (with_signal (any_signals cs) out ++ answer) later)
unfolding link
write-waiting command body answer s s' out cs later h waiting e =
    ap (send (write_message command body)) (happen-waiting s out cs later waiting)
    ∙ send-answered command body answer (apply_all cs s) s' (with_signal (any_signals cs) out) later
        h e

-- A read of what is there, on a connection that does not wait.
pub read-idle :
    (n : ℕ) (a b : Bytes) (s : Server) (cs : List Change) (later : List (List Change))
    → waits s ≡ false
    → length a ≡ n
    → link.read n (at s (a ++ b) (cs ∷ later)) ≡ (got a, at (apply_all cs s) b later)
unfolding link
read-idle n a b s cs later idle h =
    ap (take_in n) (happen-idle s (a ++ b) cs later idle)
    ∙ take_in-exact n a b (apply_all cs s) later h

pub deadline-link : (ms : ℕ) (cl : Client Link) → set_deadline link ms cl ≡ (ok tt, cl)
unfolding link
deadline-link ms cl = deadline-ok link ms cl refl
