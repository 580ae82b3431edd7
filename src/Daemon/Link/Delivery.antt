-- ===== src/Daemon/Link/Delivery.antt =====
-- What the changes of a moment leave on the link between client and daemon.
use pcscid.Common.{
  Bool, true, false, not, ◌&&◌, ◌||◌, List, [], ◌∷◌, ◌++◌, Option, none, some, Bytes, ◌≡◌, refl,
  sym, ap, ◌∙◌, lookup, if◌then◌else◌,
}
use pcscid.Daemon.Link.{Link, serving, own, apply, signals, change, change_all, happen, happen_at}
use pcscid.Daemon.Serving.Requests.{encode_wait}
use pcscid.Daemon.{
  Reader, Server, Change, inserts, removes, sets_serial, sets_channel_id, insert_card, remove_card,
  set_serial, set_channel_id, wakes, update, emptied, wake_waiters, is_waiting,
}

unfoldable pub apply_all : List Change → Server → Server
unfolding apply
apply_all [] s = s
apply_all (c ∷ cs) s = apply_all cs (apply c s)

unfoldable pub any_signals : List Change → Bool
unfolding signals
any_signals [] = false
any_signals (c ∷ cs) = signals c || any_signals cs

-- Whether the connection waits for a signal.
abbrev pub waits : Server → Bool
waits s = is_waiting own s.waiters

-- The link between two calls.
abbrev pub at : Server → Bytes → List (List Change) → Link
at s out later = record { server = s; phase = serving; inbox = []; outbox = out; moments = later }

-- The bytes in front of a signal, if there is one.
unfoldable pub with_signal : Bool → Bytes → Bytes
with_signal true out = out ++ encode_wait
with_signal false out = out

and_true : (b : Bool) → b ≡ b && true
and_true true = refl
and_true false = refl

and_false : (b : Bool) → false ≡ b && false
and_false true = refl
and_false false = refl

update-waiters :
    (name : Bytes) (f : Reader → Reader) (r : Option Reader) (s : Server)
    → (update name f r s).waiters ≡ s.waiters
unfolding update
update-waiters name f none s = refl
update-waiters name f (some r) s = refl

waits-apply : (c : Change) (s : Server) → waits (apply c s) ≡ waits s && not (signals c)
unfolding apply signals insert_card remove_card set_serial set_channel_id wake_waiters is_waiting
waits-apply (inserts name atr uid) s = and_true (waits s)
waits-apply (removes name) s =
    ap (is_waiting own) (update-waiters name emptied (lookup name s.readers) s) ∙ and_true (waits s)
waits-apply (sets_serial name serial) s = and_true (waits s)
waits-apply (sets_channel_id name id) s = and_true (waits s)
waits-apply wakes s = and_false (waits s)

update-minor :
    (name : Bytes) (f : Reader → Reader) (r : Option Reader) (s : Server)
    → (update name f r s).offered_minor ≡ s.offered_minor
unfolding update
update-minor name f none s = refl
update-minor name f (some r) s = refl

minor-apply : (c : Change) (s : Server) → (apply c s).offered_minor ≡ s.offered_minor
unfolding apply insert_card remove_card set_serial set_channel_id wake_waiters
minor-apply (inserts name atr uid) s = refl
minor-apply (removes name) s = update-minor name emptied (lookup name s.readers) s
minor-apply (sets_serial name serial) s = refl
minor-apply (sets_channel_id name id) s = refl
minor-apply wakes s = refl

-- The daemon keeps to its version.
pub minor-apply_all :
    (cs : List Change) (s : Server) → (apply_all cs s).offered_minor ≡ s.offered_minor
unfolding apply_all
minor-apply_all [] s = refl
minor-apply_all (c ∷ cs) s = minor-apply_all cs (apply c s) ∙ minor-apply c s

pick-with_signal :
    (b : Bool) (out : Bytes) → (if b then out ++ encode_wait else out) ≡ with_signal b out
unfolding with_signal
pick-with_signal true out = refl
pick-with_signal false out = refl

change-signal :
    (c : Change) (l : Link)
    → change c l ≡ record l {
      server = apply c l.server;
      outbox = with_signal (signals c && waits l.server) l.outbox;
    }
unfolding change
change-signal c l = λ i. record l {
  server = apply c l.server;
  outbox = pick-with_signal (signals c && waits l.server) l.outbox i;
}

-- Of two changes the first that signals is the last.
two_signals :
    (a b w : Bool) (out : Bytes)
    → with_signal (b && (w && not a)) (with_signal (a && w) out) ≡ with_signal ((a || b) && w) out
unfolding with_signal
two_signals true true true out = refl
two_signals true true false out = refl
two_signals true false true out = refl
two_signals true false false out = refl
two_signals false true true out = refl
two_signals false true false out = refl
two_signals false false true out = refl
two_signals false false false out = refl

-- The changes of a moment signal once, and only a connection that waits.
pub change_all-signal :
    (cs : List Change) (l : Link)
    → change_all cs l ≡ record l {
      server = apply_all cs l.server;
      outbox = with_signal (any_signals cs && waits l.server) l.outbox;
    }
unfolding change_all apply_all any_signals with_signal
change_all-signal [] l = refl
change_all-signal (c ∷ cs) l =
    ap (change_all cs) (change-signal c l)
    ∙ change_all-signal cs (record l {
      server = apply c l.server;
      outbox = with_signal (signals c && waits l.server) l.outbox;
    })
    ∙ λ i. record l {
      server = apply_all cs (apply c l.server);
      outbox =
          (ap
                (λ w.
                  with_signal (any_signals cs && w)
                    (with_signal (signals c && waits l.server) l.outbox))
                (waits-apply c l.server)
              ∙ two_signals (signals c) (any_signals cs) (waits l.server) l.outbox)
            i;
    }

nand_or : (a b w : Bool) → (w && not a) && not b ≡ w && not (a || b)
nand_or true b true = refl
nand_or true b false = refl
nand_or false b true = refl
nand_or false b false = refl

pub waits-apply_all :
    (cs : List Change) (s : Server) → waits (apply_all cs s) ≡ waits s && not (any_signals cs)
unfolding apply_all any_signals
waits-apply_all [] s = and_true (waits s)
waits-apply_all (c ∷ cs) s =
    waits-apply_all cs (apply c s)
    ∙ ap (λ w. w && not (any_signals cs)) (waits-apply c s)
    ∙ nand_or (signals c) (any_signals cs) (waits s)

-- A moment, on a link whose connection does not wait.
pub happen-idle :
    (s : Server) (out : Bytes) (cs : List Change) (later : List (List Change))
    → waits s ≡ false
    → happen (at s out (cs ∷ later)) ≡ at (apply_all cs s) out later
unfolding happen happen_at with_signal
happen-idle s out cs later idle = change_all-signal cs (at s out later) ∙ λ i.
    at (apply_all cs s)
      (with_signal ((ap (λ w. any_signals cs && w) idle ∙ sym (and_false (any_signals cs))) i) out)
      later

-- A moment, on a link whose connection waits.
pub happen-waiting :
    (s : Server) (out : Bytes) (cs : List Change) (later : List (List Change))
    → waits s ≡ true
    → happen (at s out (cs ∷ later)) ≡ at (apply_all cs s) (with_signal (any_signals cs) out) later
unfolding happen happen_at
happen-waiting s out cs later waiting = change_all-signal cs (at s out later) ∙ λ i.
    at (apply_all cs s)
      (with_signal ((ap (λ w. any_signals cs && w) waiting ∙ sym (and_true (any_signals cs))) i)
        out)
      later

pub waits-idle : (cs : List Change) (s : Server) → waits s ≡ false → waits (apply_all cs s) ≡ false
waits-idle cs s idle = waits-apply_all cs s ∙ ap (λ w. w && not (any_signals cs)) idle
