-- ===== src/Examples/Daemons.antt =====
-- The client and the fake daemon at a concrete reader, with a card that arrives.
use pcscid.Client.Calls.{wait_change}
use pcscid.Client.{Client, handshake, pcsc_error, err_service_stopped}
use pcscid.Common.{
  ℕ, suc, ◌≤◌, ◌≢◌, Bool, true, false, ◌&&◌, ◌||◌, List, [], ◌∷◌, ◌≡◌, refl, arith, Bytes, codes,
  replicate, length, leb, Table, err,
}
use pcscid.Daemon.Link.Delivery.{at, waits, any_signals}
use pcscid.Daemon.Link.Handshake.{Agreed, handshake-Agreed, handshake-refused}
use pcscid.Daemon.Link.Signals.{outcome}
use pcscid.Daemon.Link.Version.{link_in}
use pcscid.Daemon.Link.Waiting.{Ended}
use pcscid.Daemon.Link.Waits.{waiting_link, wait_change-Ended}
use pcscid.Daemon.Link.{Link, link}
use pcscid.Daemon.{Reader, new_reader, Server, Change, inserts, wakes}

abbrev pub name : Bytes
name = codes "A"

abbrev pub daemon : ℕ → Server
daemon minor = record {
  offered_minor = minor;
  readers = (name, new_reader) ∷ [];
  waiters = [];
  cards = [];
  handles = 0;
}

abbrev inserted : List Change
inserted = inserts name (0x3B ∷ 0x00 ∷ []) (4 ∷ 5 ∷ 6 ∷ 7 ∷ []) ∷ []

abbrev arrives : List Change
arrives = inserts name (0x3B ∷ 0x00 ∷ []) (4 ∷ 5 ∷ 6 ∷ 7 ∷ []) ∷ wakes ∷ []

abbrev pub client : ℕ → Client Link
client minor = record { conn = at (daemon minor) [] []; context = 1; major = 4; minor = minor }

no_waiter : (minor : ℕ) → waits (daemon minor) ≡ false
unfolding pcscid.Daemon.is_waiting
no_waiter minor = refl

handshake-Agreed_example : Agreed (client 0) 2 (
    handshake link
      (record (client 0) { conn = link_in false (daemon 2) [] ([] ∷ arrives ∷ [] ∷ [] ∷ []) }))
handshake-Agreed_example =
    handshake-Agreed (client 0) (daemon 2) [] arrives [] [] [] (no_waiter 2) (omega arith)
      (omega arith)

handshake-refused_example :
    (handshake link
      (record (client 0) { conn = link_in false (daemon 1) [] ([] ∷ arrives ∷ []) })).0
    ≡ err (pcsc_error err_service_stopped)
handshake-refused_example =
    handshake-refused (client 0) (daemon 1) [] arrives [] (no_waiter 1) (omega arith)

-- The card is there before the registration, and its signal comes behind it.
wait_change-Ended_example :
    Ended (client 4) (outcome (any_signals (wakes ∷ []) || (leb 4 4 && any_signals []))) (
      wait_change link 500
        (waiting_link (client 4) (daemon 4) inserted (wakes ∷ []) [] arrives [] []))
wait_change-Ended_example =
    wait_change-Ended (client 4) (daemon 4) inserted (wakes ∷ []) [] arrives [] [] 500 (no_waiter 4)
      refl
