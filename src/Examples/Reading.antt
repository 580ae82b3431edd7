-- ===== src/Examples/Reading.antt =====
-- A card that wedges, read at a concrete daemon.
use pcscid.Common.{none, ℕ, suc, ◌≤◌, ◌==◌, [], ◌∷◌, some, ◌≡◌, refl, if◌then◌else◌}
use pcscid.Uid.Effort.{transmits_in, resets_in, paused_in, insist_uid-effort}
use pcscid.Uid.Holding.{Holds}
use pcscid.Uid.Outcome.{Verdict, insist_uid-outcome}
use pcscid.Uid.Recorded.{recording, Agrees}
use pcscid.Uid.{CardConn, Pcscd, opened, failed, insist_uid}

-- The number of resets so far and of failed connections since: the card answers 63 00 until it is
-- reset, and comes back on the second attempt behind the reset.
abbrev pub wedging : Pcscd (ℕ × ℕ)
wedging = record {
  connect = λ reader preferred w.
      if w.1 == 0
      then (failed, (w.0, 1))
      else (opened (record { handle = 8; protocol = 2 }), (w.0, 0));
  transmit = λ card apdu size w.
      if w.0 == 0
      then (some (0x63 ∷ 0x00 ∷ []), w)
      else (some (4 ∷ 5 ∷ 6 ∷ 7 ∷ 0x90 ∷ 0x00 ∷ []), w);
  get_attrib = λ card attribute w. (none, w);
  disconnect = λ card disposition w. (suc w.0, 0);
  sleep = λ ms w. w;
}

abbrev first_card : CardConn
first_card = record { handle = 7; protocol = 2 }

abbrev pub start : ℕ × ℕ
start = (0, 0)

read_after_reset :
    (insist_uid wedging [] first_card (record { world = start; acts = [] })).0.uid
    ≡ 4 ∷ 5 ∷ 6 ∷ 7 ∷ []
unfolding insist_uid
read_after_reset = refl

insist_uid-effort_example :
    let (r, s) =
      insist_uid (recording wedging) [] first_card (record { world = (start, []); acts = [] }) in
    Agrees s
    × (transmits_in s.acts ≤ 9)
    × (resets_in s.acts ≤ 2)
    × (paused_in s.acts ≤ 2660)
    × Holds (some first_card) s.acts r.live
insist_uid-effort_example = insist_uid-effort wedging [] first_card start

insist_uid-outcome_example :
    let (r, s) =
      insist_uid (recording wedging) [] first_card (record { world = (start, []); acts = [] }) in
    Agrees s × Verdict 2 r s.acts
insist_uid-outcome_example = insist_uid-outcome wedging [] first_card start
