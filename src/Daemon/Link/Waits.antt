-- ===== src/Daemon/Link/Waits.antt =====
-- A wait for a change of the readers, over the link, in both versions of the protocol.
use pcscid.Client.Calls.{wait_change, wait_change_new, wait_change_old}
use pcscid.Client.Runs.{bind-ok, then-ok, write-ok, read-ok}
use pcscid.Client.{Client}
use pcscid.Common.{
  ℕ, suc, ◌+◌, ◌%◌, ◌≤◌, Bool, true, false, ◌&&◌, ◌||◌, List, [], ◌∷◌, Bytes, ◌≡◌, refl, ap, ◌∙◌,
  arith, length, subst, Bool-cases, inl, inr, ltb, leb, ◌==◌, if◌then◌else◌,
}
use pcscid.Daemon.Link.Delivery.{at, waits, apply_all, any_signals, with_signal, minor-apply_all}
use pcscid.Daemon.Link.Reading.{length-encode_states_locked}
use pcscid.Daemon.Link.Steps.{write-idle, deadline-link}
use pcscid.Daemon.Link.Waiting.{Ended, registered}
use pcscid.Daemon.Link.{Link, link, own}
use pcscid.Daemon.Serving.Requests.{answered, dispatch}
use pcscid.Daemon.{Server, Change, encode_states_locked, register}
use pcscid.Wire.Messages.{decode_wait, WaitMsg}
use pcscid.Wire.Messages
use pcscid.Wire.{write_message}
use pcscid.Daemon.Link.Signals.{
  outcome, waits-register, read-waiting, Ended-after, signal-awaited, signal-next,
}

-- The body of a wait request of the old protocol.
abbrev old_request : ℕ → Bytes
old_request ms = pcscid.Wire.Messages.encode_wait (record { timeout_ms = ms; rv = 0 })

length-old_request : (ms : ℕ) → length (old_request ms) ≡ 8
unfolding pcscid.Wire.Messages.encode_wait pcscid.Wire.pack_le
length-old_request ms = refl

eight : (ms : ℕ) → (length (old_request ms) == 8) ≡ true
eight ms = ap (λ n. n == 8) (length-old_request ms)

or_false : (b : Bool) → b ≡ b || false
or_false true = refl
or_false false = refl

module _ (cl : Client Link) (s : Server) (first second third racing last : List Change)
    (later : List (List Change)) where
  -- The link, with what changes at each step of a wait.
  abbrev pub waiting_link : Client Link
  waiting_link = record cl { conn = at s [] (first ∷ second ∷ third ∷ racing ∷ last ∷ later) }

  abbrev s1 : Server
  s1 = apply_all first s

  abbrev s2 : Server
  s2 = register own s1

  abbrev s3 : Server
  s3 = apply_all second s2

  minor_kept : (apply_all third s3).offered_minor ≡ s.offered_minor
  unfolding register
  minor_kept = minor-apply_all third s3 ∙ minor-apply_all second s2 ∙ minor-apply_all first s

  wait_new-Ended :
      (timeout : ℕ)
      → waits s ≡ false
      → 4 ≤ s.offered_minor
      → Ended cl
          (outcome (any_signals second || any_signals third))
          (wait_change_new link timeout waiting_link)
  unfolding wait_change_new
  wait_new-Ended timeout idle new =
      let dump = encode_states_locked s1 in
      let cl1 = record cl { conn = at s2 dump (second ∷ third ∷ racing ∷ last ∷ later) } in
      let out = with_signal (any_signals second) [] in
      let cl2 = record cl { conn = at s3 out (third ∷ racing ∷ last ∷ later) } in
      let start =
        then-ok _ _ waiting_link waiting_link (deadline-link 30000 waiting_link)
        ∙ then-ok _ _ waiting_link cl1 (
            write-ok link _ _ waiting_link cl1.conn (
              write-idle 0x13 [] dump s s2 [] first (second ∷ third ∷ racing ∷ last ∷ later)
                (omega arith, omega arith) idle served))
        ∙ bind-ok _ _ cl1 cl2 dump (
            read-ok link _ 2944 cl1 dump cl2.conn (
              read-waiting 2944 dump s2 second (third ∷ racing ∷ last ∷ later) (waits-register s1)
                (length-encode_states_locked s1)))
        ∙ then-ok _ _ cl2 cl2 (deadline-link (timeout + 100) cl2) in
      Ended-after cl _ _ _ start (
        signal-next cl [] (any_signals second) s3 third racing last later
          (registered second s2 (any_signals second) (waits-register s1) refl)
          (omega arith, ap (λ b. b && true) kept))
    where
      not_old : (t : Server) → t.offered_minor ≡ s.offered_minor → ltb t.offered_minor 4 ≡ false
      not_old t e = ground (arith, e, new)

      served : dispatch own 0x13 [] [] s1 ≡ answered [] (encode_states_locked s1, s2)
      served = unfold dispatch in rw (not_old s1 (minor-apply_all first s)) refl

      kept : ltb (apply_all third s3).offered_minor 4 ≡ false
      kept = not_old (apply_all third s3) minor_kept

  wait_old-Ended :
      (timeout : ℕ)
      → waits s ≡ false
      → suc s.offered_minor ≤ 4
      → Ended cl (outcome (any_signals second)) (wait_change_old link timeout waiting_link)
  unfolding wait_change_old
  wait_old-Ended timeout idle old =
      let ms = timeout % 4294967296 in
      let timeout_ms = if ms == 0 then 1 else ms in
      let request = old_request timeout_ms in
      let cl1 = record cl { conn = at s2 [] (second ∷ third ∷ racing ∷ last ∷ later) } in
      let start =
        then-ok _ _ waiting_link waiting_link (deadline-link (timeout + 100) waiting_link)
        ∙ then-ok _ _ waiting_link cl1 (
            write-ok link _ _ waiting_link cl1.conn (
              write-idle 0x13 request [] s s2 [] first (second ∷ third ∷ racing ∷ last ∷ later)
                (omega arith, omega (arith, length-old_request timeout_ms)) idle
                (served timeout_ms))) in
      Ended-after cl _ _ _ start (
        signal-awaited cl request s2 second third racing (last ∷ later) (waits-register s1)
          (omega (arith, length-old_request timeout_ms), ground (arith, eight timeout_ms)))
    where
      served : (ms : ℕ) → dispatch own 0x13 (old_request ms) [] s1 ≡ answered [] ([], s2)
      served ms =
          let is_old : ltb s1.offered_minor 4 ≡ true =
            ground (arith, minor-apply_all first s, old) in
          unfold dispatch in rw is_old (rw (eight ms) refl)

-- A client that has agreed on the daemon's version waits for a change, whatever happens at each step
-- of the wait: it returns that there was a change exactly when the daemon woke its waiters between
-- the registration and the deadline, whether the change itself came before or after the
-- registration, and that the deadline passed otherwise; and the link is left with nothing unread and
-- no registration, also when a signal races the withdrawal of the registration.
pub wait_change-Ended :
    (cl : Client Link) (s : Server) (first second third racing last : List Change)
    (later : List (List Change)) (timeout : ℕ)
    → waits s ≡ false
    → cl.minor ≡ s.offered_minor
    → Ended cl
        (outcome (any_signals second || (leb 4 cl.minor && any_signals third)))
        (wait_change link timeout (waiting_link cl s first second third racing last later))
unfolding wait_change
wait_change-Ended cl s first second third racing last later timeout idle agreed =
    elim (Bool-cases (leb 4 cl.minor)) [
      | inl new ↦ rw new (
          wait_new-Ended cl s first second third racing last later timeout idle
            (ground (arith, agreed, new)))
      | inr old ↦ rw old (
          subst
            (λ b. Ended cl (outcome b) (
              wait_change_old link timeout
                (waiting_link cl s first second third racing last later)))
            (or_false (any_signals second))
            (wait_old-Ended cl s first second third racing last later timeout idle
              (ground (arith, agreed, old))))
    ]
