-- ===== src/Daemon/Link/Version.antt =====
-- The version handshake over the link: the client's proposals against the daemon's `negotiate`.
use pcscid.Client.Runs.{bind-ok, then-ok, write-ok, read-ok}
use pcscid.Client.{got, Client, judge_version, handshake_rounds, err_service_stopped}
use pcscid.Common.{
  ℕ, suc, Bool, true, false, ◌&&◌, List, [], ◌∷◌, Bytes, ◌≡◌, refl, sym, ap, ◌∙◌, arith, length,
  drop, if◌then◌else◌, some, subst,
}
use pcscid.Daemon.Link.Delivery.{
  at, waits, apply_all, any_signals, with_signal, waits-idle, minor-apply_all, change_all-signal,
}
use pcscid.Daemon.Link.Steps.{serve-once, read_one}
use pcscid.Daemon.Link.{
  Link, Phase, negotiating, serving, link, happen, happen_at, serve_one, serve_next, serve_message,
  negotiated, send, take_in,
}
use pcscid.Daemon.Serving.Requests.{accepts, negotiate, encode_version}
use pcscid.Daemon.{Server, Change}
use pcscid.Wire.Messages.RoundTrip.{word, decode-encode_version}
use pcscid.Wire.Messages.{VersionMsg, decode_version}
use pcscid.Wire.Words.{IsWord}
use pcscid.Wire.{write_message, uint32_at}

abbrev pub phase_of : Bool → Phase
phase_of true = serving
phase_of false = negotiating

-- A link whose version is accepted or not.
abbrev pub link_in : Bool → Server → Bytes → List (List Change) → Link
link_in b s out later = record (at s out later) { phase = phase_of b }

and_false : (b : Bool) → b && false ≡ false
and_false true = refl
and_false false = refl

happen-in :
    (b : Bool) (s : Server) (out : Bytes) (cs : List Change) (later : List (List Change))
    → waits s ≡ false
    → happen (link_in b s out (cs ∷ later)) ≡ link_in b (apply_all cs s) out later
unfolding happen happen_at with_signal
happen-in b s out cs later idle = change_all-signal cs (link_in b s out later) ∙ λ i.
    link_in b (apply_all cs s)
      (with_signal ((ap (λ w. any_signals cs && w) idle ∙ and_false (any_signals cs)) i) out) later

-- What the client proposes, and what the daemon answers.
abbrev proposal : ℕ → Bytes
proposal minor = pcscid.Wire.Messages.encode_version (record { major = 4; minor = minor; rv = 0 })

abbrev pub code_of : Bool → ℕ
code_of accepted = if accepted then 0 else err_service_stopped

abbrev answer : ℕ → Bool → Bytes
answer offered accepted = encode_version 4 offered (code_of accepted)

negotiate-proposal :
    (offered minor : ℕ) (b : Bool)
    → IsWord minor
    → accepts offered 4 minor ≡ b
    → negotiate offered 0x11 (proposal minor) ≡ some (answer offered b, b)
unfolding negotiate pcscid.Wire.Messages.encode_version pcscid.Wire.pack_le pcscid.Wire.uint32
negotiate-proposal offered minor true h e = rw (word minor h) (rw e refl)
negotiate-proposal offered minor false h e = rw (word minor h) (rw e refl)

negotiated-in :
    (b : Bool) (s : Server) (a input : Bytes) (later : List (List Change))
    → negotiated (some (a, b)) [] (record (link_in false s [] later) { inbox = input })
      ≡ link_in b s a later
unfolding negotiated
negotiated-in true s a input later = refl
negotiated-in false s a input later = refl

twelve : (minor : ℕ) → length (proposal minor) ≡ 12
unfolding pcscid.Wire.Messages.encode_version pcscid.Wire.pack_le
twelve minor = refl

send-proposal :
    (s : Server) (minor : ℕ) (b : Bool) (later : List (List Change))
    → IsWord minor
    → accepts s.offered_minor 4 minor ≡ b
    → send (write_message 0x11 (proposal minor)) (link_in false s [] later)
      ≡ (true, link_in b s (answer s.offered_minor b) later)
unfolding send write_message
send-proposal s minor b later h e =
    ap (λ l. (true, l))
      (serve-once (length (drop 1 (write_message 0x11 (proposal minor)))) given
        (link_in b s (answer s.offered_minor b) later) turn refl)
  where
    given : Link
    given = record (link_in false s [] later) { inbox = write_message 0x11 (proposal minor) }

    turn : serve_one given ≡ some (link_in b s (answer s.offered_minor b) later)
    turn =
        unfold serve_one serve_next serve_message in
        ap (λ r. serve_next r given)
          (read_one 0x11 (proposal minor) (omega arith, omega (arith, twelve minor)))
        ∙ ap (λ n. some (negotiated n [] given)) (negotiate-proposal s.offered_minor minor b h e)
        ∙ ap some (negotiated-in b s (answer s.offered_minor b) given.inbox later)

abbrev pub answered_version : ℕ → Bool → VersionMsg
answered_version offered b = record { major = 4; minor = offered; rv = code_of b }

decode-answer :
    (offered : ℕ) (b : Bool)
    → IsWord offered
    → decode_version (answer offered b) ≡ answered_version offered b
unfolding pcscid.Wire.Messages.encode_version pcscid.Wire.pack_le
decode-answer offered true h =
    decode-encode_version (answered_version offered true) (omega arith, h, omega arith)
decode-answer offered false h =
    decode-encode_version (answered_version offered false) (omega arith, h, omega arith)

length-answer : (offered : ℕ) (b : Bool) → length (answer offered b) ≡ 12
length-answer offered b = refl

read-answer :
    (b : Bool) (s : Server) (cs : List Change) (later : List (List Change))
    → waits s ≡ false
    → link.read 12 (link_in b s (answer s.offered_minor b) (cs ∷ later))
      ≡ (got (answer s.offered_minor b), link_in b (apply_all cs s) [] later)
unfolding link take_in
read-answer b s cs later idle =
    ap (take_in 12) (happen-in b s (answer s.offered_minor b) cs later idle) ∙ refl

write-proposal :
    (s : Server) (minor : ℕ) (b : Bool) (cs : List Change) (later : List (List Change))
    → waits s ≡ false
    → IsWord minor
    → accepts (apply_all cs s).offered_minor 4 minor ≡ b
    → link.write (write_message 0x11 (proposal minor)) (link_in false s [] (cs ∷ later))
      ≡ (true, link_in b (apply_all cs s) (answer (apply_all cs s).offered_minor b) later)
unfolding link
write-proposal s minor b cs later idle w e =
    ap (send (write_message 0x11 (proposal minor))) (happen-in false s [] cs later idle)
    ∙ send-proposal (apply_all cs s) minor b later w e

-- A round of the handshake.
pub round :
    (left minor : ℕ) (b : Bool) (cl : Client Link) (s : Server) (cs ds : List Change)
    (later : List (List Change))
    → waits s ≡ false
    → IsWord minor
    → IsWord s.offered_minor
    → accepts s.offered_minor 4 minor ≡ b
    → handshake_rounds link
        (suc left)
        4
        minor
        (record cl { conn = link_in false s [] (cs ∷ ds ∷ later) })
      ≡ judge_version link
          (handshake_rounds link left)
          (answered_version s.offered_minor b)
          (record cl { conn = link_in b (apply_all ds (apply_all cs s)) [] later })
unfolding handshake_rounds
round left minor b cl s cs ds later idle w v e =
    let s1 = apply_all cs s in
    let m = s1.offered_minor in
    let same = minor-apply_all cs s in
    let cl0 = record cl { conn = link_in false s [] (cs ∷ ds ∷ later) } in
    let cl1 = record cl { conn = link_in b s1 (answer m b) (ds ∷ later) } in
    let cl2 = record cl { conn = link_in b (apply_all ds s1) [] later } in
    then-ok _ _ cl0 cl1 (
      write-ok link _ _ cl0 cl1.conn
        (write-proposal s minor b cs (ds ∷ later) idle w (ap (λ n. accepts n 4 minor) same ∙ e)))
    ∙ bind-ok _ _ cl1 cl2 (answer m b) (
        read-ok link _ 12 cl1 (answer m b) cl2.conn
          (read-answer b s1 ds later (waits-idle cs s idle)))
    ∙ ap (λ v. judge_version link (handshake_rounds link left) v cl2)
        (decode-answer m b (subst IsWord (sym same) v) ∙ ap (λ n. answered_version n b) same)
