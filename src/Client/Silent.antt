-- ===== src/Client/Silent.antt =====
-- The calls of pcsc/ipc.go over a connection that brings nothing.
use pcscid.Client.{
  Got, got, timed_out, broken, Conn, ClientError, Client, Action, ◌>>=◌, read_raw, exchange,
  establish, handshake, handshake_rounds,
}
use pcscid.Client.Calls.{
  states, connect, transmit, get_attrib, disconnect, wait_change, wait_change_new, wait_change_old,
  signalled, stop_wait, last_signal,
}
use pcscid.Common.{ℕ, Bool-cases, Bytes, length, leb, ◌==◌, inl, inr}
use pcscid.Uid.{CardConn}
use pcscid.Client.Outcome.{
  Returned, Brought, Fails, IsSilent, bind-Ensures, then-Ensures, raise-Ensures, read_raw-Ensures,
  exchange-Ensures,
}

module _ {C : Type 0} (conn : Conn C) (silent : IsSilent conn) where
  -- A chain that reads first fails in its read.
  exchange-Fails :
      {A : Type 0} (command : ℕ) (body : Bytes) (n : ℕ) (f : Bytes → Action C A)
      → Fails (exchange conn command body n >>= f)
  exchange-Fails command body n f =
      bind-Ensures (λ _. ⊥) (λ _. ⊥) _ f (exchange-Ensures conn (λ _. ⊥) command body n (silent n))
        (λ _ none_. elim none_ [ ])

  read-Fails :
      {A : Type 0} (e : ClientError) (n : ℕ) (f : Bytes → Action C A)
      → Fails (read_raw conn e n >>= f)
  read-Fails e n f =
      bind-Ensures (λ _. ⊥) (λ _. ⊥) _ f (read_raw-Ensures conn (λ _. ⊥) e n (silent n))
        (λ _ none_. elim none_ [ ])

  transmit-Fails :
      (card : CardConn) (apdu : Bytes) (size : ℕ) → Fails (transmit conn card apdu size)
  unfolding transmit
  transmit-Fails card apdu size = elim (Bool-cases (length apdu == 0)) [
    | inl empty ↦ rw empty (raise-Ensures (λ _. ⊥) _)
    | inr full ↦ rw full (
        then-Ensures (λ _. ⊥) _ _
          (then-Ensures (λ _. ⊥) _ _ (then-Ensures (λ _. ⊥) _ _ (read-Fails _ 32 _))))
  ]

  connect-Fails : (reader : Bytes) (preferred : ℕ) → Fails (connect conn reader preferred)
  unfolding connect
  connect-Fails reader preferred cl = elim (Bool-cases (leb 128 (length reader))) [
    | inl long ↦ rw long (raise-Ensures (λ _. ⊥) _ cl)
    | inr short ↦ rw short (exchange-Fails _ _ 152 _ cl)
  ]

  -- A withdrawn registration is never a change.
  last_signal-Fails :
      (g : Got) (c : C) (cl : Client C) → Returned (λ _. ⊥) (last_signal conn (g, c) cl)
  unfolding last_signal
  last_signal-Fails (got b) c cl = then-Ensures (λ _. ⊥) _ _ (raise-Ensures (λ _. ⊥) _) _
  last_signal-Fails timed_out c cl = raise-Ensures (λ _. ⊥) _ _
  last_signal-Fails broken c cl = raise-Ensures (λ _. ⊥) _ _

  stop_wait-Fails : (request : Bytes) → Fails (stop_wait conn request)
  unfolding stop_wait
  stop_wait-Fails request =
      then-Ensures (λ _. ⊥) _ _
        (then-Ensures (λ _. ⊥) _ _
          (λ cl. last_signal-Fails (conn.read 8 cl.conn).0 (conn.read 8 cl.conn).1 cl))

  signalled-Fails :
      (request : Bytes) (g : Got) (c : C) (cl : Client C)
      → Brought (λ _. ⊥) g
      → Returned (λ _. ⊥) (signalled conn request (g, c) cl)
  unfolding signalled Brought
  signalled-Fails request (got b) c cl h = elim h [ ]
  signalled-Fails request timed_out c cl h = stop_wait-Fails request _
  signalled-Fails request broken c cl h = raise-Ensures (λ _. ⊥) _ _

  wait_change-Fails : (timeout : ℕ) → Fails (wait_change conn timeout)
  unfolding wait_change wait_change_new wait_change_old
  wait_change-Fails timeout cl = elim (Bool-cases (leb 4 cl.minor)) [
    | inl new ↦
        rw new (then-Ensures (λ _. ⊥) _ _ (then-Ensures (λ _. ⊥) _ _ (read-Fails _ 2944 _)) cl)
    | inr old ↦ rw old (
        then-Ensures (λ _. ⊥) _ _
          (then-Ensures (λ _. ⊥) _ _
            (λ cl'.
              signalled-Fails _ (conn.read 8 cl'.conn).0 (conn.read 8 cl'.conn).1 cl'
                (silent 8 cl'.conn)))
          cl)
  ]

  states-Fails : Fails (states conn)
  unfolding states
  states-Fails = then-Ensures (λ _. ⊥) _ _ (then-Ensures (λ _. ⊥) _ _ (read-Fails _ 2944 _))

  handshake-Fails : Fails (handshake conn)
  unfolding handshake handshake_rounds
  handshake-Fails = then-Ensures (λ _. ⊥) _ _ (read-Fails _ 12 _)

  establish-Fails : Fails (establish conn)
  unfolding establish
  establish-Fails = exchange-Fails _ _ 12 _

  get_attrib-Fails : (card : CardConn) (attribute : ℕ) → Fails (get_attrib conn card attribute)
  unfolding get_attrib
  get_attrib-Fails card attribute = exchange-Fails _ _ 280 _

  disconnect-Fails : (card : CardConn) (disposition : ℕ) → Fails (disconnect conn card disposition)
  unfolding disconnect
  disconnect-Fails card disposition = exchange-Fails _ _ 12 _

-- Over a connection whose reads bring nothing, by an error or by the deadline, no call of the client
-- returns a value: not the handshake and the context, not the reader states and the wait for a
-- change, not the connection to a card, an exchange with it, an attribute of it and its release.
pub silent_calls-Fails :
    {C : Type 0} (conn : Conn C) (reader apdu : Bytes) (card : CardConn) (number size : ℕ)
    → IsSilent conn
    → Fails (handshake conn)
      × Fails (establish conn)
      × Fails (states conn)
      × Fails (wait_change conn number)
      × Fails (connect conn reader number)
      × Fails (transmit conn card apdu size)
      × Fails (get_attrib conn card number)
      × Fails (disconnect conn card number)
silent_calls-Fails conn reader apdu card number size silent = (
  handshake-Fails conn silent,
  establish-Fails conn silent,
  states-Fails conn silent,
  wait_change-Fails conn silent number,
  connect-Fails conn silent reader number,
  transmit-Fails conn silent card apdu size,
  get_attrib-Fails conn silent card number,
  disconnect-Fails conn silent card number,
)
