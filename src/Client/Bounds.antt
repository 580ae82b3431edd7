-- ===== src/Client/Bounds.antt =====
-- What the calls of pcsc/ipc.go return at most, whatever the daemon sends.
use pcscid.Client.{Conn, pure}
use pcscid.Client.Calls.{states, transmit, read_response, get_attrib}
use pcscid.Common.{ℕ, ◌≤◌, Bool-cases, [], Bytes, length, ltb, ◌==◌, arith, inl, inr}
use pcscid.Uid.{CardConn}
use pcscid.Client.Outcome.{
  Returned, Ensures, IsFull, Brought-mono, bind-Ensures, then-Ensures, raise-Ensures,
  read_raw-Ensures, any-Ensures,
}
use pcscid.Common.{All, List}
use pcscid.Wire.States.{ReaderState}
use pcscid.Wire.Hostile.{IsBounded, states-IsBounded}

abbrev pub IsShort : Bytes → Type 0
IsShort b = length b ≤ 264

abbrev pub AreBounded : List ReaderState → Type 0
AreBounded rs = All IsBounded rs × (length rs ≤ 16)

module _ {C : Type 0} (conn : Conn C) where
  return-Ensures : {A : Type 0} (P : A → Type 0) (a : A) → P a → Ensures {C = C} P (pure a)
  unfolding Returned
  return-Ensures P a h cl = h

  read_response-IsShort :
      (full : IsFull conn) (size : ℕ) → Ensures IsShort (read_response conn size)
  unfolding read_response
  read_response-IsShort full size = elim (Bool-cases (ltb 264 size)) [
    | inl large ↦ rw large (raise-Ensures IsShort _)
    | inr fits ↦ rw fits (
        read_raw-Ensures conn IsShort _ size
          (λ c. Brought-mono (λ b h. ground (arith, h, fits)) (conn.read size c).0 (full size c)))
  ]

  transmit-IsShort :
      (full : IsFull conn) (card : CardConn) (apdu : Bytes) (size : ℕ)
      → Ensures IsShort (transmit conn card apdu size)
  unfolding transmit
  transmit-IsShort full card apdu size = elim (Bool-cases (length apdu == 0)) [
    | inl empty ↦ rw empty (raise-Ensures IsShort _)
    | inr some_ ↦ rw some_ (
        then-Ensures IsShort _ _ (
          then-Ensures IsShort _ _ (
            then-Ensures IsShort _ _ (
              bind-Ensures IsShort (λ _. Unit {0}) _ _ (any-Ensures _)
                (λ body _. then-Ensures IsShort _ _ (read_response-IsShort full _))))))
  ]

  states-AreBounded : Ensures AreBounded (states conn)
  unfolding states
  states-AreBounded = then-Ensures AreBounded _ _ (
      then-Ensures AreBounded _ _ (
        bind-Ensures AreBounded (λ _. Unit {0}) _ _ (any-Ensures _)
          (λ raw _. let b = states-IsBounded raw [] in return-Ensures AreBounded _ (b.0, b.1))))

  get_attrib-IsShort :
      (card : CardConn) (attribute : ℕ) → Ensures IsShort (get_attrib conn card attribute)
  unfolding get_attrib
  get_attrib-IsShort card attribute =
      bind-Ensures IsShort (λ _. Unit {0}) _ _ (any-Ensures _)
        (λ body _. then-Ensures IsShort _ _ (return-Ensures IsShort _ (states-IsBounded [] body).2))

-- Over a connection whose reads bring as many bytes as were asked for, whatever bytes, an exchange
-- with a card returns at most 264 bytes, whatever limit was asked for, an attribute has at most 264,
-- and the reader states are at most sixteen, each with a name of 1 to 128 bytes and an ATR of at
-- most 33.
pub calls-AreBounded :
    {C : Type 0} (conn : Conn C) (card : CardConn) (apdu : Bytes) (size attribute : ℕ)
    → IsFull conn
    → Ensures IsShort (transmit conn card apdu size)
      × Ensures IsShort (get_attrib conn card attribute)
      × Ensures AreBounded (states conn)
calls-AreBounded conn card apdu size attribute full = (
  transmit-IsShort conn full card apdu size,
  get_attrib-IsShort conn card attribute,
  states-AreBounded conn,
)
