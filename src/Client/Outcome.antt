-- ===== src/Client/Outcome.antt =====
-- How the calls of pcsc/ipc.go come out: what the value of a call and the bytes of a read satisfy.
use pcscid.Client.{
  Got, got, timed_out, broken, Conn, ClientError, Client, Action, raise, ◌>>=◌, ◌>>◌, received,
  read_raw, exchange,
}
use pcscid.Common.{ℕ, Bytes, length, Result, ok, err, ◌≡◌}

-- What holds of a call's value, when it returns one.
unfoldable pub Returned : {C A : Type 0} → (A → Type 0) → Result ClientError A × Client C → Type 0
Returned P (ok a, cl) = P a
Returned P (err e, cl) = Unit

abbrev pub Ensures : {C A : Type 0} → (A → Type 0) → Action C A → Type 0
Ensures {C} P m = (cl : Client C) → Returned P (m cl)

module _ {C A B : Type 0} (P : B → Type 0) (Q : A → Type 0) where
  after-Ensures :
      (f : A → Action C B) (r : Result ClientError A) (cl : Client C)
      → Returned {C = C} Q (r, cl)
      → ((a : A) → Q a → Ensures P (f a))
      → Returned {C = C} P (elim r [ ok a ↦ f a cl | err e ↦ raise e cl ])
  unfolding Returned
  after-Ensures f (ok a) cl q k = k a q cl
  after-Ensures f (err e) cl q k = tt

  -- What every continuation ensures, the chain ensures.
  pub bind-Ensures :
      (m : Action C A) (f : A → Action C B)
      → Ensures Q m
      → ((a : A) → Q a → Ensures P (f a))
      → Ensures P (m >>= f)
  unfolding ◌>>=◌
  bind-Ensures m f h k cl = after-Ensures f (m cl).0 (m cl).1 (h cl) k

module _ {C A : Type 0} where
  any-Returned :
      (r : Result ClientError A) (cl : Client C) → Returned {C = C} (λ _. Unit {0}) (r, cl)
  unfolding Returned
  any-Returned (ok a) cl = tt
  any-Returned (err e) cl = tt

  pub any-Ensures : (m : Action C A) → Ensures (λ _. Unit {0}) m
  any-Ensures m cl = any-Returned (m cl).0 (m cl).1

module _ {C B : Type 0} (P : B → Type 0) where
  pub then-Ensures : (m : Action C (Unit {0})) (k : Action C B) → Ensures P k → Ensures P (m >> k)
  unfolding ◌>>◌
  then-Ensures m k h = bind-Ensures P (λ _. Unit) m (λ _. k) (any-Ensures m) (λ _ _. h)

  pub raise-Ensures : (e : ClientError) → Ensures {C = C} P (raise e)
  unfolding Returned
  raise-Ensures e cl = tt

-- What holds of the bytes of a read that brings some.
unfoldable pub Brought : (Bytes → Type 0) → Got → Type 0
Brought P (got b) = P b
Brought P timed_out = Unit
Brought P broken = Unit

pub Brought-mono :
    {P Q : Bytes → Type 0} → ((b : Bytes) → P b → Q b) → (g : Got) → Brought P g → Brought Q g
unfolding Brought
Brought-mono f (got b) h = f b h
Brought-mono f timed_out h = tt
Brought-mono f broken h = tt

module _ {C : Type 0} (conn : Conn C) (P : Bytes → Type 0) where
  received-Returned :
      (e : ClientError) (g : Got) (c : C) (cl : Client C)
      → Brought P g
      → Returned P (received conn e (g, c) cl)
  unfolding Returned Brought
  received-Returned e (got b) c cl h = h
  received-Returned e timed_out c cl h = tt
  received-Returned e broken c cl h = tt

  pub read_raw-Ensures :
      (e : ClientError) (n : ℕ)
      → ((c : C) → Brought P (conn.read n c).0)
      → Ensures P (read_raw conn e n)
  unfolding read_raw
  read_raw-Ensures e n h cl =
      received-Returned e (conn.read n cl.conn).0 (conn.read n cl.conn).1 cl (h cl.conn)

  pub exchange-Ensures :
      (command : ℕ) (body : Bytes) (n : ℕ)
      → ((c : C) → Brought P (conn.read n c).0)
      → Ensures P (exchange conn command body n)
  unfolding exchange
  exchange-Ensures command body n h =
      then-Ensures P _ _ (then-Ensures P _ _ (read_raw-Ensures _ n h))

-- The calls that fail whatever the connection was in before.
abbrev pub Fails : {C A : Type 0} → Action C A → Type 0
Fails m = Ensures (λ _. ⊥) m

-- A connection whose reads bring nothing.
abbrev pub IsSilent : {C : Type 0} → Conn C → Type 0
IsSilent {C} conn = (n : ℕ) (c : C) → Brought (λ _. ⊥) (conn.read n c).0

-- A connection whose reads bring what was asked for, as `io.ReadFull` does.
abbrev pub IsFull : {C : Type 0} → Conn C → Type 0
IsFull {C} conn = (n : ℕ) (c : C) → Brought (λ b. length b ≡ n) (conn.read n c).0
