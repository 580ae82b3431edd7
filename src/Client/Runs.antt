-- ===== src/Client/Runs.antt =====
-- How the steps of a call of pcsc/ipc.go run when the connection goes along.
use pcscid.Client.{
  got, Conn, ClientError, Client, Action, ◌>>=◌, ◌>>◌, sent, received, write, set_deadline,
  read_raw, raise,
}
use pcscid.Common.{ℕ, true, Bytes, ok, err, ◌≡◌, ap}

module _ {C A B : Type 0} where
  pub bind-ok :
      (m : Action C A) (f : A → Action C B) (cl cl' : Client C) (a : A)
      → m cl ≡ (ok a, cl')
      → (m >>= f) cl ≡ f a cl'
  unfolding ◌>>=◌
  bind-ok m f cl cl' a e = ap (λ (r, c). elim r [ ok a ↦ f a c | err e ↦ raise e c ]) e

  pub bind-err :
      (m : Action C A) (f : A → Action C B) (cl cl' : Client C) (x : ClientError)
      → m cl ≡ (err x, cl')
      → (m >>= f) cl ≡ (err x, cl')
  unfolding ◌>>=◌
  bind-err m f cl cl' x e = ap (λ (r, c). elim r [ ok a ↦ f a c | err e ↦ raise e c ]) e

module _ {C B : Type 0} where
  pub then-ok :
      (m : Action C (Unit {0})) (k : Action C B) (cl cl' : Client C)
      → m cl ≡ (ok tt, cl')
      → (m >> k) cl ≡ k cl'
  unfolding ◌>>◌
  then-ok m k cl cl' e = bind-ok m (λ _. k) cl cl' tt e

module _ {C : Type 0} (conn : Conn C) where
  pub write-ok :
      (x : ClientError) (b : Bytes) (cl : Client C) (c : C)
      → conn.write b cl.conn ≡ (true, c)
      → write conn x b cl ≡ (ok tt, record cl { conn = c })
  unfolding write
  write-ok x b cl c e = ap (λ r. sent conn x r cl) e

  pub read-ok :
      (x : ClientError) (n : ℕ) (cl : Client C) (b : Bytes) (c : C)
      → conn.read n cl.conn ≡ (got b, c)
      → read_raw conn x n cl ≡ (ok b, record cl { conn = c })
  unfolding read_raw
  read-ok x n cl b c e = ap (λ r. received conn x r cl) e

  pub deadline-ok :
      (ms : ℕ) (cl : Client C)
      → conn.set_deadline ms cl.conn ≡ (true, cl.conn)
      → set_deadline conn ms cl ≡ (ok tt, cl)
  unfolding set_deadline
  deadline-ok ms cl e = ap (λ r. sent conn ClientError.no_deadline r cl) e
