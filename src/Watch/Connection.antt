-- ===== src/Watch/Connection.antt =====
-- pcscid.go: the loops of `pollLoop` and `watchLoop` around the rounds, over the calls of the client
-- and the clock. A watch that is not cancelled does not end: here it is a number of steps.
use pcscid.Common.{ℕ, zero, suc, Bool, true, false, List, [], ◌∷◌, Option, none, some, Bytes, Table}
use pcscid.Units.{Facts}
use pcscid.Watch.{fresh_connection, Loop, poll_round}
use pcscid.Wire.States.{ReaderState}

-- What `WaitChange` returns.
pub data Waited : Type 0 where
  changed timed_out lost : Waited

-- The calls of the loops: `States`, `WaitChange`, the pause of `sleepCtx`, and `pcsc.New`, which
-- tells whether it connected.
pub record Connection (W : Type 0) : Type 0 where
  pub states : W → Option (List ReaderState) × W
  pub wait_change : ℕ → W → Waited × W
  pub sleep : ℕ → W → W
  pub reconnect : W → Bool × W

abbrev pub reconnect_delay : ℕ
reconnect_delay = 500

abbrev pub wait_tick : ℕ
wait_tick = 250

module _ (sha256 : Bytes → Bytes) (machine : Bytes) {W : Type 0}
    (probe : Bytes → Table Bytes → Facts → W → Facts × W) (conn : Connection W) where
  abbrev pub Watched : Type 0
  Watched = Loop sha256 machine probe

  abbrev pub with_world : W → Watched → Watched
  with_world world l = record l { world = world }

  -- Whether the connection is left, behind the wait.
  unfoldable pub waited : Waited × W → Watched → Bool × Watched
  waited (changed, w) l = (true, with_world w l)
  waited (timed_out, w) l = (true, with_world w l)
  waited (lost, w) l = (false, with_world w l)

  -- Without a reader there is nothing to wait on.
  unfoldable pub await : List ReaderState → Watched → Bool × Watched
  unfolding waited
  await [] l = (true, with_world (conn.sleep reconnect_delay l.world) l)
  await (st ∷ states) l = waited (conn.wait_change wait_tick l.world) l

  unfoldable pub poll_on : Option (List ReaderState) × W → Watched → Bool × Watched
  unfolding await poll_round
  poll_on (none, w) l = (false, with_world w l)
  poll_on (some states, w) l =
      await states (poll_round sha256 machine probe states (with_world w l))

  -- A turn of `pollLoop`.
  unfoldable pub poll : Watched → Bool × Watched
  unfolding poll_on
  poll l = poll_on (conn.states l.world) l

  -- An attempt of `watchLoop` to reconnect; a new connection starts `pollLoop` over.
  unfoldable pub dialled : Bool × W → Watched → Bool × Watched
  unfolding fresh_connection
  dialled (true, w) l = (true, record l { world = w; tracking = fresh_connection l.tracking })
  dialled (false, w) l = (false, with_world w l)

  -- A step, on a connection or without one.
  unfoldable pub watch_step : Bool × Watched → Bool × Watched
  unfolding poll dialled
  watch_step (true, l) = poll l
  watch_step (false, l) = dialled (conn.reconnect (conn.sleep reconnect_delay l.world)) l

  unfoldable pub watch_loop : ℕ → Bool × Watched → Bool × Watched
  unfolding watch_step
  watch_loop zero l = l
  watch_loop (suc n) l = watch_loop n (watch_step l)
