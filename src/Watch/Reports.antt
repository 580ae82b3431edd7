-- ===== src/Watch/Reports.antt =====
-- The events of a watch across its connections.
use pcscid.Common.{
  ℕ, zero, suc, Bool, true, false, List, [], ◌∷◌, Option, none, some, Bytes, Table, All,
}
use pcscid.Units.{Facts}
use pcscid.Watch.Connection.{
  Waited, changed, timed_out, lost, Connection, Watched, with_world, waited, await, poll_on, poll,
  dialled, watch_step, watch_loop,
}
use pcscid.Watch.Insertions.{IsReport, poll_rounds-IsReport}
use pcscid.Watch.{poll_rounds}
use pcscid.Wire.States.{ReaderState}

module _ (sha256 : Bytes → Bytes) (machine : Bytes) {W : Type 0}
    (probe : Bytes → Table Bytes → Facts → W → Facts × W) (conn : Connection W) where
  -- The events so far are reports.
  abbrev AreReports : Watched sha256 machine probe conn → Type 0
  AreReports l = All (IsReport sha256 machine) l.events

  waited-AreReports :
      (r : Waited × W) (l : Watched sha256 machine probe conn)
      → AreReports l
      → AreReports (waited sha256 machine probe conn r l).1
  unfolding waited
  waited-AreReports (changed, w) l h = h
  waited-AreReports (timed_out, w) l h = h
  waited-AreReports (lost, w) l h = h

  await-AreReports :
      (states : List ReaderState) (l : Watched sha256 machine probe conn)
      → AreReports l
      → AreReports (await sha256 machine probe conn states l).1
  unfolding await
  await-AreReports [] l h = h
  await-AreReports (st ∷ states) l h = waited-AreReports (conn.wait_change 250 l.world) l h

  poll_on-AreReports :
      (r : Option (List ReaderState) × W) (l : Watched sha256 machine probe conn)
      → AreReports l
      → AreReports (poll_on sha256 machine probe conn r l).1
  unfolding poll_on poll_rounds
  poll_on-AreReports (none, w) l h = h
  poll_on-AreReports (some states, w) l h = await-AreReports states _ (
      poll_rounds-IsReport sha256 machine probe (states ∷ [])
        (with_world sha256 machine probe conn w l) h)

  dialled-AreReports :
      (r : Bool × W) (l : Watched sha256 machine probe conn)
      → AreReports l
      → AreReports (dialled sha256 machine probe conn r l).1
  unfolding dialled
  dialled-AreReports (true, w) l h = h
  dialled-AreReports (false, w) l h = h

  step-AreReports :
      (b : Bool) (l : Watched sha256 machine probe conn)
      → AreReports l
      → AreReports (watch_step sha256 machine probe conn (b, l)).1
  unfolding watch_step poll
  step-AreReports true l h = poll_on-AreReports (conn.states l.world) l h
  step-AreReports false l h = dialled-AreReports (conn.reconnect (conn.sleep 500 l.world)) l h

  -- Whatever the client answers, and however often the connection is lost, every event of a watch is
  -- a report.
  watch_loop-AreReports :
      (n : ℕ) (b : Bool) (l : Watched sha256 machine probe conn)
      → AreReports l
      → AreReports (watch_loop sha256 machine probe conn n (b, l)).1
  unfolding watch_loop
  watch_loop-AreReports zero b l h = h
  watch_loop-AreReports (suc n) b l h =
      let next = watch_step sha256 machine probe conn (b, l) in
      watch_loop-AreReports n next.0 next.1 (step-AreReports b l h)
