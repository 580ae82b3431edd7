-- ===== src/Bridge/Hub/Queues.antt =====
-- The subscribers' channels.
use pcscid.Common.{
  ℕ, ◌+◌, ◌^◌, ◌≤◌, ◌<◌, List, [], ◌∷◌, ◌++◌, arith, All, length, length-append, List-cases, inl,
  inr,
}
use pcscid.Bridge.Hub.{
  Hub, BridgeEvent, Channel, Call, adds, subscribes, cancels, receives, channel_size, offer,
  broadcast, add, subscribe, cancel, remove_channel, receive, receive_from, take_oldest, step, run,
}

-- The numbers rise from above `lo` to at most `hi`.
abbrev pub Rising : ℕ → ℕ → List BridgeEvent → Type 0
Rising lo hi [] = lo ≤ hi
Rising lo hi (ev ∷ evs) = (lo < ev.id) × Rising ev.id hi evs

Rising-snoc :
    (lo hi : ℕ) (evs : List BridgeEvent) (ev : BridgeEvent)
    → Rising lo hi evs
    → hi < ev.id
    → Rising lo ev.id (evs ++ ev ∷ [])
Rising-snoc lo hi [] ev r h = (omega arith, omega arith)
Rising-snoc lo hi (e ∷ evs) ev r h = (r.0, Rising-snoc e.id hi evs ev r.1 h)

Rising-mono :
    (lo hi hi' : ℕ) (evs : List BridgeEvent) → Rising lo hi evs → hi ≤ hi' → Rising lo hi' evs
Rising-mono lo hi hi' [] r h = omega arith
Rising-mono lo hi hi' (e ∷ evs) r h = (r.0, Rising-mono e.id hi hi' evs r.1 h)

Rising-down :
    (lo lo' hi : ℕ) (evs : List BridgeEvent) → Rising lo hi evs → lo' ≤ lo → Rising lo' hi evs
Rising-down lo lo' hi [] r h = omega arith
Rising-down lo lo' hi (e ∷ evs) r h = (omega arith, r.1)

-- A channel holds at most sixteen events, in the order of their numbers and none twice.
pub record Ordered (hi : ℕ) (c : Channel) : Type 0 where
  pub bounded : length c.queue ≤ channel_size
  pub rising : Rising 0 hi c.queue

offer-Ordered :
    (hi : ℕ) (c : Channel) (ev : BridgeEvent)
    → Ordered hi c
    → hi < ev.id
    → Ordered ev.id (offer ev c)
unfolding offer
offer-Ordered hi c ev o h = ground (
  arith,
  o.bounded,
  length-append {0} c.queue (ev ∷ []),
  Rising-snoc 0 hi c.queue ev o.rising h,
  Rising-mono 0 hi ev.id c.queue o.rising,
)

broadcast-Ordered :
    (hi : ℕ) (cs : List Channel) (ev : BridgeEvent)
    → All (Ordered hi) cs
    → hi < ev.id
    → All (Ordered ev.id) (broadcast ev cs)
unfolding broadcast
broadcast-Ordered hi [] ev o h = tt
broadcast-Ordered hi (c ∷ cs) ev o h =
    (offer-Ordered hi c ev o.0 h, broadcast-Ordered hi cs ev o.1 h)

take_oldest-Ordered : (hi : ℕ) (c : Channel) → Ordered hi c → Ordered hi (take_oldest c)
unfolding take_oldest
take_oldest-Ordered hi c o = elim (List-cases c.queue) [
  | inl e ↦ rw (e, take_oldest) o
  | inr (ev, evs, e) ↦
      let bounded : length (ev ∷ evs) ≤ channel_size = rw e at o.bounded in
      let rising : Rising 0 hi (ev ∷ evs) = rw e at o.rising in
      rw (e, take_oldest)
        (record {
          bounded = omega arith;
          rising = Rising-down ev.id 0 hi evs rising.1 (omega arith);
        })
]

receive_from-Ordered :
    (hi ch : ℕ) (cs : List Channel) → All (Ordered hi) cs → All (Ordered hi) (receive_from ch cs)
unfolding receive_from
receive_from-Ordered hi ch [] o = tt
receive_from-Ordered hi ch (c ∷ cs) o =
    (ground (arith, take_oldest-Ordered hi c o.0), receive_from-Ordered hi ch cs o.1)

remove_channel-Ordered :
    (hi ch : ℕ) (cs : List Channel) → All (Ordered hi) cs → All (Ordered hi) (remove_channel ch cs)
unfolding remove_channel
remove_channel-Ordered hi ch [] o = tt
remove_channel-Ordered hi ch (c ∷ cs) o = ground (arith, o.0, remove_channel-Ordered hi ch cs o.1)

step-Ordered :
    (c : Call) (h : Hub)
    → h.next + 1 < 2 ^ 63
    → All (Ordered h.next) h.subs
    → All (Ordered (step c h).next) (step c h).subs
unfolding step add subscribe cancel receive
step-Ordered (adds x) h small o = broadcast-Ordered h.next h.subs _ o (omega arith)
step-Ordered subscribes h small o = (record { bounded = omega arith; rising = omega arith }, o)
step-Ordered (cancels ch) h small o = remove_channel-Ordered h.next ch h.subs o
step-Ordered (receives ch) h small o = receive_from-Ordered h.next ch h.subs o

next-step-le : (c : Call) (h : Hub) → h.next + 1 < 2 ^ 63 → (step c h).next ≤ h.next + 1
unfolding step add subscribe cancel receive
next-step-le (adds x) h small = omega arith
next-step-le subscribes h small = omega arith
next-step-le (cancels ch) h small = omega arith
next-step-le (receives ch) h small = omega arith

-- As long as the number of the last event and the number of the calls stay below 2 ^ 63 together, and
-- at the start every subscriber's channel holds at most sixteen events, in the order of their numbers,
-- none twice and none newer than the last one, this is so after the calls, whichever they are: no
-- channel grows beyond sixteen events, and each holds events in the order of their numbers, none twice.
pub run-Ordered :
    (cs : List Call) (h : Hub)
    → h.next + length cs < 2 ^ 63
    → All (Ordered h.next) h.subs
    → All (Ordered (run cs h).next) (run cs h).subs
unfolding run
run-Ordered [] h small o = o
run-Ordered (c ∷ cs) h small o =
    run-Ordered cs (step c h) (omega (arith, next-step-le c h (omega arith)))
      (step-Ordered c h (omega arith) o)
