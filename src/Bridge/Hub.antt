-- ===== src/Bridge/Hub.antt =====
-- bridge.go, `bridgeHub`: the ring of presentations and the subscribers' channels. Each method
-- holds the mutex from start to end, so a run is a sequence of calls.
pub mod Ring
pub mod Polling
pub mod Queues
use pcscid.Common.{
  ℕ, ◌+◌, ◌-◌, ◌%◌, ◌^◌, Bool, true, false, not, List, [], ◌∷◌, ◌++◌, Bytes, length, drop, ltb,
  ◌==◌, if◌then◌else◌,
}

-- An int64 is its bit pattern, below 2 ^ 64. `int64_lt` compares the signed values.
abbrev pub int64_mod : ℕ
int64_mod = 2 ^ 64

unfoldable pub int64_lt : ℕ → ℕ → Bool
int64_lt a b = ltb ((a + 2 ^ 63) % int64_mod) ((b + 2 ^ 63) % int64_mod)

pub record BridgeEvent : Type 0 where
  pub id : ℕ
  pub reader : Bytes
  pub card : Bytes
  pub sig : Bytes

-- A subscriber's buffered channel: its identity, and what it holds, oldest first.
pub record Channel : Type 0 where
  pub chan : ℕ
  pub queue : List BridgeEvent

-- `made` counts the channels that were made: the next one is new.
pub record Hub : Type 0 where
  pub next : ℕ
  pub cap : ℕ
  pub buf : List BridgeEvent
  pub subs : List Channel
  pub made : ℕ

abbrev pub channel_size : ℕ
channel_size = 16

unfoldable pub new_bridge_hub : ℕ → Hub
new_bridge_hub capacity = record { next = 0; cap = capacity; buf = []; subs = []; made = 0 }

-- `h.buf = h.buf[len(h.buf)-h.cap:]` where the ring is over its capacity.
unfoldable pub trim : ℕ → List BridgeEvent → List BridgeEvent
trim cap buf = if ltb cap (length buf) then drop (length buf - cap) buf else buf

-- `select { case ch <- ev: default: }`: a full channel is passed over.
unfoldable pub offer : BridgeEvent → Channel → Channel
offer ev c =
    if ltb (length c.queue) channel_size then record c { queue = c.queue ++ ev ∷ [] } else c

unfoldable pub broadcast : BridgeEvent → List Channel → List Channel
unfolding offer
broadcast ev [] = []
broadcast ev (c ∷ cs) = offer ev c ∷ broadcast ev cs

unfoldable pub add : Bytes → Bytes → Bytes → Hub → Hub × BridgeEvent
unfolding trim broadcast
add reader card sig h =
    let next = (h.next + 1) % int64_mod in
    let ev : BridgeEvent = record { id = next; reader = reader; card = card; sig = sig } in
    (record h { next = next; buf = trim h.cap (h.buf ++ ev ∷ []); subs = broadcast ev h.subs }, ev)

-- The loop of `since`.
unfoldable pub later_than : ℕ → List BridgeEvent → List BridgeEvent
unfolding int64_lt
later_than after [] = []
later_than after (ev ∷ evs) =
    if int64_lt after ev.id then ev ∷ later_than after evs else later_than after evs

unfoldable pub since : ℕ → Hub → List BridgeEvent
unfolding later_than
since after h = later_than after h.buf

unfoldable pub subscribe : Hub → Hub × ℕ
subscribe h =
    (record h { subs = record { chan = h.made; queue = [] } ∷ h.subs; made = h.made + 1 }, h.made)

pub remove_channel : ℕ → List Channel → List Channel
remove_channel ch [] = []
remove_channel ch (c ∷ cs) = if c.chan == ch then remove_channel ch cs else c ∷ remove_channel ch cs

-- The function that `subscribe` returns.
unfoldable pub cancel : ℕ → Hub → Hub
unfolding remove_channel
cancel ch h = record h { subs = remove_channel ch h.subs }

-- `ev := <-ch` of the stream handler takes the oldest event.
unfoldable pub take_oldest : Channel → Channel
take_oldest c = elim c.queue [ [] ↦ c | ev ∷ evs ↦ record c { queue = evs } ]

pub receive_from : ℕ → List Channel → List Channel
receive_from ch [] = []
receive_from ch (c ∷ cs) = (if c.chan == ch then take_oldest c else c) ∷ receive_from ch cs

unfoldable pub receive : ℕ → Hub → Hub
unfolding receive_from take_oldest
receive ch h = record h { subs = receive_from ch h.subs }

-- A presentation before it has its number.
pub record Item : Type 0 where
  pub reader : Bytes
  pub card : Bytes
  pub sig : Bytes

pub data Call : Type 0 where
  adds : Item → Call
  subscribes : Call
  cancels : ℕ → Call
  receives : ℕ → Call

unfoldable pub step : Call → Hub → Hub
unfolding add subscribe cancel receive
step (adds x) h = (add x.reader x.card x.sig h).0
step subscribes h = (subscribe h).0
step (cancels ch) h = cancel ch h
step (receives ch) h = receive ch h

unfoldable pub run : List Call → Hub → Hub
unfolding step
run [] h = h
run (c ∷ cs) h = run cs (step c h)
