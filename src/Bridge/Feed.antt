-- ===== src/Bridge/Feed.antt =====
-- bridge.go, `NewBridge`, `Bridge.Feed` and `Bridge.signedLine`. A signer is its `Sign` method.
use pcscid.Common.{ℕ, ◌*◌, [], ◌∷◌, ◌++◌, Option, none, some, Bytes, codes, ltb, if◌then◌else◌}
use pcscid.Bridge.Dedup.{Dedup, allow, new_bridge_dedup}
use pcscid.Bridge.Hub.{Hub, add, new_bridge_hub}
use pcscid.Event.{Event, Kind, insert, remove, Card}
use pcscid.Tags.{reader_tag_with_unit}

abbrev pub Sign : Type 0
Sign = Bytes → Bytes

pub record Bridge : Type 0 where
  pub hub : Hub
  pub dedup : Dedup
  pub signer : Option Sign

-- `BridgeOptions`; a field that is not positive selects the default, so 0 stands for all of those.
pub record BridgeOptions : Type 0 where
  pub capacity : ℕ
  pub dedup_window : ℕ
  pub startup_grace : ℕ
  pub signer : Option Sign

-- Nanoseconds.
abbrev pub second : ℕ
second = 1000000000

abbrev pub default_options : BridgeOptions
default_options = record {
  capacity = 64;
  dedup_window = 3 * second;
  startup_grace = 2 * second;
  signer = none;
}

unfoldable pub or_default : ℕ → ℕ → ℕ
or_default n default = if ltb 0 n then n else default

unfoldable pub new_bridge : ℕ → Option BridgeOptions → Bridge
unfolding or_default new_bridge_hub new_bridge_dedup
new_bridge now none = record {
  hub = new_bridge_hub 64;
  dedup = new_bridge_dedup now (3 * second) (2 * second);
  signer = none;
}
new_bridge now (some opts) = record {
  hub = new_bridge_hub (or_default opts.capacity 64);
  dedup =
      new_bridge_dedup now (or_default opts.dedup_window (3 * second))
        (or_default opts.startup_grace (2 * second));
  signer = opts.signer;
}

-- "#<reader>:<card>", the exact output line.
unfoldable pub output_line : Bytes → Bytes → Bytes
output_line reader card = codes "#" ++ (reader ++ (codes ":" ++ card))

unfoldable pub signed_line : Option Sign → Bytes → Bytes → Bytes
unfolding output_line
signed_line none reader card = []
signed_line (some sign) reader card = sign (output_line reader card)

-- The tag of an event: its own, or the local derivation where it carries none.
unfoldable pub event_tag : (Bytes → Bytes) → Event → Bytes
event_tag sha256 ev = elim ev.reader_tag [
  | [] ↦ reader_tag_with_unit sha256 ev.reader ev.reader_serial ev.reader_port
  | c ∷ tag ↦ c ∷ tag
]

-- `Feed` past its first test, on the reader tag and the btag.
unfoldable pub present : ℕ → Bytes → Bytes → Bridge → Bridge
unfolding allow add signed_line
present now reader card b =
    let (dedup, allowed) = allow now reader card b.dedup in
    if allowed
    then record b {
      dedup = dedup;
      hub = (add reader card (signed_line b.signer reader card) b.hub).0;
    }
    else record b { dedup = dedup }

unfoldable pub feed_kind : (Bytes → Bytes) → ℕ → Event → Kind → Option Card → Bridge → Bridge
unfolding present event_tag
feed_kind sha256 now ev remove card b = b
feed_kind sha256 now ev insert none b = b
feed_kind sha256 now ev insert (some card) b = present now (event_tag sha256 ev) card.id b

unfoldable pub feed : (Bytes → Bytes) → ℕ → Event → Bridge → Bridge
unfolding feed_kind
feed sha256 now ev b = feed_kind sha256 now ev ev.kind ev.card b
