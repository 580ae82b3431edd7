-- ===== src/Cli/Lines.antt =====
-- What stdout and the bridge say of one presentation.
use pcscid.Common.{ℕ, ◌+◌, ◌%◌, true, [], ◌∷◌, ◌++◌, Option, none, some, ◌≡◌, refl, Bytes, codes}
use pcscid.Bridge.Dedup.{allow}
use pcscid.Bridge.Feed.{Sign, Bridge, output_line, signed_line, event_tag, present, feed}
use pcscid.Bridge.Hub.{BridgeEvent, add, trim, int64_mod}
use pcscid.Cli.{line, print_signed, print_event}
use pcscid.Event.{Event, insert, Card}

-- The line rebuilt from a bridge event, with its signature if the bridge signs.
abbrev pub rebuilt : Option Sign → BridgeEvent → Bytes
rebuilt none e = codes "#" ++ (e.reader ++ (codes ":" ++ e.card))
rebuilt (some sign) e = codes "#" ++ (e.reader ++ (codes ":" ++ e.card)) ++ (b'$' ∷ e.sig)

abbrev served : ℕ → Option Sign → Bytes → Bytes → BridgeEvent
served number signer reader card = record {
  id = number;
  reader = reader;
  card = card;
  sig = signed_line signer reader card;
}

print-served :
    (number : ℕ) (signer : Option Sign) (reader card : Bytes)
    → print_signed signer (output_line reader card)
      ≡ line (rebuilt signer (served number signer reader card))
unfolding print_signed output_line signed_line
print-served number none reader card = refl
print-served number (some sign) reader card = refl

present-serves :
    (now : ℕ) (reader card : Bytes) (b : Bridge)
    → (allow now reader card b.dedup).1 ≡ true
    → (e : BridgeEvent) × ((present now reader card b).hub.buf
        ≡ trim b.hub.cap (b.hub.buf ++ e ∷ []))
      × (print_signed b.signer (output_line reader card) ≡ line (rebuilt b.signer e))
unfolding present add
present-serves now reader card b h =
    let number = (b.hub.next + 1) % int64_mod in
    (served number b.signer reader card, rw (h, present), print-served number b.signer reader card)

-- When an insertion passes the filter, the bridge's ring gains one event from which the printed
-- line can be rebuilt byte for byte: the reader tag, the btag and, with a signer, the signature.
pub feed-print_event :
    (sha256 : Bytes → Bytes) (now : ℕ) (ev : Event) (c : Card) (b : Bridge)
    → ev.kind ≡ insert
    → ev.card ≡ some c
    → (allow now (event_tag sha256 ev) c.id b.dedup).1 ≡ true
    → (e : BridgeEvent) × ((feed sha256 now ev b).hub.buf ≡ trim b.hub.cap (b.hub.buf ++ e ∷ []))
      × (print_event sha256 b.signer ev ≡ line (rebuilt b.signer e))
unfolding feed print_event
feed-print_event sha256 now ev c b k s h =
    rw (k, s, feed, print_event) (present-serves now (event_tag sha256 ev) c.id b h)
