-- ===== src/Cli.antt =====
-- cmd/pcscid/main.go: the loop of `run` over the watch events, with `Signer.SignLine` of sign.go.
pub mod Lines
use pcscid.Common.{ℕ, [], ◌∷◌, ◌++◌, Option, none, some, Bytes}
use pcscid.Bridge.Feed.{Sign, Bridge, output_line, event_tag, feed}
use pcscid.Event.{Event, Kind, insert, remove, Card}

-- `SignLine`: the line, the separator '$' and the signature of the line.
unfoldable pub sign_line : Sign → Bytes → Bytes
sign_line sign line = line ++ (b'$' ∷ sign line)

-- What one event does to stdout: nothing, a line, or the nil dereference of an insertion that
-- carries no card.
pub data Printed : Type 0 where
  skipped : Printed
  line : Bytes → Printed
  panics : Printed

unfoldable pub print_signed : Option Sign → Bytes → Printed
unfolding sign_line
print_signed none text = line text
print_signed (some sign) text = line (sign_line sign text)

unfoldable pub print_kind : (Bytes → Bytes) → Option Sign → Event → Kind → Option Card → Printed
unfolding print_signed output_line event_tag
print_kind sha256 signer ev remove card = skipped
print_kind sha256 signer ev insert none = panics
print_kind sha256 signer ev insert (some card) =
    print_signed signer (output_line (event_tag sha256 ev) card.id)

unfoldable pub print_event : (Bytes → Bytes) → Option Sign → Event → Printed
unfolding print_kind
print_event sha256 signer ev = print_kind sha256 signer ev ev.kind ev.card
