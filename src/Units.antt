-- ===== src/Units.antt =====
-- readerid.go, `readerFacts` and `unitRegistry`: the per-unit identities of one daemon session.
pub mod Adoption
pub mod Ports
pub mod Memory
use pcscid.Common.{
  ℕ, Bool, true, false, not, ◌&&◌, ◌||◌, List, [], ◌∷◌, Option, none, some, Bytes, Table, lookup,
  put, delete, bytes_eq, if◌then◌else◌,
}
use pcscid.Tags.{is_empty}

pub record Facts : Type 0 where
  pub serial : Bytes
  pub port : Bytes
  pub uid : Bytes
  pub protocol : ℕ

pub record Registry : Type 0 where
  pub facts : Table Facts
  pub by_port : Table Bytes

abbrev pub no_facts : Facts
no_facts = record { serial = []; port = []; uid = []; protocol = 0 }

unfoldable pub new_unit_registry : Registry
new_unit_registry = record { facts = []; by_port = [] }

-- The value of a map at a missing key is the zero facts.
unfoldable pub or_none : Option Facts → Facts
or_none none = no_facts
or_none (some f) = f

unfoldable pub cached : Bytes → Registry → Facts
unfolding or_none
cached reader r = or_none (lookup reader r.facts)

-- `owner, taken := r.byPort[port]; taken && owner != reader`
unfoldable pub is_foreign : Bytes → Option Bytes → Bool
is_foreign reader none = false
is_foreign reader (some owner) = not (bytes_eq owner reader)

-- `taken && owner == reader`
unfoldable pub is_own : Bytes → Option Bytes → Bool
is_own reader none = false
is_own reader (some owner) = bytes_eq owner reader

-- The serial of `adopted`: a failed probe keeps the remembered one.
unfoldable pub adopted_serial : Facts → Facts → Bytes
unfolding is_empty
adopted_serial old fresh = if is_empty fresh.serial then old.serial else fresh.serial

-- A fresh port that another reader owns is refused.
unfoldable pub unclaimed_port : Bytes → Bytes → Table Bytes → Bytes
unfolding is_foreign
unclaimed_port reader port by_port =
    if not (is_empty port) && is_foreign reader (lookup port by_port) then [] else port

-- With no fresh port the remembered one is kept, unless another reader owns it.
unfoldable pub kept_port : Bytes → Facts → Bytes → Table Bytes → Bytes
unfolding is_foreign is_empty
kept_port reader old port by_port =
    if is_empty port && not (is_empty old.port) && not (is_foreign reader (lookup old.port by_port))
    then old.port
    else port

-- Whether the reader's claim on its remembered port is given up for `port`.
unfoldable pub gives_up : Bytes → Facts → Bytes → Table Bytes → Bool
unfolding is_own is_empty
gives_up reader old port by_port =
    not (is_empty old.port)
    && not (bytes_eq old.port port)
    && is_own reader (lookup old.port by_port)

unfoldable pub release : Bytes → Facts → Bytes → Table Bytes → Table Bytes
unfolding gives_up
release reader old port by_port =
    if gives_up reader old port by_port then delete old.port by_port else by_port

unfoldable pub claim : Bytes → Bytes → Table Bytes → Table Bytes
unfolding is_empty
claim reader port by_port = if is_empty port then by_port else put port reader by_port

-- An unknown reader has the zero facts, so each test `known && cached.x != ""` is one on those.
unfoldable pub adopted : Bytes → Facts → Registry → Facts
unfolding cached adopted_serial unclaimed_port kept_port
adopted reader fresh r =
    let old = cached reader r in
    record fresh {
      serial = adopted_serial old fresh;
      port = kept_port reader old (unclaimed_port reader fresh.port r.by_port) r.by_port;
    }

unfoldable pub adopt : Bytes → Facts → Registry → Registry × Facts
unfolding adopted release claim
adopt reader fresh r =
    let now = adopted reader fresh r in
    (
      record {
        facts = put reader now r.facts;
        by_port = claim reader now.port (release reader (cached reader r) now.port r.by_port);
      },
      now,
    )

-- `forget` on what is remembered of the reader.
unfoldable pub forget_known : Bytes → Option Facts → Registry → Registry
unfolding is_own is_empty
forget_known reader none r = r
forget_known reader (some f) r = record {
  facts = delete reader r.facts;
  by_port =
      if not (is_empty f.port) && is_own reader (lookup f.port r.by_port)
      then delete f.port r.by_port
      else r.by_port;
}

unfoldable pub forget : Bytes → Registry → Registry
unfolding forget_known
forget reader r = forget_known reader (lookup reader r.facts) r

pub data Change : Type 0 where
  adopts : Bytes → Facts → Change
  forgets : Bytes → Change

unfoldable pub change : Change → Registry → Registry
unfolding adopt forget
change (adopts reader fresh) r = (adopt reader fresh r).0
change (forgets reader) r = forget reader r

unfoldable pub changes : List Change → Registry → Registry
unfolding change
changes [] r = r
changes (c ∷ cs) r = changes cs (change c r)
