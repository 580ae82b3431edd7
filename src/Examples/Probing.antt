-- ===== src/Examples/Probing.antt =====
-- Probes of a card at a concrete daemon.
use pcscid.Common.{
  ℕ, ◌+◌, Bool, true, false, List, [], ◌∷◌, Option, none, some, ◌≡◌, refl, Bytes, codes, replicate,
  length, length-replicate, lookup,
}
use pcscid.Examples.Reading.{wedging, start}
use pcscid.Examples.Sessions.{after, right, after-IsExclusive}
use pcscid.Probe.Closing.{probe_reader_card-closes}
use pcscid.Probe.Identity.{presentation-keeps}
use pcscid.Probe.{probe_reader_card, is_known}
use pcscid.Uid.Holding.{Holds}
use pcscid.Uid.Recorded.{recording, Agrees}
use pcscid.Units.{changes, new_unit_registry, no_facts, cached, adopt}
use pcscid.Usb.{no_root}

abbrev reader : Bytes
reader = codes "ACS ACR122U 00 00"

probe_reader_card-closes_example :
    let (facts, s) =
      probe_reader_card
        (recording wedging)
        (λ w. no_root)
        true
        reader
        []
        no_facts
        (record { world = (start, []); acts = [] }) in
    Agrees s × Holds none s.world.1 none
probe_reader_card-closes_example =
    probe_reader_card-closes wedging (λ w. no_root) true reader [] no_facts start

right_known : is_known (cached right after) ≡ true
unfolding is_known changes new_unit_registry cached lookup pcscid.Common.put pcscid.Common.bytes_eq
    pcscid.Common.delete
right_known = refl

presentation-keeps_example :
    let fresh =
      (probe_reader_card wedging
        (λ w. no_root)
        true
        right
        after.by_port
        (cached right after)
        (record { world = start; acts = [] })).0 in
    ((adopt right fresh after).1.serial ≡ (cached right after).serial)
    × ((adopt right fresh after).1.port ≡ (cached right after).port)
presentation-keeps_example =
    presentation-keeps wedging (λ w. no_root) true right after (record { world = start; acts = [] })
      after-IsExclusive right_known
