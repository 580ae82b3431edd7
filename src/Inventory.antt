-- ===== src/Inventory.antt =====
-- readers.go: the inventory of the readers that are registered with the daemon. The client is open and
-- its states are read; a failure of either is the caller's error, without an inventory.
pub mod Claims
use pcscid.Common.{
  Bool, true, false, List, [], ◌∷◌, Option, none, some, Bytes, if◌then◌else◌, Result, ok, err,
}
use pcscid.Event.{Card}
use pcscid.Probe.{probe_reader_card}
use pcscid.Tags.{Tier, unit_tier, reader_tag, reader_tag_with_machine}
use pcscid.Uid.{Pcscd, Session}
use pcscid.Units.{Facts, Registry, new_unit_registry, no_facts, cached, adopt}
use pcscid.Usb.Scan.{usb_port_path_by_reader}
use pcscid.Usb.{Root, Reason}
use pcscid.Watch.{is_present, identify}
use pcscid.Wire.States.{ReaderState}

pub record ReaderInfo : Type 0 where
  pub reader : Bytes
  pub model_tag : Bytes
  pub serial : Bytes
  pub port : Bytes
  pub tier : Tier
  pub tag : Bytes
  pub card_present : Bool
  pub card : Option Card

-- What a turn of the loop finds out about a reader.
pub record Found : Type 0 where
  pub serial : Bytes
  pub port : Bytes
  pub card : Option Card

-- The port of a reader without a card, which is adopted if the scan pins one.
unfoldable pub pinned : Bytes → Result Reason Bytes → Registry → Found × Registry
unfolding adopt
pinned reader (err reason) units = (record { serial = []; port = []; card = none }, units)
pinned reader (ok []) units = (record { serial = []; port = []; card = none }, units)
pinned reader (ok (c ∷ port)) units =
    let (units', facts) = adopt reader (record no_facts { port = c ∷ port }) units in
    (record { serial = []; port = facts.port; card = none }, units')

module _ {W : Type 0} (pcscd : Pcscd W) (sysfs : W → Root) (use_usb_path : Bool)
    (sha256 : Bytes → Bytes) (machine : Bytes) where
  -- A reader with a card is probed.
  unfoldable pub probed : ReaderState → Registry → Session W → (Found × Registry) × Session W
  unfolding probe_reader_card cached adopt identify
  probed st units s =
      let (fresh, t) =
        probe_reader_card pcscd sysfs use_usb_path st.reader units.by_port (cached st.reader units)
          s in
      let (units', facts) = adopt st.reader fresh units in
      (
        (
          record {
            serial = facts.serial;
            port = facts.port;
            card = some (identify sha256 machine st facts);
          },
          units',
        ),
        t,
      )

  unfoldable pub scanned : ReaderState → Registry → Session W → Found × Registry
  unfolding pinned usb_port_path_by_reader
  scanned st units s =
      if use_usb_path
      then pinned st.reader
          (usb_port_path_by_reader (sysfs s.world) st.reader none none units.by_port) units
      else (record { serial = []; port = []; card = none }, units)

  unfoldable pub inspect :
      Bool → ReaderState → Registry → Session W → (Found × Registry) × Session W
  unfolding probed scanned
  inspect true st units s = probed st units s
  inspect false st units s = (scanned st units s, s)

  unfoldable pub info_of : ReaderState → Found → ReaderInfo
  unfolding reader_tag unit_tier reader_tag_with_machine is_present
  info_of st found = record {
    reader = st.reader;
    model_tag = reader_tag sha256 st.reader;
    serial = found.serial;
    port = found.port;
    tier = unit_tier found.serial found.port;
    tag = reader_tag_with_machine sha256 st.reader found.serial found.port machine;
    card_present = is_present st.state;
    card = found.card;
  }

  -- The loop, with the registry behind it.
  unfoldable pub inventory :
      List ReaderState → Registry → Session W → List ReaderInfo × Registry × Session W
  unfolding inspect info_of
  inventory [] units s = ([], units, s)
  inventory (st ∷ sts) units s =
      let ((found, units'), t) = inspect (is_present st.state) st units s in
      let (infos, units'', u) = inventory sts units' t in (info_of st found ∷ infos, units'', u)

  unfoldable pub identify_readers : List ReaderState → Session W → List ReaderInfo
  unfolding inventory new_unit_registry
  identify_readers sts s = (inventory sts new_unit_registry s).0
