-- ===== src/Event.antt =====
-- pcscid.go, the data that Watch reports: `Kind`, `Card` and `Event`. Strings and byte slices are
-- byte lists; a nil slice is the empty list.
use pcscid.Common.{Option, Bytes}

pub data Kind : Type 0 where
  insert remove : Kind

-- `Card.Source`: "uid" or "none".
pub data Source : Type 0 where
  uid_source no_source : Source

pub record Card : Type 0 where
  pub id : Bytes
  pub card_type : Bytes
  pub uid : Bytes
  pub atr : Bytes
  pub reader : Bytes
  pub source : Source

pub record Event : Type 0 where
  pub kind : Kind
  pub card : Option Card
  pub reader : Bytes
  pub reader_tag : Bytes
  pub reader_serial : Bytes
  pub reader_port : Bytes
