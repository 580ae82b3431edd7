-- ===== src/Wire/Messages.antt =====
-- pcsc/wire.go: the message structs, with their encoders and decoders.
pub mod RoundTrip
use pcscid.Common.{ℕ, ◌+◌, List, [], ◌∷◌, ◌++◌, Bytes, take, drop, ltb, if◌then◌else◌}
use pcscid.Wire.{
  put_uint32, uint32, uint32_at, pack_le, c_string, buffer, max_reader_name, max_attr_size,
}

pub record VersionMsg : Type 0 where
  pub major : ℕ
  pub minor : ℕ
  pub rv : ℕ

unfoldable pub encode_version : VersionMsg → Bytes
unfolding pack_le
encode_version v = pack_le (v.major ∷ v.minor ∷ v.rv ∷ [])

unfoldable pub decode_version : Bytes → VersionMsg
unfolding uint32
decode_version b = record { major = uint32_at 0 b; minor = uint32_at 4 b; rv = uint32_at 8 b }

pub record EstablishMsg : Type 0 where
  pub scope : ℕ
  pub context : ℕ
  pub rv : ℕ

unfoldable pub encode_establish : EstablishMsg → Bytes
unfolding pack_le
encode_establish e = pack_le (e.scope ∷ e.context ∷ e.rv ∷ [])

unfoldable pub decode_establish : Bytes → EstablishMsg
unfolding uint32
decode_establish b = record { scope = uint32_at 0 b; context = uint32_at 4 b; rv = uint32_at 8 b }

pub record ReleaseMsg : Type 0 where
  pub context : ℕ
  pub rv : ℕ

unfoldable pub encode_release : ReleaseMsg → Bytes
unfolding pack_le
encode_release r = pack_le (r.context ∷ r.rv ∷ [])

unfoldable pub decode_release : Bytes → ReleaseMsg
unfolding uint32
decode_release b = record { context = uint32_at 0 b; rv = uint32_at 4 b }

pub record ConnectMsg : Type 0 where
  pub context : ℕ
  pub reader : Bytes
  pub share_mode : ℕ
  pub preferred_protocols : ℕ
  pub card : ℕ
  pub active_protocol : ℕ
  pub rv : ℕ

-- 152 bytes. What of a long name spills over the 128 bytes of its field is written over by the
-- words behind it.
unfoldable pub encode_connect : ConnectMsg → Bytes
unfolding pack_le
encode_connect c =
    put_uint32 c.context
    ++ (buffer max_reader_name c.reader
        ++ pack_le (c.share_mode ∷ c.preferred_protocols ∷ c.card ∷ c.active_protocol ∷ c.rv ∷ []))

unfoldable pub decode_connect : Bytes → ConnectMsg
unfolding uint32
decode_connect b = record {
  context = uint32_at 0 b;
  reader = c_string (take 128 (drop 4 b));
  share_mode = uint32_at 132 b;
  preferred_protocols = uint32_at 136 b;
  card = uint32_at 140 b;
  active_protocol = uint32_at 144 b;
  rv = uint32_at 148 b;
}

pub record DisconnectMsg : Type 0 where
  pub card : ℕ
  pub disposition : ℕ
  pub rv : ℕ

unfoldable pub encode_disconnect : DisconnectMsg → Bytes
unfolding pack_le
encode_disconnect d = pack_le (d.card ∷ d.disposition ∷ d.rv ∷ [])

unfoldable pub decode_disconnect : Bytes → DisconnectMsg
unfolding uint32
decode_disconnect b = record {
  card = uint32_at 0 b;
  disposition = uint32_at 4 b;
  rv = uint32_at 8 b;
}

pub record TransmitMsg : Type 0 where
  pub card : ℕ
  pub send_pci_proto : ℕ
  pub send_pci_len : ℕ
  pub send_length : ℕ
  pub recv_pci_proto : ℕ
  pub recv_pci_len : ℕ
  pub recv_length : ℕ
  pub rv : ℕ

unfoldable pub encode_transmit : TransmitMsg → Bytes
unfolding pack_le
encode_transmit t = pack_le (
    t.card ∷ t.send_pci_proto ∷ t.send_pci_len ∷ t.send_length ∷ t.recv_pci_proto ∷ t.recv_pci_len
    ∷ t.recv_length ∷ t.rv ∷ [])

unfoldable pub decode_transmit : Bytes → TransmitMsg
unfolding uint32
decode_transmit b = record {
  card = uint32_at 0 b;
  send_pci_proto = uint32_at 4 b;
  send_pci_len = uint32_at 8 b;
  send_length = uint32_at 12 b;
  recv_pci_proto = uint32_at 16 b;
  recv_pci_len = uint32_at 20 b;
  recv_length = uint32_at 24 b;
  rv = uint32_at 28 b;
}

pub record GetsetMsg : Type 0 where
  pub card : ℕ
  pub attr_id : ℕ
  pub attr : Bytes
  pub attr_len : ℕ
  pub rv : ℕ

-- 280 bytes. What of a long value spills over the 264 bytes of its field is written over by the
-- words behind it.
unfoldable pub encode_getset : GetsetMsg → Bytes
unfolding pack_le
encode_getset g =
    put_uint32 g.card
    ++ (put_uint32 g.attr_id ++ (buffer max_attr_size g.attr ++ pack_le (g.attr_len ∷ g.rv ∷ [])))

-- A claimed length beyond the fixed buffer counts as none.
unfoldable pub attr_length : ℕ → ℕ
attr_length claimed = if ltb max_attr_size claimed then 0 else claimed

unfoldable pub decode_getset : Bytes → GetsetMsg
unfolding uint32 attr_length
decode_getset b =
    let len = attr_length (uint32_at 272 b) in
    record {
      card = uint32_at 0 b;
      attr_id = uint32_at 4 b;
      attr = take len (drop 8 b);
      attr_len = len;
      rv = uint32_at 276 b;
    }

pub record WaitMsg : Type 0 where
  pub timeout_ms : ℕ
  pub rv : ℕ

unfoldable pub encode_wait : WaitMsg → Bytes
unfolding pack_le
encode_wait w = pack_le (w.timeout_ms ∷ w.rv ∷ [])

unfoldable pub decode_wait : Bytes → WaitMsg
unfolding uint32
decode_wait b = record { timeout_ms = uint32_at 0 b; rv = uint32_at 4 b }
