-- ===== src/Wire/Messages/RoundTrip.antt =====
-- Every message that its fields allow is read back as it was written.
use pcscid.Common.{
  ℕ, ◌+◌, ◌*◌, ◌%◌, ◌/◌, ◌≤◌, [], ◌∷◌, ◌++◌, ◌≡◌, ap, ◌∙◌, arith, Bytes, length, take, drop,
  take_of_append, take-append,
}
use pcscid.Wire.Messages.{
  VersionMsg, encode_version, decode_version, EstablishMsg, encode_establish, decode_establish,
  ReleaseMsg, encode_release, decode_release, ConnectMsg, encode_connect, decode_connect,
  DisconnectMsg, encode_disconnect, decode_disconnect, TransmitMsg, encode_transmit,
  decode_transmit, GetsetMsg, encode_getset, decode_getset, attr_length, WaitMsg, encode_wait,
  decode_wait,
}
use pcscid.Wire.Words.{IsWord, NoZero, length-buffer, c_string-buffer, drop_past, buffer_prefix}
use pcscid.Wire.{uint32, pack_le, buffer, c_string}

-- The four bytes of a word, put together again.
pub word :
    (n : ℕ)
    → IsWord n
    → n % 256 + 256 * (n / 256 % 256) + 65536 * (n / 65536 % 256) + 16777216 * (n / 16777216 % 256)
      ≡ n
word n h = omega arith

pub decode-encode_version :
    (m : VersionMsg)
    → IsWord m.major × IsWord m.minor × IsWord m.rv
    → decode_version (encode_version m) ≡ m
unfolding decode_version encode_version
decode-encode_version m (a, b, c) =
    λ i. record { major = word m.major a i; minor = word m.minor b i; rv = word m.rv c i }

decode-encode_establish :
    (m : EstablishMsg)
    → IsWord m.scope × IsWord m.context × IsWord m.rv
    → decode_establish (encode_establish m) ≡ m
unfolding decode_establish encode_establish
decode-encode_establish m (a, b, c) =
    λ i. record { scope = word m.scope a i; context = word m.context b i; rv = word m.rv c i }

decode-encode_release :
    (m : ReleaseMsg) → IsWord m.context × IsWord m.rv → decode_release (encode_release m) ≡ m
unfolding decode_release encode_release
decode-encode_release m (a, b) = λ i. record { context = word m.context a i; rv = word m.rv b i }

decode-encode_disconnect :
    (m : DisconnectMsg)
    → IsWord m.card × IsWord m.disposition × IsWord m.rv
    → decode_disconnect (encode_disconnect m) ≡ m
unfolding decode_disconnect encode_disconnect
decode-encode_disconnect m (a, b, c) =
    λ i. record { card = word m.card a i; disposition = word m.disposition b i; rv = word m.rv c i }

decode-encode_wait :
    (m : WaitMsg) → IsWord m.timeout_ms × IsWord m.rv → decode_wait (encode_wait m) ≡ m
unfolding decode_wait encode_wait
decode-encode_wait m (a, b) = λ i. record { timeout_ms = word m.timeout_ms a i; rv = word m.rv b i }

-- The words of a transmit message fit.
pub record AreTransmitWords (m : TransmitMsg) : Type 0 where
  pub card_word : IsWord m.card
  pub send_proto_word : IsWord m.send_pci_proto
  pub send_pci_word : IsWord m.send_pci_len
  pub send_word : IsWord m.send_length
  pub recv_proto_word : IsWord m.recv_pci_proto
  pub recv_pci_word : IsWord m.recv_pci_len
  pub recv_word : IsWord m.recv_length
  pub rv_word : IsWord m.rv

decode-encode_transmit :
    (m : TransmitMsg) → AreTransmitWords m → decode_transmit (encode_transmit m) ≡ m
unfolding decode_transmit encode_transmit
decode-encode_transmit m h = λ i. record {
  card = word m.card h.card_word i;
  send_pci_proto = word m.send_pci_proto h.send_proto_word i;
  send_pci_len = word m.send_pci_len h.send_pci_word i;
  send_length = word m.send_length h.send_word i;
  recv_pci_proto = word m.recv_pci_proto h.recv_proto_word i;
  recv_pci_len = word m.recv_pci_len h.recv_pci_word i;
  recv_length = word m.recv_length h.recv_word i;
  rv = word m.rv h.rv_word i;
}

-- A word behind a field of known length.
pub word_past :
    {n : ℕ} (k v : ℕ) (f w : Bytes)
    → length f ≡ n
    → uint32 (drop k w) ≡ v
    → uint32 (drop (n + k) (f ++ w)) ≡ v
word_past k v f w l e = ap uint32 (drop_past k f w l) ∙ e

-- The words of a connect message fit, and its name is a C string that fits its field.
pub record AreConnectFields (m : ConnectMsg) : Type 0 where
  pub context_word : IsWord m.context
  pub share_word : IsWord m.share_mode
  pub preferred_word : IsWord m.preferred_protocols
  pub card_word : IsWord m.card
  pub active_word : IsWord m.active_protocol
  pub rv_word : IsWord m.rv
  pub name_text : NoZero m.reader
  pub name_short : length m.reader ≤ 128

decode-encode_connect :
    (m : ConnectMsg) → AreConnectFields m → decode_connect (encode_connect m) ≡ m
unfolding decode_connect encode_connect
decode-encode_connect m h =
    let f = buffer 128 m.reader in
    let l = length-buffer 128 m.reader in
    let w =
      pack_le (m.share_mode ∷ m.preferred_protocols ∷ m.card ∷ m.active_protocol ∷ m.rv ∷ []) in
    λ i. record {
      context = word m.context h.context_word i;
      reader =
          (ap c_string (take_of_append 128 f w l)
              ∙ c_string-buffer 128 m.reader h.name_text h.name_short)
            i;
      share_mode = word_past 0 m.share_mode f w l (word m.share_mode h.share_word) i;
      preferred_protocols =
          word_past 4 m.preferred_protocols f w l (word m.preferred_protocols h.preferred_word) i;
      card = word_past 8 m.card f w l (word m.card h.card_word) i;
      active_protocol =
          word_past 12 m.active_protocol f w l (word m.active_protocol h.active_word) i;
      rv = word_past 16 m.rv f w l (word m.rv h.rv_word) i;
    }

-- The words of an attribute message fit, and its value is as long as it says and fits its buffer.
pub record AreGetsetFields (m : GetsetMsg) : Type 0 where
  pub card_word : IsWord m.card
  pub attr_id_word : IsWord m.attr_id
  pub rv_word : IsWord m.rv
  pub exact : m.attr_len ≡ length m.attr
  pub fits : m.attr_len ≤ 264

attr_length-fits : (n : ℕ) → n ≤ 264 → attr_length n ≡ n
unfolding attr_length
attr_length-fits n h = ground arith

pub value : (s w : Bytes) → length s ≤ 264 → take (length s) (buffer 264 s ++ w) ≡ s
value s w h =
    take-append (length s) (buffer 264 s) w (omega (arith, length-buffer 264 s))
    ∙ buffer_prefix 264 s h

decode-encode_getset : (m : GetsetMsg) → AreGetsetFields m → decode_getset (encode_getset m) ≡ m
unfolding decode_getset encode_getset
decode-encode_getset m h =
    let f = buffer 264 m.attr in
    let l = length-buffer 264 m.attr in
    let w = pack_le (m.attr_len ∷ m.rv ∷ []) in
    let claimed : uint32 (drop 264 (f ++ w)) ≡ m.attr_len =
      word_past 0 m.attr_len f w l (word m.attr_len (omega (arith, h.fits))) in
    let len = ap attr_length claimed ∙ attr_length-fits m.attr_len h.fits in
    λ i. record {
      card = word m.card h.card_word i;
      attr_id = word m.attr_id h.attr_id_word i;
      attr =
          (ap (λ n. take n (f ++ w)) (len ∙ h.exact) ∙ value m.attr w (omega (arith, h.exact))) i;
      attr_len = len i;
      rv = word_past 4 m.rv f w l (word m.rv h.rv_word) i;
    }

-- Each message is decoded from its encoding as it was: the version, establish, release,
-- disconnect and wait messages whenever their fields are 32 bit words, and likewise the transmit
-- message, the connect message whose name is a C string of at most 128 bytes, and the attribute
-- message whose value is as long as it says and at most 264 bytes.
pub decode-encode :
    (v : VersionMsg) (e : EstablishMsg) (r : ReleaseMsg) (d : DisconnectMsg) (w : WaitMsg)
    (t : TransmitMsg) (c : ConnectMsg) (g : GetsetMsg)
    → IsWord v.major × IsWord v.minor × IsWord v.rv
    → IsWord e.scope × IsWord e.context × IsWord e.rv
    → IsWord r.context × IsWord r.rv
    → IsWord d.card × IsWord d.disposition × IsWord d.rv
    → IsWord w.timeout_ms × IsWord w.rv
    → AreTransmitWords t
    → AreConnectFields c
    → AreGetsetFields g
    → (decode_version (encode_version v) ≡ v)
      × (decode_establish (encode_establish e) ≡ e)
      × (decode_release (encode_release r) ≡ r)
      × (decode_disconnect (encode_disconnect d) ≡ d)
      × (decode_wait (encode_wait w) ≡ w)
      × (decode_transmit (encode_transmit t) ≡ t)
      × (decode_connect (encode_connect c) ≡ c)
      × (decode_getset (encode_getset g) ≡ g)
decode-encode v e r d w t c g hv he hr hd hw ht hc hg = (
  decode-encode_version v hv,
  decode-encode_establish e he,
  decode-encode_release r hr,
  decode-encode_disconnect d hd,
  decode-encode_wait w hw,
  decode-encode_transmit t ht,
  decode-encode_connect c hc,
  decode-encode_getset g hg,
)
