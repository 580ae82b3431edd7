-- ===== src/Tags/Stability.antt =====
-- The reader tag follows the hardware, not the hotplug indices that pcscd appends to the name.
use pcscid.Common.{List, ◌++◌, ◌≡◌, sym, ap, ◌∙◌, Bytes, All, [], ◌∷◌}
use pcscid.ReaderName.Stable.{groups, normalize-groups}
use pcscid.ReaderName.Strip.{IsIndex}
use pcscid.ReaderName.{normalize_reader_name}
use pcscid.Tags.{digest_id, machine_parts, btag_format, reader_tag_with_machine}

machine_parts-normalize :
    (reader reader' serial port machine : Bytes)
    → normalize_reader_name reader ≡ normalize_reader_name reader'
    → machine_parts reader serial port machine ≡ machine_parts reader' serial port machine
unfolding machine_parts
machine_parts-normalize r r' [] [] [] e = rw e
machine_parts-normalize r r' [] (p ∷ port) [] e = rw e
machine_parts-normalize r r' (s ∷ serial) port [] e = rw e
machine_parts-normalize r r' serial port (m ∷ machine) e = rw e

-- Two reader names that differ only in their trailing index groups get the same tag from the
-- same unit facts and machine, at every tier.
pub reader_tag-groups :
    (sha256 : Bytes → Bytes) (name : Bytes) (old new : List Bytes) (serial port machine : Bytes)
    → All IsIndex old
    → All IsIndex new
    → reader_tag_with_machine sha256 (name ++ groups old) serial port machine
      ≡ reader_tag_with_machine sha256 (name ++ groups new) serial port machine
unfolding reader_tag_with_machine
reader_tag-groups sha256 name old new serial port machine h h' =
    ap (λ parts. btag_format (digest_id sha256 parts) 8 (2 ∷ 6 ∷ []))
      (machine_parts-normalize (name ++ groups old) (name ++ groups new) serial port machine
        (normalize-groups old name h ∙ sym (normalize-groups new name h')))
