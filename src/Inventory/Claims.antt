-- ===== src/Inventory/Claims.antt =====
-- The ports in an inventory.
use mathlib.Core.List.{Memᴰ}
use pcscid.Common.{
  Bool, true, false, List, [], ◌∷◌, none, some, Bytes, ◌≡◌, ◌≢◌, refl, sym, ◌∙◌, subst, arith, ◌⊎◌,
  inl, inr, lookup, All, bytes_eq, bytes_eq_iff, Bool-cases, List-cases, Result, ok, err,
}
use pcscid.Inventory.{
  ReaderInfo, pinned, probed, scanned, inspect, info_of, inventory, identify_readers,
}
use pcscid.Probe.{probe_reader_card}
use pcscid.Uid.{Pcscd, Session}
use pcscid.Units.Adoption.{IsExclusive, remembered, adopt-IsExclusive}
use pcscid.Units.Ports.{new-IsExclusive}
use pcscid.Units.{Facts, Registry, no_facts, new_unit_registry, cached, adopted, adopt}
use pcscid.Usb.Scan.{usb_port_path_by_reader}
use pcscid.Usb.{Root, Reason}
use pcscid.Watch.Steady.{AreDistinct}
use pcscid.Watch.{is_present, is_seen}
use pcscid.Wire.States.{ReaderState}

-- Of two registries the second is exclusive, holds the port for the reader, and keeps the claims of
-- every other reader.
record Holds (reader port : Bytes) (before after : Registry) : Type 0 where
  exclusive : IsExclusive after
  held : (port ≡ []) ⊎ (lookup port after.by_port ≡ some reader)
  kept :
      (q p : Bytes)
      → bytes_eq reader q ≡ false
      → lookup p before.by_port ≡ some q
      → lookup p after.by_port ≡ some q

module _ (reader : Bytes) (fresh : Facts) (r : Registry) (inv : IsExclusive r) where
  adopt-Holds : Holds reader (adopt reader fresh r).1.port r (adopt reader fresh r).0
  unfolding adopt
  adopt-Holds = record {
    exclusive = later;
    held = elim (List-cases (adopted reader fresh r).port) [
      | inl e ↦ inl e
      | inr (c, rest, e) ↦
          let same : bytes_eq reader reader ≡ true = (bytes_eq_iff reader reader).1 refl in
          let known : lookup reader (adopt reader fresh r).0.facts ≡ some (adopted reader fresh r) =
            remembered reader fresh r reader ∙ rw same refl in
          let filled : (adopted reader fresh r).port ≢ [] = λ z. ground (arith, e, z) in
          inr (later.known_claims reader (adopted reader fresh r) known filled)
    ];
    kept = λ q p other before.
        let (f, found, port) = inv.claims_known p q before in
        let known : lookup q (adopt reader fresh r).0.facts ≡ some f =
          remembered reader fresh r q ∙ rw other found in
        let filled : f.port ≢ [] = λ e. ground (arith, inv.claims_filled, e, port, before) in
        subst (λ x. lookup x (adopt reader fresh r).0.by_port ≡ some q) port
          (later.known_claims q f known filled);
  }
    where
      later : IsExclusive (adopt reader fresh r).0
      later = adopt-IsExclusive reader fresh r inv

nothing-Holds : (reader : Bytes) (r : Registry) → IsExclusive r → Holds reader [] r r
nothing-Holds reader r inv = record {
  exclusive = inv;
  held = inl refl;
  kept = λ q p other before. before;
}

pinned-Holds :
    (reader : Bytes) (scan : Result Reason Bytes) (r : Registry)
    → IsExclusive r
    → Holds reader (pinned reader scan r).0.port r (pinned reader scan r).1
unfolding pinned
pinned-Holds reader (err reason) r inv = nothing-Holds reader r inv
pinned-Holds reader (ok []) r inv = nothing-Holds reader r inv
pinned-Holds reader (ok (c ∷ port)) r inv =
    adopt-Holds reader (record no_facts { port = c ∷ port }) r inv

module _ {W : Type 0} (pcscd : Pcscd W) (sysfs : W → Root) (use_usb_path : Bool)
    (sha256 : Bytes → Bytes) (machine : Bytes) where
  inspect-Holds :
      (present : Bool) (st : ReaderState) (r : Registry) (s : Session W)
      → IsExclusive r
      → let (found, after) = (inspect pcscd sysfs use_usb_path sha256 machine present st r s).0 in
        Holds st.reader found.port r after
  unfolding inspect probed scanned
  inspect-Holds true st r s inv =
      adopt-Holds st.reader
        (probe_reader_card pcscd sysfs use_usb_path st.reader r.by_port (cached st.reader r) s).0 r
        inv
  inspect-Holds false st r s inv = elim (Bool-cases use_usb_path) [
    | inl used ↦ rw used (
        pinned-Holds st.reader
          (usb_port_path_by_reader (sysfs s.world) st.reader none none r.by_port) r inv)
    | inr unused ↦ rw unused (nothing-Holds st.reader r inv)
  ]

  -- The ports of the entries are held at the end, and so are the claims of readers that are not among
  -- the states.
  record Listed (sts : List ReaderState) (before : Registry) (infos : List ReaderInfo)
      (after : Registry) : Type 0 where
    held : All (λ i. (i.port ≡ []) ⊎ (lookup i.port after.by_port ≡ some i.reader)) infos
    kept :
        (q p : Bytes)
        → is_seen q sts ≡ false
        → lookup p before.by_port ≡ some q
        → lookup p after.by_port ≡ some q

  inventory-Listed :
      (sts : List ReaderState) (r : Registry) (s : Session W)
      → AreDistinct sts
      → IsExclusive r
      → let (infos, after, t) = inventory pcscd sysfs use_usb_path sha256 machine sts r s in
        Listed sts r infos after
  unfolding inventory info_of is_seen
  inventory-Listed [] r s distinct inv = record { held = tt; kept = λ q p unseen before. before }
  inventory-Listed (st ∷ sts) r s (unseen, distinct) inv =
      let present = is_present st.state in
      let ((found, units), t) = inspect pcscd sysfs use_usb_path sha256 machine present st r s in
      let first = inspect-Holds present st r s inv in
      let later = inventory-Listed sts units t distinct first.exclusive in
      record {
        held = (
          elim first.held [
            | inl none_there ↦ inl none_there
            | inr here ↦ inr (later.kept st.reader found.port unseen here)
          ],
          later.held,
        );
        kept = λ q p others before.
            later.kept q p (ground (arith, others))
              (first.kept q p (ground (arith, others)) before);
      }

All-Memᴰ : {A : Type 0} (P : A → Type 0) (x : A) (xs : List A) → Memᴰ x xs → All P xs → P x
All-Memᴰ P x [] m h = elim m [ ]
All-Memᴰ P x (y ∷ ys) (Memᴰ.head e) h = subst P (sym e) h.0
All-Memᴰ P x (y ∷ ys) (Memᴰ.tail m) h = All-Memᴰ P x ys m h.1

-- In an inventory of readers with distinct names, whatever the daemon, the driver, the cards and the
-- USB tree answer, no two readers are reported on the same port.
pub identify_readers-ports :
    {W : Type 0} (pcscd : Pcscd W) (sysfs : W → Root) (use_usb_path : Bool) (sha256 : Bytes → Bytes)
    (machine : Bytes) (sts : List ReaderState) (s : Session W) (a b : ReaderInfo)
    → AreDistinct sts
    → Memᴰ a (identify_readers pcscd sysfs use_usb_path sha256 machine sts s)
    → Memᴰ b (identify_readers pcscd sysfs use_usb_path sha256 machine sts s)
    → a.port ≢ []
    → a.port ≡ b.port
    → a.reader ≡ b.reader
unfolding identify_readers
identify_readers-ports pcscd sysfs use_usb_path sha256 machine sts s a b distinct in_a in_b filled
      same =
    let (infos, after, t) =
      inventory pcscd sysfs use_usb_path sha256 machine sts new_unit_registry s in
    let listed =
      inventory-Listed pcscd sysfs use_usb_path sha256 machine sts new_unit_registry s distinct
        new-IsExclusive in
    let P : ReaderInfo → Type 0 =
      λ i. (i.port ≡ []) ⊎ (lookup i.port after.by_port ≡ some i.reader) in
    elim (All-Memᴰ P a infos in_a listed.held) [
      | inl e ↦ absurd (filled e)
      | inr held_a ↦ elim (All-Memᴰ P b infos in_b listed.held) [
        | inl e ↦ absurd (filled (same ∙ e))
        | inr held_b ↦ ground (arith, held_a, held_b, same)
      ]
    ]
