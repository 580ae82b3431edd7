-- ===== src/Atr/Grammar.antt =====
-- `ParseATR` against the layout of an answer to reset.
use pcscid.Atr.{Atr, Scan, read_groups, read_tck, no_trailing, finish, parse_atr}
use pcscid.Atr.Groups.{bytes_of, read_groups-bytes}
use pcscid.Common.{
  ℕ, suc, ◌/◌, ◌%◌, Bool, true, false, [], ◌∷◌, ◌++◌, ◌≡◌, refl, sym, ap, ◌∙◌, subst, arith, inl,
  inr, append-nil, Bytes, length, take, drop, take-append-drop, length-take, ◌==◌, if◌then◌else◌,
  Bool-cases, ok, bind-eq-ok, ltb, not, ◌&&◌,
}

-- The bytes that an answer to reset stands for.
unfoldable pub write_atr : Atr → Bytes
unfolding bytes_of
write_atr a =
    a.ts ∷ a.t0 ∷ bytes_of a.interface_bytes
    ++ (a.historical ++ (if a.has_tck then a.tck ∷ [] else []))

-- What `finish` accepts.
record Finished (ts t0 : ℕ) (s : Scan) (a : Atr) : Type 0 where
  ts_kept : a.ts ≡ ts
  t0_kept : a.t0 ≡ t0
  groups_kept : a.interface_bytes ≡ s.groups
  tail : a.historical ++ (if a.has_tck then a.tck ∷ [] else []) ≡ s.rest
  counted : length a.historical ≡ t0 % 16
  checked : a.has_tck ≡ ltb 1 (length a.protocols)

tck_bytes :
    (has_tck : Bool) (rest after : Bytes) (tck : ℕ)
    → read_tck has_tck rest ≡ ok (tck, after)
    → (if has_tck then tck ∷ [] else []) ++ after ≡ rest
unfolding read_tck
tck_bytes false rest after tck h = ground arith
tck_bytes true [] after tck h = absurd (ground arith)
tck_bytes true (c ∷ rest) after tck h = ground arith

no_trailing-ok : (rest : Bytes) (a a' : Atr) → no_trailing rest a ≡ ok a' → (rest ≡ []) × (a ≡ a')
unfolding no_trailing
no_trailing-ok [] a a' h = (refl, ground arith)
no_trailing-ok (c ∷ rest) a a' h = absurd (ground arith)

finish-Finished : (ts t0 : ℕ) (s : Scan) (a : Atr) → finish ts t0 s ≡ ok a → Finished ts t0 s a
unfolding finish
finish-Finished ts t0 s a h =
    let count = t0 % 16 in
    let has_tck = ltb 1 (length s.protocols) in
    let behind = drop count s.rest in
    elim (Bool-cases (ltb (length s.rest) count)) [
      | inl short ↦ absurd (ground arith)
      | inr enough ↦
          let ((tck, after), first, next) =
            bind-eq-ok (read_tck has_tck behind)
              (λ (tck, rest). no_trailing rest (record {
                ts = ts;
                t0 = t0;
                interface_bytes = s.groups;
                historical = take count s.rest;
                protocols = s.protocols;
                has_tck = has_tck;
                tck = tck;
              }))
              (ground arith) in
          let (none_left, now) =
            no_trailing-ok after
              (record {
                ts = ts;
                t0 = t0;
                interface_bytes = s.groups;
                historical = take count s.rest;
                protocols = s.protocols;
                has_tck = has_tck;
                tck = tck;
              })
              a next in
          let all : take count s.rest ++ (if has_tck then tck ∷ [] else []) ≡ s.rest =
            ap (◌++◌ (take count s.rest)) (
              sym (append-nil (if has_tck then tck ∷ [] else []))
              ∙ ap (◌++◌ (if has_tck then tck ∷ [] else [])) (sym none_left)
              ∙ tck_bytes has_tck behind after tck first)
            ∙ take-append-drop count s.rest in
          subst (Finished ts t0 s) now (record {
            ts_kept = refl;
            t0_kept = refl;
            groups_kept = refl;
            tail = all;
            counted = ground (arith, length-take {0} count s.rest);
            checked = refl;
          })
    ]

-- An answer that is accepted is the initial character, the format byte, the interface bytes, as
-- many historical bytes as the format byte says and, exactly when more than one protocol is named,
-- the checksum, and not a byte more or less.
pub write-parse_atr :
    (b : Bytes) (a : Atr)
    → parse_atr b ≡ ok a
    → (write_atr a ≡ b)
      × (length a.historical ≡ a.t0 % 16)
      × (a.has_tck ≡ ltb 1 (length a.protocols))
unfolding parse_atr write_atr bytes_of
write-parse_atr [] a h = absurd (ground arith)
write-parse_atr (ts ∷ []) a h = absurd (ground arith)
write-parse_atr (ts ∷ t0 ∷ rest) a h = elim (Bool-cases (not (ts == 0x3b) && not (ts == 0x3f))) [
  | inl bad ↦ absurd (ground arith)
  | inr good ↦
      let start : Scan = record {
        pos = 2;
        rest = rest;
        protocols = 0 ∷ [];
        next = 0;
        group = [];
        groups = [];
      } in
      let (s, first, next) =
        bind-eq-ok (read_groups (suc (length rest)) (t0 / 16) start) (finish ts t0)
          (ground arith) in
      let f = finish-Finished ts t0 s a next in
      let bytes : bytes_of a.interface_bytes
            ++ (a.historical ++ (if a.has_tck then a.tck ∷ [] else []))
          ≡ rest =
        ap (λ gs. bytes_of gs ++ (a.historical ++ (if a.has_tck then a.tck ∷ [] else [])))
          f.groups_kept
        ∙ ap (◌++◌ (bytes_of s.groups)) f.tail
        ∙ read_groups-bytes (suc (length rest)) (t0 / 16) start s first in
      (
        (λ i. f.ts_kept i ∷ f.t0_kept i ∷ bytes i),
        f.counted ∙ ap (λ t. t % 16) (sym f.t0_kept),
        f.checked,
      )
]
