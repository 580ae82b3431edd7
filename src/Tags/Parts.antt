-- ===== src/Tags/Parts.antt =====
-- The hashed text determines what it was made of: no two identities share one text.
use pcscid.Common.{
  ℕ, [], ◌∷◌, ◌++◌, append-nil, ◌≡◌, ◌≢◌, refl, sym, ap, ◌∙◌, arith, Bytes, All, All-append, codes,
}
use pcscid.ReaderName.{normalize_reader_name}
use pcscid.Tags.{concat_parts, btag_parts, unit_text, machine_parts}

-- No separator in a text.
abbrev pub NoBar : Bytes → Type 0
NoBar = All (λ c. c ≢ b'|')

-- The text before the first separator, and the text after it, are determined.
bar_splits :
    (x x' y y' : Bytes)
    → NoBar x
    → NoBar x'
    → x ++ (b'|' ∷ y) ≡ x' ++ (b'|' ∷ y')
    → (x ≡ x') × (y ≡ y')
bar_splits [] [] y y' h h' e = ground arith
bar_splits [] (c ∷ x') y y' h h' e = absurd (h'.0 (ground arith))
bar_splits (c ∷ x) [] y y' h h' e = absurd (h.0 (ground arith))
bar_splits (c ∷ x) (d ∷ x') y y' h h' e =
    let (p, q) = bar_splits x x' y y' h.1 h'.1 (ground arith) in
    let head : c ≡ d = ground arith in (ground arith, q)

-- Two card types without a separator, and two unique tags, are hashed by `Btag` as the same text
-- only if the types are equal and the tags are equal.
pub btag_parts-injective :
    (card_type card_type' uid uid' : Bytes)
    → NoBar card_type
    → NoBar card_type'
    → concat_parts (btag_parts card_type uid) ≡ concat_parts (btag_parts card_type' uid')
    → (card_type ≡ card_type') × (uid ≡ uid')
unfolding concat_parts btag_parts
btag_parts-injective t t' u u' h h' e =
    let (p, q) = bar_splits t t' (u ++ []) (u' ++ []) h h' (cc e) in
    (p, sym (append-nil u) ∙ q ∙ append-nil u')

-- The unit fact that decides a tag: the serial if there is one, else the port if there is one.
pub data UnitFact : Type 0 where
  by_serial : Bytes → UnitFact
  by_port : Bytes → UnitFact
  by_model : UnitFact

abbrev pub unit_fact : Bytes → Bytes → UnitFact
unit_fact [] [] = by_model
unit_fact [] (p ∷ port) = by_port (p ∷ port)
unit_fact (s ∷ serial) port = by_serial (s ∷ serial)

-- What stands behind "pcscid/reader/" in the text: the two bytes of the domain, and the rest.
record Text : Type 0 where
  letter : ℕ
  digit : ℕ
  rest : Bytes

abbrev written : Text → Bytes
written t = codes "pcscid/reader/" ++ (t.letter ∷ t.digit ∷ b'|' ∷ t.rest)

abbrev text : Bytes → UnitFact → Bytes → Bytes → Text
text n by_model unit [] = record { letter = b'v'; digit = b'1'; rest = n }
text n (by_serial s) unit [] = record { letter = b'v'; digit = b'2'; rest = n ++ (b'|' ∷ s) }
text n (by_port p) unit [] = record { letter = b'v'; digit = b'3'; rest = n ++ (b'|' ∷ p) }
text n u unit (m ∷ machine) = record {
  letter = b'm';
  digit = b'1';
  rest = n ++ (b'|' ∷ (unit ++ (b'|' ∷ m ∷ machine)));
}

machine_parts-text :
    (r s p m : Bytes)
    → concat_parts (machine_parts r s p m)
      ≡ written (text (normalize_reader_name r) (unit_fact s p) (unit_text s p) m)
unfolding concat_parts machine_parts
machine_parts-text r [] [] [] = rw append-nil
machine_parts-text r [] (q ∷ p) [] = rw append-nil
machine_parts-text r (c ∷ s) p [] = rw append-nil
machine_parts-text r s p (d ∷ m) = rw append-nil

written-injective :
    (t t' : Text)
    → written t ≡ written t'
    → (t.letter ≡ t'.letter) × (t.digit ≡ t'.digit) × (t.rest ≡ t'.rest)
written-injective t t' e = (cc e, cc e, cc e)

unit_text-injective :
    (s p s' p' : Bytes) → unit_text s p ≡ unit_text s' p' → unit_fact s p ≡ unit_fact s' p'
unfolding unit_text
unit_text-injective [] [] [] [] e = refl
unit_text-injective [] (c ∷ p) [] (d ∷ p') e = ground arith
unit_text-injective (c ∷ s) p (d ∷ s') p' e = ground arith
unit_text-injective [] [] [] (d ∷ p') e = absurd (ground arith)
unit_text-injective [] [] (d ∷ s') p' e = absurd (ground arith)
unit_text-injective [] (c ∷ p) [] [] e = absurd (ground arith)
unit_text-injective [] (c ∷ p) (d ∷ s') p' e = absurd (ground arith)
unit_text-injective (c ∷ s) p [] [] e = absurd (ground arith)
unit_text-injective (c ∷ s) p [] (d ∷ p') e = absurd (ground arith)

NoBar-unit_text : (s p : Bytes) → NoBar s → NoBar p → NoBar (unit_text s p)
unfolding unit_text
NoBar-unit_text [] [] hs hp = omega arith
NoBar-unit_text [] (c ∷ p) hs hp =
    All-append (λ c. c ≢ b'|') (codes "port:") (c ∷ p) (omega arith) hp
NoBar-unit_text (c ∷ s) p hs hp =
    All-append (λ c. c ≢ b'|') (codes "serial:") (c ∷ s) (omega arith) hs

abbrev Same : Bytes → UnitFact → Bytes → Bytes → UnitFact → Bytes → Type 0
Same n u m n' u' m' = (n ≡ n') × (u ≡ u') × (m ≡ m')

-- Without a machine on either side.
unit_texts :
    (n n' unit unit' : Bytes) (u u' : UnitFact)
    → NoBar n
    → NoBar n'
    → written (text n u unit []) ≡ written (text n' u' unit' [])
    → (n ≡ n') × (u ≡ u')
unit_texts n n' x x' by_model by_model h h' e = ((written-injective _ _ e).2, refl)
unit_texts n n' x x' (by_serial s) (by_serial s') h h' e =
    let (p, q) = bar_splits n n' s s' h h' (written-injective _ _ e).2 in (p, ap by_serial q)
unit_texts n n' x x' (by_port s) (by_port s') h h' e =
    let (p, q) = bar_splits n n' s s' h h' (written-injective _ _ e).2 in (p, ap by_port q)
unit_texts n n' x x' by_model (by_serial s') h h' e =
    absurd (omega (arith, (written-injective _ _ e).1))
unit_texts n n' x x' by_model (by_port s') h h' e =
    absurd (omega (arith, (written-injective _ _ e).1))
unit_texts n n' x x' (by_serial s) by_model h h' e =
    absurd (omega (arith, (written-injective _ _ e).1))
unit_texts n n' x x' (by_serial s) (by_port s') h h' e =
    absurd (omega (arith, (written-injective _ _ e).1))
unit_texts n n' x x' (by_port s) by_model h h' e =
    absurd (omega (arith, (written-injective _ _ e).1))
unit_texts n n' x x' (by_port s) (by_serial s') h h' e =
    absurd (omega (arith, (written-injective _ _ e).1))

-- With a machine on the left side only, the domains differ.
machine_needed :
    (n n' unit unit' m : Bytes) (c : ℕ) (u u' : UnitFact)
    → written (text n u unit (c ∷ m)) ≢ written (text n' u' unit' [])
machine_needed n n' x x' m c u by_model e = omega (arith, (written-injective _ _ e).0)
machine_needed n n' x x' m c u (by_serial s) e = omega (arith, (written-injective _ _ e).0)
machine_needed n n' x x' m c u (by_port s) e = omega (arith, (written-injective _ _ e).0)

-- Take reader names whose normal form holds no separator, and serials and ports without one. Two
-- reader tags are then derived from the same hashed text only if the normal forms are equal, the
-- deciding unit facts are equal (a serial never passes for a port, nor either for none), and the
-- machines are equal (none never passes for some machine).
pub machine_parts-injective :
    (r s p m r' s' p' m' : Bytes)
    → NoBar (normalize_reader_name r)
    → NoBar (normalize_reader_name r')
    → NoBar s × NoBar p
    → NoBar s' × NoBar p'
    → concat_parts (machine_parts r s p m) ≡ concat_parts (machine_parts r' s' p' m')
    → (normalize_reader_name r ≡ normalize_reader_name r')
      × (unit_fact s p ≡ unit_fact s' p')
      × (m ≡ m')
machine_parts-injective r s p m r' s' p' m' hn hn' h h' e =
    go m m' (sym (machine_parts-text r s p m) ∙ e ∙ machine_parts-text r' s' p' m')
  where
    n : Bytes
    n = normalize_reader_name r

    n' : Bytes
    n' = normalize_reader_name r'

    u : UnitFact
    u = unit_fact s p

    u' : UnitFact
    u' = unit_fact s' p'

    x : Bytes
    x = unit_text s p

    x' : Bytes
    x' = unit_text s' p'

    go : (m m' : Bytes) → written (text n u x m) ≡ written (text n' u' x' m') → Same n u m n' u' m'
    go [] [] e = let (a, b) = unit_texts n n' x x' u u' hn hn' e in (a, b, refl)
    go (c ∷ m) [] e = absurd (machine_needed n n' x x' m c u u' e)
    go [] (c ∷ m) e = absurd (machine_needed n' n x' x m c u' u (sym e))
    go (c ∷ m) (d ∷ m') e =
        let (a, tail) = bar_splits n n' _ _ hn hn' (written-injective _ _ e).2 in
        let (b, k) =
          bar_splits x x' (c ∷ m) (d ∷ m') (NoBar-unit_text s p h.0 h.1)
            (NoBar-unit_text s' p' h'.0 h'.1) tail in
        (a, unit_text-injective s p s' p' b, k)
