-- ===== src/Tags/Shape.antt =====
-- The shape of the tags: dash separated groups of digits and lower case letters.
use pcscid.Common.{
  ℕ, suc, ◌%◌, ◌≤◌, Bool, true, ◌&&◌, ◌||◌, [], ◌∷◌, ◌++◌, ◌≡◌, refl, ap, ◌∙◌, arith, Bytes, All,
  length, leb, holds_under, holds_under→true,
}
use pcscid.Tags.{
  concat_parts, btag_char, btag_format, digest_id, btag, btag_parts, reader_tag_with_machine,
  machine_parts,
}

abbrev pub is_alnum : ℕ → Bool
is_alnum c = leb b'0' c && leb c b'9' || leb b'a' c && leb c b'z'

-- A group of `n` digits and lower case letters.
pub record IsGroup (n : ℕ) (s : Bytes) : Type 0 where
  pub size : length s ≡ n
  pub alnum : All (λ c. is_alnum c ≡ true) s

-- Three groups of the given sizes, joined by dashes.
pub record IsTag (a b c : ℕ) (s : Bytes) : Type 0 where
  pub first : Bytes
  pub second : Bytes
  pub third : Bytes
  pub first_group : IsGroup a first
  pub second_group : IsGroup b second
  pub third_group : IsGroup c third
  pub joined : s ≡ first ++ b'-' ∷ (second ++ b'-' ∷ third)

btag_char_table : holds_under (λ b. is_alnum (btag_char b)) 36 ≡ true
unfolding holds_under btag_char
btag_char_table = refl

btag_char_mod : (b : ℕ) → btag_char b ≡ btag_char (b % 36)
unfolding btag_char
btag_char_mod b = let e : b % 36 % 36 ≡ b % 36 = omega arith in rw e

btag_char-is_alnum : (b : ℕ) → is_alnum (btag_char b) ≡ true
btag_char-is_alnum b =
    rw (btag_char_mod b)
      (holds_under→true (λ k. is_alnum (btag_char k)) (omega arith) btag_char_table)

-- The first eight bytes of a digest, and the two after them.
record Eight (s : Bytes) : Type 0 where
  b0 : ℕ
  b1 : ℕ
  b2 : ℕ
  b3 : ℕ
  b4 : ℕ
  b5 : ℕ
  b6 : ℕ
  b7 : ℕ
  rest : Bytes
  splits : s ≡ b0 ∷ b1 ∷ b2 ∷ b3 ∷ b4 ∷ b5 ∷ b6 ∷ b7 ∷ rest

Eight-of : (s : Bytes) → 8 ≤ length s → Eight s
Eight-of (a ∷ b ∷ c ∷ d ∷ e ∷ f ∷ g ∷ h ∷ s) l = record {
  b0 = a;
  b1 = b;
  b2 = c;
  b3 = d;
  b4 = e;
  b5 = f;
  b6 = g;
  b7 = h;
  rest = s;
  splits = refl;
}
Eight-of _ l = absurd (omega arith)

two_of : (s : Bytes) → 2 ≤ length s → (a b : ℕ) × (r : Bytes) × (s ≡ a ∷ b ∷ r)
two_of (a ∷ b ∷ s) l = (a, b, s, refl)
two_of _ l = absurd (omega arith)

-- The characters that a list of digest bytes is shown as.
abbrev shown : Bytes → Bytes
shown [] = []
shown (b ∷ s) = btag_char b ∷ shown s

shown-IsGroup : (s : Bytes) {n : ℕ} → length s ≡ n → IsGroup n (shown s)
shown-IsGroup s e = record { size = length-shown s ∙ e; alnum = alnum-shown s }
  where
    length-shown : (s : Bytes) → length (shown s) ≡ length s
    length-shown [] = refl
    length-shown (b ∷ s) = ap suc (length-shown s)

    alnum-shown : (s : Bytes) → All (λ c. is_alnum c ≡ true) (shown s)
    alnum-shown [] = tt
    alnum-shown (b ∷ s) = (btag_char-is_alnum b, alnum-shown s)

module _ (sum : Bytes) where
  format_ten : 10 ≤ length sum → IsTag 3 3 4 (btag_format sum 10 (3 ∷ 6 ∷ []))
  unfolding btag_format
  format_ten l =
      let e = Eight-of sum (omega arith) in
      let (b8, b9, r, t) = two_of e.rest (omega (arith, ap length e.splits)) in
      rw (e.splits, t, btag_format)
        (record {
          first = shown (e.b0 ∷ e.b1 ∷ e.b2 ∷ []);
          second = shown (e.b3 ∷ e.b4 ∷ e.b5 ∷ []);
          third = shown (e.b6 ∷ e.b7 ∷ b8 ∷ b9 ∷ []);
          first_group = shown-IsGroup (e.b0 ∷ e.b1 ∷ e.b2 ∷ []) refl;
          second_group = shown-IsGroup (e.b3 ∷ e.b4 ∷ e.b5 ∷ []) refl;
          third_group = shown-IsGroup (e.b6 ∷ e.b7 ∷ b8 ∷ b9 ∷ []) refl;
          joined = refl;
        })

  format_eight : 8 ≤ length sum → IsTag 2 4 2 (btag_format sum 8 (2 ∷ 6 ∷ []))
  unfolding btag_format
  format_eight l =
      let e = Eight-of sum l in
      rw (e.splits, btag_format)
        (record {
          first = shown (e.b0 ∷ e.b1 ∷ []);
          second = shown (e.b2 ∷ e.b3 ∷ e.b4 ∷ e.b5 ∷ []);
          third = shown (e.b6 ∷ e.b7 ∷ []);
          first_group = shown-IsGroup (e.b0 ∷ e.b1 ∷ []) refl;
          second_group = shown-IsGroup (e.b2 ∷ e.b3 ∷ e.b4 ∷ e.b5 ∷ []) refl;
          third_group = shown-IsGroup (e.b6 ∷ e.b7 ∷ []) refl;
          joined = refl;
        })

-- For a digest of 32 bytes, the btag of every card is three groups of 3, 3 and 4 digits and lower
-- case letters, and the tag of every reader, whatever its unit facts and machine, is three such
-- groups of 2, 4 and 2.
pub tags-IsTag :
    (sha256 : Bytes → Bytes)
    → ((m : Bytes) → length (sha256 m) ≡ 32)
    → (card_type uid reader serial port machine : Bytes)
    → IsTag 3 3 4 (btag sha256 card_type uid)
      × IsTag 2 4 2 (reader_tag_with_machine sha256 reader serial port machine)
unfolding btag reader_tag_with_machine
tags-IsTag sha256 size card_type uid reader serial port machine = (
  format_ten (digest_id sha256 (btag_parts card_type uid))
      (omega (arith, size (concat_parts (btag_parts card_type uid)))),
  format_eight (digest_id sha256 (machine_parts reader serial port machine))
      (omega (arith, size (concat_parts (machine_parts reader serial port machine)))),
)
