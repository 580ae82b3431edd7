-- ===== src/Machine/Order.antt =====
-- The machine's identity does not hang on the order of the directory.
use mathlib.Core.List.{Perm, Permᴰ, perm_middle}
use mathlib.Core.List.Perm
use mathlib.Core.Logic.{∥∥₁_elim}
use pcscid.Common.{
  true, false, List, [], ◌∷◌, ◌++◌, some, ◌≡◌, refl, sym, ap, ◌∙◌, arith, Bytes, subst,
}
use pcscid.Machine.{text_le, insert_text, sort_texts, mac_of, macs_of, join_bar, machine_id_from}
use pcscid.Usb.{Node}

text_le_total : (s t : Bytes) → text_le s t ≡ false → text_le t s ≡ true
unfolding text_le
text_le_total [] t h = absurd (ground arith)
text_le_total (c ∷ s) [] h = refl
text_le_total (c ∷ s) (d ∷ t) h = ground (arith, text_le_total s t)

text_le_antisymm : (s t : Bytes) → text_le s t ≡ true → text_le t s ≡ true → s ≡ t
unfolding text_le
text_le_antisymm [] [] h k = refl
text_le_antisymm [] (d ∷ t) h k = absurd (ground arith)
text_le_antisymm (c ∷ s) [] h k = absurd (ground arith)
text_le_antisymm (c ∷ s) (d ∷ t) h k = ground (arith, text_le_antisymm s t)

text_le_trans : (s t u : Bytes) → text_le s t ≡ true → text_le t u ≡ true → text_le s u ≡ true
unfolding text_le
text_le_trans [] t u h k = refl
text_le_trans (c ∷ s) [] u h k = absurd (ground arith)
text_le_trans (c ∷ s) (d ∷ t) [] h k = absurd (ground arith)
text_le_trans (c ∷ s) (d ∷ t) (e ∷ u) h k = ground (arith, text_le_trans s t u)

-- Inserting commutes.
insert_text_comm :
    (s t : Bytes) (l : List Bytes)
    → insert_text s (insert_text t l) ≡ insert_text t (insert_text s l)
unfolding insert_text
insert_text_comm s t [] = ground (arith, text_le_total s t, text_le_antisymm s t)
insert_text_comm s t (u ∷ l) = ground (
  arith,
  insert_text_comm s t l,
  text_le_total s t,
  text_le_total t s,
  text_le_antisymm s t,
  text_le_trans s t u,
  text_le_trans t s u,
  text_le_total s u,
  text_le_total t u,
)

Permᴰ-sort : {l l' : List Bytes} → Permᴰ l l' → sort_texts l ≡ sort_texts l'
unfolding sort_texts
Permᴰ-sort Permᴰ.nil = refl
Permᴰ-sort (Permᴰ.cons {l₁ = l} {l₂ = l'} e p) = λ i. insert_text (e i) (Permᴰ-sort p i)
Permᴰ-sort (Permᴰ.swap {a = a} {b = b} {l = l} e e') =
    insert_text_comm a b (sort_texts l) ∙ λ i. insert_text (e' i) (insert_text (e i) (sort_texts l))
Permᴰ-sort (Permᴰ.trans p q) = Permᴰ-sort p ∙ Permᴰ-sort q

-- Two blocks in front change places.
blocks-perm : (xs ys zs : List Bytes) → Perm (xs ++ (ys ++ zs)) (ys ++ (xs ++ zs))
blocks-perm [] ys zs = Perm.rfl
blocks-perm (x ∷ xs) ys zs =
    Perm.trans (Perm.cons x (blocks-perm xs ys zs)) (Perm.symm (perm_middle ys (xs ++ zs)))

macs-perm : {ns ns' : List Node} → Permᴰ ns ns' → Perm (macs_of ns) (macs_of ns')
unfolding macs_of
macs-perm Permᴰ.nil = Perm.rfl
macs-perm (Permᴰ.cons {b = b} {l₁ = ns} {l₂ = ns'} e p) =
    subst (λ n. Perm (mac_of n ++ macs_of ns) (mac_of b ++ macs_of ns')) (sym e)
      (Perm.append_left (mac_of b) (macs-perm p))
macs-perm (Permᴰ.swap {a = a} {b = b} {b' = b'} {l = ns} e e') =
    subst (λ m. Perm (macs_of (a ∷ b ∷ ns)) (mac_of m ++ (mac_of b' ++ macs_of ns))) e'
      (subst (λ m. Perm (macs_of (a ∷ b ∷ ns)) (mac_of b ++ (mac_of m ++ macs_of ns))) e
        (blocks-perm (mac_of a) (mac_of b) (macs_of ns)))
macs-perm (Permᴰ.trans p q) = Perm.trans (macs-perm p) (macs-perm q)

texts_set : (s t : Bytes) (p q : s ≡ t) → p ≡ q
texts_set = (hlevel)

-- Two listings of the same interfaces, in whatever order, give the same machine identity.
pub machine_id_from-perm :
    (nodes nodes' : List Node)
    → Perm nodes nodes'
    → machine_id_from (some nodes) ≡ machine_id_from (some nodes')
unfolding machine_id_from
machine_id_from-perm nodes nodes' p =
    ∥∥₁_elim p (texts_set _ _)
      λ d. ∥∥₁_elim (macs-perm d) (texts_set _ _) λ e. ap join_bar (Permᴰ-sort e)
