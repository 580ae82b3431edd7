-- ===== src/Wire/Words.antt =====
-- Words, buffers and C strings read back.
use pcscid.Common.{
  ℕ, zero, suc, ◌+◌, ◌^◌, ◌≤◌, ◌<◌, [], ◌∷◌, ◌++◌, ◌≡◌, ◌≢◌, refl, ap, ◌∙◌, arith, Bytes, All,
  length, take, drop, replicate, length-append, length-take, length-replicate,
}
use pcscid.Wire.{put_uint32, uint32, c_string, buffer}

abbrev pub IsWord : ℕ → Type 0
IsWord n = n < 2 ^ 32

pub uint32-put_uint32 : (n : ℕ) (rest : Bytes) → IsWord n → uint32 (put_uint32 n ++ rest) ≡ n
unfolding uint32
uint32-put_uint32 n rest h = omega arith

-- A text without a zero byte.
abbrev pub NoZero : Bytes → Type 0
NoZero = All (λ c. c ≢ 0)

pub length-buffer : (n : ℕ) (s : Bytes) → length (buffer n s) ≡ n
unfolding buffer
length-buffer n s = omega (
  arith,
  length-take {0} n (s ++ replicate n 0),
  length-append {0} s (replicate n 0),
  length-replicate {A = ℕ} n 0,
)

c_string-zeros : (m n : ℕ) → c_string (take n (replicate m 0)) ≡ []
unfolding c_string
c_string-zeros zero zero = refl
c_string-zeros zero (suc n) = refl
c_string-zeros (suc m) zero = refl
c_string-zeros (suc m) (suc n) = refl

c_string-buffer_of :
    (n m : ℕ) (s : Bytes) → NoZero s → length s ≤ n → c_string (take n (s ++ replicate m 0)) ≡ s
unfolding c_string
c_string-buffer_of n m [] z h = c_string-zeros m n
c_string-buffer_of zero m (c ∷ s) z h = absurd (omega arith)
c_string-buffer_of (suc n) m (c ∷ s) z h =
    let rest = c_string-buffer_of n m s z.1 (omega arith) in ground (arith, z.0)

-- A text without a zero byte that fits its field is read back whole.
pub c_string-buffer : (n : ℕ) (s : Bytes) → NoZero s → length s ≤ n → c_string (buffer n s) ≡ s
unfolding buffer
c_string-buffer n s z h = c_string-buffer_of n n s z h

-- Offsets behind a first part of known length.
pub drop_past : {n : ℕ} (k : ℕ) (f w : Bytes) → length f ≡ n → drop (n + k) (f ++ w) ≡ drop k w
drop_past {n} k f w h = go n f h
  where
    go : (n : ℕ) (f : Bytes) → length f ≡ n → drop (n + k) (f ++ w) ≡ drop k w
    go zero [] h = let e : 0 + k ≡ k = omega arith in ap (λ m. drop m w) e
    go (suc n) [] h = absurd (omega arith)
    go zero (c ∷ f) h = absurd (omega arith)
    go (suc n) (c ∷ f) h =
        let e : suc n + k ≡ suc (n + k) = omega arith in
        ap (λ m. drop m (c ∷ (f ++ w))) e ∙ go n f (omega arith)

pub buffer_prefix : (n : ℕ) (s : Bytes) → length s ≤ n → take (length s) (buffer n s) ≡ s
unfolding buffer
buffer_prefix n s h = go n n s h
  where
    go : (n m : ℕ) (s : Bytes) → length s ≤ n → take (length s) (take n (s ++ replicate m 0)) ≡ s
    go n m [] h = refl
    go zero m (c ∷ s) h = absurd (omega arith)
    go (suc n) m (c ∷ s) h = ap (◌∷◌ c) (go n m s (omega arith))
