-- ===== src/Uid/Answers.antt =====
-- Which answers to the UID request are final.
use pcscid.Common.{
  ℕ, zero, suc, ◌-◌, true, ◌||◌, not, [], ◌∷◌, ◌++◌, Option, none, some, ◌≡◌, ◌≢◌, refl, ap, ◌∙◌,
  arith, inl, inr, Bytes, length, take, get_or, ltb, ◌==◌, if◌then◌else◌, Bool-cases,
}
use pcscid.Tags.{is_empty}
use pcscid.Uid.{is_random_uid, accepted, by_status, classify}

-- The status word of an exchange that went well.
abbrev pub success : Bytes
success = 0x90 ∷ 0x00 ∷ []

-- What a UID that the card answers counts as.
abbrev pub identity : Bytes → Bytes
identity u = if is_random_uid u then [] else u

last_two :
    (n : ℕ) (s : Bytes)
    → length s ≡ suc (suc n)
    → s ≡ take n s ++ get_or s n 0 ∷ get_or s (suc n) 0 ∷ []
last_two zero [] h = absurd (omega (arith, h))
last_two zero (c ∷ []) h = absurd (omega (arith, h))
last_two zero (c ∷ d ∷ []) h = refl
last_two zero (c ∷ d ∷ e ∷ s) h = absurd (omega (arith, h))
last_two (suc n) [] h = absurd (omega (arith, h))
last_two (suc n) (c ∷ s) h = ap (◌∷◌ c) (last_two n s (omega (arith, h)))

record Accepted (uid u : Bytes) : Type 0 where
  pub filled : u ≢ []
  pub counts : uid ≡ identity u

accepted-done : (u : Bytes) → (accepted u).done ≡ true → Accepted (accepted u).uid u
unfolding accepted is_empty
accepted-done [] h = absurd (ground arith)
accepted-done (c ∷ u) h = elim (Bool-cases (is_random_uid (c ∷ u))) [
  | inl random ↦ rw random (record { filled = λ e. cc; counts = rw random refl })
  | inr own ↦ rw own (record { filled = λ e. cc; counts = rw own refl })
]

-- The answer is a UID and the status word of success.
pub record Answers (resp : Option Bytes) (uid : Bytes) : Type 0 where
  pub body : Bytes
  pub answer : resp ≡ some (body ++ success)
  pub filled : body ≢ []
  pub counts : uid ≡ identity body

pub classify-done :
    (resp : Option Bytes) → (classify resp).done ≡ true → Answers resp (classify resp).uid
unfolding classify by_status
classify-done none h = absurd (ground arith)
classify-done (some resp) h =
    let n = length resp - 2 in
    let sw1 = get_or resp n 0 in
    let sw2 = get_or resp (length resp - 1) 0 in
    elim (Bool-cases (ltb (length resp) 2)) [
      | inl short ↦ absurd (ground arith)
      | inr long ↦ elim (Bool-cases (not (sw1 == 0x90) || not (sw2 == 0x00))) [
        | inl refused ↦ absurd (ground arith)
        | inr fine ↦
            let a = accepted-done (take n resp) (ground arith) in
            let first : sw1 ≡ 0x90 = ground arith in
            let second : sw2 ≡ 0x00 = ground arith in
            let size : length resp ≡ suc (suc n) = ground arith in
            let at : suc n ≡ length resp - 1 = omega (arith, size) in
            rw (long, fine)
              (record {
                body = take n resp;
                answer = ap some (
                    last_two n resp size
                    ∙ (λ i. take n resp ++ first i ∷ get_or resp (at i) 0 ∷ [])
                    ∙ (λ i. take n resp ++ 0x90 ∷ second i ∷ []));
                filled = a.filled;
                counts = a.counts;
              })
      ]
    ]
