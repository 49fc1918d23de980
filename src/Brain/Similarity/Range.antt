-- ===== src/Brain/Similarity/Range.antt =====
-- The similarity of two messages lies between 0 and 1 and does not depend on their order; 1 means
-- that they are equal.
use native.Mathlib.Nat.{mul-le-mul_right, mul-lt-mul_of_pos_right, mul-pos, mul_comm}
use native.Mathlib.Decide.{dec_lt}
use nazg.Base.{◌*◌, ◌≤◌, ◌<◌, ◌≡◌, ◌↔◌, refl, ap₂, subst, [], ◌∷◌, Bytes, arith}
use nazg.Brain.Levenshtein.Metric.{
  levenshtein_distance-le-max, levenshtein_distance-zero, levenshtein_distance_comm,
}
use nazg.Brain.Similarity.{
  Ratio, levenshtein_similarity, similarity_of_tokens, tokenize_error, weighted, compute_similarity,
}
use nazg.Brain.Similarity.Tokens.{
  IsSimilarity, similarity_of_tokens-IsSimilarity, similarity_of_tokens_comm,
  similarity_of_tokens_self,
}

levenshtein_similarity-IsSimilarity : (a b : Bytes) → IsSimilarity (levenshtein_similarity a b)
levenshtein_similarity-IsSimilarity [] [] = omega arith
levenshtein_similarity-IsSimilarity [] (d ∷ b) = omega arith
levenshtein_similarity-IsSimilarity (c ∷ a) [] = omega arith
levenshtein_similarity-IsSimilarity (c ∷ a) (d ∷ b) = ground arith

-- The ratio is 1.
abbrev pub IsOne : Ratio → Type 0
IsOne r = r.numerator ≡ r.denominator

levenshtein_similarity-IsOne : (a b : Bytes) → IsOne (levenshtein_similarity a b) ↔ (a ≡ b)
levenshtein_similarity-IsOne [] [] = (λ h. refl, λ h. refl)
levenshtein_similarity-IsOne [] (d ∷ b) = ground arith
levenshtein_similarity-IsOne (c ∷ a) [] = ground arith
levenshtein_similarity-IsOne (c ∷ a) (d ∷ b) = (
  λ h.
      (levenshtein_distance-zero (c ∷ a) (d ∷ b)).0
        (ground (arith, h, levenshtein_distance-le-max (c ∷ a) (d ∷ b))),
  λ h. ground (arith, (levenshtein_distance-zero (c ∷ a) (d ∷ b)).1 h),
)

levenshtein_similarity_comm :
    (a b : Bytes) → levenshtein_similarity a b ≡ levenshtein_similarity b a
levenshtein_similarity_comm [] [] = refl
levenshtein_similarity_comm [] (d ∷ b) = refl
levenshtein_similarity_comm (c ∷ a) [] = refl
levenshtein_similarity_comm (c ∷ a) (d ∷ b) =
    ground (arith, levenshtein_distance_comm (c ∷ a) (d ∷ b))

-- The two products that a weighted sum is made of, against that of the denominators.
module _ (r q : Ratio) (h : IsSimilarity r) (k : IsSimilarity q) where
  first_part : r.numerator * q.denominator ≤ r.denominator * q.denominator
  first_part = mul-le-mul_right q.denominator h.at_most_one

  second_part : q.numerator * r.denominator ≤ r.denominator * q.denominator
  second_part =
      omega
        (arith, mul-le-mul_right r.denominator k.at_most_one, mul_comm q.denominator r.denominator)

  weighted-IsSimilarity : IsSimilarity (weighted r q)
  weighted-IsSimilarity = omega (arith, mul-pos h.positive k.positive, first_part, second_part)

  weighted_less : q.numerator < q.denominator → IsOne (weighted r q) → ⊥
  weighted_less l e = omega (
    arith,
    mul-lt-mul_of_pos_right l h.positive,
    mul_comm q.denominator r.denominator,
    first_part,
  )

  weighted-IsOne : IsOne (weighted r q) → IsOne q
  weighted-IsOne e = elim (dec_lt q.numerator q.denominator) [
    | yes l ↦ absurd (weighted_less l e)
    | no l ↦ omega (arith, k.at_most_one)
  ]

IsOne-weighted : (r q : Ratio) → IsOne r → IsOne q → IsOne (weighted r q)
IsOne-weighted r q h k = ground (arith, h, k, mul_comm r.denominator q.denominator)

-- The similarity of two messages is a ratio from 0 to 1. It is 1 exactly if they are equal, and it
-- does not depend on which of them is first.
pub compute_similarity_range :
    (a b : Bytes)
    → (0 < (compute_similarity a b).denominator)
      × ((compute_similarity a b).numerator ≤ (compute_similarity a b).denominator)
      × (IsOne (compute_similarity a b) ↔ (a ≡ b))
      × (compute_similarity a b ≡ compute_similarity b a)
unfolding compute_similarity
compute_similarity_range a b =
    let tok = similarity_of_tokens-IsSimilarity (tokenize_error a) (tokenize_error b) in
    let lev = levenshtein_similarity-IsSimilarity a b in
    let both = weighted-IsSimilarity _ _ tok lev in
    (
      both.positive,
      both.at_most_one,
      (
        λ e. (levenshtein_similarity-IsOne a b).0 (weighted-IsOne _ _ tok lev e),
        λ e.
            IsOne-weighted _ _
              (subst (λ c. IsOne (similarity_of_tokens (tokenize_error a) (tokenize_error c))) e
                (similarity_of_tokens_self (tokenize_error a)))
              ((levenshtein_similarity-IsOne a b).1 e),
      ),
      ap₂ weighted (similarity_of_tokens_comm (tokenize_error a) (tokenize_error b))
          (levenshtein_similarity_comm a b),
    )
