-- ===== src/Brain/Similarity/Tokens.antt =====
-- The tokens that two messages share, as sets.
use nazg.Base.{
  ◌+◌, ◌≤◌, ◌<◌, ◌≡◌, refl, ap, sym, List, [], ◌∷◌, true, false, Bytes, length, if◌then◌else◌,
  arith, =ᵇ_iff,
}
use nazg.Base.Members.{contains_bytes, AreDistinctTexts}
use nazg.Brain.Similarity.{Ratio, to_set, intersection, jaccard, similarity_of_tokens}

contains_bytes-to_set :
    (u : Bytes) (ts : List Bytes) → contains_bytes u (to_set ts) ≡ contains_bytes u ts
contains_bytes-to_set u [] = refl
contains_bytes-to_set u (t ∷ ts) =
    ground (arith, contains_bytes-to_set u ts, contains_bytes-to_set t ts, =ᵇ_iff t u)

to_set-AreDistinctTexts : (ts : List Bytes) → AreDistinctTexts (to_set ts)
to_set-AreDistinctTexts [] = tt
to_set-AreDistinctTexts (t ∷ ts) =
    ground (arith, contains_bytes-to_set t ts, to_set-AreDistinctTexts ts)

intersection_nil : (b : List Bytes) → intersection b [] ≡ []
intersection_nil [] = refl
intersection_nil (u ∷ b) = intersection_nil b

intersection_cons :
    (t : Bytes) (a b : List Bytes)
    → contains_bytes t a ≡ false
    → AreDistinctTexts b
    → length (intersection b (t ∷ a))
      ≡ (if contains_bytes t b then 1 else 0) + length (intersection b a)
intersection_cons t a [] h d = omega arith
intersection_cons t a (u ∷ b) h d =
    ground (arith, =ᵇ_iff t u, =ᵇ_iff u t, intersection_cons t a b h d.1)

length-intersection_comm :
    (a b : List Bytes)
    → AreDistinctTexts a
    → AreDistinctTexts b
    → length (intersection a b) ≡ length (intersection b a)
length-intersection_comm [] b d e = ap length (sym (intersection_nil b))
length-intersection_comm (t ∷ a) b d e =
    ground (arith, intersection_cons t a b d.0 e, length-intersection_comm a b d.1 e)

length-intersection-le : (a b : List Bytes) → length (intersection a b) ≤ length a
length-intersection-le [] b = omega arith
length-intersection-le (t ∷ a) b = ground (arith, length-intersection-le a b)

pub contains_bytes_cons :
    (t u : Bytes) (b : List Bytes) → contains_bytes t b ≡ true → contains_bytes t (u ∷ b) ≡ true
contains_bytes_cons t u b h = ground (arith, h)

abbrev IsWithin : List Bytes → List Bytes → Type 0
IsWithin [] b = Unit
IsWithin (t ∷ a) b = (contains_bytes t b ≡ true) × IsWithin a b

intersection_within : (a b : List Bytes) → IsWithin a b → intersection a b ≡ a
intersection_within [] b h = refl
intersection_within (t ∷ a) b h = rw (h.0, intersection_within a b h.1) refl

IsWithin-cons : (u : Bytes) (a b : List Bytes) → IsWithin a b → IsWithin a (u ∷ b)
IsWithin-cons u [] b h = tt
IsWithin-cons u (t ∷ a) b h = (contains_bytes_cons t u b h.0, IsWithin-cons u a b h.1)

IsWithin-self : (a : List Bytes) → IsWithin a a
IsWithin-self [] = tt
IsWithin-self (t ∷ a) = (ground (arith, =ᵇ_iff t t), IsWithin-cons t a a (IsWithin-self a))

to_set_pos : (t : Bytes) (ts : List Bytes) → 0 < length (to_set (t ∷ ts))
to_set_pos t [] = omega arith
to_set_pos t (u ∷ ts) = ground (arith, to_set_pos u ts)

-- A similarity: a ratio from 0 to 1.
pub record IsSimilarity (r : Ratio) : Type 0 where
  pub positive : 0 < r.denominator
  pub at_most_one : r.numerator ≤ r.denominator

jaccard-IsSimilarity :
    (a b : List Bytes)
    → AreDistinctTexts a
    → AreDistinctTexts b
    → 0 < length a
    → IsSimilarity (jaccard a b)
jaccard-IsSimilarity a b d e p = ground (
  arith,
  length-intersection-le a b,
  length-intersection-le b a,
  length-intersection_comm a b d e,
)

pub similarity_of_tokens-IsSimilarity : (a b : List Bytes) → IsSimilarity (similarity_of_tokens a b)
similarity_of_tokens-IsSimilarity [] [] = omega arith
similarity_of_tokens-IsSimilarity [] (u ∷ us) = omega arith
similarity_of_tokens-IsSimilarity (t ∷ ts) [] = omega arith
similarity_of_tokens-IsSimilarity (t ∷ ts) (u ∷ us) =
    jaccard-IsSimilarity (to_set (t ∷ ts)) (to_set (u ∷ us)) (to_set-AreDistinctTexts (t ∷ ts))
      (to_set-AreDistinctTexts (u ∷ us)) (to_set_pos t ts)

pub similarity_of_tokens_comm :
    (a b : List Bytes) → similarity_of_tokens a b ≡ similarity_of_tokens b a
similarity_of_tokens_comm [] [] = refl
similarity_of_tokens_comm [] (u ∷ us) = refl
similarity_of_tokens_comm (t ∷ ts) [] = refl
similarity_of_tokens_comm (t ∷ ts) (u ∷ us) =
    jaccard_comm (to_set (t ∷ ts)) (to_set (u ∷ us)) (to_set-AreDistinctTexts (t ∷ ts))
      (to_set-AreDistinctTexts (u ∷ us))
  where
    jaccard_comm :
        (a b : List Bytes) → AreDistinctTexts a → AreDistinctTexts b → jaccard a b ≡ jaccard b a
    jaccard_comm a b d e = ground (arith, length-intersection_comm a b d e)

pub similarity_of_tokens_self :
    (a : List Bytes) → (similarity_of_tokens a a).numerator ≡ (similarity_of_tokens a a).denominator
similarity_of_tokens_self [] = refl
similarity_of_tokens_self (t ∷ ts) =
    let e =
      ap length (
        intersection_within (to_set (t ∷ ts)) (to_set (t ∷ ts))
          (IsWithin-self (to_set (t ∷ ts)))) in
    omega (arith, e)
