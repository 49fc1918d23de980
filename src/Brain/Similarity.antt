-- ===== src/Brain/Similarity.antt =====
-- How alike two error messages are (modules/brain/src/pattern_matcher.cpp, `compute_similarity` and
-- the functions below it). A similarity is an exact ratio where the code has a double: the rounding
-- of the code's sums and quotients is not modelled. Bytes above 127 are neither punctuation nor
-- letters, as in the classic locale.
pub mod Tokens
pub mod Range
use nazg.Base.{
  ℕ, suc, ◌+◌, ◌-◌, ◌*◌, List, [], ◌∷◌, map, Bool, true, false, not, ◌&&◌, ◌||◌, Bytes, length, ltb,
  leb, if◌then◌else◌, max, is_empty, to_lower,
}
use nazg.Base.Members.{contains_bytes}
use nazg.Base.Words.{words}
use nazg.Brain.Levenshtein.{levenshtein_distance}

pub record Ratio : Type 0 where
  pub numerator : ℕ
  pub denominator : ℕ

abbrev pub ratio : ℕ → ℕ → Ratio
ratio n d = record { numerator = n; denominator = d }

abbrev pub levenshtein_similarity : Bytes → Bytes → Ratio
levenshtein_similarity [] [] = ratio 1 1
levenshtein_similarity [] (d ∷ b) = ratio 0 1
levenshtein_similarity (c ∷ a) [] = ratio 0 1
levenshtein_similarity (c ∷ a) (d ∷ b) =
    let max_len : ℕ = max (length (c ∷ a)) (length (d ∷ b)) in
    ratio (max_len - levenshtein_distance (c ∷ a) (d ∷ b)) max_len

abbrev pub is_digit : ℕ → Bool
is_digit c = leb b'0' c && leb c b'9'

-- `std::ispunct`
abbrev pub is_punct : ℕ → Bool
is_punct c =
    (leb 33 c && leb c 47)
    || (leb 58 c && leb c 64)
    || (leb 91 c && leb c 96)
    || (leb 123 c && leb c 126)

abbrev pub erase_punct : Bytes → Bytes
erase_punct [] = []
erase_punct (c ∷ s) = if is_punct c then erase_punct s else c ∷ erase_punct s

abbrev pub all_digits : Bytes → Bool
all_digits [] = true
all_digits (c ∷ s) = is_digit c && all_digits s

abbrev pub token : Bytes → Bytes
token word = erase_punct (map to_lower word)

abbrev pub is_token : Bytes → Bool
is_token word = ltb 2 (length word) && not (all_digits word)

abbrev pub tokens : List Bytes → List Bytes
tokens [] = []
tokens (word ∷ rest) = if is_token (token word) then token word ∷ tokens rest else tokens rest

unfoldable pub tokenize_error : Bytes → List Bytes
tokenize_error error = tokens (words error)

-- `std::unordered_set<std::string>(tokens.begin(), tokens.end())`, in an order that nothing reads.
abbrev pub to_set : List Bytes → List Bytes
to_set [] = []
to_set (t ∷ ts) = if contains_bytes t ts then to_set ts else t ∷ to_set ts

abbrev pub intersection : List Bytes → List Bytes → List Bytes
intersection [] b = []
intersection (t ∷ a) b = if contains_bytes t b then t ∷ intersection a b else intersection a b

abbrev pub jaccard : List Bytes → List Bytes → Ratio
jaccard a b =
    let common : ℕ = length (intersection a b) in ratio common (length a + length b - common)

abbrev pub similarity_of_tokens : List Bytes → List Bytes → Ratio
similarity_of_tokens [] [] = ratio 1 1
similarity_of_tokens [] (u ∷ us) = ratio 0 1
similarity_of_tokens (t ∷ ts) [] = ratio 0 1
similarity_of_tokens (t ∷ ts) (u ∷ us) = jaccard (to_set (t ∷ ts)) (to_set (u ∷ us))

unfoldable pub token_similarity : Bytes → Bytes → Ratio
token_similarity a b = similarity_of_tokens (tokenize_error a) (tokenize_error b)

-- `0.7 * tok_sim + 0.3 * lev_sim`
abbrev pub weighted : Ratio → Ratio → Ratio
weighted tok lev =
    ratio (7 * (tok.numerator * lev.denominator) + 3 * (lev.numerator * tok.denominator))
      (10 * (tok.denominator * lev.denominator))

unfoldable pub compute_similarity : Bytes → Bytes → Ratio
unfolding token_similarity tokenize_error
compute_similarity a b = weighted (token_similarity a b) (levenshtein_similarity a b)
