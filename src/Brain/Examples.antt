-- ===== src/Brain/Examples.antt =====
-- The claims about brain at concrete inputs.
use nazg.Base.{◌+◌, ◌*◌, ◌<◌, ◌≤◌, ◌≡◌, ◌↔◌, refl, List, [], ◌∷◌, Bytes, codes}
use nazg.Base.Split.{split_on}
use nazg.Base.Words.{words}
use nazg.Brain.Levenshtein.{levenshtein_distance}
use nazg.Brain.Levenshtein.Script.{Edit, steps, HasScript}
use nazg.Brain.Levenshtein.Least.{levenshtein_distance-least}
use nazg.Brain.Similarity.{ratio, compute_similarity}
use nazg.Brain.Similarity.Range.{IsOne, compute_similarity_range}
use nazg.Brain.Recovery.Params.{json_to_params, params_to_json}
use nazg.Brain.Recovery.Params.RoundTrip.{json_to_params-params_to_json}

-- Two letters of the words differ and one is added.
distance_of_kitten : levenshtein_distance (codes "kitten") (codes "sitting") ≡ 3
unfolding levenshtein_distance
distance_of_kitten = refl

levenshtein_distance-least_example :
    HasScript
      (codes "kitten")
      (codes "sitting")
      (levenshtein_distance (codes "kitten") (codes "sitting"))
    × ((e : Edit (codes "kitten") (codes "sitting"))
        → levenshtein_distance (codes "kitten") (codes "sitting") ≤ steps e)
levenshtein_distance-least_example = levenshtein_distance-least (codes "kitten") (codes "sitting")

abbrev first_message : Bytes
first_message = codes "error: file foo.cpp not found"

abbrev second_message : Bytes
second_message = codes "error: file bar.cpp not found"

-- Half of the tokens, and 26 of the 29 bytes, are the same.
similarity_of_messages :
    compute_similarity first_message second_message
    ≡ ratio (7 * (4 * 29) + 3 * (26 * 6)) (10 * (6 * 29))
unfolding compute_similarity levenshtein_distance words
similarity_of_messages = refl

compute_similarity_range_example :
    (0 < (compute_similarity first_message second_message).denominator)
    × ((compute_similarity first_message second_message).numerator
        ≤ (compute_similarity first_message second_message).denominator)
    × (IsOne (compute_similarity first_message second_message) ↔ (first_message ≡ second_message))
    × (compute_similarity first_message second_message
        ≡ compute_similarity second_message first_message)
compute_similarity_range_example = compute_similarity_range first_message second_message

abbrev two_params : List (Bytes × Bytes)
two_params = (codes "command", codes "make") ∷ (codes "snapshot_id", codes "17") ∷ []

params_text_of_two :
    params_to_json two_params ≡ codes "{\"command\":\"make\",\"snapshot_id\":\"17\"}"
unfolding params_to_json
params_text_of_two = refl

json_to_params-params_to_json_example : json_to_params (params_to_json two_params) ≡ two_params
json_to_params-params_to_json_example =
    json_to_params-params_to_json two_params ((refl, tt), (tt, tt)) (refl, refl, (refl, refl, tt))

-- A comma in a value ends it.
comma_in_value :
    json_to_params (params_to_json ((codes "command", codes "make a,b") ∷ []))
    ≡ (codes "command", codes "make a") ∷ []
unfolding json_to_params params_to_json split_on
comma_in_value = refl
