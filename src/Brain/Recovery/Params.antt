-- ===== src/Brain/Recovery/Params.antt =====
-- modules/brain/src/recovery.cpp: the parameters of an action as a text, `params_to_json` and
-- `json_to_params`.
pub mod RoundTrip
use nazg.Base.{
  ℕ, Bool, true, false, Option, none, some, List, [], ◌∷◌, ◌++◌, ◌||◌, Bytes, codes, ◌=ᵇ◌, ◌==◌,
  is_empty, drop_front, drop_end, cut_at, if◌then◌else◌,
}
use nazg.Base.Dict.{Dict, insert}
use nazg.Base.Split.{split_on}

-- `text.erase(std::remove(..., b), ...)`
abbrev pub erase_byte : ℕ → Bytes → Bytes
erase_byte b [] = []
erase_byte b (c ∷ s) = if c == b then erase_byte b s else c ∷ erase_byte b s

-- One of the bytes of " \t\n\r".
abbrev pub is_trimmed : ℕ → Bool
is_trimmed c = c == 32 || c == 9 || c == 10 || c == 13

abbrev pub trim_text : Bytes → Bytes
trim_text s = drop_end is_trimmed (drop_front is_trimmed s)

abbrev pub plain : Bytes → Bytes
plain s = trim_text (erase_byte 34 s)

-- The body of the loop, for the text up to a comma.
abbrev pub add_param : Bytes → Dict Bytes → Dict Bytes
add_param pair params = elim (cut_at b':' pair) [
  | none ↦ params
  | some (key, value) ↦ insert (plain key) (plain value) params
]

abbrev pub add_params : List Bytes → Dict Bytes → Dict Bytes
add_params [] params = params
add_params (pair ∷ pairs) params = add_params pairs (add_param pair params)

unfoldable pub json_to_params : Bytes → Dict Bytes
json_to_params json =
    if is_empty json || json =ᵇ codes "{}"
    then []
    else add_params (split_on b',' (erase_byte 125 (erase_byte 123 json))) []

unfoldable pub quoted : Bytes → Bytes
quoted s = 34 ∷ (s ++ 34 ∷ [])

unfoldable pub param_text : Bytes × Bytes → Bytes
unfolding quoted
param_text (key, value) = quoted key ++ (b':' ∷ quoted value)

unfoldable pub params_text : Dict Bytes → Bytes
unfolding param_text
params_text [] = []
params_text (kv ∷ []) = param_text kv
params_text (kv ∷ next ∷ params) = param_text kv ++ (b',' ∷ params_text (next ∷ params))

unfoldable pub params_to_json : Dict Bytes → Bytes
unfolding params_text
params_to_json [] = codes "{}"
params_to_json (kv ∷ params) = 123 ∷ (params_text (kv ∷ params) ++ 125 ∷ [])
