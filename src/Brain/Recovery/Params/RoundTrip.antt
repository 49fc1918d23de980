-- ===== src/Brain/Recovery/Params/RoundTrip.antt =====
-- Parameters that were written are read back, if their texts are plain.
use nazg.Base.{
  ℕ, ◌≡◌, refl, ap, sym, subst, ◌=ᵇ◌, ◌∙◌, Bool, true, false, not, some, List, [], ◌∷◌, ◌++◌, ◌&&◌,
  ◌||◌, Bytes, codes, ◌==◌, ==_iff, contains, contains-append, cut_at, cut_at-append, append_assoc,
  append-nil, drop_end, arith,
}
use nazg.Base.Dict.{Dict, insert, IsSorted}
use nazg.Base.Dict.Behind.{AllBefore, AllBefore-concat, insert_last, AllBefore-nil}
use nazg.Base.Split.{split_on, split_on-part, split_on-last}
use nazg.Brain.Recovery.Params.{
  erase_byte, is_trimmed, trim_text, plain, add_param, add_params, json_to_params, quoted,
  param_text, params_text, params_to_json,
}

-- A byte that `json_to_params` takes as it is, wherever it stands.
abbrev pub is_plain : ℕ → Bool
is_plain c = not (is_trimmed c || c == 34 || c == b',' || c == b':' || c == 123 || c == 125)

abbrev pub all_plain : Bytes → Bool
all_plain [] = true
all_plain (c ∷ s) = is_plain c && all_plain s

abbrev pub ArePlain : Dict Bytes → Type 0
ArePlain [] = Unit
ArePlain ((key, value) ∷ params) =
    (all_plain key ≡ true) × (all_plain value ≡ true) × ArePlain params

plain-contains :
    (b : ℕ) (s : Bytes) → all_plain s ≡ true → is_plain b ≡ false → contains b s ≡ false
plain-contains b [] h k = refl
plain-contains b (c ∷ s) h k = ground (arith, plain-contains b s, ==_iff c b)

erase_byte_none : (b : ℕ) (s : Bytes) → contains b s ≡ false → erase_byte b s ≡ s
erase_byte_none b [] h = refl
erase_byte_none b (c ∷ s) h = ground (arith, erase_byte_none b s)

erase_byte-append : (b : ℕ) (s t : Bytes) → erase_byte b (s ++ t) ≡ erase_byte b s ++ erase_byte b t
erase_byte-append b [] t = refl
erase_byte-append b (c ∷ s) t = ground (arith, erase_byte-append b s t)

trim_plain : (s : Bytes) → all_plain s ≡ true → trim_text s ≡ s
trim_plain [] h = refl
trim_plain (c ∷ s) h = ground (arith, end_plain (c ∷ s) h)
  where
    end_plain : (t : Bytes) → all_plain t ≡ true → drop_end is_trimmed t ≡ t
    end_plain [] h = refl
    end_plain (c ∷ t) h = ground (arith, end_plain t)

plain-quoted : (s : Bytes) → all_plain s ≡ true → plain (quoted s) ≡ s
unfolding quoted
plain-quoted s h =
    ap trim_text (
      erase_byte-append 34 s (34 ∷ [])
      ∙ append-nil (erase_byte 34 s)
      ∙ erase_byte_none 34 s (plain-contains 34 s h refl))
    ∙ trim_plain s h

cut_at-quoted :
    (key value : Bytes)
    → all_plain key ≡ true
    → cut_at b':' (quoted key ++ b':' ∷ quoted value) ≡ some (quoted key, quoted value)
unfolding quoted
cut_at-quoted key value h =
    cut_at-append b':' (quoted key) (quoted value)
      (ground (arith, contains-append b':' key (34 ∷ []), plain-contains b':' key h))

add_param-param_text :
    (key value : Bytes) (params : Dict Bytes)
    → all_plain key ≡ true
    → all_plain value ≡ true
    → add_param (param_text (key, value)) params ≡ insert key value params
unfolding param_text
add_param-param_text key value params h k =
    ground (arith, cut_at-quoted key value h, plain-quoted key h, plain-quoted value k)

contains-quoted :
    (b : ℕ) (s : Bytes)
    → all_plain s ≡ true
    → is_plain b ≡ false
    → (b == 34) ≡ false
    → contains b (quoted s) ≡ false
unfolding quoted
contains-quoted b s h k q =
    ground (arith, contains-append b s (34 ∷ []), plain-contains b s h k, ==_iff 34 b, ==_iff b 34)

contains-param_text :
    (b : ℕ) (key value : Bytes)
    → all_plain key ≡ true
    → all_plain value ≡ true
    → is_plain b ≡ false
    → (b == 34) ≡ false
    → (b == b':') ≡ false
    → contains b (param_text (key, value)) ≡ false
unfolding param_text
contains-param_text b key value h k p q c = ground (
  arith,
  contains-append b (quoted key) (b':' ∷ quoted value),
  contains-quoted b key h p q,
  contains-quoted b value k p q,
  ==_iff b b':',
  ==_iff b':' b,
)

contains-append_false :
    (b : ℕ) (s t : Bytes)
    → contains b s ≡ false
    → contains b t ≡ false
    → contains b (s ++ t) ≡ false
contains-append_false b s t h k = ground (arith, contains-append b s t)

contains-params_text :
    (b : ℕ) (params : Dict Bytes)
    → ArePlain params
    → is_plain b ≡ false
    → (b == 34) ≡ false
    → (b == b':') ≡ false
    → (b',' == b) ≡ false
    → contains b (params_text params) ≡ false
unfolding params_text
contains-params_text b [] h p q c d = refl
contains-params_text b ((key, value) ∷ []) h p q c d = contains-param_text b key value h.0 h.1 p q c
contains-params_text b ((key, value) ∷ next ∷ params) h p q c d =
    contains-append_false b (param_text (key, value)) (b',' ∷ params_text (next ∷ params))
      (contains-param_text b key value h.0 h.1 p q c)
      (rw d (contains-params_text b (next ∷ params) h.2 p q c d))

abbrev param_texts : Dict Bytes → List Bytes
param_texts [] = []
param_texts (kv ∷ params) = param_text kv ∷ param_texts params

param_text-cons : (key value : Bytes) → (s : Bytes) × (param_text (key, value) ≡ 34 ∷ s)
unfolding param_text quoted
param_text-cons key value = (_, refl)

one_part :
    (s : Bytes) → (r : Bytes) × (s ≡ 34 ∷ r) → contains b',' s ≡ false → split_on b',' s ≡ s ∷ []
one_part s (r, e) h =
    subst (λ t. split_on b',' t ≡ t ∷ []) (sym e)
      (split_on-last b',' 34 r (subst (λ t. contains b',' t ≡ false) e h))

split_on-params_text :
    (params : Dict Bytes)
    → ArePlain params
    → split_on b',' (params_text params) ≡ param_texts params
unfolding params_text
split_on-params_text [] h = unfold split_on in refl
split_on-params_text ((key, value) ∷ []) h =
    one_part (param_text (key, value)) (param_text-cons key value)
      (contains-param_text b',' key value h.0 h.1 refl refl refl)
split_on-params_text ((key, value) ∷ next ∷ params) h =
    split_on-part b',' (param_text (key, value)) (params_text (next ∷ params))
      (contains-param_text b',' key value h.0 h.1 refl refl refl)
    ∙ ap (λ r. param_text (key, value) ∷ r) (split_on-params_text (next ∷ params) h.2)

add_params-param_texts :
    (m params : Dict Bytes)
    → ArePlain params
    → IsSorted params
    → AllBefore m params
    → add_params (param_texts params) m ≡ m ++ params
add_params-param_texts m [] h s b = sym (append-nil m)
add_params-param_texts m ((key, value) ∷ params) h s b =
    ap (add_params (param_texts params))
      (add_param-param_text key value m h.0 h.1 ∙ insert_last key value m b.0)
    ∙ add_params-param_texts (m ++ (key, value) ∷ []) params h.2 s.1
        (AllBefore-concat m key value params b.1 s.0)
    ∙ append_assoc m ((key, value) ∷ []) params

erased :
    (params : Dict Bytes)
    → ArePlain params
    → erase_byte 125 (erase_byte 123 (123 ∷ (params_text params ++ 125 ∷ []))) ≡ params_text params
erased params h =
    ap (erase_byte 125) (
      erase_byte-append 123 (params_text params) (125 ∷ [])
      ∙ ap (λ r. r ++ 125 ∷ [])
          (erase_byte_none 123 (params_text params)
            (contains-params_text 123 params h refl refl refl refl)))
    ∙ erase_byte-append 125 (params_text params) (125 ∷ [])
    ∙ append-nil (erase_byte 125 (params_text params))
    ∙ erase_byte_none 125 (params_text params)
        (contains-params_text 125 params h refl refl refl refl)

params_text-not_braces :
    (kv : Bytes × Bytes) (params : Dict Bytes)
    → ((123 ∷ (params_text (kv ∷ params) ++ 125 ∷ [])) =ᵇ codes "{}") ≡ false
unfolding params_text param_text quoted
params_text-not_braces kv [] = refl
params_text-not_braces kv (next ∷ params) = refl

-- What `params_to_json` writes, `json_to_params` reads back, for every `std::map` whose keys and
-- values hold no quote, comma, colon, brace, space, tab or line end.
pub json_to_params-params_to_json :
    (params : Dict Bytes)
    → IsSorted params
    → ArePlain params
    → json_to_params (params_to_json params) ≡ params
unfolding json_to_params params_to_json
json_to_params-params_to_json [] s h = refl
json_to_params-params_to_json ((key, value) ∷ params) s h =
    let whole : Dict Bytes = (key, value) ∷ params in
    rw (params_text-not_braces (key, value) params) (
      ap (λ r. add_params (split_on b',' r) []) (erased whole h)
      ∙ ap (λ r. add_params r []) (split_on-params_text whole h)
      ∙ add_params-param_texts [] whole h s (AllBefore-nil whole))
