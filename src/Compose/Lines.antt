-- ===== src/Compose/Lines.antt =====
-- modules/docker_monitor/src/compose_parser.cpp: the helpers on one line, and the loop over the
-- lines of a block.
use nazg.Base.{
  ℕ, zero, suc, ◌≡◌, ◌+◌, ◌≤◌, refl, Bool, true, false, Option, none, some, List, [], ◌∷◌, ◌||◌,
  arith, Bytes, ◌==◌, leb, length, is_empty, drop_front, drop_end, cut_at, unquote, drop_end_idem,
  if◌then◌else◌, Bool-cases, inl, inr,
}

abbrev pub is_blank : ℕ → Bool
is_blank c = c == b' ' || c == b'\t'

abbrev pub is_blank_or_end : ℕ → Bool
is_blank_or_end c = c == b' ' || c == b'\t' || c == b'\r' || c == b'\n'

unfoldable pub trim : Bytes → Bytes
trim str = drop_end is_blank_or_end (drop_front is_blank str)

unfoldable pub get_indent_level : Bytes → ℕ
get_indent_level [] = 0
get_indent_level (c ∷ line) =
    let rest = get_indent_level line in
    if c == b' ' then rest + 1 else if c == b'\t' then rest + 2 else 0

abbrev before_colon : Bytes → Option (Bytes × Bytes) → Bytes
before_colon trimmed none = trimmed
before_colon trimmed (some (before, behind)) = trim before

abbrev behind_colon : Option (Bytes × Bytes) → Bytes
behind_colon none = []
behind_colon (some (before, behind)) = unquote (trim behind)

unfoldable pub extract_key : Bytes → Bytes
unfolding trim
extract_key line = before_colon (trim line) (cut_at b':' (trim line))

unfoldable pub extract_value : Bytes → Bytes
unfolding trim
extract_value line = behind_colon (cut_at b':' (trim line))

abbrev pub starts_with : ℕ → Bytes → Bool
starts_with b [] = false
starts_with b (c ∷ s) = c == b

unfoldable pub is_list_item : Bytes → Bool
unfolding trim
is_list_item line = starts_with b'-' (trim line)

abbrev item_of : Bytes → Bytes
item_of [] = []
item_of (c ∷ s) = if c == b'-' then trim s else []

unfoldable pub extract_list_item : Bytes → Bytes
unfolding trim
extract_list_item line = item_of (trim line)

-- `trim(line).empty() || trim(line)[0] == '#'`
unfoldable pub is_skipped : Bytes → Bool
unfolding trim
is_skipped line = is_empty (trim line) || starts_with b'#' (trim line)

-- `trim(line).empty() || line[0] == '#'`, which most of the loops test instead.
unfoldable pub is_skipped_raw : Bytes → Bool
unfolding trim
is_skipped_raw line = is_empty (trim line) || starts_with b'#' line

-- `indent <= limit`, which ends a block.
unfoldable pub ends_block : ℕ → Bytes → Bool
unfolding get_indent_level
ends_block limit line = leb (get_indent_level line) limit

-- A loop whose body reads one line: it skips some lines, and stops at others without reading them.
unfoldable pub each_line {ℓ} :
    {S : Type ℓ}
    → (Bytes → Bool)
    → (Bytes → Bool)
    → (S → Bytes → S)
    → S
    → List Bytes
    → S × List Bytes
each_line skips stops body s [] = (s, [])
each_line skips stops body s (line ∷ rest) = elim (skips line) [
  | true ↦ each_line skips stops body s rest
  | false ↦ elim (stops line) [
    | true ↦ (s, line ∷ rest)
    | false ↦ each_line skips stops body (body s line) rest
  ]
]

-- A loop whose body may read further lines and returns what is left, on fuel.
unfoldable pub each_block {ℓ} :
    {S : Type ℓ}
    → ℕ
    → (Bytes → Bool)
    → (Bytes → Bool)
    → (S → Bytes → List Bytes → Option (S × List Bytes))
    → S
    → List Bytes
    → Option (S × List Bytes)
each_block fuel skips stops body s [] = some (s, [])
each_block zero skips stops body s (line ∷ rest) = none
each_block (suc fuel) skips stops body s (line ∷ rest) = elim (skips line) [
  | true ↦ each_block fuel skips stops body s rest
  | false ↦ elim (stops line) [
    | true ↦ some (s, line ∷ rest)
    | false ↦ elim (body s line rest) [
      | none ↦ none
      | some (s', rest') ↦ each_block fuel skips stops body s' rest'
    ]
  ]
]

-- The loop returns, and leaves no more lines than there were.
abbrev pub Returns {ℓ} : {S : Type ℓ} → ℕ → Option (S × List Bytes) → Type 0
Returns n none = ⊥
Returns n (some (s, rest)) = length rest ≤ n

pub Returns-mono {ℓ} :
    {S : Type ℓ} (m n : ℕ) (r : Option (S × List Bytes)) → m ≤ n → Returns m r → Returns n r
Returns-mono m n none h k = k
Returns-mono m n (some (s, rest)) h k = omega arith

pub each_line-le {ℓ} :
    {S : Type ℓ} (skips stops : Bytes → Bool) (body : S → Bytes → S) (s : S) (lines : List Bytes)
    → length (each_line skips stops body s lines).1 ≤ length lines
unfolding each_line
each_line-le skips stops body s [] = omega arith
each_line-le skips stops body s (line ∷ rest) = elim (Bool-cases (skips line)) [
  | inl skipped ↦ rw (skipped, each_line) (omega (arith, each_line-le skips stops body s rest))
  | inr read ↦ elim (Bool-cases (stops line)) [
    | inl stopped ↦ rw (read, stopped, each_line) (omega arith)
    | inr more ↦
        rw (read, more, each_line) (omega (arith, each_line-le skips stops body (body s line) rest))
  ]
]

-- Fuel for each line is enough, if the body returns.
pub each_block-Returns {ℓ} :
    {S : Type ℓ} (skips stops : Bytes → Bool)
    (body : S → Bytes → List Bytes → Option (S × List Bytes))
    → ((s : S) (line : Bytes) (rest : List Bytes) → Returns (length rest) (body s line rest))
    → (fuel : ℕ) (s : S) (lines : List Bytes) → length lines ≤ fuel
    → Returns (length lines) (each_block fuel skips stops body s lines)
unfolding each_block
each_block-Returns skips stops body h fuel s [] enough = omega arith
each_block-Returns skips stops body h zero s (line ∷ rest) enough = absurd (omega arith)
each_block-Returns {S = S} skips stops body h (suc fuel) s (line ∷ rest) enough =
    elim (Bool-cases (skips line)) [
      | inl skipped ↦
          rw (skipped, each_block)
            (Returns-mono (length rest) (suc (length rest))
              (each_block fuel skips stops body s rest) (omega arith)
              (each_block-Returns skips stops body h fuel s rest (omega arith)))
      | inr read ↦ elim (Bool-cases (stops line)) [
        | inl stopped ↦ rw (read, stopped, each_block) (omega arith)
        | inr more ↦
            rw (read, more, each_block)
              (later (body s line rest) (h s line rest)
                (λ s' rest' le. each_block-Returns skips stops body h fuel s' rest' (omega arith)))
      ]
    ]
  where
    later :
        (r : Option (S × List Bytes))
        → Returns (length rest) r
        → ((s' : S) (rest' : List Bytes)
            → length rest' ≤ length rest
            → Returns (length rest') (each_block fuel skips stops body s' rest'))
        → Returns
            (suc (length rest))
            (elim r [ none ↦ none | some (s', rest') ↦ each_block fuel skips stops body s' rest' ])
    later none k ih = k
    later (some (s', rest')) k ih =
        Returns-mono (length rest') (suc (length rest)) (each_block fuel skips stops body s' rest')
          (omega arith) (ih s' rest' k)

drop_front-drop_end :
    (s : Bytes)
    → drop_front is_blank (drop_end is_blank_or_end (drop_front is_blank s))
      ≡ drop_end is_blank_or_end (drop_front is_blank s)
drop_front-drop_end [] = refl
drop_front-drop_end (c ∷ s) = ground (arith, drop_front-drop_end s)

-- A second `trim` changes nothing.
pub trim_idem : (s : Bytes) → trim (trim s) ≡ trim s
unfolding trim
trim_idem s = rw (drop_front-drop_end s) (drop_end_idem is_blank_or_end (drop_front is_blank s))
