-- ===== src/Brain/Levenshtein/Script.antt =====
-- Edit scripts, which say what an edit edit distance is, and the edit_distance by recursion on the two texts.
use nazg.Base.{
  ℕ, suc, ◌+◌, ◌≤◌, ◌≡◌, refl, sym, subst, [], ◌∷◌, ◌++◌, Bytes, length, arith, ==_iff, Bool-cases,
  ◌==◌, inl, inr, ◌⊎◌, min,
}
use nazg.Brain.Levenshtein.{cost, min_cell}

-- A way to turn a text into another, from the front.
pub data Edit : Bytes → Bytes → Type 0 where
  done : Edit [] []
  keep : {s t : Bytes} (c : ℕ) → Edit s t → Edit (c ∷ s) (c ∷ t)
  replace : {s t : Bytes} (c d : ℕ) → Edit s t → Edit (c ∷ s) (d ∷ t)
  add : {s t : Bytes} (d : ℕ) → Edit s t → Edit s (d ∷ t)
  delete : {s t : Bytes} (c : ℕ) → Edit s t → Edit (c ∷ s) t

-- The number of its steps that change something.
unfoldable pub steps : {s t : Bytes} → Edit s t → ℕ
steps done = 0
steps (keep c e) = steps e
steps (replace c d e) = suc (steps e)
steps (add d e) = suc (steps e)
steps (delete c e) = suc (steps e)

-- The edit distance by recursion, from the front.
unfoldable pub edit_distance : Bytes → Bytes → ℕ
edit_distance [] t = length t
edit_distance (c ∷ s) [] = suc (length s)
edit_distance (c ∷ s) (d ∷ t) =
    min_cell c d (edit_distance s (d ∷ t)) (edit_distance (c ∷ s) t) (edit_distance s t)

pub edit_distance_nil : (s : Bytes) → edit_distance s [] ≡ length s
unfolding edit_distance
edit_distance_nil [] = refl
edit_distance_nil (c ∷ s) = refl

edit_distance_add : (s t : Bytes) (d : ℕ) → edit_distance s (d ∷ t) ≤ edit_distance s t + 1
unfolding edit_distance
edit_distance_add [] t d = omega arith
edit_distance_add (c ∷ s) t d = ground arith

edit_distance_delete : (s t : Bytes) (c : ℕ) → edit_distance (c ∷ s) t ≤ edit_distance s t + 1
unfolding edit_distance
edit_distance_delete s [] c = omega (arith, edit_distance_nil s)
edit_distance_delete s (d ∷ t) c = ground arith

edit_distance_replace :
    (s t : Bytes) (c d : ℕ) → edit_distance (c ∷ s) (d ∷ t) ≤ edit_distance s t + cost c d
unfolding edit_distance
edit_distance_replace s t c d = ground arith

-- No script is shorter than the edit distance.
pub edit_distance-le-steps : {s t : Bytes} (e : Edit s t) → edit_distance s t ≤ steps e
unfolding steps
edit_distance-le-steps done = unfold edit_distance in (omega arith)
edit_distance-le-steps (keep {s} {t} c e) =
    ground (arith, edit_distance_replace s t c c, edit_distance-le-steps e)
edit_distance-le-steps (replace {s} {t} c d e) =
    ground (arith, edit_distance_replace s t c d, edit_distance-le-steps e)
edit_distance-le-steps (add {s} {t} d e) =
    omega (arith, edit_distance_add s t d, edit_distance-le-steps e)
edit_distance-le-steps (delete {s} {t} c e) =
    omega (arith, edit_distance_delete s t c, edit_distance-le-steps e)

-- A script of a given number of steps.
abbrev pub HasScript : Bytes → Bytes → ℕ → Type 0
HasScript s t n = (e : Edit s t) × (steps e ≡ n)

shorter : {s t : Bytes} (c n : ℕ) → HasScript s t n → HasScript (c ∷ s) t (n + 1)
unfolding steps
shorter c n (e, h) = (delete c e, omega (arith, h))

longer : {s t : Bytes} (d n : ℕ) → HasScript s t n → HasScript s (d ∷ t) (n + 1)
unfolding steps
longer d n (e, h) = (add d e, omega (arith, h))

replaced : {s t : Bytes} (c d n : ℕ) → HasScript s t n → HasScript (c ∷ s) (d ∷ t) (n + cost c d)
unfolding steps
replaced {s} {t} c d n (e, h) = elim (Bool-cases (c == d)) [
  | inl same ↦
      subst (λ x. HasScript (c ∷ s) (x ∷ t) (n + cost c d)) ((==_iff c d).0 same)
        (keep c e, ground (arith, h, same))
  | inr other ↦ (replace c d e, ground (arith, h, other))
]

min_cases : (x y z : ℕ) → (min (min x y) z ≡ x) ⊎ (min (min x y) z ≡ y) ⊎ (min (min x y) z ≡ z)
min_cases x y z = ground arith

-- The script that is as long as the edit distance.
pub edit_distance-HasScript : (s t : Bytes) → HasScript s t (edit_distance s t)
unfolding edit_distance steps
edit_distance-HasScript [] [] = (done, refl)
edit_distance-HasScript [] (d ∷ t) =
    subst (HasScript [] (d ∷ t)) (omega arith) (longer d (length t) (edit_distance-HasScript [] t))
edit_distance-HasScript (c ∷ s) [] =
    subst (HasScript (c ∷ s) []) (omega (arith, edit_distance_nil s))
      (shorter c _ (edit_distance-HasScript s []))
edit_distance-HasScript (c ∷ s) (d ∷ t) =
    let up = shorter c _ (edit_distance-HasScript s (d ∷ t)) in
    let left = longer d _ (edit_distance-HasScript (c ∷ s) t) in
    let diagonal = replaced c d _ (edit_distance-HasScript s t) in
    elim (min_cases (edit_distance s (d ∷ t) + 1) (edit_distance (c ∷ s) t + 1)
      (edit_distance s t + cost c d)) [
        | inl h ↦ subst (HasScript (c ∷ s) (d ∷ t)) (sym h) up
        | inr (inl h) ↦ subst (HasScript (c ∷ s) (d ∷ t)) (sym h) left
        | inr (inr h) ↦ subst (HasScript (c ∷ s) (d ∷ t)) (sym h) diagonal
      ]

-- A script behind the reverse of another, on the reverses of the texts.
abbrev pub reverse_onto : Bytes → Bytes → Bytes
reverse_onto [] u = u
reverse_onto (c ∷ s) u = reverse_onto s (c ∷ u)

pub reverse_onto-reverse_onto :
    (s u v : Bytes) → reverse_onto (reverse_onto s u) v ≡ reverse_onto u (s ++ v)
reverse_onto-reverse_onto [] u v = refl
reverse_onto-reverse_onto (c ∷ s) u v = reverse_onto-reverse_onto s (c ∷ u) v

pub reversed :
    {s t u v : Bytes} (e : Edit s t) (f : Edit u v)
    → HasScript (reverse_onto s u) (reverse_onto t v) (steps e + steps f)
unfolding steps
reversed done f = (f, omega arith)
reversed (keep c e) f = let (g, h) = reversed e (keep c f) in (g, omega (arith, h))
reversed (replace c d e) f = let (g, h) = reversed e (replace c d f) in (g, omega (arith, h))
reversed (add d e) f = let (g, h) = reversed e (add d f) in (g, omega (arith, h))
reversed (delete c e) f = let (g, h) = reversed e (delete c f) in (g, omega (arith, h))
