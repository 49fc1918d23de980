-- ===== src/Brain/Levenshtein/Least.antt =====
-- The loops over rows find the length of a shortest edit script.
use nazg.Base.{
  ℕ, ◌+◌, ◌≤◌, ◌≡◌, ap, ◌∙◌, refl, sym, subst, List, [], ◌∷◌, append-nil, Bytes, length, arith,
}
use nazg.Brain.Levenshtein.{
  next_cells, next_row, last_row, first_row, last_cell, levenshtein_distance,
}
use nazg.Brain.Levenshtein.Script.{
  Edit, done, steps, HasScript, edit_distance, edit_distance_nil, edit_distance-le-steps,
  edit_distance-HasScript, reverse_onto, reverse_onto-reverse_onto, reversed,
}

-- The cells of a row: the distances of a reversed prefix of the first text from the reversed
-- prefixes of the second, which begin with `q` and end in the letters of the rest.
abbrev cells : Bytes → Bytes → Bytes → List ℕ
cells p q [] = []
cells p q (d ∷ t) = edit_distance p (d ∷ q) ∷ cells p (d ∷ q) t

abbrev row : Bytes → Bytes → Bytes → List ℕ
row p q t = edit_distance p q ∷ cells p q t

-- The inner loop goes from the row of a prefix to that of the prefix with one letter more.
next_cells_lem :
    (c : ℕ) (p q t : Bytes)
    → next_cells c (edit_distance (c ∷ p) q) (row p q t) t ≡ cells (c ∷ p) q t
unfolding next_cells edit_distance
next_cells_lem c p q [] = refl
next_cells_lem c p q (d ∷ t) =
    ap (λ r. edit_distance (c ∷ p) (d ∷ q) ∷ r) (next_cells_lem c p (d ∷ q) t)

next_row_lem :
    (c i : ℕ) (p t : Bytes) → i ≡ length p + 1 → next_row i c (row p [] t) t ≡ row (c ∷ p) [] t
next_row_lem c i p t h =
    let e : i ≡ edit_distance (c ∷ p) [] = omega (arith, edit_distance_nil (c ∷ p)) in
    subst (λ n. n ∷ next_cells c n (row p [] t) t ≡ row (c ∷ p) [] t) (sym e)
      (ap (λ r. edit_distance (c ∷ p) [] ∷ r) (next_cells_lem c p [] t))

last_row_lem :
    (i : ℕ) (s p t : Bytes)
    → i ≡ length p + 1
    → last_row i s (row p [] t) t ≡ row (reverse_onto s p) [] t
unfolding last_row
last_row_lem i [] p t h = refl
last_row_lem i (c ∷ s) p t h =
    ap (λ r. last_row (i + 1) s r t) (next_row_lem c i p t h)
    ∙ last_row_lem (i + 1) s (c ∷ p) t (omega arith)

first_row_lem : (q t : Bytes) → first_row (length q) t ≡ row [] q t
unfolding edit_distance
first_row_lem q [] = refl
first_row_lem q (d ∷ t) =
    ap (λ r. length q ∷ r)
      (subst (λ n. first_row n t ≡ row [] (d ∷ q) t) (omega arith) (first_row_lem (d ∷ q) t))

last_cell-row : (p q t : Bytes) → last_cell (row p q t) ≡ edit_distance p (reverse_onto t q)
last_cell-row p q [] = refl
last_cell-row p q (d ∷ t) = last_cell-row p (d ∷ q) t

pub levenshtein_distance-edit_distance :
    (s t : Bytes) → levenshtein_distance s t ≡ edit_distance (reverse_onto s []) (reverse_onto t [])
unfolding levenshtein_distance
levenshtein_distance-edit_distance s t =
    ap (λ r. last_cell (last_row 1 s r t)) (first_row_lem [] t)
    ∙ ap last_cell (last_row_lem 1 s [] t (omega arith))
    ∙ last_cell-row (reverse_onto s []) [] t

twice_reversed : (s : Bytes) → reverse_onto (reverse_onto s []) [] ≡ s
twice_reversed s = reverse_onto-reverse_onto s [] [] ∙ append-nil s

unreversed :
    (s t : Bytes) (n : ℕ) → HasScript (reverse_onto s []) (reverse_onto t []) n → HasScript s t n
unfolding steps
unreversed s t n (e, h) =
    let (f, k) = reversed e done in
    let there : HasScript (reverse_onto (reverse_onto s []) [])
        (reverse_onto (reverse_onto t []) []) n =
      (f, omega (arith, h, k)) in
    subst (λ x. HasScript s x n) (twice_reversed t)
      (subst (λ x. HasScript x (reverse_onto (reverse_onto t []) []) n) (twice_reversed s) there)

-- The edit edit distance that the rows compute is the least number of letters to add, delete or
-- replace: there is a script with as many such steps that turns the first text into the second,
-- and no script that does so has fewer.
pub levenshtein_distance-least :
    (s t : Bytes)
    → HasScript s t (levenshtein_distance s t)
      × ((e : Edit s t) → levenshtein_distance s t ≤ steps e)
unfolding steps
levenshtein_distance-least s t = rw (levenshtein_distance-edit_distance s t) (
  unreversed s t _ (edit_distance-HasScript (reverse_onto s []) (reverse_onto t [])),
  λ e. let (f, h) = reversed e done in omega (arith, h, edit_distance-le-steps f),
)
