-- ===== src/Brain/Levenshtein/Metric.antt =====
-- The edit edit distance is a metric on texts, and at most the length of the longer one.
use nazg.Base.{ℕ, suc, ◌+◌, ◌≤◌, ◌≡◌, ap, ◌∙◌, refl, subst, [], ◌∷◌, Bytes, length, arith, max, ◌↔◌}
use nazg.Brain.Levenshtein.{levenshtein_distance}
use nazg.Brain.Levenshtein.Script.{Edit, done, keep, replace, add, delete, steps, HasScript}
use nazg.Brain.Levenshtein.Least.{levenshtein_distance-least}

mirror : {s t : Bytes} (e : Edit s t) → HasScript t s (steps e)
unfolding steps
mirror done = (done, refl)
mirror (keep c e) = let (f, h) = mirror e in (keep c f, h)
mirror (replace c d e) = let (f, h) = mirror e in (replace d c f, ap suc h)
mirror (add d e) = let (f, h) = mirror e in (delete d f, ap suc h)
mirror (delete c e) = let (f, h) = mirror e in (add c f, ap suc h)

-- A script of at most a number of steps.
abbrev HasShortScript : Bytes → Bytes → ℕ → Type 0
HasShortScript s t n = (e : Edit s t) × (steps e ≤ n)

compose : {s t u : Bytes} (e : Edit s t) (f : Edit t u) → HasShortScript s u (steps e + steps f)
unfolding steps
compose e (add d f) = let (g, h) = compose e f in (add d g, omega (arith, h))
compose done done = (done, omega arith)
compose (delete c e) f = let (g, h) = compose e f in (delete c g, omega (arith, h))
compose (keep c e) (keep _ f) = let (g, h) = compose e f in (keep c g, omega (arith, h))
compose (keep c e) (replace _ d f) = let (g, h) = compose e f in (replace c d g, omega (arith, h))
compose (keep c e) (delete _ f) = let (g, h) = compose e f in (delete c g, omega (arith, h))
compose (replace b c e) (keep _ f) = let (g, h) = compose e f in (replace b c g, omega (arith, h))
compose (replace b c e) (replace _ d f) =
    let (g, h) = compose e f in (replace b d g, omega (arith, h))
compose (replace b c e) (delete _ f) = let (g, h) = compose e f in (delete b g, omega (arith, h))
compose (add c e) (keep _ f) = let (g, h) = compose e f in (add c g, omega (arith, h))
compose (add c e) (replace _ d f) = let (g, h) = compose e f in (add d g, omega (arith, h))
compose (add c e) (delete _ f) = let (g, h) = compose e f in (g, omega (arith, h))

unchanged : {s t : Bytes} (e : Edit s t) → steps e ≡ 0 → s ≡ t
unfolding steps
unchanged done h = refl
unchanged (keep c e) h = ap (λ r. c ∷ r) (unchanged e h)
unchanged (replace c d e) h = absurd (omega (arith, h))
unchanged (add d e) h = absurd (omega (arith, h))
unchanged (delete c e) h = absurd (omega (arith, h))

kept : (s : Bytes) → HasScript s s 0
unfolding steps
kept [] = (done, refl)
kept (c ∷ s) = let (e, h) = kept s in (keep c e, h)

-- A text is written over the other, letter by letter.
overwritten : (s t : Bytes) → HasShortScript s t (max (length s) (length t))
unfolding steps
overwritten [] [] = (done, omega arith)
overwritten [] (d ∷ t) = let (e, h) = overwritten [] t in (add d e, ground (arith, h))
overwritten (c ∷ s) [] = let (e, h) = overwritten s [] in (delete c e, ground (arith, h))
overwritten (c ∷ s) (d ∷ t) = let (e, h) = overwritten s t in (replace c d e, ground (arith, h))

-- The edit distance is at most the length of the longer text.
pub levenshtein_distance-le-max :
    (s t : Bytes) → levenshtein_distance s t ≤ max (length s) (length t)
levenshtein_distance-le-max s t =
    let (e, h) = overwritten s t in omega (arith, h, (levenshtein_distance-least s t).1 e)

pub levenshtein_distance-zero : (s t : Bytes) → (levenshtein_distance s t ≡ 0) ↔ (s ≡ t)
levenshtein_distance-zero s t = (
  λ z. let (e, h) = (levenshtein_distance-least s t).0 in unchanged e (h ∙ z),
  λ e.
      subst (λ r. levenshtein_distance s r ≡ 0) e
        (let (f, h) = kept s in omega (arith, h, (levenshtein_distance-least s s).1 f)),
)

levenshtein_distance_half : (s t : Bytes) → levenshtein_distance s t ≤ levenshtein_distance t s
levenshtein_distance_half s t =
    let (e, h) = (levenshtein_distance-least t s).0 in
    let (f, k) = mirror e in omega (arith, h, k, (levenshtein_distance-least s t).1 f)

pub levenshtein_distance_comm : (s t : Bytes) → levenshtein_distance s t ≡ levenshtein_distance t s
levenshtein_distance_comm s t =
    omega (arith, levenshtein_distance_half s t, levenshtein_distance_half t s)

pub levenshtein_distance_triangle :
    (s t u : Bytes) → levenshtein_distance s u ≤ levenshtein_distance s t + levenshtein_distance t u
levenshtein_distance_triangle s t u =
    let (e, h) = (levenshtein_distance-least s t).0 in
    let (f, k) = (levenshtein_distance-least t u).0 in
    let (g, m) = compose e f in omega (arith, h, k, m, (levenshtein_distance-least s u).1 g)

-- The edit edit distance is a metric: it is zero exactly for equal texts, it does not depend on their
-- order, and it is at most the way over any third text.
pub levenshtein_distance_metric :
    (s t u : Bytes)
    → ((levenshtein_distance s t ≡ 0) ↔ (s ≡ t))
      × (levenshtein_distance s t ≡ levenshtein_distance t s)
      × (levenshtein_distance s u ≤ levenshtein_distance s t + levenshtein_distance t u)
levenshtein_distance_metric s t u = (
  levenshtein_distance-zero s t,
  levenshtein_distance_comm s t,
  levenshtein_distance_triangle s t u,
)
