-- ===== src/Layout/Direction/Nearest.antt =====
-- modules/tui/src/managers/layout.cpp: the pane that `get_pane_in_direction` chooses.
use nazg.Base.{
  ℕ, ◌≡◌, ◌≤◌, ◌<◌, ◌⊎◌, ◌≢◌, inl, inr, refl, none, some, true, false, Option, List, [], ◌∷◌, arith,
  map, contains, All, Bool-cases,
}
use nazg.Layout.{Node, get_all_panes}
use nazg.Layout.Areas.{Rect, calculate_positions, HasRatios, map-calculate_positions}
use nazg.Layout.Direction.{
  int_max, dummy_area, distance, is_candidate, is_better, scan, find_rect, get_pane_in_direction,
}
use nazg.Layout.Direction.Within.{
  IsWithin, calculate_positions-IsWithin, distance-le, find_rect-IsWithin,
}

abbrev pub Among : ℕ × Rect → List (ℕ × Rect) → Type 0
Among e [] = ⊥
Among e (x ∷ xs) = (e ≡ x) ⊎ Among e xs

module _ (current direction : ℕ) (c : Rect) where
  -- No candidate of the list is nearer than `bound`.
  abbrev pub NoneNearer : ℕ → List (ℕ × Rect) → Type 0
  NoneNearer bound =
      All (λ e. is_candidate current direction c e ≡ true → bound ≤ distance direction c e.1)

  abbrev pub Chosen : List (ℕ × Rect) → Option ℕ → ℕ → Type 0
  Chosen ps result bound =
      (pane : ℕ) × (r : Rect) × (result ≡ some pane)
      × Among (pane, r) ps
      × (is_candidate current direction c (pane, r) ≡ true)
      × (distance direction c r < bound)
      × NoneNearer (distance direction c r) ps

  NoneNearer-mono : (m n : ℕ) (ps : List (ℕ × Rect)) → m ≤ n → NoneNearer n ps → NoneNearer m ps
  NoneNearer-mono m n [] h k = tt
  NoneNearer-mono m n (e ∷ ps) h k = ((λ t. omega (arith, k.0 t)), NoneNearer-mono m n ps h k.1)

  scan_lem :
      (ps : List (ℕ × Rect)) (best : Option ℕ) (bound : ℕ)
      → ((scan current direction c ps best bound ≡ best) × NoneNearer bound ps)
        ⊎ Chosen ps (scan current direction c ps best bound) bound
  unfolding scan
  scan_lem [] best bound = inl (refl, tt)
  scan_lem ((pane, r) ∷ ps) best bound =
      elim (Bool-cases (is_better current direction c bound (pane, r))) [
        | inl better ↦ rw better (nearer better (scan_lem ps (some pane) (distance direction c r)))
        | inr worse ↦ rw worse (farther worse (scan_lem ps best bound))
      ]
    where
      nearer :
          {result : Option ℕ}
          → is_better current direction c bound (pane, r) ≡ true
          → ((result ≡ some pane) × NoneNearer (distance direction c r) ps)
            ⊎ Chosen ps result (distance direction c r)
          → ((result ≡ best) × NoneNearer bound ((pane, r) ∷ ps))
            ⊎ Chosen ((pane, r) ∷ ps) result bound
      nearer better (inl (e, far)) =
          inr (pane, r, e, inl refl, ground arith, ground arith, ((λ t. omega arith), far))
      nearer better (inr (pane', r', e, m, toward, lt, far)) =
          inr (pane', r', e, inr m, toward, ground arith, ((λ t. omega arith), far))

      farther :
          {result : Option ℕ}
          → is_better current direction c bound (pane, r) ≡ false
          → ((result ≡ best) × NoneNearer bound ps) ⊎ Chosen ps result bound
          → ((result ≡ best) × NoneNearer bound ((pane, r) ∷ ps))
            ⊎ Chosen ((pane, r) ∷ ps) result bound
      farther worse (inl (e, far)) = inl (e, ((λ t. ground arith), far))
      farther worse (inr (pane', r', e, m, toward, lt, far)) =
          inr (pane', r', e, inr m, toward, lt, ((λ t. ground arith), far))

NoneNearer-none :
    (current direction : ℕ) (c : Rect) (ps : List (ℕ × Rect))
    → IsWithin dummy_area c
    → All (λ e. IsWithin dummy_area e.1) ps
    → NoneNearer current direction c int_max ps
    → All (λ e. is_candidate current direction c e ≡ false) ps
NoneNearer-none current direction c [] hc w h = tt
NoneNearer-none current direction c (e ∷ ps) hc w h = (
  elim (Bool-cases (is_candidate current direction c e)) [
    | inl t ↦ absurd (omega (arith, h.0 t, distance-le direction c e.1 hc w.0))
    | inr f ↦ f
  ],
  NoneNearer-none current direction c ps hc w.1 h.1,
)

-- From a pane of a layout whose ratios are at most 1, the move leads to a nearest one of the other
-- panes whose center lies in the direction; it fails exactly if there is no such pane.
pub get_pane_in_direction-nearest :
    (t : Node) (current direction : ℕ) {c : Rect}
    → HasRatios t
    → find_rect current (calculate_positions t dummy_area) ≡ some c
    → ((get_pane_in_direction t current direction ≡ none)
        × All (λ e. is_candidate current direction c e ≡ false) (calculate_positions t dummy_area))
      ⊎ Chosen current direction c
          (calculate_positions t dummy_area)
          (get_pane_in_direction t current direction)
          int_max
unfolding get_pane_in_direction
get_pane_in_direction-nearest t current direction {c} h e =
    rw (e, get_pane_in_direction)
      (elim (scan_lem current direction c (calculate_positions t dummy_area) none int_max) [
        | inl (missing, far) ↦ inl (
          missing,
          NoneNearer-none current direction c (calculate_positions t dummy_area)
              (find_rect-IsWithin current c (calculate_positions t dummy_area) within e) within far,
        )
        | inr chosen ↦ inr chosen
      ])
  where
    within : All (λ p. IsWithin dummy_area p.1) (calculate_positions t dummy_area)
    within = calculate_positions-IsWithin t dummy_area h

Among-contains :
    (p : ℕ) (r : Rect) (ps : List (ℕ × Rect))
    → Among (p, r) ps
    → contains p (map (λ e. e.0) ps) ≡ true
Among-contains p r [] m = absurd m
Among-contains p r (e ∷ ps) (inl h) = ground arith
Among-contains p r (e ∷ ps) (inr m) = ground (arith, Among-contains p r ps m)

-- A move leads to another pane of the layout.
pub get_pane_in_direction-contains :
    (t : Node) (current direction p : ℕ)
    → get_pane_in_direction t current direction ≡ some p
    → (contains p (get_all_panes t) ≡ true) × (p ≢ current)
unfolding get_pane_in_direction
get_pane_in_direction-contains t current direction p e =
    start (find_rect current (calculate_positions t dummy_area)) refl
  where
    reached :
        (c : Rect)
        → scan current direction c (calculate_positions t dummy_area) none int_max ≡ some p
        → ((scan current direction c (calculate_positions t dummy_area) none int_max ≡ none)
            × NoneNearer current direction c int_max (calculate_positions t dummy_area))
          ⊎ Chosen current direction c
              (calculate_positions t dummy_area)
              (scan current direction c (calculate_positions t dummy_area) none int_max)
              int_max
        → (contains p (get_all_panes t) ≡ true) × (p ≢ current)
    reached c h (inl (missing, _)) = cc
    reached c h (inr (p', r, found, m, toward, _, _)) = ground (
      arith,
      map-calculate_positions t dummy_area,
      Among-contains p' r (calculate_positions t dummy_area) m,
    )

    start :
        (o : Option Rect)
        → find_rect current (calculate_positions t dummy_area) ≡ o
        → (contains p (get_all_panes t) ≡ true) × (p ≢ current)
    start none h = cc (rw (h, get_pane_in_direction) at e)
    start (some c) h =
        reached c (rw (h, get_pane_in_direction) at e)
          (scan_lem current direction c (calculate_positions t dummy_area) none int_max)
