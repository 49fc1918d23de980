-- ===== src/Brain/Recovery/Auto/Asking.antt =====
-- The suggestions that the code makes itself: all but the clean build need a confirmation, and the
-- clean build is 0.4 sure.
use mathlib.Core.List.Memᴰ.{Memᴰ, head, tail}
use nazg.Base.{
  ℕ, ◌≡◌, refl, sym, subst, codes, ◌=ᵇ◌, ltb, not, is_empty, ◌&&◌, Option-cases, false, Option,
  none, some, List, [], ◌∷◌, ◌++◌, arith, Bool-cases, inl, inr, take, zero, suc,
}
use nazg.Brain.Similarity.{Ratio}
use nazg.Brain.Recovery.{Numbers, RecoveryAction, Sources, Failure, KnownPattern, Similar, ◌>>=◌}
use nazg.Brain.Recovery.Suggest.{
  from_related, from_patterns, from_similar, generate_from_pattern, resolved_suggestion,
  related_suggestion, restored_suggestion, similar_suggestion, add_found,
}
use nazg.Brain.Recovery.Auto.{is_eligible}
use nazg.Brain.Recovery.Auto.Eligible.{eligible}

module _ (threshold : Ratio) where
  -- Nothing of the list, if there is one, may be executed without a question.
  abbrev pub AsksFirst : Option (List RecoveryAction) → Type 0
  AsksFirst none = Unit
  AsksFirst (some actions) = eligible threshold actions ≡ []

  pub eligible-append :
      (xs ys : List RecoveryAction)
      → eligible threshold (xs ++ ys) ≡ eligible threshold xs ++ eligible threshold ys
  eligible-append [] ys = refl
  eligible-append (x ∷ xs) ys = ground (arith, eligible-append xs ys)

  pub eligible-take :
      (n : ℕ) (xs : List RecoveryAction)
      → eligible threshold xs ≡ []
      → eligible threshold (take n xs) ≡ []
  eligible-take zero xs h = refl
  eligible-take (suc n) [] h = refl
  eligible-take (suc n) (x ∷ xs) h = ground (arith, eligible-take n xs)

  pub eligible_mem :
      (a : RecoveryAction) (xs : List RecoveryAction)
      → eligible threshold xs ≡ []
      → Memᴰ a xs
      → is_eligible threshold a ≡ false
  eligible_mem a [] h m = elim m [ ]
  eligible_mem a (x ∷ xs) h (head e) =
      subst (λ y. is_eligible threshold y ≡ false) (sym e) (ground arith)
  eligible_mem a (x ∷ xs) h (tail m) = eligible_mem a xs (ground arith) m

  pub mem_eligible :
      (xs : List RecoveryAction)
      → ((a : RecoveryAction) → Memᴰ a xs → is_eligible threshold a ≡ false)
      → eligible threshold xs ≡ []
  mem_eligible [] f = refl
  mem_eligible (x ∷ xs) f = ground (arith, f x (head refl), mem_eligible xs (λ a m. f a (tail m)))

  pub AsksFirst-append :
      (o p : Option (List RecoveryAction))
      → AsksFirst o
      → AsksFirst p
      → AsksFirst (o >>= λ xs. p >>= λ ys. some (xs ++ ys))
  AsksFirst-append none p h k = tt
  AsksFirst-append (some xs) none h k = tt
  AsksFirst-append (some xs) (some ys) h k = ground (arith, eligible-append xs ys)

  -- The action that is suggested, if there is one, may not be executed without a question.
  abbrev AsksOne : Option (Option RecoveryAction) → Type 0
  AsksOne none = Unit
  AsksOne (some none) = Unit
  AsksOne (some (some action)) = is_eligible threshold action ≡ false

  module _ (nums : Numbers) (sources : Sources) where
    resolved_suggestion-AsksOne :
        (pattern : KnownPattern) (related : Failure)
        → AsksOne (resolved_suggestion nums pattern related)
    unfolding resolved_suggestion
    resolved_suggestion-AsksOne pattern related =
        elim (Option-cases (nums.stoll related.resolution_snapshot_id)) [
          | inl none_read ↦ rw none_read tt
          | inr (snapshot, read) ↦
              elim (Bool-cases (related.resolution_type =ᵇ codes "restore" && ltb 0 snapshot)) [
                | inl restores ↦ rw (read, restores) (ground arith)
                | inr other ↦ rw (read, other) tt
              ]
        ]

    related_suggestion-AsksOne :
        (pattern : KnownPattern) (o : Option Failure) → AsksOne (related_suggestion nums pattern o)
    unfolding related_suggestion
    related_suggestion-AsksOne pattern none = tt
    related_suggestion-AsksOne pattern (some related) =
        elim (Bool-cases (related.resolved =ᵇ codes "1")) [
          | inl resolved ↦ rw resolved (resolved_suggestion-AsksOne pattern related)
          | inr open_still ↦ rw open_still tt
        ]

    from_related-AsksFirst :
        (pattern : KnownPattern) (fids : List ℕ)
        → AsksFirst (from_related nums sources pattern fids)
    from_related-AsksFirst pattern [] = refl
    from_related-AsksFirst pattern (fid ∷ fids) =
        with_found (related_suggestion nums pattern (sources.get_failure fid))
          (related_suggestion-AsksOne pattern (sources.get_failure fid))
          (from_related nums sources pattern fids) (from_related-AsksFirst pattern fids)
      where
        with_found :
            (o : Option (Option RecoveryAction))
            → AsksOne o
            → (rest : Option (List RecoveryAction)) → AsksFirst rest
            → AsksFirst
                (o >>= λ found. elim found [ some action ↦ some (action ∷ []) | none ↦ rest ])
        with_found none h rest k = tt
        with_found (some none) h rest k = k
        with_found (some (some action)) h rest k = ground arith

    restored_suggestion-AsksOne :
        (sim : Similar) (failure : Failure) → AsksOne (restored_suggestion nums sim failure)
    unfolding restored_suggestion
    restored_suggestion-AsksOne sim failure =
        elim (Bool-cases (sim.resolution_type =ᵇ codes "restore")) [
          | inr other ↦ rw other tt
          | inl restores ↦ elim (Option-cases (nums.stoll failure.resolution_snapshot_id)) [
            | inl none_read ↦ rw (restores, none_read) tt
            | inr (snapshot, read) ↦ elim (Bool-cases (ltb 0 snapshot)) [
              | inl there ↦ rw (restores, read, there) (ground arith)
              | inr zeroed ↦ rw (restores, read, zeroed) tt
            ]
          ]
        ]

    similar_suggestion-AsksOne :
        (sim : Similar) (o : Option Failure) → AsksOne (similar_suggestion nums sim o)
    unfolding similar_suggestion
    similar_suggestion-AsksOne sim none = tt
    similar_suggestion-AsksOne sim (some failure) =
        elim (Bool-cases (sim.was_resolved && not (is_empty sim.resolution_type))) [
          | inl resolved ↦ rw resolved (restored_suggestion-AsksOne sim failure)
          | inr open_still ↦ rw open_still tt
        ]

    pub from_similar-AsksFirst : (sims : List Similar) → AsksFirst (from_similar nums sources sims)
    from_similar-AsksFirst [] = refl
    from_similar-AsksFirst (sim ∷ sims) =
        with_found (similar_suggestion nums sim (sources.get_failure sim.failure_id))
          (similar_suggestion-AsksOne sim (sources.get_failure sim.failure_id))
          (from_similar nums sources sims) (from_similar-AsksFirst sims)
      where
        with_found :
            (o : Option (Option RecoveryAction))
            → AsksOne o
            → (rest : Option (List RecoveryAction)) → AsksFirst rest
            → AsksFirst (o >>= λ found. rest >>= λ actions. some (add_found found actions))
        with_found none h rest k = tt
        with_found (some none) h none k = tt
        with_found (some none) h (some actions) k = k
        with_found (some (some action)) h none k = tt
        with_found (some (some action)) h (some actions) k = ground arith

    -- Without stored actions, a pattern suggests what its resolved failures suggest.
    pub from_patterns-AsksFirst :
        ((id : ℕ) → sources.actions_for_pattern id ≡ [])
        → (patterns : List KnownPattern) → AsksFirst (from_patterns nums sources patterns)
    from_patterns-AsksFirst no_rows [] = refl
    from_patterns-AsksFirst no_rows (pattern ∷ patterns) =
        AsksFirst-append (generate_from_pattern nums sources pattern.id)
          (from_patterns nums sources patterns)
          (rw (no_rows pattern.id) (generated (sources.get_pattern pattern.id)))
          (from_patterns-AsksFirst no_rows patterns)
      where
        generated :
            (o : Option KnownPattern)
            → AsksFirst (elim o [
              | none ↦ some []
              | some known ↦ from_related nums sources known known.failure_ids
            ])
        generated none = refl
        generated (some known) = from_related-AsksFirst known known.failure_ids
