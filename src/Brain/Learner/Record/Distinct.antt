-- ===== src/Brain/Learner/Record/Distinct.antt =====
-- Recording failures never makes a second pattern of one signature.
use nazg.Base.{
  ℕ, ◌≡◌, ◌⊎◌, inl, inr, refl, sym, subst, Bool, true, false, Option, none, some, List, [], ◌∷◌,
  ◌++◌, Bytes, ltb, leb, length, if◌then◌else◌,
}
use nazg.Base.Members.{contains_bytes, AreDistinctTexts, AreDistinctTexts-concat}
use nazg.Brain.Recovery.{Numbers, ◌>>=◌}
use nazg.Brain.Patterns.{DbPattern, Pattern, full_row, parse_pattern, find_matching_patterns}
use nazg.Brain.Patterns.Learn.{
  PatternStore, FailureRow, NewPattern, SimilarFailure, new_pattern, link_all, learn_from,
  learn_pattern, find_similar_failures,
}
use nazg.Brain.Learner.{FailureContext}
use nazg.Brain.Learner.Record.{
  FailureTexts, failure_texts, ids_of_similar, learn_or_link, record_failure,
}

-- What the statements of the store do to the signatures in its table of patterns: the `INSERT` adds
-- one behind the others or fails, the other writes leave them, and the `SELECT` finds a row of the
-- signature if there is one.
pub record KeepsSignatures {S : Type 0} (store : PatternStore S)
    (record_with_context : FailureTexts → FailureContext → S → ℕ × S) (signatures : S → List Bytes)
    : Type 0 where
  pub finds :
      (signature : Bytes) (s : S)
      → store.get_pattern_by_signature signature s ≡ none
      → contains_bytes signature (signatures s) ≡ false
  pub inserts :
      (p : NewPattern) (s : S)
      → (signatures (store.record_pattern p s).1 ≡ signatures s)
        ⊎ (signatures (store.record_pattern p s).1 ≡ signatures s ++ p.signature ∷ [])
  pub updates : (id : ℕ) (s : S) → signatures (store.update_statistics id s) ≡ signatures s
  pub links : (fid id : ℕ) (s : S) → signatures (store.link_failure fid id s) ≡ signatures s
  pub records :
      (texts : FailureTexts) (context : FailureContext) (s : S)
      → signatures (record_with_context texts context s).1 ≡ signatures s

module _ {S : Type 0} (nums : Numbers) (store : PatternStore S)
    (record_with_context : FailureTexts → FailureContext → S → ℕ × S)
    (sort : List SimilarFailure → List SimilarFailure) (regex_search : Bytes → Bytes → Bool)
    (signatures : S → List Bytes)
    (keeps : KeepsSignatures store record_with_context signatures) where
  abbrev IsDistinctAt : S → Type 0
  IsDistinctAt s = AreDistinctTexts (signatures s)

  -- The state of the outcome, if there is one.
  abbrev AreDistinctBehind : Option (ℕ × S) → Type 0
  AreDistinctBehind none = Unit
  AreDistinctBehind (some (id, s)) = IsDistinctAt s

  by_equal : (s s' : S) → signatures s' ≡ signatures s → IsDistinctAt s → IsDistinctAt s'
  by_equal s s' e d = subst AreDistinctTexts (sym e) d

  link_all-distinct :
      (fids : List ℕ) (id : ℕ) (s : S)
      → IsDistinctAt s
      → IsDistinctAt (link_all nums store fids id s)
  link_all-distinct [] id s d = d
  link_all-distinct (fid ∷ fids) id s d =
      link_all-distinct fids id (store.link_failure fid id s)
        (by_equal s (store.link_failure fid id s) (keeps.links fid id s) d)

  record_pattern-distinct :
      (p : NewPattern) (s : S)
      → contains_bytes p.signature (signatures s) ≡ false
      → IsDistinctAt s
      → IsDistinctAt (store.record_pattern p s).1
  record_pattern-distinct p s h d = elim (keeps.inserts p s) [
    | inl same ↦ subst AreDistinctTexts (sym same) d
    | inr more ↦
        subst AreDistinctTexts (sym more) (AreDistinctTexts-concat (signatures s) p.signature d h)
  ]

  if_linked :
      (b : Bool) (s s' : S) → IsDistinctAt s → IsDistinctAt s' → IsDistinctAt (if b then s' else s)
  if_linked true s s' d d' = d'
  if_linked false s s' d d' = d

  learn_from-distinct :
      (first : FailureRow) (fids : List ℕ) (name : Bytes) (s : S) (o : Option DbPattern)
      → store.get_pattern_by_signature first.error_signature s ≡ o
      → IsDistinctAt s
      → AreDistinctBehind (learn_from nums store first fids name s o)
  learn_from-distinct first fids name s none e d =
      let p : NewPattern = new_pattern nums store first fids name s in
      let made = store.record_pattern p s in
      let there = record_pattern-distinct p s (keeps.finds first.error_signature s e) d in
      if_linked (ltb 0 made.0) made.1 (link_all nums store fids made.0 made.1) there
        (link_all-distinct fids made.0 made.1 there)
  learn_from-distinct first fids name s (some row) e d =
      parsed (parse_pattern nums (full_row nums row))
    where
      parsed :
          (o : Option Pattern)
          → AreDistinctBehind
              (o >>= λ existing. some (existing.id, store.update_statistics existing.id s))
      parsed none = tt
      parsed (some existing) =
          by_equal s (store.update_statistics existing.id s) (keeps.updates existing.id s) d

  learn_pattern-distinct :
      (fids : List ℕ) (name : Bytes) (s : S)
      → IsDistinctAt s
      → AreDistinctBehind (learn_pattern nums store fids name s)
  unfolding learn_pattern
  learn_pattern-distinct [] name s d = d
  learn_pattern-distinct (fid ∷ fids) name s d = with_first (store.get_failure fid s)
    where
      with_first :
          (o : Option FailureRow)
          → AreDistinctBehind (elim o [
            | none ↦ some (0, s)
            | some first ↦
                learn_from nums store first
                  (fid ∷ fids)
                  name
                  s
                  (store.get_pattern_by_signature first.error_signature s)
          ])
      with_first none = d
      with_first (some first) =
          learn_from-distinct first (fid ∷ fids) name s
            (store.get_pattern_by_signature first.error_signature s) refl d

  bound-distinct :
      (id : ℕ) (o : Option (ℕ × S))
      → AreDistinctBehind o
      → AreDistinctBehind (o >>= λ learned. some (id, learned.1))
  bound-distinct id none d = tt
  bound-distinct id (some learned) d = d

  learn_or_link-distinct :
      (id : ℕ) (fids : List ℕ) (o : Option (List Pattern)) (s : S)
      → IsDistinctAt s
      → AreDistinctBehind (
          o >>= λ found.
          learn_or_link nums store record_with_context sort regex_search id fids found s)
  learn_or_link-distinct id fids none s d = tt
  learn_or_link-distinct id fids (some []) s d =
      bound-distinct id (learn_pattern nums store fids [] s) (learn_pattern-distinct fids [] s d)
  learn_or_link-distinct id fids (some (pattern ∷ patterns)) s d =
      let updated = store.update_statistics pattern.id s in
      by_equal updated (store.link_failure id pattern.id updated)
        (keeps.links id pattern.id updated) (by_equal s updated (keeps.updates pattern.id s) d)

  learn_if-distinct :
      (b : Bool) (id : ℕ) (o : Option (ℕ × S)) (s : S)
      → AreDistinctBehind o
      → IsDistinctAt s
      → AreDistinctBehind (if b then o else some (id, s))
  learn_if-distinct true id o s d e = d
  learn_if-distinct false id o s d e = e

  record_failure-behind :
      (error_signature : Bytes) (context : FailureContext) (s : S)
      → IsDistinctAt s
      → AreDistinctBehind (
          record_failure nums store record_with_context sort regex_search error_signature context s)
  unfolding record_failure
  record_failure-behind error_signature context s d =
      let texts = failure_texts error_signature context in
      let (id, s') = record_with_context texts context s in
      let d' = by_equal s s' (keeps.records texts context s) d in
      let similar =
        find_similar_failures nums store sort error_signature context.error_message 10 s' in
      learn_if-distinct (ltb 0 id) id _ s'
        (learn_if-distinct (leb 3 (length similar)) id _ s'
          (learn_or_link-distinct id (ids_of_similar similar)
            (find_matching_patterns nums regex_search (store.patterns s') error_signature
              context.failure_type context.error_message)
            s' d')
          d')
        d'

  -- If no two patterns have one signature, none do after `record_failure` returns. Of the statements
  -- of the store it is used which signatures they add to the table and which they find there.
  pub record_failure-distinct :
      (error_signature : Bytes) (context : FailureContext) (s : S) (id : ℕ) (s' : S)
      → AreDistinctTexts (signatures s)
      → record_failure nums store record_with_context sort regex_search error_signature context s
        ≡ some (id, s')
      → AreDistinctTexts (signatures s')
  record_failure-distinct error_signature context s id s' d h =
      subst AreDistinctBehind h (record_failure-behind error_signature context s d)
