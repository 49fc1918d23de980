-- ===== src/Brain/Learner/Classify.antt =====
-- A failure that is classified as one of the build is none of the linker, and what this means for the
-- suggestions of `generate_generic_suggestions`.
use nazg.Base.{
  ◌≡◌, ◌⊎◌, ◌∙◌, sym, refl, subst, true, false, some, [], ◌∷◌, Bytes, codes, ◌=ᵇ◌, if◌then◌else◌,
  arith, inl, inr,
}
use nazg.Brain.Learner.{infer_failure_type}
use nazg.Brain.Recovery.{Numbers, Failure}
use nazg.Brain.Recovery.Suggest.{
  is_linker_error, clean_suggestion, generate_generic_suggestions, build_suggestions,
  test_suggestions,
}

infer_failure_type-build :
    (command message : Bytes)
    → infer_failure_type command message ≡ codes "build"
    → is_linker_error message ≡ false
unfolding infer_failure_type
infer_failure_type-build command message h = ground (arith, h)

built_suggestions :
    (nums : Numbers) (failure : Failure)
    → (failure.failure_type =ᵇ codes "build") ≡ true
    → (failure.failure_type =ᵇ codes "test") ≡ false
    → is_linker_error failure.error_message ≡ false
    → generate_generic_suggestions nums failure ≡ some (clean_suggestion ∷ [])
unfolding generate_generic_suggestions build_suggestions test_suggestions
built_suggestions nums failure b t l = rw (b, t, l) refl

linked_suggestions :
    (nums : Numbers) (failure : Failure)
    → (failure.failure_type =ᵇ codes "build") ≡ false
    → (failure.failure_type =ᵇ codes "test") ≡ false
    → generate_generic_suggestions nums failure ≡ some []
unfolding generate_generic_suggestions build_suggestions test_suggestions
linked_suggestions nums failure b t = rw (b, t) refl

-- For a failure whose type is the one that `infer_failure_type` gives to its message, a type of build
-- makes a clean build the only generic suggestion, and for a type of link there is none. Restoring the
-- dependencies, which is meant for errors of the linker, is suggested for neither.
pub generate_generic_suggestions-inferred :
    (nums : Numbers) (failure : Failure) (command : Bytes)
    → failure.failure_type ≡ infer_failure_type command failure.error_message
    → (failure.failure_type ≡ codes "build") ⊎ (failure.failure_type ≡ codes "link")
    → generate_generic_suggestions nums failure
      ≡ some (if failure.failure_type =ᵇ codes "build" then clean_suggestion ∷ [] else [])
generate_generic_suggestions-inferred nums failure command e (inl built) =
    let b : (failure.failure_type =ᵇ codes "build") ≡ true =
      subst (λ t. (t =ᵇ codes "build") ≡ true) (sym built) refl in
    let t : (failure.failure_type =ᵇ codes "test") ≡ false =
      subst (λ t. (t =ᵇ codes "test") ≡ false) (sym built) refl in
    rw b (
      built_suggestions nums failure b t
        (infer_failure_type-build command failure.error_message (sym e ∙ built)))
generate_generic_suggestions-inferred nums failure command e (inr linked) =
    let b : (failure.failure_type =ᵇ codes "build") ≡ false =
      subst (λ t. (t =ᵇ codes "build") ≡ false) (sym linked) refl in
    let t : (failure.failure_type =ᵇ codes "test") ≡ false =
      subst (λ t. (t =ᵇ codes "test") ≡ false) (sym linked) refl in
    rw b (linked_suggestions nums failure b t)
