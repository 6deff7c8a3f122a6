-- ===== src/Machine/Runs.antt =====
-- The results of runs: two runs of the same computation, and the parts of a sequence.
use gralloc_gbm.Base.{◌≡◌, refl, sym, ◌∙◌, subst, arith}
use gralloc_gbm.Machine.{Fault, Outcome, done, fault, and_then, of_outcome, carry}

module _ {S R : Type 0} where
  -- What holds of the last state of a run holds of the state that another account gives.
  pub same_end :
      {o : Outcome (R × S)} {r r' : R} {t t' : S} (P : S → Type 0)
      → o ≡ done (r, t)
      → o ≡ done (r', t')
      → P t'
      → P t
  same_end {o} {r} {r'} {t} {t'} P e e' h =
      let same : done (r', t') ≡ done (r, t) = sym e' ∙ e in
      let state : t' ≡ t = ground (arith, same) in subst P state h

  pub same_result :
      {o : Outcome (R × S)} {r r' : R} {t t' : S} → o ≡ done (r, t) → o ≡ done (r', t') → r' ≡ r
  same_result {o} {r} {r'} {t} {t'} e e' =
      let same : done (r', t') ≡ done (r, t) = sym e' ∙ e in ground (arith, same)

  -- A run that faults does not return.
  pub no_return :
      {A : Type 0} {o : Outcome (R × S)} {x : Fault} {r : R} {t : S}
      → o ≡ fault x
      → o ≡ done (r, t)
      → A
  no_return {A} {o} {x} {r} {t} e e' =
      let clash : ◌≡◌ {A = Outcome (R × S)} (fault x) (done (r, t)) = sym e ∙ e' in absurd (cc)

-- A sequence returns only if both parts do.
pub and_then_parts :
    {S A B : Type 0} (o : Outcome (A × S)) (k : A → S → Outcome (B × S)) {b : B} {t : S}
    → and_then o k ≡ done (b, t)
    → (a : A) × (u : S) × (o ≡ done (a, u)) × (k a u ≡ done (b, t))
and_then_parts (done (a, u)) k h = (a, u, refl, h)
and_then_parts (fault x) k h = absurd (cc)

-- A pure function leaves the state as it is.
pub of_outcome_state :
    {S A : Type 0} (o : Outcome A) (s : S) {a : A} {t : S} → of_outcome o s ≡ done (a, t) → t ≡ s
of_outcome_state (done x) s h = ground arith
of_outcome_state (fault x) s h = absurd (cc)

-- A run on a part of a state that returns comes from one of that part.
pub carry_parts :
    {A S S' : Type 0} (put : S' → S) (o : Outcome (A × S')) {a : A} {t : S}
    → carry put o ≡ done (a, t)
    → (t' : S') × (o ≡ done (a, t')) × (put t' ≡ t)
carry_parts put (done (a, s)) h = (s, ground arith, ground arith)
carry_parts put (fault x) h = absurd (cc)
