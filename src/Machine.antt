-- ===== src/Machine.antt =====
-- The C abstract machine, as far as the program shows it: what an `int` result says, the ways in
-- which a run is undefined or stops, and the state monad of the modules above.
pub mod Runs
use gralloc_gbm.Base.{ℕ, ◌-◌, ◌^◌, Bool, true, false}

-- An `int` result: 0, or a negated error number.
pub data Status : Type 0 where
  ok einval enodev enomem : Status

-- The callers test a result against 0 only.
abbrev pub is_ok : Status → Bool
is_ok ok = true
is_ok _ = false

-- `-EINVAL` as a `uint32_t` or `int32_t` bit pattern; `EINVAL` is 22.
abbrev pub neg_einval : ℕ
neg_einval = 2 ^ 32 - 22

-- Undefined behaviour, a failed `assert`, and an exception that nothing
-- catches.
pub data Fault : Type 0 where
  null_deref use_after_free division_by_zero assertion_failed uncaught_exception empty_optional
        signed_overflow :
      Fault

pub data Outcome {ℓ} (A : Type ℓ) : Type ℓ where
  done : A → Outcome A
  fault : Fault → Outcome A

-- A run on a part of a state, as one on the whole state.
abbrev pub carry : {A S S' : Type 0} → (S' → S) → Outcome (A × S') → Outcome (A × S)
carry put (done (a, s)) = done (a, put s)
carry put (fault e) = fault e

-- An address; 0 is `NULL`.
abbrev pub Ptr : Type 0
Ptr = ℕ

abbrev pub null : Ptr
null = 0

abbrev pub Action : Type 0 → Type 0 → Type 0
Action S A = S → Outcome (A × S)

module _ {S : Type 0} where
  abbrev pub pure : {A : Type 0} → A → S → Outcome (A × S)
  pure a s = done (a, s)

  abbrev pub stop : {A : Type 0} → Fault → S → Outcome (A × S)
  stop e s = fault e

  abbrev pub and_then :
      {A B : Type 0} → Outcome (A × S) → (A → S → Outcome (B × S)) → Outcome (B × S)
  and_then (done (a, s)) k = k a s
  and_then (fault e) k = fault e

  infixl 5 ◌>>=◌ ◌>>◌
  abbrev pub ◌>>=◌ :
      {A B : Type 0} → (S → Outcome (A × S)) → (A → S → Outcome (B × S)) → S → Outcome (B × S)
  ◌>>=◌ m k s = and_then (m s) k

  abbrev pub ◌>>◌ :
      {B : Type 0} → (S → Outcome (Unit {0} × S)) → (S → Outcome (B × S)) → S → Outcome (B × S)
  m >> k = m >>= λ _. k

  abbrev pub modify : (S → S) → S → Outcome (Unit {0} × S)
  modify f s = done (tt, f s)

  abbrev pub gets : {A : Type 0} → (S → A) → S → Outcome (A × S)
  gets f s = done (f s, s)

  -- A pure function that may fault, as an action.
  abbrev pub of_outcome : {A : Type 0} → Outcome A → S → Outcome (A × S)
  of_outcome (done a) s = done (a, s)
  of_outcome (fault e) s = fault e
