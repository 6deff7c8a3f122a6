-- ===== src/Mapper/Life/Calls.antt =====
-- A request of mapper_stablec/Mapper.cpp that goes to a backend, from what the backend's operation does.
use gralloc_gbm.Base.{◌≡◌, refl, subst, sym, ◌∙◌, true, false, some, ◌⊎◌, inl, inr}
use gralloc_gbm.Machine.{
  use_after_free, assertion_failed, signed_overflow, Outcome, done, fault, Action, pure, and_then,
}
use gralloc_gbm.Machine.Runs.{same_end, no_return, and_then_parts, carry_parts}
use gralloc_gbm.Platform.{Platform}
use gralloc_gbm.Table.Entries.{IsHash}
use gralloc_gbm.State.{State}
use gralloc_gbm.Handle.{Handle}
use gralloc_gbm.Mapper.DmaBuf.{DmaState}
use gralloc_gbm.Mapper.Tracked.{TracksAll}
use gralloc_gbm.Library.Start.{IsBroken, HasPhase}
use gralloc_gbm.Mapper.Front.{
  MapperBackendType, MapperSystem, MapperState, backend_of, select_mapper_backend, check_current,
  on_backend, in_library, in_dma,
}
use gralloc_gbm.Mapper.Front.Routing.{selected}
use gralloc_gbm.Mapper.Life.{
  IsKept, DmaPhase, tracking, IsReadyFor, Checks, usable, refused, faulty, check-Checks,
}

-- `CHECK_BACKEND` finds the backend of the handle usable, in the state `u`.
abbrev pub IsChecked :
    {W T V : Type 0}
    → Platform W T
    → MapperSystem W V
    → Handle
    → MapperState W T V
    → MapperState W T V
    → Type 0
IsChecked p v h s u =
    check_current p v (some (backend_of h)) (selected s (backend_of h)) ≡ done (true, u)

-- The run returns, and the mapper is kept.
abbrev pub Continues : {W T V R : Type 0} → Platform W T → Outcome (R × MapperState W T V) → Type 0
Continues {W} {T} {V} {R} p o = (r : R) × (t : MapperState W T V) × (o ≡ done (r, t)) × IsKept p t

-- So it is, unless the driver was freed before: then the run reads it.
pub data Serves {W T V R : Type 0} (p : Platform W T) (s : MapperState W T V)
    (o : Outcome (R × MapperState W T V)) : Type 0 where
  continues : Continues p o → Serves p s o
  reads_freed : o ≡ fault use_after_free → IsBroken p s.library → Serves p s o

-- The run returns, and the mapper is kept, or it fails an assertion or overflows.
abbrev pub Tries : {W T V R : Type 0} → Platform W T → Outcome (R × MapperState W T V) → Type 0
Tries p o = Continues p o ⊎ ((o ≡ fault assertion_failed) ⊎ (o ≡ fault signed_overflow))

-- So it is, unless the driver was freed before: then the run reads it.
pub data LockServes {W T V R : Type 0} (p : Platform W T) (s : MapperState W T V)
    (o : Outcome (R × MapperState W T V)) : Type 0 where
  serves : Serves p s o → LockServes p s o
  asserts : o ≡ fault assertion_failed → LockServes p s o
  overflows : o ≡ fault signed_overflow → LockServes p s o

-- If the run returns, the mapper is kept.
abbrev pub Keeps : {W T V R : Type 0} → Platform W T → Outcome (R × MapperState W T V) → Type 0
Keeps {W} {T} {V} {R} p o = (r : R) (t : MapperState W T V) → o ≡ done (r, t) → IsKept p t

module _ {W T V R : Type 0} (p : Platform W T) (s : MapperState W T V) where
  pub Continues-Keeps : (o : Outcome (R × MapperState W T V)) → Continues p o → Keeps p o
  Continues-Keeps o (r', t', e', k) r t e = same_end (IsKept p) e e' k

  pub Serves-Keeps : (o : Outcome (R × MapperState W T V)) → Serves p s o → Keeps p o
  Serves-Keeps o (continues c) r t e = Continues-Keeps o c r t e
  Serves-Keeps o (reads_freed f i) r t e = no_return f e

  pub LockServes-Keeps : (o : Outcome (R × MapperState W T V)) → LockServes p s o → Keeps p o
  LockServes-Keeps o (serves c) r t e = Serves-Keeps o c r t e
  LockServes-Keeps o (asserts f) r t e = no_return f e
  LockServes-Keeps o (overflows f) r t e = no_return f e

module _ {W T V R S : Type 0} (p : Platform W T) where
  -- What is made of the result changes nothing.
  pub Continues-pure :
      (o : Outcome (R × MapperState W T V)) (g : R → S)
      → Continues p o
      → Continues p (and_then o λ r. pure (g r))
  Continues-pure o g (r, t, e, k) = (g r, t, rw e refl, k)

  pub Tries-pure :
      (o : Outcome (R × MapperState W T V)) (g : R → S)
      → Tries p o
      → Tries p (and_then o λ r. pure (g r))
  Tries-pure o g (inl c) = inl (Continues-pure o g c)
  Tries-pure o g (inr (inl f)) = inr (inl (rw f refl))
  Tries-pure o g (inr (inr f)) = inr (inr (rw f refl))

  pub Keeps-pure :
      (o : Outcome (R × MapperState W T V)) (g : R → S)
      → Keeps p o
      → Keeps p (and_then o λ r. pure (g r))
  Keeps-pure o g k r t e =
      let (a, u, run, rest) = and_then_parts o _ e in same_end (IsKept p) rest refl (k a u run)

module _ {W T V : Type 0} (p : Platform W T) (v : MapperSystem W V) (hash : IsHash p) {A : Type 0}
    (h : Handle) (e : A) (call : MapperBackendType → Action (MapperState W T V) A)
    (s : MapperState W T V) where
  on_usable :
      (u : MapperState W T V)
      → IsChecked p v h s u
      → on_backend p v h e call s ≡ call (backend_of h) u
  unfolding on_backend select_mapper_backend
  on_usable u c = rw c refl

  on_refused :
      (u : MapperState W T V)
      → check_current p v (some (backend_of h)) (selected s (backend_of h)) ≡ done (false, u)
      → on_backend p v h e call s ≡ done (e, u)
  unfolding on_backend select_mapper_backend
  on_refused u c = rw c refl

  on_faulty :
      check_current p v (some (backend_of h)) (selected s (backend_of h)) ≡ fault use_after_free
      → on_backend p v h e call s ≡ fault use_after_free
  unfolding on_backend select_mapper_backend
  on_faulty c = rw c refl

  -- What an operation may start from.
  abbrev pub Starts : MapperState W T V → Type 0
  Starts u = IsReadyFor p (backend_of h) u × IsChecked p v h s u

  IsKept-selected : IsKept p s → IsKept p (selected s (backend_of h))
  IsKept-selected k = record { library = k.library; dma = k.dma }

  pub on_backend-Serves :
      IsKept p s
      → ((u : MapperState W T V) → Starts u → Continues p (call (backend_of h) u))
      → Serves p s (on_backend p v h e call s)
  on_backend-Serves k serve = by_check (check-Checks p v hash (backend_of h) _ (IsKept-selected k))
    where
      by_check :
          Checks p v (backend_of h) (selected s (backend_of h))
          → Serves p s (on_backend p v h e call s)
      by_check (usable u c ready) =
          let (r, t, run, after) = serve u (ready, c) in
          continues (r, t, on_usable u c ∙ run, after)
      by_check (refused u c after) = continues (e, u, on_refused u c, after)
      by_check (faulty c i) = reads_freed (on_faulty c) i

  pub on_backend-LockServes :
      IsKept p s
      → ((u : MapperState W T V) → Starts u → Tries p (call (backend_of h) u))
      → LockServes p s (on_backend p v h e call s)
  on_backend-LockServes k serve =
      by_check (check-Checks p v hash (backend_of h) _ (IsKept-selected k))
    where
      tried :
          (u : MapperState W T V)
          → IsChecked p v h s u
          → Tries p (call (backend_of h) u)
          → LockServes p s (on_backend p v h e call s)
      tried u c (inl (r, t, run, after)) = serves (continues (r, t, on_usable u c ∙ run, after))
      tried u c (inr (inl f)) = asserts (on_usable u c ∙ f)
      tried u c (inr (inr f)) = overflows (on_usable u c ∙ f)

      by_check :
          Checks p v (backend_of h) (selected s (backend_of h))
          → LockServes p s (on_backend p v h e call s)
      by_check (usable u c ready) = tried u c (serve u (ready, c))
      by_check (refused u c after) = serves (continues (e, u, on_refused u c, after))
      by_check (faulty c i) = serves (reads_freed (on_faulty c) i)

  pub on_backend-Keeps :
      IsKept p s
      → ((u : MapperState W T V) → Starts u → Keeps p (call (backend_of h) u))
      → Keeps p (on_backend p v h e call s)
  on_backend-Keeps k keep = by_check (check-Checks p v hash (backend_of h) _ (IsKept-selected k))
    where
      by_check :
          Checks p v (backend_of h) (selected s (backend_of h))
          → Keeps p (on_backend p v h e call s)
      by_check (usable u c ready) r t run = keep u (ready, c) r t (sym (on_usable u c) ∙ run)
      by_check (refused u c after) r t run = same_end (IsKept p) run (on_refused u c) after
      by_check (faulty c i) r t run = no_return (on_faulty c) run

module _ {W T V R : Type 0} (p : Platform W T) (u : MapperState W T V) where
  -- A call of the library, and one of the DMA-BUF backend.
  pub in_library-Keeps :
      (act : Action (State W T) R)
      → ((r : R) (t : State W T) → act u.library ≡ done (r, t) → HasPhase p t)
      → DmaPhase u.dma
      → Keeps p (in_library act u)
  in_library-Keeps act keep d r t e =
      let (t', run, same) = carry_parts (λ l. record u { library = l }) (act u.library) e in
      subst (IsKept p) same (record { library = keep r t' run; dma = d })

  pub in_dma-Keeps :
      (act : Action (DmaState V) R)
      → ((r : R) (t : DmaState V) → act u.dma ≡ done (r, t) → TracksAll t)
      → HasPhase p u.library
      → Keeps p (in_dma act u)
  in_dma-Keeps act keep l r t e =
      let (t', run, same) = carry_parts (λ d. record u { dma = d }) (act u.dma) e in
      subst (IsKept p) same (record { library = l; dma = tracking (keep r t' run) })
