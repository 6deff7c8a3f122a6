-- ===== src/Allocator/Kept.antt =====
-- Actions of the allocator service that leave its `mBackend` alone.
pub mod Runs
pub mod Check
use gralloc_gbm.Base.{
  ℕ, zero, suc, ◌≡◌, refl, subst, Bool, true, false, Option, none, some, List, [], ◌∷◌,
  if◌then◌else◌, Bool-cases, inl, inr, ◌++◌, ◌==◌, ◌||◌, not, arith,
}
use gralloc_gbm.Machine.{
  is_ok, Fault, Outcome, done, fault, Action, pure, stop, and_then, ◌>>=◌, of_outcome,
}
use gralloc_gbm.Machine.Runs.{and_then_parts}
use gralloc_gbm.Word.{is_negative}
use gralloc_gbm.Flags.{Config}
use gralloc_gbm.Platform.{Platform}
use gralloc_gbm.State.{State}
use gralloc_gbm.Handle.{Handle, Descriptor}
use gralloc_gbm.Buffer.{is_allocator_desc_supported, gralloc_gbm_android_buffer_new}
use gralloc_gbm.Allocator.{
  Info, Backend, gbm, dma_buf, Services, ServiceState, lift_outcome, library_call, system_call,
}
use gralloc_gbm.Allocator.Gbm.{
  release, release_all, hand_over, make_buffers, gralloc_gbm_allocate, gbm_allocate2,
}
use gralloc_gbm.Allocator.DmaBuf.{
  dma_is_ready, dma_init, alloc_system, make_dma_buffers, hand_over_dma, dma_allocate2,
}
use gralloc_gbm.Allocator.Service.{
  is_ready, init_backend, check_found, check_backend, backend_allocate2,
}

-- A run that faults, or that ends with `b` as the selected backend.
abbrev pub EndsWith : {W T A : Type 0} → Option Backend → Outcome (A × ServiceState W T) → Type 0
EndsWith b (done (a, t)) = t.backend ≡ b
EndsWith b (fault e) = Unit {0}

-- An action that leaves the selected backend alone.
pub record KeepsBackend {W T A : Type 0} (act : Action (ServiceState W T) A) : Type 0 where
  pub ends : (s : ServiceState W T) → EndsWith s.backend (act s)

module _ {W T : Type 0} where
  then_EndsWith :
      {A B : Type 0} (b : Option Backend) (o : Outcome (A × ServiceState W T))
      (k : A → Action (ServiceState W T) B)
      → EndsWith b o
      → ((a : A) → KeepsBackend (k a))
      → EndsWith b (and_then o k)
  then_EndsWith b (done (a, t)) k e keeps = subst (λ c. EndsWith c (k a t)) e ((keeps a).ends t)
  then_EndsWith b (fault x) k e keeps = tt

  pub keeps_then :
      {A B : Type 0} (act : Action (ServiceState W T) A) (k : A → Action (ServiceState W T) B)
      → KeepsBackend act
      → ((a : A) → KeepsBackend (k a))
      → KeepsBackend (act >>= k)
  keeps_then act k keeps rest = record {
    ends = λ s. then_EndsWith s.backend (act s) k (keeps.ends s) rest;
  }

  pub keeps_option :
      {X A : Type 0} (o : Option X) (l : Action (ServiceState W T) A)
      (r : X → Action (ServiceState W T) A)
      → KeepsBackend l
      → ((x : X) → KeepsBackend (r x))
      → KeepsBackend (elim o as (λ y. Action (ServiceState W T) A) [ none ↦ l | some x ↦ r x ])
  keeps_option none l r keeps_l keeps_r = keeps_l
  keeps_option (some x) l r keeps_l keeps_r = keeps_r x

  lifted :
      {A : Type 0} (s : ServiceState W T) (o : Outcome (A × State W T))
      → EndsWith s.backend (lift_outcome s o)
  lifted s (done (a, l)) = refl
  lifted s (fault e) = tt

  pub keeps_pure : {A : Type 0} {a : A} → KeepsBackend {W = W} {T = T} (pure a)
  keeps_pure = record { ends = λ s. refl }

  pub keeps_stop : {A : Type 0} {e : Fault} → KeepsBackend {W = W} {T = T} {A = A} (stop e)
  keeps_stop = record { ends = λ s. tt }

  pub keeps_library :
      {A : Type 0} (act : Action (State W T) A) → KeepsBackend {W = W} {T = T} (library_call act)
  keeps_library act = record { ends = λ s. lifted s (act s.library) }

  pub keeps_system : {A : Type 0} (f : W → A × W) → KeepsBackend {W = W} {T = T} (system_call f)
  keeps_system f = record { ends = λ s. refl }

  pub keeps_outcome : {A : Type 0} (o : Outcome A) → KeepsBackend {W = W} {T = T} (of_outcome o)
  keeps_outcome (done a) = record { ends = λ s. refl }
  keeps_outcome (fault e) = record { ends = λ s. tt }
