-- ===== src/Allocator/Threads/Together.antt =====
-- What several threads of the allocator service do to one another's requests.
use gralloc_gbm.Base.{
  ℕ, ◌≡◌, ◌≢◌, refl, sym, ◌∙◌, subst, Bool, true, Option, none, some, ◌==◌, Bool-cases, inl, inr,
}
use gralloc_gbm.Machine.Runs.{same_end, and_then_parts}
use gralloc_gbm.Machine.{Ptr, Status, Outcome, done}
use gralloc_gbm.Flags.{Config}
use gralloc_gbm.Platform.{Platform}
use gralloc_gbm.Allocator.{Info, Backend, gbm, dma_buf, Services, ServiceState}
use gralloc_gbm.Allocator.Kept.{EndsWith}
use gralloc_gbm.Allocator.Kept.Runs.{backend_allocate2-KeepsBackend, gbm_is_supported-KeepsBackend}
use gralloc_gbm.Allocator.Kept.Check.{check_backend-KeepsBackend, check_found_gives}
use gralloc_gbm.Table.Entries.{IsHash}
use gralloc_gbm.Library.Start.{IsUnopened, IsSoundState}
use gralloc_gbm.Allocator.Main.{main}
use gralloc_gbm.Allocator.Started.{main_started}
use gralloc_gbm.Allocator.Service.{
  written, backend_allocate2, backend_is_supported, select_backend, check_backend,
}
use gralloc_gbm.Allocator.Gbm.{gbm_is_supported}
use gralloc_gbm.Allocator.DmaBuf.{dma_is_supported}
use gralloc_gbm.Allocator.Service.Selection.{select_backend_lem}
use gralloc_gbm.Allocator.Service.Selection
use gralloc_gbm.Allocator.Threads.{
  checked, Pool, serving, run_current, PoolStep, selecting, checking, running, PoolReach, here,
  after,
}

module _ {W T : Type 0} where
  -- The backend that a run ends with.
  pub ends_backend :
      {A : Type 0} {b : Option Backend} {o : Outcome (A × ServiceState W T)} {a : A}
      {t : ServiceState W T}
      → EndsWith b o
      → o ≡ done (a, t)
      → t.backend ≡ b
  ends_backend {A} {b} h e = subst (EndsWith b) e h

module _ {W T : Type 0} (c : Config) (p : Platform W T) (v : Services W) where
  pub run_current_lem :
      (b : Backend) (info : Info) (count : ℕ) (s : ServiceState W T)
      → s.backend ≡ some b
      → run_current c p v info count s ≡ backend_allocate2 c p v b info count s
  unfolding run_current
  run_current_lem b info count s e = rw e refl

  pub current_lem :
      (s t : ServiceState W T) (b : Backend)
      → check_backend p v s ≡ done (some b, t)
      → t.backend ≡ some b
  unfolding check_backend
  current_lem s t b e =
      ends_backend ((check_backend-KeepsBackend p v).ends s) e
      ∙ check_found_gives p v s.backend s t b e

  -- Some backend is selected.
  abbrev pub HasBackend : ServiceState W T → Type 0
  HasBackend t = (b : Backend) × (t.backend ≡ some b)

  -- No thread has passed the check, or a backend is selected.
  data IsSafe (x : Pool W T) : Type 0 where
    unchecked : ((i : ℕ) (info : Info) (count : ℕ) → x.phase i ≢ checked info count) → IsSafe x
    selected : HasBackend x.service → IsSafe x

  chosen-HasBackend :
      (info : Info) (by_gbm : Option Bool) (u : ServiceState W T)
      → HasBackend u
      → HasBackend (Selection.selected c p v info by_gbm u).1
  chosen-HasBackend info by_gbm u h = elim (Bool-cases (written by_gbm)) [
    | inl by_gbm_yes ↦ rw by_gbm_yes (gbm, refl)
    | inr by_gbm_no ↦ elim (Bool-cases (dma_is_supported info)) [
      | inl dma ↦ rw (by_gbm_no, dma) (dma_buf, refl)
      | inr none_left ↦ rw (by_gbm_no, none_left) h
    ]
  ]

  -- A selection that returns does not deselect.
  select-HasBackend :
      (info : Info) (s t : ServiceState W T) (r : Status)
      → select_backend c p v info s ≡ done (r, t)
      → HasBackend s
      → HasBackend t
  unfolding select_backend backend_is_supported
  select-HasBackend info s t r e (b, before) =
      let ((status, by_gbm), u, run, rest) = and_then_parts (gbm_is_supported c p v info s) _ e in
      let kept = ends_backend ((gbm_is_supported-KeepsBackend c p v info).ends s) run ∙ before in
      same_end HasBackend e (select_backend_lem c p v info s u status by_gbm run)
        (chosen-HasBackend info by_gbm u (b, kept))

  step-IsSafe : {x y : Pool W T} → IsSafe x → PoolStep c p v x y → IsSafe y
  step-IsSafe (selected h) (selecting i info count r t at e) =
      selected (select-HasBackend info _ t r e h)
  step-IsSafe {x} (unchecked none_yet) (selecting i info count r t at e) =
      unchecked (λ j info' count'. elim (Bool-cases (j == i)) [
        | inl hit ↦ rw hit (λ e'. cc)
        | inr miss ↦ rw miss (none_yet j info' count')
      ])
  step-IsSafe h (checking i info count (some b) t at e) = selected (b, current_lem _ t b e)
  step-IsSafe {x} (selected (b, before)) (checking i info count none t at e) =
      selected (b, ends_backend ((check_backend-KeepsBackend p v).ends x.service) e ∙ before)
  step-IsSafe {x} (unchecked none_yet) (checking i info count none t at e) =
      unchecked (λ j info' count'. elim (Bool-cases (j == i)) [
        | inl hit ↦ rw hit (λ e'. cc)
        | inr miss ↦ rw miss (none_yet j info' count')
      ])
  step-IsSafe (unchecked none_yet) (running i info count r t at e) =
      absurd (none_yet i info count at)
  step-IsSafe {x} (selected (b, before)) (running i info count r t at e) = selected (
    b,
    ends_backend ((backend_allocate2-KeepsBackend c p v b info count).ends x.service)
          (sym (run_current_lem b info count x.service before) ∙ e)
        ∙ before,
  )

  Reach-IsSafe : {x y : Pool W T} → IsSafe x → PoolReach c p v x y → IsSafe y
  Reach-IsSafe h here = h
  Reach-IsSafe h (after r e) = step-IsSafe (Reach-IsSafe h r) e

  -- A thread that has passed the check is run by some backend: it does not dereference a null
  -- `mBackend`.
  abbrev pub Runs : Pool W T → Type 0
  Runs y =
      (i : ℕ) (info : Info) (count : ℕ)
      → y.phase i ≡ checked info count
      → (b : Backend) × (y.service.backend ≡ some b)
        × (run_current c p v info count y.service ≡ backend_allocate2 c p v b info count y.service)

  safe-Runs : (y : Pool W T) → IsSafe y → Runs y
  safe-Runs y (unchecked none_yet) i info count at = absurd (none_yet i info count at)
  safe-Runs y (selected (b, e)) i info count at = (b, e, run_current_lem b info count y.service e)

  -- Once the thread pool has started, the library is sound, and the allocator of the DMA-BUF backend
  -- exists. However the selections, checks and runs of any requests of its threads, each taken as one
  -- step, are then ordered: a backend is selected whenever a thread has passed the check, and the
  -- thread's request is run by the backend that is selected then, never through a null `mBackend`.
  pub checked-Runs :
      (add_service : W → Bool × W) (hash : IsHash p)
      (registers : (w : W) (bo : Ptr) → p.get_user_data (add_service w).1 bo ≡ p.get_user_data w bo)
      (s t : ServiceState W T)
      → IsUnopened p s.library
      → main p v add_service s ≡ done (true, t)
      → (y : Pool W T) → PoolReach c p v (serving t) y
      → IsSoundState p t.library × (t.has_heaps ≡ true) × Runs y
  checked-Runs add_service hash registers s t unopened started y r =
      let (sound, heaps) = main_started p v add_service hash registers s t unopened started in
      (sound, heaps, safe-Runs y (Reach-IsSafe (unchecked (λ i info count e. cc)) r))
