-- ===== src/Allocator/Threads/Crossed.antt =====
-- A request of the allocator service, alone, and crossed by one of another thread.
use gralloc_gbm.Base.{
  ℕ, ◌≡◌, ◌≢◌, refl, sym, ◌∙◌, Option, none, some, ◌==◌, ==_ne, ==_refl, if◌then◌else◌,
}
use gralloc_gbm.Machine.{Status, ok, einval, Action, Outcome, done, fault, pure, and_then, ◌>>=◌}
use gralloc_gbm.Flags.{Config}
use gralloc_gbm.Hal.Pixel
use gralloc_gbm.Platform.{Platform}
use gralloc_gbm.Allocator.{
  BinderStatus, service_error, no_resources, Info, Allocation, Backend, gbm, dma_buf, Services,
  ServiceState,
}
use gralloc_gbm.Allocator.DmaBuf.{dma_allocate2}
use gralloc_gbm.Allocator.Service.{backend_allocate2, select_backend, check_backend, allocate2}
use gralloc_gbm.Allocator.Service.Selection.{select_blob}
use gralloc_gbm.Allocator.Threads.{
  idle, checked, Pool, run_current, selecting, checking, PoolReach, here, after,
}
use gralloc_gbm.Allocator.Threads.Together.{run_current_lem, current_lem}

-- Two sequences with the same first part.
and_then_same :
    {S A B : Type 0} (o : Outcome (A × S)) (k l : A → S → Outcome (B × S))
    → ((a : A) (t : S) → o ≡ done (a, t) → k a t ≡ l a t)
    → and_then o k ≡ and_then o l
and_then_same (done (a, t)) k l same = same a t refl
and_then_same (fault x) k l same = refl

module _ {W T : Type 0} (c : Config) (p : Platform W T) (v : Services W) where
  -- What follows the check, for a way to run the request.
  abbrev serve :
      (Backend → Action (ServiceState W T) (BinderStatus × Option Allocation))
      → Option Backend
      → Action (ServiceState W T) (BinderStatus × Option Allocation)
  serve run found = elim found [ none ↦ pure (service_error no_resources, none) | some b ↦ run b ]

  serve_current :
      (info : Info) (count : ℕ) (found : Option Backend) (t u : ServiceState W T)
      → check_backend p v t ≡ done (found, u)
      → serve (λ b. backend_allocate2 c p v b info count) found u
        ≡ serve (λ b. run_current c p v info count) found u
  serve_current info count none t u e = refl
  serve_current info count (some b) t u e =
      sym (run_current_lem c p v b info count u (current_lem c p v t u b e))

  -- A request that no other thread comes between does what `allocate2` says.
  allocate2_alone :
      (info : Info) (count : ℕ) (s : ServiceState W T)
      → allocate2 c p v info count s
        ≡ (select_backend c p v info >>= λ r.
              check_backend p v >>= λ found. serve (λ b. run_current c p v info count) found)
            s
  unfolding allocate2
  allocate2_alone info count s = and_then_same (select_backend c p v info s) _ _ λ r t selecting.
      and_then_same (check_backend p v t) _ _ λ found u e. serve_current info count found t u e

  -- Where two threads are idle, and the selection of the first returns and its check gives the GBM
  -- backend, the threads can be scheduled so that its request, which has passed the check, is run by the
  -- DMA-BUF backend: the second need only select for a blob of one row in between.
  pub crossed_by_blob :
      (x : Pool W T) (i j : ℕ) (info blob : Info) (count blobs : ℕ) (r : Status)
      (s t : ServiceState W T)
      → i ≢ j
      → x.phase i ≡ idle
      → x.phase j ≡ idle
      → select_backend c p v info x.service ≡ done (r, s)
      → check_backend p v s ≡ done (some gbm, t)
      → blob.format ≡ Pixel.blob
      → blob.size.height ≡ 1
      → (y : Pool W T) × PoolReach c p v x y
        × (y.phase i ≡ checked info count)
        × (run_current c p v info count y.service ≡ dma_allocate2 p v info count y.service)
  unfolding run_current backend_allocate2
  crossed_by_blob x i j info blob count blobs r s t ne idle_i idle_j select check is_blob one_row =
      (
        _,
        after
            (after (after here (selecting i info count r s idle_i select))
              (checking i info count (some gbm) t (rw (==_refl i) refl) check))
            (selecting j blob blobs ok (record t { backend = some dma_buf })
              (rw (==_ne j i (λ e. ne (sym e))) idle_j)
              (select_blob c p v blob t is_blob ∙ of_one_row)),
        rw (==_ne i j ne, ==_refl i) refl,
        refl,
      )
    where
      of_one_row :
          ◌≡◌ {A = Outcome (Status × ServiceState W T)}
            (done (
              if blob.size.height == 1
              then (ok, record t { backend = some dma_buf })
              else (einval, t)))
            (done (ok, record t { backend = some dma_buf }))
      of_one_row = rw one_row refl
