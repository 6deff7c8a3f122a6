-- ===== src/Allocator/Kept/Check.antt =====
-- `CHECK_BACKEND` of allocator/Allocator.cpp leaves `mBackend` alone.
use gralloc_gbm.Base.{
  ◌≡◌, refl, Bool, true, false, Option, none, some, if◌then◌else◌, Bool-cases, inl, inr, arith,
}
use gralloc_gbm.Machine.{is_ok, done, pure, ◌>>=◌}
use gralloc_gbm.Machine.Runs.{and_then_parts}
use gralloc_gbm.Platform.{Platform}
use gralloc_gbm.Allocator.{Backend, gbm, dma_buf, Services, ServiceState}
use gralloc_gbm.Allocator.DmaBuf.{dma_is_ready, dma_init}
use gralloc_gbm.Allocator.Service.{is_ready, init_backend, check_found, check_backend}
use gralloc_gbm.Allocator.Kept.{KeepsBackend, keeps_then, keeps_pure, keeps_library}

module _ {W T : Type 0} (p : Platform W T) (v : Services W) where
  is_ready-KeepsBackend : (b : Backend) → KeepsBackend (is_ready p v b)
  unfolding is_ready dma_is_ready
  is_ready-KeepsBackend gbm = keeps_library _
  is_ready-KeepsBackend dma_buf = record { ends = λ s. refl }

  init_backend-KeepsBackend : (b : Backend) → KeepsBackend (init_backend p v b)
  unfolding init_backend dma_init
  init_backend-KeepsBackend gbm = keeps_library _
  init_backend-KeepsBackend dma_buf = record { ends = λ s. refl }

  check_found-KeepsBackend : (o : Option Backend) → KeepsBackend (check_found p v o)
  unfolding check_found
  check_found-KeepsBackend none = keeps_pure
  check_found-KeepsBackend (some b) = keeps_then _ _ (is_ready-KeepsBackend b) λ ready.
      elim (Bool-cases ready) [
        | inl usable ↦ rw usable keeps_pure
        | inr other ↦ rw other (keeps_then _ _ (init_backend-KeepsBackend b) λ ret. keeps_pure)
      ]

  -- `CHECK_BACKEND` leaves it alone too, and gives it.
  pub check_backend-KeepsBackend : KeepsBackend (check_backend p v)
  unfolding check_backend
  check_backend-KeepsBackend = record { ends = λ s. (check_found-KeepsBackend s.backend).ends s }

  if_gives : (k : Bool) (a b : Backend) → (if k then some a else none) ≡ some b → some a ≡ some b
  if_gives true a b e = e
  if_gives false a b e = absurd (cc)

  -- A backend that the check gives is the one it was given.
  pub check_found_gives :
      (o : Option Backend) (s t : ServiceState W T) (b : Backend)
      → check_found p v o s ≡ done (some b, t)
      → o ≡ some b
  unfolding check_found
  check_found_gives none s t b e = absurd (cc)
  check_found_gives (some a) s t b e =
      let (ready, u, run, rest) = and_then_parts (is_ready p v a s) _ e in by_ready ready u rest
    where
      by_ready :
          (ready : Bool) (u : ServiceState W T)
          → (if ready
                then pure (some a)
                else do ret ← init_backend p v a; pure (if is_ok ret then some a else none))
              u
            ≡ done (some b, t)
          → some a ≡ some b
      by_ready true u rest = ground (arith, rest)
      by_ready false u rest =
          let (ret, w, run, last) = and_then_parts (init_backend p v a u) _ rest in
          if_gives (is_ok ret) a b (ground (arith, last))
