-- ===== src/Allocator/Started.antt =====
-- The service that allocator/Main.cpp has started.
use gralloc_gbm.Base.{◌≡◌, refl, sym, subst, Bool, true, false, not, if◌then◌else◌, arith}
use gralloc_gbm.Machine.{
  Ptr, Status, is_ok, assertion_failed, Outcome, done, fault, pure, stop, ◌>>=◌,
}
use gralloc_gbm.Machine.Runs.{and_then_parts, same_end, same_result}
use gralloc_gbm.Platform.{Platform}
use gralloc_gbm.State.{State}
use gralloc_gbm.Table.Entries.{IsHash}
use gralloc_gbm.Library.Start.{IsUnopened, IsSoundState, init-Opens}
use gralloc_gbm.Library.Outside.{world-IsSound}
use gralloc_gbm.Driver.{gralloc_gbm_init}
use gralloc_gbm.Allocator.{Services, ServiceState, lift_outcome, system_call}
use gralloc_gbm.Allocator.DmaBuf.{dma_init}
use gralloc_gbm.Allocator.Service.{init, init_backend}
use gralloc_gbm.Allocator.Main.{main}

lift_parts :
    {W T A : Type 0} (s : ServiceState W T) (o : Outcome (A × State W T)) {a : A}
    {t : ServiceState W T}
    → lift_outcome s o ≡ done (a, t)
    → (l : State W T) × (o ≡ done (a, l)) × (record s { library = l } ≡ t)
lift_parts s (done (a, l)) e = (l, ground (arith, e), ground (arith, e))
lift_parts s (fault x) e = absurd (cc)

module _ {W T : Type 0} (p : Platform W T) (v : Services W) (add_service : W → Bool × W)
    (hash : IsHash p)
    (registers : (w : W) (bo : Ptr)
      → p.get_user_data (add_service w).1 bo ≡ p.get_user_data w bo) where
  -- The state behind the registration.
  abbrev registered_in : ServiceState W T → ServiceState W T
  registered_in u = record u {
    library = record u.library { world = (add_service u.library.world).1 };
  }

  registered :
      (k : Bool) (u t : ServiceState W T)
      → (if not k
            then pure false
            else do r ← system_call add_service; if r then pure true else stop assertion_failed)
          u
        ≡ done (true, t)
      → (k ≡ true) × (registered_in u ≡ t)
  registered false u t e = absurd (cc)
  registered true u t e = (refl, by_answer (add_service u.library.world).0 (ground (arith, e)))
    where
      by_answer :
          (r : Bool)
          → (if r then pure true else stop assertion_failed) (registered_in u) ≡ done (true, t)
          → registered_in u ≡ t
      by_answer true e = ground (arith, e)
      by_answer false e = absurd (cc)

  init_parts :
      (s u : ServiceState W T) (ret : Status)
      → init p v s ≡ done (ret, u)
      → (l : State W T) × (gralloc_gbm_init p s.library ≡ done (ret, l))
        × (record s { library = l; has_heaps = true } ≡ u)
  unfolding init init_backend dma_init
  init_parts s u ret e = lift_parts (record s { has_heaps = true }) (gralloc_gbm_init p s.library) e

  -- If the thread pool starts, the library is sound, and the allocator of the DMA-BUF backend exists.
  pub main_started :
      (s t : ServiceState W T)
      → IsUnopened p s.library
      → main p v add_service s ≡ done (true, t)
      → IsSoundState p t.library × (t.has_heaps ≡ true)
  unfolding main
  main_started s t unopened e =
      let (ret, u, run, rest) = and_then_parts (init p v s) _ e in
      let (succeeded, same) = registered (is_ok ret) u t rest in
      let (l, opening, state) = init_parts s u ret run in
      let (r, l', opened, phase, sound) = init-Opens p hash s.library unopened in
      let (f, w) =
        same_end (IsSoundState p) opening opened
          (sound (subst (λ k. is_ok k ≡ true) (sym (same_result opening opened)) succeeded)) in
      subst (λ (x : ServiceState W T). IsSoundState p x.library × (x.has_heaps ≡ true))
        (subst (λ x. registered_in x ≡ t) (sym state) same)
        ((f, world-IsSound p l f w _ (λ bo ne. registers l.world bo)), refl)
