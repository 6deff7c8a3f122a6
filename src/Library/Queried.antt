-- ===== src/Library/Queried.antt =====
-- Every gralloc_gbm_android_buffer_query of common/gralloc_gbm.c in a sound state, for any format.
use gralloc_gbm.Base.{ℕ, ◌≡◌, ◌∙◌, refl, Option, some, ◌⊎◌, inl, inr, Option-cases, ==_ne}
use gralloc_gbm.Machine.{Ptr, null, Status, ok, Fault, Outcome, done, fault}
use gralloc_gbm.Machine.Runs.{same_end, no_return}
use gralloc_gbm.Stride.{calculate_android_pixel_stride}
use gralloc_gbm.Platform.{Platform, Buffer}
use gralloc_gbm.Platform.Laws.{KeepsUserData}
use gralloc_gbm.State.{State, BoData}
use gralloc_gbm.Handle.{Handle}
use gralloc_gbm.Table.{find_buffer_k}
use gralloc_gbm.Table.Map.{BufferMap, at_key}
use gralloc_gbm.BoData.Steps.{Carries, load_lem, user_data_init_lem}
use gralloc_gbm.Lock.Calls.{Manages}
use gralloc_gbm.Buffer.{BufferInfo, query_bo, query_found, gralloc_gbm_android_buffer_query}
use gralloc_gbm.Library.{IsSound, sound-Manages}
use gralloc_gbm.Library.Changed.{changed-IsSound}
use gralloc_gbm.Library.Locked.{queried, missing_query}

Outcome-cases :
    {A : Type 0} (o : Outcome A) → ((a : A) × (o ≡ done a)) ⊎ ((x : Fault) × (o ≡ fault x))
Outcome-cases (done a) = inl (a, refl)
Outcome-cases (fault x) = inr (x, refl)

module _ {W T : Type 0} (p : Platform W T) (keeps : KeepsUserData p) (s : State W T) (h : Handle)
    (b : Buffer) (d : Ptr) (x : BoData) (m : Manages p s h b d x) where
  -- The state behind the call of `gbm_bo_get_fd`.
  abbrev with_fd : State W T
  with_fd = record s { world = (p.bo_fd s.world b.bo).1 }

  abbrev stride : Outcome ℕ
  stride = calculate_android_pixel_stride h.format (p.bo_stride with_fd.world b.bo)

  carried : Carries p with_fd b.bo d x
  carried = record {
    bo_ne = m.carries.bo_ne;
    data_ne = m.carries.data_ne;
    points = keeps.fd s.world b.bo b.bo ∙ m.carries.points;
    holds = m.carries.holds;
  }

  query_sized :
      (n : ℕ)
      → stride ≡ done n
      → (i : BufferInfo) × (gralloc_gbm_android_buffer_query p h s ≡ done ((ok, some i), with_fd))
  unfolding gralloc_gbm_android_buffer_query find_buffer_k query_found query_bo
  query_sized n e =
      rw
        (
          m.found,
          ==_ne b.bo null m.carries.bo_ne,
          user_data_init_lem carried,
          load_lem with_fd x d m.carries.data_ne m.carries.holds,
          e,
        )
        (_, refl)

  query_unsized : (y : Fault) → stride ≡ fault y → gralloc_gbm_android_buffer_query p h s ≡ fault y
  unfolding gralloc_gbm_android_buffer_query find_buffer_k query_found query_bo
  query_unsized y e =
      rw
        (
          m.found,
          ==_ne b.bo null m.carries.bo_ne,
          user_data_init_lem carried,
          load_lem with_fd x d m.carries.data_ne m.carries.holds,
          e,
        )
        refl

module _ {W T : Type 0} (p : Platform W T) (keeps : KeepsUserData p) (s : State W T) (f : BufferMap)
    (v : IsSound p s f) (h : Handle) where
  -- A query that returns leaves a sound state with the same buffers.
  pub query-IsSound :
      (r : Status × Option BufferInfo) (t : State W T)
      → gralloc_gbm_android_buffer_query p h s ≡ done (r, t)
      → IsSound p t f
  query-IsSound r t run = elim (Option-cases (f h.prime_fd)) [
    | inl gone ↦
        same_end (λ u. IsSound p u f) run (missing_query p s h (at_key p v.table h.prime_fd ∙ gone))
          v
    | inr (b, e) ↦
        let (d, x, o) = v.owner h.prime_fd b e in
        let m = sound-Manages v h b d x e o in
        elim (Outcome-cases (stride p keeps s h b d x m)) [
          | inr (y, unsized) ↦ no_return (query_unsized p keeps s h b d x m y unsized) run
          | inl (n, sized) ↦
              let (i, run') = query_sized p keeps s h b d x m n sized in
              same_end (λ u. IsSound p u f) run run'
                (changed-IsSound v h.prime_fd b d x x e o (queried p keeps s b d x o) o.consistent
                  (refl, refl, refl))
        ]
  ]
