-- ===== src/Mapper/Life/Reading.antt =====
-- The requests of mapper_stablec/Mapper.cpp that read standard metadata, in a mapper that is kept.
use gralloc_gbm.Base.{ℕ, ◌≡◌, refl, subst, sym, Option, none, some, Bool-cases, inl, inr, ◌⊎◌}
use gralloc_gbm.Machine.{Action, done, pure, and_then}
use gralloc_gbm.Machine.Runs.{same_end}
use gralloc_gbm.Platform.{Platform}
use gralloc_gbm.Platform.Laws.{KeepsUserData}
use gralloc_gbm.Handle.{Handle}
use gralloc_gbm.Table.Entries.{IsHash}
use gralloc_gbm.Library.Start.{opened}
use gralloc_gbm.Mapper.Standard.{StandardMetadataType, Value, Answer, provided, refused}
use gralloc_gbm.Mapper.Metadata.{gbm_query_metadata}
use gralloc_gbm.Mapper.Blobs.{blob_query_metadata}
use gralloc_gbm.Mapper.Tracked.Steps.{querying, step-TracksAll}
use gralloc_gbm.Mapper.Front.{
  MapperBackendType, mapper_gralloc_gbm, mapper_gralloc_dmabuf, NativeHandle, MapperSystem,
  MapperState, backend_query,
}
use gralloc_gbm.Mapper.Front.Standards.{
  MetadataType, mapper_get_metadata, provide_standard_metadata, mapper_get_standard_metadata,
}
use gralloc_gbm.Mapper.Life.{IsKept, IsReadyFor}
use gralloc_gbm.Mapper.Life.Calls.{
  Keeps, Keeps-pure, in_library-Keeps, in_dma-Keeps, on_backend-Keeps,
}
use gralloc_gbm.Mapper.Life.Imports.{ready-IsKept}
use gralloc_gbm.Mapper.Life.Settings.{query_metadata-IsSound}

module _ {W T V : Type 0} (p : Platform W T) (v : MapperSystem W V) (keeps : KeepsUserData p) where
  query-Keeps :
      (h : Handle) (k : StandardMetadataType) (b : MapperBackendType) (u : MapperState W T V)
      → IsReadyFor p b u
      → Keeps p (backend_query p v h k b u)
  unfolding backend_query
  query-Keeps h k mapper_gralloc_gbm u ((f, w), d) =
      in_library-Keeps p u (gbm_query_metadata p h k)
        (λ r t e. opened f (query_metadata-IsSound p keeps u.library f w h k r t e)) d
  query-Keeps h k mapper_gralloc_dmabuf u (l, a) =
      in_dma-Keeps p u (blob_query_metadata h k)
        (λ r t e. step-TracksAll v.dma a (querying h k r e)) l

  -- What is provided for an answer.
  abbrev provided_of : (dest_size : ℕ) → Answer → ℕ × Option Value
  provided_of dest_size a = elim a [
    | provided x ↦ (v.provide x dest_size, some x)
    | refused e ↦ (e, none)
  ]

  provide_cases :
      (k : StandardMetadataType) (dest_size : ℕ) (query : Action (MapperState W T V) Answer)
      (u : MapperState W T V)
      → (provide_standard_metadata p v k dest_size query u ≡ done ((v.provide_unlisted, none), u))
        ⊎ (provide_standard_metadata p v k dest_size query u
            ≡ and_then (query u) λ a. pure (provided_of dest_size a))
  unfolding provide_standard_metadata
  provide_cases StandardMetadataType.unlisted dest_size query u = inl refl
  provide_cases _ dest_size query u = inr refl

  provide-Keeps :
      (k : StandardMetadataType) (dest_size : ℕ) (query : Action (MapperState W T V) Answer)
      (u : MapperState W T V)
      → IsKept p u
      → Keeps p (query u)
      → Keeps p (provide_standard_metadata p v k dest_size query u)
  provide-Keeps k dest_size query u w keep = elim (provide_cases k dest_size query u) [
    | inl silent ↦ (λ r t e. same_end (IsKept p) e silent w)
    | inr asked ↦ subst (Keeps p) (sym asked) (Keeps-pure p (query u) (provided_of dest_size) keep)
  ]

module _ {W T V : Type 0} (p : Platform W T) (v : MapperSystem W V) (hash : IsHash p)
    (keeps : KeepsUserData p) (s : MapperState W T V) (w : IsKept p s) where
  pub mapper_get-Keeps :
      (o : Option NativeHandle) (k : StandardMetadataType) (dest_size : ℕ)
      → Keeps p (mapper_get_standard_metadata p v o k dest_size s)
  unfolding mapper_get_standard_metadata
  mapper_get-Keeps none k dest_size = (λ r t e. same_end (IsKept p) e refl w)
  mapper_get-Keeps (some n) k dest_size =
      on_backend-Keeps p v hash n.content _ _ s w (λ u (ready, c). Keeps-pure p _ _ (
        provide-Keeps p v keeps k dest_size _ u (ready-IsKept p _ u ready)
          (query-Keeps p v keeps n.content k _ u ready)))

  pub get_metadata-Keeps :
      (o : Option NativeHandle) (m : MetadataType) (dest_size : ℕ)
      → Keeps p (mapper_get_metadata p v o m dest_size s)
  unfolding mapper_get_metadata
  get_metadata-Keeps none m dest_size = (λ r t e. same_end (IsKept p) e refl w)
  get_metadata-Keeps (some n) m dest_size = elim (Bool-cases (v.is_standard_name m.name)) [
    | inl standard ↦ rw standard (mapper_get-Keeps (some n) m.value dest_size)
    | inr other ↦ rw other (λ r t e. same_end (IsKept p) e refl w)
  ]
