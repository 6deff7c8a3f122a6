-- ===== src/Mapper/Life/Writing.antt =====
-- The requests of mapper_stablec/Mapper.cpp that set standard metadata, in a mapper that is kept.
use gralloc_gbm.Base.{
  suc, ◌≡◌, ◌<◌, arith, ==_ne, refl, true, Bool, Option, none, some, ◌==◌, Bool-cases, inl, inr,
}
use gralloc_gbm.Machine.{Ptr, null, is_ok, done}
use gralloc_gbm.Machine.Runs.{same_end}
use gralloc_gbm.Platform.{Platform}
use gralloc_gbm.Platform.Laws.{KeepsUserData}
use gralloc_gbm.State.{State, Metadata, calloc, update}
use gralloc_gbm.Handle.{Handle}
use gralloc_gbm.Table.Entries.{IsHash}
use gralloc_gbm.Library.Start.{HasPhase, unopened, opened, broken}
use gralloc_gbm.Library.Outside.{outside-IsSound}
use gralloc_gbm.Mapper.Standard.{StandardMetadataType}
use gralloc_gbm.Mapper.Metadata.{set_standard_metadata}
use gralloc_gbm.Mapper.Blobs.{ignore_standard_metadata}
use gralloc_gbm.Mapper.Front.{
  MapperBackendType, mapper_gralloc_gbm, mapper_gralloc_dmabuf, NativeHandle, MapperSystem,
  MapperState, backend_set,
}
use gralloc_gbm.Mapper.Front.Standards.{
  MetadataType, NewMetadata, mapper_set_metadata, filled_metadata, set_on, is_bad_value,
  mapper_set_standard_metadata,
}
use gralloc_gbm.Mapper.Front.Requests.{mapper_result}
use gralloc_gbm.Mapper.Front.Session.{with_block}
use gralloc_gbm.Mapper.Life.{IsKept, IsReadyFor, tracking}
use gralloc_gbm.Mapper.Life.Calls.{Keeps, Keeps-pure, in_library-Keeps, on_backend-Keeps}
use gralloc_gbm.Mapper.Life.Imports.{ready-IsKept}
use gralloc_gbm.Mapper.Life.Settings.{is_plain, set_metadata-IsSound}

module _ {W T V : Type 0} (p : Platform W T) (v : MapperSystem W V) (keeps : KeepsUserData p) where
  set-Keeps :
      (h : Handle) (k : StandardMetadataType) (m : Metadata) (b : MapperBackendType)
      (u : MapperState W T V)
      → is_plain k ≡ true
      → IsReadyFor p b u
      → Keeps p (backend_set p v h k m b u)
  unfolding backend_set ignore_standard_metadata
  set-Keeps h k m mapper_gralloc_gbm u plain ((f, w), d) = Keeps-pure p _ is_ok (
      in_library-Keeps p u (set_standard_metadata p h k m)
        (λ r t e. opened f (set_metadata-IsSound p keeps u.library f w h k m r t plain e)) d)
  set-Keeps h k m mapper_gralloc_dmabuf u plain (l, a) =
      (λ r t e. same_end (IsKept p) e refl (record { library = l; dma = tracking a }))

  plain_filled :
      (k : StandardMetadataType) (new : NewMetadata) (s : State W T)
      → is_plain k ≡ true
      → (m : Metadata) × (filled_metadata p k new s ≡ done (m, s))
  unfolding filled_metadata
  plain_filled StandardMetadataType.dataspace new s plain = (_, refl)
  plain_filled StandardMetadataType.blend_mode new s plain = (_, refl)
  plain_filled StandardMetadataType.smpte2086 new s plain = absurd (cc)
  plain_filled StandardMetadataType.cta861_3 new s plain = absurd (cc)
  plain_filled StandardMetadataType.smpte2094_50 new s plain = absurd (cc)
  plain_filled _ new s plain = (_, refl)

  -- The library with one more address in use.
  abbrev grown : MapperState W T V → (Ptr → Bool) → MapperState W T V
  grown u g = record u { library = record u.library { next = suc u.library.next; block = g } }

  module _ (u : MapperState W T V) (g : Ptr → Bool)
      (older : (q : Ptr) → q < u.library.next → g q ≡ u.library.block q) where
    grown-HasPhase : HasPhase p u.library → HasPhase p (grown u g).library
    grown-HasPhase (unopened i) =
        unopened (record { absent = i.absent; empty = i.empty; started = λ e. omega (arith, e) })
    grown-HasPhase (opened f w) =
        opened f
          (outside-IsSound p u.library f w u.library.world g _ (λ bo ne. refl) older (omega arith))
    grown-HasPhase (broken i) = broken (record { freed = i.freed })

    grown-IsReadyFor : (b : MapperBackendType) → IsReadyFor p b u → IsReadyFor p b (grown u g)
    grown-IsReadyFor mapper_gralloc_gbm ((f, w), d) = (
      (f, outside-IsSound p u.library f w u.library.world g _ (λ bo ne. refl) older (omega arith)),
      d,
    )
    grown-IsReadyFor mapper_gralloc_dmabuf (l, a) = (grown-HasPhase l, a)

    grown-IsKept : (b : MapperBackendType) → IsReadyFor p b u → IsKept p (grown u g)
    grown-IsKept b ready = ready-IsKept p b (grown u g) (grown-IsReadyFor b ready)

  update_older :
      (u : MapperState W T V) (q : Ptr)
      → q < u.library.next
      → update u.library.block u.library.next true q ≡ u.library.block q
  update_older u q below = rw (==_ne q u.library.next (omega (arith, below)))

  set_on-Keeps :
      (n : NativeHandle) (k : StandardMetadataType) (new : NewMetadata) (b : MapperBackendType)
      (u : MapperState W T V)
      → is_plain k ≡ true
      → IsReadyFor p b u
      → Keeps p (set_on p v n k new b u)
  unfolding set_on calloc
  set_on-Keeps n k new b u plain ready = elim (Bool-cases (p.no_memory u.library.next)) [
    | inl full ↦
        rw full (λ r t e. same_end (IsKept p) e refl (grown-IsKept u _ (λ q below. refl) b ready))
    | inr room ↦ elim (Bool-cases (u.library.next == null)) [
      | inl zero_address ↦
          rw (room, zero_address)
            (λ r t e. same_end (IsKept p) e refl (grown-IsKept u _ older b ready))
      | inr block ↦ elim (Bool-cases (is_bad_value k new)) [
        | inl bad ↦
            rw (room, block, bad)
              (λ r t e. same_end (IsKept p) e refl (grown-IsKept u _ older b ready))
        | inr good ↦
            let (m, filled) = plain_filled k new (with_block p u.library) plain in
            rw (room, block, good, filled)
              (Keeps-pure p _ mapper_result
                (set-Keeps n.content k m b _ plain (grown-IsReadyFor u _ older b ready)))
      ]
    ]
  ]
    where
      older :
          (q : Ptr)
          → q < u.library.next
          → update u.library.block u.library.next true q ≡ u.library.block q
      older q below = update_older u q below

module _ {W T V : Type 0} (p : Platform W T) (v : MapperSystem W V) (hash : IsHash p)
    (keeps : KeepsUserData p) (s : MapperState W T V) (w : IsKept p s) where
  pub mapper_set-Keeps :
      (o : Option NativeHandle) (k : StandardMetadataType) (new : NewMetadata)
      → is_plain k ≡ true
      → Keeps p (mapper_set_standard_metadata p v o k new s)
  unfolding mapper_set_standard_metadata
  mapper_set-Keeps none k new plain = (λ r t e. same_end (IsKept p) e refl w)
  mapper_set-Keeps (some n) k new plain =
      on_backend-Keeps p v hash n.content _ _ s w
        (λ u (ready, c). set_on-Keeps p v keeps n k new _ u plain ready)

  pub set_metadata-Keeps :
      (o : Option NativeHandle) (m : MetadataType) (new : NewMetadata)
      → is_plain m.value ≡ true
      → Keeps p (mapper_set_metadata p v o m new s)
  unfolding mapper_set_metadata
  set_metadata-Keeps none m new plain = (λ r t e. same_end (IsKept p) e refl w)
  set_metadata-Keeps (some n) m new plain = elim (Bool-cases (v.is_standard_name m.name)) [
    | inl standard ↦ rw standard (mapper_set-Keeps (some n) m.value new plain)
    | inr other ↦ rw other (λ r t e. same_end (IsKept p) e refl w)
  ]
