-- ===== src/Mapper/Tracked.antt =====
-- The table of mapper_stablec/backend/MapperDmaBuf.cpp between calls, and sequences of imports, locks,
-- unlocks and queries.
pub mod Answers
pub mod Kept
pub mod Steps
use gralloc_gbm.Base.{
  ℕ, suc, ◌≡◌, ◌≢◌, ◌<◌, refl, ◌∙◌, sym, ap, true, false, Bool, Option, none, some, ◌==◌,
  if◌then◌else◌, arith, ==_ne, ==_refl, ne_of_==, eq_of_==, Bool-cases, Option-cases, inl, inr,
  subst, not,
}
use gralloc_gbm.Base.Bits.{has}
use gralloc_gbm.Machine.{Ptr, null, Outcome, done}
use gralloc_gbm.Hal.Usage
use gralloc_gbm.State.{update}
use gralloc_gbm.Handle.{Handle}
use gralloc_gbm.Mapper.Standard.{StandardMetadataType, Answer}
use gralloc_gbm.Mapper.DmaBuf.{
  DmaInfo, MmapAnswer, mapped_at, map_failed, DmaStatus, success, invalid, failed_with, DmaSystem,
  DmaState, sync_type, buffer_info, read_info, find_info, insert_new, buffer_info_create,
  import_buffer, sync_start, sync_end, lock_mapped, lock_buffer, unlock_buffer,
}
use gralloc_gbm.Mapper.Blobs.{blob_answer, blob_query_metadata}
use gralloc_gbm.Mapper.Imported.{read_info_lem, create_lem}

-- The descriptor leads to live information about itself, which an earlier allocation gave.
pub record IsTracked {V : Type 0} (s : DmaState V) (fd : ℕ) (bi : Ptr) : Type 0 where
  pub info : DmaInfo
  pub holds : s.infos bi ≡ some info
  pub bi_ne : bi ≢ null
  pub before : bi < s.next
  pub about : info.prime_fd ≡ fd

-- The allocator exists, and every entry of the table is tracked.
pub record TracksAll {V : Type 0} (s : DmaState V) : Type 0 where
  pub allocator : s.has_allocator ≡ true
  pub entry : (fd : ℕ) (bi : Ptr) → s.imported_buffer_table fd ≡ some bi → IsTracked s fd bi

-- The run returns, in a state that tracks all its entries.
abbrev pub KeepsTrack : {V R : Type 0} → Outcome (R × DmaState V) → Type 0
KeepsTrack {V} {R} o = (r : R) × (t : DmaState V) × (o ≡ done (r, t)) × TracksAll t

module _ {V : Type 0} where
  pub in_world : (s : DmaState V) (w : V) → TracksAll s → TracksAll (record s { world = w })
  in_world s w a = record {
    allocator = a.allocator;
    entry = λ fd bi e.
        let q = a.entry fd bi e in
        record {
          info = q.info;
          holds = q.holds;
          bi_ne = q.bi_ne;
          before = q.before;
          about = q.about;
        };
  }

  pub found_lem :
      (s : DmaState V) (fd : ℕ) (bi : Ptr)
      → s.imported_buffer_table fd ≡ some bi
      → find_info fd s ≡ done (bi, s)
  unfolding find_info
  found_lem s fd bi e = rw e refl

  pub missing_lem :
      (s : DmaState V) (fd : ℕ)
      → s.imported_buffer_table fd ≡ none
      → find_info fd s ≡ done (null, s)
  unfolding find_info
  missing_lem s fd e = rw e refl

  -- The state with new information at `bi`.
  abbrev pub with_info : DmaState V → Ptr → DmaInfo → DmaState V
  with_info s bi i = record s { infos = update s.infos bi (some i) }

  pub with_info-TracksAll :
      (s : DmaState V) (fd : ℕ) (bi : Ptr) (i : DmaInfo)
      → TracksAll s
      → s.imported_buffer_table fd ≡ some bi
      → i.prime_fd ≡ fd
      → ((other : ℕ) → s.imported_buffer_table other ≡ some bi → other ≡ fd)
      → TracksAll (with_info s bi i)
  with_info-TracksAll s fd bi i a e about alone = record {
    allocator = a.allocator;
    entry = λ k q h. elim (Bool-cases (q == bi)) [
      | inl hit ↦
          let same : q ≡ bi = eq_of_== q bi hit in
          let key : k ≡ fd = alone k (h ∙ ap some same) in
          record {
            info = i;
            holds = rw hit refl;
            bi_ne = (a.entry k q h).bi_ne;
            before = (a.entry k q h).before;
            about = about ∙ sym key;
          }
      | inr miss ↦ record {
        info = (a.entry k q h).info;
        holds = rw miss (a.entry k q h).holds;
        bi_ne = (a.entry k q h).bi_ne;
        before = (a.entry k q h).before;
        about = (a.entry k q h).about;
      }
    ];
  }

  -- Two descriptors with the same information are the same.
  pub alone_lem :
      (s : DmaState V) (fd other : ℕ) (bi : Ptr)
      → TracksAll s
      → s.imported_buffer_table fd ≡ some bi
      → s.imported_buffer_table other ≡ some bi
      → other ≡ fd
  alone_lem s fd other bi a e e' =
      let q = a.entry fd bi e in
      let q' = a.entry other bi e' in
      let same : q'.info ≡ q.info = value (sym q'.holds ∙ q.holds) in
      sym q'.about ∙ ap (λ (i : DmaInfo). i.prime_fd) same ∙ q.about
    where
      value : {i j : DmaInfo} → some i ≡ some j → i ≡ j
      value e = cc
