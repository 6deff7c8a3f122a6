-- ===== src/Mapper/Life/Settings.antt =====
-- Reading and setting the standard metadata by mapper_stablec/Mapper.cpp, in a mapper that is kept.
use gralloc_gbm.Base.{
  ◌≡◌, refl, subst, sym, ◌∙◌, true, false, Bool, Option, none, some, ◌==◌, arith, Bool-cases,
  Option-cases, inl, inr,
}
use gralloc_gbm.Machine.{Ptr, null, Status, einval, Outcome, Action, done, fault, pure}
use gralloc_gbm.Machine.Runs.{same_end, and_then_parts}
use gralloc_gbm.Word.{less_signed}
use gralloc_gbm.Platform.{Platform}
use gralloc_gbm.Platform.Laws.{KeepsUserData}
use gralloc_gbm.State.{read_block, State, Metadata}
use gralloc_gbm.Handle.{Handle}
use gralloc_gbm.Table.{find_buffer_k}
use gralloc_gbm.Table.Map.{BufferMap, at_key}
use gralloc_gbm.Buffer.{
  BufferInfo, extdata_found, gralloc_gbm_android_buffer_get_extdata,
  gralloc_gbm_android_buffer_query,
}
use gralloc_gbm.Library.{IsSound, SharesBlocks, sound-Manages}
use gralloc_gbm.Library.Changed.{changed-IsSound}
use gralloc_gbm.Library.Queried.{query-IsSound}
use gralloc_gbm.Mapper.Standard.{StandardMetadataType, Answer, refused, code, error_no_resources}
use gralloc_gbm.Mapper.Metadata.{
  set_standard_metadata, member, hdr_answer, payload_answer, gbm_answer, gbm_query_metadata,
}
use gralloc_gbm.Mapper.Settings.{settled, set_standard_metadata-Runs}

-- The run faults, or ends in `s`.
abbrev Leaves : {S A : Type 0} → S → Outcome (A × S) → Type 0
Leaves s (done (a, t)) = t ≡ s
Leaves s (fault e) = Unit {0}

Leaves-end :
    {S A : Type 0} (s : S) (o : Outcome (A × S)) {a : A} {t : S}
    → Leaves s o
    → o ≡ done (a, t)
    → t ≡ s
Leaves-end s (done (a, u)) same e = ground (arith, same)
Leaves-end s (fault x) same e = absurd (cc)

module _ {W T : Type 0} (i : BufferInfo) (s : State W T) where
  hdr-Leaves : (q : Ptr) → Leaves s (hdr_answer q s)
  unfolding hdr_answer read_block member
  hdr-Leaves q = elim (Bool-cases (q == null)) [
    | inl at_null ↦ rw at_null tt
    | inr away ↦ elim (Bool-cases (s.block q)) [
      | inl live_block ↦ rw (away, live_block) tt
      | inr dead ↦ rw (away, dead) tt
    ]
  ]

  payload-Leaves : (m : Metadata) → Leaves s (payload_answer m s)
  unfolding payload_answer read_block
  payload-Leaves m = elim (Bool-cases (less_signed 0 m.smpte2094_50_size)) [
    | inr empty ↦ rw empty refl
    | inl full ↦ elim (Bool-cases (m.smpte2094_50 == null)) [
      | inl at_null ↦ rw (full, at_null) tt
      | inr away ↦ elim (Bool-cases (s.block m.smpte2094_50)) [
        | inl live_block ↦ rw (full, away, live_block) refl
        | inr dead ↦ rw (full, away, dead) tt
      ]
    ]
  ]

  -- An answer leaves the state alone.
  gbm_answer-Leaves : (k : StandardMetadataType) → Leaves s (gbm_answer k i s)
  unfolding gbm_answer
  gbm_answer-Leaves StandardMetadataType.buffer_id = refl
  gbm_answer-Leaves StandardMetadataType.name = refl
  gbm_answer-Leaves StandardMetadataType.width = refl
  gbm_answer-Leaves StandardMetadataType.height = refl
  gbm_answer-Leaves StandardMetadataType.layer_count = refl
  gbm_answer-Leaves StandardMetadataType.pixel_format_requested = refl
  gbm_answer-Leaves StandardMetadataType.pixel_format_fourcc = refl
  gbm_answer-Leaves StandardMetadataType.pixel_format_modifier = refl
  gbm_answer-Leaves StandardMetadataType.usage = refl
  gbm_answer-Leaves StandardMetadataType.allocation_size = refl
  gbm_answer-Leaves StandardMetadataType.protected_content = refl
  gbm_answer-Leaves StandardMetadataType.compression = refl
  gbm_answer-Leaves StandardMetadataType.interlaced = refl
  gbm_answer-Leaves StandardMetadataType.chroma_siting = refl
  gbm_answer-Leaves StandardMetadataType.plane_layouts = refl
  gbm_answer-Leaves StandardMetadataType.crop = refl
  gbm_answer-Leaves StandardMetadataType.dataspace = refl
  gbm_answer-Leaves StandardMetadataType.blend_mode = refl
  gbm_answer-Leaves StandardMetadataType.smpte2086 = hdr-Leaves i.metadata.smpte2086
  gbm_answer-Leaves StandardMetadataType.cta861_3 = hdr-Leaves i.metadata.cta861_3
  gbm_answer-Leaves StandardMetadataType.smpte2094_40 = refl
  gbm_answer-Leaves StandardMetadataType.smpte2094_10 = refl
  gbm_answer-Leaves StandardMetadataType.stride = refl
  gbm_answer-Leaves StandardMetadataType.smpte2094_50 = payload-Leaves i.metadata
  gbm_answer-Leaves StandardMetadataType.unlisted = refl

-- Whether setting the type makes no block for HDR metadata.
abbrev pub is_plain : StandardMetadataType → Bool
is_plain StandardMetadataType.smpte2086 = false
is_plain StandardMetadataType.cta861_3 = false
is_plain StandardMetadataType.smpte2094_50 = false
is_plain _ = true

plain-SharesBlocks :
    (k : StandardMetadataType) (m old : Metadata)
    → is_plain k ≡ true
    → SharesBlocks (settled k m old) old
plain-SharesBlocks k m old plain =
    (ground (arith, plain), ground (arith, plain), ground (arith, plain))

module _ {W T : Type 0} (p : Platform W T) (keeps : KeepsUserData p) (s : State W T) (f : BufferMap)
    (w : IsSound p s f) where
  abbrev answer_of : StandardMetadataType → Option BufferInfo → Action (State W T) Answer
  answer_of k info = elim info [
    | none ↦ pure (refused (code error_no_resources))
    | some i ↦ gbm_answer k i
  ]

  answered_query :
      (k : StandardMetadataType) (info : Option BufferInfo) (u : State W T)
      → IsSound p u f
      → (r : Answer) (t : State W T) → answer_of k info u ≡ done (r, t)
      → IsSound p t f
  answered_query k none u sound r t e = same_end (λ a. IsSound p a f) e refl sound
  answered_query k (some i) u sound r t e =
      subst (λ a. IsSound p a f) (sym (Leaves-end u _ (gbm_answer-Leaves i u k) e)) sound

  -- A query for metadata that returns leaves a sound state.
  pub query_metadata-IsSound :
      (h : Handle) (k : StandardMetadataType) (r : Answer) (t : State W T)
      → gbm_query_metadata p h k s ≡ done (r, t)
      → IsSound p t f
  unfolding gbm_query_metadata
  query_metadata-IsSound h k r t e =
      let ((status, info), u, run, rest) =
        and_then_parts (gralloc_gbm_android_buffer_query p h s) _ e in
      answered_query k info u (query-IsSound p keeps s f w h _ u run) r t rest

  missing_set :
      (h : Handle) (k : StandardMetadataType) (m : Metadata)
      → p.hash_find s.table h.prime_fd ≡ none
      → set_standard_metadata p h k m s ≡ done (einval, s)
  unfolding set_standard_metadata gralloc_gbm_android_buffer_get_extdata find_buffer_k extdata_found
  missing_set h k m gone = rw gone refl

  -- Setting a metadata that is not HDR leaves a sound state.
  pub set_metadata-IsSound :
      (h : Handle) (k : StandardMetadataType) (m : Metadata) (r : Status) (t : State W T)
      → is_plain k ≡ true
      → set_standard_metadata p h k m s ≡ done (r, t)
      → IsSound p t f
  set_metadata-IsSound h k m r t plain e = elim (Option-cases (f h.prime_fd)) [
    | inl gone ↦
        same_end (λ u. IsSound p u f) e (missing_set h k m (at_key p w.table h.prime_fd ∙ gone)) w
    | inr (b, at) ↦
        let (d, x, o) = w.owner h.prime_fd b at in
        let (t', e', change) =
          set_standard_metadata-Runs p s h b d x (sound-Manages w h b d x at o) k m in
        same_end (λ u. IsSound p u f) e e'
          (changed-IsSound w h.prime_fd b d x _ at o change
            (record {
              idle = o.consistent.idle;
              mapped = o.consistent.mapped;
              single = o.consistent.single;
            })
            (plain-SharesBlocks k m x.metadata plain))
  ]
