-- ===== src/Library/Imports.antt =====
-- Every gralloc_gbm_android_buffer_import of common/gralloc_gbm.c in a sound state, refused or granted,
-- where memory lasts.
use gralloc_gbm.Base.{
  ℕ, suc, ◌≡◌, ◌≢◌, ◌∙◌, ◌⊎◌, refl, sym, true, false, none, ◌==◌, arith, ==_ne, ==_refl, Bool-cases,
  inl, inr, eq_of_==, ne_of_==,
}
use gralloc_gbm.Machine.{null, Status, einval, done, fault, use_after_free, and_then}
use gralloc_gbm.Machine.Runs.{same_end, no_return, and_then_parts}
use gralloc_gbm.Flags.{Config}
use gralloc_gbm.Format.{color_fmt_a2g}
use gralloc_gbm.Format.Search.{a2g_pos}
use gralloc_gbm.Platform.{Platform}
use gralloc_gbm.Platform.Laws.{KeepsUserData}
use gralloc_gbm.State.{State, update, calloc, free_block}
use gralloc_gbm.Handle.{Handle}
use gralloc_gbm.Table.Entries.{IsHash, lookup}
use gralloc_gbm.Table.Map.{BufferMap}
use gralloc_gbm.Buffer.{register_import, log_import, gralloc_gbm_android_buffer_import}
use gralloc_gbm.Buffer.Made.{is_ready_lem, gbm_dev_lem}
use gralloc_gbm.Buffer.Imported.{
  GrantsImport, brought, imported, with_object, import_made, log_import_faults,
  buffer_import-Faults,
}
use gralloc_gbm.Library.{IsSound}
use gralloc_gbm.Library.Outside.{outside-IsSound}
use gralloc_gbm.Library.Fresh.{fresh_entry}

module _ {W T : Type 0} (c : Config) (p : Platform W T) (hash : IsHash p) (keeps : KeepsUserData p)
    (memory : (n : ℕ) → p.no_memory n ≡ false) (s : State W T) (f : BufferMap)
    (v : IsSound p s f) where
  module _ (h : Handle) where
    -- The state behind a `gbm_bo_import` that fails.
    abbrev refused_import : State W T
    refused_import = record s {
      world = (brought c p s h v.driver).1;
      block = update (update s.block s.next true) s.next false;
      next = suc s.next;
    }

    import_refused :
        (brought c p s h v.driver).0 ≡ null
        → gralloc_gbm_android_buffer_import c p h s ≡ done (einval, refused_import)
    unfolding gralloc_gbm_android_buffer_import calloc free_block
    import_refused failed =
        rw
          (
            is_ready_lem s v.driver v.is_live v.is_ready,
            memory s.next,
            ==_ne s.next null v.started,
            ==_ne (color_fmt_a2g h.format) 0 (omega (arith, a2g_pos h.format)),
            gbm_dev_lem (record s { block = update s.block s.next true; next = suc s.next })
                v.driver v.is_live,
            failed,
            ==_ne s.next null v.started,
            ==_refl s.next,
          )
          refl

    refused_import-IsSound : (brought c p s h v.driver).0 ≡ null → IsSound p refused_import f
    refused_import-IsSound failed =
        outside-IsSound p s f v (brought c p s h v.driver).1 _ (suc s.next)
          (λ bo ne. keeps.import _ _ _ _ bo (λ same. ne (same ∙ failed)))
          (λ q below. rw (==_ne q s.next (omega (arith, below))) refl) (omega arith)

    import_granted :
        (brought c p s h v.driver).0 ≢ null
        → gralloc_gbm_android_buffer_import c p h s
          ≡ and_then
              (register_import p h (brought c p s h v.driver).0 (with_object c p s h v.driver))
              (λ r. log_import s.next)
    import_granted object =
        import_made c p s h v.driver v.is_live v.is_ready (memory s.next) v.started object

    -- In a sound state, every import that returns is one that libgbm refused, and leaves a sound
    -- state with the same buffers: one that is granted reads the freed block of its parameters.
    pub import-StaysSound :
        (r : Status) (t : State W T)
        → gralloc_gbm_android_buffer_import c p h s ≡ done (r, t)
        → IsSound p t f
    import-StaysSound r t run = elim (Bool-cases ((brought c p s h v.driver).0 == null)) [
      | inl failed ↦
          let e = eq_of_== _ null failed in
          same_end (λ u. IsSound p u f) run (import_refused e) (refused_import-IsSound e)
      | inr made ↦
          let (a, u, first, last) =
            and_then_parts {A = Status}
              (register_import p h (brought c p s h v.driver).0 (with_object c p s h v.driver))
              (λ r. log_import s.next) (sym (import_granted (ne_of_== _ null made)) ∙ run) in
          no_return (log_import_faults s.next u v.started) last
    ]

    grants_import :
        lookup h.prime_fd (p.hash_iter s.table) ≡ none
        → (brought c p s h v.driver).0 ≢ null
        → GrantsImport c p s h v.driver
    grants_import gone object = record {
      is_live = v.is_live;
      is_ready = v.is_ready;
      memory = memory;
      next_ne = v.started;
      object = object;
      fresh = fresh_entry p hash s f v (imported c p s h v.driver) gone (omega arith);
    }

    -- In a sound state, every import of a handle whose descriptor is in no entry of the table
    -- returns, or reads the freed block of its parameters.
    pub import-Ends :
        lookup h.prime_fd (p.hash_iter s.table) ≡ none
        → ((t : State W T) × (gralloc_gbm_android_buffer_import c p h s ≡ done (einval, t)))
          ⊎ (gralloc_gbm_android_buffer_import c p h s ≡ fault use_after_free)
    import-Ends gone = elim (Bool-cases ((brought c p s h v.driver).0 == null)) [
      | inl failed ↦ inl (refused_import, import_refused (eq_of_== _ null failed))
      | inr made ↦
          let g = grants_import gone (ne_of_== _ null made) in
          inr (buffer_import-Faults c p s h v.driver hash keeps f v.table g).5
    ]
