-- ===== src/Buffer/Creation.antt =====
-- gralloc_gbm_android_buffer_new of common/gralloc_gbm.c where nothing fails: the data and the
-- entry of the table that are made behind `gbm_bo_create`.
use gralloc_gbm.Base.{ℕ, suc, ◌≡◌, ◌≢◌, ◌∙◌, arith, true, false, some, ==_refl, ==_ne, All}
use gralloc_gbm.Machine.{Ptr, null, ok, done, and_then}
use gralloc_gbm.Platform.{Platform, Buffer}
use gralloc_gbm.Platform.Laws.{KeepsUserData}
use gralloc_gbm.State.{
  State, BoData, empty_metadata, empty_bo_data, update, allocate, calloc, calloc_bo_data,
}
use gralloc_gbm.Handle.{Handle}
use gralloc_gbm.Table.{add_buffer}
use gralloc_gbm.Table.Entries.{Differs, IsHash}
use gralloc_gbm.Table.Map.{BufferMap, insert, Represents, represents, at_key, add_buffer-insert}
use gralloc_gbm.BoData.{get_user_data, new_user_data, gralloc_gbm_bo_user_data_init}
use gralloc_gbm.BoData.Steps.{Carries, load_lem}
use gralloc_gbm.Buffer.{register_new}

-- The data that is made at address `n`, with its blocks behind it.
abbrev pub new_data : ℕ → BoData
new_data n = record empty_bo_data {
  metadata = record empty_metadata {
    smpte2086 = suc n;
    cta861_3 = suc (suc n);
    smpte2094_50 = suc (suc (suc n));
  };
}

module _ {W T : Type 0} (p : Platform W T) where
  abbrev pub with_data : State W T → Ptr → State W T
  with_data s bo = record s {
    world = p.set_user_data s.world bo s.next;
    next = suc (suc (suc (suc s.next)));
    bo_data = update (update s.bo_data s.next (some empty_bo_data)) s.next (some (new_data s.next));
    block =
        update (update (update s.block (suc s.next) true) (suc (suc s.next)) true)
          (suc (suc (suc s.next))) true;
  }

  module _ (s : State W T) (bo : Ptr) where
    -- The buffer that is registered for the object `bo`, and its descriptor.
    abbrev pub registered : Buffer
    registered =
        let t = with_data s bo in record { address = t.next; fd = (p.bo_fd t.world bo).0; bo = bo }

    -- The handle, once its last fields are known.
    abbrev pub completed : Handle → Handle
    completed h =
        let t = with_data s bo in
        record h {
          stride = p.bo_stride t.world bo;
          prime_fd = (p.bo_fd t.world bo).0;
          modifier = p.bo_modifier (p.bo_fd t.world bo).1 bo;
        }

    -- The states before the buffer is added, and after all.
    abbrev before_add : State W T
    before_add =
        let t = with_data s bo in record t { world = (p.bo_fd t.world bo).1; next = suc t.next }

    abbrev pub after_all : State W T
    after_all =
        let t = before_add in
        record t { table = p.hash_add t.table registered; world = (p.bo_fd t.world bo).1 }

  module _ (memory : (n : ℕ) → p.no_memory n ≡ false) where
    calloc_lem :
        (s : State W T)
        → calloc p s
          ≡ done (s.next, record s { next = suc s.next; block = update s.block s.next true })
    unfolding calloc
    calloc_lem s = rw (memory s.next)

    calloc_bo_data_lem :
        (s : State W T)
        → calloc_bo_data p s
          ≡ done (
            s.next,
            record s { next = suc s.next; bo_data = update s.bo_data s.next (some empty_bo_data) },
          )
    unfolding calloc_bo_data
    calloc_bo_data_lem s = rw (memory s.next)

    pub allocate_lem :
        (s : State W T) → allocate p s ≡ done (s.next, record s { next = suc s.next })
    unfolding allocate
    allocate_lem s = rw (memory s.next)

    pub new_user_data_lem :
        (s : State W T) (bo : Ptr)
        → s.next ≢ null
        → new_user_data p bo s ≡ done (s.next, with_data s bo)
    unfolding new_user_data
    new_user_data_lem s bo ne =
        let s1 = record s {
          next = suc s.next;
          bo_data = update s.bo_data s.next (some empty_bo_data);
        } in
        rw (
          calloc_bo_data_lem s,
          load_lem s1 empty_bo_data s.next ne (rw (==_refl s.next)),
          calloc_lem s1,
          calloc_lem (record s1 { next = suc s1.next; block = update s1.block s1.next true }),
          calloc_lem (record s1 {
            next = suc (suc s1.next);
            block = update (update s1.block s1.next true) (suc s1.next) true;
          }),
        )

    module _ (hash : IsHash p) (keeps : KeepsUserData p) (s : State W T) (f : BufferMap)
        (r : Represents p s f) (bo : Ptr) (bo_ne : bo ≢ null) (next_ne : s.next ≢ null)
        (bare : p.get_user_data s.world bo ≡ null) where
      pub init_lem : gralloc_gbm_bo_user_data_init p bo s ≡ done (s.next, with_data s bo)
      unfolding gralloc_gbm_bo_user_data_init get_user_data
      init_lem = rw (==_ne bo null bo_ne, bare, new_user_data_lem s bo next_ne)

      -- The registration up to the table, whatever is in the table.
      pub register_new_parts :
          (h : Handle)
          → register_new p h bo s
            ≡ and_then (add_buffer p (some (registered s bo)) (before_add s bo)) (λ added u. done (
              (ok, some (completed s bo h, p.bo_stride (with_data s bo).world bo)),
              record u { world = (p.bo_fd u.world bo).1 },
            ))
      unfolding register_new
      register_new_parts h = rw (
        init_lem,
        ==_ne s.next null next_ne,
        allocate_lem (record (with_data s bo) { world = (p.bo_fd (with_data s bo).world bo).1 }),
        ==_ne (with_data s bo).next null (λ e. omega arith),
      )

      module _ (fresh : All (λ e. Differs e (registered s bo)) (p.hash_iter s.table)) where
        pub added :
            let t = record (before_add s bo) { table = p.hash_add s.table (registered s bo) } in
            (add_buffer p (some (registered s bo)) (before_add s bo) ≡ done (ok, t))
            × Represents p t (insert (registered s bo) f)
        added =
            add_buffer-insert p hash (represents p (before_add s bo) f r.table (at_key p r))
              (registered s bo) fresh

        pub register_new_lem :
            (h : Handle)
            → register_new p h bo s
              ≡ done (
                (ok, some (completed s bo h, p.bo_stride (with_data s bo).world bo)),
                (after_all s bo),
              )
        register_new_lem h = rw (register_new_parts h, added.0)

        pub after-Represents : Represents p (after_all s bo) (insert (registered s bo) f)
        after-Represents = represents p (after_all s bo) _ added.1.table (at_key p added.1)

        pub after-Carries : Carries p (after_all s bo) bo s.next (new_data s.next)
        after-Carries = record {
          bo_ne = bo_ne;
          data_ne = next_ne;
          points = keeps.fd _ bo bo ∙ keeps.fd _ bo bo ∙ keeps.set_self s.world bo s.next;
          holds = rw (==_refl s.next);
        }
