-- ===== src/Buffer/Release.antt =====
-- gralloc_gbm_android_buffer_free of common/gralloc_gbm.c on a managed buffer: what is released, and
-- what is not.
use gralloc_gbm.Base.{◌≡◌, ◌≢◌, refl, sym, ◌∙◌, true, false, none, some, ==_refl, ==_ne}
use gralloc_gbm.Machine.{Ptr, null, ok, done}
use gralloc_gbm.Platform.{Platform, Buffer}
use gralloc_gbm.State.{State, BoData, update, free_block}
use gralloc_gbm.Handle.{Handle}
use gralloc_gbm.Table.{find_buffer_k}
use gralloc_gbm.Table.Entries.{IsHash}
use gralloc_gbm.Table.Map.{BufferMap, delete, Represents, represents, at_key, delete_buffer-delete}
use gralloc_gbm.BoData.{get_user_data, gralloc_gbm_bo_data_destroy, gbm_bo_destroy}
use gralloc_gbm.BoData.Steps.{load_lem}
use gralloc_gbm.Lock.Calls.{Manages, ready_lem}
use gralloc_gbm.Buffer.{free_found, gralloc_gbm_android_buffer_free}

-- The three blocks behind the metadata are live and different.
pub record HasBlocks {W T : Type 0} (s : State W T) (x : BoData) : Type 0 where
  pub smpte2086_ne : x.metadata.smpte2086 ≢ null
  pub cta861_3_ne : x.metadata.cta861_3 ≢ null
  pub smpte2086 : s.block x.metadata.smpte2086 ≡ true
  pub cta861_3 : s.block x.metadata.cta861_3 ≡ true
  pub smpte2094_50 : s.block x.metadata.smpte2094_50 ≡ true
  pub apart : x.metadata.cta861_3 ≢ x.metadata.smpte2086
  pub apart_first : x.metadata.smpte2094_50 ≢ x.metadata.smpte2086
  pub apart_second : x.metadata.smpte2094_50 ≢ x.metadata.cta861_3

module _ {W T : Type 0} where
  free_block_lem :
      (s : State W T) (q : Ptr)
      → q ≢ null
      → s.block q ≡ true
      → free_block q s ≡ done (tt, record s { block = update s.block q false })
  unfolding free_block
  free_block_lem s q ne is_live = rw (==_ne q null ne, is_live)

  -- The state after the callback, and after the blocks that it frees.
  abbrev two_freed : State W T → BoData → State W T
  two_freed s x = record s {
    block = update (update s.block x.metadata.smpte2086 false) x.metadata.cta861_3 false;
  }

  abbrev destroyed : State W T → Ptr → BoData → State W T
  destroyed s d x = record (two_freed s x) { bo_data = update s.bo_data d none }

  data_destroy_lem :
      (s : State W T) (d : Ptr) (x : BoData)
      → d ≢ null
      → s.bo_data d ≡ some x
      → HasBlocks s x
      → gralloc_gbm_bo_data_destroy d s ≡ done (tt, destroyed s d x)
  unfolding gralloc_gbm_bo_data_destroy
  data_destroy_lem s d x ne holds k = rw (
    load_lem s x d ne holds,
    free_block_lem s _ k.smpte2086_ne k.smpte2086,
    free_block_lem (record s { block = update s.block x.metadata.smpte2086 false }) _ k.cta861_3_ne
        (rw (==_ne _ _ k.apart) k.cta861_3),
  )

module _ {W T : Type 0} (p : Platform W T) (hash : IsHash p) (s : State W T) (h : Handle)
    (b : Buffer) (d : Ptr) (x : BoData) (m : Manages p s h b d x) (k : HasBlocks s x)
    (f : BufferMap) (r : Represents p s f) where
  -- The state after `gbm_bo_destroy`.
  abbrev object_gone : State W T
  object_gone = let t = destroyed s d x in record t { world = p.bo_destroy s.world b.bo }

  object_destroy_lem : gbm_bo_destroy p b.bo s ≡ done (tt, object_gone)
  unfolding gbm_bo_destroy get_user_data
  object_destroy_lem = rw (
    m.carries.points,
    ==_ne d null m.carries.data_ne,
    data_destroy_lem s d x m.carries.data_ne m.carries.holds k,
  )

  -- What is left after the buffer has been freed: its key is not in the table, the other keys are as
  -- before, its data and two of the blocks are freed, and the third block is not.
  pub record Released (t : State W T) : Type 0 where
    pub table : Represents p t (delete h.prime_fd f)
    pub bo_data : t.bo_data d ≡ none
    pub smpte2086 : t.block x.metadata.smpte2086 ≡ false
    pub cta861_3 : t.block x.metadata.cta861_3 ≡ false
    pub smpte2094_50 : t.block x.metadata.smpte2094_50 ≡ true

  -- The state after all.
  abbrev pub freed : State W T
  freed = record object_gone { table = p.hash_del s.table b }

  pub freed_lem :
      (gralloc_gbm_android_buffer_free p h s ≡ done (ok, freed))
      × Represents p freed (delete h.prime_fd f)
  unfolding gralloc_gbm_android_buffer_free find_buffer_k free_found
  freed_lem =
      let (e, after) = delete_buffer-delete p hash still b h.prime_fd held in
      (rw (ready_lem m, m.found, object_destroy_lem, e) refl, after)
    where
      still : Represents p object_gone f
      still = represents p _ f r.table (at_key p r)

      held : f h.prime_fd ≡ some b
      held = sym (at_key p r h.prime_fd) ∙ m.found

  -- Freeing a managed buffer returns 0 and takes its key out of the table and no other; its data and
  -- the blocks of two of its HDR metadata are freed, and the block `smpte2094_50` stays allocated.
  pub buffer_free-Released :
      (t : State W T) × (gralloc_gbm_android_buffer_free p h s ≡ done (ok, t)) × Released t
  buffer_free-Released =
      let (e, after) = freed_lem in
      (
        freed,
        e,
        record {
          table = after;
          bo_data = rw (==_refl d);
          smpte2086 = rw (==_ne _ _ (λ e. k.apart (sym e)), ==_refl x.metadata.smpte2086);
          cta861_3 = rw (==_refl x.metadata.cta861_3);
          smpte2094_50 = rw (==_ne _ _ k.apart_second, ==_ne _ _ k.apart_first) k.smpte2094_50;
        },
      )
