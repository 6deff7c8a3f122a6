-- ===== src/Buffer/Imported.antt =====
-- gralloc_gbm_android_buffer_import of common/gralloc_gbm.c where nothing fails.
use gralloc_gbm.Base.{
  ℕ, suc, ◌≡◌, ◌≢◌, refl, ◌∙◌, arith, true, false, some, ==_refl, ==_ne, All, Bool-cases, inl, inr,
}
use gralloc_gbm.Machine.{Ptr, null, ok, done, fault, use_after_free, and_then}
use gralloc_gbm.Size.{import_size}
use gralloc_gbm.Flags.{Config, calculate_gbm_flags}
use gralloc_gbm.Format.{color_fmt_a2g}
use gralloc_gbm.Format.Search.{a2g_pos}
use gralloc_gbm.Platform.{Platform, Buffer}
use gralloc_gbm.Platform.Laws.{KeepsUserData}
use gralloc_gbm.State.{State, Driver, live, update, calloc, free_block, read_block}
use gralloc_gbm.Handle.{Handle}
use gralloc_gbm.Table.{add_buffer}
use gralloc_gbm.Table.Entries.{Differs, IsHash}
use gralloc_gbm.Table.Map.{BufferMap, insert, Represents, represents, at_key, add_buffer-insert}
use gralloc_gbm.Lock.Count.{IsConsistent}
use gralloc_gbm.Lock.Calls.{Manages}
use gralloc_gbm.Buffer.{register_import, log_import, gralloc_gbm_android_buffer_import}
use gralloc_gbm.Buffer.Creation.{new_data, with_data, init_lem, allocate_lem}
use gralloc_gbm.Buffer.Made.{new_data-IsConsistent, is_ready_lem, gbm_dev_lem}

-- Reading a block that was just freed is a fault.
pub log_import_faults :
    {W T : Type 0} (q : Ptr) (s : State W T) → q ≢ null → log_import q s ≡ fault use_after_free
unfolding log_import free_block read_block
log_import_faults q s ne = elim (Bool-cases (s.block q)) [
  | inl held ↦ rw (==_ne q null ne, held, ==_refl q, ==_ne q null ne) refl
  | inr freed ↦ rw (==_ne q null ne, freed) refl
]

module _ {W T : Type 0} (c : Config) (p : Platform W T) (s : State W T) (h : Handle)
    (dr : Driver) where
  abbrev format : ℕ
  format = color_fmt_a2g h.format

  abbrev flags : ℕ
  flags = calculate_gbm_flags c h.usage format

  -- What `gbm_bo_import` answers, and the states behind it and behind the making of the data.
  abbrev pub brought : Ptr × W
  brought =
      p.bo_import s.world dr.gbm_dev
        (record {
          size = import_size c flags h.format h.size;
          format = format;
          fd = h.prime_fd;
          stride = h.stride;
          modifier = h.modifier;
        })
        flags

  abbrev pub with_object : State W T
  with_object = record s {
    world = brought.1;
    block = update s.block s.next true;
    next = suc s.next;
  }

  abbrev ready_to_add : State W T
  ready_to_add = let t = with_data p with_object brought.0 in record t { next = suc t.next }

  abbrev pub imported : Buffer
  imported = record {
    address = (with_data p with_object brought.0).next;
    fd = h.prime_fd;
    bo = brought.0;
  }

  abbrev pub all_imported : State W T
  all_imported = let t = ready_to_add in record t { table = p.hash_add t.table imported }

  -- Everything that is asked for is granted, and the handle's descriptor is in no entry of the table.
  pub record GrantsImport : Type 0 where
    pub is_live : s.driver ≡ live dr
    pub is_ready : dr.ready ≡ true
    pub memory : (n : ℕ) → p.no_memory n ≡ false
    pub next_ne : s.next ≢ null
    pub object : brought.0 ≢ null
    pub fresh : All (λ e. Differs e imported) (p.hash_iter s.table)

  -- The import up to the call of `gbm_bo_import` that makes an object.
  pub import_made :
      s.driver ≡ live dr
      → dr.ready ≡ true
      → p.no_memory s.next ≡ false
      → s.next ≢ null
      → brought.0 ≢ null
      → gralloc_gbm_android_buffer_import c p h s
        ≡ and_then (register_import p h brought.0 with_object) (λ r. log_import s.next)
  unfolding gralloc_gbm_android_buffer_import calloc
  import_made is_live is_ready room next_ne object =
      rw
        (
          is_ready_lem s dr is_live is_ready,
          room,
          ==_ne s.next null next_ne,
          ==_ne format 0 (omega (arith, a2g_pos h.format)),
          gbm_dev_lem (record s { block = update s.block s.next true; next = suc s.next }) dr
              is_live,
          ==_ne brought.0 null object,
        )
        refl

  module _ (hash : IsHash p) (keeps : KeepsUserData p) (f : BufferMap) (r : Represents p s f)
      (g : GrantsImport) where
    still : Represents p with_object f
    still = represents p with_object f r.table (at_key p r)

    bare : p.get_user_data brought.1 brought.0 ≡ null
    bare = keeps.import_new _ _ _ _

    pub added :
        (add_buffer p (some imported) ready_to_add ≡ done (ok, all_imported))
        × Represents p all_imported (insert imported f)
    added =
        add_buffer-insert p hash (represents p ready_to_add f r.table (at_key p r)) imported g.fresh

    register_import_lem : register_import p h brought.0 with_object ≡ done (ok, all_imported)
    unfolding register_import
    register_import_lem = rw (
      init_lem p g.memory hash keeps with_object f still brought.0 g.object (λ e. omega arith) bare,
      allocate_lem p g.memory (with_data p with_object brought.0),
      ==_ne (with_data p with_object brought.0).next null (λ e. omega arith),
      added.0,
    )

    managed : Manages p all_imported h imported (suc s.next) (new_data (suc s.next))
    managed = record {
      driver = dr;
      is_live = g.is_live;
      is_ready = g.is_ready;
      found = at_key p added.1 imported.fd ∙ rw (==_refl imported.fd) refl;
      carries = record {
        bo_ne = g.object;
        data_ne = λ e. omega arith;
        points = keeps.set_self brought.1 brought.0 (suc s.next);
        holds = rw (==_refl (suc s.next));
      };
    }

    -- Where libgbm and libc grant what is asked for and the handle's descriptor is in no entry of the
    -- table, importing a handle inserts its buffer into the table under that descriptor and makes it
    -- managed, with unlocked, consistent data; but the import never returns: it then frees the block
    -- with the import's parameters and reads it, which is a use after free.
    pub buffer_import-Faults :
        (register_import p h brought.0 with_object ≡ done (ok, all_imported))
        × Represents p all_imported (insert imported f)
        × Manages p all_imported h imported (suc s.next) (new_data (suc s.next))
        × IsConsistent (new_data (suc s.next))
        × ((new_data (suc s.next)).lock_count ≡ 0)
        × (gralloc_gbm_android_buffer_import c p h s ≡ fault use_after_free)
    buffer_import-Faults = (
      register_import_lem,
      added.1,
      managed,
      new_data-IsConsistent (suc s.next),
      refl,
      import_made g.is_live g.is_ready (g.memory s.next) g.next_ne g.object
          ∙ rw register_import_lem (log_import_faults s.next all_imported g.next_ne),
    )
