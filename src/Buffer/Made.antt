-- ===== src/Buffer/Made.antt =====
-- gralloc_gbm_android_buffer_new of common/gralloc_gbm.c where nothing fails, as a whole.
use gralloc_gbm.Base.{ℕ, ◌≡◌, ◌≢◌, refl, ◌∙◌, arith, true, false, some, ==_refl, ==_ne, All}
use gralloc_gbm.Machine.{Ptr, null, ok, done}
use gralloc_gbm.Word.{u32}
use gralloc_gbm.Size.{Size, new_size}
use gralloc_gbm.Flags.{Config, calculate_gbm_flags}
use gralloc_gbm.Format.{color_fmt_a2g}
use gralloc_gbm.Format.Search.{a2g_pos}
use gralloc_gbm.Platform.{Platform, Buffer}
use gralloc_gbm.Platform.Laws.{KeepsUserData}
use gralloc_gbm.State.{State, Driver, live}
use gralloc_gbm.Handle.{Handle, Descriptor}
use gralloc_gbm.Handle.Create.{fresh_handle, handle_create_lem}
use gralloc_gbm.Driver.{is_gralloc_gbm_ready, gbm_dev}
use gralloc_gbm.Table.Entries.{Differs, IsHash}
use gralloc_gbm.Table.Map.{BufferMap, insert, Represents, represents, at_key}
use gralloc_gbm.Lock.Count.{IsConsistent}
use gralloc_gbm.Lock.Calls.{Manages}
use gralloc_gbm.Buffer.{gralloc_gbm_android_buffer_new}
use gralloc_gbm.Buffer.Creation.{
  new_data, registered, completed, after_all, register_new_lem, after-Represents, after-Carries,
}

pub new_data-IsConsistent : (n : ℕ) → IsConsistent (new_data n)
new_data-IsConsistent n = ground arith

module _ {W T : Type 0} (c : Config) (p : Platform W T) (s : State W T) (desc : Descriptor) where
  abbrev format : ℕ
  format = color_fmt_a2g desc.format

  abbrev flags : ℕ
  flags = calculate_gbm_flags c (u32 desc.usage) format

  abbrev pub size : Size
  size = new_size c flags desc.format desc.size

  -- The handle that is made first.
  abbrev pub blank : Handle
  blank = fresh_handle size desc.format desc.usage

  module _ (dr : Driver) where
    -- What `gbm_bo_create` answers, and the state behind it.
    abbrev pub made : Ptr × W
    made = p.bo_create (p.handle_create s.world).1 dr.gbm_dev size format flags

    abbrev pub with_object : State W T
    with_object = record s { world = made.1 }

    -- The new handle, the new entry of the table, and the last state.
    abbrev pub new_handle : Handle
    new_handle = completed p with_object made.0 blank

    abbrev pub new_buffer : Buffer
    new_buffer = registered p with_object made.0

    abbrev pub last : State W T
    last = after_all p with_object made.0

    -- Everything that is asked for is granted, and the new descriptor is in no entry of the table.
    pub record Grants : Type 0 where
      pub is_live : s.driver ≡ live dr
      pub is_ready : dr.ready ≡ true
      pub memory : (n : ℕ) → p.no_memory n ≡ false
      pub next_ne : s.next ≢ null
      pub handle : (p.handle_create s.world).0 ≡ true
      pub object : made.0 ≢ null
      pub fresh : All (λ e. Differs e (registered p with_object made.0)) (p.hash_iter s.table)

pub is_ready_lem :
    {W T : Type 0} (t : State W T) (dr : Driver)
    → t.driver ≡ live dr
    → dr.ready ≡ true
    → is_gralloc_gbm_ready t ≡ done (true, t)
unfolding is_gralloc_gbm_ready
is_ready_lem t dr e r = rw (e, r) refl

pub gbm_dev_lem :
    {W T : Type 0} (t : State W T) (dr : Driver)
    → t.driver ≡ live dr
    → gbm_dev t ≡ done (dr.gbm_dev, t)
unfolding gbm_dev
gbm_dev_lem t dr e = rw e refl

module _ {W T : Type 0} (c : Config) (p : Platform W T) (hash : IsHash p) (keeps : KeepsUserData p)
    (s : State W T) (f : BufferMap) (r : Represents p s f) (desc : Descriptor) (dr : Driver)
    (g : Grants c p s desc dr) where
  still : Represents p (with_object c p s desc dr) f
  still = represents p (with_object c p s desc dr) f r.table (at_key p r)

  bare : p.get_user_data (with_object c p s desc dr).world (made c p s desc dr).0 ≡ null
  bare = keeps.create_new _ _ _ _ _

  runs :
      gralloc_gbm_android_buffer_new c p desc s
      ≡ done (
        (ok, some ((new_handle c p s desc dr), (new_handle c p s desc dr).stride)),
        (last c p s desc dr),
      )
  unfolding gralloc_gbm_android_buffer_new
  runs = rw (
    is_ready_lem s dr g.is_live g.is_ready,
    ==_ne (color_fmt_a2g desc.format) 0 (omega (arith, a2g_pos desc.format)),
    handle_create_lem p s (size c p s desc) desc.format desc.usage g.handle,
    gbm_dev_lem (record s { world = (p.handle_create s.world).1 }) dr g.is_live,
    ==_ne (made c p s desc dr).0 null g.object,
    register_new_lem p g.memory hash keeps (with_object c p s desc dr) f still
        (made c p s desc dr).0 g.object g.next_ne bare g.fresh (blank c p s desc),
  )

  inserted : Represents p (last c p s desc dr) (insert (new_buffer c p s desc dr) f)
  inserted =
      after-Represents p g.memory hash keeps (with_object c p s desc dr) f still
        (made c p s desc dr).0 g.object g.next_ne bare g.fresh

  managed :
      Manages p
        (last c p s desc dr)
        (new_handle c p s desc dr)
        (new_buffer c p s desc dr)
        s.next
        (new_data s.next)
  managed = record {
    driver = dr;
    is_live = g.is_live;
    is_ready = g.is_ready;
    found =
        at_key p inserted (new_buffer c p s desc dr).fd
        ∙ rw (==_refl (new_buffer c p s desc dr).fd) refl;
    carries =
        after-Carries p g.memory hash keeps (with_object c p s desc dr) f still
          (made c p s desc dr).0 g.object g.next_ne bare g.fresh;
  }

  -- Where libgbm and libc grant what is asked for and the new descriptor is in no entry of the table,
  -- creating a buffer returns 0 with a handle and its stride; the new buffer is inserted into the
  -- table under the descriptor in the handle, and is managed, with unlocked, consistent data.
  pub buffer_new-Manages :
      (gralloc_gbm_android_buffer_new c p desc s
        ≡ done (
          (ok, some ((new_handle c p s desc dr), (new_handle c p s desc dr).stride)),
          (last c p s desc dr),
        ))
      × Represents p (last c p s desc dr) (insert (new_buffer c p s desc dr) f)
      × Manages p
          (last c p s desc dr)
          (new_handle c p s desc dr)
          (new_buffer c p s desc dr)
          s.next
          (new_data s.next)
      × IsConsistent (new_data s.next)
      × ((new_data s.next).lock_count ≡ 0)
  buffer_new-Manages = (runs, inserted, managed, new_data-IsConsistent s.next, refl)
