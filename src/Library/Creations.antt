-- ===== src/Library/Creations.antt =====
-- Every gralloc_gbm_android_buffer_new of common/gralloc_gbm.c in a sound state, refused or granted,
-- where memory lasts.
use gralloc_gbm.Base.{
  ℕ, ◌≡◌, ◌≢◌, ◌∙◌, refl, ap, sym, true, false, Option, none, some, ◌==◌, arith, ==_ne, Bool-cases,
  inl, inr, eq_of_==, ne_of_==,
}
use gralloc_gbm.Machine.{null, Status, ok, einval, done}
use gralloc_gbm.Machine.Runs.{same_end, same_result, and_then_parts}
use gralloc_gbm.Flags.{Config}
use gralloc_gbm.Format.{color_fmt_a2g}
use gralloc_gbm.Format.Search.{a2g_pos}
use gralloc_gbm.Platform.{Platform}
use gralloc_gbm.Platform.Laws.{KeepsUserData, MakesNewObjects}
use gralloc_gbm.State.{State}
use gralloc_gbm.Handle.{Handle, Descriptor, gralloc_handle_create}
use gralloc_gbm.Handle.Create.{handle_create_lem}
use gralloc_gbm.Table.{add_buffer}
use gralloc_gbm.Table.Entries.{IsHash, lookup}
use gralloc_gbm.Table.Map.{BufferMap, insert, Represents, represents, at_key}
use gralloc_gbm.Buffer.{register_new, gralloc_gbm_android_buffer_new}
use gralloc_gbm.Buffer.Creation.{register_new_parts}
use gralloc_gbm.Buffer.Made.{
  is_ready_lem, gbm_dev_lem, size, made, with_object, new_buffer, new_handle, blank, Grants,
}
use gralloc_gbm.Library.{IsSound}
use gralloc_gbm.Library.Outside.{world-IsSound}
use gralloc_gbm.Library.Fresh.{fresh_object, fresh_entry}
use gralloc_gbm.Library.Created.{new-IsSound}

-- What a creation returns.
abbrev pub NewResult : Type 0
NewResult = Status × Option (Handle × ℕ)

-- The descriptor of the handle that is returned, if any is, is none of those in the table.
abbrev pub HasNewDescriptor : {W T : Type 0} → Platform W T → State W T → NewResult → Type 0
HasNewDescriptor p s r =
    (h : Handle) (stride : ℕ)
    → r.1 ≡ some (h, stride)
    → lookup h.prime_fd (p.hash_iter s.table) ≡ none

module _ {W T : Type 0} (c : Config) (p : Platform W T) (hash : IsHash p) (keeps : KeepsUserData p)
    (news : MakesNewObjects p) (memory : (n : ℕ) → p.no_memory n ≡ false) (s : State W T)
    (f : BufferMap) (v : IsSound p s f) (desc : Descriptor) where
  -- The state behind a `native_handle_create`.
  abbrev no_object : State W T
  no_object = record s { world = (p.handle_create s.world).1 }

  refused_handle :
      (p.handle_create s.world).0 ≡ false
      → gralloc_gbm_android_buffer_new c p desc s ≡ done ((einval, none), no_object)
  unfolding gralloc_gbm_android_buffer_new gralloc_handle_create
  refused_handle failed =
      rw
        (
          is_ready_lem s v.driver v.is_live v.is_ready,
          ==_ne (color_fmt_a2g desc.format) 0 (omega (arith, a2g_pos desc.format)),
          failed,
        )
        refl

  module _ (handle : (p.handle_create s.world).0 ≡ true) where
    refused_object :
        (made c p s desc v.driver).0 ≡ null
        → gralloc_gbm_android_buffer_new c p desc s
          ≡ done ((einval, none), with_object c p s desc v.driver)
    unfolding gralloc_gbm_android_buffer_new
    refused_object failed =
        rw
          (
            is_ready_lem s v.driver v.is_live v.is_ready,
            ==_ne (color_fmt_a2g desc.format) 0 (omega (arith, a2g_pos desc.format)),
            handle_create_lem p s (size c p s desc) desc.format desc.usage handle,
            gbm_dev_lem no_object v.driver v.is_live,
            failed,
          )
          refl

    module _ (object : (made c p s desc v.driver).0 ≢ null) where
      registers :
          gralloc_gbm_android_buffer_new c p desc s
          ≡ register_new p
              (blank c p s desc)
              (made c p s desc v.driver).0
              (with_object c p s desc v.driver)
      unfolding gralloc_gbm_android_buffer_new
      registers =
          rw
            (
              is_ready_lem s v.driver v.is_live v.is_ready,
              ==_ne (color_fmt_a2g desc.format) 0 (omega (arith, a2g_pos desc.format)),
              handle_create_lem p s (size c p s desc) desc.format desc.usage handle,
              gbm_dev_lem no_object v.driver v.is_live,
              ==_ne (made c p s desc v.driver).0 null object,
            )
            refl

      still : Represents p (with_object c p s desc v.driver) f
      still = represents p _ f v.table.table (at_key p v.table)

      -- A creation that comes so far and returns gives the new handle.
      returns_handle :
          (r : NewResult) (t : State W T)
          → gralloc_gbm_android_buffer_new c p desc s ≡ done (r, t)
          → r ≡ (ok, some (new_handle c p s desc v.driver, (new_handle c p s desc v.driver).stride))
      returns_handle r t run =
          let parts =
            register_new_parts p memory hash keeps (with_object c p s desc v.driver) f still
              (made c p s desc v.driver).0 object v.started (keeps.create_new _ _ _ _ _)
              (blank c p s desc) in
          let (a, u, added, rest) =
            and_then_parts (add_buffer p (some (new_buffer c p s desc v.driver)) _) _
              (sym parts ∙ sym registers ∙ run) in
          sym (same_result rest refl)

      grants :
          lookup (new_buffer c p s desc v.driver).fd (p.hash_iter s.table) ≡ none
          → Grants c p s desc v.driver
      grants gone = record {
        is_live = v.is_live;
        is_ready = v.is_ready;
        memory = memory;
        next_ne = v.started;
        handle = handle;
        object = object;
        fresh = fresh_entry p hash s f v (new_buffer c p s desc v.driver) gone (omega arith);
      }

      made_object-IsSound :
          (r : NewResult) (t : State W T)
          → gralloc_gbm_android_buffer_new c p desc s ≡ done (r, t)
          → HasNewDescriptor p s r
          → (g : BufferMap) × IsSound p t g
      made_object-IsSound r t run key =
          let g = grants (key _ _ (ap (λ (q : NewResult). q.1) (returns_handle r t run))) in
          let (run', w) = new-IsSound c p hash keeps s f v desc v.driver g (
            fresh_object p hash s f v (made c p s desc v.driver).0
              (sym (keeps.handle s.world _) ∙ news.create _ _ _ _ _ object)) in
          (
            insert (new_buffer c p s desc v.driver) f,
            same_end (λ u. IsSound p u (insert (new_buffer c p s desc v.driver) f)) run run' w,
          )

  -- In a sound state, every creation that returns leaves a sound state, provided that the descriptor
  -- that it returns, if it does, is in no entry of the table before.
  pub creation-IsSound :
      (r : NewResult) (t : State W T)
      → gralloc_gbm_android_buffer_new c p desc s ≡ done (r, t)
      → HasNewDescriptor p s r
      → (g : BufferMap) × IsSound p t g
  creation-IsSound r t run key = elim (Bool-cases (p.handle_create s.world).0) [
    | inr refused ↦ (
      f,
      same_end (λ u. IsSound p u f) run (refused_handle refused)
          (world-IsSound p s f v _ (λ bo ne. keeps.handle s.world bo)),
    )
    | inl handle ↦ elim (Bool-cases ((made c p s desc v.driver).0 == null)) [
      | inl failed ↦
          let e = eq_of_== _ null failed in
          (
            f,
            same_end (λ u. IsSound p u f) run (refused_object handle e)
                (world-IsSound p s f v _ (λ bo ne.
                  keeps.create _ _ _ _ _ bo (λ same. ne (same ∙ e)) ∙ keeps.handle s.world bo)),
          )
      | inr object ↦ made_object-IsSound handle (ne_of_== _ null object) r t run key
    ]
  ]
