-- ===== src/Library/Drivers.antt =====
-- The calls of common/gralloc_gbm.c that do not look at the driver: unlock and query.
use gralloc_gbm.Base.{
  ℕ, ◌*◌, ◌≡◌, refl, ◌∙◌, Bool, true, false, Option, none, some, Bool-cases, inl, inr, ◌==◌,
  if◌then◌else◌,
}
use gralloc_gbm.Machine.{
  Ptr, null, ok, einval, Outcome, done, fault, null_deref, use_after_free, Action, pure, stop,
  ◌>>=◌, gets, of_outcome,
}
use gralloc_gbm.Machine.Runs.{same_end, no_return, and_then_parts}
use gralloc_gbm.Platform.{Platform, Buffer}
use gralloc_gbm.State.{State, BoData, update, load, calloc, calloc_bo_data}
use gralloc_gbm.Handle.{Handle}
use gralloc_gbm.Stride.{calculate_android_pixel_stride}
use gralloc_gbm.BoData.{
  get_user_data, new_user_data, gralloc_gbm_bo_user_data_init, gralloc_gbm_bo_unmap,
}
use gralloc_gbm.Table.{find_buffer_k}
use gralloc_gbm.Base.Bits.{has}
use gralloc_gbm.Lock.{
  sw_mask, count_unlock, unlock_bo, unlock_found, gralloc_gbm_android_buffer_unlock,
}
use gralloc_gbm.Word.{u32}
use gralloc_gbm.Hal.Usage
use gralloc_gbm.Buffer.{BufferInfo, query_bo, query_found, gralloc_gbm_android_buffer_query}

-- An action that leaves the pointer to the driver alone, if it returns.
pub record KeepsDriver {W T A : Type 0} (act : Action (State W T) A) : Type 0 where
  pub keeps : (s : State W T) (a : A) (t : State W T) → act s ≡ done (a, t) → t.driver ≡ s.driver

module _ {W T : Type 0} where
  keeps_then :
      {A B : Type 0} (act : Action (State W T) A) (k : A → Action (State W T) B)
      → KeepsDriver act
      → ((a : A) → KeepsDriver (k a))
      → KeepsDriver (act >>= k)
  keeps_then act k first rest = record {
    keeps = λ s b t e.
        let (a, u, run, after) = and_then_parts (act s) k e in
        (rest a).keeps u b t after ∙ first.keeps s a u run;
  }

  keeps_if :
      {A : Type 0} (b : Bool) (l r : Action (State W T) A)
      → KeepsDriver l
      → KeepsDriver r
      → KeepsDriver (if b then l else r)
  keeps_if true l r keeps_l keeps_r = keeps_l
  keeps_if false l r keeps_l keeps_r = keeps_r

  -- What never faults, and changes no driver.
  keeps_step :
      {A : Type 0} (f : State W T → A) (g : State W T → State W T)
      → ((s : State W T) → (g s).driver ≡ s.driver)
      → KeepsDriver (λ s. done (f s, g s))
  keeps_step f g same = record {
    keeps = λ s b t e. same_end (λ u. u.driver ≡ s.driver) e refl (same s);
  }

  keeps_pure : {A : Type 0} {a : A} → KeepsDriver {W = W} {T = T} (pure a)
  keeps_pure {A} {a} = keeps_step (λ s. a) (λ s. s) λ s. refl

  keeps_gets : {A : Type 0} {f : State W T → A} → KeepsDriver (gets f)
  keeps_gets {A} {f} = keeps_step f (λ s. s) λ s. refl

  keeps_outcome : {A : Type 0} (o : Outcome A) → KeepsDriver {W = W} {T = T} (of_outcome o)
  keeps_outcome (done a) = keeps_pure
  keeps_outcome (fault x) = record { keeps = λ s b t e. no_return {x = x} refl e }

  keeps_load : (d : Ptr) → KeepsDriver {W = W} {T = T} (load d)
  unfolding load
  keeps_load d = record { keeps = loaded }
    where
      found :
          (o : Option BoData) (s : State W T) (a : BoData) (t : State W T)
          → elim o [ none ↦ stop {A = BoData} use_after_free s | some x ↦ done (x, s) ]
            ≡ done (a, t)
          → t.driver ≡ s.driver
      found none s a t e = no_return {x = use_after_free} refl e
      found (some x) s a t e = same_end (λ u. u.driver ≡ s.driver) e refl refl

      loaded :
          (s : State W T) (a : BoData) (t : State W T)
          → load d s ≡ done (a, t)
          → t.driver ≡ s.driver
      loaded s a t = elim (Bool-cases (d == null)) [
        | inl at_null ↦ rw at_null (λ e. no_return {x = null_deref} refl e)
        | inr at ↦ rw at (found (s.bo_data d) s a t)
      ]

module _ {W T : Type 0} (p : Platform W T) where
  keeps_calloc : KeepsDriver {W = W} {T = T} (calloc p)
  unfolding calloc
  keeps_calloc = record {
    keeps = λ s a t. elim (Bool-cases (p.no_memory s.next)) [
      | inl full ↦ rw full (λ e. same_end (λ u. u.driver ≡ s.driver) e refl refl)
      | inr room ↦ rw room (λ e. same_end (λ u. u.driver ≡ s.driver) e refl refl)
    ];
  }

  keeps_calloc_bo_data : KeepsDriver {W = W} {T = T} (calloc_bo_data p)
  unfolding calloc_bo_data
  keeps_calloc_bo_data = record {
    keeps = λ s a t. elim (Bool-cases (p.no_memory s.next)) [
      | inl full ↦ rw full (λ e. same_end (λ u. u.driver ≡ s.driver) e refl refl)
      | inr room ↦ rw room (λ e. same_end (λ u. u.driver ≡ s.driver) e refl refl)
    ];
  }

  keeps_new : (bo : Ptr) → KeepsDriver (new_user_data p bo)
  unfolding new_user_data
  keeps_new bo = keeps_then _ _ keeps_calloc_bo_data λ d. keeps_then _ _ (keeps_load d) λ x.
      keeps_then _ _ keeps_calloc λ q. keeps_then _ _ keeps_calloc λ r.
        keeps_then _ _ keeps_calloc λ e.
          keeps_step (λ s. d)
            (λ s. record s {
              world = p.set_user_data s.world bo d;
              bo_data = update s.bo_data d (
                  some (record x {
                    metadata = record x.metadata {
                      smpte2086 = q;
                      cta861_3 = r;
                      smpte2094_50 = e;
                      smpte2094_50_size = 0;
                    };
                  }));
            })
            (λ s. refl)

  keeps_user_data : (bo : Ptr) → KeepsDriver (gralloc_gbm_bo_user_data_init p bo)
  unfolding gralloc_gbm_bo_user_data_init get_user_data
  keeps_user_data bo =
      keeps_if (bo == null) _ _ (keeps_pure {a = null}) (
        keeps_then _ _ keeps_gets λ d. keeps_if (d == null) _ _ (keeps_new bo) (keeps_pure {a = d}))

  keeps_unmap : (bo : Ptr) → KeepsDriver (gralloc_gbm_bo_unmap p bo)
  unfolding gralloc_gbm_bo_unmap get_user_data
  keeps_unmap bo = keeps_then _ _ keeps_gets λ d. keeps_then _ _ (keeps_load d) λ x.
      keeps_step (λ s. tt)
        (λ s. record s {
          world = p.bo_unmap s.world bo x.map_data;
          bo_data = update s.bo_data d (some (record x { map_data = null }));
        })
        (λ s. refl)

  keeps_count : (d : Ptr) → KeepsDriver {W = W} {T = T} (count_unlock d)
  unfolding count_unlock
  keeps_count d = keeps_then _ _ (keeps_load d) λ x. keeps_step _ _ λ s. refl

  keeps_unlock_bo : (bo : Ptr) → KeepsDriver (unlock_bo p bo)
  unfolding unlock_bo get_user_data
  keeps_unlock_bo bo = keeps_if (bo == null) _ _ (keeps_pure {a = einval}) (
      keeps_then _ _ keeps_gets λ d. keeps_then _ _ (keeps_load d) λ x.
        keeps_if (x.lock_count == 0) _ _ (keeps_pure {a = ok}) (
          keeps_then _ _
            (keeps_if (has x.locked_for sw_mask) _ _ (keeps_unmap bo) (keeps_pure {a = tt}))
            λ a. keeps_then _ _ (keeps_count d) λ b. keeps_pure {a = ok}))

  keeps_unlock_found : (o : Option Buffer) → KeepsDriver (unlock_found p o)
  unfolding unlock_found
  keeps_unlock_found none = keeps_pure {a = einval}
  keeps_unlock_found (some b) = keeps_unlock_bo b.bo

  pub unlock-KeepsDriver : (h : Handle) → KeepsDriver (gralloc_gbm_android_buffer_unlock p h)
  unfolding gralloc_gbm_android_buffer_unlock find_buffer_k
  unlock-KeepsDriver h = keeps_then _ _ keeps_gets keeps_unlock_found

  -- What a query answers.
  abbrev info_of : Handle → Buffer → ℕ → W → BoData → ℕ → ℕ → BufferInfo
  info_of h b fd w x bytes stride = record {
    fd = fd;
    buffer_id = b.address;
    width = p.bo_width w b.bo;
    height = p.bo_height w b.bo;
    layer_count = 1;
    plane_count = p.bo_plane_count w b.bo;
    android_format = h.format;
    gbm_format = p.bo_format w b.bo;
    modifier = p.bo_modifier w b.bo;
    usage = h.usage;
    size = u32 (bytes * p.bo_height w b.bo);
    stride = stride;
    is_protected = has h.usage Usage.protected;
    metadata = x.metadata;
  }

  keeps_query_bo : (h : Handle) (b : Buffer) → KeepsDriver (query_bo p h b)
  unfolding query_bo
  keeps_query_bo h b = keeps_then _ _ (keeps_step (λ s. (p.bo_fd s.world b.bo).0) _ λ s. refl) λ fd.
      keeps_then {A = W} _ _ (keeps_gets {f = λ s. s.world}) λ w.
        keeps_then _ _ (keeps_user_data b.bo) λ d. keeps_then _ _ (keeps_load d) λ x.
          keeps_then {A = ℕ} _ _ (keeps_gets {f = λ s. p.bo_stride s.world b.bo}) λ bytes.
            keeps_then _ _ (keeps_outcome (calculate_android_pixel_stride h.format bytes))
              λ stride. keeps_pure {a = (ok, some (info_of h b fd w x bytes stride))}

  keeps_query_found : (h : Handle) (o : Option Buffer) → KeepsDriver (query_found p h o)
  unfolding query_found
  keeps_query_found h none = keeps_pure {a = (einval, none)}
  keeps_query_found h (some b) =
      keeps_if (b.bo == null) _ _ (keeps_pure {a = (einval, none)}) (keeps_query_bo h b)

  pub query-KeepsDriver : (h : Handle) → KeepsDriver (gralloc_gbm_android_buffer_query p h)
  unfolding gralloc_gbm_android_buffer_query find_buffer_k
  query-KeepsDriver h = keeps_then _ _ keeps_gets (keeps_query_found h)
