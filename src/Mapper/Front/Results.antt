-- ===== src/Mapper/Front/Results.antt =====
-- The results of getMetadata of mapper_stablec/Mapper.cpp.
use gralloc_gbm.Base.{ℕ, ◌≡◌, refl, Bool, true, false, Option, none, some, if◌then◌else◌, arith}
use gralloc_gbm.Machine.{Outcome, done, fault, pure, and_then}
use gralloc_gbm.Word.{is_negative}
use gralloc_gbm.Platform.{Platform}
use gralloc_gbm.Mapper.Standard.{StandardMetadataType, Value, code, error_no_resources}
use gralloc_gbm.Mapper.Front.{
  MapperBackendType, NativeHandle, MapperSystem, MapperState, on_backend, select_mapper_backend,
  backend_of, check_current, backend_query,
}
use gralloc_gbm.Mapper.Front.Standards.{
  MetadataType, provide_standard_metadata, mapper_get_standard_metadata, mapper_get_metadata,
}

-- If the run returns, the sign bit of its result is not set.
abbrev pub IsUnsigned : {S : Type 0} → Outcome ((ℕ × Option Value) × S) → Type 0
IsUnsigned (done a) = is_negative a.0.0 ≡ false
IsUnsigned (fault e) = Unit {0}

module _ {S : Type 0} where
  and_then-IsUnsigned :
      {A : Type 0} (o : Outcome (A × S)) (k : A → S → Outcome ((ℕ × Option Value) × S))
      → ((a : A) (s : S) → IsUnsigned (k a s))
      → IsUnsigned (and_then o k)
  and_then-IsUnsigned (done a) k h = h a.0 a.1
  and_then-IsUnsigned (fault e) k h = tt

  if-IsUnsigned :
      (b : Bool) (l r : S → Outcome ((ℕ × Option Value) × S)) (s : S)
      → IsUnsigned (l s)
      → IsUnsigned (r s)
      → IsUnsigned ((if b then l else r) s)
  if-IsUnsigned true l r s h h' = h
  if-IsUnsigned false l r s h h' = h'

cut : (r : ℕ) → is_negative (if is_negative r then code error_no_resources else r) ≡ false
cut r = ground arith

module _ {W T V : Type 0} (p : Platform W T) (v : MapperSystem W V) where
  on_backend-IsUnsigned :
      (n : NativeHandle)
      (k : MapperBackendType → MapperState W T V → Outcome ((ℕ × Option Value) × MapperState W T V))
      (s : MapperState W T V)
      → ((b : MapperBackendType) (t : MapperState W T V) → IsUnsigned (k b t))
      → IsUnsigned (on_backend p v n.content (code error_no_resources, none) k s)
  unfolding on_backend select_mapper_backend
  on_backend-IsUnsigned n k s h =
      and_then-IsUnsigned
        (check_current p v (some (backend_of n.content))
          (record s { backend = some (backend_of n.content) }))
        (λ usable.
          if usable then k (backend_of n.content) else pure (code error_no_resources, none))
        (λ usable t. if-IsUnsigned usable _ _ t (h (backend_of n.content) t) refl)

  get_standard-IsUnsigned :
      (o : Option NativeHandle) (k : StandardMetadataType) (dest_size : ℕ) (s : MapperState W T V)
      → IsUnsigned (mapper_get_standard_metadata p v o k dest_size s)
  unfolding mapper_get_standard_metadata
  get_standard-IsUnsigned none k dest_size s = refl
  get_standard-IsUnsigned (some n) k dest_size s = on_backend-IsUnsigned n _ s λ b t.
      and_then-IsUnsigned
        (provide_standard_metadata p v k dest_size (backend_query p v n.content k b) t)
        (λ a. pure ((if is_negative a.0 then code error_no_resources else a.0), a.1))
        (λ a u. cut a.0)

  -- No result of `getMetadata` is negative, whatever the buffer, the type and the state: a refusal
  -- has a positive number, as the size of a value has.
  pub mapper_get_metadata-IsUnsigned :
      (o : Option NativeHandle) (t : MetadataType) (dest_size : ℕ) (s : MapperState W T V)
      → IsUnsigned (mapper_get_metadata p v o t dest_size s)
  unfolding mapper_get_metadata
  mapper_get_metadata-IsUnsigned none t dest_size s = refl
  mapper_get_metadata-IsUnsigned (some n) t dest_size s =
      if-IsUnsigned (v.is_standard_name t.name) _ _ s
        (get_standard-IsUnsigned (some n) t.value dest_size s) refl
