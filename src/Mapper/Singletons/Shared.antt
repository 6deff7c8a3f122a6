-- ===== src/Mapper/Singletons/Shared.antt =====
-- The selection of a backend in mapper_stablec/Mapper.cpp, in a state that one shared pointer holds.
use gralloc_gbm.Base.{
  ℕ, suc, ◌≡◌, ◌≢◌, ◌<◌, refl, true, false, Option, none, some, ◌==◌, ◌-◌, arith, ==_ne, inl, inr,
  Option-cases, if◌then◌else◌,
}
use gralloc_gbm.Machine.{Ptr, done}
use gralloc_gbm.State.{update}
use gralloc_gbm.Mapper.Front.{MapperBackendType, mapper_gralloc_gbm, mapper_gralloc_dmabuf}
use gralloc_gbm.Mapper.Singletons.{
  Backends, same_class, retain, drop, weak_lock, make_shared, fetch_backend, fetch_backend_dma_buf,
  fetch_backend_gralloc_gbm, select_backend_by_type, assign_backend, take_backend,
}

-- No backend object lives.
pub record IsIdle (s : Backends) : Type 0 where
  pub backend : s.backend ≡ none
  pub unused : (r : Ptr) → s.uses r ≡ 0
  pub dead : (r : Ptr) → s.class r ≡ none
  pub known : (j : MapperBackendType) (r : Ptr) → s.weak j ≡ some r → r < s.next

-- `mBackend` is the only pointer to `q`, of the class `k`, the only backend object that lives; the
-- weak pointer of its class leads to it.
pub record IsHeld (s : Backends) (q : Ptr) (k : MapperBackendType) : Type 0 where
  pub backend : s.backend ≡ some q
  pub class : s.class q ≡ some k
  pub one : s.uses q ≡ 1
  pub known : (j : MapperBackendType) (r : Ptr) → s.weak j ≡ some r → r < s.next
  pub weak : s.weak k ≡ some q
  pub unused : (r : Ptr) → (r == q) ≡ false → s.uses r ≡ 0
  pub dead : (r : Ptr) → (r == q) ≡ false → s.class r ≡ none
  pub apart : (j : MapperBackendType) → same_class j k ≡ false → s.weak j ≢ some q

pub same_class_refl : (k : MapperBackendType) → same_class k k ≡ true
same_class_refl mapper_gralloc_gbm = refl
same_class_refl mapper_gralloc_dmabuf = refl

pub by_type_lem :
    (k : MapperBackendType) (s : Backends) → select_backend_by_type k s ≡ fetch_backend k s
unfolding select_backend_by_type fetch_backend_dma_buf fetch_backend_gralloc_gbm
by_type_lem mapper_gralloc_gbm s = refl
by_type_lem mapper_gralloc_dmabuf s = refl

-- The state after a new object of a class is made.
abbrev pub made_object : MapperBackendType → Backends → Backends
made_object k s = record s {
  uses = update s.uses s.next 1;
  class = update s.class s.next (some k);
  next = suc s.next;
  weak = λ j. if same_class j k then some s.next else s.weak j;
}

-- The state with one more pointer to `q`.
abbrev pub added : Backends → Ptr → Backends
added s q = record s { uses = update s.uses q (suc (s.uses q)) }

-- The weak pointer of the class leads to no live object.
abbrev pub IsGone : Backends → MapperBackendType → Type 0
IsGone s k = (r : Ptr) → s.weak k ≡ some r → s.uses r ≡ 0

module _ (s : Backends) (k : MapperBackendType) where
  pub fetch_new : IsGone s k → fetch_backend k s ≡ done (s.next, made_object k s)
  unfolding fetch_backend weak_lock make_shared
  fetch_new gone = elim (Option-cases (s.weak k)) [
    | inl nothing ↦ rw nothing refl
    | inr (r, at) ↦ rw (at, gone r at) refl
  ]

  pub fetch_again :
      (q : Ptr) → s.weak k ≡ some q → s.uses q ≡ 1 → fetch_backend k s ≡ done (q, added s q)
  unfolding fetch_backend weak_lock retain
  fetch_again q at one = let used : (s.uses q == 0) ≡ false = rw one refl in rw (at, used) refl

pub drop_more :
    (s : Backends) (q n : ℕ)
    → s.uses q ≡ suc (suc n)
    → drop q s ≡ done (tt, record s { uses = update s.uses q (suc n) })
unfolding drop
drop_more s q n e =
    let more : (s.uses q == 1) ≡ false = rw e (==_ne (suc (suc n)) 1 (λ c. omega arith)) in
    let less : s.uses q - 1 ≡ suc n = omega (arith, e) in rw (more, less) refl

pub drop_last :
    (s : Backends) (q : Ptr)
    → s.uses q ≡ 1
    → drop q s ≡ done (tt, record s { uses = update s.uses q 0; class = update s.class q none })
unfolding drop
drop_last s q e = rw e refl

-- The state after `mBackend` has got the pointer.
abbrev pub assigned : Backends → Ptr → Backends
assigned s q = record (added s q) { backend = some q }

pub assign_first :
    (s : Backends) (q : Ptr) → s.backend ≡ none → assign_backend q s ≡ done (tt, assigned s q)
unfolding assign_backend retain
assign_first s q e = rw e refl

pub assign_over :
    (s : Backends) (q r : Ptr) → s.backend ≡ some r → assign_backend q s ≡ drop r (assigned s q)
unfolding assign_backend retain
assign_over s q r e = rw e refl

pub take_lem :
    (s : Backends) (k : MapperBackendType) (q : Ptr) (t u w : Backends)
    → fetch_backend k s ≡ done (q, t)
    → assign_backend q t ≡ done (tt, u)
    → drop q u ≡ done (tt, w)
    → take_backend k s ≡ done (tt, w)
unfolding take_backend
take_lem s k q t u w f a d = rw (by_type_lem k s, f, a, d) refl

-- What holds between two selections.
pub data IsShared (s : Backends) : Type 0 where
  idle : IsIdle s → IsShared s
  held : (q : Ptr) (k : MapperBackendType) → IsHeld s q k → IsShared s

-- The class of the object that `mBackend` points to.
abbrev pub backend_class : Backends → Option MapperBackendType
backend_class s = elim s.backend [ none ↦ none | some q ↦ s.class q ]
