-- ===== src/Mapper/Singletons/Selected.antt =====
-- The selection of a backend in mapper_stablec/Mapper.cpp, from states in which `mBackend` is the only
-- shared pointer.
use gralloc_gbm.Base.{
  suc, ◌≡◌, ◌≢◌, ◌<◌, refl, ◌∙◌, ap, true, false, none, some, ◌==◌, arith, ==_ne, ==_refl, subst,
  inl, inr, Bool-cases, if◌then◌else◌,
}
use gralloc_gbm.Machine.{Ptr, Outcome, done}
use gralloc_gbm.State.{update}
use gralloc_gbm.Handle.{Handle}
use gralloc_gbm.Mapper.Front.{
  MapperBackendType, mapper_gralloc_gbm, mapper_gralloc_dmabuf, backend_of, MapperState,
  select_mapper_backend,
}
use gralloc_gbm.Mapper.Singletons.{Backends, same_class, take_backend, select_shared_backend}
use gralloc_gbm.Mapper.Singletons.Shared.{
  IsIdle, IsHeld, same_class_refl, made_object, IsGone, fetch_new, fetch_again, added, drop_more,
  drop_last, assigned, assign_first, assign_over, take_lem, IsShared, idle, held, backend_class,
}

-- The run ends in a state that holds `q`.
abbrev pub Holds : Ptr → MapperBackendType → Outcome (Unit {0} × Backends) → Type 0
Holds q k o = (t : Backends) × (o ≡ done (tt, t)) × IsHeld t q k

module _ (s : Backends) (k : MapperBackendType)
    (known : (j : MapperBackendType) (r : Ptr) → s.weak j ≡ some r → r < s.next) where
  pub made_known :
      (j : MapperBackendType) (r : Ptr) → (made_object k s).weak j ≡ some r → r < suc s.next
  made_known j r e = elim (Bool-cases (same_class j k)) [
    | inl same ↦
        let new : some s.next ≡ some r =
          subst (λ b. (if b then some s.next else s.weak j) ≡ some r) same e in
        let equal : s.next ≡ r = cc in omega (arith, equal)
    | inr other ↦
        let old : r < s.next =
          known j r (subst (λ b. (if b then some s.next else s.weak j) ≡ some r) other e) in
        omega (arith, old)
  ]

  pub made_apart :
      (j : MapperBackendType) → same_class j k ≡ false → (made_object k s).weak j ≢ some s.next
  made_apart j other e =
      let old : s.next < s.next =
        known j s.next (subst (λ b. (if b then some s.next else s.weak j) ≡ some s.next) other e) in
      omega (arith, old)

module _ (s : Backends) (k : MapperBackendType) where
  again_lem : (q : Ptr) → IsHeld s q k → Holds q k (take_backend k s)
  again_lem q i =
      let t = added s q in
      let u = record (assigned t q) { uses = update (assigned t q).uses q 2 } in
      (
        record u { uses = update u.uses q 1 },
        take_lem s k q t u _ (fetch_again s k q i.weak i.one)
            (assign_over t q q i.backend
              ∙ drop_more (assigned t q) q 1 (rw (==_refl q, i.one) refl))
            (drop_more u q 0 (rw (==_refl q) refl)),
        record {
          backend = refl;
          class = i.class;
          one = rw (==_refl q) refl;
          known = i.known;
          weak = i.weak;
          unused = λ r ne. rw ne (i.unused r ne);
          dead = i.dead;
          apart = i.apart;
        },
      )

  first_lem : IsIdle s → Holds s.next k (take_backend k s)
  first_lem i =
      let n = s.next in
      let t = made_object k s in
      let u = assigned t n in
      (
        record u { uses = update u.uses n 1 },
        take_lem s k n t u _ (fetch_new s k (λ r e. i.unused r)) (assign_first t n i.backend)
            (drop_more u n 0 (rw (==_refl n) refl)),
        record {
          backend = refl;
          class = rw (==_refl n) refl;
          one = rw (==_refl n) refl;
          known = made_known s k i.known;
          weak = rw (same_class_refl k) refl;
          unused = λ r ne. rw ne (i.unused r);
          dead = λ r ne. rw ne (i.dead r);
          apart = made_apart s k i.known;
        },
      )

  switch_lem :
      (q : Ptr) (other : MapperBackendType)
      → IsHeld s q other
      → same_class k other ≡ false
      → Holds s.next k (take_backend k s)
  switch_lem q other i differ =
      let n = s.next in
      let before : q < n = i.known other q i.weak in
      let old_new : (q == n) ≡ false = ==_ne q n (λ e. omega (arith, before, e)) in
      let new_old : (n == q) ≡ false = ==_ne n q (λ e. omega (arith, before, e)) in
      let t = made_object k s in
      let u = record (assigned t n) {
        uses = update (assigned t n).uses q 0;
        class = update (assigned t n).class q none;
      } in
      (
        record u { uses = update u.uses n 1 },
        take_lem s k n t u _ (fetch_new s k (gone_lem q other i differ))
            (assign_over t n q i.backend ∙ drop_last (assigned t n) q (rw old_new i.one))
            (drop_more u n 0 (rw (new_old, ==_refl n) refl)),
        record {
          backend = refl;
          class = rw (new_old, ==_refl n) refl;
          one = rw (==_refl n) refl;
          known = made_known s k i.known;
          weak = rw (same_class_refl k) refl;
          unused = λ r ne. elim (Bool-cases (r == q)) [
            | inl hit ↦ rw (ne, hit) refl
            | inr miss ↦ rw (ne, miss) (i.unused r miss)
          ];
          dead = λ r ne. elim (Bool-cases (r == q)) [
            | inl hit ↦ rw hit refl
            | inr miss ↦ rw (ne, miss) (i.dead r miss)
          ];
          apart = made_apart s k i.known;
        },
      )
    where
      gone_lem :
          (q : Ptr) (other : MapperBackendType)
          → IsHeld s q other
          → same_class k other ≡ false
          → IsGone s k
      gone_lem q other i differ r e =
          i.unused r (==_ne r q (λ same. i.apart k differ (e ∙ ap some same)))

same_class_lem : (j k : MapperBackendType) → same_class j k ≡ true → k ≡ j
same_class_lem mapper_gralloc_gbm mapper_gralloc_gbm e = refl
same_class_lem mapper_gralloc_gbm mapper_gralloc_dmabuf e = cc
same_class_lem mapper_gralloc_dmabuf mapper_gralloc_gbm e = cc
same_class_lem mapper_gralloc_dmabuf mapper_gralloc_dmabuf e = refl

-- Taking a class holds an object of it.
pub take-Holds :
    (s : Backends) (k : MapperBackendType) → IsShared s → (q : Ptr) × Holds q k (take_backend k s)
take-Holds s k (idle i) = (s.next, first_lem s k i)
take-Holds s k (held q other i) = elim (Bool-cases (same_class k other)) [
  | inl same ↦
      let class : other ≡ k = same_class_lem k other same in
      (q, again_lem s k q (subst (λ j. IsHeld s q j) class i))
  | inr differ ↦ (s.next, switch_lem s k q other i differ)
]

module _ {W T V : Type 0} where
  -- The run keeps what holds between two selections, and does to the class of `mBackend` what
  -- `select_mapper_backend` does to the state of the mapper.
  abbrev pub Selects : Handle → MapperState W T V → Outcome (Unit {0} × Backends) → Type 0
  Selects h x o =
      (t : Backends) × (o ≡ done (tt, t))
      × IsShared t
      × (select_mapper_backend h x ≡ done (tt, record x { backend = backend_class t }))

  selects :
      (h : Handle) (x : MapperState W T V) (q : Ptr) (o : Outcome (Unit {0} × Backends))
      → Holds q (backend_of h) o
      → Selects h x o
  unfolding select_mapper_backend
  selects h x q o (t, e, i) = (t, e, held q (backend_of h) i, rw (i.backend, i.class) refl)

  -- Where no backend object lives but the one that `mBackend` points to, a selection returns, and
  -- the same holds after it: an object of the other class has ended. The class of the object that
  -- `mBackend` then points to is the backend that the model of the mapper selects.
  pub select_shared_backend-Selects :
      (s : Backends) (h : Handle) (x : MapperState W T V)
      → IsShared s
      → Selects h x (select_shared_backend h s)
  unfolding select_shared_backend
  select_shared_backend-Selects s h x shared =
      let (q, holds) = take-Holds s (backend_of h) shared in selects h x q _ holds
