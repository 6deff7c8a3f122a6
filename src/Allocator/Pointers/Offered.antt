-- ===== src/Allocator/Pointers/Offered.antt =====
-- The selection of allocator/Allocator.cpp where the GBM backend refuses: the object of the other class
-- is fetched before that of the first is given up.
use gralloc_gbm.Base.{
  suc, ◌≡◌, refl, true, false, none, ◌==◌, arith, ==_ne, ==_refl, Bool-cases, inl, inr,
}
use gralloc_gbm.Machine.{Ptr, ok, einval, done}
use gralloc_gbm.State.{update}
use gralloc_gbm.Mapper.Front.{mapper_gralloc_gbm, mapper_gralloc_dmabuf}
use gralloc_gbm.Mapper.Singletons.{Backends, drop, fetch_backend, assign_backend}
use gralloc_gbm.Mapper.Singletons.Shared.{
  IsIdle, IsHeld, made_object, IsGone, fetch_new, drop_more, drop_last, assigned, assign_first,
  IsShared, idle, backend_class,
}
use gralloc_gbm.Mapper.Singletons.Selected.{made_known, made_apart}
use gralloc_gbm.Allocator.Pointers.{
  fetch_allocator_dma_buf, fetch_allocator_gralloc_gbm, select_allocator_by_type,
  select_allocator_backend,
}

module _ (s : Backends) (q r : Ptr) (t u w : Backends)
    (first : fetch_backend mapper_gralloc_gbm s ≡ done (q, t))
    (second : fetch_backend mapper_gralloc_dmabuf t ≡ done (r, u))
    (given_up : drop q u ≡ done (tt, w)) where
  pub taken_lem :
      (x y : Backends)
      → assign_backend r w ≡ done (tt, x)
      → drop r x ≡ done (tt, y)
      → select_allocator_backend false true s ≡ done (ok, y)
  unfolding select_allocator_backend select_allocator_by_type fetch_allocator_dma_buf
      fetch_allocator_gralloc_gbm
  taken_lem x y assign last = rw (first, second, given_up, assign, last) refl

  pub refused_lem :
      (x : Backends)
      → drop r w ≡ done (tt, x)
      → select_allocator_backend false false s ≡ done (einval, x)
  unfolding select_allocator_backend select_allocator_by_type fetch_allocator_dma_buf
      fetch_allocator_gralloc_gbm
  refused_lem x last = rw (first, second, given_up, last) refl

-- The run returns; `mBackend` holds an object of the DMA-BUF backend, the only one that lives.
abbrev pub Takes : Backends → Type 0
Takes s =
    (q : Ptr) × (t : Backends) × (select_allocator_backend false true s ≡ done (ok, t))
    × IsHeld t q mapper_gralloc_dmabuf

-- The run returns, and `mBackend` is what it was.
abbrev pub Refuses : Backends → Type 0
Refuses s =
    (t : Backends) × (select_allocator_backend false false s ≡ done (einval, t))
    × IsShared t
    × (backend_class t ≡ backend_class s)

-- From a state in which no object lives.
module _ (s : Backends) (i : IsIdle s) where
  -- Both objects are new; the state where the first has been given up.
  abbrev two_new : Backends
  two_new = made_object mapper_gralloc_dmabuf (made_object mapper_gralloc_gbm s)

  abbrev second_left : Backends
  second_left = record two_new {
    uses = update two_new.uses s.next 0;
    class = update two_new.class s.next none;
  }

  next_ne : (suc s.next == s.next) ≡ false
  next_ne = ==_ne (suc s.next) s.next (λ e. omega (arith, e))

  ne_next : (s.next == suc s.next) ≡ false
  ne_next = ==_ne s.next (suc s.next) (λ e. omega (arith, e))

  gone_second : IsGone (made_object mapper_gralloc_gbm s) mapper_gralloc_dmabuf
  gone_second r e =
      rw (==_ne r s.next (λ same. omega (arith, i.known mapper_gralloc_dmabuf r e, same)))
        (i.unused r)

  first_fetched :
      fetch_backend mapper_gralloc_gbm s ≡ done (s.next, made_object mapper_gralloc_gbm s)
  first_fetched = fetch_new s mapper_gralloc_gbm (λ r e. i.unused r)

  second_fetched :
      fetch_backend mapper_gralloc_dmabuf (made_object mapper_gralloc_gbm s)
      ≡ done (suc s.next, two_new)
  second_fetched = fetch_new (made_object mapper_gralloc_gbm s) mapper_gralloc_dmabuf gone_second

  first_dropped : drop s.next two_new ≡ done (tt, second_left)
  first_dropped = drop_last two_new s.next (rw (ne_next, ==_refl s.next) refl)

  pub idle-Takes : Takes s
  idle-Takes =
      let n = suc s.next in
      let x = assigned second_left n in
      (
        n,
        record x { uses = update x.uses n 1 },
        taken_lem s s.next n _ _ _ first_fetched second_fetched first_dropped x _
            (assign_first second_left n i.backend) (drop_more x n 0 (rw (next_ne, ==_refl n) refl)),
        record {
          backend = refl;
          class = rw (next_ne, ==_refl n) refl;
          one = rw (==_refl n) refl;
          known =
              made_known (made_object mapper_gralloc_gbm s) mapper_gralloc_dmabuf
                (made_known s mapper_gralloc_gbm i.known);
          weak = refl;
          unused = λ r ne. elim (Bool-cases (r == s.next)) [
            | inl hit ↦ rw (ne, hit) refl
            | inr miss ↦ rw (ne, miss) (i.unused r)
          ];
          dead = λ r ne. elim (Bool-cases (r == s.next)) [
            | inl hit ↦ rw hit refl
            | inr miss ↦ rw (ne, miss) (i.dead r)
          ];
          apart =
              made_apart (made_object mapper_gralloc_gbm s) mapper_gralloc_dmabuf
                (made_known s mapper_gralloc_gbm i.known);
        },
      )

  pub idle-Refuses : Refuses s
  idle-Refuses =
      let n = suc s.next in
      (
        record second_left {
          uses = update second_left.uses n 0;
          class = update second_left.class n none;
        },
        refused_lem s s.next n _ _ _ first_fetched second_fetched first_dropped _
            (drop_last second_left n (rw (next_ne, ==_refl n) refl)),
        idle (record {
          backend = i.backend;
          unused = λ r. elim (Bool-cases (r == n)) [
            | inl last ↦ rw last refl
            | inr other ↦ elim (Bool-cases (r == s.next)) [
              | inl hit ↦ rw (other, hit) refl
              | inr miss ↦ rw (other, miss) (i.unused r)
            ]
          ];
          dead = λ r. elim (Bool-cases (r == n)) [
            | inl last ↦ rw last refl
            | inr other ↦ elim (Bool-cases (r == s.next)) [
              | inl hit ↦ rw (other, hit) refl
              | inr miss ↦ rw (other, miss) (i.dead r)
            ]
          ];
          known =
              made_known (made_object mapper_gralloc_gbm s) mapper_gralloc_dmabuf
                (made_known s mapper_gralloc_gbm i.known);
        }),
        rw i.backend refl,
      )
