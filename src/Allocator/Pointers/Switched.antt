-- ===== src/Allocator/Pointers/Switched.antt =====
-- The selection of allocator/Allocator.cpp where the GBM backend refuses and `mBackend` holds an object.
use gralloc_gbm.Base.{
  ◌≡◌, ◌≢◌, ◌<◌, refl, ◌∙◌, ap, false, none, some, ◌==◌, arith, ==_ne, ==_refl, Bool-cases, inl,
  inr,
}
use gralloc_gbm.Machine.{Ptr, done}
use gralloc_gbm.State.{update}
use gralloc_gbm.Mapper.Front.{MapperBackendType, mapper_gralloc_gbm, mapper_gralloc_dmabuf}
use gralloc_gbm.Mapper.Singletons.{Backends, same_class, drop, fetch_backend}
use gralloc_gbm.Mapper.Singletons.Shared.{
  IsHeld, made_object, IsGone, fetch_new, fetch_again, added, drop_more, drop_last, assigned,
  assign_over, held,
}
use gralloc_gbm.Mapper.Singletons.Selected.{made_known, made_apart}
use gralloc_gbm.Allocator.Pointers.Offered.{taken_lem, refused_lem, Takes, Refuses}

-- From a state in which `mBackend` holds an object of the GBM backend.
module _ (s : Backends) (q : Ptr) (i : IsHeld s q mapper_gralloc_gbm) where
  -- The other object is new; the state where the second pointer to the first has been given up.
  abbrev with_new : Backends
  with_new = made_object mapper_gralloc_dmabuf (added s q)

  abbrev both_left : Backends
  both_left = record with_new { uses = update with_new.uses q 1 }

  before : q < s.next
  before = i.known mapper_gralloc_gbm q i.weak

  old_new : (q == s.next) ≡ false
  old_new = ==_ne q s.next (λ e. omega (arith, before, e))

  new_old : (s.next == q) ≡ false
  new_old = ==_ne s.next q (λ e. omega (arith, before, e))

  gone_other : IsGone (added s q) mapper_gralloc_dmabuf
  gone_other r e =
      let apart : (r == q) ≡ false =
        ==_ne r q (λ same. i.apart mapper_gralloc_dmabuf refl (e ∙ ap some same)) in
      rw apart (i.unused r apart)

  same_fetched : fetch_backend mapper_gralloc_gbm s ≡ done (q, added s q)
  same_fetched = fetch_again s mapper_gralloc_gbm q i.weak i.one

  other_fetched : fetch_backend mapper_gralloc_dmabuf (added s q) ≡ done (s.next, with_new)
  other_fetched = fetch_new (added s q) mapper_gralloc_dmabuf gone_other

  same_dropped : drop q with_new ≡ done (tt, both_left)
  same_dropped = drop_more with_new q 0 (rw (old_new, ==_refl q, i.one) refl)

  pub gbm-Takes : Takes s
  gbm-Takes =
      let n = s.next in
      let y = assigned both_left n in
      let x = record y { uses = update y.uses q 0; class = update y.class q none } in
      (
        n,
        record x { uses = update x.uses n 1 },
        taken_lem s q n _ _ _ same_fetched other_fetched same_dropped x _
            (assign_over both_left n q i.backend ∙ drop_last y q (rw (old_new, ==_refl q) refl))
            (drop_more x n 0 (rw (new_old, ==_refl n) refl)),
        record {
          backend = refl;
          class = rw (new_old, ==_refl n) refl;
          one = rw (==_refl n) refl;
          known = made_known (added s q) mapper_gralloc_dmabuf i.known;
          weak = refl;
          unused = λ r ne. elim (Bool-cases (r == q)) [
            | inl hit ↦ rw (ne, hit) refl
            | inr miss ↦ rw (ne, miss) (i.unused r miss)
          ];
          dead = λ r ne. elim (Bool-cases (r == q)) [
            | inl hit ↦ rw hit refl
            | inr miss ↦ rw (ne, miss) (i.dead r miss)
          ];
          apart = made_apart (added s q) mapper_gralloc_dmabuf i.known;
        },
      )

  pub gbm-Refuses : Refuses s
  gbm-Refuses =
      let n = s.next in
      (
        record both_left {
          uses = update both_left.uses n 0;
          class = update both_left.class n none;
        },
        refused_lem s q n _ _ _ same_fetched other_fetched same_dropped _
            (drop_last both_left n (rw (new_old, ==_refl n) refl)),
        held q mapper_gralloc_gbm (record {
          backend = i.backend;
          class = rw old_new i.class;
          one = rw (old_new, ==_refl q) refl;
          known = made_known (added s q) mapper_gralloc_dmabuf i.known;
          weak = i.weak;
          unused = λ r ne. elim (Bool-cases (r == n)) [
            | inl hit ↦ rw hit refl
            | inr miss ↦ rw (miss, ne) (i.unused r ne)
          ];
          dead = λ r ne. elim (Bool-cases (r == n)) [
            | inl hit ↦ rw hit refl
            | inr miss ↦ rw miss (i.dead r ne)
          ];
          apart = other_apart;
        }),
        rw (i.backend, old_new) refl,
      )
    where
      other_apart :
          (j : MapperBackendType)
          → same_class j mapper_gralloc_gbm ≡ false
          → with_new.weak j ≢ some q
      other_apart mapper_gralloc_gbm differ e = absurd (cc)
      other_apart mapper_gralloc_dmabuf differ e =
          let same : s.next ≡ q = ground (arith, e) in omega (arith, before, same)

-- From a state in which it holds one of the DMA-BUF backend.
module _ (s : Backends) (q : Ptr) (i : IsHeld s q mapper_gralloc_dmabuf) where
  -- The first object is new, and is given up again.
  abbrev offered : Backends
  offered = added (made_object mapper_gralloc_gbm s) q

  abbrev kept : Backends
  kept = record offered {
    uses = update offered.uses s.next 0;
    class = update offered.class s.next none;
  }

  earlier : q < s.next
  earlier = i.known mapper_gralloc_dmabuf q i.weak

  q_new : (q == s.next) ≡ false
  q_new = ==_ne q s.next (λ e. omega (arith, earlier, e))

  new_q : (s.next == q) ≡ false
  new_q = ==_ne s.next q (λ e. omega (arith, earlier, e))

  gone_gbm : IsGone s mapper_gralloc_gbm
  gone_gbm r e = i.unused r (==_ne r q (λ same. i.apart mapper_gralloc_gbm refl (e ∙ ap some same)))

  new_fetched : fetch_backend mapper_gralloc_gbm s ≡ done (s.next, made_object mapper_gralloc_gbm s)
  new_fetched = fetch_new s mapper_gralloc_gbm gone_gbm

  held_fetched :
      fetch_backend mapper_gralloc_dmabuf (made_object mapper_gralloc_gbm s) ≡ done (q, offered)
  held_fetched =
      fetch_again (made_object mapper_gralloc_gbm s) mapper_gralloc_dmabuf q i.weak (rw q_new i.one)

  new_dropped : drop s.next offered ≡ done (tt, kept)
  new_dropped = drop_last offered s.next (rw (new_q, ==_refl s.next) refl)

  new_apart :
      (j : MapperBackendType) → same_class j mapper_gralloc_dmabuf ≡ false → offered.weak j ≢ some q
  new_apart mapper_gralloc_dmabuf differ e = absurd (cc)
  new_apart mapper_gralloc_gbm differ e =
      let same : s.next ≡ q = ground (arith, e) in omega (arith, earlier, same)

  pub dma-Takes : Takes s
  dma-Takes =
      let y = assigned kept q in
      let x = record y { uses = update y.uses q 2 } in
      (
        q,
        record x { uses = update x.uses q 1 },
        taken_lem s s.next q _ _ _ new_fetched held_fetched new_dropped x _
            (assign_over kept q q i.backend ∙ drop_more y q 1 (rw (==_refl q, q_new, i.one) refl))
            (drop_more x q 0 (rw (==_refl q) refl)),
        record {
          backend = refl;
          class = rw q_new i.class;
          one = rw (==_refl q) refl;
          known = made_known s mapper_gralloc_gbm i.known;
          weak = i.weak;
          unused = λ r ne. elim (Bool-cases (r == s.next)) [
            | inl hit ↦ rw (ne, hit) refl
            | inr miss ↦ rw (ne, miss) (i.unused r ne)
          ];
          dead = λ r ne. elim (Bool-cases (r == s.next)) [
            | inl hit ↦ rw hit refl
            | inr miss ↦ rw miss (i.dead r ne)
          ];
          apart = new_apart;
        },
      )

  pub dma-Refuses : Refuses s
  dma-Refuses = (
    record kept { uses = update kept.uses q 1 },
    refused_lem s s.next q _ _ _ new_fetched held_fetched new_dropped _
        (drop_more kept q 0 (rw (q_new, ==_refl q, i.one) refl)),
    held q mapper_gralloc_dmabuf (record {
      backend = i.backend;
      class = rw q_new i.class;
      one = rw (==_refl q) refl;
      known = made_known s mapper_gralloc_gbm i.known;
      weak = i.weak;
      unused = λ r ne. elim (Bool-cases (r == s.next)) [
        | inl hit ↦ rw (ne, hit) refl
        | inr miss ↦ rw (ne, miss) (i.unused r ne)
      ];
      dead = λ r ne. elim (Bool-cases (r == s.next)) [
        | inl hit ↦ rw hit refl
        | inr miss ↦ rw miss (i.dead r ne)
      ];
      apart = new_apart;
    }),
    rw (i.backend, q_new) refl,
  )
