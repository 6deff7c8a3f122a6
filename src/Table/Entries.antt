-- ===== src/Table/Entries.antt =====
-- The table as a list of buffers: what uthash documents of a table whose keys differ, and the laws
-- of such lists.
use gralloc_gbm.Base.{
  ℕ, ◌≡◌, ◌≢◌, refl, List, [], ◌∷◌, ◌++◌, Option, none, some, ◌==◌, if◌then◌else◌, arith,
  Bool-cases, inl, inr, All, subst, sym, ap, ◌∙◌, ne_of_==, eq_of_==, ==_refl,
}
use gralloc_gbm.Machine.{Ptr}
use gralloc_gbm.Platform.{Platform, Buffer}

-- The entry with a key.
unfoldable pub lookup : ℕ → List Buffer → Option Buffer
lookup fd [] = none
lookup fd (b ∷ bs) = if b.fd == fd then some b else lookup fd bs

-- The list without the entry at an address.
pub without : Ptr → List Buffer → List Buffer
without a [] = []
without a (b ∷ bs) = if b.address == a then bs else b ∷ without a bs

abbrev pub Differs : Buffer → Buffer → Type 0
Differs b c = (b.fd ≢ c.fd) × (b.address ≢ c.address)

-- No two entries have a key or an address in common.
abbrev pub IsTable : List Buffer → Type 0
IsTable [] = Unit {0}
IsTable (b ∷ bs) = All (Differs b) bs × IsTable bs

-- HASH_ITER goes through the entries in the order in which they were added, HASH_ADD and HASH_DEL
-- add and remove one, and HASH_FIND finds the entry with the key, where keys are not repeated.
pub record IsHash {W T : Type 0} (p : Platform W T) : Type 0 where
  pub iter_add : (t : T) (b : Buffer) → p.hash_iter (p.hash_add t b) ≡ p.hash_iter t ++ b ∷ []
  pub iter_del :
      (t : T) (b : Buffer) → p.hash_iter (p.hash_del t b) ≡ without b.address (p.hash_iter t)
  pub find :
      (t : T) (fd : ℕ) → IsTable (p.hash_iter t) → p.hash_find t fd ≡ lookup fd (p.hash_iter t)

module _ (b : Buffer) where
  pub lookup-append :
      (fd : ℕ) (bs : List Buffer)
      → All (λ c. Differs c b) bs
      → lookup fd (bs ++ b ∷ []) ≡ (if b.fd == fd then some b else lookup fd bs)
  unfolding lookup
  lookup-append fd [] h = refl
  lookup-append fd (c ∷ bs) h = ground (arith, lookup-append fd bs h.1)

  All-append :
      (c : Buffer) (bs : List Buffer)
      → All (Differs c) bs
      → Differs c b
      → All (Differs c) (bs ++ b ∷ [])
  All-append c [] h d = (d, tt)
  All-append c (e ∷ bs) h d = (h.0, All-append c bs h.1 d)

  pub append-IsTable :
      (bs : List Buffer) → All (λ c. Differs c b) bs → IsTable bs → IsTable (bs ++ b ∷ [])
  append-IsTable [] h t = (tt, tt)
  append-IsTable (c ∷ bs) h t = (All-append c bs t.0 h.0, append-IsTable bs h.1 t.1)

pub All-without :
    (P : Buffer → Type 0) (a : Ptr) (bs : List Buffer) → All P bs → All P (without a bs)
unfolding without
All-without P a [] h = tt
All-without P a (b ∷ bs) h = elim (Bool-cases (b.address == a)) [
  | inl hit ↦ rw hit h.1
  | inr miss ↦ rw miss (h.0, All-without P a bs h.1)
]

pub without-IsTable : (a : Ptr) (bs : List Buffer) → IsTable bs → IsTable (without a bs)
unfolding without
without-IsTable a [] t = tt
without-IsTable a (b ∷ bs) t = elim (Bool-cases (b.address == a)) [
  | inl hit ↦ rw hit t.1
  | inr miss ↦ rw miss (All-without _ a bs t.0, without-IsTable a bs t.1)
]

-- A key that no entry has is not found.
lookup_fresh : (fd : ℕ) (bs : List Buffer) → All (λ c. fd ≢ c.fd) bs → lookup fd bs ≡ none
unfolding lookup
lookup_fresh fd [] h = refl
lookup_fresh fd (c ∷ bs) h = ground (arith, lookup_fresh fd bs h.1)

pub lookup_new : (b : Buffer) (bs : List Buffer) → All (λ c. Differs c b) bs → lookup b.fd bs ≡ none
unfolding lookup
lookup_new b [] h = refl
lookup_new b (c ∷ bs) h = ground (arith, lookup_new b bs h.1)

differing_fd : (b : Buffer) (bs : List Buffer) → All (Differs b) bs → All (λ c. b.fd ≢ c.fd) bs
differing_fd b [] h = tt
differing_fd b (c ∷ bs) h = (h.0.0, differing_fd b bs h.1)

-- What is found stands in the list.
found_address :
    (c : Buffer) (fd : ℕ) (bs : List Buffer) (b : Buffer)
    → All (Differs c) bs
    → lookup fd bs ≡ some b
    → c.address ≢ b.address
unfolding lookup
found_address c fd [] b h e = cc
found_address c fd (d ∷ bs) b h e = ground (arith, found_address c fd bs b h.1)

pub lookup-without :
    (fd k : ℕ) (bs : List Buffer) (b : Buffer)
    → IsTable bs
    → lookup fd bs ≡ some b
    → lookup k (without b.address bs) ≡ (if k == fd then none else lookup k bs)
unfolding lookup without
lookup-without fd k [] b t e = cc
lookup-without fd k (c ∷ bs) b t e = ground (
  arith,
  lookup-without fd k bs b t.1,
  found_address c fd bs b t.0,
  lookup_fresh c.fd bs (differing_fd c bs t.0),
)

-- Where no entry has the key, no entry has it.
pub absent_fd : (fd : ℕ) (bs : List Buffer) → lookup fd bs ≡ none → All (λ c. c.fd ≢ fd) bs
unfolding lookup
absent_fd fd [] e = tt
absent_fd fd (c ∷ bs) e = elim (Bool-cases (c.fd == fd)) [
  | inl hit ↦
      let clash : some c ≡ none = subst (λ b. (if b then some c else lookup fd bs) ≡ none) hit e in
      absurd (cc)
  | inr miss ↦ (
    ne_of_== c.fd fd miss,
    absent_fd fd bs (subst (λ b. (if b then some c else lookup fd bs) ≡ none) miss e),
  )
]

-- What holds of all that is found holds of all entries.
pub All-lookup :
    (P : Buffer → Type 0) (bs : List Buffer)
    → IsTable bs
    → ((k : ℕ) (b : Buffer) → lookup k bs ≡ some b → P b)
    → All P bs
unfolding lookup
All-lookup P [] t h = tt
All-lookup P (c ∷ bs) t h = (
  h c.fd c (rw (==_refl c.fd) refl),
  All-lookup P bs t.1 λ k b e. elim (Bool-cases (c.fd == k)) [
    | inl hit ↦
        let gone = lookup_fresh c.fd bs (differing_fd c bs t.0) in
        let key : c.fd ≡ k = eq_of_== c.fd k hit in
        let clash : none ≡ some b = sym gone ∙ ap (λ j. lookup j bs) key ∙ e in absurd (cc)
    | inr miss ↦ h k b (rw miss e)
  ],
)
