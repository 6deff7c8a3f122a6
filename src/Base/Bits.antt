-- ===== src/Base/Bits.antt =====
-- Laws of `bit_and` and `bit_or` at variables. Both are the library's `digits`, a recursion with a
-- budget of digits, so the laws come from one lemma on the budget and a step for one digit.
use Prim.Native.Nat.{
  ℕ, zero, suc, ◌+◌, ◌-◌, ◌*◌, ◌/◌, ◌%◌, ◌^◌, ◌≤◌, ◌<◌, min, max, bit_and, bit_or, digits,
  bit_and-bitwise, bit_or-bitwise,
}
use mathlib.Core.Path.{◌≡◌, refl, sym, ap, ◌∙◌}
use mathlib.Core.Logic.{◌↔◌}
use mathlib.Core.Bool.{Bool, false, not, ◌||◌}
use native.Mathlib.Nat.{pow-suc}
use native.Mathlib.Omega.{arith}
use gralloc_gbm.Base.Tests.{◌==◌}

module _ (rest : ℕ → ℕ) (f : ℕ → ℕ → ℕ) where
  -- Two budgets that cover the first number give one result.
  budget_irrelevant : (n k x y : ℕ) → x ≤ n → x ≤ k → digits rest f n x y ≡ digits rest f k x y
  budget_irrelevant zero zero x y hn hk = refl
  budget_irrelevant (suc n) zero zero y hn hk = refl
  budget_irrelevant zero (suc k) zero y hn hk = refl
  budget_irrelevant (suc n) (suc k) zero y hn hk = refl
  budget_irrelevant zero _ (suc x) y hn hk = absurd (omega arith)
  budget_irrelevant (suc n) zero (suc x) y hn hk = absurd (omega arith)
  budget_irrelevant (suc n) (suc k) (suc x) y hn hk =
      ap (λ (t : ℕ). t * 2 + f (suc x % 2) (y % 2))
        (budget_irrelevant n k (suc x / 2) (y / 2) (omega arith) (omega arith))

  digits_next :
      (x y : ℕ)
      → digits rest f (suc x) (suc x) y
        ≡ digits rest f (suc x / 2) (suc x / 2) (y / 2) * 2 + f (suc x % 2) (y % 2)
  digits_next x y =
      ap (λ (t : ℕ). t * 2 + f (suc x % 2) (y % 2))
        (budget_irrelevant x (suc x / 2) (suc x / 2) (y / 2) (omega arith) (omega arith))

pub zero-bit_and : (m : ℕ) → bit_and 0 m ≡ 0
zero-bit_and m = bit_and-bitwise 0 m

pub zero-bit_or : (m : ℕ) → bit_or 0 m ≡ m
zero-bit_or m = bit_or-bitwise 0 m

-- One digit of `&`.
pub bit_and_digit : (x m : ℕ) → bit_and x m ≡ bit_and (x / 2) (m / 2) * 2 + min (x % 2) (m % 2)
bit_and_digit zero m = omega (arith, zero-bit_and m, zero-bit_and (m / 2))
bit_and_digit (suc x) m = omega (
  arith,
  bit_and-bitwise (suc x) m,
  bit_and-bitwise (suc x / 2) (m / 2),
  digits_next (λ _. zero) min x m,
)

-- One digit of `|`.
pub bit_or_digit : (x y : ℕ) → bit_or x y ≡ bit_or (x / 2) (y / 2) * 2 + max (x % 2) (y % 2)
bit_or_digit zero y = omega (arith, zero-bit_or y, zero-bit_or (y / 2))
bit_or_digit (suc x) y = omega (
  arith,
  bit_or-bitwise (suc x) y,
  bit_or-bitwise (suc x / 2) (y / 2),
  digits_next (λ y. y) max x y,
)

bit_or-half : (x y : ℕ) → bit_or x y / 2 ≡ bit_or (x / 2) (y / 2)
bit_or-half x y = omega (arith, bit_or_digit x y)

bit_or-parity : (x y : ℕ) → bit_or x y % 2 ≡ max (x % 2) (y % 2)
bit_or-parity x y = omega (arith, bit_or_digit x y)

pub bit_and-zero : (x : ℕ) → bit_and x 0 ≡ 0
bit_and-zero x = below x x (omega arith)
  where
    below : (n x : ℕ) → x ≤ n → bit_and x 0 ≡ 0
    below n zero h = zero-bit_and 0
    below zero (suc x) h = absurd (omega arith)
    below (suc n) (suc x) h =
        omega (arith, bit_and_digit (suc x) 0, below n (suc x / 2) (omega arith))

-- A union misses a mask exactly if both parts do.
abbrev MissesBoth : ℕ → ℕ → ℕ → Type 0
MissesBoth x y m = (bit_and (bit_or x y) m ≡ 0) ↔ ((bit_and x m ≡ 0) × (bit_and y m ≡ 0))

misses_both : (n x y m : ℕ) → m ≤ n → MissesBoth x y m
misses_both n x y zero h = (λ _. (bit_and-zero x, bit_and-zero y), λ _. bit_and-zero (bit_or x y))
misses_both zero x y (suc m) h = absurd (omega arith)
misses_both (suc n) x y (suc m) h =
    let ih = misses_both n (x / 2) (y / 2) (suc m / 2) (omega arith) in
    let halves = ap (λ (t : ℕ). bit_and t (suc m / 2)) (bit_or-half x y) in
    ground (
      arith,
      ih,
      halves,
      bit_or-parity x y,
      bit_and_digit (bit_or x y) (suc m),
      bit_and_digit x (suc m),
      bit_and_digit y (suc m),
    )

-- `x & m` as a condition.
abbrev pub has : ℕ → ℕ → Bool
has x m = not (bit_and x m == 0)

pub has-bit_or : (x y m : ℕ) → has (bit_or x y) m ≡ (has x m || has y m)
has-bit_or x y m = ground (arith, misses_both m x y m (omega arith))

pow-pos : (k : ℕ) → 0 < 2 ^ k
pow-pos zero = omega arith
pow-pos (suc k) = simp pow-suc (omega (arith, pow-pos k))

-- A mask of low ones keeps what fits below it.
pub bit_and-ones : (k x : ℕ) → x < 2 ^ k → bit_and x (2 ^ k - 1) ≡ x
bit_and-ones zero x h = omega (arith, bit_and-zero x)
bit_and-ones (suc k) x h =
    let doubled : 2 ^ suc k ≡ 2 * 2 ^ k = simp pow-suc (omega arith) in
    let positive : 0 < 2 ^ k = pow-pos k in
    let halved : (2 ^ suc k - 1) / 2 ≡ 2 ^ k - 1 = omega arith in
    omega (
      arith,
      bit_and_digit x (2 ^ suc k - 1),
      ap (bit_and (x / 2)) halved,
      bit_and-ones k (x / 2) (omega arith),
    )

-- A mask with a clear lowest digit acts on the other digits.
pub bit_and-double : (x m : ℕ) → bit_and x (m * 2) ≡ bit_and (x / 2) m * 2
bit_and-double x m =
    let halved : m * 2 / 2 ≡ m = omega arith in
    omega (arith, bit_and_digit x (m * 2), ap (bit_and (x / 2)) halved)

bit_and-half : (x y : ℕ) → bit_and x y / 2 ≡ bit_and (x / 2) (y / 2)
bit_and-half x y = omega (arith, bit_and_digit x y)

bit_and-parity : (x y : ℕ) → bit_and x y % 2 ≡ min (x % 2) (y % 2)
bit_and-parity x y = omega (arith, bit_and_digit x y)

-- Two masks in turn are their intersection.
pub bit_and_assoc : (x y z : ℕ) → bit_and (bit_and x y) z ≡ bit_and x (bit_and y z)
bit_and_assoc x y z = below x x y z (omega arith)
  where
    below : (n x y z : ℕ) → x ≤ n → bit_and (bit_and x y) z ≡ bit_and x (bit_and y z)
    below n zero y z h =
        ap (λ (t : ℕ). bit_and t z) (zero-bit_and y)
        ∙ zero-bit_and z
        ∙ sym (zero-bit_and (bit_and y z))
    below zero (suc x) y z h = absurd (omega arith)
    below (suc n) (suc x) y z h = omega (
      arith,
      bit_and_digit (bit_and (suc x) y) z,
      bit_and_digit (suc x) (bit_and y z),
      ap (λ (t : ℕ). bit_and t (z / 2)) (bit_and-half (suc x) y),
      ap (bit_and (suc x / 2)) (bit_and-half y z),
      bit_and-parity (suc x) y,
      bit_and-parity y z,
      below n (suc x / 2) (y / 2) (z / 2) (omega arith),
    )

pub bit_and_comm : (x y : ℕ) → bit_and x y ≡ bit_and y x
bit_and_comm x y = below (x + y) x y (omega arith)
  where
    below : (n x y : ℕ) → x + y ≤ n → bit_and x y ≡ bit_and y x
    below n zero y h = zero-bit_and y ∙ sym (bit_and-zero y)
    below zero (suc x) y h = absurd (omega arith)
    below (suc n) (suc x) y h = omega (
      arith,
      bit_and_digit (suc x) y,
      bit_and_digit y (suc x),
      below n (suc x / 2) (y / 2) (omega arith),
    )

-- What a part of a set meets, the set meets.
pub has_of_part : (l u m : ℕ) → bit_and l u ≡ u → has l m ≡ false → has u m ≡ false
has_of_part l u m part misses =
    let zero_l : bit_and l m ≡ 0 = ground arith in
    let met : bit_and u m ≡ 0 =
      ap (λ (t : ℕ). bit_and t m) (sym part)
      ∙ bit_and_assoc l u m
      ∙ ap (bit_and l) (bit_and_comm u m)
      ∙ sym (bit_and_assoc l m u)
      ∙ ap (λ (t : ℕ). bit_and t u) zero_l
      ∙ zero-bit_and u in
    rw met

-- A set meets a union if it meets one of the parts.
pub has_union : (m x y : ℕ) → has m (bit_or x y) ≡ (has m x || has m y)
has_union m x y =
    ap (λ (t : ℕ). not (t == 0)) (bit_and_comm m (bit_or x y))
    ∙ has-bit_or x y m
    ∙ ap (λ (t : ℕ). not (t == 0) || has y m) (bit_and_comm x m)
    ∙ ap (λ (t : ℕ). has m x || not (t == 0)) (bit_and_comm y m)
