-- ===== src/Fibonacci.antt =====
-- misc/matrix_fast_power.cpp (struct matrix and f4) and misc/const_expr.cpp (f1 and f2): Fibonacci
-- numbers by fast powers of a matrix, and by recursion. `int` arithmetic that leaves the range of a
-- 32-bit `int` is undefined behaviour, and is `overflow` here; all values are non-negative. Printing
-- is left out.
pub mod Sums
mod Tests
use cpp_demo.Prelude.{
  ℕ, zero, suc, ◌+◌, ◌-◌, ◌*◌, ◌/◌, ◌%◌, ◌^◌, ◌<◌, ◌≤◌, ◌≡◌, ◌≢◌, refl, sym, ap, ◌∙◌, ◌⊎◌, inl, inr,
  Bool, true, false, ◌&&◌, Option, none, some, arith, ltb, leb, ◌==◌, if◌then◌else◌, Bool-cases,
  ◌>>=◌, Option-cases, subst, all_below, all_below_sound, ltb→lt, leb→le, lt→ltb,
}

pub data Result {ℓ} (A : Type ℓ) : Type ℓ where
  ok : A → Result A
  overflow : Result A
  out_of_fuel : Result A

-- A value that is to be an `int`: `none` is an overflow.
as_int : ℕ → Option ℕ
as_int n = if ltb n (2 ^ 31) then some n else none

add_int : ℕ → ℕ → Option ℕ
unfolding as_int
add_int a b = as_int (a + b)

mul_int : ℕ → ℕ → Option ℕ
unfolding as_int
mul_int a b = as_int (a * b)

pub record Matrix : Type 0 where
  pub a00 : ℕ
  pub a01 : ℕ
  pub a10 : ℕ
  pub a11 : ℕ

-- `a * b + c * d`
sum_of_products : ℕ → ℕ → ℕ → ℕ → Option ℕ
unfolding mul_int add_int
sum_of_products a b c d = do p ← mul_int a b; q ← mul_int c d; add_int p q

-- matrix::operator*
unfoldable pub mul_matrix : Matrix → Matrix → Option Matrix
unfolding sum_of_products
mul_matrix a b = do
  r00 ← sum_of_products a.a00 b.a00 a.a01 b.a10
  r01 ← sum_of_products a.a00 b.a01 a.a01 b.a11
  r10 ← sum_of_products a.a10 b.a00 a.a11 b.a10
  r11 ← sum_of_products a.a10 b.a01 a.a11 b.a11
  some (record { a00 = r00; a01 = r01; a10 = r10; a11 = r11 })

abbrev base_matrix : Matrix
base_matrix = record { a00 = 1; a01 = 1; a10 = 1; a11 = 0 }

abbrev unit_matrix : Matrix
unit_matrix = record { a00 = 1; a01 = 0; a10 = 0; a11 = 1 }

-- `if (n % 2 == 1) r = r * a;`
odd_part : ℕ → Matrix → Matrix → Option Matrix
unfolding mul_matrix
odd_part n r a = if n % 2 == 1 then mul_matrix r a else some r

-- The `while` loop, on fuel.
loop : ℕ → ℕ → Matrix → Matrix → Result ℕ
loop zero n r a = out_of_fuel
loop (suc f) n r a =
    let body : Result ℕ = elim (odd_part n r a) [
      | none ↦ overflow
      | some r' ↦ elim (mul_matrix a a) [ none ↦ overflow | some a' ↦ loop f (n / 2) r' a' ]
    ] in
    if ltb 0 n then body else ok r.a00

-- f4 at an `n` that is not negative; a negative one gives 0, as 0 does.
unfoldable pub f4 : ℕ → Result ℕ
unfolding loop odd_part
f4 zero = ok 0
f4 (suc m) = loop (suc m) m unit_matrix base_matrix

-- f1, and f2 in the same words. At 0 the recursion runs down past every `int`, and does not return.
unfoldable pub f1 : ℕ → Option ℕ
f1 zero = none
f1 (suc zero) = some 1
f1 (suc (suc zero)) = some 1
f1 (suc (suc (suc n))) = elim (f1 (suc (suc n))) [
  | none ↦ none
  | some a ↦ elim (f1 (suc n)) [ none ↦ none | some b ↦ some ((a + b) % 2 ^ 64) ]
]

-- The Fibonacci numbers.
unfoldable pub fib : ℕ → ℕ
fib zero = 0
fib (suc zero) = 1
fib (suc (suc n)) = fib (suc n) + fib n

-- Computed from the bottom up, so that a table is quick.
fib_from : ℕ → ℕ → ℕ → ℕ
fib_from zero a b = a
fib_from (suc n) a b = fib_from n b (a + b)

fib_from-fib : (n k : ℕ) → fib_from n (fib k) (fib (suc k)) ≡ fib (n + k)
unfolding fib_from fib
fib_from-fib zero k = ap fib (omega arith)
fib_from-fib (suc n) k =
    let e : fib k + fib (suc k) ≡ fib (suc (suc k)) = omega arith in
    let i : n + suc k ≡ suc n + k = omega arith in
    ap (fib_from n (fib (suc k))) e ∙ fib_from-fib n (suc k) ∙ ap fib i

fib_from_lem : (n : ℕ) → fib_from n 0 1 ≡ fib n
unfolding fib
fib_from_lem n = let e : n + 0 ≡ n = omega arith in fib_from-fib n 0 ∙ ap fib e

f1_pair :
    (n : ℕ)
    → (f1 (suc n) ≡ some (fib (suc n) % 2 ^ 64))
      × (f1 (suc (suc n)) ≡ some (fib (suc (suc n)) % 2 ^ 64))
unfolding f1 fib
f1_pair zero = (refl, refl)
f1_pair (suc n) = let (a, b) = f1_pair n in (b, rw (b, a) (ap some (omega arith)))

-- The recursion returns the Fibonacci number, reduced to 64 bits, at every positive argument.
pub f1-fib : (n : ℕ) → f1 (suc n) ≡ some (fib (suc n) % 2 ^ 64)
f1-fib n = (f1_pair n).0

-- A round either overflows, or goes on with the square.
round_cases :
    (f n : ℕ) (r a a' : Matrix)
    → 0 < n
    → mul_matrix a a ≡ some a'
    → (loop (suc f) n r a ≡ overflow)
      ⊎ ((r' : Matrix) × (loop (suc f) n r a ≡ loop f (n / 2) r' a'))
unfolding loop
round_cases f n r a a' h e = elim (Option-cases (odd_part n r a)) [
  | inl none' ↦ inl (ground arith)
  | inr (r', some') ↦ inr (r', ground arith)
]

-- A round whose square overflows.
round_fails :
    (f n : ℕ) (r a : Matrix) → 0 < n → mul_matrix a a ≡ none → loop (suc f) n r a ≡ overflow
unfolding loop
round_fails f n r a h e = ground arith

-- The square of a matrix that does not overflow goes on to overflow if the next does.
round_on :
    (f n : ℕ) (a a' : Matrix)
    → 0 < n
    → mul_matrix a a ≡ some a'
    → ((r : Matrix) → loop f (n / 2) r a' ≡ overflow)
    → (r : Matrix) → loop (suc f) n r a ≡ overflow
round_on f n a a' h e k r = elim (round_cases f n r a a' h e) [
  | inl over ↦ over
  | inr (r', next) ↦ next ∙ k r'
]

-- The power of the base matrix with exponent `k`, positive: Fibonacci numbers around `k`.
abbrev power : ℕ → Matrix
power k = record {
  a00 = fib_from (k + 1) 0 1;
  a01 = fib_from k 0 1;
  a10 = fib_from k 0 1;
  a11 = fib_from (k - 1) 0 1;
}

abbrev long : ℕ → ℕ
long f = suc (suc (suc (suc (suc (suc f)))))

loop_overflows : (f n : ℕ) (r : Matrix) → 32 ≤ n → loop (long f) n r base_matrix ≡ overflow
unfolding fib_from mul_matrix
loop_overflows f n r h =
    round_on _ n (power 1) (power 2) (omega arith) refl
      (round_on _ (n / 2) (power 2) (power 4) (omega arith) refl (
        round_on _ (n / 2 / 2) (power 4) (power 8) (omega arith) refl (
          round_on _ (n / 2 / 2 / 2) (power 8) (power 16) (omega arith) refl (
            round_on _ (n / 2 / 2 / 2 / 2) (power 16) (power 32) (omega arith) refl
              (λ q. round_fails f (n / 2 / 2 / 2 / 2 / 2) q (power 32) (omega arith) refl)))))
      r

f4-loop : (m : ℕ) → f4 (suc m) ≡ loop (suc m) m unit_matrix base_matrix
unfolding f4
f4-loop m = refl

f4_large : (m : ℕ) → 32 ≤ m → f4 (suc m) ≡ overflow
f4_large m h =
    let e : long (m - 5) ≡ suc m = omega arith in
    f4-loop m
    ∙ subst (λ k. loop k m unit_matrix base_matrix ≡ overflow) e
        (loop_overflows (m - 5) m unit_matrix h)

is_ok : Result ℕ → ℕ → Bool
is_ok (ok a) b = a == b
is_ok overflow b = false
is_ok out_of_fuel b = false

is_ok_sound : (r : Result ℕ) (b : ℕ) → is_ok r b ≡ true → r ≡ ok b
unfolding is_ok
is_ok_sound (ok a) b h = ground arith
is_ok_sound overflow b h = cc
is_ok_sound out_of_fuel b h = cc

f4_table : all_below 33 (λ n. is_ok (f4 n) (fib_from n 0 1)) ≡ true
unfolding all_below f4 mul_matrix fib_from is_ok
f4_table = refl

f4_small : (n : ℕ) → n < 33 → f4 n ≡ ok (fib n)
f4_small n h =
    is_ok_sound (f4 n) (fib_from n 0 1) (all_below_sound 33 _ n f4_table h) ∙ ap ok (fib_from_lem n)

-- The loop always ends, and f4 gives the Fibonacci number up to 32. From 33 on it overflows, though
-- the number itself fits in an `int` up to 46: the last round squares a power that is not used.
pub f4-fib : (n : ℕ) → f4 n ≡ (if leb n 32 then ok (fib n) else overflow)
f4-fib zero = f4_small 0 (omega arith)
f4-fib (suc m) = elim (Bool-cases (leb (suc m) 32)) [
  | inl small ↦ rw small (f4_small (suc m) (omega (arith, leb→le (suc m) 32 small)))
  | inr large ↦ rw large (f4_large m (ground arith))
]

fib_46_fits : fib 46 < 2 ^ 31
fib_46_fits = subst (λ k. k < 2 ^ 31) (fib_from_lem 46) (unfold fib_from in omega arith)
