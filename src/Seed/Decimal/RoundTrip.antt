-- ===== src/Seed/Decimal/RoundTrip.antt =====
-- The padded text of a number is read back as that number.
use Prim.Native.Char.{code}
use Prim.Native.String.{String}
use python_vs_go_pos_benchma.Prelude.{
  ℕ, zero, suc, ◌+◌, ◌-◌, ◌*◌, ◌/◌, ◌%◌, ◌≤◌, ◌<◌, ◌≡◌, refl, ◌∙◌, arith, Bool-cases, inl, inr,
  true, leb, ◌==◌, ==_iff,
}
use python_vs_go_pos_benchma.Seed.Decimal.{digit, digits, decimal, chars, zeros, lpad}

-- The number that decimal digits spell behind a number.
abbrev pub value : ℕ → String → ℕ
value n String.[] = n
value n (String.◌∷◌ c s) = value (n * 10 + (code c - 48)) s

-- The numbers of at most this many digits are below this one.
abbrev pub power_of_ten : ℕ → ℕ
power_of_ten zero = 1
power_of_ten (suc w) = 10 * power_of_ten w

code-digit : (d : ℕ) → d < 10 → code (digit d) - 48 ≡ d
code-digit zero h = refl
code-digit (suc zero) h = refl
code-digit (suc (suc zero)) h = refl
code-digit (suc (suc (suc zero))) h = refl
code-digit (suc (suc (suc (suc zero)))) h = refl
code-digit (suc (suc (suc (suc (suc zero))))) h = refl
code-digit (suc (suc (suc (suc (suc (suc zero)))))) h = refl
code-digit (suc (suc (suc (suc (suc (suc (suc zero))))))) h = refl
code-digit (suc (suc (suc (suc (suc (suc (suc (suc zero)))))))) h = refl
code-digit (suc (suc (suc (suc (suc (suc (suc (suc (suc zero))))))))) h = refl
code-digit (suc (suc (suc (suc (suc (suc (suc (suc (suc (suc d)))))))))) h = absurd (omega arith)

value-digits :
    (fuel n : ℕ) (out : String)
    → n < power_of_ten fuel
    → value 0 (digits 10 fuel n out) ≡ value n out
unfolding digits
value-digits zero n out h = let e : n ≡ 0 = omega arith in rw e
value-digits (suc fuel) n out h = elim (Bool-cases (n == 0)) [
  | inl is_zero ↦ let e : n ≡ 0 = (==_iff n 0).0 is_zero in rw (is_zero, e)
  | inr more ↦
      let last : code (digit (n % 10)) - 48 ≡ n % 10 = code-digit (n % 10) (omega arith) in
      let same : n / 10 * 10 + n % 10 ≡ n = omega arith in
      rw (
        more,
        value-digits fuel (n / 10) (String.◌∷◌ (digit (n % 10)) out) (omega arith),
        last,
        same,
      )
]

chars-digits :
    (fuel w n : ℕ) (out : String)
    → n < power_of_ten w
    → chars (digits 10 fuel n out) ≤ w + chars out
unfolding digits
chars-digits zero w n out h = omega arith
chars-digits (suc fuel) zero n out h = let e : n ≡ 0 = omega arith in rw e (omega arith)
chars-digits (suc fuel) (suc w) n out h =
    let rest = chars-digits fuel w (n / 10) (String.◌∷◌ (digit (n % 10)) out) (omega arith) in
    elim (Bool-cases (n == 0)) [
      | inl is_zero ↦ rw is_zero (omega arith)
      | inr more ↦ rw more (omega (arith, rest))
    ]

value-zeros : (n : ℕ) (s : String) → value 0 (zeros n s) ≡ value 0 s
value-zeros zero s = refl
value-zeros (suc n) s = value-zeros n s

value-decimal : (n : ℕ) → n < power_of_ten 20 → value 0 (decimal n) ≡ n
unfolding decimal
value-decimal n h = elim (Bool-cases (n == 0)) [
  | inl is_zero ↦ let e : n ≡ 0 = (==_iff n 0).0 is_zero in rw (is_zero, e)
  | inr more ↦ rw more (value-digits 20 n "" h)
]

chars-decimal : (w n : ℕ) → 1 ≤ w → n < power_of_ten w → chars (decimal n) ≤ w
unfolding decimal
chars-decimal w n one h = elim (Bool-cases (n == 0)) [
  | inl is_zero ↦ rw is_zero one
  | inr more ↦ rw more (omega (arith, chars-digits 20 w n "" h))
]

-- An id of at most `w` digits, padded to `w` characters, is read back as the id, for a `w` of 1 or more
-- with a power of ten of at most the 20th.
pub value-lpad :
    (w n : ℕ)
    → 1 ≤ w
    → n < power_of_ten w
    → power_of_ten w ≤ power_of_ten 20
    → value 0 (lpad w (decimal n)) ≡ n
unfolding lpad
value-lpad w n one h fits =
    let fitting : leb (chars (decimal n)) w ≡ true = ground (arith, chars-decimal w n one h) in
    rw fitting
      (value-zeros (w - chars (decimal n)) (decimal n) ∙ value-decimal n (omega (arith, h, fits)))
