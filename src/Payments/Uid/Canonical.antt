-- ===== src/Payments/Uid/Canonical.antt =====
-- The canonical form of an RF card's number.
use python_vs_go_pos_benchma.Prelude.{
  ℕ, ◌≡◌, ◌≤◌, ◌%◌, refl, inl, inr, arith, Bool, true, false, Bool-cases, ◌||◌, ◌&&◌, not, Text, [],
  ◌∷◌, ltb, leb, ◌==◌, length, All,
}
use python_vs_go_pos_benchma.Errors.{ok, err, failure}
use python_vs_go_pos_benchma.Payments.Uid.{is_hex_digit, to_upper, hex_digits, normalize_uid}

-- [0-9A-F]
abbrev pub is_upper_hex : ℕ → Bool
is_upper_hex c = (leb b'0' c && leb c b'9') || (leb b'A' c && leb c b'F')

upper_of : (c : ℕ) → is_hex_digit c ≡ true → is_upper_hex (to_upper c) ≡ true
upper_of c h = ground arith

same_upper : (c : ℕ) → is_upper_hex c ≡ true → to_upper c ≡ c
same_upper c h = ground arith

upper_is_hex : (c : ℕ) → is_upper_hex c ≡ true → is_hex_digit c ≡ true
upper_is_hex c h = ground arith

hex_digits-upper : (v : Text) → All (λ c. is_upper_hex c ≡ true) (hex_digits v)
unfolding hex_digits
hex_digits-upper [] = tt
hex_digits-upper (c ∷ v) = elim (Bool-cases (is_hex_digit c)) [
  | inl hex ↦ rw hex (upper_of c hex, hex_digits-upper v)
  | inr other ↦ rw other (hex_digits-upper v)
]

hex_digits-fixed : (v : Text) → All (λ c. is_upper_hex c ≡ true) v → hex_digits v ≡ v
unfolding hex_digits
hex_digits-fixed [] a = refl
hex_digits-fixed (c ∷ v) a = rw (upper_is_hex c a.0, same_upper c a.0, hex_digits-fixed v a.1)

-- The number is accepted by the form of its digits alone.
normalize_cases :
    (v n : Text)
    → normalize_uid v ≡ ok n
    → (n ≡ hex_digits v) × (8 ≤ length n) × (length n ≤ 64) × (length n % 2 ≡ 0)
unfolding normalize_uid
normalize_cases v n h =
    elim (Bool-cases (
      ltb (length (hex_digits v)) 8
      || ltb 64 (length (hex_digits v))
      || not (length (hex_digits v) % 2 == 0))) [
        | inl bad ↦
            let refused : err (failure 422 "INVALID_RF_UID" "RF UID biçimi geçersiz.") ≡ ok n =
              rw bad at h in
            cc
        | inr good ↦
            let accepted : ok (hex_digits v) ≡ ok n = rw good at h in
            let same : n ≡ hex_digits v = cc in
            rw same (refl, ground (arith, good), ground (arith, good), ground (arith, good))
      ]

accepted_if_fits :
    (n : Text)
    → hex_digits n ≡ n
    → (8 ≤ length n) × (length n ≤ 64) × (length n % 2 ≡ 0)
    → normalize_uid n ≡ ok n
unfolding normalize_uid
accepted_if_fits n fixed (low, high, even) =
    let good : (ltb (length n) 8 || ltb 64 (length n) || not (length n % 2 == 0)) ≡ false =
      ground arith in
    rw (fixed, good)

-- A number that is accepted has between 8 and 64 digits, an even number of them, all of them digits
-- or capital letters A to F; and it is accepted again, unchanged.
pub normalize_uid_canonical :
    (v n : Text)
    → normalize_uid v ≡ ok n
    → All (λ c. is_upper_hex c ≡ true) n
      × (8 ≤ length n)
      × (length n ≤ 64)
      × (length n % 2 ≡ 0)
      × (normalize_uid n ≡ ok n)
normalize_uid_canonical v n h =
    let (same, low, high, even) = normalize_cases v n h in
    let digits : All (λ c. is_upper_hex c ≡ true) n = rw same (hex_digits-upper v) in
    (digits, low, high, even, accepted_if_fits n (hex_digits-fixed n digits) (low, high, even))
