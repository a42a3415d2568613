-- ===== src/Prelude/Keys.antt =====
-- Rows with a key: an UPDATE by a key changes one row.
use Prim.Native.Nat.{ℕ, ◌+◌, ◌≤◌, ◌<◌}
use mathlib.Core.Path.{◌≡◌, refl}
use mathlib.Core.Logic.{inl, inr}
use mathlib.Core.Bool.{Bool, true}
use mathlib.Core.Option.{some}
use mathlib.Core.List.{List, [], ◌∷◌}
use native.Mathlib.Omega.{arith}
use python_vs_go_pos_benchma.Prelude.Tests.{Bool-cases, ◌==◌, ==_refl}
use python_vs_go_pos_benchma.Prelude.Rows.{find, count, sum_of, update, All}
use python_vs_go_pos_benchma.Prelude.Updates.{
  All-map, All-zip, All-of_count_zero, count_pos_of_find, count-update, update_none,
}

module _ {ℓ} {A : Type ℓ} where
  -- With a key, the row that a query finds is the only one with its key.
  pub only_row :
      (p q : A → Bool) (xs : List A) (x : A)
      → count q xs ≤ 1
      → find p xs ≡ some x
      → q x ≡ true
      → All (λ y. q y ≡ true → y ≡ x) xs
  only_row p q [] x le h e = tt
  only_row p q (y ∷ ys) x le h e = elim (Bool-cases (p y)) [
    | inl here ↦
        let same : y ≡ x = ground arith in
        let found : q y ≡ true = rw same e in
        let le' : 1 + count q ys ≤ 1 = rw found at le in
        (λ _. same, All-map ys (λ z no. λ yes_. cc) (All-of_count_zero q ys (omega arith)))
    | inr there ↦
        let h' : find p ys ≡ some x = rw there at h in
        let more : 0 < count q ys = count_pos_of_find p q ys x h' e in
        (
          λ yes_. absurd (let le' : 1 + count q ys ≤ 1 = rw yes_ at le in omega (arith, more, le')),
          only_row p q ys x (omega (arith, le)) h' e,
        )
  ]

  -- An update of the one row with a key moves a sum by what it does to that row.
  pub sum-update_one :
      (p q : A → Bool) (f : A → A) (g : A → ℕ) (xs : List A) (x : A)
      → count q xs ≤ 1
      → find p xs ≡ some x
      → q x ≡ true
      → sum_of (λ _. true) g (update q f xs) + g x ≡ sum_of (λ _. true) g xs + g (f x)
  sum-update_one p q f g [] x le h e = cc
  sum-update_one p q f g (y ∷ ys) x le h e = elim (Bool-cases (q y)) [
    | inl hit ↦
        let le' : 1 + count q ys ≤ 1 = rw hit at le in
        let only : y ≡ x = (only_row p q (y ∷ ys) x le h e).0 hit in
        rw (hit, update_none q f ys (omega arith), only) (omega arith)
    | inr miss ↦
        let le' : 0 + count q ys ≤ 1 = rw miss at le in
        elim (Bool-cases (p y)) [
          | inl here ↦ let same : y ≡ x = ground arith in let bad : q y ≡ true = rw same e in cc
          | inr there ↦
              let h' : find p ys ≡ some x = rw there at h in
              rw miss (omega (arith, sum-update_one p q f g ys x (omega arith) h' e))
        ]
  ]

  -- PRIMARY KEY or UNIQUE, of a column of numbers
  abbrev pub IsKey : (A → ℕ) → List A → Type 0
  IsKey key xs = (i : ℕ) → count (λ x. key x == i) xs ≤ 1

  pub IsKey-update :
      (key : A → ℕ) (p : A → Bool) (f : A → A) (xs : List A)
      → ((x : A) → key (f x) ≡ key x)
      → IsKey key xs
      → IsKey key (update p f xs)
  IsKey-update key p f xs same h i =
      rw (count-update (λ x. key x == i) p f xs (λ x _. rw (same x))) (h i)

  -- Each row is counted under its own key, …
  pub All-counted : (key : A → ℕ) (xs : List A) → All (λ x. 0 < count (λ y. key y == key x) xs) xs
  All-counted key [] = tt
  All-counted key (x ∷ xs) =
      (rw (==_refl (key x)) (omega arith), All-map xs (λ y h. omega arith) (All-counted key xs))

  -- … so no other row has that key.
  pub All-alone :
      (key : A → ℕ) (xs : List A)
      → IsKey key xs
      → All (λ x. All (λ y. (key y == key x) ≡ true → y ≡ x) xs) xs
  All-alone key [] h = tt
  All-alone key (x ∷ xs) h =
      let mine : 1 + count (λ y. key y == key x) xs ≤ 1 = rw (==_refl (key x)) at (h (key x)) in
      (
        (
          λ _. refl,
          All-map xs (λ y miss hit. cc) (All-of_count_zero (λ y. key y == key x) xs (omega arith)),
        ),
        All-map xs
            (λ y both. (
              λ hit. absurd (
                  let at_y : 1 + count (λ z. key z == key y) xs ≤ 1 = rw hit at (h (key y)) in
                  omega (arith, both.1)),
              both.0,
            ))
            (All-zip (λ y. All (λ z. (key z == key y) ≡ true → z ≡ y) xs)
              (λ y. 0 < count (λ z. key z == key y) xs) xs
              (All-alone key xs (λ i. omega (arith, h i))) (All-counted key xs)),
      )
