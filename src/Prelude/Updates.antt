-- ===== src/Prelude/Updates.antt =====
-- What holds of the rows of a table before an INSERT or an UPDATE, and after it.
use Prim.Native.Nat.{ℕ, zero, suc, ◌+◌, ◌<◌}
use mathlib.Core.Path.{◌≡◌, refl, subst}
use mathlib.Core.Logic.{inl, inr}
use mathlib.Core.Bool.{Bool, true, false}
use mathlib.Core.Option.{some, none}
use mathlib.Core.List.{List, [], ◌∷◌}
use native.Mathlib.Omega.{arith}
use python_vs_go_pos_benchma.Prelude.Tests.{if◌then◌else◌, Bool-cases}
use python_vs_go_pos_benchma.Prelude.Rows.{
  find, select, count, sum_of, update, insert, All, take, sort_by, insert_by,
}

module _ {ℓ} {A : Type ℓ} where
  pub find_holds : (p : A → Bool) (xs : List A) (x : A) → find p xs ≡ some x → p x ≡ true
  find_holds p [] x h = ground arith
  find_holds p (y ∷ ys) x h = ground (arith, find_holds p ys x)

  pub find-insert-some :
      (p : A → Bool) (y : A) (xs : List A) (x : A)
      → find p xs ≡ some x
      → find p (insert y xs) ≡ some x
  find-insert-some p y [] x h = cc
  find-insert-some p y (z ∷ xs) x h = ground (arith, find-insert-some p y xs x)

  pub find-insert-none :
      (p : A → Bool) (y : A) (xs : List A)
      → find p xs ≡ none
      → find p (insert y xs) ≡ (if p y then some y else none)
  find-insert-none p y [] h = refl
  find-insert-none p y (z ∷ xs) h = ground (arith, find-insert-none p y xs)

  pub find-insert_miss :
      (p : A → Bool) (y : A) (xs : List A) → p y ≡ false → find p (insert y xs) ≡ find p xs
  find-insert_miss p y [] h = rw h
  find-insert_miss p y (z ∷ xs) h = elim (Bool-cases (p z)) [
    | inl e ↦ rw e
    | inr e ↦ rw e (find-insert_miss p y xs h)
  ]

  pub find-insert_hit :
      (p : A → Bool) (y : A) (xs : List A) → p y ≡ true → (x : A) × (find p (insert y xs) ≡ some x)
  find-insert_hit p y [] h = (y, rw h)
  find-insert_hit p y (z ∷ xs) h = elim (Bool-cases (p z)) [
    | inl e ↦ (z, rw e)
    | inr e ↦ let (x, found) = find-insert_hit p y xs h in (x, rw e found)
  ]

  pub All-find {κ} :
      (P : A → Type κ) (p : A → Bool) (xs : List A) (x : A) → All P xs → find p xs ≡ some x → P x
  All-find P p [] x a h = cc
  All-find P p (y ∷ ys) x a h = elim (Bool-cases (p y)) [
    | inl e ↦ let same : y ≡ x = ground arith in subst P same a.0
    | inr e ↦ All-find P p ys x a.1 (rw e at h)
  ]

  pub All-insert {κ} : (P : A → Type κ) (y : A) (xs : List A) → All P xs → P y → All P (insert y xs)
  All-insert P y [] a h = (h, tt)
  All-insert P y (z ∷ xs) a h = (a.0, All-insert P y xs a.1 h)

  pub All-map {κ ν} :
      {P : A → Type κ} {Q : A → Type ν} (xs : List A) → ((x : A) → P x → Q x) → All P xs → All Q xs
  All-map [] f a = tt
  All-map (x ∷ xs) f a = (f x a.0, All-map xs f a.1)

  pub All-zip {κ ν} :
      (P : A → Type κ) (Q : A → Type ν) (xs : List A)
      → All P xs
      → All Q xs
      → All (λ x. P x × Q x) xs
  All-zip P Q [] a b = tt
  All-zip P Q (x ∷ xs) a b = ((a.0, b.0), All-zip P Q xs a.1 b.1)

  pub All-update {κ} :
      (P : A → Type κ) (p : A → Bool) (f : A → A) (xs : List A)
      → ((x : A) → p x ≡ true → P x → P (f x))
      → All P xs
      → All P (update p f xs)
  All-update P p f [] k a = tt
  All-update P p f (x ∷ xs) k a = (
    elim (Bool-cases (p x)) [ inl e ↦ rw e (k x e a.0) | inr e ↦ rw e a.0 ],
    All-update P p f xs k a.1,
  )

  pub All-update_cases {κ ν} :
      {P : A → Type κ} {Q : A → Type ν} (p : A → Bool) (f : A → A) (xs : List A)
      → ((x : A) → p x ≡ true → P x → Q (f x))
      → ((x : A) → p x ≡ false → P x → Q x)
      → All P xs
      → All Q (update p f xs)
  All-update_cases p f [] hit miss a = tt
  All-update_cases p f (x ∷ xs) hit miss a = (
    elim (Bool-cases (p x)) [ inl e ↦ rw e (hit x e a.0) | inr e ↦ rw e (miss x e a.0) ],
    All-update_cases p f xs hit miss a.1,
  )

  pub count-insert :
      (p : A → Bool) (y : A) (xs : List A)
      → count p (insert y xs) ≡ count p xs + (if p y then 1 else 0)
  count-insert p y [] = ground arith
  count-insert p y (z ∷ xs) = omega (arith, count-insert p y xs)

  pub count-update :
      (q p : A → Bool) (f : A → A) (xs : List A)
      → ((x : A) → p x ≡ true → q (f x) ≡ q x)
      → count q (update p f xs) ≡ count q xs
  count-update q p f [] k = refl
  count-update q p f (x ∷ xs) k = elim (Bool-cases (p x)) [
    | inl e ↦ rw (e, k x e, count-update q p f xs k)
    | inr e ↦ rw (e, count-update q p f xs k)
  ]

  pub count_zero_of_find : (p : A → Bool) (xs : List A) → find p xs ≡ none → count p xs ≡ 0
  count_zero_of_find p [] h = refl
  count_zero_of_find p (x ∷ xs) h = ground (arith, count_zero_of_find p xs)

  pub count_pos_of_find :
      (p q : A → Bool) (xs : List A) (x : A) → find p xs ≡ some x → q x ≡ true → 0 < count q xs
  count_pos_of_find p q [] x h e = cc
  count_pos_of_find p q (y ∷ ys) x h e = elim (Bool-cases (p y)) [
    | inl here ↦
        let same : y ≡ x = ground arith in
        let found : q y ≡ true = rw same e in rw found (omega arith)
    | inr there ↦
        let rest : 0 < count q ys = count_pos_of_find p q ys x (rw there at h) e in
        omega (arith, rest)
  ]

  pub All-of_count_zero : (q : A → Bool) (xs : List A) → count q xs ≡ 0 → All (λ y. q y ≡ false) xs
  All-of_count_zero q [] h = tt
  All-of_count_zero q (y ∷ ys) h = elim (Bool-cases (q y)) [
    | inl e ↦ let h' : 1 + count q ys ≡ 0 = rw e at h in absurd (omega arith)
    | inr e ↦ let h' : 0 + count q ys ≡ 0 = rw e at h in (e, All-of_count_zero q ys (omega arith))
  ]

  pub sum-insert :
      (p : A → Bool) (f : A → ℕ) (y : A) (xs : List A)
      → sum_of p f (insert y xs) ≡ sum_of p f xs + (if p y then f y else 0)
  sum-insert p f y [] = ground arith
  sum-insert p f y (z ∷ xs) = omega (arith, sum-insert p f y xs)

  pub sum-update :
      (q p : A → Bool) (f : A → A) (g : A → ℕ) (xs : List A)
      → ((x : A) → p x ≡ true → q (f x) ≡ q x)
      → ((x : A) → p x ≡ true → g (f x) ≡ g x)
      → sum_of q g (update p f xs) ≡ sum_of q g xs
  sum-update q p f g [] k l = refl
  sum-update q p f g (x ∷ xs) k l = elim (Bool-cases (p x)) [
    | inl e ↦ rw (e, k x e, l x e, sum-update q p f g xs k l)
    | inr e ↦ rw (e, sum-update q p f g xs k l)
  ]

  -- No row is changed where no row is met.
  pub update_none : (p : A → Bool) (f : A → A) (xs : List A) → count p xs ≡ 0 → update p f xs ≡ xs
  update_none p f [] h = refl
  update_none p f (x ∷ xs) h = elim (Bool-cases (p x)) [
    | inl e ↦ let h' : 1 + count p xs ≡ 0 = rw e at h in absurd (omega arith)
    | inr e ↦ let h' : 0 + count p xs ≡ 0 = rw e at h in rw (e, update_none p f xs (omega arith))
  ]

  -- What holds of the rows of a table holds of those that a query returns, …
  pub All-select {κ} :
      (P : A → Type κ) (p : A → Bool) (xs : List A)
      → All P xs
      → All (λ x. P x × (p x ≡ true)) (select p xs)
  All-select P p [] a = tt
  All-select P p (x ∷ xs) a = elim (Bool-cases (p x)) [
    | inl e ↦ rw e ((a.0, e), All-select P p xs a.1)
    | inr e ↦ rw e (All-select P p xs a.1)
  ]

  pub All-insert_by {κ} :
      (P : A → Type κ) (before : A → A → Bool) (x : A) (xs : List A)
      → P x
      → All P xs
      → All P (insert_by before x xs)
  All-insert_by P before x [] h a = (h, tt)
  All-insert_by P before x (y ∷ ys) h a = elim (Bool-cases (before x y)) [
    | inl e ↦ rw e (h, a)
    | inr e ↦ rw e (a.0, All-insert_by P before x ys h a.1)
  ]

  -- … in any order, …
  pub All-sort_by {κ} :
      (P : A → Type κ) (before : A → A → Bool) (xs : List A) → All P xs → All P (sort_by before xs)
  All-sort_by P before [] a = tt
  All-sort_by P before (x ∷ xs) a =
      All-insert_by P before x (sort_by before xs) a.0 (All-sort_by P before xs a.1)

  -- … and under a LIMIT.
  pub All-take {κ} : (P : A → Type κ) (n : ℕ) (xs : List A) → All P xs → All P (take n xs)
  All-take P zero xs a = tt
  All-take P (suc n) [] a = tt
  All-take P (suc n) (x ∷ xs) a = (a.0, All-take P n xs a.1)

  -- An update that a query does not read moves no row out of its answer.
  pub find-update :
      (p q : A → Bool) (f : A → A) (xs : List A) (x : A)
      → ((y : A) → p (f y) ≡ p y)
      → find p xs ≡ some x
      → (y : A) × (find p (update q f xs) ≡ some y)
  find-update p q f [] x same h = cc
  find-update p q f (y ∷ ys) x same h = elim (Bool-cases (p y)) [
    | inl e ↦ elim (Bool-cases (q y)) [ inl t ↦ (f y, rw (t, same y, e)) | inr t ↦ (y, rw (t, e)) ]
    | inr e ↦
        let (z, found) = find-update p q f ys x same (rw e at h) in
        elim (Bool-cases (q y)) [
          | inl t ↦ (z, rw (t, same y, e) found)
          | inr t ↦ (z, rw (t, e) found)
        ]
  ]

  -- The row that an update changes is still the one that a query of other columns returns.
  pub find-update_hit :
      (p q : A → Bool) (f : A → A) (xs : List A) (x : A)
      → ((y : A) → p (f y) ≡ p y)
      → find p xs ≡ some x
      → q x ≡ true
      → find p (update q f xs) ≡ some (f x)
  find-update_hit p q f [] x same h e = cc
  find-update_hit p q f (y ∷ ys) x same h e = elim (Bool-cases (p y)) [
    | inl hit ↦
        let is_x : y ≡ x = ground arith in
        let chosen : q y ≡ true = rw is_x e in rw (chosen, same y, hit, is_x)
    | inr miss ↦
        let rest = find-update_hit p q f ys x same (rw miss at h) e in
        elim (Bool-cases (q y)) [ inl t ↦ rw (t, same y, miss) rest | inr t ↦ rw (t, miss) rest ]
  ]
