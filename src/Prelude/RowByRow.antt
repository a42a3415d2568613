-- ===== src/Prelude/RowByRow.antt =====
-- Two tables compared row by row.
use mathlib.Core.Bool.{Bool, true}
use mathlib.Core.Path.{◌≡◌, refl}
use mathlib.Core.Logic.{inl, inr}
use mathlib.Core.List.{List, [], ◌∷◌}
use python_vs_go_pos_benchma.Prelude.Tests.{Bool-cases}
use python_vs_go_pos_benchma.Prelude.Rows.{All, update, count}

module _ {ℓ} {A : Type ℓ} where
  -- The tables have as many rows, and row for row the relation holds.
  abbrev pub Pointwise : (A → A → Type 0) → List A → List A → Type 0
  Pointwise R [] [] = Unit
  Pointwise R [] (y ∷ ys) = ⊥
  Pointwise R (x ∷ xs) [] = ⊥
  Pointwise R (x ∷ xs) (y ∷ ys) = R x y × Pointwise R xs ys

  pub Pointwise-refl : (R : A → A → Type 0) (xs : List A) → ((x : A) → R x x) → Pointwise R xs xs
  Pointwise-refl R [] h = tt
  Pointwise-refl R (x ∷ xs) h = (h x, Pointwise-refl R xs h)

  pub Pointwise-trans :
      (R : A → A → Type 0) (xs ys zs : List A)
      → ((x y z : A) → R x y → R y z → R x z)
      → Pointwise R xs ys
      → Pointwise R ys zs
      → Pointwise R xs zs
  Pointwise-trans R [] [] zs t a b = b
  Pointwise-trans R (x ∷ xs) (y ∷ ys) (z ∷ zs) t a b =
      (t x y z a.0 b.0, Pointwise-trans R xs ys zs t a.1 b.1)
  Pointwise-trans R [] (y ∷ ys) zs t a b = elim a [ ]
  Pointwise-trans R (x ∷ xs) [] zs t a b = elim a [ ]
  Pointwise-trans R (x ∷ xs) (y ∷ ys) [] t a b = elim b [ ]

  pub Pointwise-update :
      (R : A → A → Type 0) (p : A → Bool) (f : A → A) (xs : List A)
      → ((x : A) → R x x)
      → All (λ x. p x ≡ true → R x (f x)) xs
      → Pointwise R xs (update p f xs)
  Pointwise-update R p f [] same a = tt
  Pointwise-update R p f (x ∷ xs) same a = (
    elim (Bool-cases (p x)) [ inl e ↦ rw e (a.0 e) | inr e ↦ rw e (same x) ],
    Pointwise-update R p f xs same a.1,
  )

  pub Pointwise-map :
      (R : A → A → Type 0) (S : A → A → Type 0) (xs ys : List A)
      → ((x y : A) → R x y → S x y)
      → Pointwise R xs ys
      → Pointwise S xs ys
  Pointwise-map R S [] [] f a = tt
  Pointwise-map R S (x ∷ xs) (y ∷ ys) f a = (f x y a.0, Pointwise-map R S xs ys f a.1)
  Pointwise-map R S [] (y ∷ ys) f a = elim a [ ]
  Pointwise-map R S (x ∷ xs) [] f a = elim a [ ]

  -- What every related row inherits.
  pub All-Pointwise :
      (R : A → A → Type 0) (P : A → Type 0) (Q : A → Type 0) (xs ys : List A)
      → ((x y : A) → R x y → P x → Q y)
      → Pointwise R xs ys
      → All P xs
      → All Q ys
  All-Pointwise R P Q [] [] f r a = tt
  All-Pointwise R P Q (x ∷ xs) (y ∷ ys) f r a = (f x y r.0 a.0, All-Pointwise R P Q xs ys f r.1 a.1)
  All-Pointwise R P Q [] (y ∷ ys) f r a = elim r [ ]
  All-Pointwise R P Q (x ∷ xs) [] f r a = elim r [ ]

  pub count-Pointwise :
      (R : A → A → Type 0) (p : A → Bool) (xs ys : List A)
      → ((x y : A) → R x y → p y ≡ p x)
      → Pointwise R xs ys
      → count p ys ≡ count p xs
  count-Pointwise R p [] [] f r = refl
  count-Pointwise R p (x ∷ xs) (y ∷ ys) f r = rw (f x y r.0, count-Pointwise R p xs ys f r.1)
  count-Pointwise R p [] (y ∷ ys) f r = elim r [ ]
  count-Pointwise R p (x ∷ xs) [] f r = elim r [ ]
