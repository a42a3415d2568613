-- ===== src/Seed/Series/Counting.antt =====
-- Rows that are made from a series: no two with one key, and each found under its number.
use python_vs_go_pos_benchma.Prelude.{
  ℕ, zero, suc, ◌+◌, ◌≡◌, ◌≤◌, ◌<◌, refl, inl, inr, arith, Bool, true, false, Bool-cases, List, [],
  ◌∷◌, map, select, count, ◌==◌, ==_iff, All, IsKey,
}
use python_vs_go_pos_benchma.Seed.Series.{range, join, serial}

module _ {A : Type 0} (f : ℕ → A) where
  pub All-rows {κ} :
      (P : A → Type κ) (k n : ℕ)
      → ((g : ℕ) → k ≤ g → g < k + n → P (f g))
      → All P (map f (range k n))
  All-rows P k zero h = tt
  All-rows P k (suc n) h = (
    h k (omega arith) (omega arith),
    All-rows P (k + 1) n (λ g low high. h g (omega arith) (omega arith)),
  )

  pub count-rows_none :
      (p : A → Bool) (k n : ℕ)
      → ((g : ℕ) → k ≤ g → g < k + n → p (f g) ≡ false)
      → count p (map f (range k n)) ≡ 0
  count-rows_none p k zero h = refl
  count-rows_none p k (suc n) h = rw (
    h k (omega arith) (omega arith),
    count-rows_none p (k + 1) n (λ g low high. h g (omega arith) (omega arith)),
  )

  -- A test that no two numbers of the series pass counts one row at most.
  pub count-rows :
      (p : A → Bool) (k n : ℕ)
      → ((g h : ℕ) → k ≤ g → g < h → h < k + n → p (f g) ≡ true → p (f h) ≡ false)
      → count p (map f (range k n)) ≤ 1
  count-rows p k zero h = omega arith
  count-rows p k (suc n) h = elim (Bool-cases (p (f k))) [
    | inl hit ↦
        let rest =
          count-rows_none p (k + 1) n
            (λ g low high. h k g (omega arith) (omega arith) (omega arith) hit) in
        rw (hit, rest) (omega arith)
    | inr miss ↦
        let rest =
          count-rows p (k + 1) n
            (λ a b low apart high e. h a b (omega arith) apart (omega arith) e) in
        rw miss (omega (arith, rest))
  ]

  pub select-rows_none :
      (p : A → Bool) (k n : ℕ)
      → ((g : ℕ) → k ≤ g → g < k + n → p (f g) ≡ false)
      → select p (map f (range k n)) ≡ []
  select-rows_none p k zero h = refl
  select-rows_none p k (suc n) h = rw (
    h k (omega arith) (omega arith),
    select-rows_none p (k + 1) n (λ g low high. h g (omega arith) (omega arith)),
  )

  -- The row of a number, where a column holds the number.
  pub select-rows :
      (key : A → ℕ) (k n i : ℕ)
      → ((g : ℕ) → key (f g) ≡ g)
      → k ≤ i
      → i < k + n
      → select (λ a. key a == i) (map f (range k n)) ≡ f i ∷ []
  select-rows key k zero i same low high = absurd (omega arith)
  select-rows key k (suc n) i same low high = elim (Bool-cases (k == i)) [
    | inl hit ↦
        let is_i : k ≡ i = (==_iff k i).0 hit in
        let hit' : (key (f k) == i) ≡ true = rw (same k) hit in
        let rest =
          select-rows_none (λ a. key a == i) (k + 1) n
            (λ g below above. rw (same g) (ground arith)) in
        rw (hit', rest, is_i)
    | inr miss ↦
        let miss' : (key (f k) == i) ≡ false = rw (same k) miss in
        rw (miss', select-rows key (k + 1) n i same (ground arith) (omega arith))
  ]

  pub IsKey-rows :
      (key : A → ℕ) (k n : ℕ) → ((g : ℕ) → key (f g) ≡ g) → IsKey key (map f (range k n))
  IsKey-rows key k n same i =
      count-rows (λ a. key a == i) k n
        (λ g h low apart high e.
          let e' : (g == i) ≡ true = rw (same g) at e in rw (same h) (ground arith))

module _ {A B : Type 0} where
  -- A join in which each row on the left has one on the right.
  pub join_each :
      (on : A → B → Bool) (f : A → B) (as_ : List A) (bs : List B)
      → All (λ a. select (on a) bs ≡ f a ∷ []) as_
      → join on as_ bs ≡ map (λ a. (a, f a)) as_
  join_each on f [] bs h = refl
  join_each on f (a ∷ as_) bs h = rw (h.0, join_each on f as_ bs h.1)

module _ {A : Type 0} where
  pub map-map :
      {B C : Type 0} (f : B → C) (g : A → B) (xs : List A)
      → map f (map g xs) ≡ map (λ x. f (g x)) xs
  map-map f g [] = refl
  map-map f g (x ∷ xs) = rw (map-map f g xs)

  serial_above :
      (key : A → ℕ) (fs : List (ℕ → A)) (k i : ℕ)
      → All (λ f. (n : ℕ) → key (f n) ≡ n) fs
      → i < k
      → count (λ a. key a == i) (serial k fs) ≡ 0
  serial_above key [] k i a h = refl
  serial_above key (f ∷ fs) k i a h =
      let miss : (key (f k) == i) ≡ false = rw (a.0 k) (ground arith) in
      rw (miss, serial_above key fs (k + 1) i a.1 (omega arith))

  pub IsKey-serial :
      (key : A → ℕ) (fs : List (ℕ → A)) (k : ℕ)
      → All (λ f. (n : ℕ) → key (f n) ≡ n) fs
      → IsKey key (serial k fs)
  IsKey-serial key [] k a i = omega arith
  IsKey-serial key (f ∷ fs) k a i = elim (Bool-cases (key (f k) == i)) [
    | inl hit ↦
        let is_i : k ≡ i = ground (arith, a.0 k, hit) in
        rw (hit, serial_above key fs (k + 1) i a.1 (omega arith)) (omega arith)
    | inr miss ↦ rw miss (omega (arith, IsKey-serial key fs (k + 1) a.1 i))
  ]

  pub All-serial {κ} :
      (P : A → Type κ) (fs : List (ℕ → A)) (k : ℕ)
      → All (λ f. (n : ℕ) → P (f n)) fs
      → All P (serial k fs)
  All-serial P [] k a = tt
  All-serial P (f ∷ fs) k a = (a.0 k, All-serial P fs (k + 1) a.1)

  pub All-of_map {κ} :
      {B : Type 0} (P : A → Type κ) (f : B → A) (xs : List B)
      → All (λ x. P (f x)) xs
      → All P (map f xs)
  All-of_map P f [] a = tt
  All-of_map P f (x ∷ xs) a = (a.0, All-of_map P f xs a.1)

  pub All-always {κ} : (P : A → Type κ) (xs : List A) → ((x : A) → P x) → All P xs
  All-always P [] h = tt
  All-always P (x ∷ xs) h = (h x, All-always P xs h)

pub All-range {κ} :
    (P : ℕ → Type κ) (k n : ℕ) → ((g : ℕ) → k ≤ g → g < k + n → P g) → All P (range k n)
All-range P k zero h = tt
All-range P k (suc n) h = (
  h k (omega arith) (omega arith),
  All-range P (k + 1) n (λ g low high. h g (omega arith) (omega arith)),
)
