-- ===== src/Gate/Sees.antt =====
-- The groups, joins and counts of hard_gate in scripts/correctness_driver.py, where a count is 0.
use python_vs_go_pos_benchma.Prelude.{
  ◌+◌, ◌≤◌, ◌≡◌, ◌⊎◌, refl, eq_refl, inl, inr, arith, Bool, Bool-cases, true, false, not,
  Option-cases, none, some, List, [], ◌∷◌, ◌++◌, map, str_eq, eq_iff, select, count, length, find,
  find_holds, All, All-map, All-find, String,
}
use python_vs_go_pos_benchma.Seed.Series.{join}
use python_vs_go_pos_benchma.Gate.{groups, count_groups}

module _ {A : Type 0} where
  -- A query that counts no row.
  pub counted_none : (p : A → Bool) (xs : List A) → count p xs ≡ 0 → All (λ x. p x ≡ false) xs
  counted_none p [] h = tt
  counted_none p (x ∷ xs) h = elim (Bool-cases (p x)) [
    | inl hit ↦ let bad : 1 + count p xs ≡ 0 = rw hit at h in absurd (omega arith)
    | inr miss ↦
        let rest : 0 + count p xs ≡ 0 = rw miss at h in
        (miss, counted_none p xs (omega (arith, rest)))
  ]

  kept_row :
      (p q : A → Bool) (xs : List A) (x : A)
      → ((y : A) → q y ≡ true → p y ≡ true)
      → find q xs ≡ some x
      → find q (select p xs) ≡ some x
  kept_row p q [] x keeps h = cc
  kept_row p q (y ∷ ys) x keeps h = elim (Bool-cases (q y)) [
    | inl hit ↦ rw (keeps y hit, hit) (rw hit at h)
    | inr miss ↦ elim (Bool-cases (p y)) [
      | inl stays ↦ rw (stays, miss) (kept_row p q ys x keeps (rw miss at h))
      | inr goes ↦ rw goes (kept_row p q ys x keeps (rw miss at h))
    ]
  ]

  -- A row of a query has a group that the query returns, if it never parts the rows of a group.
  grouped :
      (same : A → A → Bool) (q : A → Bool) (xs : List A) (x : A)
      → ((a b : A) → q a ≡ false → q b ≡ true → same a b ≡ false)
      → find q xs ≡ some x
      → (g : A) × (find q (groups same xs) ≡ some g)
  grouped same q [] x apart h = cc
  grouped same q (y ∷ ys) x apart h = elim (Bool-cases (q y)) [
    | inl hit ↦ (y, rw hit)
    | inr miss ↦
        let (g, found) = grouped same q ys x apart (rw miss at h) in
        (
          g,
          rw miss (
              kept_row (λ z. not (same y z)) q (groups same ys) g
                (λ z hit. rw (apart y z miss hit) refl) found),
        )
  ]

  -- If no group is reported, the rows of a query that makes up one group are not.
  pub one_group :
      (same : A → A → Bool) (having : List A → Bool) (q : A → Bool) (xs : List A)
      → ((a b : A) → q a ≡ false → q b ≡ true → same a b ≡ false)
      → ((g : A) → q g ≡ true → select (same g) xs ≡ select q xs)
      → count_groups same having xs ≡ 0
      → (select q xs ≡ []) ⊎ (having (select q xs) ≡ false)
  one_group same having q xs apart is_q h = elim (Option-cases (find q xs)) [
    | inl missing ↦ inl (none_selected q xs missing)
    | inr (x, found) ↦
        let (g, has_group) = grouped same q xs x apart found in
        let fine =
          All-find _ q (groups same xs) g
            (counted_none (λ g. having (select (same g) xs)) (groups same xs) h) has_group in
        inr (rw (is_q g (find_holds q (groups same xs) g has_group)) at fine)
  ]
    where
      none_selected : (q : A → Bool) (xs : List A) → find q xs ≡ none → select q xs ≡ []
      none_selected q [] h = refl
      none_selected q (x ∷ xs) h = elim (Bool-cases (q x)) [
        | inl hit ↦ let bad : some x ≡ none = rw hit at h in cc
        | inr miss ↦ rw miss (none_selected q xs (rw miss at h))
      ]

-- A list of one row at most has one row only to find.
one_found :
    (xs : List String) (p q : String → Bool) (a b : String)
    → length xs ≤ 1
    → find p xs ≡ some a
    → find q xs ≡ some b
    → a ≡ b
one_found [] p q a b one h k = cc
one_found (x ∷ []) p q a b one h k = ground (arith, h, k)
one_found (x ∷ (y ∷ ys)) p q a b one h k = absurd (omega (arith, one))

-- Every text of a list is found in it.
found_self : (hs : List String) → All (λ a. (g : String) × (find (str_eq a) hs ≡ some g)) hs
found_self [] = tt
found_self (x ∷ xs) = (
  (x, rw (eq_refl x)),
  All-map xs
      (λ a own. elim (Bool-cases (str_eq a x)) [
        | inl same ↦ (x, rw same)
        | inr other ↦ (own.0, rw other own.1)
      ])
      (found_self xs),
)

apart_texts : (a x y : String) → str_eq a x ≡ false → str_eq a y ≡ true → str_eq x y ≡ false
apart_texts a x y h k = ground (arith, h, k, eq_iff a x, eq_iff a y, eq_iff x y)

-- Texts that make up one group are the same.
pub all_same :
    (hs : List String) → length (groups str_eq hs) ≤ 1 → All (λ a. All (λ b. a ≡ b) hs) hs
all_same hs one =
    All-map hs
      (λ a own_a.
        All-map hs
          (λ b own_b.
            let (g, in_g) = grouped str_eq (str_eq a) hs own_a.0 (apart_texts a) own_a.1 in
            let (k, in_k) = grouped str_eq (str_eq b) hs own_b.0 (apart_texts b) own_b.1 in
            let is_g = (eq_iff a g).0 (find_holds (str_eq a) (groups str_eq hs) g in_g) in
            let is_k = (eq_iff b k).0 (find_holds (str_eq b) (groups str_eq hs) k in_k) in
            let same = one_found (groups str_eq hs) (str_eq a) (str_eq b) g k one in_g in_k in cc)
          (found_self hs))
      (found_self hs)

-- The pairs of a join.
module _ {A B : Type 0} (P : A × B → Type 0) where
  both_parts : (xs ys : List (A × B)) → All P (xs ++ ys) → All P xs × All P ys
  both_parts [] ys h = (tt, h)
  both_parts (x ∷ xs) ys h = let (here, there) = both_parts xs ys h.1 in ((h.0, here), there)

  each_partner :
      (q : B → Bool) (a : A) (bs : List B)
      → All P (map (λ b. (a, b)) (select q bs))
      → All (λ b. q b ≡ true → P (a, b)) bs
  each_partner q a [] h = tt
  each_partner q a (b ∷ bs) h = elim (Bool-cases (q b)) [
    | inl hit ↦
        let h' : P (a, b) × All P (map (λ b. (a, b)) (select q bs)) = rw hit at h in
        (λ _. h'.0, each_partner q a bs h'.1)
    | inr miss ↦ (λ hit. cc, each_partner q a bs (rw miss at h))
  ]

  pub joined :
      (on : A → B → Bool) (as_ : List A) (bs : List B)
      → All P (join on as_ bs)
      → All (λ a. All (λ b. on a b ≡ true → P (a, b)) bs) as_
  joined on [] bs h = tt
  joined on (a ∷ as_) bs h =
      let (here, there) = both_parts (map (λ b. (a, b)) (select (on a) bs)) (join on as_ bs) h in
      (each_partner (on a) a bs here, joined on as_ bs there)
