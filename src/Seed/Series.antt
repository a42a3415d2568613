-- ===== src/Seed/Series.antt =====
-- How db/seed/seed.py makes rows: `generate_series`, joins, and ids from a sequence.
pub mod Counting
use python_vs_go_pos_benchma.Prelude.{ℕ, zero, suc, ◌+◌, Bool, List, [], ◌∷◌, ◌++◌, map, select}

-- generate_series(k, k + n - 1)
abbrev pub range : ℕ → ℕ → List ℕ
range k zero = []
range k (suc n) = k ∷ range (k + 1) n

module _ {A B : Type 0} where
  -- FROM as JOIN bs ON …
  abbrev pub join : (A → B → Bool) → List A → List B → List (A × B)
  join on [] bs = []
  join on (a ∷ as_) bs = map (λ b. (a, b)) (select (on a) bs) ++ join on as_ bs

module _ {A : Type 0} where
  -- The ids of a BIGSERIAL column, for rows inserted in order.
  abbrev pub serial : ℕ → List (ℕ → A) → List A
  serial k [] = []
  serial k (f ∷ fs) = f k ∷ serial (k + 1) fs
