-- ===== src/Contracts/Complete.antt =====
-- When scripts/validate_contracts.py passes.
use mathlib.Core.Path.{subst}
use python_vs_go_pos_benchma.Prelude.{
  ℕ, ◌+◌, ◌≤◌, ◌≡◌, refl, ap, ◌∙◌, inl, inr, arith, Bool, Bool-cases, true, false, Option-cases,
  some, String, List, [], ◌∷◌, ◌++◌, str_eq, eq_iff, eq_refl, find, count, count_zero_of_find,
  count_pos_of_find, find_holds, if◌then◌else◌,
}
use python_vs_go_pos_benchma.Contracts.{
  File, Problem, Reading, Tally, required, member, is_seen, take_reading,
}

-- How often a workload has been seen.
abbrev pub times : String → List (String × String) → ℕ
times w seen = count (λ e. str_eq e.0 w) seen

-- A file that holds a contract for this workload.
abbrev pub declares : String → Reading → Bool
declares w (Reading.contract v ps) = str_eq v w
declares w _ = false

-- A contract without a problem, for one of the workloads.
abbrev pub IsContract : Reading → Type 0
IsContract (Reading.contract w ps) = (member w required ≡ true) × (ps ≡ [])
IsContract _ = ⊥

-- What a reading has of that when no error is left.
abbrev pub IsClean : Reading → Type 0
IsClean (Reading.contract w ps) = ps ≡ []
IsClean _ = ⊥

abbrev pub IsKnown : Reading → Type 0
IsKnown (Reading.contract w ps) = member w required ≡ true
IsKnown _ = Unit

pub appended_none : {A : Type 0} (xs ys : List A) → xs ++ ys ≡ [] → (xs ≡ []) × (ys ≡ [])
appended_none [] ys h = (refl, h)
appended_none (x ∷ xs) ys h = cc

times-append :
    (w v f : String) (seen : List (String × String))
    → times w (seen ++ ((v, f) ∷ [])) ≡ times w seen + (if str_eq v w then 1 else 0)
times-append w v f [] = ground arith
times-append w v f (e ∷ es) = omega (arith, times-append w v f es)

pub unseen : (w : String) (s : Tally) → is_seen w s ≡ false → times w s.seen ≡ 0
unseen w s h = elim (Option-cases (find (λ (e : String × String). str_eq e.0 w) s.seen)) [
  | inl missing ↦ count_zero_of_find (λ e. str_eq e.0 w) s.seen missing
  | inr (e, found) ↦ let bad : is_seen w s ≡ true = rw found refl in cc
]

pub never_seen : (w : String) (s : Tally) → times w s.seen ≡ 0 → is_seen w s ≡ false
never_seen w s h = elim (Option-cases (find (λ (e : String × String). str_eq e.0 w) s.seen)) [
  | inl missing ↦ rw missing refl
  | inr (e, found) ↦
      let more =
        count_pos_of_find (λ (e : String × String). str_eq e.0 w) (λ e. str_eq e.0 w) s.seen e found
          (find_holds (λ (e : String × String). str_eq e.0 w) s.seen e found) in
      absurd (omega (arith, more, h))
]

-- A reading that leaves no error.
pub record Took (s : Tally) (r : Reading) (s1 : Tally) : Type 0 where
  pub before : s.errors ≡ []
  pub clean : IsClean r
  pub adds : (w : String) → times w s1.seen ≡ times w s.seen + (if declares w r then 1 else 0)
  pub once : (w : String) → times w s.seen ≤ 1 → times w s1.seen ≤ 1

pub took :
    (s : Tally) (f : File) (r : Reading) (s1 : Tally)
    → take_reading s f r ≡ some s1
    → s1.errors ≡ []
    → Took s r s1
took s f Reading.raises s1 h clean = cc
took s f (Reading.rejected p) s1 h clean =
    let is_s1 : record s { errors = s.errors ++ (p ∷ []) } ≡ s1 = ground arith in
    let (_, bad) = appended_none s.errors (p ∷ []) (ap (λ (t : Tally). t.errors) is_s1 ∙ clean) in
    cc
took s f (Reading.contract v ps) s1 h clean = elim (Bool-cases (is_seen v s)) [
  | inl known ↦
      let h' : some (record s { errors = s.errors ++ (Problem.duplicate f.name v ∷ []) })
          ≡ some s1 =
        rw known at h in
      let is_s1 : record s { errors = s.errors ++ (Problem.duplicate f.name v ∷ []) } ≡ s1 = cc in
      let (_, bad) =
        appended_none s.errors (Problem.duplicate f.name v ∷ [])
          (ap (λ (t : Tally). t.errors) is_s1 ∙ clean) in
      cc
  | inr new ↦
      let t : Tally = record { seen = s.seen ++ ((v, f.name) ∷ []); errors = s.errors ++ ps } in
      let h' : some t ≡ some s1 = rw new at h in
      let is_s1 : t ≡ s1 = cc in
      let (before, no_problem) =
        appended_none s.errors ps (ap (λ (t : Tally). t.errors) is_s1 ∙ clean) in
      subst (Took s (Reading.contract v ps)) is_s1 (record {
        before = before;
        clean = no_problem;
        adds = λ w. times-append w v f.name s.seen;
        once = λ w le. elim (Bool-cases (str_eq v w)) [
          | inl same ↦
              let is_w : v ≡ w = (eq_iff v w).0 same in
              let zero_ : times w s.seen ≡ 0 = rw is_w at (unseen v s new) in
              rw (times-append w v f.name s.seen, same, zero_) (omega arith)
          | inr other ↦ rw (times-append w v f.name s.seen, other) (omega (arith, le))
        ];
      })
]

pub takes :
    (s : Tally) (f : File) (r : Reading)
    → s.errors ≡ []
    → IsContract r
    → ((w : String)
        → member w required ≡ true
        → times w s.seen + (if declares w r then 1 else 0) ≤ 1)
    → (s1 : Tally) × (take_reading s f r ≡ some s1)
      × (s1.errors ≡ [])
      × ((w : String) → times w s1.seen ≡ times w s.seen + (if declares w r then 1 else 0))
takes s f (Reading.contract v ps) before (known, clean) room =
    let one = room v known in
    let one' : times v s.seen + 1 ≤ 1 = rw (eq_refl v) at one in
    let new = never_seen v s (omega (arith, one')) in
    (
      record { seen = s.seen ++ ((v, f.name) ∷ []); errors = s.errors ++ ps },
      rw new refl,
      rw (before, clean) refl,
      λ w. times-append w v f.name s.seen,
    )
takes s f Reading.raises before h room = absurd h
takes s f (Reading.rejected p) before h room = absurd h
