-- ===== src/Contracts/Passes.antt =====
-- scripts/validate_contracts.py: its exit code and the contracts in its directory.
use python_vs_go_pos_benchma.Prelude.{
  All, sym, ◌∙◌, ℕ, ◌<◌, ◌≡◌, refl, ◌↔◌, inl, inr, arith, Bool, Bool-cases, true, false, not,
  Option, Option-cases, none, some, is_none, String, Text, List, [], ◌∷◌, ◌++◌, str_eq, eq_refl,
  select, find, find_holds, count_pos_of_find, if◌then◌else◌,
}
use python_vs_go_pos_benchma.Contracts.{
  Yaml, File, Problem, Tally, required, member, check_files, main, is_seen,
}
use python_vs_go_pos_benchma.Contracts.Complete.{times, appended_none, unseen}
use python_vs_go_pos_benchma.Contracts.Valid.{workloads, left_out, none_missing}
use python_vs_go_pos_benchma.Contracts.Holders.{
  AllValid, holders, contracts_valid, valid_contracts, declared-holders, for_each,
}
use python_vs_go_pos_benchma.Contracts.Loop.{declared, AllContracts, no_errors, all_pass}

module _ (p : String → Bool) where
  none_left :
      (names : List String)
      → ((w : String) → member w names ≡ true → p w ≡ false)
      → select p names ≡ []
  none_left [] h = refl
  none_left (n ∷ names) h =
      let miss : p n ≡ false = h n (rw (eq_refl n) refl) in
      rw (
        miss,
        none_left names (λ w here. h w (elim (Bool-cases (str_eq w n)) [
          | inl same ↦ rw same refl
          | inr other ↦ rw other here
        ])),
      )

seen_times : (w : String) (s : Tally) → is_seen w s ≡ true → 0 < times w s.seen
seen_times w s h = elim (Option-cases (find (λ (e : String × String). str_eq e.0 w) s.seen)) [
  | inl missing ↦ let bad : is_seen w s ≡ false = rw missing refl in cc
  | inr (e, found) ↦
      count_pos_of_find (λ (e : String × String). str_eq e.0 w) (λ e. str_eq e.0 w) s.seen e found
        (find_holds (λ (e : String × String). str_eq e.0 w) s.seen e found)
]

module _ (upper : Text → Text) (safe_load : Text → Option Yaml) where
  exit_zero :
      (errors : List Problem)
      → ◌≡◌ {A = Option ℕ}
          (some (if is_none (find (λ (e : Problem). true) errors) then 0 else 31))
          (some 0)
      → errors ≡ []
  exit_zero [] h = refl
  exit_zero (e ∷ es) h = ground arith

  abbrev start : Tally
  start = record { seen = []; errors = [] }

  abbrev AreContracts : List File → Type 0
  AreContracts files =
      AllContracts upper safe_load files
      × ((w : String) → member w required ≡ true → declared upper safe_load w files ≡ 1)

  passes_only_if :
      (files : List File) → main upper safe_load true files ≡ some 0 → AreContracts files
  unfolding main
  passes_only_if files h = elim (Option-cases (check_files upper safe_load files start)) [
    | inl stops ↦ let bad : ◌≡◌ {A = Option ℕ} none (some 0) = rw stops at h in cc
    | inr (s, runs) ↦
        let missing = select (λ w. not (is_seen w s)) required in
        let (clean, complete) =
          appended_none s.errors
            (if is_none (find (λ (w : String). true) missing)
              then []
              else Problem.missing_workloads missing ∷ [])
            (exit_zero
              (s.errors
                ++ (if is_none (find (λ (w : String). true) missing)
                    then []
                    else Problem.missing_workloads missing ∷ []))
              (rw runs at h)) in
        let (_, all, adds, once) = no_errors upper safe_load files start s runs clean in
        (
          all,
          λ w known.
              let here : not (is_seen w s) ≡ false =
                left_out (λ w. not (is_seen w s)) required (none_missing missing _ complete) w
                  known in
              let more = seen_times w s (ground (arith, here)) in
              let le = once w (omega arith) in omega (arith, adds w, more, le),
        )
  ]

  passes_if : (files : List File) → AreContracts files → main upper safe_load true files ≡ some 0
  unfolding main
  passes_if files (all, each) =
      let (s, runs, clean, adds) =
        all_pass upper safe_load files start refl all (λ w known. omega (arith, each w known)) in
      let complete : select (λ w. not (is_seen w s)) required ≡ [] =
        none_left (λ w. not (is_seen w s)) required
          (λ w known. elim (Bool-cases (is_seen w s)) [
            | inl here ↦ rw here
            | inr new ↦
                let zero_ = unseen w s new in absurd (omega (arith, zero_, adds w, each w known))
          ]) in
      rw (runs, complete, clean)

  -- The script exits with 0, where its directory exists, exactly if every file but common.yaml is a
  -- complete contract and each of W1 to W8 has exactly one such file. A complete contract has none of
  -- TBD, TODO and IMPLEMENT LATER in its upper-case text, and is a YAML mapping with one of W1 to W8
  -- under workload, with the eight keys version, workload, endpoint, transaction, locking,
  -- idempotency, invariants and metrics, with lists that are not empty under invariants and metrics,
  -- and with a mapping that has a method and a path under endpoint. The script raises no exception
  -- then.
  pub main_passes :
      (files : List File)
      → (main upper safe_load true files ≡ some 0) ↔ (
          AllValid upper safe_load files × All (λ w. holders upper safe_load w files ≡ 1) workloads)
  main_passes files = (
    λ h.
        let (all, each) = passes_only_if files h in
        let valid = contracts_valid upper safe_load files all in
        let one : (w : String) → member w required ≡ true → holders upper safe_load w files ≡ 1 =
          λ w known. sym (declared-holders upper safe_load w files valid) ∙ each w known in
        (
          valid,
          (
            one "W1" refl,
            (
              one "W2" refl,
              (
                one "W3" refl,
                (
                  one "W4" refl,
                  (one "W5" refl, (one "W6" refl, (one "W7" refl, (one "W8" refl, tt)))),
                ),
              ),
            ),
          ),
        ),
    λ h. passes_if files (
      valid_contracts upper safe_load files h.0,
      λ w known.
          declared-holders upper safe_load w files h.0
          ∙ for_each (λ w. holders upper safe_load w files ≡ 1) workloads h.1 w known,
    ),
  )
