-- ===== src/Contracts/Loop.antt =====
-- The loop of scripts/validate_contracts.py over the files.
use python_vs_go_pos_benchma.Prelude.{
  ℕ, ◌+◌, ◌≤◌, ◌≡◌, refl, inl, inr, arith, Bool-cases, true, false, not, ◌&&◌, Option, Option-cases,
  none, some, String, Text, List, [], ◌∷◌, str_eq, count, All, if◌then◌else◌,
}
use python_vs_go_pos_benchma.Contracts.{
  Yaml, Items, Fields, get, File, Reading, Tally, required, member, read_file, named, loaded,
  check_files, take_reading, is_common, has_placeholder,
}
use python_vs_go_pos_benchma.Contracts.Complete.{
  times, declares, IsContract, IsClean, IsKnown, took, takes,
}

named-IsKnown : (name : String) (fs : Fields) (y : Yaml) → IsKnown (named name fs y)
named-IsKnown name fs (Yaml.text w) = elim (Bool-cases (member w required)) [
  | inl known ↦ rw known known
  | inr other ↦ rw other tt
]
named-IsKnown name fs Yaml.null = tt
named-IsKnown name fs (Yaml.scalar b) = tt
named-IsKnown name fs (Yaml.sequence ys) = tt
named-IsKnown name fs (Yaml.mapping inner) = tt

clean_known : (r : Reading) → IsClean r → IsKnown r → IsContract r
clean_known (Reading.contract w ps) clean known = (known, clean)
clean_known Reading.raises clean known = clean
clean_known (Reading.rejected p) clean known = clean

module _ (upper : Text → Text) (safe_load : Text → Option Yaml) where
  -- How many files, but common.yaml, hold a contract for a workload.
  abbrev pub declared : String → List File → ℕ
  declared w files =
      count (λ f. not (is_common f) && declares w (read_file upper safe_load f)) files

  -- Every file but common.yaml is a contract without a problem.
  abbrev pub AllContracts : List File → Type 0
  AllContracts files =
      All (λ f. is_common f ≡ false → IsContract (read_file upper safe_load f)) files

  loaded-IsKnown : (name : String) (y : Yaml) → IsKnown (loaded name y)
  loaded-IsKnown name (Yaml.mapping fs) = named-IsKnown name fs (get "workload" fs)
  loaded-IsKnown name Yaml.null = tt
  loaded-IsKnown name (Yaml.scalar true) = tt
  loaded-IsKnown name (Yaml.scalar false) = tt
  loaded-IsKnown name (Yaml.text s) = elim (Bool-cases (str_eq s "")) [
    | inl e ↦ rw e tt
    | inr e ↦ rw e tt
  ]
  loaded-IsKnown name (Yaml.sequence Items.no_items) = tt
  loaded-IsKnown name (Yaml.sequence (Items.item y ys)) = tt

  read_file-IsKnown : (f : File) → IsKnown (read_file upper safe_load f)
  unfolding read_file
  read_file-IsKnown f = elim (Bool-cases (has_placeholder upper safe_load f.content)) [
    | inl e ↦ rw e tt
    | inr e ↦ elim (Option-cases (safe_load f.content)) [
      | inl bad ↦ rw (e, bad) tt
      | inr (y, fine) ↦ rw (e, fine) (loaded-IsKnown f.name y)
    ]
  ]

  -- Files that leave no error.
  pub no_errors :
      (files : List File) (s s' : Tally)
      → check_files upper safe_load files s ≡ some s'
      → s'.errors ≡ []
      → (s.errors ≡ [])
        × AllContracts files
        × ((w : String) → times w s'.seen ≡ times w s.seen + declared w files)
        × ((w : String) → times w s.seen ≤ 1 → times w s'.seen ≤ 1)
  unfolding check_files
  no_errors [] s s' h clean =
      let same : s ≡ s' = cc in rw same (clean, tt, λ w. omega arith, λ w le. le)
  no_errors (f ∷ fs) s s' h clean = elim (Bool-cases (is_common f)) [
    | inl common ↦
        let (before, all, adds, once) = no_errors fs s s' (rw common at h) clean in
        (before, (λ other. cc, all), λ w. rw common (omega (arith, adds w)), once)
    | inr other ↦ elim (Option-cases (take_reading s f (read_file upper safe_load f))) [
      | inl stops ↦ let bad : none ≡ some s' = rw (other, stops) at h in cc
      | inr (s1, goes) ↦
          let (before, all, adds, once) = no_errors fs s1 s' (rw (other, goes) at h) clean in
          let first = took s f (read_file upper safe_load f) s1 goes before in
          (
            first.before,
            (λ _. clean_known (read_file upper safe_load f) first.clean (read_file-IsKnown f), all),
            λ w. rw other (omega (arith, adds w, first.adds w)),
            λ w le. once w (first.once w le),
          )
    ]
  ]

  -- Contracts without a problem, none of which was seen before.
  pub all_pass :
      (files : List File) (s : Tally)
      → s.errors ≡ []
      → AllContracts files
      → ((w : String) → member w required ≡ true → times w s.seen + declared w files ≤ 1)
      → (s' : Tally) × (check_files upper safe_load files s ≡ some s')
        × (s'.errors ≡ [])
        × ((w : String) → times w s'.seen ≡ times w s.seen + declared w files)
  unfolding check_files
  all_pass [] s before all room = (s, refl, before, λ w. omega arith)
  all_pass (f ∷ fs) s before all room = elim (Bool-cases (is_common f)) [
    | inl common ↦
        let (s', runs, clean, adds) = all_pass fs s before all.1 (λ w known.
          let one : times w s.seen + (0 + declared w fs) ≤ 1 = rw common at (room w known) in
          omega (arith, one)) in
        (s', rw common runs, clean, λ w. rw common (omega (arith, adds w)))
    | inr other ↦
        let r = read_file upper safe_load f in
        let room' : (w : String)
            → member w required ≡ true
            → times w s.seen + ((if declares w r then 1 else 0) + declared w fs) ≤ 1 =
          λ w known. rw other at (room w known) in
        let (s1, goes, before1, adds1) =
          takes s f r before (all.0 other) (λ w known. omega (arith, room' w known)) in
        let (s', runs, clean, adds) =
          all_pass fs s1 before1 all.1 (λ w known. omega (arith, room' w known, adds1 w)) in
        (s', rw (other, goes) runs, clean, λ w. rw other (omega (arith, adds w, adds1 w)))
  ]
