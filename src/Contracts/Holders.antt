-- ===== src/Contracts/Holders.antt =====
-- Which files are complete contracts for scripts/validate_contracts.py, and for which workload.
use python_vs_go_pos_benchma.Prelude.{
  ℕ, ◌≡◌, refl, inl, inr, arith, Bool, Bool-cases, true, false, not, ◌&&◌, Option, Option-cases,
  some, String, Text, codes, List, [], ◌∷◌, str_eq, eq_iff, count, All, All-map,
}
use python_vs_go_pos_benchma.Contracts.{
  Yaml, Fields, File, Reading, contains, get, member, read_file, has_placeholder,
}
use python_vs_go_pos_benchma.Contracts.Complete.{declares, IsContract}
use python_vs_go_pos_benchma.Contracts.Loop.{declared, AllContracts}
use python_vs_go_pos_benchma.Contracts.Valid.{IsDocument, loaded_mapping, document_of, no_problems}

-- The document is a mapping with this workload.
abbrev pub is_text : String → Yaml → Bool
is_text w (Yaml.text v) = str_eq v w
is_text w _ = false

abbrev pub is_for : String → Option Yaml → Bool
is_for w (some (Yaml.mapping fs)) = is_text w (get "workload" fs)
is_for w _ = false

-- A property of every workload, as one of each of the eight.
pub for_each :
    (P : String → Type 0) (ws : List String) → All P ws → (w : String) → member w ws ≡ true → P w
for_each P [] a w here = cc
for_each P (v ∷ vs) a w here = elim (Bool-cases (str_eq w v)) [
  | inl same ↦ let is_v : w ≡ v = (eq_iff w v).0 same in rw is_v a.0
  | inr other ↦ for_each P vs a.1 w (rw other at here)
]

module _ (upper : Text → Text) (safe_load : Text → Option Yaml) where
  -- A file that is read as a complete contract for a workload, and has no placeholder.
  pub record IsValid (f : File) (w : String) : Type 0 where
    pub no_tbd : contains (codes "TBD") (upper f.content) ≡ false
    pub no_todo : contains (codes "TODO") (upper f.content) ≡ false
    pub no_later : contains (codes "IMPLEMENT LATER") (upper f.content) ≡ false
    pub fields : Fields
    pub loads : safe_load f.content ≡ some (Yaml.mapping fields)
    pub document : IsDocument fields w

  -- Every file but common.yaml is a complete contract for a workload.
  abbrev pub AllValid : List File → Type 0
  AllValid files = All (λ f. str_eq f.name "common.yaml" ≡ false → (w : String) × IsValid f w) files

  -- How many files, but common.yaml, are for a workload.
  abbrev pub holders : String → List File → ℕ
  holders w files =
      count (λ f. not (str_eq f.name "common.yaml") && is_for w (safe_load f.content)) files

  clean_text :
      (t : Text)
      → has_placeholder upper safe_load t ≡ false
      → (contains (codes "TBD") (upper t) ≡ false)
        × (contains (codes "TODO") (upper t) ≡ false)
        × (contains (codes "IMPLEMENT LATER") (upper t) ≡ false)
  clean_text t h = ground (arith, h)

  read_file-IsValid :
      (f : File) (w : String) → read_file upper safe_load f ≡ Reading.contract w [] → IsValid f w
  unfolding read_file
  read_file-IsValid f w h = elim (Bool-cases (has_placeholder upper safe_load f.content)) [
    | inl holds ↦ let bad : Reading.rejected _ ≡ Reading.contract w [] = rw holds at h in cc
    | inr clean ↦ elim (Option-cases (safe_load f.content)) [
      | inl none_ ↦
          let bad : Reading.rejected _ ≡ Reading.contract w [] = rw (clean, none_) at h in cc
      | inr (y, loads) ↦
          let (fs, is_fs, says) = loaded_mapping f.name y w [] (rw (clean, loads) at h) in
          let (tbd, todo, later) = clean_text f.content clean in
          record {
            no_tbd = tbd;
            no_todo = todo;
            no_later = later;
            fields = fs;
            loads = rw is_fs at loads;
            document = document_of f.name fs w says.is_w says.known says.all;
          }
    ]
  ]

  reads :
      (f : File) (w : String) → IsValid f w → read_file upper safe_load f ≡ Reading.contract w []
  unfolding read_file
  reads f w h = rw (
    h.no_tbd,
    h.no_todo,
    h.no_later,
    h.loads,
    h.document.workload,
    h.document.known,
    no_problems f.name h.fields w h.document,
  )

  contract_of : (r : Reading) → IsContract r → (w : String) × (r ≡ Reading.contract w [])
  contract_of (Reading.contract w ps) (known, clean) = (w, rw clean refl)
  contract_of Reading.raises h = absurd h
  contract_of (Reading.rejected p) h = absurd h

  pub contracts_valid : (files : List File) → AllContracts upper safe_load files → AllValid files
  contracts_valid files all =
      All-map files
        (λ f is other.
          let (w, h) = contract_of (read_file upper safe_load f) (is other) in
          (w, read_file-IsValid f w h))
        all

  pub valid_contracts : (files : List File) → AllValid files → AllContracts upper safe_load files
  valid_contracts files all =
      All-map files
        (λ f is other. let (w, h) = is other in rw (reads f w h) (h.document.known, refl)) all

  same_workload :
      (w : String) (f : File) (v : String)
      → IsValid f v
      → declares w (read_file upper safe_load f) ≡ is_for w (safe_load f.content)
  same_workload w f v h = rw (reads f v h, h.loads, h.document.workload)

  -- Among complete contracts, the workloads that the script reads are those of the documents.
  pub declared-holders :
      (w : String) (files : List File)
      → AllValid files
      → declared upper safe_load w files ≡ holders w files
  declared-holders w [] all = refl
  declared-holders w (f ∷ fs) all = elim (Bool-cases (str_eq f.name "common.yaml")) [
    | inl common ↦ rw (common, declared-holders w fs all.1)
    | inr other ↦
        let (v, h) = all.0 other in rw (other, same_workload w f v h, declared-holders w fs all.1)
  ]
