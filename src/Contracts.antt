-- ===== src/Contracts.antt =====
-- scripts/validate_contracts.py: whether the files of workload contracts are complete. The directory,
-- the files under it in their order, `str.upper` and yaml.safe_load are parameters.
pub mod Complete
pub mod Loop
pub mod Valid
pub mod Holders
pub mod Passes
use python_vs_go_pos_benchma.Prelude.{
  ℕ, Bool, true, false, not, ◌&&◌, ◌||◌, Option, none, some, is_some, is_none, String, Text, codes,
  starts_with, List, [], ◌∷◌, ◌++◌, str_eq, select, find, if◌then◌else◌, map,
}

-- What yaml.safe_load makes of a document. A scalar that is no text is kept as its truth value, and an
-- entry of a mapping only if its key is a text.
mutual
  pub data Yaml : Type 0 where
    null : Yaml
    scalar : Bool → Yaml
    text : String → Yaml
    sequence : Items → Yaml
    mapping : Fields → Yaml

  pub data Items : Type 0 where
    no_items : Items
    item : Yaml → Items → Items

  pub data Fields : Type 0 where
    no_fields : Fields
    field : String → Yaml → Fields → Fields

pub record File : Type 0 where
  pub name : String
  pub content : Text

-- The errors that the script prints.
pub data Problem : Type 0 where
  placeholder invalid_yaml unknown_workload : String → Problem
  duplicate : String → String → Problem
  missing_keys : String → List String → Problem
  bad_invariants bad_metrics bad_endpoint : String → Problem
  missing_workloads : List String → Problem

-- REQUIRED
abbrev pub required : List String
required = "W1" ∷ "W2" ∷ "W3" ∷ "W4" ∷ "W5" ∷ "W6" ∷ "W7" ∷ "W8" ∷ []

-- REQUIRED_KEYS, sorted
abbrev pub required_keys : List String
required_keys =
    "endpoint" ∷ "idempotency" ∷ "invariants" ∷ "locking" ∷ "metrics" ∷ "transaction" ∷ "version"
    ∷ "workload" ∷ []

abbrev pub member : String → List String → Bool
member s names = is_some (find (str_eq s) names)

-- `word in text`
abbrev pub contains : Text → Text → Bool
contains word [] = starts_with word []
contains word (c ∷ s) = starts_with word (c ∷ s) || contains word s

-- data.get(key)
abbrev pub get : String → Fields → Yaml
get key Fields.no_fields = Yaml.null
get key (Fields.field k v fields) = let rest = get key fields in if str_eq k key then v else rest

-- key in data
abbrev pub has : Fields → String → Bool
has Fields.no_fields key = false
has (Fields.field k v fields) key = str_eq k key || has fields key

abbrev pub truthy : Yaml → Bool
truthy Yaml.null = false
truthy (Yaml.scalar b) = b
truthy (Yaml.text s) = not (str_eq s "")
truthy (Yaml.sequence Items.no_items) = false
truthy (Yaml.sequence (Items.item y ys)) = true
truthy (Yaml.mapping Fields.no_fields) = false
truthy (Yaml.mapping (Fields.field k v more)) = true

-- `isinstance(value, list) and value`
abbrev pub is_full_list : Yaml → Bool
is_full_list (Yaml.sequence (Items.item y ys)) = true
is_full_list _ = false

abbrev pub is_endpoint : Yaml → Bool
is_endpoint (Yaml.mapping fields) = truthy (get "method" fields) && truthy (get "path" fields)
is_endpoint _ = false

-- The checks of a contract whose workload is new.
unfoldable pub problems : String → Fields → List Problem
problems name data_ =
    let missing = select (λ k. not (has data_ k)) required_keys in
    (if is_none (find (λ k. true) missing) then [] else Problem.missing_keys name missing ∷ [])
    ++ (if is_full_list (get "invariants" data_) then [] else Problem.bad_invariants name ∷ [])
    ++ (if is_full_list (get "metrics" data_) then [] else Problem.bad_metrics name ∷ [])
    ++ (if is_endpoint (get "endpoint" data_) then [] else Problem.bad_endpoint name ∷ [])

-- What a file is, before it is compared with the others. A document that is neither empty nor a
-- mapping raises AttributeError, a workload that is a list or a mapping TypeError.
pub data Reading : Type 0 where
  raises : Reading
  rejected : Problem → Reading
  contract : String → List Problem → Reading

abbrev pub named : String → Fields → Yaml → Reading
named name data_ (Yaml.text w) =
    if member w required
    then Reading.contract w (problems name data_)
    else Reading.rejected (Problem.unknown_workload name)
named name data_ Yaml.null = Reading.rejected (Problem.unknown_workload name)
named name data_ (Yaml.scalar b) = Reading.rejected (Problem.unknown_workload name)
named name data_ (Yaml.sequence ys) = Reading.raises
named name data_ (Yaml.mapping inner) = Reading.raises

-- yaml.safe_load(text) or {}
abbrev pub loaded : String → Yaml → Reading
loaded name (Yaml.mapping fields) = named name fields (get "workload" fields)
loaded name y =
    if truthy y then Reading.raises else Reading.rejected (Problem.unknown_workload name)

-- The workloads seen so far, with the names of their files, and the errors.
pub record Tally : Type 0 where
  pub seen : List (String × String)
  pub errors : List Problem

abbrev pub is_seen : String → Tally → Bool
is_seen w s = is_some (find (λ e. str_eq e.0 w) s.seen)

abbrev pub take_reading : Tally → File → Reading → Option Tally
take_reading s f Reading.raises = none
take_reading s f (Reading.rejected p) = some (record s { errors = s.errors ++ (p ∷ []) })
take_reading s f (Reading.contract w ps) =
    if is_seen w s
    then some (record s { errors = s.errors ++ (Problem.duplicate f.name w ∷ []) })
    else some (record { seen = s.seen ++ ((w, f.name) ∷ []); errors = s.errors ++ ps })

abbrev pub is_common : File → Bool
is_common f = str_eq f.name "common.yaml"

abbrev pub then_check : Option Tally → (Tally → Option Tally) → Option Tally
then_check none k = none
then_check (some s) k = k s

module _ (upper : Text → Text) (safe_load : Text → Option Yaml) where
  abbrev pub has_placeholder : Text → Bool
  has_placeholder content =
      contains (codes "TBD") (upper content)
      || contains (codes "TODO") (upper content)
      || contains (codes "IMPLEMENT LATER") (upper content)

  unfoldable pub read_file : File → Reading
  unfolding problems
  read_file f =
      if has_placeholder f.content
      then Reading.rejected (Problem.placeholder f.name)
      else (elim (safe_load f.content) [
        | none ↦ Reading.rejected (Problem.invalid_yaml f.name)
        | some y ↦ loaded f.name y
      ])

  -- for path in sorted(contract_dir.glob("*.yaml"))
  unfoldable pub check_files : List File → Tally → Option Tally
  unfolding read_file
  check_files [] s = some s
  check_files (f ∷ fs) s =
      if is_common f
      then check_files fs s
      else then_check (take_reading s f (read_file f)) (check_files fs)

  -- The exit code; none stands for an exception that the script does not catch.
  unfoldable pub main : Bool → List File → Option ℕ
  unfolding check_files
  main dir_exists files =
      if not dir_exists
      then some 30
      else (elim (check_files files (record { seen = []; errors = [] })) [
        | none ↦ none
        | some s ↦
            let missing = select (λ w. not (is_seen w s)) required in
            let errors =
              s.errors
              ++ (if is_none (find (λ w. true) missing)
                  then []
                  else Problem.missing_workloads missing ∷ []) in
            some (if is_none (find (λ e. true) errors) then 0 else 31)
      ])
