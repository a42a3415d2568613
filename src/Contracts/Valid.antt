-- ===== src/Contracts/Valid.antt =====
-- What a file must hold to be a contract for scripts/validate_contracts.py, in its own words.
use python_vs_go_pos_benchma.Prelude.{
  ◌≡◌, refl, inl, inr, arith, Bool, Bool-cases, true, false, not, is_none, String, List, [], ◌∷◌,
  str_eq, eq_iff, select, find, All, if◌then◌else◌,
}
use python_vs_go_pos_benchma.Contracts.{
  Yaml, Items, Fields, Problem, Reading, get, has, truthy, required_keys, member, required,
  is_full_list, is_endpoint, problems, named, loaded,
}
use python_vs_go_pos_benchma.Contracts.Complete.{appended_none}

-- W1 to W8
abbrev pub workloads : List String
workloads = "W1" ∷ "W2" ∷ "W3" ∷ "W4" ∷ "W5" ∷ "W6" ∷ "W7" ∷ "W8" ∷ []

-- A list with an item.
pub record IsFullList (y : Yaml) : Type 0 where
  pub first : Yaml
  pub more : Items
  pub is_list : y ≡ Yaml.sequence (Items.item first more)

-- A mapping that names a method and a path.
pub record IsEndpoint (y : Yaml) : Type 0 where
  pub inner : Fields
  pub is_mapping : y ≡ Yaml.mapping inner
  pub has_method : truthy (get "method" inner) ≡ true
  pub has_path : truthy (get "path" inner) ≡ true

-- A mapping that is a complete contract for a workload.
pub record IsDocument (fields : Fields) (w : String) : Type 0 where
  pub workload : get "workload" fields ≡ Yaml.text w
  pub known : member w workloads ≡ true
  pub keys :
      All
        (λ k. has fields k ≡ true)
        ("version" ∷ "workload" ∷ "endpoint" ∷ "transaction" ∷ "locking" ∷ "idempotency"
          ∷ "invariants" ∷ "metrics" ∷ [])
  pub invariants : IsFullList (get "invariants" fields)
  pub metrics : IsFullList (get "metrics" fields)
  pub endpoint : IsEndpoint (get "endpoint" fields)

-- The names of a list that a query leaves out.
pub left_out :
    (p : String → Bool) (names : List String)
    → select p names ≡ []
    → (w : String) → member w names ≡ true
    → p w ≡ false
left_out p [] h w here = cc
left_out p (n ∷ names) h w here = elim (Bool-cases (p n)) [
  | inl hit ↦ let bad : n ∷ select p names ≡ [] = rw hit at h in cc
  | inr miss ↦ elim (Bool-cases (str_eq w n)) [
    | inl same ↦ let is_n : w ≡ n = (eq_iff w n).0 same in rw is_n miss
    | inr other ↦ left_out p names (rw miss at h) w (rw other at here)
  ]
]

pub none_missing :
    (missing : List String) (p : Problem)
    → (if is_none (find (λ (w : String). true) missing) then [] else p ∷ []) ≡ []
    → missing ≡ []
none_missing [] p h = refl
none_missing (w ∷ ws) p h = cc

no_problem : (b : Bool) (p : Problem) → (if b then [] else p ∷ []) ≡ [] → b ≡ true
no_problem true p h = refl
no_problem false p h = cc

full_list : (y : Yaml) → is_full_list y ≡ true → IsFullList y
full_list (Yaml.sequence (Items.item y ys)) h = record { first = y; more = ys; is_list = refl }
full_list (Yaml.sequence Items.no_items) h = cc
full_list Yaml.null h = cc
full_list (Yaml.scalar b) h = cc
full_list (Yaml.text s) h = cc
full_list (Yaml.mapping fs) h = cc

IsEndpoint-of : (y : Yaml) → is_endpoint y ≡ true → IsEndpoint y
IsEndpoint-of (Yaml.mapping fs) h = record {
  inner = fs;
  is_mapping = refl;
  has_method = ground (arith, h);
  has_path = ground (arith, h);
}
IsEndpoint-of (Yaml.sequence ys) h = cc
IsEndpoint-of Yaml.null h = cc
IsEndpoint-of (Yaml.scalar b) h = cc
IsEndpoint-of (Yaml.text s) h = cc

pub document_of :
    (name : String) (fs : Fields) (w : String)
    → get "workload" fs ≡ Yaml.text w
    → member w required ≡ true
    → problems name fs ≡ []
    → IsDocument fs w
unfolding problems
document_of name fs w is_w known clean =
    let (three, endpoint) = appended_none _ _ clean in
    let (two, metrics) = appended_none _ _ three in
    let (keys, invariants) = appended_none _ _ two in
    let none_left = none_missing (select (λ k. not (has fs k)) required_keys) _ keys in
    let here : (k : String) → member k required_keys ≡ true → has fs k ≡ true = λ k hit.
      let kept = left_out (λ k. not (has fs k)) required_keys none_left k hit in
      ground (arith, kept) in
    record {
      workload = is_w;
      known = known;
      keys = (
        here "version" refl,
        (
          here "workload" refl,
          (
            here "endpoint" refl,
            (
              here "transaction" refl,
              (
                here "locking" refl,
                (here "idempotency" refl, (here "invariants" refl, (here "metrics" refl, tt))),
              ),
            ),
          ),
        ),
      );
      invariants =
          full_list (get "invariants" fs)
            (no_problem (is_full_list (get "invariants" fs)) _ invariants);
      metrics =
          full_list (get "metrics" fs) (no_problem (is_full_list (get "metrics" fs)) _ metrics);
      endpoint =
          IsEndpoint-of (get "endpoint" fs)
            (no_problem (is_endpoint (get "endpoint" fs)) _ endpoint);
    }

pub no_problems :
    (name : String) (fs : Fields) (w : String) → IsDocument fs w → problems name fs ≡ []
unfolding problems
no_problems name fs w d = rw (
  d.keys.0, d.keys.1.0, d.keys.1.1.0, d.keys.1.1.1.0, d.keys.1.1.1.1.0, d.keys.1.1.1.1.1.0,
  d.keys.1.1.1.1.1.1.0, d.keys.1.1.1.1.1.1.1.0, d.invariants.is_list, d.metrics.is_list,
  d.endpoint.is_mapping, d.endpoint.has_method, d.endpoint.has_path,
)

-- What a reading says of the document.
pub record Says (fs : Fields) (name w : String) (ps : List Problem) (y : Yaml) : Type 0 where
  pub is_w : y ≡ Yaml.text w
  pub known : member w required ≡ true
  pub all : problems name fs ≡ ps

named-Says :
    (name : String) (fs : Fields) (y : Yaml) (w : String) (ps : List Problem)
    → named name fs y ≡ Reading.contract w ps
    → Says fs name w ps y
named-Says name fs (Yaml.text v) w ps h = elim (Bool-cases (member v required)) [
  | inl known ↦
      let h' : Reading.contract v (problems name fs) ≡ Reading.contract w ps = rw known at h in
      let is_w : v ≡ w = cc in record { is_w = rw is_w; known = rw is_w at known; all = cc }
  | inr other ↦ let bad : Reading.rejected _ ≡ Reading.contract w ps = rw other at h in cc
]
named-Says name fs Yaml.null w ps h = cc
named-Says name fs (Yaml.scalar b) w ps h = cc
named-Says name fs (Yaml.sequence ys) w ps h = cc
named-Says name fs (Yaml.mapping inner) w ps h = cc

pub loaded_mapping :
    (name : String) (y : Yaml) (w : String) (ps : List Problem)
    → loaded name y ≡ Reading.contract w ps
    → (fs : Fields) × (y ≡ Yaml.mapping fs) × Says fs name w ps (get "workload" fs)
loaded_mapping name (Yaml.mapping fs) w ps h =
    (fs, refl, named-Says name fs (get "workload" fs) w ps h)
loaded_mapping name Yaml.null w ps h = cc
loaded_mapping name (Yaml.scalar true) w ps h = cc
loaded_mapping name (Yaml.scalar false) w ps h = cc
loaded_mapping name (Yaml.text s) w ps h = ground (arith, h)
loaded_mapping name (Yaml.sequence Items.no_items) w ps h = cc
loaded_mapping name (Yaml.sequence (Items.item y ys)) w ps h = cc
