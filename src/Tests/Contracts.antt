-- ===== src/Tests/Contracts.antt =====
-- A directory of eight contracts and common.yaml.
use python_vs_go_pos_benchma.Prelude.{
  ◌≡◌, refl, true, Option, none, some, String, Text, codes, starts_with, List, [], ◌∷◌, map,
  if◌then◌else◌,
}
use python_vs_go_pos_benchma.Contracts.{
  Yaml, Items, Fields, File, problems, read_file, check_files, main,
}
use python_vs_go_pos_benchma.Contracts.Holders.{holders}
use python_vs_go_pos_benchma.Contracts.Passes.{main_passes}

-- A complete contract.
abbrev document : String → Yaml
document w = Yaml.mapping (
    Fields.field "version" (Yaml.scalar true) (
      Fields.field "workload" (Yaml.text w) (
        Fields.field "transaction" (Yaml.text "one") (
          Fields.field "locking" (Yaml.text "row") (
            Fields.field "idempotency" (Yaml.text "key") (
              Fields.field "invariants" (Yaml.sequence (Items.item (Yaml.text "i") Items.no_items))
                (Fields.field "metrics" (Yaml.sequence (Items.item (Yaml.text "m") Items.no_items))
                  (Fields.field "endpoint"
                    (Yaml.mapping (
                      Fields.field "method" (Yaml.text "POST")
                        (Fields.field "path" (Yaml.text "/") Fields.no_fields)))
                    Fields.no_fields))))))))

abbrev upper : Text → Text
upper t = t

-- Reads a document whose text is its workload.
abbrev load_one : List String → Text → Option Yaml
load_one [] t = none
load_one (w ∷ ws) t =
    let rest = load_one ws t in if starts_with (codes w) t then some (document w) else rest

abbrev safe_load : Text → Option Yaml
safe_load = load_one ("W1" ∷ "W2" ∷ "W3" ∷ "W4" ∷ "W5" ∷ "W6" ∷ "W7" ∷ "W8" ∷ [])

abbrev file : String → File
file w = record { name = w; content = codes w }

abbrev directory : List File
directory =
    file "common.yaml" ∷ map file ("W1" ∷ "W2" ∷ "W3" ∷ "W4" ∷ "W5" ∷ "W6" ∷ "W7" ∷ "W8" ∷ [])

main_passes_example : holders upper safe_load "W3" directory ≡ 1
unfolding main check_files read_file problems
main_passes_example = ((main_passes upper safe_load directory).0 refl).1.1.1.0
