-- ===== src/Protocol/Validate.antt =====
-- `validate`: the whole vector file.
use Prim.Native.String.{◌++◌ as str_append}
use weavegate.Prelude.{
  ℕ, String, Bool, true, false, not, ◌&&◌, Option, none, some, List, [], ◌∷◌, ◌++◌, map, subset,
  distinct, ◌==◌, string_eq, nat_eq,
}
use weavegate.Prelude.Dict
use weavegate.Prelude.Dict.{Dict}
use weavegate.Prelude.Result.{Result, Check, ok, err, ◌>>=◌, ◌>>◌, need, for_each}
use weavegate.Protocol.Receive.{history}
use weavegate.Protocol.Expand.{Item, expand}
use weavegate.Protocol.Emissions.{emissions}
use weavegate.Protocol.Coverage.Scene.{Scene}
use weavegate.Protocol.Coverage.Wire.{Covered, go_wire_cases, java_wire_cases}
use weavegate.Protocol.Coverage.Rules.{required, coverage}
use weavegate.Protocol.Framing.{Json, Vector, framing, validate_framing}

pub record Vectors : Type 0 where
  pub vector_format : ℕ
  pub wire_version : ℕ
  pub prefixes : Dict String (List (Item Scene))
  pub cases : List Covered
  pub framing : List Vector
  pub coverage : Dict String (List String)

abbrev pub keys {ℓ} : {V : Type ℓ} → Dict String V → List String
keys [] = []
keys ((k, v) ∷ d) = k ∷ keys d

-- `set(xs) == set(ys)`.
abbrev pub same_set : List String → List String → Bool
same_set xs ys = subset xs ys && subset ys xs

abbrev pub case_ids : List Covered → List String
case_ids = map (λ c. c.case.id)

abbrev pub vector_ids : List Vector → List String
vector_ids = map (λ v. v.id)

abbrev pub names_of : Option (List String) → List String
names_of none = []
names_of (some names) = names

-- An error of a case is raised again under the case's name.
abbrev pub labelled {ℓ} : {A : Type ℓ} → String → Result A → Result A
labelled id (ok a) = ok a
labelled id (err message) = err (str_append id (str_append ": " message))

abbrev pub is_empty : List String → Bool
is_empty [] = true
is_empty _ = false

module _ (sha256 : List ℕ → String) where
  -- The expanded steps of a case, whose history and emissions hold.
  unfoldable pub run_case : Dict String (List (Item Scene)) → Covered → Result (List Scene)
  run_case prefixes c = do
    prefix ← expand prefixes c.prefix
    let steps = prefix ++ c.own
    _ ← history sha256 c.case (map (λ s. s.step) steps)
    _ ← emissions c.case (map (λ s. s.step) steps)
    ok steps

  -- `cases` and `expanded` in one dictionary.
  unfoldable pub run_cases :
      Dict String (List (Item Scene))
      → List Covered
      → Dict String (Covered × List Scene)
      → Result (Dict String (Covered × List Scene))
  run_cases prefixes [] expanded = ok expanded
  run_cases prefixes (c ∷ cases) expanded = do
    steps ← labelled c.case.id (run_case prefixes c)
    run_cases prefixes cases (Dict.put c.case.id (c, steps) expanded)

  unfoldable pub covers : String → Option (Covered × List Scene) → Bool
  covers rule none = false
  covers rule (some (c, steps)) = coverage rule c steps

  unfoldable pub rule_check : Dict String (Covered × List Scene) → String × List String → Check
  rule_check expanded (rule, names) = do
    need (not (is_empty names) && distinct names) "empty/duplicate coverage"
    for_each (λ name. need (covers rule (Dict.get name expanded)) "missing premise") names

  unfoldable pub matrix_check : Vectors → Check
  matrix_check vectors = do
    need (same_set (keys vectors.coverage) required) "coverage matrix families"
    need (same_set (names_of (Dict.get "java_wire_matrix" vectors.coverage)) (keys java_wire_cases))
        "Java wire matrix inventory"
    need (same_set (names_of (Dict.get "go_wire_matrix" vectors.coverage)) (keys go_wire_cases))
        "Go wire matrix inventory"

  unfoldable pub framing_check : Json → Vectors → Check
  framing_check json vectors = do
    need (same_set (vector_ids vectors.framing) (keys framing)) "framing inventory"
    for_each (validate_framing json) vectors.framing

  unfoldable pub validate : Json → Vectors → Check
  validate json vectors = do
    need (vectors.vector_format == 1 && vectors.wire_version == 1) "vector version"
    need (distinct (case_ids vectors.cases ++ vector_ids vectors.framing)) "duplicate case ID"
    expanded ← run_cases vectors.prefixes vectors.cases []
    matrix_check vectors
    for_each (rule_check expanded) vectors.coverage
    framing_check json vectors
