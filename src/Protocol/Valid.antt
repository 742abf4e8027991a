-- ===== src/Protocol/Valid.antt =====
-- What a vector file that `validate` accepts is.
use weavegate.Prelude.{
  ℕ, ◌≡◌, ap, sym, ◌∙◌, ◌⊎◌, inl, inr, String, true, false, not, ◌&&◌, some, List, [], ◌∷◌, ◌++◌,
  map, distinct, All, ◌==◌, string_eq, nat_eq, and-true, Bool-cases, Option-cases, not-true,
  All-map,
}
use weavegate.Prelude.Dict
use weavegate.Prelude.Dict.{Dict, get-put}
use weavegate.Prelude.Result.{
  Result, ok, err, need, for_each, for_each-All, >>=-eq-ok, >>-eq-ok, need-eq-ok,
}
use weavegate.Protocol.State.{History}
use weavegate.Protocol.Receive.{history}
use weavegate.Protocol.Expand.{Item, expand}
use weavegate.Protocol.Emissions.{emissions}
use weavegate.Protocol.Coverage.Scene.{Scene}
use weavegate.Protocol.Coverage.Wire.{Covered, go_wire_cases, java_wire_cases}
use weavegate.Protocol.Coverage.Rules.{required, coverage}
use weavegate.Protocol.Framing.{Json, framing, validate_framing}
use weavegate.Protocol.Validate.{
  Vectors, keys, same_set, case_ids, vector_ids, names_of, labelled, run_case, run_cases, covers,
  rule_check, matrix_check, framing_check, validate, is_empty,
}
use mathlib.Core.List.{Memᴰ}
use mathlib.Core.List.Memᴰ.{head, tail}

module _ (sha256 : List ℕ → String) where
  -- A case whose prefixes expand to `steps` with its own, and whose history and emissions hold.
  pub record Runs (prefixes : Dict String (List (Item Scene))) (c : Covered) (steps : List Scene)
      : Type 0 where
    pub prefix : List Scene
    pub expands : expand prefixes c.prefix ≡ ok prefix
    pub whole : steps ≡ prefix ++ c.own
    pub final : History
    pub lawful : history sha256 c.case (map (λ s. s.step) steps) ≡ ok final
    pub used : List ℕ
    pub answered : emissions c.case (map (λ s. s.step) steps) ≡ ok used

  run_case-Runs :
      (prefixes : Dict String (List (Item Scene))) (c : Covered) (steps : List Scene)
      → run_case sha256 prefixes c ≡ ok steps
      → Runs prefixes c steps
  unfolding run_case
  run_case-Runs prefixes c steps h =
      let (prefix, expands, h1) = >>=-eq-ok (expand prefixes c.prefix) _ h in
      let (final, lawful, h2) =
        >>=-eq-ok (history sha256 c.case (map (λ s. s.step) (prefix ++ c.own))) _ h1 in
      let (used, answered, last) =
        >>=-eq-ok (emissions c.case (map (λ s. s.step) (prefix ++ c.own))) _ h2 in
      let same : prefix ++ c.own ≡ steps = cc in
      record {
        prefix = prefix;
        expands = expands;
        whole = sym same;
        final = final;
        lawful = rw (← same) lawful;
        used = used;
        answered = rw (← same) answered;
      }

  labelled-ok {ℓ} :
      {A : Type ℓ} (id : String) (r : Result A) (a : A) → labelled id r ≡ ok a → r ≡ ok a
  labelled-ok id (ok b) a h = h
  labelled-ok id (err m) a h = cc

  -- What the dictionary of expanded cases holds.
  Entry : Dict String (List (Item Scene)) → List Covered → String → Covered → List Scene → Type 0
  Entry prefixes cases name c steps = Memᴰ c cases × (c.case.id ≡ name) × Runs prefixes c steps

  module _ (prefixes : Dict String (List (Item Scene))) where
    first-Entry :
        (d : Covered) (run : List Scene) (cases : List Covered)
        (acc : Dict String (Covered × List Scene))
        → Runs prefixes d run
        → (name : String) (c : Covered) (steps : List Scene)
        → Dict.get name (Dict.put d.case.id (d, run) acc) ≡ some (c, steps)
        → (Dict.get name acc ≡ some (c, steps)) ⊎ Entry prefixes (d ∷ cases) name c steps
    unfolding Entry
    first-Entry d run cases acc runs name c steps g =
        let g' = sym (get-put d.case.id name (d, run) acc) ∙ g in
        elim (Bool-cases (d.case.id == name)) [
          | inl same ↦
              let pair : some (d, run) ≡ some (c, steps) = rw same at g' in
              let one : d ≡ c = cc in
              let two : run ≡ steps = cc in
              inr (
                head (sym one),
                ap (λ (x : Covered). x.case.id) (sym one)
                    ∙ (string_eq.beq_iff d.case.id name).0 same,
                rw (← one) (rw (← two) runs),
              )
          | inr other ↦ inl (rw other at g')
        ]

    run_cases-Entry :
        (cases : List Covered) (acc expanded : Dict String (Covered × List Scene))
        → run_cases sha256 prefixes cases acc ≡ ok expanded
        → (name : String) (c : Covered) (steps : List Scene)
        → Dict.get name expanded ≡ some (c, steps)
        → (Dict.get name acc ≡ some (c, steps)) ⊎ Entry prefixes cases name c steps
    unfolding run_cases Entry
    run_cases-Entry [] acc expanded h name c steps g =
        inl (let same : acc ≡ expanded = cc in rw same g)
    run_cases-Entry (d ∷ cases) acc expanded h name c steps g =
        let (run, e, rest) = >>=-eq-ok (labelled d.case.id (run_case sha256 prefixes d)) _ h in
        let runs = run_case-Runs prefixes d run (labelled-ok d.case.id _ run e) in
        elim (run_cases-Entry cases (Dict.put d.case.id (d, run) acc) expanded rest name c steps
          g) [
            | inl old ↦ first-Entry d run cases acc runs name c steps old
            | inr (m, id, r) ↦ inr (tail m, id, r)
          ]

    -- Each case runs, and each is in the dictionary.
    run_cases-All :
        (cases : List Covered) (acc expanded : Dict String (Covered × List Scene))
        → run_cases sha256 prefixes cases acc ≡ ok expanded
        → All (λ c. (steps : List Scene) × Runs prefixes c steps) cases
    unfolding run_cases
    run_cases-All [] acc expanded h = tt
    run_cases-All (d ∷ cases) acc expanded h =
        let (run, e, rest) = >>=-eq-ok (labelled d.case.id (run_case sha256 prefixes d)) _ h in
        (
          (run, run_case-Runs prefixes d run (labelled-ok d.case.id _ run e)),
          run_cases-All cases (Dict.put d.case.id (d, run) acc) expanded rest,
        )

  -- A case of that name runs, and its steps have the rule's premise.
  pub Exercised : Vectors → String → String → Type 0
  Exercised vectors rule name =
      (c : Covered) × (steps : List Scene) × Memᴰ c vectors.cases
      × (c.case.id ≡ name)
      × Runs vectors.prefixes c steps
      × (coverage rule c steps ≡ true)

  pub record Valid (json : Json) (vectors : Vectors) : Type 0 where
    pub version : (vectors.vector_format ≡ 1) × (vectors.wire_version ≡ 1)
    pub apart : distinct (case_ids vectors.cases ++ vector_ids vectors.framing) ≡ true
    pub every_case : All (λ c. (steps : List Scene) × Runs vectors.prefixes c steps) vectors.cases
    pub families : same_set (keys vectors.coverage) required ≡ true
    pub java_matrix :
        same_set (names_of (Dict.get "java_wire_matrix" vectors.coverage)) (keys java_wire_cases)
        ≡ true
    pub go_matrix :
        same_set (names_of (Dict.get "go_wire_matrix" vectors.coverage)) (keys go_wire_cases) ≡ true
    pub every_rule :
        All
          (λ r. (is_empty r.1 ≡ false) × (distinct r.1 ≡ true) × All (Exercised vectors r.0) r.1)
          vectors.coverage
    pub framing_names : same_set (vector_ids vectors.framing) (keys framing) ≡ true
    pub every_frame : All (λ v. validate_framing json v ≡ ok tt) vectors.framing

  covers-Exercised :
      (vectors : Vectors) (expanded : Dict String (Covered × List Scene))
      → run_cases sha256 vectors.prefixes vectors.cases [] ≡ ok expanded
      → (rule name : String) → covers sha256 rule (Dict.get name expanded) ≡ true
      → Exercised vectors rule name
  unfolding covers Exercised Entry Dict.get
  covers-Exercised vectors expanded run rule name h = elim (Option-cases (Dict.get name expanded)) [
    | inl e ↦ let h' = rw e at h in cc
    | inr ((c, steps), e) ↦
        elim (run_cases-Entry vectors.prefixes vectors.cases [] expanded run name c steps e) [
          | inl old ↦ cc
          | inr (m, id, runs) ↦ (c, steps, m, id, runs, rw e at h)
        ]
  ]

  rule_check-Exercised :
      (vectors : Vectors) (expanded : Dict String (Covered × List Scene))
      → run_cases sha256 vectors.prefixes vectors.cases [] ≡ ok expanded
      → (r : String × List String) → rule_check sha256 expanded r ≡ ok tt
      → (is_empty r.1 ≡ false) × (distinct r.1 ≡ true) × All (Exercised vectors r.0) r.1
  unfolding rule_check
  rule_check-Exercised vectors expanded run (rule, names) h =
      let (sizes, each) = >>-eq-ok (need (not (is_empty names) && distinct names) _) _ h in
      let (some_name, apart) =
        and-true (not (is_empty names)) (distinct names) (need-eq-ok _ _ sizes) in
      (
        not-true (is_empty names) some_name,
        apart,
        All-map
            (λ name. need (covers sha256 rule (Dict.get name expanded)) "missing premise" ≡ ok tt)
            (Exercised vectors rule)
            (λ name k. covers-Exercised vectors expanded run rule name (need-eq-ok _ _ k)) names
            ((for_each-All _ names).0 each),
      )

  -- A vector file that is accepted has version 1; its cases and framing vectors have different
  -- names; every case expands, and its history and emissions hold; exactly the required rules are
  -- there, none empty or repeating a name, the two wire matrices complete; each name that a rule
  -- lists is that of a case whose steps run and exercise the rule; and all framing vectors are there
  -- and hold.
  pub validate-Valid :
      (json : Json) (vectors : Vectors) → validate sha256 json vectors ≡ ok tt → Valid json vectors
  unfolding validate matrix_check framing_check
  validate-Valid json vectors h =
      let (_, v, h1) =
        >>=-eq-ok (need (vectors.vector_format == 1 && vectors.wire_version == 1) _) _ h in
      let (_, a, h2) =
        >>=-eq-ok (need (distinct (case_ids vectors.cases ++ vector_ids vectors.framing)) _) _ h1 in
      let (expanded, run, h3) =
        >>=-eq-ok (run_cases sha256 vectors.prefixes vectors.cases []) _ h2 in
      let (matrix, h4) = >>-eq-ok (matrix_check sha256 vectors) _ h3 in
      let (rules, frames) =
        >>-eq-ok (for_each (rule_check sha256 expanded) vectors.coverage) _ h4 in
      let (format, wire) = and-true (vectors.vector_format == 1) _ (need-eq-ok _ _ v) in
      let (families, m) = >>-eq-ok (need (same_set (keys vectors.coverage) required) _) _ matrix in
      let (java_all, go_all) =
        >>-eq-ok
          (need
            (same_set (names_of (Dict.get "java_wire_matrix" vectors.coverage))
              (keys java_wire_cases))
            _)
          _ m in
      let (names, each) =
        >>-eq-ok (need (same_set (vector_ids vectors.framing) (keys framing)) _) _ frames in
      record {
        version = (
          (nat_eq.beq_iff vectors.vector_format 1).0 format,
          (nat_eq.beq_iff vectors.wire_version 1).0 wire,
        );
        apart = need-eq-ok _ _ a;
        every_case = run_cases-All vectors.prefixes vectors.cases [] expanded run;
        families = need-eq-ok _ _ families;
        java_matrix = need-eq-ok _ _ java_all;
        go_matrix = need-eq-ok _ _ go_all;
        every_rule =
            All-map _ _ (rule_check-Exercised vectors expanded run) vectors.coverage
              ((for_each-All _ vectors.coverage).0 rules);
        framing_names = need-eq-ok _ _ names;
        every_frame = (for_each-All _ vectors.framing).0 each;
      }
