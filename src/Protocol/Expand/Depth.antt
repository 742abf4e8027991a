-- ===== src/Protocol/Expand/Depth.antt =====
-- How deep `expand` goes, and what it rejects.
use Prim.Native.String.{◌++◌ as str_append}
use weavegate.Prelude.{
  ℕ, zero, suc, ◌+◌, ◌-◌, ◌≤◌, ◌<◌, String, Bool, true, false, not, ◌&&◌, ◌||◌, List, [], ◌∷◌, ◌++◌,
  ◌≡◌, ◌≢◌, refl, ap, sym, ◌∙◌, arith, leb, elem, length, ◌==◌, string_eq, if◌then◌else◌, inl, inr,
  Bool-cases,
}
use weavegate.Prelude.Dict
use weavegate.Prelude.Dict.{Dict, is_some, is_some-true}
use weavegate.Prelude.Result.{Result, ok, ◌>>◌, need, >>=-eq-ok, >>=-cong, need-cong}
use weavegate.Protocol.Expand.{
  Item, prefix_named, step, expand_items, or_empty, expand_within, expand,
}

module _ {A : Type 0} where
  -- The prefixes that no call has reached.
  unseen : Dict String (List (Item A)) → List String → ℕ
  unseen [] seen = 0
  unseen ((k, _) ∷ prefixes) seen =
      if elem k seen then unseen prefixes seen else suc (unseen prefixes seen)

  unseen-length :
      (prefixes : Dict String (List (Item A))) (seen : List String)
      → unseen prefixes seen ≤ length prefixes
  unfolding unseen
  unseen-length [] seen = ground arith
  unseen-length ((k, v) ∷ prefixes) seen = ground (arith, unseen-length prefixes seen)

  unseen_mono :
      (prefixes : Dict String (List (Item A))) (name : String) (seen : List String)
      → unseen prefixes (name ∷ seen) ≤ unseen prefixes seen
  unfolding unseen
  unseen_mono [] name seen = ground arith
  unseen_mono ((k, v) ∷ prefixes) name seen = ground (arith, unseen_mono prefixes name seen)

  unseen-smaller :
      (prefixes : Dict String (List (Item A))) (name : String) (seen : List String)
      → is_some (Dict.get name prefixes) ≡ true
      → elem name seen ≡ false
      → unseen prefixes (name ∷ seen) < unseen prefixes seen
  unfolding unseen Dict.get
  unseen-smaller [] name seen h k = ground arith
  unseen-smaller ((j, v) ∷ prefixes) name seen h k = ground (
    arith,
    string_eq.beq_iff j name,
    unseen_mono prefixes name seen,
    unseen-smaller prefixes name seen,
  )

  expand_items-cong :
      (f g : String → Result (List A))
      → ((name : String) → f name ≡ g name)
      → (out : List A) (items : List (Item A)) → expand_items f out items ≡ expand_items g out items
  unfolding expand_items
  expand_items-cong f g same out [] = refl
  expand_items-cong f g same out (step s ∷ items) =
      ap (λ rest. need (leb (length (out ++ s ∷ [])) 10000) "prefix expansion too large" >> rest)
        (expand_items-cong f g same (out ++ s ∷ []) items)
  expand_items-cong f g same out (prefix_named name ∷ items) =
      >>=-cong (f name) (g name) _ _ (same name) (λ more.
        ap (λ rest. need (leb (length (out ++ more)) 10000) "prefix expansion too large" >> rest)
          (expand_items-cong f g same (out ++ more) items))

  deeper :
      (fuel : ℕ) (prefixes : Dict String (List (Item A))) (name : String) (seen : List String)
      → (is_some (Dict.get name prefixes) && not (elem name seen)) ≡ true
      → unseen prefixes seen < suc fuel
      → unseen prefixes (name ∷ seen) < fuel
  deeper fuel prefixes name seen e h = ground (arith, unseen-smaller prefixes name seen)

  expand_within-suc :
      (fuel : ℕ) (prefixes : Dict String (List (Item A))) (name : String) (seen : List String)
      → unseen prefixes seen < fuel
      → expand_within (suc fuel) prefixes name seen ≡ expand_within fuel prefixes name seen
  unfolding expand_within
  expand_within-suc zero prefixes name seen h = ground arith
  expand_within-suc (suc fuel) prefixes name seen h =
      need-cong (is_some (Dict.get name prefixes) && not (elem name seen))
        (str_append "missing/cyclic prefix: " name) _ _
        (λ e.
          expand_items-cong (λ next. expand_within (suc fuel) prefixes next (name ∷ seen))
            (λ next. expand_within fuel prefixes next (name ∷ seen))
            (λ next.
              expand_within-suc fuel prefixes next (name ∷ seen)
                (deeper fuel prefixes name seen e h))
            [] (or_empty (Dict.get name prefixes)))

  deeper_still :
      (prefixes : Dict String (List (Item A))) (name : String) (depth more : ℕ)
      → length prefixes < depth
      → expand_within (more + depth) prefixes name [] ≡ expand_within depth prefixes name []
  deeper_still prefixes name depth zero h = ap (λ d. expand_within d prefixes name []) (omega arith)
  deeper_still prefixes name depth (suc more) h =
      ap (λ d. expand_within d prefixes name []) (omega arith)
      ∙ expand_within-suc (more + depth) prefixes name []
          (ground (arith, unseen-length prefixes []))
      ∙ deeper_still prefixes name depth more h

  pub expand-deep_enough :
      (prefixes : Dict String (List (Item A))) (name : String) (depth : ℕ)
      → length prefixes < depth
      → expand_within depth prefixes name [] ≡ expand prefixes name
  unfolding expand
  expand-deep_enough prefixes name depth h =
      ap (λ d. expand_within d prefixes name []) (omega arith)
      ∙ deeper_still prefixes name (length prefixes + 1) (depth - (length prefixes + 1))
          (omega arith)

  expand_items-bounded :
      (f : String → Result (List A)) (out : List A) (items : List (Item A)) (steps : List A)
      → length out ≤ 10000
      → expand_items f out items ≡ ok steps
      → length steps ≤ 10000
  unfolding expand_items
  expand_items-bounded f out [] steps b h = ground arith
  expand_items-bounded f out (step s ∷ items) steps b h =
      ground (arith, expand_items-bounded f (out ++ s ∷ []) items steps)
  expand_items-bounded f out (prefix_named name ∷ items) steps b h =
      let (more, called, rest) = >>=-eq-ok (f name) _ h in
      ground (arith, expand_items-bounded f (out ++ more) items steps)

  expand_within-ok :
      (fuel : ℕ) (prefixes : Dict String (List (Item A))) (name : String) (seen : List String)
      (steps : List A)
      → expand_within fuel prefixes name seen ≡ ok steps
      → (is_some (Dict.get name prefixes) ≡ true)
        × (elem name seen ≡ false)
        × (length steps ≤ 10000)
  unfolding expand_within
  expand_within-ok zero prefixes name seen steps h = cc
  expand_within-ok (suc fuel) prefixes name seen steps h =
      let bound =
        expand_items-bounded (λ next. expand_within fuel prefixes next (name ∷ seen)) []
          (or_empty (Dict.get name prefixes)) steps in
      ground (arith, bound)

  -- The items name the prefix.
  unfoldable pub named_in : String → List (Item A) → Bool
  named_in name [] = false
  named_in name (prefix_named other ∷ items) = other == name || named_in name items
  named_in name (step _ ∷ items) = named_in name items

  -- A chain of prefixes, each named by the one before.
  pub data Reaches (prefixes : Dict String (List (Item A))) : String → String → Type 0 where
    names :
        (a b : String) → named_in b (or_empty (Dict.get a prefixes)) ≡ true → Reaches prefixes a b
    through :
        (a b c : String)
        → named_in b (or_empty (Dict.get a prefixes)) ≡ true
        → Reaches prefixes b c
        → Reaches prefixes a c

  expand_items-named :
      (f : String → Result (List A)) (name : String) (out : List A) (items : List (Item A))
      (steps : List A)
      → named_in name items ≡ true
      → expand_items f out items ≡ ok steps
      → (more : List A) × (f name ≡ ok more)
  unfolding named_in expand_items
  expand_items-named f name out [] steps n h = cc
  expand_items-named f name out (step s ∷ items) steps n h =
      expand_items-named f name (out ++ s ∷ []) items steps n (ground arith)
  expand_items-named f name out (prefix_named other ∷ items) steps n h =
      let (more, called, rest) = >>=-eq-ok (f other) _ h in
      elim (Bool-cases (other == name)) [
        | inl e ↦ (more, ap f (sym ((string_eq.beq_iff other name).0 e)) ∙ called)
        | inr e ↦ expand_items-named f name (out ++ more) items steps (ground arith) (ground arith)
      ]

  expand_within-named :
      (fuel : ℕ) (prefixes : Dict String (List (Item A))) (a b : String) (seen : List String)
      (steps : List A)
      → expand_within fuel prefixes a seen ≡ ok steps
      → named_in b (or_empty (Dict.get a prefixes)) ≡ true
      → (rest : ℕ) × (more : List A) × (expand_within rest prefixes b (a ∷ seen) ≡ ok more)
  unfolding expand_within
  expand_within-named zero prefixes a b seen steps h n = cc
  expand_within-named (suc fuel) prefixes a b seen steps h n =
      let items = or_empty (Dict.get a prefixes) in
      let f = λ (next : String). expand_within fuel prefixes next (a ∷ seen) in
      let (more, called) = expand_items-named f b [] items steps n (ground arith) in
      (fuel, more, called)

  reached :
      (prefixes : Dict String (List (Item A))) (a c : String) (fuel : ℕ) (seen : List String)
      (steps : List A)
      → Reaches prefixes a c
      → expand_within fuel prefixes a seen ≡ ok steps
      → (is_some (Dict.get c prefixes) ≡ true) × (elem c (a ∷ seen) ≡ false)
  reached prefixes a c fuel seen steps (names _ _ n) h =
      let (rest, more, called) = expand_within-named fuel prefixes a c seen steps h n in
      let (known, unseen, bound) = expand_within-ok rest prefixes c (a ∷ seen) more called in
      (known, unseen)
  reached prefixes a c fuel seen steps (through _ b _ n path) h =
      let (rest, more, called) = expand_within-named fuel prefixes a b seen steps h n in
      let (known, unseen) = reached prefixes b c rest (a ∷ seen) more path called in
      (known, ground arith)

  -- A prefix that expands is listed, expands to at most 10000 steps, and whatever prefix a chain
  -- from it reaches is listed too and is not the prefix itself: a missing or cyclic prefix is
  -- rejected at any depth.
  pub expand-acyclic :
      (prefixes : Dict String (List (Item A))) (name : String) (steps : List A)
      → expand prefixes name ≡ ok steps
      → (is_some (Dict.get name prefixes) ≡ true)
        × (length steps ≤ 10000)
        × ((other : String)
            → Reaches prefixes name other
            → (is_some (Dict.get other prefixes) ≡ true) × (other ≢ name))
  unfolding expand
  expand-acyclic prefixes name steps h =
      let (known, unseen, bound) =
        expand_within-ok (length prefixes + 1) prefixes name [] steps h in
      (
        known,
        bound,
        λ other path.
            let (found, fresh) =
              reached prefixes name other (length prefixes + 1) [] steps path h in
            (found, λ e. ground (arith, string_eq.beq_iff other name)),
      )
