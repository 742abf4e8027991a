-- ===== src/Protocol/Expand.antt =====
-- `expand`: the steps of a prefix, with the prefixes that it names.
pub mod Depth
use Prim.Native.String.{◌++◌ as str_append}
use weavegate.Prelude.{
  ℕ, zero, suc, ◌+◌, ◌-◌, ◌≤◌, ◌<◌, String, Bool, true, false, not, ◌&&◌, ◌||◌, Option, none, some,
  List, [], ◌∷◌, ◌++◌, ◌≡◌, ◌≢◌, refl, ap, sym, ◌∙◌, arith, leb, elem, length, ◌==◌, string_eq,
  if◌then◌else◌, inl, inr, Bool-cases,
}
use weavegate.Prelude.Dict
use weavegate.Prelude.Dict.{Dict, is_some, is_some-true}
use weavegate.Prelude.Result.{Result, ok, err, ◌>>=◌, ◌>>◌, need, >>=-eq-ok, >>=-cong, need-cong}

-- A step of a prefix, or the name of another prefix.
pub data Item {ℓ} (A : Type ℓ) : Type ℓ where
  prefix_named : String → Item A
  step : A → Item A

module _ {A : Type 0} where
  -- The loop of `expand`, with `f` for its call of itself.
  unfoldable pub expand_items :
      (String → Result (List A)) → List A → List (Item A) → Result (List A)
  expand_items f out [] = ok out
  expand_items f out (prefix_named name ∷ items) = do
    more ← f name
    need (leb (length (out ++ more)) 10000) "prefix expansion too large"
    expand_items f (out ++ more) items
  expand_items f out (step s ∷ items) = do
    need (leb (length (out ++ s ∷ [])) 10000) "prefix expansion too large"
    expand_items f (out ++ s ∷ []) items

  abbrev or_empty : Option (List (Item A)) → List (Item A)
  or_empty none = []
  or_empty (some items) = items

  -- `fuel` bounds the depth of the calls.
  unfoldable pub expand_within :
      ℕ → Dict String (List (Item A)) → String → List String → Result (List A)
  expand_within zero prefixes name seen = err "depth"
  expand_within (suc fuel) prefixes name seen = do
    need (is_some (Dict.get name prefixes) && not (elem name seen))
        (str_append "missing/cyclic prefix: " name)
    expand_items (λ next. expand_within fuel prefixes next (name ∷ seen)) []
        (or_empty (Dict.get name prefixes))

  -- A call for each prefix, and one more that finds a cycle, are deep enough.
  unfoldable pub expand : Dict String (List (Item A)) → String → Result (List A)
  expand prefixes name = expand_within (length prefixes + 1) prefixes name []
