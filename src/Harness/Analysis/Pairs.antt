-- ===== src/Harness/Analysis/Pairs.antt =====
-- What it takes for a pair of arms to be analysed.
use weavegate.Prelude.{
  ℕ, ◌+◌, ◌≤◌, ◌≡◌, refl, ap, ◌∙◌, String, Bool, true, false, Option, none, some, List, [], ◌∷◌,
  ◌++◌, All, string_eq, leb, arith, Bool-cases, inl, inr, if◌then◌else◌, ◌&&◌, and-true,
}
use weavegate.Prelude.Dict
use weavegate.Prelude.Dict.{Dict}
use weavegate.Prelude.Result.{ok, >>=-eq-ok}
use weavegate.Harness.Trial.{
  Classification, not_started, operational_failure, quality_failure, complete,
}
use weavegate.Harness.Analysis.{
  Arm, is_complete, found, lag_reasons, is_nonempty, failure, facts_differ, pair_reasons,
}

is_complete-eq : (c : Classification) → is_complete c ≡ true → c ≡ complete
unfolding is_complete
is_complete-eq not_started h = cc
is_complete-eq operational_failure h = cc
is_complete-eq quality_failure h = cc
is_complete-eq complete h = refl

is_nonempty-false {ℓ} :
    {A : Type ℓ} (xs ys : List A) → is_nonempty (xs ++ ys) ≡ false → (xs ≡ []) × (ys ≡ [])
is_nonempty-false [] [] h = (refl, refl)
is_nonempty-false [] (y ∷ ys) h = cc
is_nonempty-false (x ∷ xs) ys h = cc

nonempty_only {ℓ} : {A : Type ℓ} (xs : List A) → is_nonempty xs ≡ true → xs ≡ [] → ⊥
nonempty_only [] h e = cc
nonempty_only (x ∷ xs) h e = cc

-- The second arm was created within five minutes of the end of the first.
pub record Window (completed created : Option ℕ) : Type 0 where
  pub end : ℕ
  pub begin : ℕ
  pub is_end : completed ≡ some end
  pub is_begin : created ≡ some begin
  pub after : end ≤ begin
  pub soon : begin ≤ end + 300000000

lag_reasons-Window :
    (completed created : Option ℕ) → lag_reasons completed created ≡ [] → Window completed created
unfolding lag_reasons
lag_reasons-Window none created h = cc
lag_reasons-Window (some a) none h = cc
lag_reasons-Window (some a) (some b) h = elim (Bool-cases (leb a b && leb b (a + 300000000))) [
  | inl q ↦
      (let (x, y) = and-true (leb a b) (leb b (a + 300000000)) q in
        record {
          end = a;
          begin = b;
          is_end = refl;
          is_begin = refl;
          after = ground arith;
          soon = ground arith;
        })
  | inr q ↦ (let k = rw q at h in cc)
]

pub found-eq-ok {ℓ} : {A : Type ℓ} (o : Option A) (a : A) → found o ≡ ok a → o ≡ some a
unfolding found
found-eq-ok none a h = cc
found-eq-ok (some b) a h = cc

module _ {Fact : Type 0} (json_equal : Fact → Fact → Bool) where
  -- Both arms have the fact, and it is the same.
  pub record Agrees (b w : Arm Fact) (key : String) : Type 0 where
    pub left : Fact
    pub right : Fact
    pub is_left : Dict.get key b.facts ≡ some left
    pub is_right : Dict.get key w.facts ≡ some right
    pub equal : json_equal left right ≡ true

  failure-complete : (r : Arm Fact) → failure json_equal r ≡ [] → r.classification ≡ complete
  unfolding failure
  failure-complete r h = elim (Bool-cases (is_complete r.classification)) [
    | inl q ↦ is_complete-eq r.classification q
    | inr q ↦ (let k = rw q at h in cc)
  ]

  facts_differ-All :
      (keys : List String) (b w : Arm Fact)
      → facts_differ json_equal keys b w ≡ ok false
      → All (Agrees b w) keys
  unfolding facts_differ
  facts_differ-All [] b w h = tt
  facts_differ-All (key ∷ keys) b w h =
      let (x, ex, h1) = >>=-eq-ok (found (Dict.get key b.facts)) _ h in
      let (y, ey, h2) = >>=-eq-ok (found (Dict.get key w.facts)) _ h1 in
      elim (Bool-cases (json_equal x y)) [
        | inl q ↦ (
          record {
            left = x;
            right = y;
            is_left = found-eq-ok _ x ex;
            is_right = found-eq-ok _ y ey;
            equal = q;
          },
          facts_differ-All keys b w (rw q at h2),
        )
        | inr q ↦ (let k = rw q at h2 in cc)
      ]

  -- A pair that has no reason against it: both of its arms are complete; they have each fact that is
  -- compared, and agree on it; and in E2 the second arm was created no earlier than the end of the
  -- first and at most five minutes later.
  pub pair_reasons-Agrees :
      (e2 : Bool) (keys : List String) (b w first second : Arm Fact)
      → pair_reasons json_equal e2 keys b w first second ≡ ok []
      → (b.classification ≡ complete)
        × (w.classification ≡ complete)
        × All (Agrees b w) keys
        × ((e2 ≡ true) → Window first.completed second.created)
  unfolding pair_reasons
  pair_reasons-Agrees e2 keys b w first second h =
      elim (Bool-cases (is_nonempty (failure json_equal b ++ failure json_equal w))) [
        | inl q ↦ (let k = rw q at h in elim (nonempty_only _ q (listed _ k)) [ ])
        | inr q ↦
            (let (x, y) = is_nonempty-false _ _ q in
              let (differ, ed, h1) = >>=-eq-ok (facts_differ json_equal keys b w) _ (rw q at h) in
              let (same, lag) = settled differ (listed _ h1) in
              (
                failure-complete b x,
                failure-complete w y,
                facts_differ-All keys b w (ed ∙ ap ok same),
                lag,
              ))
      ]
    where
      listed : (xs : List String) → ok xs ≡ ok [] → xs ≡ []
      listed xs k = cc

      settled :
          (differ : Bool)
          → (if differ
              then "paired_facts_mismatch" ∷ []
              else if e2
              then lag_reasons first.completed second.created
              else [])
            ≡ []
          → (differ ≡ false) × ((e2 ≡ true) → Window first.completed second.created)
      settled true k = cc
      settled false k = (refl, λ is. lag_reasons-Window _ _ (rw is at k))
