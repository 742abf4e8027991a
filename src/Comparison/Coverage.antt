-- ===== src/Comparison/Coverage.antt =====
-- What `stages` reports: the covered time and the remainder of the invocation.
use weavegate.Prelude.{
  ℕ, zero, suc, ◌+◌, ◌-◌, ◌≤◌, Bool, true, false, some, List, [], ◌∷◌, ◌≡◌, refl, ap, inl, inr,
  arith, leb→le, Bool-cases, string_eq, nat_eq,
}
use weavegate.Prelude.Result.{ok, >>=-eq-ok}
use weavegate.Comparison.Timing.{
  Span, end_ns, Stages, Interval, not_after, insert, sort, sweep, span_check, span_checks, is_leaf,
  leaf_intervals, roots, measure, measure_one, stages,
}
use weavegate.Comparison.Sweep.{count, is_covered, count-cong, StartsAfter, Ordered, sweep-count}

-- Every interval is one, and ends by `limit`.
Within : ℕ → List Interval → Type 0
Within limit [] = Unit
Within limit ((a, b) ∷ intervals) = (a ≤ b) × (b ≤ limit) × Within limit intervals

StartsAfter-earlier :
    (a c : ℕ) (intervals : List Interval)
    → a ≤ c
    → StartsAfter c intervals
    → StartsAfter a intervals
unfolding StartsAfter
StartsAfter-earlier a c [] h s = tt
StartsAfter-earlier a c ((d, e) ∷ intervals) h (here, s) =
    (omega arith, StartsAfter-earlier a c intervals h s)

insert-StartsAfter :
    (c a b : ℕ) (intervals : List Interval)
    → c ≤ a
    → StartsAfter c intervals
    → StartsAfter c (insert (a, b) intervals)
unfolding StartsAfter insert
insert-StartsAfter c a b [] h s = (h, tt)
insert-StartsAfter c a b ((d, e) ∷ intervals) h (here, s) =
    elim (Bool-cases (not_after (a, b) (d, e))) [
      | inl t ↦ rw t (h, (here, s))
      | inr t ↦ rw t (here, insert-StartsAfter c a b intervals h s)
    ]

not_after-starts : (a b c d : ℕ) → not_after (a, b) (c, d) ≡ true → a ≤ c
unfolding not_after
not_after-starts a b c d h = ground (arith, nat_eq.beq_iff a c)

not_after-total : (a b c d : ℕ) → not_after (a, b) (c, d) ≡ false → c ≤ a
unfolding not_after
not_after-total a b c d h = ground (arith, nat_eq.beq_iff a c)

insert-Ordered :
    (limit a b : ℕ) (intervals : List Interval)
    → a ≤ b
    → b ≤ limit
    → Ordered limit intervals
    → Ordered limit (insert (a, b) intervals)
unfolding Ordered StartsAfter insert
insert-Ordered limit a b [] h l o = (h, l, tt, tt)
insert-Ordered limit a b ((c, d) ∷ intervals) h l (len, fits, after, o) =
    elim (Bool-cases (not_after (a, b) (c, d))) [
      | inl t ↦
          let first = not_after-starts a b c d t in
          rw t (h, l, (first, StartsAfter-earlier a c intervals first after), (len, fits, after, o))
      | inr t ↦ rw t (
        len,
        fits,
        insert-StartsAfter c a b intervals (not_after-total a b c d t) after,
        insert-Ordered limit a b intervals h l o,
      )
    ]

sort-Ordered :
    (limit : ℕ) (intervals : List Interval)
    → Within limit intervals
    → Ordered limit (sort intervals)
unfolding sort Within Ordered
sort-Ordered limit [] w = tt
sort-Ordered limit ((a, b) ∷ intervals) (h, l, w) =
    insert-Ordered limit a b (sort intervals) h l (sort-Ordered limit intervals w)

is_covered-insert :
    (a b t : ℕ) (intervals : List Interval)
    → is_covered (insert (a, b) intervals) t ≡ is_covered ((a, b) ∷ intervals) t
unfolding is_covered insert
is_covered-insert a b t [] = refl
is_covered-insert a b t ((c, d) ∷ intervals) = ground (arith, is_covered-insert a b t intervals)

is_covered-sort :
    (t : ℕ) (intervals : List Interval) → is_covered (sort intervals) t ≡ is_covered intervals t
unfolding is_covered sort
is_covered-sort t [] = refl
is_covered-sort t ((a, b) ∷ intervals) =
    ground (arith, is_covered-insert a b t (sort intervals), is_covered-sort t intervals)

span_check-within :
    (spans : List Span) (root s : Span) (index : ℕ)
    → span_check spans root index s ≡ ok tt
    → (root.start_ns ≤ s.start_ns) × (end_ns s ≤ end_ns root)
unfolding span_check
span_check-within spans root s index h = ground arith

span_checks-Within :
    (spans rest : List Span) (root : Span) (index : ℕ)
    → span_checks spans root index rest ≡ ok tt
    → Within (end_ns root) (leaf_intervals rest)
unfolding span_checks leaf_intervals Within
span_checks-Within spans [] root index h = tt
span_checks-Within spans (s ∷ rest) root index h =
    let (u, here, later) = >>=-eq-ok (span_check spans root index s) _ h in
    let w = span_checks-Within spans rest root (index + 1) later in
    let (low, high) = span_check-within spans root s index here in
    elim (Bool-cases (is_leaf s)) [ inl e ↦ rw e (omega arith, high, w) | inr e ↦ rw e w ]

count-le : (p : ℕ → Bool) (low n : ℕ) → count p low n ≤ n
unfolding count
count-le p low zero = ground arith
count-le p low (suc n) = ground (arith, count-le p (suc low) n)

measured-root :
    (spans found : List Span) (seconds : ℕ) (r : Stages)
    → roots spans ≡ found
    → measure_one spans seconds found ≡ ok (some r)
    → (root : Span) × (roots spans ≡ root ∷ []) × (measure spans root seconds ≡ ok (some r))
unfolding measure_one
measured-root spans [] seconds r e h = ground arith
measured-root spans (root ∷ []) seconds r e h = (root, e, h)
measured-root spans (root ∷ other ∷ rest) seconds r e h = ground arith

stages-root :
    (spans : List Span) (seconds : ℕ) (allow_missing : Bool) (r : Stages)
    → stages spans seconds allow_missing ≡ ok (some r)
    → (root : Span) × (roots spans ≡ root ∷ []) × (measure spans root seconds ≡ ok (some r))
unfolding stages
stages-root spans seconds allow_missing r h =
    measured-root spans (roots spans) seconds r refl (ground arith)

-- What a report says of the spans under a root.
pub record Measures (spans : List Span) (root : Span) (seconds : ℕ) (r : Stages) : Type 0 where
  pub covers : r.covered ≡ count (is_covered (leaf_intervals spans)) root.start_ns root.duration_ns
  pub accounts : r.covered + r.remainder ≡ seconds
  pub fits : r.covered ≤ root.duration_ns
  pub invoked : root.duration_ns ≤ seconds

measure-parts :
    (spans : List Span) (root : Span) (seconds : ℕ) (r : Stages)
    → measure spans root seconds ≡ ok (some r)
    → (span_checks spans root 0 spans ≡ ok tt)
      × (r.covered ≡ sweep 0 root.start_ns (sort (leaf_intervals spans)))
      × (r.remainder ≡ seconds - r.covered)
      × (r.covered ≤ seconds)
      × (root.duration_ns ≤ seconds)
unfolding measure
measure-parts spans root seconds r h = ground (
  arith,
  leb→le root.duration_ns seconds,
  leb→le (sweep 0 root.start_ns (sort (leaf_intervals spans))) seconds,
)

measure-Measures :
    (spans : List Span) (root : Span) (seconds : ℕ) (r : Stages)
    → measure spans root seconds ≡ ok (some r)
    → Measures spans root seconds r
measure-Measures spans root seconds r h =
    let (checks, covered, remainder, fits, invoked) = measure-parts spans root seconds r h in
    let intervals = leaf_intervals spans in
    let limit = end_ns root in
    let ordered = sort-Ordered limit intervals (span_checks-Within spans spans root 0 checks) in
    let swept = sweep-count limit 0 root.start_ns (sort intervals) ordered (omega arith) in
    let same =
      count-cong (is_covered (sort intervals)) (is_covered intervals) root.start_ns
        (limit - root.start_ns) (λ t l u. is_covered-sort t intervals) in
    let whole : count (is_covered intervals) root.start_ns (limit - root.start_ns)
        ≡ count (is_covered intervals) root.start_ns root.duration_ns =
      ap (count (is_covered intervals) root.start_ns) (omega arith) in
    let most = count-le (is_covered intervals) root.start_ns root.duration_ns in
    record {
      covers = omega (arith, covered, swept, same, whole);
      accounts = omega (arith, remainder, fits);
      fits = omega (arith, covered, swept, same, whole, most);
      invoked = invoked;
    }

-- When `stages` reports, the spans have one command span, and the covered time is the number of
-- nanoseconds of the command that some leaf stage covers, each counted once however the stages
-- overlap; with the remainder it makes up the invocation, which is no shorter than the command.
pub stages-Measures :
    (spans : List Span) (seconds : ℕ) (allow_missing : Bool) (r : Stages)
    → stages spans seconds allow_missing ≡ ok (some r)
    → (root : Span) × (roots spans ≡ root ∷ []) × Measures spans root seconds r
stages-Measures spans seconds allow_missing r h =
    let (root, one, measured) = stages-root spans seconds allow_missing r h in
    (root, one, measure-Measures spans root seconds r measured)
