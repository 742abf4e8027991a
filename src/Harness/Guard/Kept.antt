-- ===== src/Harness/Guard/Kept.antt =====
-- The guard notices every change of what it has recorded.
use weavegate.Prelude.{
  ◌≡◌, ◌⊎◌, inl, inr, refl, ap, ◌∙◌, arith, String, Bool, true, false, Option, none, some, List, [],
  ◌∷◌, ◌==◌, string_eq, nat_eq, list_eq, list_beq_iff, if◌then◌else◌, any, or-false, Bool-cases,
}
use weavegate.Prelude.Dict
use weavegate.Prelude.Dict.{Dict, is_some, get-put, is_some-false, is_some-true}
use weavegate.Prelude.Result.{Check, ok, err, need, for_each, >>-eq-ok, need-eq-ok}
use weavegate.Harness.Guard.{
  Relative, Inventory, World, Guard, same_entry, protected_check, checked, check_with, check, noted,
  after, mkdir, own, checkpoint, adopt_entry, adopt, step_files, command_complete, Action, hook,
  enter, make, write, boundary, complete, act, run,
}

same_entry-eq :
    (o : Option (Option String)) (h : Option String) → same_entry o h ≡ true → o ≡ some h
unfolding same_entry
same_entry-eq none h e = cc
same_entry-eq (some none) none e = refl
same_entry-eq (some none) (some d) e = cc
same_entry-eq (some (some c)) none e = cc
same_entry-eq (some (some c)) (some d) e =
    ap (λ (x : String). some (some x)) ((string_eq.beq_iff c d).0 e)

protected-get :
    (actual hashes : Inventory) (p : Relative) (h : Option String)
    → for_each (protected_check [] actual) hashes ≡ ok tt
    → Dict.get p hashes ≡ some h
    → Dict.get p actual ≡ some h
unfolding for_each protected_check Dict.get
protected-get actual [] p h all e = cc
protected-get actual ((name, checksum) ∷ hashes) p h all e =
    let (here, rest) = >>-eq-ok (need (same_entry (Dict.get name actual) checksum) _) _ all in
    let same = same_entry-eq (Dict.get name actual) checksum (need-eq-ok _ _ here) in
    elim (Bool-cases (name == p)) [
      | inl eq ↦
          let it : some checksum ≡ some h = rw eq at e in
          let path = (list_beq_iff name p).0 eq in rw (← path) (same ∙ it)
      | inr other ↦ protected-get actual hashes p h rest (rw other at e)
    ]

-- A check passes and changes nothing, or raises and leaves an error.
abbrev Passed : Guard → Check → Guard × Check → Type 0
Passed g outcome c = (g.error ≡ none) × (outcome ≡ ok tt) × (c ≡ (g, ok tt))

abbrev Raised : Guard × Check → Type 0
Raised c = (g : Guard) × (m : String) × (n : String) × (c ≡ (g, err m)) × (g.error ≡ some n)

noted-cases :
    (r : Check) (g : Guard) → g.error ≡ none → Passed g r (noted r g, r) ⊎ Raised (noted r g, r)
noted-cases (ok u) g e = inl (e, refl, refl)
noted-cases (err m) g e = inr (record g { error = some m }, m, m, refl, refl)

module _ (validate_paths : Relative → World → Check) where
  check_with-cases :
      (writing : List Relative) (w : World) (g : Guard) (e : Option String)
      → g.error ≡ e
      → Passed g (checked validate_paths writing w g) (check_with validate_paths writing w g e)
        ⊎ Raised (check_with validate_paths writing w g e)
  unfolding check_with
  check_with-cases writing w g none e = noted-cases (checked validate_paths writing w g) g e
  check_with-cases writing w g (some m) e = inr (g, m, m, refl, e)

  -- An operation that leaves no error had a check that passed, and did what follows it.
  after-ok :
      (writing : List Relative) (w : World) (g : Guard) (next : Guard → World × Guard)
      → (after (check validate_paths writing w g) w next).1.error ≡ none
      → Passed g (checked validate_paths writing w g) (check validate_paths writing w g)
        × (after (check validate_paths writing w g) w next ≡ next g)
  unfolding after check
  after-ok writing w g next h = elim (check_with-cases writing w g g.error refl) [
    | inl passed ↦ (passed, rw (passed.2) refl)
    | inr (g', m, n, e, f) ↦ let h' : g'.error ≡ none = rw e at h in cc
  ]

  checked-get :
      (w : World) (g : Guard) (p : Relative) (h : Option String)
      → checked validate_paths [] w g ≡ ok tt
      → Dict.get p g.hashes ≡ some h
      → Dict.get p w.files ≡ some h
  unfolding checked
  checked-get w g p h c e = ground (arith, protected-get w.files g.hashes p h)

  adopt_entry-kept :
      (path p : Relative) (h : Option String) (o : Option (Option String)) (hashes : Inventory)
      → is_some (Dict.get path hashes) ≡ false
      → Dict.get p hashes ≡ some h
      → Dict.get p (adopt_entry path o hashes) ≡ some h
  unfolding adopt_entry
  adopt_entry-kept path p h none hashes f q = q
  adopt_entry-kept path p h (some x) hashes f q =
      ground (arith, get-put path p x hashes, list_beq_iff path p)

  adopt-kept :
      (paths : List Relative) (w : World) (g : Guard) (p : Relative) (h : Option String)
      → (adopt paths w g).error ≡ none
      → (g.error ≡ none)
        × (Dict.get p g.hashes ≡ some h → Dict.get p (adopt paths w g).hashes ≡ some h)
  unfolding adopt
  adopt-kept [] w g p h e = (e, λ q. q)
  adopt-kept (path ∷ paths) w g p h e =
      let entry = adopt_entry path (Dict.get path w.files) g.hashes in
      elim (Bool-cases (is_some (Dict.get path g.hashes))) [
        | inl twice ↦ let e' = rw twice at e in cc
        | inr first ↦
            let (clean, rest) =
              adopt-kept paths w (record g { hashes = entry }) p h (rw first at e) in
            (
              clean,
              λ q.
                  rw first
                    (rest (adopt_entry-kept path p h (Dict.get path w.files) g.hashes first q)),
            )
      ]

make_next : Relative → World → Guard → World × Guard
make_next path w g = if is_some (Dict.get path w.files) then (w, g) else (
  record w { files = Dict.put path none w.files },
  record g { hashes = Dict.put path none g.hashes },
)

-- The collector itself rewrites the path.
unfoldable pub rewrites : Action → Relative → Bool
rewrites (write path value) p = path == p
rewrites _ p = false

make-kept :
    (path : Relative) (w : World) (g : Guard) (p : Relative) (h : Option String)
    → Dict.get p w.files ≡ some h
    → Dict.get p g.hashes ≡ some h
    → Dict.get p (make_next path w g).1.hashes ≡ some h
unfolding make_next
make-kept path w g p h disk q = ground (arith, get-put path p none g.hashes, list_beq_iff path p)

module _ (validate_paths : Relative → World → Check) (p : Relative) (h : Option String) where
  -- An action that leaves no error keeps what is recorded of a path, unless it rewrites the path.
  act-kept :
      (a : Action) (w : World) (g : Guard)
      → (act validate_paths a (w, g)).1.error ≡ none
      → rewrites a p ≡ false
      → (g.error ≡ none)
        × (Dict.get p g.hashes ≡ some h
            → Dict.get p (act validate_paths a (w, g)).1.hashes ≡ some h)
  unfolding act rewrites make_next mkdir own checkpoint command_complete
  act-kept (hook w') w g e r = (e, λ q. q)
  act-kept (enter d) w g e r = (e, λ q. q)
  act-kept (make path) w g e r =
      let ((clean, passed, _), same) = after-ok validate_paths [] w g _ e in
      (clean, λ q. rw same (make-kept path w g p h (checked-get validate_paths w g p h passed q) q))
  act-kept (write path value) w g e r =
      let ((clean, _, _), same) = after-ok validate_paths [] w g _ e in
      (clean, λ q. rw same (get-put path p (some value) g.hashes ∙ rw r q))
  act-kept boundary w g e r =
      let ((clean, passed, _), same) = after-ok validate_paths [] w g _ e in
      (clean, λ q. rw same (checked-get validate_paths w g p h passed q))
  act-kept (complete d step) w g e r =
      let ((clean, _, _), same) = after-ok validate_paths (step_files d step) w g _ e in
      let (_, keep) = adopt-kept validate_paths (step_files d step) w g p h (rw same at e) in
      (clean, λ q. rw same (keep q))

  run-kept :
      (actions : List Action) (w : World) (g : Guard)
      → (run validate_paths actions (w, g)).1.error ≡ none
      → any (λ a. rewrites a p) actions ≡ false
      → (g.error ≡ none)
        × (Dict.get p g.hashes ≡ some h
            → Dict.get p (run validate_paths actions (w, g)).1.hashes ≡ some h)
  unfolding run
  run-kept [] w g e r = (e, λ q. q)
  run-kept (a ∷ actions) w g e r =
      let (first, others) = or-false (rewrites a p) (any (λ a. rewrites a p) actions) r in
      let (w', g') = act validate_paths a (w, g) in
      let (clean, later) = run-kept actions w' g' e others in
      let (start, now) = act-kept a w g clean first in (start, λ q. later (now q))

  -- Whatever hooks do to the directory in between, when a check passes at the end, a path that the
  -- guard had recorded, and that the collector did not rewrite since, has the recorded digest.
  pub check-append_only :
      (actions : List Action) (w : World) (g : Guard)
      → (let (w', g') = run validate_paths actions (w, g) in
          (check validate_paths [] w' g').1 ≡ ok tt)
      → any (λ a. rewrites a p) actions ≡ false
      → Dict.get p g.hashes ≡ some h
      → Dict.get p (run validate_paths actions (w, g)).0.files ≡ some h
  unfolding check
  check-append_only actions w g c r q =
      let (w', g') = run validate_paths actions (w, g) in
      elim (check_with-cases validate_paths [] w' g' g'.error refl) [
        | inl (clean, passed, _) ↦
            checked-get validate_paths w' g' p h passed ((run-kept actions w g clean r).1 q)
        | inr (_, m, n, e, f) ↦ let c' = rw e at c in cc
      ]

module _ (validate_paths : Relative → World → Check) (m : String) where
  check-stopped :
      (writing : List Relative) (w : World) (g : Guard)
      → g.error ≡ some m
      → check validate_paths writing w g ≡ (g, err m)
  unfolding check check_with
  check-stopped writing w g e = rw e refl

  act-stopped :
      (a : Action) (w : World) (g : Guard)
      → g.error ≡ some m
      → ((act validate_paths a (w, g)).1.error ≡ some m)
        × ((act validate_paths a (w, g)).1.hashes ≡ g.hashes)
  unfolding act mkdir own checkpoint command_complete after
  act-stopped (hook w') w g e = (e, refl)
  act-stopped (enter d) w g e = (e, refl)
  act-stopped (make path) w g e = rw (check-stopped [] w g e) (e, refl)
  act-stopped (write path value) w g e = rw (check-stopped [] w g e) (e, refl)
  act-stopped boundary w g e = rw (check-stopped [] w g e) (e, refl)
  act-stopped (complete d step) w g e = rw (check-stopped (step_files d step) w g e) (e, refl)

  -- An error of the guard is final: after it, no operation records anything or clears it, and every
  -- check raises it.
  pub run-stopped :
      (actions : List Action) (w : World) (g : Guard)
      → g.error ≡ some m
      → ((run validate_paths actions (w, g)).1.error ≡ some m)
        × ((run validate_paths actions (w, g)).1.hashes ≡ g.hashes)
        × ((writing : List Relative) (w' : World)
            → (check validate_paths writing w' (run validate_paths actions (w, g)).1).1 ≡ err m)
  unfolding run
  run-stopped [] w g e = (e, refl, λ writing w'. ap (λ c. c.1) (check-stopped writing w' g e))
  run-stopped (a ∷ actions) w g e =
      let (w', g') = act validate_paths a (w, g) in
      let (e', same) = act-stopped a w g e in
      let (last, kept, raises) = run-stopped actions w' g' e' in (last, kept ∙ same, raises)
