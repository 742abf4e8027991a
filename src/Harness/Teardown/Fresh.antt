-- ===== src/Harness/Teardown/Fresh.antt =====
-- What a proven cleanup shows: its evidence was made by it.
use weavegate.Prelude.{
  ℕ, ◌≡◌, ◌≢◌, refl, ap, sym, ◌∙◌, arith, String, Bool, true, false, not, ◌&&◌, ◌||◌, Option, none,
  some, List, [], ◌∷◌, ◌++◌, All-Memᴰ, not-true, or-false, nat_eq, if◌then◌else◌,
}
use weavegate.Prelude.Dict.{Dict}
use weavegate.Prelude.Result.{
  Result, ok, need, for_each, for_each-All, >>=-eq-ok, >>-eq-ok, need-eq-ok,
}
use weavegate.Prelude.Text.{Text, codes}
use weavegate.Harness.Trial.{Receipt, succeeded}
use weavegate.Harness.Hashes.{Parts, Files, child, hashes_valid}
use weavegate.Harness.Original.{Original, hashes_valid-Original, same_file_refl}
use weavegate.Harness.Teardown.{
  CleanupProof, Inputs, control, joined, is_name_of, live_identity, file_identity, input_identities,
  control_identities, holds, added, fresh_file, unaliased, is_nonempty, cleanup_valid,
}
use mathlib.Core.List.{Memᴰ}
use mathlib.Core.List.Memᴰ.{head, tail}

holds-append : (xs ys : List (ℕ × ℕ)) (i : ℕ × ℕ) → holds (xs ++ ys) i ≡ (holds xs i || holds ys i)
unfolding holds
holds-append [] ys i = refl
holds-append (x ∷ xs) ys i = ground (arith, holds-append xs ys i)

holds-live : (o : Option (ℕ × ℕ)) (i : ℕ × ℕ) → o ≡ some i → holds (live_identity o) i ≡ true
unfolding holds live_identity
holds-live none i e = cc
holds-live (some j) i e = let same : j ≡ i = cc in rw same (ground (arith, same_file_refl i))

file_identity-holds :
    (d : String) (o : Option (ℕ × ℕ)) (i : ℕ × ℕ)
    → o ≡ some i
    → holds (file_identity (some d) o) i ≡ true
unfolding file_identity
file_identity-holds d o i e = holds-live o i e

or-right : (a b : Bool) → b ≡ true → (a || b) ≡ true
or-right true b h = refl
or-right false b h = h

module _ (files : Files) where
  -- A file of the inventory that is still there is among the identities.
  input_identities-holds :
      (paths : Dict Text (Option String)) (live : List (ℕ × ℕ)) (name : Text) (d : String)
      (path : Parts) (i : ℕ × ℕ)
      → input_identities files paths ≡ ok live
      → Memᴰ (name, some d) paths
      → child files name ≡ ok path
      → files.identity path ≡ some i
      → holds live i ≡ true
  unfolding input_identities
  input_identities-holds [] live name d path i h m inside there = elim m [ ]
  input_identities-holds ((n, checksum) ∷ paths) live name d path i h (head e) inside there =
      let (p, here, h1) = >>=-eq-ok (child files n) _ h in
      let (rest, others, last) = >>=-eq-ok (input_identities files paths) _ h1 in
      let named : name ≡ n = ap (λ q. q.0) e in
      let digest : some d ≡ checksum = ap (λ q. q.1) e in
      let inside' : child files n ≡ ok path = rw (← named) inside in
      let same : p ≡ path = cc in
      let list : file_identity checksum (files.identity p) ++ rest ≡ live = cc in
      let found : holds (file_identity checksum (files.identity p)) i ≡ true =
        rw (← digest) (rw same (file_identity-holds d (files.identity path) i there)) in
      rw (← list) (
        holds-append (file_identity checksum (files.identity p)) rest i
        ∙ ap (λ b. b || holds rest i) found)
  input_identities-holds ((n, checksum) ∷ paths) live name d path i h (tail m) inside there =
      let (p, here, h1) = >>=-eq-ok (child files n) _ h in
      let (rest, others, last) = >>=-eq-ok (input_identities files paths) _ h1 in
      let found = input_identities-holds paths rest name d path i others m inside there in
      let list : file_identity checksum (files.identity p) ++ rest ≡ live = cc in
      rw (← list)
        (holds-append (file_identity checksum (files.identity p)) rest i ∙ or-right _ _ found)

  control_identities-holds :
      (names : List Text) (name : Text) (i : ℕ × ℕ)
      → Memᴰ name names
      → files.identity (name ∷ []) ≡ some i
      → holds (control_identities files names) i ≡ true
  unfolding control_identities
  control_identities-holds [] name i m e = elim m [ ]
  control_identities-holds (n ∷ names) name i (head q) e =
      let found =
        holds-live (files.identity (n ∷ [])) i
          (ap (λ (t : Text). files.identity (t ∷ [])) (sym q) ∙ e) in
      holds-append (live_identity (files.identity (n ∷ []))) (control_identities files names) i
      ∙ ap (λ b. b || holds (control_identities files names) i) found
  control_identities-holds (n ∷ names) name i (tail m) e =
      holds-append (live_identity (files.identity (n ∷ []))) (control_identities files names) i
      ∙ or-right _ _ (control_identities-holds names name i m e)

recorded-apart :
    (boundary : Bool) (ids : List (ℕ × ℕ)) (i : ℕ × ℕ)
    → holds (if boundary then ids else []) i ≡ false
    → (boundary && holds ids i) ≡ false
recorded-apart true ids i h = h
recorded-apart false ids i h = refl

contradiction : {b : Bool} → b ≡ true → b ≡ false → ⊥
contradiction h k = cc

-- An entry of the proof is an original whose path and whose file are not those of the inventory.
pub record Made (files : Files) (inputs : Inputs) (boundary : Bool) (entry : Text × Option String)
    : Type 0 where
  pub original : Original files entry
  pub unnamed : is_name_of inputs.paths (joined original.path) ≡ false
  pub unrecorded : (boundary && holds inputs.identities original.identity) ≡ false
  pub unaliased :
      (name : Text) (d : String) (path : Parts)
      → Memᴰ (name, some d) inputs.paths
      → child files name ≡ ok path
      → files.identity path ≢ some original.identity
  pub uncontrolled :
      (name : Text) → Memᴰ name control → files.identity (name ∷ []) ≢ some original.identity

module _ (files : Files) (inputs : Inputs) (boundary : Bool) (live : List (ℕ × ℕ))
    (listed : input_identities files inputs.paths ≡ ok live) where
  abbrev identities : List (ℕ × ℕ)
  identities =
      (if boundary then inputs.identities else []) ++ (live ++ control_identities files control)

  added-unnamed :
      (entry : Text × Option String) (o : Original files entry)
      → added files inputs entry ≡ ok tt
      → is_name_of inputs.paths (joined o.path) ≡ false
  unfolding added
  added-unnamed (name, digest) o h =
      let (p, e, h1) = >>=-eq-ok (child files name) _ h in
      let inside = o.inside in
      let same : p ≡ o.path = cc in not-true _ (need-eq-ok _ _ (rw same at h1))

  unaliased-fresh :
      (entry : Text × Option String) (o : Original files entry)
      → unaliased files identities entry ≡ ok tt
      → holds identities o.identity ≡ false
  unfolding unaliased fresh_file
  unaliased-fresh (name, digest) o h =
      let (p, e, h1) = >>=-eq-ok (child files name) _ h in
      let inside = o.inside in
      let same : p ≡ o.path = cc in
      let h2 = rw same at h1 in let h3 = rw (o.exists) at h2 in not-true _ (need-eq-ok _ _ h3)

  entry-Made :
      (entry : Text × Option String)
      → Original files entry
      → added files inputs entry ≡ ok tt
      → unaliased files identities entry ≡ ok tt
      → Made files inputs boundary entry
  entry-Made entry o a u =
      let recorded = if boundary then inputs.identities else [] in
      let controlled = control_identities files control in
      let fresh = unaliased-fresh entry o u in
      let (old, more) =
        or-false _ _ (sym (holds-append recorded (live ++ controlled) o.identity) ∙ fresh) in
      let (gone, own) = or-false _ _ (sym (holds-append live controlled o.identity) ∙ more) in
      record {
        original = o;
        unnamed = added-unnamed entry o a;
        unrecorded = recorded-apart boundary inputs.identities o.identity old;
        unaliased = λ name d path m inside e.
            contradiction
              (input_identities-holds files inputs.paths live name d path o.identity listed m inside
                e)
              gone;
        uncontrolled = λ name m e.
            contradiction (control_identities-holds files control name o.identity m e) own;
      }

  entries-Made :
      (evidence : List (Text × Option String))
      → ((entry : Text × Option String) → Memᴰ entry evidence → Original files entry)
      → for_each (added files inputs) evidence ≡ ok tt
      → for_each (unaliased files identities) evidence ≡ ok tt
      → (entry : Text × Option String) → Memᴰ entry evidence
      → Made files inputs boundary entry
  entries-Made evidence originals a u entry m =
      entry-Made entry (originals entry m)
        (All-Memᴰ _ entry evidence ((for_each-All (added files inputs) evidence).0 a) m)
        (All-Memᴰ _ entry evidence ((for_each-All (unaliased files identities) evidence).0 u) m)

-- A cleanup that is valid: its command succeeded; it left a proof that says so, with evidence; and
-- each entry of the evidence is an unchanged original that the cleanup made: neither its path nor
-- its file was there before, where the inventory of that time names it, records its inode at the
-- boundary of the collection, or it is one of the collector's own files.
pub cleanup_valid-Made :
    (files : Files) (receipt : Result Receipt) (proof : Result CleanupProof)
    (inventory : Result Inputs) (boundary : Bool)
    → cleanup_valid files receipt proof inventory boundary ≡ ok tt
    → (c : Receipt) × (p : CleanupProof) × (inputs : Inputs) × (receipt ≡ ok c)
      × (proof ≡ ok p)
      × (inventory ≡ ok inputs)
      × (succeeded (some c) ≡ true)
      × (p.proven ≡ true)
      × (p.evidence ≢ [])
      × ((entry : Text × Option String) → Memᴰ entry p.evidence → Made files inputs boundary entry)
unfolding cleanup_valid
cleanup_valid-Made files receipt proof inventory boundary h =
    let (c, e1, h1) = >>=-eq-ok receipt _ h in
    let (_, s, h2) = >>=-eq-ok (need (succeeded (some c)) _) _ h1 in
    let (p, e2, h3) = >>=-eq-ok proof _ h2 in
    let (_, proven, h4) = >>=-eq-ok (need p.proven _) _ h3 in
    let (valid, h5) = >>-eq-ok (hashes_valid files p.evidence) _ h4 in
    let (inputs, e3, h6) = >>=-eq-ok inventory _ h5 in
    let (_, _, h7) = >>=-eq-ok (need (is_nonempty inputs.paths) _) _ h6 in
    let (live, listed, h8) = >>=-eq-ok (input_identities files inputs.paths) _ h7 in
    let (_, _, h9) =
      >>=-eq-ok (need (not (is_name_of inputs.paths (codes "cleanup.json"))) _) _ h8 in
    let (a, u) = >>-eq-ok (for_each (added files inputs) p.evidence) _ h9 in
    let (some_evidence, originals) = hashes_valid-Original files p.evidence valid in
    (
      c,
      p,
      inputs,
      e1,
      e2,
      e3,
      need-eq-ok _ _ s,
      need-eq-ok _ _ proven,
      some_evidence,
      entries-Made files inputs boundary live listed p.evidence originals a u,
    )
