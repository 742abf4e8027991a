-- ===== src/Harness/Original.antt =====
-- What a validated list of evidence hashes shows of the files it names.
use weavegate.Prelude.{
  not-true, ℕ, String, true, false, not, Option, none, some, List, [], ◌∷◌, ◌≡◌, ◌≢◌, refl, sym, ap,
  ◌∙◌, arith, string_eq, nat_eq, list_eq,
}
use weavegate.Prelude.Result.{ok, ◌>>◌, need, >>=-eq-ok, need-eq-ok}
use weavegate.Prelude.Text.{Text}
use weavegate.Harness.Hashes.{
  Parts, Files, child, owned_names, same_file, is_owned, is_owned_path, entry_valid, entries_valid,
  hashes_valid,
}
use mathlib.Core.List.{Memᴰ}
use mathlib.Core.List.Memᴰ.{head, tail}

-- An entry names a file of the arm that is unchanged and is none of the collector's own.
pub record Original (files : Files) (entry : Text × Option String) : Type 0 where
  pub path : Parts
  pub inside : child files entry.0 ≡ ok path
  pub identity : ℕ × ℕ
  pub exists : files.identity path ≡ some identity
  pub unchanged : entry.1 ≡ some (files.digest path)
  pub not_owned : is_owned_path path ≡ false
  pub no_alias : (name : Text) → Memᴰ name owned_names → files.identity (name ∷ []) ≢ some identity

pub same_file_refl : (i : ℕ × ℕ) → same_file (some i) i ≡ true
unfolding same_file
same_file_refl (dev, ino) = ground (arith, nat_eq.beq_iff dev dev, nat_eq.beq_iff ino ino)

module _ (files : Files) where
  is_owned-mem :
      (names : List Text) (i : ℕ × ℕ) (name : Text)
      → Memᴰ name names
      → files.identity (name ∷ []) ≡ some i
      → is_owned files names i ≡ true
  unfolding is_owned
  is_owned-mem [] i name m e = elim m [ ]
  is_owned-mem (n ∷ names) i name (head p) e =
      let same : same_file (files.identity (n ∷ [])) i ≡ true =
        ap (λ o. same_file o i) (ap (λ (t : Text). files.identity (t ∷ [])) (sym p) ∙ e)
        ∙ same_file_refl i in
      ground (arith, same)
  is_owned-mem (n ∷ names) i name (tail m) e =
      let rest = is_owned-mem names i name m e in ground (arith, rest)

  entry-parts :
      (path : Parts) (expected : Option String) (o : Option (ℕ × ℕ))
      → entry_valid files path expected o ≡ ok tt
      → (i : ℕ × ℕ) × (o ≡ some i)
        × (is_owned files owned_names i ≡ false)
        × (expected ≡ some (files.digest path))
  unfolding entry_valid
  entry-parts path expected none h = cc
  entry-parts path none (some i) h =
      let (_, _, last) = >>=-eq-ok (need (not (is_owned files owned_names i)) _) _ h in cc
  entry-parts path (some d) (some i) h =
      let (_, owned, last) = >>=-eq-ok (need (not (is_owned files owned_names i)) _) _ h in
      let same = (string_eq.beq_iff (files.digest path) d).0 (need-eq-ok _ _ last) in
      (i, refl, not-true _ (need-eq-ok _ _ owned), ap some (sym same))

  first :
      (name : Text) (expected : Option String) (more : List (Text × Option String))
      → entries_valid files ((name, expected) ∷ more) ≡ ok tt
      → Original files (name, expected) × (entries_valid files more ≡ ok tt)
  unfolding entries_valid
  first name expected more h =
      let (path, inside, h1) = >>=-eq-ok (child files name) _ h in
      let (_, h2, last) =
        >>=-eq-ok
          (need (not (is_owned_path path)) _
            >> entry_valid files path expected (files.identity path))
          _ h1 in
      let (_, own, entry) = >>=-eq-ok (need (not (is_owned_path path)) _) _ h2 in
      let (i, exists, owned, same) = entry-parts path expected (files.identity path) entry in
      (
        record {
          path = path;
          inside = inside;
          identity = i;
          exists = exists;
          unchanged = same;
          not_owned = not-true _ (need-eq-ok _ _ own);
          no_alias = λ n m e. let o = is_owned-mem owned_names i n m e in cc;
        },
        last,
      )

  all_entries :
      (evidence : List (Text × Option String)) (entry : Text × Option String)
      → entries_valid files evidence ≡ ok tt
      → Memᴰ entry evidence
      → Original files entry
  all_entries [] entry h m = elim m [ ]
  all_entries ((name, expected) ∷ more) entry h (head p) = rw p ((first name expected more h).0)
  all_entries ((name, expected) ∷ more) entry h (tail m) =
      all_entries more entry ((first name expected more h).1) m

  -- Evidence that is validated names something; and each entry names, by a path that `child` lets
  -- through, a file that exists, whose digest is the recorded one, and that is neither one of the
  -- collector's own files nor another name of one of them.
  pub hashes_valid-Original :
      (evidence : List (Text × Option String))
      → hashes_valid files evidence ≡ ok tt
      → (evidence ≢ [])
        × ((entry : Text × Option String) → Memᴰ entry evidence → Original files entry)
  unfolding hashes_valid
  hashes_valid-Original [] h = cc
  hashes_valid-Original (e ∷ evidence) h =
      (λ p. cc, λ entry m. all_entries (e ∷ evidence) entry h m)
