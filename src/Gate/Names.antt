-- ===== src/Gate/Names.antt =====
-- The closed grammars of names and addresses: the regular expressions of actions-gate.py.
use weavegate.Prelude.{
  ℕ, String, Bool, true, false, ◌&&◌, ◌||◌, Option, none, some, [], ◌∷◌, ◌++◌, leb, all, length,
  ◌==◌, string_eq, nat_eq, list_eq, if◌then◌else◌,
}
use weavegate.Prelude.Text.{Text, codes, between}

abbrev is_digit : ℕ → Bool
is_digit c = between b'0' b'9' c

abbrev is_letter : ℕ → Bool
is_letter c = between b'A' b'Z' c || between b'a' b'z' c

is_safe : ℕ → Bool
is_safe c = is_letter c || (is_digit c || (c == b'.' || (c == b'_' || c == b'-')))

abbrev is_nonempty : Text → Bool
is_nonempty [] = false
is_nonempty _ = true

-- `SAFE_NAME.fullmatch`.
unfoldable pub is_safe_name : Text → Bool
unfolding is_safe
is_safe_name t = is_nonempty t && all is_safe t

-- The text before and after the first character `c`.
split_at : ℕ → Text → Option (Text × Text)
split_at c [] = none
split_at c (d ∷ t) = let rest = split_at c t in if d == c then some ([], t) else further d rest
  where
    further : ℕ → Option (Text × Text) → Option (Text × Text)
    further d none = none
    further d (some (before, after)) = some (d ∷ before, after)

-- `REPOSITORY.fullmatch`.
unfoldable pub is_repository : Text → Bool
unfolding split_at is_safe_name
is_repository t = both (split_at b'/' t)
  where
    both : Option (Text × Text) → Bool
    both none = false
    both (some (owner, repository)) = is_safe_name owner && is_safe_name repository

-- `run_id.isascii() and run_id.isdigit()`.
unfoldable pub is_run_id : Text → Bool
is_run_id t = is_nonempty t && all is_digit t

is_number : Text → Bool
is_number t = is_nonempty t && all is_digit t

is_prerelease : Text → Bool
is_prerelease [] = false
is_prerelease (c ∷ t) =
    (is_digit c || is_letter c)
    && all (λ d. is_digit d || (is_letter d || (d == b'.' || d == b'-'))) t

-- The last number of a version, with a pre-release after a hyphen.
is_patch : Text → Bool
unfolding split_at is_number is_prerelease
is_patch t = parts t (split_at b'-' t)
  where
    parts : Text → Option (Text × Text) → Bool
    parts t none = is_number t
    parts t (some (patch, pre)) = is_number patch && is_prerelease pre

-- `VERSION.fullmatch`.
unfoldable pub is_version : Text → Bool
unfolding split_at is_number is_patch
is_version [] = false
is_version (c ∷ t) = c == b'v' && major (split_at b'.' t)
  where
    minor : Option (Text × Text) → Bool
    minor none = false
    minor (some (n, rest)) = is_number n && is_patch rest

    major : Option (Text × Text) → Bool
    major none = false
    major (some (n, rest)) = is_number n && minor (split_at b'.' rest)

-- `urllib.parse.SplitResult`.
pub record Url : Type 0 where
  pub scheme : Text
  pub netloc : Text
  pub path : Text
  pub query : Text
  pub fragment : Text

is_host : Text → Bool
is_host [] = false
is_host (c ∷ t) =
    (is_digit c || is_letter c)
    && all (λ d. is_digit d || (is_letter d || (d == b'.' || d == b'-'))) t

is_port : Text → Bool
is_port t = is_nonempty t && (leb (length t) 5 && all is_digit t)

-- `SERVER_HOST.fullmatch`.
unfoldable pub is_server_host : Text → Bool
unfolding split_at is_host is_port
is_server_host t = parts t (split_at b':' t)
  where
    parts : Text → Option (Text × Text) → Bool
    parts t none = is_host t
    parts t (some (host, port)) = is_host host && is_port port

unfoldable pub is_root_https : Url → Bool
is_root_https u =
    u.scheme == codes "https"
    && (is_server_host u.netloc
        && ((u.path == [] || u.path == codes "/") && (u.query == [] && u.fragment == [])))

-- `server_origin_and_host`, whose two results are both empty where it refuses.
module _ (split_url : String → Option Url) where
  unfoldable pub server_host : String → Text
  server_host value = of_url (split_url value)
    where
      of_url : Option Url → Text
      of_url none = []
      of_url (some u) = if is_root_https u then u.netloc else []

  unfoldable pub server_origin : String → Text
  server_origin value = of_url (split_url value)
    where
      of_url : Option Url → Text
      of_url none = []
      of_url (some u) = if is_root_https u then codes "https://" ++ u.netloc else []
