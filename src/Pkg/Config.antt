-- ===== src/Pkg/Config.antt =====
-- pkg-manager/src/config.rs: where the package repository is.
pub mod Url
pub mod RoundTrip
mod Tests
use vakt_os.Base.{
  ℕ, Bool, true, false, ◌&&◌, ◌||◌, List, [], ◌∷◌, ◌++◌, Option, none, some, Text, text, text_eq,
  ◌==◌, nat_beq, if◌then◌else◌, trim, trim_end_matches, lines, assignment, starts_with, drop,
  to_ascii_lowercase, Result, ok, err,
}

pub data Candidate : Type 0 where
  persistent_conf fallback_conf : Candidate

pub data Source : Type 0 where
  environment : Source
  from_file : Candidate → Source
  built_in : Source

pub record Config : Type 0 where
  pub repo_url : Text
  pub source : Source

pub data UrlError : Type 0 where
  empty_url malformed : UrlError
  other_scheme : Text → UrlError

abbrev pub default_repo_url : Text
default_repo_url = text "http://10.0.2.2:8080"

abbrev pub is_slash : ℕ → Bool
is_slash c = nat_beq c b'/'

abbrev pub prepend : ℕ → Option (Text × Text) → Option (Text × Text)
prepend c none = none
prepend c (some (scheme, rest)) = some (c ∷ scheme, rest)

-- `split_once("://")`
unfoldable pub split_scheme : Text → Option (Text × Text)
split_scheme [] = none
split_scheme (c ∷ cs) =
    let later = split_scheme cs in
    if starts_with (text "://") (c ∷ cs) then some ([], drop 3 (c ∷ cs)) else prepend c later

abbrev pub known : Text → Text → Result UrlError Text
known scheme url =
    if scheme == text "http" || scheme == text "https" then ok url else err (other_scheme scheme)

abbrev pub checked : Option (Text × Text) → Text → Result UrlError Text
checked none url = err malformed
checked (some (scheme, [])) url = err malformed
checked (some (scheme, c ∷ cs)) url = known (to_ascii_lowercase scheme) url

unfoldable pub check_url : Text → Result UrlError Text
check_url [] = err empty_url
check_url (c ∷ cs) = checked (split_scheme (c ∷ cs)) (c ∷ cs)

unfoldable pub normalise : Text → Result UrlError Text
normalise raw = check_url (trim_end_matches is_slash (trim raw))

abbrev pub is_url_key : Text → Bool
is_url_key key = key == text "repo_url" || key == text "repo" || key == text "url"

-- What a line says, or else what the lines behind it say.
abbrev pub pick : Option (Text × Text) → Option Text → Option Text
pick none later = later
pick (some (key, [])) later = later
pick (some (key, c ∷ cs)) later = if is_url_key key then some (c ∷ cs) else later

unfoldable pub parse_lines : List Text → Option Text
parse_lines [] = none
parse_lines (line ∷ rest) = pick (assignment line) (parse_lines rest)

unfoldable pub parse : Text → Option Text
parse contents = parse_lines (lines contents)

abbrev pub found_in : Source → Result UrlError Text → Option Config
found_in source (ok url) = some (record { repo_url = url; source = source })
found_in source (err e) = none

abbrev pub from_raw : Source → Option Text → Option Config
from_raw source none = none
from_raw source (some raw) = found_in source (normalise raw)

abbrev pub in_file : Candidate → Option Text → Option Config
in_file candidate none = none
in_file candidate (some contents) = from_raw (from_file candidate) (parse contents)

infixr 3 ◌or_else◌
abbrev pub ◌or_else◌ : Option Config → Option Config → Option Config
none or_else later = later
some c or_else later = some c

abbrev pub or_built_in : Option Config → Config
or_built_in none = record { repo_url = default_repo_url; source = built_in }
or_built_in (some c) = c

-- `load_from`, with the environment variable and the contents of the two files where they can be read.
unfoldable pub load_from : (env persistent fallback : Option Text) → Config
load_from env persistent fallback = or_built_in (
    from_raw environment env
    or_else in_file persistent_conf persistent
    or_else in_file fallback_conf fallback)

abbrev pub heading : Text
heading =
    text
      "# Vakt OS package repository.\n# Packages are verified against /etc/vakt/trusted.key whatever server\n# they come from, so this setting decides where to fetch, not what to\n# trust.\n"

unfoldable pub render : Text → Text
render repo_url = heading ++ (text "repo_url=" ++ (repo_url ++ b'\n' ∷ []))
