-- ===== src/Pkg/Config/Url.antt =====
-- Which URLs pkg-manager/src/config.rs settles on.
use vakt_os.Base.{
  ℕ, ◌≡◌, ◌≢◌, ◌⊎◌, inl, inr, refl, sym, subst, ◌∙◌, ap, Bool, true, false, [], ◌∷◌, Option, none,
  some, Bool-cases, Text, text, text_eq, nat_eq, eq_of_beq, keep_front_lem, ◌==◌, arith, trim,
  trim_end_matches, keep_front, to_ascii_lowercase, Result, ok, err,
}
use vakt_os.Pkg.Config.{
  Candidate, persistent_conf, fallback_conf, Source, environment, from_file, Config, UrlError,
  default_repo_url, is_slash, split_scheme, known, checked, check_url, normalise, parse, found_in,
  from_raw, in_file, ◌or_else◌, or_built_in, load_from,
}

-- A URL that can be fetched from: http or https, and something behind it.
pub record IsUrl (url : Text) : Type 0 where
  pub scheme : Text
  pub rest : Text
  pub splits : split_scheme url ≡ some (scheme, rest)
  pub filled : rest ≢ []
  pub fetched :
      (to_ascii_lowercase scheme ≡ text "http") ⊎ (to_ascii_lowercase scheme ≡ text "https")

known-eq-ok :
    (scheme url u : Text)
    → known scheme url ≡ ok u
    → (u ≡ url) × ((scheme ≡ text "http") ⊎ (scheme ≡ text "https"))
known-eq-ok scheme url u h = elim (Bool-cases (scheme == text "http")) [
  | inl http ↦ (ground arith, inl (eq_of_beq {a = scheme} {b = text "http"} http))
  | inr other ↦ elim (Bool-cases (scheme == text "https")) [
    | inl https ↦ (ground arith, inr (eq_of_beq {a = scheme} {b = text "https"} https))
    | inr neither ↦ absurd (ground arith)
  ]
]

keep_front-twice :
    (p : ℕ → Bool) (b : Bool) (c : ℕ) (r : Text)
    → p c ≡ b
    → trim_end_matches p r ≡ r
    → trim_end_matches p (keep_front b c r) ≡ keep_front b c r
unfolding trim_end_matches
keep_front-twice p true c [] h ih = refl
keep_front-twice p true c (d ∷ r) h ih = ap (keep_front (p c) c) ih ∙ keep_front_lem (p c) c d r
keep_front-twice p false c r h ih = ap (keep_front (p c) c) ih ∙ ap (λ b. keep_front b c r) h

-- Matching characters that are gone stay gone.
trim_end-twice :
    (p : ℕ → Bool) (t : Text) → trim_end_matches p (trim_end_matches p t) ≡ trim_end_matches p t
unfolding trim_end_matches
trim_end-twice p [] = refl
trim_end-twice p (c ∷ cs) =
    keep_front-twice p (p c) c (trim_end_matches p cs) refl (trim_end-twice p cs)

checked-IsUrl :
    (o : Option (Text × Text)) (url u : Text)
    → split_scheme url ≡ o
    → checked o url ≡ ok u
    → (u ≡ url) × IsUrl url
checked-IsUrl none url u s h = absurd (cc)
checked-IsUrl (some (scheme, [])) url u s h = absurd (cc)
checked-IsUrl (some (scheme, c ∷ cs)) url u s h =
    let (same, fetched) = known-eq-ok (to_ascii_lowercase scheme) url u h in
    (
      same,
      record { scheme = scheme; rest = c ∷ cs; splits = s; filled = λ e. cc; fetched = fetched },
    )

pub check_url-IsUrl : (url u : Text) → check_url url ≡ ok u → (u ≡ url) × IsUrl url
unfolding check_url
check_url-IsUrl [] u h = absurd (cc)
check_url-IsUrl (c ∷ cs) u h = checked-IsUrl (split_scheme (c ∷ cs)) (c ∷ cs) u refl h

-- What `normalise` accepts is a URL, without a slash at its end.
pub record IsNormal (url : Text) : Type 0 where
  pub is_url : IsUrl url
  pub trimmed : trim_end_matches is_slash url ≡ url

pub normalise-IsNormal : (raw u : Text) → normalise raw ≡ ok u → IsNormal u
unfolding normalise
normalise-IsNormal raw u h =
    let (same, is_url) = check_url-IsUrl (trim_end_matches is_slash (trim raw)) u h in
    record {
      is_url = subst IsUrl {x = trim_end_matches is_slash (trim raw)} {y = u} (sym same) is_url;
      trimmed = ap (trim_end_matches is_slash) same ∙ trim_end-twice is_slash (trim raw) ∙ sym same;
    }

default-IsNormal : IsNormal default_repo_url
unfolding split_scheme trim_end_matches
default-IsNormal = record {
  is_url = record {
    scheme = text "http";
    rest = text "10.0.2.2:8080";
    splits = refl;
    filled = λ e. cc;
    fetched = inl refl;
  };
  trimmed = refl;
}

abbrev AllNormal : Option Config → Type 0
AllNormal none = Unit
AllNormal (some c) = IsNormal c.repo_url

found_in-AllNormal :
    (source : Source) (raw : Text) (r : Result UrlError Text)
    → normalise raw ≡ r
    → AllNormal (found_in source r)
found_in-AllNormal source raw (ok u) h = normalise-IsNormal raw u h
found_in-AllNormal source raw (err e) h = tt

from_raw-AllNormal : (source : Source) (o : Option Text) → AllNormal (from_raw source o)
from_raw-AllNormal source none = tt
from_raw-AllNormal source (some raw) = found_in-AllNormal source raw (normalise raw) refl

in_file-AllNormal : (c : Candidate) (o : Option Text) → AllNormal (in_file c o)
in_file-AllNormal c none = tt
in_file-AllNormal c (some contents) = from_raw-AllNormal (from_file c) (parse contents)

or_else-AllNormal : (a b : Option Config) → AllNormal a → AllNormal b → AllNormal (a or_else b)
or_else-AllNormal none b h k = k
or_else-AllNormal (some c) b h k = h

or_built_in-IsNormal : (o : Option Config) → AllNormal o → IsNormal (or_built_in o).repo_url
or_built_in-IsNormal none h = default-IsNormal
or_built_in-IsNormal (some c) h = h

-- Whatever the environment and the two files hold, the repository that `load_from` settles on is an http or https
-- URL with something behind `://`, and it does not end in a slash.
pub load_from-IsNormal :
    (env persistent fallback : Option Text) → IsNormal (load_from env persistent fallback).repo_url
unfolding load_from
load_from-IsNormal env persistent fallback = or_built_in-IsNormal _ (
    or_else-AllNormal (from_raw environment env) _ (from_raw-AllNormal environment env) (
      or_else-AllNormal (in_file persistent_conf persistent) _
        (in_file-AllNormal persistent_conf persistent) (in_file-AllNormal fallback_conf fallback)))
