-- ===== src/Pkg/Config/RoundTrip.antt =====
-- What pkg-manager/src/config.rs reads of the file that it writes.
use vakt_os.Base.{
  ◌≡◌, ◌≢◌, refl, ◌∙◌, ap, [], ◌∷◌, ◌++◌, Option, none, some, Text, text, text_eq, nat_eq, trim,
  trim_end_matches, is_whitespace, lines, lines_from, assignment, assignment-line_of, lines-file_of,
  line_of, IsKey, IsValue, trim-IsValue, ok,
}
use vakt_os.Pkg.Config.{
  persistent_conf, fallback_conf, from_file, is_slash, check_url, normalise, pick, parse_lines,
  parse, found_in, from_raw, in_file, ◌or_else◌, or_built_in, load_from, heading, render,
}
use vakt_os.Pkg.Config.Url.{check_url-IsUrl, normalise-IsNormal}

repo_url-IsKey : IsKey (text "repo_url")
unfolding is_whitespace
repo_url-IsKey = record {
  value = record { filled = λ e. cc; starts = refl; ends = refl; single = refl };
  plain = refl;
  no_comment = refl;
}

pick_url :
    (u : Text) (later : Option Text) → u ≢ [] → pick (some (text "repo_url", u)) later ≡ some u
pick_url [] later h = absurd (h refl)
pick_url (c ∷ cs) later h = refl

parse_line : (u : Text) → IsValue u → parse_lines (line_of (text "repo_url", u) ∷ []) ≡ some u
unfolding parse_lines
parse_line u v =
    ap (λ o. pick o none)
      (assignment-line_of (text "repo_url") u (record { key = repo_url-IsKey; value = v }))
    ∙ pick_url u none v.filled

skip_heading : (rest : Text) → parse (heading ++ rest) ≡ parse rest
unfolding parse parse_lines lines lines_from assignment trim
skip_heading rest = refl

parse-render : (u : Text) → IsValue u → parse (render u) ≡ some u
unfolding render parse
parse-render u v =
    skip_heading (text "repo_url=" ++ (u ++ b'\n' ∷ []))
    ∙ ap parse_lines
        (lines-file_of ((text "repo_url", u) ∷ []) (record { key = repo_url-IsKey; value = v }, tt))
    ∙ parse_line u v

-- A URL that `normalise` has given, and that a line can carry, is normal.
normalise-twice : (raw u : Text) → normalise raw ≡ ok u → IsValue u → normalise u ≡ ok u
unfolding normalise
normalise-twice raw u h v =
    let (same, is_url) = check_url-IsUrl (trim_end_matches is_slash (trim raw)) u h in
    ap (λ t. check_url (trim_end_matches is_slash t)) (trim-IsValue u v)
    ∙ ap check_url ((normalise-IsNormal raw u h).trimmed ∙ same)
    ∙ h

-- A URL that `normalise` gives, that is not empty, has no blank at either end and no newline, and that is written to the
-- persistent file as `render` writes it, is the one that `load_from` settles on, and it says so: unless the
-- environment overrides it, whatever the image's own file holds.
pub load_from-render :
    (raw u : Text) (fallback : Option Text)
    → normalise raw ≡ ok u
    → IsValue u
    → load_from none (some (render u)) fallback
      ≡ record { repo_url = u; source = from_file persistent_conf }
unfolding load_from
load_from-render raw u fallback h v =
    ap
      (λ o.
        or_built_in (from_raw (from_file persistent_conf) o or_else in_file fallback_conf fallback))
      (parse-render u v)
    ∙ ap
        (λ r.
          or_built_in
            (found_in (from_file persistent_conf) r or_else in_file fallback_conf fallback))
        (normalise-twice raw u h v)
