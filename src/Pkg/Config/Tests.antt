-- ===== src/Pkg/Config/Tests.antt =====
-- Runs of the repository's configuration.
use vakt_os.Base.{◌≡◌, refl, none, some, Text, text, text_eq, ok, err, IsValue, is_whitespace, trim}
use vakt_os.Pkg.Config.{
  load_from, normalise, check_url, split_scheme, render, from_file, persistent_conf, other_scheme,
}
use vakt_os.Pkg.Config.Url.{IsNormal, load_from-IsNormal}
use vakt_os.Pkg.Config.RoundTrip.{load_from-render}

abbrev mirror : Text
mirror = text "https://packages.example.com"

normalise-mirror : normalise (text " https://packages.example.com/\n") ≡ ok mirror
unfolding normalise check_url split_scheme trim
normalise-mirror = refl

test_scheme : normalise (text "ftp://packages.example.com") ≡ err (other_scheme (text "ftp"))
unfolding normalise check_url split_scheme trim
test_scheme = refl

-- A blank before the last slash stays at the end.
test_blank : normalise (text "http://mirror /") ≡ ok (text "http://mirror ")
unfolding normalise check_url split_scheme trim
test_blank = refl

mirror-IsValue : IsValue mirror
unfolding is_whitespace
mirror-IsValue = record { filled = λ e. cc; starts = refl; ends = refl; single = refl }

load_from-IsNormal_example :
    IsNormal (load_from (some (text "nowhere")) none (some (text "url = HTTP://mirror//"))).repo_url
load_from-IsNormal_example =
    load_from-IsNormal (some (text "nowhere")) none (some (text "url = HTTP://mirror//"))

load_from-render_example :
    load_from none (some (render mirror)) none
    ≡ record { repo_url = mirror; source = from_file persistent_conf }
load_from-render_example =
    load_from-render (text " https://packages.example.com/\n") mirror none normalise-mirror
      mirror-IsValue
