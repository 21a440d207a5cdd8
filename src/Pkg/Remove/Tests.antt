-- ===== src/Pkg/Remove/Tests.antt =====
-- Runs of a removal.
use vakt_os.Base.{
  ◌≡◌, ◌≢◌, ◌⊎◌, refl, Bool, true, false, [], ◌∷◌, none, some, Text, text, text_eq, lookup,
  contains, ok, err, All, if◌then◌else◌, ◌==◌,
}
use vakt_os.Pkg.Paths.{RelPath, path_eq, escapes, absolute, is_root, safe_target, components}
use vakt_os.Pkg.Paths.Plain.{IsPlain, GoesDown, names_of, safe_target-IsPlain}
use vakt_os.Pkg.Remove.{
  file, dir, Fs, Database, InstalledPackage, Removal, required_by, record_path, remove_package,
}
use vakt_os.Pkg.Remove.Kept.Passes.{targets_of}
use vakt_os.Pkg.Remove.Whole.{
  remove_package-Removes, remove_package-untouched, remove_package_succeeds,
}
use vakt_os.Pkg.Remove.Record.{Removes}
use vakt_os.Pkg.Remove.Gone.{remove_package-gone}

test_up : safe_target (text "usr/../../etc/passwd") ≡ err escapes
unfolding safe_target
test_up = refl

test_absolute : safe_target (text "/etc/passwd") ≡ err absolute
unfolding safe_target
test_absolute = refl

test_root : safe_target (text "./") ≡ err is_root
unfolding safe_target
test_root = refl

abbrev tool_text : Text
tool_text = text "./usr//bin/tool"

abbrev tool_path : RelPath
tool_path = text "usr" ∷ text "bin" ∷ text "tool" ∷ []

test_tool : safe_target tool_text ≡ ok tool_path
unfolding safe_target
test_tool = refl

safe_target-IsPlain_example :
    (tool_path ≡ names_of (components tool_text))
    × (tool_path ≢ [])
    × All IsPlain tool_path
    × All GoesDown (components tool_text)
safe_target-IsPlain_example = safe_target-IsPlain tool_text tool_path test_tool

abbrev tool : InstalledPackage
tool = record {
  name = text "tool";
  version = text "1";
  dependencies = [];
  files = text "usr" ∷ tool_text ∷ [];
  installed_at = 0;
}

abbrev user : InstalledPackage
user = record {
  name = text "user";
  version = text "1";
  dependencies = text "tool" ∷ [];
  files = [];
  installed_at = 0;
}

abbrev alone : Database
alone = (text "tool", tool) ∷ []

abbrev both : Database
both = (text "tool", tool) ∷ (text "user", user) ∷ []

abbrev fs : Fs
fs =
    (text "usr" ∷ [], dir)
    ∷ (text "usr" ∷ text "bin" ∷ [], dir)
    ∷ (tool_path, file)
    ∷ (text "usr" ∷ text "lib" ∷ [], file)
    ∷ (record_path (text "tool"), file)
    ∷ []

abbrev left : Fs
left = (text "usr" ∷ [], dir) ∷ (text "usr" ∷ text "lib" ∷ [], file) ∷ []

abbrev done : Removal
done = record { files = 1; directories = 1; missing = 0; refused = [] }

abbrev free : RelPath → Bool
free p = false

test_removal : (remove_package free false (text "tool") false alone fs).result ≡ ok done
unfolding remove_package safe_target
test_removal = refl

test_left : (remove_package free false (text "tool") false alone fs).fs ≡ left
unfolding remove_package safe_target
test_left = refl

test_needed :
    (remove_package free false (text "tool") false both fs).result
    ≡ err (required_by (text "user" ∷ []))
unfolding remove_package
test_needed = refl

remove_package-Removes_example :
    Removes
      (targets_of tool.files)
      (text "tool")
      fs
      (remove_package free false (text "tool") false alone fs)
remove_package-Removes_example =
    remove_package-Removes free false false (text "tool") alone fs tool refl

remove_package-untouched_example :
    ((remove_package free false (text "tool") false both fs).fs ≡ fs)
    × ((remove_package free false (text "tool") false both fs).db ≡ both)
remove_package-untouched_example =
    remove_package-untouched free false false (text "tool") both fs (required_by (text "user" ∷ []))
      test_needed (λ e. cc)

remove_package_succeeds_example :
    ((n : Text)
      → lookup n (remove_package free false (text "tool") false alone fs).db
        ≡ (if text "tool" == n then none else lookup n alone))
    × ((false ≡ true)
        ⊎ ((n : Text) (q : InstalledPackage)
            → lookup n alone ≡ some q
            → contains q.dependencies (text "tool") ≡ false))
remove_package_succeeds_example =
    remove_package_succeeds free false false (text "tool") alone fs done test_removal

remove_package-gone_example :
    lookup tool_path (remove_package free false (text "tool") false alone fs).fs ≡ none
remove_package-gone_example =
    remove_package-gone free tool_text tool_path test_tool refl refl false false (text "tool") alone
      fs tool done refl test_removal refl refl
