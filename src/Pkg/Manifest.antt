-- ===== src/Pkg/Manifest.antt =====
-- pkg-manager/src/manifest.rs: what a repository publishes beside each archive.
use vakt_os.Base.{List, Text, Map}

pub record PackageManifest : Type 0 where
  pub name : Text
  pub version : Text
  pub description : Text
  pub dependencies : List Text
  pub signature : Text

-- The manifests collected so far, by the name that each was asked for.
abbrev pub Manifests : Type 0
Manifests = Map Text PackageManifest
