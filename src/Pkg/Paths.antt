-- ===== src/Pkg/Paths.antt =====
-- pkg-manager/src/remove.rs, `safe_relative` and `safe_target`, with `Path::components` of the standard
-- library. A path below the install root is the list of its names.
pub mod Plain
use vakt_os.Base.{
  ℕ, Bool, true, false, ◌&&◌, List, [], ◌∷◌, ◌++◌, Text, Eq, text_eq, ◌==◌, Result, ok, err, ◌>>=◌,
  text, if◌then◌else◌, nat_beq, ◌≡◌, ◌↔◌, arith,
}

pub data Component : Type 0 where
  root_dir cur_dir parent_dir : Component
  normal : Text → Component

abbrev pub RelPath : Type 0
RelPath = List Text

abbrev pub path_beq : RelPath → RelPath → Bool
path_beq [] [] = true
path_beq (x ∷ p) (y ∷ q) = x == y && path_beq p q
path_beq _ _ = false

pub path_beq_iff : (p q : RelPath) → (path_beq p q ≡ true) ↔ (p ≡ q)
path_beq_iff [] [] = ground arith
path_beq_iff (x ∷ p) (y ∷ q) = ground (arith, path_beq_iff p q, text_eq.beq_iff x y)
path_beq_iff _ _ = ground arith

instance abbrev pub path_eq : Eq RelPath
path_eq = record { beq = path_beq; beq_iff = path_beq_iff }

-- `q.starts_with(p)`, name by name.
abbrev pub is_above : RelPath → RelPath → Bool
is_above [] q = true
is_above (x ∷ p) [] = false
is_above (x ∷ p) (y ∷ q) = x == y && is_above p q

pub data PathError : Type 0 where
  escapes absolute is_root : PathError

-- The pieces between the slashes; `name` has been read of the current one.
unfoldable pub pieces : Text → Text → List Text
pieces name [] = name ∷ []
pieces name (c ∷ cs) = elim (nat_beq c b'/') [
  | true ↦ name ∷ pieces [] cs
  | false ↦ pieces (name ++ c ∷ []) cs
]

-- Empty pieces and `.` count for nothing behind the first piece.
pub component : Text → List Component
component name =
    if name == []
    then []
    else if name == text "."
    then []
    else if name == text ".."
    then parent_dir ∷ []
    else normal name ∷ []

unfoldable pub components_of : List Text → List Component
unfolding component
components_of [] = []
components_of (name ∷ names) = component name ++ components_of names

-- At the front, `.` is kept.
pub front : Text → List Text → List Component
unfolding components_of
front name names =
    if name == text "." then cur_dir ∷ components_of names else components_of (name ∷ names)

-- An empty piece at the front is the root if a slash follows it.
unfoldable pub first : List Text → List Component
unfolding front components_of
first [] = []
first ([] ∷ []) = []
first ([] ∷ name ∷ names) = root_dir ∷ components_of (name ∷ names)
first ((c ∷ cs) ∷ names) = front (c ∷ cs) names

unfoldable pub components : Text → List Component
unfolding first pieces
components t = first (pieces [] t)

-- The loop of `safe_relative`.
unfoldable pub push_components : RelPath → List Component → Result PathError RelPath
push_components relative [] = ok relative
push_components relative (normal part ∷ rest) = push_components (relative ++ part ∷ []) rest
push_components relative (cur_dir ∷ rest) = push_components relative rest
push_components relative (parent_dir ∷ rest) = err escapes
push_components relative (root_dir ∷ rest) = err absolute

unfoldable pub safe_relative : Text → Result PathError RelPath
unfolding push_components components
safe_relative recorded = push_components [] (components recorded)

abbrev pub non_root : RelPath → Result PathError RelPath
non_root [] = err is_root
non_root (name ∷ names) = ok (name ∷ names)

-- `safe_target`, without the install root in front.
unfoldable pub safe_target : Text → Result PathError RelPath
unfolding safe_relative
safe_target recorded = do relative ← safe_relative recorded; non_root relative
