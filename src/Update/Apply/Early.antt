-- ===== src/Update/Apply/Early.antt =====
-- `unpack_safely` of vakt-update/src/main.rs fails before slot B is touched.
use vakt_os.Base.{
  ◌≡◌, refl, Bool, true, false, List, [], ◌∷◌, Option, none, some, Text, text_eq, Bytes, Result, ok,
  err,
}
use vakt_os.Pkg.Paths.{RelPath, path_eq, PathError, safe_relative}
use vakt_os.Update.Action.{Tree, Error, is_early}
use vakt_os.Update.Apply.{
  Tar, Item, unpack_items, unpack_item, unpack_archive, unpacked, then_items,
}

abbrev pub EndsEarly : Tree × Result Error (Unit {0}) → Type 0
EndsEarly (t, ok u) = Unit
EndsEarly (t, err e) = is_early e ≡ true

unpacked-EndsEarly : (t : Tree) (o : Option Bool) → EndsEarly (t, unpacked o)
unpacked-EndsEarly t none = refl
unpacked-EndsEarly t (some true) = tt
unpacked-EndsEarly t (some false) = refl

unpack_item-EndsEarly :
    (tar : Tar) (path : Text) (contents : Bytes) (r : Result PathError RelPath) (t : Tree)
    → EndsEarly (unpack_item tar path contents r t)
unfolding unpack_item
unpack_item-EndsEarly tar path contents (err e) t = refl
unpack_item-EndsEarly tar path contents (ok p) t =
    unpacked-EndsEarly (tar.unpack_in path contents t).0 (tar.unpack_in path contents t).1

then_items-EndsEarly :
    (go : Tree → Tree × Result Error (Unit {0})) (r : Tree × Result Error (Unit {0}))
    → EndsEarly r
    → ((t : Tree) → EndsEarly (go t))
    → EndsEarly (then_items go r)
unfolding then_items
then_items-EndsEarly go (t, ok u) h k = k t
then_items-EndsEarly go (t, err e) h k = h

unpack_items-EndsEarly :
    (tar : Tar) (items : List Item) (t : Tree) → EndsEarly (unpack_items tar items t)
unfolding unpack_items
unpack_items-EndsEarly tar [] t = tt
unpack_items-EndsEarly tar (Item.corrupt ∷ items) t = refl
unpack_items-EndsEarly tar (Item.nameless ∷ items) t = refl
unpack_items-EndsEarly tar (Item.item path contents ∷ items) t =
    then_items-EndsEarly (unpack_items tar items)
      (unpack_item tar path contents (safe_relative path) t)
      (unpack_item-EndsEarly tar path contents (safe_relative path) t)
      (unpack_items-EndsEarly tar items)

pub unpack_archive-EndsEarly :
    (tar : Tar) (o : Option (List Item)) (t : Tree) → EndsEarly (unpack_archive tar o t)
unfolding unpack_archive
unpack_archive-EndsEarly tar none t = refl
unpack_archive-EndsEarly tar (some items) t = unpack_items-EndsEarly tar items t
