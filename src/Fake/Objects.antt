-- ===== src/Fake/Objects.antt =====
-- transport/fake/filter.go (fakeAttr), and DirectoryObject and asString of
-- transport/fake/directory.go. Texts are byte texts.
use go_adpwsh.Prelude.{
  Bool, true, false, ◌||◌, not, Option, none, some, List, [], ◌∷◌, if◌then◌else◌,
}
use go_adpwsh.Prelude.Text.{Bytes, codes, bytes_eq, equal_fold, to_lower}

-- What a value of type any is to asString: a string, nil, or a value of another type.
pub data Stored : Type 0 where
  text : Bytes → Stored
  nil : Stored
  other : Stored

-- The parts of DirectoryObject that a search reads; the data are in the order in which a loop over
-- the map visits them.
pub record DirectoryObject : Type 0 where
  pub class : Bytes
  pub dn : Bytes
  pub data_of : List (Bytes × Stored)
  pub deleted : Bool

-- v, ok := o.Data[key]
unfoldable pub lookup_data : Bytes → List (Bytes × Stored) → Option Stored
unfolding bytes_eq
lookup_data key [] = none
lookup_data key ((k, v) ∷ rest) = if bytes_eq k key then some v else lookup_data key rest

-- The loop over o.Data for a key that differs in case only.
unfoldable pub fold_data : Bytes → List (Bytes × Stored) → Option Stored
unfolding equal_fold
fold_data key [] = none
fold_data key ((k, v) ∷ rest) = if equal_fold k key then some v else fold_data key rest

-- asString
unfoldable pub as_string : Option Stored → Bytes
as_string none = []
as_string (some (text s)) = s
as_string (some nil) = []
as_string (some other) = []

-- v != nil, where v is what the map has for a key
unfoldable pub is_stored : Option Stored → Bool
is_stored none = false
is_stored (some nil) = false
is_stored (some (text s)) = true
is_stored (some other) = true

-- asString(v), asString(v) != ""
unfoldable pub non_empty : Option Stored → Bytes × Bool
unfolding as_string bytes_eq
non_empty v = (as_string v, not (bytes_eq (as_string v) []))

-- An attribute without an alias of its own.
unfoldable pub plain_attr : DirectoryObject → Bytes → Bytes × Bool
unfolding lookup_data fold_data non_empty to_lower
plain_attr o name = elim (lookup_data (to_lower name) o.data_of) [
  | some v ↦ non_empty (some v)
  | none ↦ non_empty (fold_data name o.data_of)
]

-- fakeAttr
unfoldable pub fake_attr : DirectoryObject → Bytes → Bytes × Bool
unfolding lookup_data as_string is_stored non_empty plain_attr bytes_eq to_lower
fake_attr o name =
    let folded = to_lower name in
    if bytes_eq folded (codes "distinguishedname") || bytes_eq folded (codes "dn")
    then (o.dn, true)
    else if bytes_eq folded (codes "objectclass")
    then (o.class, true)
    else if bytes_eq folded (codes "cn") || bytes_eq folded (codes "name")
    then (
      as_string (lookup_data (codes "name") o.data_of),
      is_stored (lookup_data (codes "name") o.data_of),
    )
    else if bytes_eq folded (codes "samaccountname")
    then non_empty (lookup_data (codes "samAccountName") o.data_of)
    else plain_attr o name
