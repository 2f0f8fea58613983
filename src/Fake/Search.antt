-- ===== src/Fake/Search.antt =====
-- transport/fake/directory.go (handleSearch, inScope, parentOf). The objects are in the order in which
-- a loop over the map visits them, and the payload is its four members.
use go_adpwsh.Prelude.{
  ℕ, zero, suc, ◌==◌, Bool, true, false, ◌&&◌, ◌||◌, not, List, [], ◌∷◌, take, length, ltb,
  if◌then◌else◌,
}
use go_adpwsh.Prelude.Text.{Bytes, codes, bytes_eq, equal_fold, to_lower, has_suffix}
use go_adpwsh.Prelude.Sort.{sort, bytes_lt}
use go_adpwsh.Fake.Objects.{DirectoryObject}
use go_adpwsh.Fake.Filter.{Verdict, verdict, fault, stuck, Fault, match_filter}
pub mod Scope
pub mod Results

-- The loop of parentOf, behind a byte.
unfoldable pub parent_from : ℕ → Bytes → Bytes
parent_from before [] = []
parent_from before (c ∷ dn) =
    let rest = parent_from c dn in if c == b',' && not (before == b'\\') then dn else rest

-- parentOf; nothing stands in front of the first byte.
unfoldable pub parent_of : Bytes → Bytes
unfolding parent_from
parent_of dn = parent_from 0 dn

-- inScope
unfoldable pub in_scope : Bytes → Bytes → Bytes → Bool
unfolding parent_of bytes_eq equal_fold to_lower has_suffix
in_scope dn base scope =
    if bytes_eq scope (codes "Base")
    then equal_fold dn base
    else if bytes_eq scope (codes "OneLevel")
    then equal_fold (parent_of dn) base
    else equal_fold dn base || has_suffix (to_lower dn) (to_lower (b',' ∷ base))

-- class, and the members filter, searchBase, scope and sizeLimit of the payload
pub record Asked : Type 0 where
  pub class : Bytes
  pub filter : Bytes
  pub base : Bytes
  pub scope : Bytes
  pub max : ℕ

-- What handleSearch returns; `looping` is a filter that has run out of fuel.
pub data Reply : Type 0 where
  results : List DirectoryObject → Reply
  parsing_error : Fault → Reply
  looping : Reply

-- The first guards of the loop over the objects.
unfoldable pub is_candidate : Asked → DirectoryObject → Bool
unfolding bytes_eq in_scope
is_candidate a o = not o.deleted && bytes_eq o.class a.class && in_scope o.dn a.base a.scope

-- What an object that the filter answers for adds to the reply of the others.
unfoldable pub collect : Verdict → DirectoryObject → Reply → Reply
collect (verdict true) o (results os) = results (o ∷ os)
collect (verdict true) o (parsing_error e) = parsing_error e
collect (verdict true) o looping = looping
collect (verdict false) o rest = rest
collect (fault e) o rest = parsing_error e
collect stuck o rest = looping

-- The loop over the objects.
unfoldable pub matching : Asked → List DirectoryObject → Reply
unfolding is_candidate collect match_filter
matching a [] = results []
matching a (o ∷ os) =
    let rest = matching a os in
    if is_candidate a o then collect (match_filter (length a.filter) o a.filter) o rest else rest

-- matched[:max]
unfoldable pub limited : ℕ → List DirectoryObject → List DirectoryObject
limited max os = if ltb 0 max && ltb max (length os) then take max os else os

abbrev pub dn_before : DirectoryObject → DirectoryObject → Bool
dn_before o p = bytes_lt o.dn p.dn

-- handleSearch
unfoldable pub handle_search : Asked → List DirectoryObject → Reply
unfolding matching sort limited
handle_search a os = elim (matching a os) [
  | results found ↦ results (limited a.max (sort dn_before found))
  | parsing_error e ↦ parsing_error e
  | looping ↦ looping
]
