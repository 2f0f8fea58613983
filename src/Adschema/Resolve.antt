-- ===== src/Adschema/Resolve.antt =====
-- internal/adschema/resolve.go: the inheritance closure of a class, and fetch.go's raw classes. The
-- names of Go maps are folded with strings.ToLower, and a later entry of the same name overwrites
-- an earlier one.
use go_adpwsh.Prelude.{
  ℕ, zero, suc, ◌+◌, Bool, true, false, ◌||◌, ◌&&◌, Option, none, some, List, [], ◌∷◌, ◌++◌, ltb,
  ◌==◌, if◌then◌else◌, length, ◌>>=◌,
}
use go_adpwsh.Prelude.Text.{Bytes, to_lower, bytes_eq}
use go_adpwsh.Prelude.Sort.{bytes_lt}

-- RawClass; names are byte texts.
pub record RawClass : Type 0 where
  pub name : Bytes
  pub category : ℕ
  pub sub_class_of : Bytes
  pub auxiliary_class : List Bytes
  pub system_auxiliary_class : List Bytes
  pub may_contain : List Bytes
  pub system_may_contain : List Bytes
  pub must_contain : List Bytes
  pub system_must_contain : List Bytes

-- The classes, and the names of the attributes, of Raw.
pub record Raw : Type 0 where
  pub classes : List RawClass
  pub attributes : List Bytes

-- ix.classes[f]
unfoldable pub find_class : Bytes → List RawClass → Option RawClass
unfolding bytes_eq to_lower
find_class f [] = none
find_class f (c ∷ cs) = elim (find_class f cs) [
  | some d ↦ some d
  | none ↦ if bytes_eq (to_lower c.name) f then some c else none
]

-- ix.attrs[f]
unfoldable pub find_attr : Bytes → List Bytes → Option Bytes
unfolding bytes_eq to_lower
find_attr f [] = none
find_attr f (a ∷ rest) = elim (find_attr f rest) [
  | some b ↦ some b
  | none ↦ if bytes_eq (to_lower a) f then some a else none
]

pub record Contribution : Type 0 where
  pub depth : ℕ
  pub class : Bytes
  pub mandatory : Bool

abbrev pub Contributions : Type 0
Contributions = List (Bytes × Contribution)

-- `depth < c.depth || (depth == c.depth && class < c.class)`
unfoldable pub is_nearer : ℕ → Bytes → Contribution → Bool
unfolding bytes_lt
is_nearer depth class c = ltb depth c.depth || depth == c.depth && bytes_lt class c.class

-- The part of record for an attribute that is already there.
unfoldable pub merge : ℕ → Bytes → Bool → Contribution → Contribution
unfolding is_nearer
merge depth class mandatory c =
    let c' : Contribution = if mandatory then record c { mandatory = true } else c in
    if is_nearer depth class c then record c' { depth = depth; class = class } else c'

-- record
unfoldable pub record_attr : Bytes → ℕ → Bytes → Bool → Contributions → Contributions
unfolding merge bytes_eq
record_attr attr depth class mandatory [] =
    (attr, record { depth = depth; class = class; mandatory = mandatory }) ∷ []
record_attr attr depth class mandatory ((a, c) ∷ rest) =
    if bytes_eq a attr
    then (a, merge depth class mandatory c) ∷ rest
    else (a, c) ∷ record_attr attr depth class mandatory rest

unfoldable pub find_contribution : Bytes → Contributions → Option Contribution
unfolding bytes_eq
find_contribution attr [] = none
find_contribution attr ((a, c) ∷ rest) =
    if bytes_eq a attr then some c else find_contribution attr rest

-- One group of attribute names of a class; `none` is the error of a partial fetch.
unfoldable pub record_group :
    Raw → ℕ → Bytes → Bool → List Bytes → Contributions → Option Contributions
unfolding find_attr record_attr
record_group raw depth class mandatory [] into = some into
record_group raw depth class mandatory (name ∷ names) into =
    elim (find_attr (to_lower name) raw.attributes) [
      | none ↦ none
      | some canonical ↦
          record_group raw depth class mandatory names
            (record_attr canonical depth class mandatory into)
    ]

unfoldable pub record_class : Raw → ℕ → RawClass → Contributions → Option Contributions
unfolding record_group
record_class raw depth cl into = do
  a ← record_group raw depth cl.name true cl.must_contain into
  b ← record_group raw depth cl.name true cl.system_must_contain a
  c ← record_group raw depth cl.name false cl.may_contain b
  record_group raw depth cl.name false cl.system_may_contain c

pub record Queued : Type 0 where
  pub class : RawClass
  pub depth : ℕ

abbrev pub is_visited : Bytes → List Bytes → Bool
is_visited f [] = false
is_visited f (v ∷ vs) = bytes_eq v f || is_visited f vs

-- The classes that a class names as its parents.
abbrev pub parents : RawClass → List Bytes
parents cl = cl.sub_class_of ∷ (cl.auxiliary_class ++ cl.system_auxiliary_class)

-- The loop over the parents: the visited names and the queue, or the error of a partial fetch.
unfoldable pub enqueue :
    Raw → ℕ → List Bytes → List Bytes → List Queued → Option (List Bytes × List Queued)
unfolding find_class
enqueue raw depth [] visited queue = some (visited, queue)
enqueue raw depth (name ∷ names) visited queue =
    let skip = enqueue raw depth names visited queue in
    if is_visited (to_lower name) visited
    then skip
    else elim (find_class (to_lower name) raw.classes) [
      | none ↦ none
      | some parent ↦
          enqueue raw depth names (to_lower name ∷ visited)
            (queue ++ record { class = parent; depth = depth } ∷ [])
    ]

pub data Closure : Type 0 where
  resolved : Contributions → Closure
  partial_fetch : Closure
  out_of_fuel : Closure

-- The walk of closure, with fuel.
unfoldable pub walk : ℕ → Raw → List Bytes → List Queued → Contributions → Closure
walk zero raw visited queue into = out_of_fuel
walk (suc fuel) raw visited queue into = elim queue [
  | [] ↦ resolved into
  | cur ∷ rest ↦ elim (record_class raw cur.depth cur.class into) [
    | none ↦ partial_fetch
    | some into' ↦ elim (enqueue raw (cur.depth + 1) (parents cur.class) visited rest) [
      | none ↦ partial_fetch
      | some (visited', queue') ↦ walk fuel raw visited' queue' into'
    ]
  ]
]

-- closure: each class is entered once, so the walk has as many rounds as there are classes, and one
-- more for the empty queue; the class that it starts from is one of them.
unfoldable pub closure : Raw → RawClass → Closure
unfolding walk
closure raw start =
    walk (suc (suc (length raw.classes))) raw (to_lower start.name ∷ [])
      (record { class = start; depth = 0 } ∷ []) []
