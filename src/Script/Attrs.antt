-- ===== src/Script/Attrs.antt =====
-- internal/adscript/payload.go: the four attribute operations that one Set-AD* call can carry.
pub mod Counts
pub mod Order
pub mod Legal
use mathlib.Core.List
use go_adpwsh.Prelude.{
  ℕ, String, Bool, true, false, ◌&&◌, ◌||◌, Option, none, some, List, [], ◌∷◌, ◌++◌, map, ltb, leb,
  if◌then◌else◌, str_eq, length,
}
use go_adpwsh.Prelude.Text.{Bytes, codes, to_lower, bytes_eq}
use go_adpwsh.Prelude.Sort.{sort, sort_strings, bytes_lt}
use go_adpwsh.Prelude.Json.{Value, str, arr, obj, Items, Members}
use go_adpwsh.Core.Mask.{Payload, dict, leaf, Entries, Elements, put, document_elements}

pub data AttrOp : Type 0 where
  op_add op_clear op_remove op_replace : AttrOp

-- The place of "Add", "Clear", "Remove", "Replace" in the order of sort.Strings.
abbrev pub rank : AttrOp → ℕ
rank op_add = 0
rank op_clear = 1
rank op_remove = 2
rank op_replace = 3

-- A map from names to values is a list of pairs with one pair for each name.
pub record AttrOps : Type 0 where
  pub add : List (String × Elements)
  pub remove : List (String × Elements)
  pub replace : Entries
  pub clear : List String

abbrev pub no_ops : AttrOps
no_ops = record { add = []; remove = []; replace = Entries.end; clear = [] }

unfoldable pub append_elements : Elements → Elements → Elements
append_elements Elements.nil ys = ys
append_elements (Elements.cons x xs) ys = Elements.cons x (append_elements xs ys)

-- m[name] = append(m[name], values...)
unfoldable pub append_at : String → Elements → List (String × Elements) → List (String × Elements)
unfolding append_elements
append_at name values [] = (name, values) ∷ []
append_at name values ((n, old) ∷ m) =
    if str_eq n name
    then (n, append_elements old values) ∷ m
    else (n, old) ∷ append_at name values m

unfoldable pub add_values : String → Elements → AttrOps → AttrOps
unfolding append_at
add_values name values o = record o { add = append_at name values o.add }

unfoldable pub remove_values : String → Elements → AttrOps → AttrOps
unfolding append_at
remove_values name values o = record o { remove = append_at name values o.remove }

unfoldable pub replace_value : String → Payload → AttrOps → AttrOps
unfolding put
replace_value name value o = record o { replace = put name value o.replace }

unfoldable pub clear_name : String → AttrOps → AttrOps
clear_name name o = record o { clear = o.clear ++ name ∷ [] }

abbrev pub is_nil {ℓ} : {A : Type ℓ} → List A → Bool
is_nil [] = true
is_nil (x ∷ xs) = false

abbrev pub is_end : Entries → Bool
is_end Entries.end = true
is_end (Entries.entry k v es) = false

unfoldable pub is_empty : AttrOps → Bool
is_empty o = is_nil o.add && is_nil o.remove && is_end o.replace && is_nil o.clear

-- isSetDiff, on sorted operations
unfoldable pub is_set_diff : List AttrOp → Bool
is_set_diff (op_add ∷ op_remove ∷ []) = true
is_set_diff _ = false

-- strings.ToLower(name), and the operation that names it
abbrev pub Note : Type 0
Note = Bytes × AttrOp

abbrev pub fold : String → Bytes
fold name = to_lower (codes name)

unfoldable pub note_keys : AttrOp → Entries → List Note
unfolding to_lower
note_keys op Entries.end = []
note_keys op (Entries.entry k v es) = (fold k, op) ∷ note_keys op es

unfoldable pub notes : AttrOps → List Note
unfolding note_keys to_lower
notes o =
    map (λ e. (fold e.0, op_add)) o.add
    ++ (map (λ e. (fold e.0, op_remove)) o.remove
        ++ (note_keys op_replace o.replace ++ map (λ n. (fold n, op_clear)) o.clear))

-- seen[k]
unfoldable pub ops_of : Bytes → List Note → List AttrOp
unfolding bytes_eq
ops_of k [] = []
ops_of k ((n, op) ∷ ns) = if bytes_eq n k then op ∷ ops_of k ns else ops_of k ns

unfoldable pub sort_ops : List AttrOp → List AttrOp
unfolding sort
sort_ops = sort (λ a b. ltb (rank a) (rank b))

-- The condition under which the loop of Apply goes on.
unfoldable pub is_legal : List AttrOp → Bool
unfolding sort_ops is_set_diff
is_legal seen = leb (length seen) 1 || is_set_diff (sort_ops seen)

pub record ConflictError : Type 0 where
  pub attribute : Bytes
  pub ops : List AttrOp

unfoldable pub find_conflict : List Note → List Bytes → Option ConflictError
unfolding is_legal ops_of sort_ops
find_conflict seen [] = none
find_conflict seen (n ∷ names) =
    if is_legal (ops_of n seen)
    then find_conflict seen names
    else some (record { attribute = n; ops = sort_ops (ops_of n seen) })

unfoldable pub value_lists : List (String × Elements) → Members
value_lists [] = Members.end
value_lists ((n, vs) ∷ m) = Members.member n (arr (document_elements vs)) (value_lists m)

unfoldable pub string_items : List String → Items
string_items [] = Items.nil
string_items (s ∷ ss) = Items.cons (str s) (string_items ss)

unfoldable pub sort_names : List String → List String
unfolding sort bytes_lt
sort_names = sort (λ a b. bytes_lt (codes a) (codes b))

-- `if len(m) > 0 { splat[k] = m }`
abbrev pub put_unless : Bool → String → Payload → Entries → Entries
put_unless true k v splat = splat
put_unless false k v splat = put k v splat

unfoldable pub write_splat : AttrOps → Entries → Entries
unfolding put value_lists string_items sort_names
write_splat o splat =
    put_unless (is_nil o.clear) "Clear" (leaf (arr (string_items (sort_names o.clear)))) (
      put_unless (is_end o.replace) "Replace" (dict o.replace) (
        put_unless (is_nil o.remove) "Remove" (leaf (obj (value_lists o.remove)))
          (put_unless (is_nil o.add) "Add" (leaf (obj (value_lists o.add))) splat)))

pub data Applied : Type 0 where
  written : Entries → Applied
  refused : ConflictError → Applied

unfoldable pub apply : AttrOps → Entries → Applied
unfolding find_conflict notes sort_strings write_splat
apply o splat = elim (find_conflict (notes o) (sort_strings (map (λ n. n.0) (notes o)))) [
  | some c ↦ refused c
  | none ↦ written (write_splat o splat)
]
