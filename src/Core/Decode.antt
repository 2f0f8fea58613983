-- ===== src/Core/Decode.antt =====
-- What json.Unmarshal puts into a field of a struct: the zero value for a member that is missing or
-- null, and an error (`none`) for one of another type.
use go_adpwsh.Prelude.{String, Bool, false, Option, none, some, List, [], ◌∷◌, ◌>>=◌}
use go_adpwsh.Prelude.Json.{
  ℤ, pos, Value, null, bool, num, str, arr, obj, Items, nil, cons, Members, end,
}

abbrev pub as_str : Option Value → Option String
as_str none = some ""
as_str (some null) = some ""
as_str (some (str s)) = some s
as_str (some _) = none

abbrev pub as_bool : Option Value → Option Bool
as_bool none = some false
as_bool (some null) = some false
as_bool (some (bool b)) = some b
as_bool (some _) = none

abbrev pub as_int : Option Value → Option ℤ
as_int none = some (pos 0)
as_int (some null) = some (pos 0)
as_int (some (num n)) = some n
as_int (some _) = none

-- a field of type *int
abbrev pub as_int_ptr : Option Value → Option (Option ℤ)
as_int_ptr none = some none
as_int_ptr (some null) = some none
as_int_ptr (some (num n)) = some (some n)
as_int_ptr (some _) = none

-- The members of the document that a struct is read from; null leaves the struct as it was.
abbrev pub as_members : Value → Option Members
as_members null = some end
as_members (obj m) = some m
as_members _ = none

-- a field of slice type, element by element
unfoldable pub decode_items {ℓ} : {A : Type ℓ} → (Value → Option A) → Items → Option (List A)
decode_items f nil = some []
decode_items f (cons v vs) = do a ← f v; rest ← decode_items f vs; some (a ∷ rest)

abbrev pub as_list {ℓ} : {A : Type ℓ} → (Value → Option A) → Option Value → Option (List A)
as_list f none = some []
as_list f (some null) = some []
as_list f (some (arr vs)) = decode_items f vs
as_list f (some _) = none
