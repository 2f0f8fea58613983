-- ===== src/Script/Attrs/Counts.antt =====
-- What Apply notes about an attribute, as numbers: how often each operation names it.
use go_adpwsh.Prelude.{
  ℕ, zero, suc, ◌+◌, ◌≡◌, refl, sym, ap, subst, ◌⊎◌, inl, inr, String, List, [], ◌∷◌, ◌++◌, map,
  arith, ◌==◌, length, Bool-cases, if◌then◌else◌,
}
use go_adpwsh.Prelude.Text.{Bytes, codes, bytes_eq, eq_of_bytes_eq, to_lower, equal_fold}
use go_adpwsh.Core.Mask.{Entries}
use go_adpwsh.Script.Attrs.{
  AttrOp, rank, op_add, op_clear, op_remove, op_replace, AttrOps, Note, fold, notes, note_keys,
  ops_of,
}

-- How many of the names are the attribute, when letters are compared without case.
unfoldable pub mentions : String → List String → ℕ
unfolding equal_fold
mentions k [] = 0
mentions k (n ∷ ns) =
    let rest = mentions k ns in if equal_fold (codes n) (codes k) then suc rest else rest

abbrev pub keys_of : Entries → List String
keys_of Entries.end = []
keys_of (Entries.entry k v es) = k ∷ keys_of es

module _ (o : AttrOps) (k : String) where
  abbrev pub times_added : ℕ
  times_added = mentions k (map (λ e. e.0) o.add)

  abbrev pub times_removed : ℕ
  times_removed = mentions k (map (λ e. e.0) o.remove)

  abbrev pub times_replaced : ℕ
  times_replaced = mentions k (keys_of o.replace)

  abbrev pub times_cleared : ℕ
  times_cleared = mentions k o.clear

abbrev pub copies : ℕ → AttrOp → List AttrOp
copies zero op = []
copies (suc n) op = op ∷ copies n op

ops_of-append : (k : Bytes) (ms ns : List Note) → ops_of k (ms ++ ns) ≡ ops_of k ms ++ ops_of k ns
unfolding ops_of
ops_of-append k [] ns = refl
ops_of-append k ((n, op) ∷ ms) ns = elim (Bool-cases (bytes_eq n k)) [
  | inl same ↦ rw (same, ops_of) (ap (◌∷◌ op) (ops_of-append k ms ns))
  | inr other ↦ rw (other, ops_of) (ops_of-append k ms ns)
]

-- The names that one operation has.
abbrev noted : AttrOp → List String → List Note
noted op ns = map (λ n. (fold n, op)) ns

ops_of-noted :
    (k : String) (op : AttrOp) (ns : List String)
    → ops_of (fold k) (noted op ns) ≡ copies (mentions k ns) op
unfolding ops_of mentions equal_fold
ops_of-noted k op [] = refl
ops_of-noted k op (n ∷ ns) = elim (Bool-cases (equal_fold (codes n) (codes k))) [
  | inl same ↦ rw (same, ops_of, mentions) (ap (◌∷◌ op) (ops_of-noted k op ns))
  | inr other ↦ rw (other, ops_of, mentions) (ops_of-noted k op ns)
]

noted-values :
    {A : Type 0} (op : AttrOp) (m : List (String × A))
    → map (λ e. (fold e.0, op)) m ≡ noted op (map (λ e. e.0) m)
noted-values op [] = refl
noted-values op (e ∷ m) = ap (◌∷◌ (fold e.0, op)) (noted-values op m)

noted-keys : (op : AttrOp) (es : Entries) → note_keys op es ≡ noted op (keys_of es)
unfolding note_keys
noted-keys op Entries.end = refl
noted-keys op (Entries.entry k v es) = ap (◌∷◌ (fold k, op)) (noted-keys op es)

notes-noted :
    (o : AttrOps)
    → notes o
      ≡ noted op_add (map (λ e. e.0) o.add)
        ++ (noted op_remove (map (λ e. e.0) o.remove)
            ++ (noted op_replace (keys_of o.replace) ++ noted op_clear o.clear))
unfolding notes
notes-noted o =
    rw (noted-values op_add o.add, noted-values op_remove o.remove, noted-keys op_replace o.replace)
      refl

-- What is noted about an attribute: the operations that name it, each as often as it does.
pub ops_of-notes :
    (o : AttrOps) (k : String)
    → ops_of (fold k) (notes o)
      ≡ copies (times_added o k) op_add
        ++ (copies (times_removed o k) op_remove
            ++ (copies (times_replaced o k) op_replace ++ copies (times_cleared o k) op_clear))
ops_of-notes o k =
    rw
      (
        notes-noted o,
        ops_of-append (fold k) (noted op_add (map (λ e. e.0) o.add)) _,
        ops_of-append (fold k) (noted op_remove (map (λ e. e.0) o.remove)) _,
        ops_of-append (fold k) (noted op_replace (keys_of o.replace)) (noted op_clear o.clear),
        ops_of-noted k op_add (map (λ e. e.0) o.add),
        ops_of-noted k op_remove (map (λ e. e.0) o.remove),
        ops_of-noted k op_replace (keys_of o.replace),
        ops_of-noted k op_clear o.clear,
      )
      refl

-- Something is noted only about a name that an operation has.
abbrev pub IsKeyed : Bytes → List Note → Type 0
IsKeyed k ns = (ops_of k ns ≡ []) ⊎ ((n : String) × (k ≡ to_lower (codes n)))

IsKeyed-append :
    (k : Bytes) (ms ns : List Note) → IsKeyed k ms → IsKeyed k ns → IsKeyed k (ms ++ ns)
IsKeyed-append k ms ns (inr named) h = inr named
IsKeyed-append k ms ns (inl none') (inr named) = inr named
IsKeyed-append k ms ns (inl none') (inl none'') =
    inl (rw (ops_of-append k ms ns, none', none'') refl)

noted-IsKeyed : (k : Bytes) (op : AttrOp) (ns : List String) → IsKeyed k (noted op ns)
unfolding ops_of
noted-IsKeyed k op [] = inl refl
noted-IsKeyed k op (n ∷ ns) = elim (Bool-cases (bytes_eq (fold n) k)) [
  | inl same ↦ inr (n, sym (eq_of_bytes_eq (fold n) k same))
  | inr other ↦ rw (other, ops_of) (noted-IsKeyed k op ns)
]

pub notes-IsKeyed : (o : AttrOps) (k : Bytes) → IsKeyed k (notes o)
notes-IsKeyed o k = subst (IsKeyed k) (sym (notes-noted o)) (
    IsKeyed-append k (noted op_add (map (λ e. e.0) o.add)) _ (noted-IsKeyed k op_add _) (
      IsKeyed-append k (noted op_remove (map (λ e. e.0) o.remove)) _ (noted-IsKeyed k op_remove _) (
        IsKeyed-append k (noted op_replace (keys_of o.replace)) (noted op_clear o.clear)
          (noted-IsKeyed k op_replace _) (noted-IsKeyed k op_clear o.clear))))

-- How often an operation stands in a list.
unfoldable pub tally : AttrOp → List AttrOp → ℕ
tally op [] = 0
tally op (x ∷ xs) = (if rank x == rank op then 1 else 0) + tally op xs

pub tally-append :
    (op : AttrOp) (xs ys : List AttrOp) → tally op (xs ++ ys) ≡ tally op xs + tally op ys
unfolding tally
tally-append op [] ys = omega arith
tally-append op (x ∷ xs) ys = omega (arith, tally-append op xs ys)

pub tally-copies :
    (op x : AttrOp) (n : ℕ) → tally op (copies n x) ≡ (if rank x == rank op then n else 0)
unfolding tally
tally-copies op x zero = ground arith
tally-copies op x (suc n) = ground (arith, tally-copies op x n)

pub length-copies : (n : ℕ) (x : AttrOp) → length (copies n x) ≡ n
length-copies zero x = refl
length-copies (suc n) x = ap suc (length-copies n x)
