-- ===== src/Core/Classification.antt =====
-- How an exception of the PowerShell side becomes a kind: errors.go.
use go_adpwsh.Prelude.{
  ℕ, suc, ◌≡◌, ◌≢◌, refl, sym, String, true, Option, none, some, List, [], ◌∷◌, ◌++◌, arith, length,
  drop, All, Bool-cases, Option-cases, inl, inr,
}
use go_adpwsh.Prelude.Text.{Bytes, codes, bytes_eq, eq_of_bytes_eq}
use mathlib.Core.Path.{subst₂}
use native.Mathlib.Numerals.{add-one}
use go_adpwsh.Prelude.Json.{ℤ}
use go_adpwsh.Core.Errors.{
  Kind, transient, last_dot, short_type_name, class_by_type, lookup_kind, classify,
}

last_dot-none : (s : Bytes) → All (λ c. c ≢ b'.') s → last_dot s ≡ none
unfolding last_dot
last_dot-none [] h = refl
last_dot-none (c ∷ s) h = ground (arith, last_dot-none s h.1)

last_dot-append :
    (ns name : Bytes) → All (λ c. c ≢ b'.') name → last_dot (ns ++ b'.' ∷ name) ≡ some (length ns)
unfolding last_dot
last_dot-append [] name h = ground (arith, last_dot-none name h)
last_dot-append (c ∷ ns) name h = ground (arith, last_dot-append ns name h)

drop-append-cons :
    (ns : Bytes) (c : ℕ) (name : Bytes) → drop (suc (length ns)) (ns ++ c ∷ name) ≡ name
drop-append-cons [] c name = refl
drop-append-cons (x ∷ ns) c name = drop-append-cons ns c name

short_type_name-append :
    (ns name : Bytes) → All (λ c. c ≢ b'.') name → short_type_name (ns ++ b'.' ∷ name) ≡ name
unfolding short_type_name
short_type_name-append ns name h =
    rw (last_dot-append ns name h, short_type_name) (rw add-one (drop-append-cons ns b'.' name))

short_type_name_plain : (name : Bytes) → All (λ c. c ≢ b'.') name → short_type_name name ≡ name
unfolding short_type_name
short_type_name_plain name h = rw (last_dot-none name h, short_type_name)

-- An exception type is classified by its last component: a namespace in front of it, which ends in
-- a dot, changes nothing, whatever the code.
pub classify-namespace :
    (classify_code : ℤ → Option Kind) (ns : Bytes) (full short : String) (code : ℤ)
    → codes full ≡ ns ++ b'.' ∷ codes short
    → All (λ c. c ≢ b'.') (codes short)
    → classify classify_code full code ≡ classify classify_code short code
unfolding classify
classify-namespace classify_code ns full short code e h = rw (same, classify)
  where
    same : short_type_name (codes full) ≡ short_type_name (codes short)
    same = rw (e, short_type_name-append ns (codes short) h) (sym (short_type_name_plain _ h))

-- A property of the entries of a table holds of what a lookup finds.
lookup_kind-All :
    (P : Bytes → Kind → Type 0) (name : Bytes) (t : List (String × Kind)) (k : Kind)
    → All (λ e. P (codes e.0) e.1) t
    → lookup_kind name t ≡ some k
    → P name k
unfolding lookup_kind
lookup_kind-All P name [] k h e = cc
lookup_kind-All P name ((n, j) ∷ t) k h e = elim (Bool-cases (bytes_eq (codes n) name)) [
  | inl hit ↦ subst₂ P (eq_of_bytes_eq (codes n) name hit) (same hit) h.0
  | inr miss ↦ lookup_kind-All P name t k h.1 (rw miss at e)
]
  where
    same : bytes_eq (codes n) name ≡ true → j ≡ k
    same hit = let e' : some j ≡ some k = rw hit at e in cc

abbrev OnlyServerDown : Bytes → Kind → Type 0
OnlyServerDown name k = k ≡ transient → name ≡ codes "ADServerDownException"

table-OnlyServerDown : All (λ e. OnlyServerDown (codes e.0) e.1) class_by_type
table-OnlyServerDown = (
  λ e. cc,
  (
    λ e. cc,
    (
      λ e. cc,
      (
        λ e. cc,
        (
          λ e. cc,
          (
            λ e. cc,
            (
              λ e. cc,
              (
                λ e. cc,
                (
                  λ e. cc,
                  (
                    λ e. cc,
                    (
                      λ e. refl,
                      (
                        λ e. cc,
                        (
                          λ e. cc,
                          (
                            λ e. cc,
                            (λ e. cc, (λ e. cc, (λ e. cc, (λ e. cc, (λ e. cc, (λ e. cc, tt)))))),
                          ),
                        ),
                      ),
                    ),
                  ),
                ),
              ),
            ),
          ),
        ),
      ),
    ),
  ),
)

-- With a code that go-adcore does not know, the only exception type that is classified as transient is
-- ADServerDownException, under whatever namespace.
pub classify_transient :
    (classify_code : ℤ → Option Kind) (exception_type : String) (code : ℤ)
    → classify_code code ≡ none
    → classify classify_code exception_type code ≡ transient
    → short_type_name (codes exception_type) ≡ codes "ADServerDownException"
unfolding classify
classify_transient classify_code exception_type code e h =
    elim (Option-cases (lookup_kind (short_type_name (codes exception_type)) class_by_type)) [
      | inl missing ↦ absurd (ground (arith, missing))
      | inr (k, found) ↦
          lookup_kind-All OnlyServerDown _ class_by_type k table-OnlyServerDown found (ground arith)
    ]
