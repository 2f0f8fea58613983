-- ===== src/Script/Variants.antt =====
-- The scripts of the access-list operations for constrained endpoints, in the dialect psopenad.
use go_adpwsh.Prelude.{
  ◌≡◌, refl, sym, ap, ◌∙◌, subst, inl, inr, ◌⊎◌, String, true, false, Option, none, some, str_eq,
  eq_iff, arith, Bool-cases, Option-cases, ◌>>=◌,
}
use go_adpwsh.Prelude.Text.{Bytes}
use go_adpwsh.Script.Ops.{ops, tools}
use go_adpwsh.Script.Compose.{
  Files, Scripts, find_script, compose, compose_present, alias, psopenad_set, load, script_for,
  Loaded,
}
use go_adpwsh.Core.Exec.{is_acl_op, acl_clm_variant}

find_script-alias :
    (op clm base : String) (set : Scripts)
    → str_eq clm op ≡ false
    → find_script op (alias clm base set) ≡ find_script op set
unfolding find_script alias
find_script-alias op clm base set other = elim (Option-cases (find_script base set)) [
  | inl missing ↦ rw (missing, alias)
  | inr (s, found) ↦ rw (found, alias) (rw other)
]

find_script-aliased :
    (clm base : String) (set : Scripts) (s : Bytes)
    → str_eq clm clm ≡ true
    → find_script base set ≡ some s
    → find_script clm (alias clm base set) ≡ some s
unfolding find_script alias
find_script-aliased clm base set s same found = rw (found, alias) (rw same)

-- The three operations.
acl_ops :
    (op : String)
    → is_acl_op op ≡ true
    → (op ≡ "acl_read") ⊎ ((op ≡ "acl_grant") ⊎ (op ≡ "acl_revoke"))
unfolding is_acl_op
acl_ops op h = elim (Bool-cases (str_eq op "acl_read")) [
  | inl read ↦ inl ((eq_iff op "acl_read").0 read)
  | inr not_read ↦ elim (Bool-cases (str_eq op "acl_grant")) [
    | inl granting ↦ inr (inl ((eq_iff op "acl_grant").0 granting))
    | inr not_granting ↦
        inr (inr ((eq_iff op "acl_revoke").0 (ground (arith, h, not_read, not_granting))))
  ]
]

module _ (set : Scripts) (s : Bytes) where
  abbrev with_read : Scripts
  with_read = alias "acl_read_clm" "acl_read" set

  abbrev with_grant : Scripts
  with_grant = alias "acl_grant_clm" "acl_grant" with_read

  abbrev with_all : Scripts
  with_all = alias "acl_revoke_clm" "acl_revoke" with_grant

  down :
      (op : String)
      → str_eq "acl_read_clm" op ≡ false
      → str_eq "acl_grant_clm" op ≡ false
      → str_eq "acl_revoke_clm" op ≡ false
      → find_script op with_all ≡ find_script op set
  down op r g v =
      find_script-alias op "acl_revoke_clm" "acl_revoke" with_grant v
      ∙ (find_script-alias op "acl_grant_clm" "acl_grant" with_read g
          ∙ find_script-alias op "acl_read_clm" "acl_read" set r)

  read_variant :
      find_script "acl_read" with_all ≡ some s → find_script "acl_read_clm" with_all ≡ some s
  read_variant h =
      find_script-alias "acl_read_clm" "acl_revoke_clm" "acl_revoke" with_grant refl
      ∙ (find_script-alias "acl_read_clm" "acl_grant_clm" "acl_grant" with_read refl
          ∙ find_script-aliased "acl_read_clm" "acl_read" set s refl
              (sym (down "acl_read" refl refl refl) ∙ h))

  grant_variant :
      find_script "acl_grant" with_all ≡ some s → find_script "acl_grant_clm" with_all ≡ some s
  grant_variant h =
      find_script-alias "acl_grant_clm" "acl_revoke_clm" "acl_revoke" with_grant refl
      ∙ find_script-aliased "acl_grant_clm" "acl_grant" with_read s refl (
          sym (
            find_script-alias "acl_grant" "acl_revoke_clm" "acl_revoke" with_grant refl
            ∙ find_script-alias "acl_grant" "acl_grant_clm" "acl_grant" with_read refl)
          ∙ h)

  revoke_variant :
      find_script "acl_revoke" with_all ≡ some s → find_script "acl_revoke_clm" with_all ≡ some s
  revoke_variant h =
      find_script-aliased "acl_revoke_clm" "acl_revoke" with_grant s refl
        (sym (find_script-alias "acl_revoke" "acl_revoke_clm" "acl_revoke" with_grant refl) ∙ h)

  -- The script of the variant is that of the operation.
  abbrev Follows : String → Type 0
  Follows op = find_script op with_all ≡ some s → find_script (acl_clm_variant op) with_all ≡ some s

  variant :
      (op : String)
      → is_acl_op op ≡ true
      → find_script op with_all ≡ some s
      → find_script (acl_clm_variant op) with_all ≡ some s
  unfolding acl_clm_variant
  variant op acl h = elim (acl_ops op acl) [
    | inl e ↦ subst Follows (sym e) read_variant h
    | inr (inl e) ↦ subst Follows (sym e) grant_variant h
    | inr (inr e) ↦ subst Follows (sym e) revoke_variant h
  ]

variant_of_set :
    (files : Files) (op : String) (s : Bytes)
    → is_acl_op op ≡ true
    → find_script op (psopenad_set files) ≡ some s
    → find_script (acl_clm_variant op) (psopenad_set files) ≡ some s
unfolding psopenad_set find_script
variant_of_set files op s acl h = elim (Option-cases (files "ops_psopenad" "preamble")) [
  | inl bare ↦ let h' = rw (bare, psopenad_set, find_script) at h in absurd (cc)
  | inr (pre, headed) ↦ elim (Option-cases (files "ops_psopenad" "epilogue")) [
    | inl bare ↦ let h' = rw (headed, bare, psopenad_set, find_script) at h in absurd (cc)
    | inr (epi, closed) ↦
        rw (headed, closed, psopenad_set)
          (variant (compose_present files pre epi "ops_psopenad" ops) s op acl
            (rw (headed, closed, psopenad_set) at h))
  ]
]

composed-psopenad :
    (set : Scripts) (adws tool_scripts : Option Scripts) (l : Loaded)
    → (do a ← adws; t ← tool_scripts; some (record { adws = a; tool_scripts = t; psopenad = set }))
      ≡ some l
    → l.psopenad ≡ set
composed-psopenad set none t l h = cc
composed-psopenad set (some a) none l h = cc
composed-psopenad set (some a) (some t) l h =
    ap (λ o. elim o [ some k ↦ k.psopenad | none ↦ set ]) (sym h)

read-psopenad :
    (set : Scripts) (preamble epilogue : Option Bytes) (f g : Bytes → Bytes → Option Scripts)
    (l : Loaded)
    → (do
      a ← preamble
      b ← epilogue
      c ← f a b
      d ← g a b
      some (record { adws = c; tool_scripts = d; psopenad = set }))
      ≡ some l
    → l.psopenad ≡ set
read-psopenad set none epilogue f g l h = cc
read-psopenad set (some a) none f g l h = cc
read-psopenad set (some a) (some b) f g l h = composed-psopenad set (f a b) (g a b) l h

load-psopenad : (files : Files) (l : Loaded) → load files ≡ some l → l.psopenad ≡ psopenad_set files
unfolding load
load-psopenad files l h =
    read-psopenad (psopenad_set files) (files "." "preamble") (files "." "epilogue")
      (λ a b. compose files a b "ops" ops) (λ a b. compose files a b "tools" tools) l h

-- In the dialect psopenad, where an access-list operation has a script, the operation that exec replaces
-- it with for a constrained endpoint has the same script.
pub script_for-acl_clm_variant :
    (files : Files) (op : String) (s : Bytes)
    → is_acl_op op ≡ true
    → script_for files "psopenad" op ≡ some s
    → script_for files "psopenad" (acl_clm_variant op) ≡ some s
unfolding script_for
script_for-acl_clm_variant files op s acl h = elim (Option-cases (load files)) [
  | inl broken ↦ let h' = rw (broken, script_for) at h in absurd (cc)
  | inr (l, loaded) ↦
      let same = load-psopenad files l loaded in
      rw (loaded, script_for, same)
        (variant_of_set files op s acl (rw (loaded, script_for, same) at h))
]
