-- ===== src/Client/Ou/Stale.antt =====
-- What becomes of an Update that renames an organizational unit which the caller names by an identity
-- that the rename changes, such as its distinguished name.
use go_adpwsh.Prelude.{
  ◌≡◌, refl, sym, ap, ◌∙◌, String, Bool, true, false, not, none, some, List, [], ◌∷◌, ◌++◌, ◌&&◌,
  if◌then◌else◌, str_eq, ltb, All, All-append, inl, inr, Option-cases, append_assoc,
}
use go_adpwsh.Core.Mask.{Entries}
use go_adpwsh.Client.Objects.Shape.{Identity, Adcore, valid}
use go_adpwsh.Client.Objects.Changes.{size}
use go_adpwsh.Client.Ou.Plans.{Ou, OuSpec, differ, final_protected, settle_ou, plan_update}
use go_adpwsh.Client.Ou.Script.{
  Command, set_attributes, rename, move, protect, read_back, text_at, identity_of, changes,
  commands, Directory, perform_all,
}
use go_adpwsh.Client.Ou.Moves.{
  run_plan, draft-Drafts, changes-payload, identity-payload, plan_update-settled, settle_ou-cases,
}

module _ {S : Type 0} (d : Directory S) where
  -- A command whose identity leads to nothing fails.
  abbrev pub Refuses : Type 0
  Refuses = (k : Command) (s : S) → d.finds s (identity_of k) ≡ false → d.perform k s ≡ none

  perform_all-fails :
      (ks ls : List Command)
      → ((t : S) → perform_all d ls t ≡ none)
      → (s : S) → perform_all d (ks ++ ls) s ≡ none
  unfolding perform_all
  perform_all-fails [] ls fails s = fails s
  perform_all-fails (k ∷ ks) ls fails s = elim (Option-cases (d.perform k s)) [
    | inl denied ↦ rw denied refl
    | inr (t, done) ↦ rw done (perform_all-fails ks ls fails t)
  ]

  module _ (refuses : Refuses) (id : Identity) where
    abbrev IsNamed : Command → Type 0
    IsNamed k = identity_of k ≡ id.arg

    perform_all-lost :
        (ks : List Command) (s : S)
        → All IsNamed ks
        → d.finds s id.arg ≡ false
        → perform_all d (ks ++ read_back id.arg ∷ []) s ≡ none
    unfolding perform_all identity_of
    perform_all-lost [] s named lost = rw (refuses (read_back id.arg) s lost) refl
    perform_all-lost (k ∷ ks) s named lost = rw (refuses k s (ap (d.finds s) named.0 ∙ lost)) refl

    perform_all-renamed :
        (name : String) (ks : List Command) (s : S)
        → ((s s' : S) → d.perform (rename id.arg name) s ≡ some s' → d.finds s' id.arg ≡ false)
        → All IsNamed ks
        → perform_all d (rename id.arg name ∷ (ks ++ read_back id.arg ∷ [])) s ≡ none
    unfolding perform_all
    perform_all-renamed name ks s away named =
        elim (Option-cases (d.perform (rename id.arg name) s)) [
          | inl denied ↦ rw denied refl
          | inr (t, done) ↦ rw done (perform_all-lost ks t named (away s t done))
        ]

    All-if : (b : Bool) (k : Command) → IsNamed k → All IsNamed (if b then k ∷ [] else [])
    All-if true k named = (named, tt)
    All-if false k named = tt

    All-move :
        (same current : Bool) (container : String)
        → All IsNamed (
            if same
            then []
            else (if current then protect id.arg false ∷ [] else []) ++ move id.arg container ∷ [])
    unfolding identity_of
    All-move true current container = tt
    All-move false current container =
        All-append IsNamed (if current then protect id.arg false ∷ [] else [])
          (move id.arg container ∷ []) (All-if current (protect id.arg false) refl) (refl, tt)

    cons-ne-nil : (ks ls : List Command) (k : Command) → ks ++ k ∷ ls ≡ [] → ⊥
    cons-ne-nil [] ls k h = cc
    cons-ne-nil (j ∷ ks) ls k h = cc

    settle_ou-stale :
        (p : Entries) (name : String) (before after : List Command) (s : S)
        → ((s s' : S) → d.perform (rename id.arg name) s ≡ some s' → d.finds s' id.arg ≡ false)
        → text_at "identity" p ≡ id.arg
        → changes p ≡ before ++ rename id.arg name ∷ after
        → All IsNamed after
        → run_plan d (settle_ou p) s ≡ none
    unfolding commands
    settle_ou-stale p name before after s away same e named = elim (settle_ou-cases p) [
      | inr (kept, idle) ↦ absurd (cons-ne-nil before after (rename id.arg name) (sym e ∙ idle))
      | inl sent ↦
          ap (λ x. run_plan d x s) sent
          ∙ ap (λ i. perform_all d (changes p ++ read_back i ∷ []) s) same
          ∙ ap (λ ks. perform_all d (ks ++ read_back id.arg ∷ []) s) e
          ∙ ap (λ ks. perform_all d ks s)
              (append_assoc before (rename id.arg name ∷ after) (read_back id.arg ∷ []))
          ∙ perform_all-fails before (rename id.arg name ∷ (after ++ read_back id.arg ∷ []))
              (λ t. perform_all-renamed name after t away named) s
    ]

    -- If a command fails whose identity leads to nothing, and after the rename the identity that the
    -- caller gave leads to nothing, as a distinguished name does, then the script of an Update that
    -- changes the name always fails, although it may have renamed the unit.
    pub plan_update-stale :
        (a : Adcore) (spec : OuSpec) (current : Ou) (same : Bool) (s : S)
        → ((s s' : S) → d.perform (rename id.arg spec.name) s ≡ some s' → d.finds s' id.arg ≡ false)
        → a.equal_fold_dn spec.container current.container ≡ valid same
        → str_eq spec.name current.name ≡ false
        → run_plan d (plan_update a id spec current) s ≡ none
    unfolding identity_of
    plan_update-stale a spec current same s away agree other =
        let w = draft-Drafts id spec.description in
        let final = final_protected spec current in
        let after = if not same && current.protected then false else current.protected in
        let sets = if ltb 1 (size w.0) then set_attributes w.0 ∷ [] else [] in
        let moves : List Command =
          if same
          then []
          else (if current.protected then protect id.arg false ∷ [] else [])
            ++ move id.arg spec.container ∷ [] in
        let protects : List Command =
          if differ final after then protect id.arg final ∷ [] else [] in
        let e =
          changes-payload id w.0 spec.name current.name spec.container same current.protected final
          ∙ ap
              (λ b.
                sets
                ++ ((if not b then rename id.arg spec.name ∷ [] else []) ++ (moves ++ protects)))
              other in
        ap (λ x. run_plan d x s) (plan_update-settled a id spec current w.0 same w.1 agree)
        ∙ settle_ou-stale _ spec.name sets (moves ++ protects) s away
            (identity-payload id w.0 spec.name current.name spec.container same current.protected
              final)
            e
            (All-append IsNamed moves protects (All-move same current.protected spec.container)
              (All-if (differ final after) (protect id.arg final) refl))
