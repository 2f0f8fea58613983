-- ===== src/Client/Ou/Moves.antt =====
-- What the payload of an Update of an organizational unit makes of it, by way of the script.
use go_adpwsh.Prelude.{
  ◌≡◌, refl, sym, subst, String, Bool, true, false, not, Option, none, some, List, [], ◌∷◌, ◌++◌,
  ◌&&◌, if◌then◌else◌, str_eq, eq_iff, ltb, arith, Bool-cases, ◌⊎◌, inl, inr,
}
use go_adpwsh.Core.Mask.{Entries, put}
use go_adpwsh.Script.Attrs.{written, apply, write_splat, clear_name, no_ops}
use go_adpwsh.Client.Objects.Shape.{Identity, Adcore, valid, apply_string_field, Draft, text}
use go_adpwsh.Client.Objects.Writing.{Plan, reject, keep, send}
use go_adpwsh.Client.Objects.Changes.{
  blank, is_absent, base, size, with_set, with_rename, with_move,
}
use go_adpwsh.Client.Ou.Plans.{
  ou_project, Ou, OuSpec, differ, draft, final_protected, with_protection, settle_ou, plan_update,
}
use go_adpwsh.Client.Ou.Script.{
  Command, set_attributes, rename, move, protect, text_at, changes, commands, View, effect,
  Directory, Obeys, Lasts, perform_all,
}

abbrev pub view_of : Ou → View
view_of o = record {
  name = o.name;
  container = o.container;
  description = o.description;
  protected = o.protected;
}

abbrev pub wanted_text : Option String → String → String
wanted_text none old = old
wanted_text (some t) old = t

-- The organizational unit that a spec asks for, where `same` says that its container is the current
-- one.
abbrev pub wanted : OuSpec → Bool → Ou → View
wanted spec same current = record {
  name = spec.name;
  container = if same then current.container else spec.container;
  description = wanted_text spec.description current.description;
  protected = final_protected spec current;
}

-- The plan, carried out by the script in a directory; a rejected plan has no outcome.
abbrev pub run_plan : {S : Type 0} → Directory S → Plan → S → Option S
run_plan d (reject e) s = none
run_plan d keep s = some s
run_plan d (send payload) s = perform_all d (commands payload) s

abbrev seen_as : String → String → String → Bool → View
seen_as name container description protected = record {
  name = name;
  container = container;
  description = description;
  protected = protected;
}

-- What a write of the splat does to the description.
abbrev pub Writes : Option String → Entries → Type 0
Writes wish set =
    (v : View)
    → (ltb 1 (size set) ≡ true
        → effect (set_attributes set) v ≡ record v { description = wanted_text wish v.description })
      × (ltb 1 (size set) ≡ false → wanted_text wish v.description ≡ v.description)

pub fields : Identity → Option String → Draft
unfolding apply_string_field
fields id wish = apply_string_field "Description" "description" wish (blank id)

cleared-Writes :
    (id : Identity)
    → Writes (some "") (write_splat (clear_name "description" no_ops) (blank id).splat)
unfolding effect size write_splat clear_name
cleared-Writes id v = (λ h. refl, λ h. cc)

filled-Writes :
    (id : Identity) (t : String) → Writes (some t) (put "Description" (text t) (blank id).splat)
unfolding effect size put
filled-Writes id t v = (λ h. refl, λ h. cc)

abbrev pub Drafts : Identity → Option String → Type 0
Drafts id wish =
    (set : Entries) × (apply (fields id wish).ops (fields id wish).splat ≡ written set)
    × Writes wish set
    × (text_at "Identity" set ≡ id.arg)

Drafts-cleared : (id : Identity) → Drafts id (some "")
unfolding fields apply apply_string_field text_at write_splat clear_name
Drafts-cleared id =
    (write_splat (clear_name "description" no_ops) (blank id).splat, refl, cleared-Writes id, refl)

pub draft-Drafts : (id : Identity) (wish : Option String) → Drafts id wish
unfolding fields apply apply_string_field size text_at put
draft-Drafts id none = ((blank id).splat, refl, λ v. (λ h. cc, λ h. refl), refl)
draft-Drafts id (some t) = elim (Bool-cases (str_eq t "")) [
  | inl empty ↦ subst (λ w. Drafts id (some w)) (sym ((eq_iff t "").0 empty)) (Drafts-cleared id)
  | inr filled ↦ (
    put "Description" (text t) (blank id).splat,
    rw (filled, apply_string_field) refl,
    filled-Writes id t,
    refl,
  )
]

module _ (id : Identity) (set : Entries) where
  pub changes-payload :
      (name old container : String) (same current final : Bool)
      → changes (
          with_protection same current final (
            with_move id container same
              (with_rename id name old (with_set set (base id ou_project)))))
        ≡ (if ltb 1 (size set) then set_attributes set ∷ [] else [])
          ++ ((if not (str_eq name old) then rename id.arg name ∷ [] else [])
              ++ ((if same
                    then []
                    else (if current then protect id.arg false ∷ [] else [])
                      ++ move id.arg container ∷ [])
                  ++ (if differ final (if not same && current then false else current)
                      then protect id.arg final ∷ []
                      else [])))
  unfolding changes text_at with_protection with_move with_rename with_set
  changes-payload name old container same current final = ground arith

  -- The payload of an Update keeps the identity that it starts with.
  pub identity-payload :
      (name old container : String) (same current final : Bool)
      → text_at "identity" (
          with_protection same current final (
            with_move id container same
              (with_rename id name old (with_set set (base id ou_project)))))
        ≡ id.arg
  unfolding text_at with_protection with_move with_rename with_set
  identity-payload name old container same current final = ground arith

pub plan_update-settled :
    (a : Adcore) (id : Identity) (spec : OuSpec) (current : Ou) (set : Entries) (same : Bool)
    → apply (fields id spec.description).ops (fields id spec.description).splat ≡ written set
    → a.equal_fold_dn spec.container current.container ≡ valid same
    → plan_update a id spec current
      ≡ settle_ou (
          with_protection same current.protected (final_protected spec current) (
            with_move id spec.container same
              (with_rename id spec.name current.name (with_set set (base id ou_project)))))
unfolding plan_update draft fields
plan_update-settled a id spec current set same fine agree = rw (fine, agree, plan_update) refl

pub settle_ou-cases :
    (p : Entries) → (settle_ou p ≡ send p) ⊎ ((settle_ou p ≡ keep) × (changes p ≡ []))
unfolding settle_ou changes is_absent
settle_ou-cases p =
    elim (Bool-cases (
      is_absent "set" p
      && (is_absent "rename" p && (is_absent "move" p && is_absent "protect" p)))) [
        | inl idle ↦ inr (rw (idle, settle_ou) refl, ground (arith, idle))
        | inr busy ↦ inl (rw (busy, settle_ou) refl)
      ]

module _ {S : Type 0} (d : Directory S) (obeys : Obeys S d) (id : Identity)
    (lasts : Lasts S d id.arg) where
  -- What can be seen of the unit, which the identity leads to.
  abbrev Seen : S → View → Type 0
  Seen s v = (d.view s ≡ v) × (d.finds s id.arg ≡ true)

  -- The commands succeed, and the organizational unit is then as said.
  abbrev Reaches : List Command → S → View → Type 0
  Reaches ks s v = (s' : S) × (perform_all d ks s ≡ some s') × Seen s' v
