-- ===== src/Client/Laws/Idle.antt =====
-- An Update that asks for what is there already.
use go_adpwsh.Prelude.{
  ℕ, ◌≡◌, refl, sym, subst, String, Bool, true, false, Option, none, some, List, arith, ltb, str_eq,
  eq_refl,
}
use go_adpwsh.Core.Errors.{Error, ok}
use go_adpwsh.Core.Mask.{Payload, Entries}
use go_adpwsh.Core.Exec.{Platform, Core, Session}
use go_adpwsh.Script.Attrs.{written, apply}
use go_adpwsh.Client.Replication.{ReplicationConfig, arrived}
use go_adpwsh.Client.Objects.Shape.{
  Identity, Adcore, Draft, valid, apply_string_field, put_changed, put_some, flag,
}
use go_adpwsh.Client.Objects.Access.{Resource, read}
use go_adpwsh.Client.Objects.Writing.{Plan, keep, returned, carry_out, update_object}
use go_adpwsh.Client.Objects.Changes.{
  blank, size, is_absent, with_set, with_rename, with_move, settle, Placed, plan_change,
}
use go_adpwsh.Client.Group.Plans.{put_sam}
use go_adpwsh.Client.User.Plans.{leave_expiration, set_expiration}
use go_adpwsh.Client.Computer.Plans.{
  Computer, ComputerSpec, computer_project, sam_without_dollar, draft, draft_texts, set_values,
  draft_delegation,
}
use go_adpwsh.Client.Computer.Plans
use go_adpwsh.Client
use go_adpwsh.Client.Computer.{computer_resource}

module _ {J A : Type 0} (p : Platform) (a : Adcore) (r : Resource J A) (now : Session → ℕ)
    (fuel : ℕ) (c : Core) (cfg : ReplicationConfig) where
  update_object-keep :
      (id : Identity) (plan : A → Plan) (current : A) (s : Session)
      → (read p a r c id s).0 ≡ ok current
      → plan current ≡ keep
      → update_object p a r now fuel c cfg id plan s
        ≡ (returned current arrived, (read p a r c id s).1)
  unfolding update_object carry_out
  update_object-keep id plan current s there idle = rw (there, idle, update_object, carry_out) refl

plan_change-keep :
    (a : Adcore) (op : String) (id : Identity) (project : List String) (d : Draft)
    (wanted current : Placed) (set : Entries)
    → apply d.ops d.splat ≡ written set
    → ltb 1 (size set) ≡ false
    → str_eq wanted.name current.name ≡ true
    → a.equal_fold_dn wanted.container current.container ≡ valid true
    → plan_change a op id project d wanted current ≡ keep
unfolding plan_change with_set with_rename with_move settle is_absent
plan_change-keep a op id project d wanted current set fine small same_name same =
    rw (fine, same, plan_change) (ground (arith, small, same_name))

-- A spec with the name, the account name, the container and the two flags that were read; it does not
-- name any other attribute.
abbrev pub computer_spec_of : Computer → ComputerSpec
computer_spec_of o = record {
  name = o.name;
  sam_account_name = o.sam_account_name;
  container = o.container;
  dns_host_name = none;
  description = none;
  display_name = none;
  location = none;
  managed_by = none;
  enabled = some o.enabled;
  trusted_for_delegation = some o.trusted_for_delegation;
  service_principal_names = none;
  allowed_to_delegate_to = none;
  principals_allowed = none;
  kerberos_encryption_type = none;
  account_expiration = leave_expiration;
}

put_changed_same :
    (k : String) (f : Bool → Payload) (b : Bool) (set : Entries)
    → put_changed k f (some b) b set ≡ set
unfolding put_changed
put_changed_same k f true set = refl
put_changed_same k f false set = refl

put_sam_same : (name : String) (set : Entries) → put_sam name name set ≡ set
unfolding put_sam
put_sam_same name set = rw (eq_refl name, put_sam) refl

draft-blank :
    (a : Adcore) (id : Identity) (o : Computer)
    → sam_without_dollar o.sam_account_name ≡ o.sam_account_name
    → draft a id (computer_spec_of o) o ≡ blank id
unfolding draft draft_texts set_values draft_delegation set_expiration put_some apply_string_field
draft-blank a id o bare =
    rw
      (
        bare,
        put_sam_same o.sam_account_name (blank id).splat,
        put_changed_same "Enabled" flag o.enabled (blank id).splat,
        put_changed_same "TrustedForDelegation" flag o.trusted_for_delegation (blank id).splat,
      )
      refl

abbrev placed : Computer → Placed
placed o = record { name = o.name; container = o.container }

plan_update-keep :
    (a : Adcore) (id : Identity) (o : Computer)
    → sam_without_dollar o.sam_account_name ≡ o.sam_account_name
    → a.equal_fold_dn o.container o.container ≡ valid true
    → Plans.plan_update a id (computer_spec_of o) o ≡ keep
unfolding Plans.plan_update apply size
plan_update-keep a id o bare same =
    subst (λ d. plan_change a "Computer.Update" id computer_project d (placed o) (placed o) ≡ keep)
      (sym (draft-blank a id o bare))
      (plan_change-keep a "Computer.Update" id computer_project (blank id) (placed o) (placed o)
        (blank id).splat refl refl (eq_refl o.name) same)

-- An Update of a computer with a spec that has the name, the account name, the container and the two
-- flags that were read and leaves every other attribute out, of an account whose name, as it was read,
-- does not end in a dollar sign and for a spec that is valid, returns what it read and does nothing
-- else: the directory is not written to, and no replication is waited for.
pub update-idle :
    (p : Platform) (a : Adcore) (validate : ComputerSpec → String → Bool → Option Error)
    (now : Session → ℕ) (fuel : ℕ) (c : Core) (cfg : ReplicationConfig) (id : Identity)
    (o : Computer) (s : Session)
    → validate (computer_spec_of o) "Computer.Update" false ≡ none
    → (Client.Computer.get p a c id s).0 ≡ ok o
    → sam_without_dollar o.sam_account_name ≡ o.sam_account_name
    → a.equal_fold_dn o.container o.container ≡ valid true
    → Client.Computer.update p a validate now fuel c cfg id (computer_spec_of o) s
      ≡ (returned o arrived, (Client.Computer.get p a c id s).1)
unfolding Client.Computer.update Client.Computer.get
update-idle p a validate now fuel c cfg id o s sound there bare same =
    rw (sound, Client.Computer.update)
      (update_object-keep p a (computer_resource a) now fuel c cfg id
        (Plans.plan_update a id (computer_spec_of o)) o s there (plan_update-keep a id o bare same))
