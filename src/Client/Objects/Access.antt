-- ===== src/Client/Objects/Access.antt =====
-- Reading, searching and deleting an object: what the Get, Search and Delete of each class do.
use go_adpwsh.Prelude.{
  ℕ, String, Bool, Option, none, some, List, [], ◌∷◌, if◌then◌else◌, ltb, length, ◌>>=◌,
}
use Prim.Native.String.{◌++◌ as str_append}
use go_adpwsh.Prelude.Json.{Value, lookup_member}
use go_adpwsh.Core.Errors.{
  transport, too_many_results, error_of, Result, ok, err, panic, message, too_many,
}
use go_adpwsh.Core.Decode.{as_bool, as_list, as_members}
use go_adpwsh.Core.Mask.{end, entry}
use go_adpwsh.Core.Exec.{Platform, Core, M, exec}
use go_adpwsh.Client.Acl.{named_error}
use go_adpwsh.Client.Objects.Shape.{
  Identity, Checked, valid, invalid, PresenceCheck, Query, Adcore, classify_presence, text,
  text_list, query_payload,
}

-- What the five clients differ in: the noun in the names of their operations, the names of their
-- scripts, the properties a read asks for, the struct `J` of a reply and the object `A` it is made
-- into, and three fields of that.
pub record Resource (J A : Type 0) : Type 0 where
  pub noun : String
  pub op_create : String
  pub op_read : String
  pub op_search : String
  pub op_update : String
  pub op_delete : String
  pub project : List String
  pub decode : Value → Option J
  pub model : J → Checked A
  pub guid : A → String
  pub dn : A → String

pub record Deletion : Type 0 where
  pub deleted : Bool
  pub verify : PresenceCheck

module _ {J A : Type 0} (p : Platform) (a : Adcore) (r : Resource J A) where
  abbrev pub operation : String → String
  operation method = str_append r.noun method

  -- model, err := out.model(), and the error that a failure becomes
  unfoldable pub modelled : String → Result J → Result A
  modelled op (err e) = err e
  modelled op panic = panic
  modelled op (ok j) = elim (r.model j) [
    | valid o ↦ ok o
    | invalid m ↦ err (error_of transport op (message m))
  ]

  -- Get
  unfoldable pub read : Core → Identity → M A
  unfolding modelled exec
  read c id s =
      let out =
        exec p c r.decode r.op_read
          (entry "identity" (text id.arg) (entry "project" (text_list r.project) end)) s in
      (
        modelled (operation ".Get")
            (named_error p a.with_identity (operation ".Get") id.text out.0),
        out.1,
      )

  -- The loop of Search over the results.
  unfoldable pub model_all : String → List J → Result (List A)
  model_all op [] = ok []
  model_all op (j ∷ js) =
      let rest = model_all op js in
      elim (r.model j) [
        | invalid m ↦ err (error_of transport op (message m))
        | valid o ↦ elim rest [ ok os ↦ ok (o ∷ os) | err e ↦ err e | panic ↦ panic ]
      ]

  abbrev pub decode_results : Value → Option (List J)
  decode_results v = do m ← as_members v; as_list r.decode (lookup_member "results" m)

  -- What Search makes of the reply.
  unfoldable pub within_limit : ℕ → Result (List J) → Result (List A)
  unfolding model_all
  within_limit limit (err e) = err e
  within_limit limit panic = panic
  within_limit limit (ok results) =
      if ltb limit (length results)
      then err (error_of too_many_results (operation ".Search") (too_many limit))
      else model_all (operation ".Search") results

  -- The call of Search.
  unfoldable pub ask : Core → Query → M (List J)
  unfolding query_payload exec
  ask c q = exec p c decode_results r.op_search (query_payload q r.project)

  -- Search
  unfoldable pub find : Core → Query → M (List A)
  unfolding ask within_limit
  find c q s =
      let q' = a.with_defaults q c.dnc in
      (within_limit q'.size_limit (ask c q' s).0, (ask c q' s).1)

  abbrev pub decode_deletion : Value → Option Deletion
  decode_deletion v = do
    m ← as_members v
    deleted ← as_bool (lookup_member "deleted" m)
    verify ← a.decode_presence (lookup_member "verify" m)
    some (record { deleted = deleted; verify = verify })

  -- return classify(out.Verify).ConfirmAbsent(op, id, current.DN)
  unfoldable pub confirm : Identity → String → PresenceCheck → Result (Unit {0})
  unfolding classify_presence
  confirm id dn verify =
      elim (a.confirm_absent (classify_presence p.classify_code verify) (operation ".Delete") id
        dn) [ none ↦ ok tt | some e ↦ err e ]

  abbrev pub confirmed : Identity → A → Result Deletion → Result (Unit {0})
  confirmed id current (ok d) = confirm id (r.dn current) d.verify
  confirmed id current (err e) = err (a.with_identity e (operation ".Delete") id.text)
  confirmed id current panic = panic

  -- The call of Delete, once the object is read.
  unfoldable pub remove : Core → Identity → A → M (Unit {0})
  unfolding exec confirm
  remove c id current s =
      let out =
        exec p c decode_deletion r.op_delete (entry "identity" (text (r.guid current)) end) s in
      (confirmed id current out.0, out.1)

  -- Delete, of every class but the organizational unit
  unfoldable pub delete : Core → Identity → M (Unit {0})
  unfolding read remove
  delete c id s = elim (read c id s).0 [
    | ok current ↦ remove c id current (read c id s).1
    | err e ↦ (err e, (read c id s).1)
    | panic ↦ (panic, (read c id s).1)
  ]
