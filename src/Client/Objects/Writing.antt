-- ===== src/Client/Objects/Writing.antt =====
-- Creating and updating an object: what follows the payload in the Create and Update of each class.
use go_adpwsh.Prelude.{ℕ, String}
use go_adpwsh.Core.Errors.{Error, Result, ok, err, panic}
use go_adpwsh.Core.Mask.{Entries}
use go_adpwsh.Core.Exec.{Platform, Core, Session, exec}
use go_adpwsh.Client.Acl.{named_error}
use go_adpwsh.Client.Deleted.{annotate_already_exists}
use go_adpwsh.Client.Replication.{ReplicationConfig, Waited, arrived, replicate}
use go_adpwsh.Client.Objects.Shape.{Identity, Adcore}
use go_adpwsh.Client.Objects.Access.{Resource, operation, modelled, read}

-- What a write returns: no object and an error; an object, with what the wait for replication
-- returned; or a panic.
pub data Reply (A : Type 0) : Type 0 where
  failed : Error → Reply A
  returned : A → Waited → Reply A
  died : Reply A

-- What Update decides to do with the object it read.
pub data Plan : Type 0 where
  reject : Error → Plan
  keep : Plan
  send : Entries → Plan

module _ {J A : Type 0} (p : Platform) (a : Adcore) (r : Resource J A) (now : Session → ℕ)
    (fuel : ℕ) (c : Core) (cfg : ReplicationConfig) where
  -- return model, c.replicate(ctx, model.GUID)
  unfoldable pub replicated : Result A → Session → Reply A × Session
  unfolding replicate
  replicated (err e) s = (failed e, s)
  replicated panic s = (died, s)
  replicated (ok o) s = (
    returned o (replicate p now fuel c cfg (r.guid o) s).0,
    (replicate p now fuel c cfg (r.guid o) s).1,
  )

  -- What Create does with the outcome of its call; the filter finds the deleted object of the name.
  unfoldable pub created : String → Result J → Session → Reply A × Session
  unfolding replicated modelled annotate_already_exists
  created filter (err e) s = (
    failed (annotate_already_exists p c e filter s).0,
    (annotate_already_exists p c e filter s).1,
  )
  created filter (ok j) s = replicated (modelled p a r (operation p a r ".Create") (ok j)) s
  created filter panic s = (died, s)

  -- Create, from its call on
  unfoldable pub create_object : String → Entries → Session → Reply A × Session
  unfolding exec created
  create_object filter payload s =
      let out = exec p c r.decode r.op_create payload s in created filter out.0 out.1

  -- Update, from its call on
  unfoldable pub send_update : Identity → Entries → Session → Reply A × Session
  unfolding exec modelled replicated
  send_update id payload s =
      let out = exec p c r.decode r.op_update payload s in
      let op = operation p a r ".Update" in
      replicated (modelled p a r op (named_error p a.with_identity op id.text out.0)) out.1

  unfoldable pub carry_out : Identity → A → Plan → Session → Reply A × Session
  unfolding send_update
  carry_out id current (reject e) s = (failed e, s)
  carry_out id current keep s = (returned current arrived, s)
  carry_out id current (send payload) s = send_update id payload s

  -- Update, once the spec is found valid: read the object, plan the change, carry it out.
  unfoldable pub update_object : Identity → (A → Plan) → Session → Reply A × Session
  unfolding read carry_out
  update_object id plan s = elim (read p a r c id s).0 [
    | ok current ↦ carry_out id current (plan current) (read p a r c id s).1
    | err e ↦ (failed e, (read p a r c id s).1)
    | panic ↦ (died, (read p a r c id s).1)
  ]
