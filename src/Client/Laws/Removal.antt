-- ===== src/Client/Laws/Removal.antt =====
-- When Delete of an organizational unit says that it is gone.
use go_adpwsh.Prelude.{◌≡◌, ◌↔◌, refl, sym, ◌∙◌, Bool, true, none, arith}
use go_adpwsh.Core.Errors.{Result, ok, err, panic}
use go_adpwsh.Core.Exec.{Platform, Core, Session, exec}
use go_adpwsh.Client.Objects.Shape.{Identity, Adcore, classify_presence}
use go_adpwsh.Client.Objects.Access.{confirm}
use go_adpwsh.Client.Ou.Plans.{Ou}
use go_adpwsh.Prelude.Json.{str, bool}
use go_adpwsh.Core.Mask.{leaf, entry, end}
use go_adpwsh.Client.Ou.{
  decode_delete_reply, DeleteReply, get, ask_delete, judge_delete, send_delete, delete,
}

module _ (p : Platform) (a : Adcore) (id : Identity) where
  -- A reply of the script that says that it deleted the unit, and a later read that did not find it.
  abbrev pub Gone : Ou → Result DeleteReply → Type 0
  Gone current r =
      (out : DeleteReply) × (r ≡ ok out)
      × (out.deleted ≡ true)
      × (a.confirm_absent (classify_presence p.classify_code out.verify) "OU.Delete" id current.dn
          ≡ none)

  judge_delete-Gone :
      (current : Ou) (r : Result DeleteReply)
      → judge_delete p a id current r ≡ ok tt
      → Gone current r
  unfolding judge_delete confirm
  judge_delete-Gone current (ok out) h = (out, refl, ground arith, ground arith)
  judge_delete-Gone current (err e) h = cc
  judge_delete-Gone current panic h = cc

  Gone-judge_delete :
      (current : Ou) (r : Result DeleteReply)
      → Gone current r
      → judge_delete p a id current r ≡ ok tt
  unfolding judge_delete confirm
  Gone-judge_delete current r (out, e, deleted, absent) =
      rw (e, deleted, absent, judge_delete, confirm) refl

  module _ (c : Core) (unprotect : Bool) (s : Session) where
    delete-judged :
        (current : Ou)
        → (get p a c id s).0 ≡ ok current
        → (delete p a c id unprotect s).0
          ≡ judge_delete p a id current (ask_delete p a c unprotect current (get p a c id s).1).0
    unfolding delete send_delete
    delete-judged current e = rw (e, delete, send_delete) refl

    delete-cases :
        (r : Result Ou)
        → (get p a c id s).0 ≡ r
        → (delete p a c id unprotect s).0 ≡ ok tt
        → (current : Ou) × (r ≡ ok current)
    unfolding delete
    delete-cases (ok current) e h = (current, refl)
    delete-cases (err f) e h = cc
    delete-cases panic e h = cc

    -- What the script answers to the call that follows the read, whose payload names the unit by the
    -- GUID that was read.
    abbrev pub Answered : Ou → Type 0
    Answered current =
        Gone current
          (exec p c (decode_delete_reply p a) "ou_delete"
            (entry "identity" (leaf (str current.guid))
              (entry "dn" (leaf (str current.dn)) (entry "unprotect" (leaf (bool unprotect)) end)))
            (get p a c id s).1).0

    -- Delete of an organizational unit returns without an error exactly if it read the unit, the script,
    -- asked to delete what has the GUID that was read, said that it deleted it, and go-adcore, given
    -- the outcome of the re-read with its kind classified, confirmed that the unit is absent. So a
    -- unit that has children, of which the script deletes nothing, is always an error.
    pub delete-Gone :
        ((delete p a c id unprotect s).0 ≡ ok tt)
        ↔ ((current : Ou) × ((get p a c id s).0 ≡ ok current) × Answered current)
    unfolding ask_delete
    delete-Gone = (
      λ h.
          let r = delete-cases (get p a c id s).0 refl h in
          (r.0, r.1, judge_delete-Gone r.0 _ (sym (delete-judged r.0 r.1) ∙ h)),
      λ (current, there, gone). delete-judged current there ∙ Gone-judge_delete current _ gone,
    )
