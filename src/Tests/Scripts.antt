-- ===== src/Tests/Scripts.antt =====
-- internal/adscript: an attribute that is both replaced and cleared.
use go_adpwsh.Script.Attrs.Counts.{
  times_added, times_removed, times_replaced, times_cleared, copies,
}
use go_adpwsh.Prelude.{String, ◌++◌, ◌≡◌, refl, [], ◌∷◌, ◌↔◌}
use go_adpwsh.Prelude.Text.{codes, to_lower}
use go_adpwsh.Prelude.Json.{null}
use go_adpwsh.Core.Mask
use go_adpwsh.Core.Mask.{leaf}
use go_adpwsh.Script.Attrs.{
  op_add, op_remove, op_clear, op_replace, AttrOps, no_ops, replace_value, clear_name,
  ConflictError, apply, written, write_splat,
}
use go_adpwsh.Script.Attrs.Legal.{Once, apply-written, apply-refused}

abbrev conflicting : AttrOps
conflicting = clear_name "Title" (replace_value "title" (leaf null) no_ops)

abbrev conflict : ConflictError
conflict = record { attribute = codes "title"; ops = op_clear ∷ op_replace ∷ [] }

apply-written_example :
    (apply conflicting Mask.end ≡ written (write_splat conflicting Mask.end))
    ↔ ((k : String) → Once conflicting k)
apply-written_example = apply-written conflicting Mask.end

apply-refused_example :
    (k : String) × (codes "title" ≡ to_lower (codes k))
    × (¬ Once conflicting k)
    × (op_clear ∷ op_replace ∷ []
        ≡ copies (times_added conflicting k) op_add
          ++ (copies (times_cleared conflicting k) op_clear
              ++ (copies (times_removed conflicting k) op_remove
                  ++ copies (times_replaced conflicting k) op_replace)))
unfolding apply clear_name replace_value
apply-refused_example = apply-refused conflicting Mask.end conflict refl
