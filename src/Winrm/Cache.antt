-- ===== src/Winrm/Cache.antt =====
-- What the negative cache says after a failure and after a success.
use go_adpwsh.Prelude.{
  ℕ, ◌+◌, ◌≡◌, String, false, none, some, List, [], ◌∷◌, arith, ltb, if◌then◌else◌, str_eq, eq_iff,
}
use go_adpwsh.Winrm.Failover.{down_until, is_down, delete, mark_down, clear, cooldown}

down_until-delete :
    (h k : String) (m : List (String × ℕ))
    → down_until k (delete h m) ≡ (if str_eq h k then none else down_until k m)
unfolding down_until delete
down_until-delete h k [] = ground arith
down_until-delete h k ((j, t) ∷ m) =
    ground (arith, down_until-delete h k m, eq_iff j h, eq_iff j k, eq_iff h k)

-- A failed endpoint is skipped for the cooldown from the time of the failure and no longer; what is
-- known of the other endpoints stays.
pub is_down-mark_down :
    (now t : ℕ) (h k : String) (m : List (String × ℕ))
    → is_down (mark_down now h (some m)) t k
      ≡ (if str_eq h k then ltb t (now + cooldown) else is_down (some m) t k)
unfolding is_down mark_down
is_down-mark_down now t h k m = ground (arith, down_until-delete h k m, eq_iff h k)

-- An endpoint that was reached is no longer skipped; what is known of the others stays.
pub is_down-clear :
    (t : ℕ) (h k : String) (m : List (String × ℕ))
    → is_down (clear h (some m)) t k ≡ (if str_eq h k then false else is_down (some m) t k)
unfolding is_down clear
is_down-clear t h k m = ground (arith, down_until-delete h k m, eq_iff h k)
