-- ===== src/Client/Replication.antt =====
-- replication.go, and ReplicationConfig of config.go: the wait that follows a write. A duration of
-- the configuration is a signed number of nanoseconds.
use go_adpwsh.Prelude.{
  ℕ, zero, suc, ◌+◌, String, Bool, false, ◌||◌, not, Option, none, some, List, [], ◌∷◌,
  if◌then◌else◌, str_eq, ltb, ◌>>=◌,
}
use Prim.Native.String.{◌++◌ as str_append}
use go_adpwsh.Prelude.Text.{codes, equal_fold}
use go_adpwsh.Prelude.Json.{ℤ, pos, negsuc, Value, str, arr, Items, nil, cons, lookup_member}
use go_adpwsh.Core.Errors.{
  transport, replication, Error, error_of, Result, ok, err, panic, pending, context_done,
}
use go_adpwsh.Core.Decode.{as_str, as_bool, as_list, as_members}
use go_adpwsh.Core.Mask.{leaf, end, entry}
use go_adpwsh.Core.Exec.{Platform, Core, Session, M, sleep, exec}

pub record ReplicationConfig : Type 0 where
  pub wait : Bool
  pub targets : List String
  pub force_sync : Bool
  pub timeout : ℤ
  pub poll_interval : ℤ

-- !(d <= 0)
abbrev pub is_positive : ℤ → Bool
is_positive (pos n) = ltb 0 n
is_positive (negsuc n) = false

-- How long a timer of a duration runs, and how far off a deadline is that it sets: one that is negative
-- is over at once, as zero is.
abbrev pub nanoseconds : ℤ → ℕ
nanoseconds (pos n) = n
nanoseconds (negsuc n) = 0

unfoldable pub with_defaults : ReplicationConfig → ReplicationConfig
with_defaults r = record r {
  timeout = if is_positive r.timeout then r.timeout else pos 60_000_000_000;
  poll_interval = if is_positive r.poll_interval then r.poll_interval else pos 2_000_000_000;
}

-- `len(configured) == 1 && strings.EqualFold(configured[0], "all")`
abbrev pub is_all : List String → Bool
is_all (t ∷ []) = equal_fold (codes t) (codes "all")
is_all _ = false

-- The targets without the empty name and the pinned source.
unfoldable pub other_targets : String → List String → List String
unfolding equal_fold
other_targets server [] = []
other_targets server (t ∷ ts) =
    let rest = other_targets server ts in
    if str_eq t "" || equal_fold (codes t) (codes server) then rest else t ∷ rest

abbrev pub text_items : List String → Items
text_items [] = nil
text_items (t ∷ ts) = cons (str t) (text_items ts)

abbrev pub decode_host_names : Value → Option (List String)
decode_host_names v = do
  m ← as_members v
  as_list (λ w. as_str (some w)) (lookup_member "hostNames" m)

pub record Presence : Type 0 where
  pub target : String
  pub present : Bool

abbrev pub decode_presence : Value → Option Presence
decode_presence v = do
  m ← as_members v
  target ← as_str (lookup_member "target" m)
  present ← as_bool (lookup_member "present" m)
  some (record { target = target; present = present })

abbrev pub decode_presences : Value → Option (List Presence)
decode_presences v = do m ← as_members v; as_list decode_presence (lookup_member "results" m)

-- The names of the targets that do not have the object.
unfoldable pub absent : List Presence → List String
absent [] = []
absent (r ∷ rs) = let rest = absent rs in if r.present then rest else r.target ∷ rest

-- How the wait ends.
pub data Waited : Type 0 where
  arrived : Waited
  gave_up : Error → Waited
  crashed : Waited
  out_of_fuel : Waited

unfoldable pub timed_out : String → List String → Error
timed_out guid names = record (error_of replication "Replication.Wait" (pending names)) {
  identity = str_append "guid:" guid;
}

module _ (p : Platform) where
  unfoldable pub replication_targets : Core → ReplicationConfig → M (List String)
  unfolding exec other_targets
  replication_targets c cfg s =
      if is_all cfg.targets
      then (
        elim (exec p c decode_host_names "dclist" end s).0 [
          | ok names ↦ ok (other_targets c.server names)
          | err e ↦ err e
          | panic ↦ panic
        ],
        (exec p c decode_host_names "dclist" end s).1,
      )
      else (ok (other_targets c.server cfg.targets), s)

  -- One question to all the targets.
  unfoldable pub verify : Core → String → List String → M (List Presence)
  unfolding exec
  verify c guid targets =
      exec p c decode_presences "replicate_verify"
        (entry "identity" (leaf (str guid)) (entry "targets" (leaf (arr (text_items targets))) end))

  -- A forced synchronisation, whose failure is only logged.
  unfoldable pub force : Core → ReplicationConfig → String → List String → Session → Session
  unfolding exec
  force c cfg guid targets s =
      if cfg.force_sync
      then (exec p c (λ v. some v) "replicate"
          (entry "identity" (leaf (str guid)) (
            entry "source" (leaf (str c.server))
              (entry "targets" (leaf (arr (text_items targets))) end)))
          s).1
      else s

module _ (p : Platform) (now : Session → ℕ) where
  -- What one round of the loop does: `none` is another round.
  unfoldable pub judge :
      ReplicationConfig → String → ℕ → Result (List Presence) → Session → Option Waited
  unfolding absent timed_out
  judge cfg guid deadline (err e) s = some (gave_up e)
  judge cfg guid deadline panic s = some crashed
  judge cfg guid deadline (ok results) s = elim (absent results) [
    | [] ↦ some arrived
    | t ∷ ts ↦
        if not (ltb (now s) deadline)
        then some (gave_up (timed_out guid (t ∷ ts)))
        else if p.done s.calls
        then some (gave_up (error_of transport "Replication.Wait" context_done))
        else none
  ]

  -- The polling loop, with fuel.
  unfoldable pub poll :
      ℕ → Core → ReplicationConfig → String → List String → ℕ → Session → Waited × Session
  unfolding judge
  poll zero c cfg guid targets deadline s = (out_of_fuel, s)
  poll (suc fuel) c cfg guid targets deadline s =
      let s' = (verify p c guid targets s).1 in
      elim (judge cfg guid deadline (verify p c guid targets s).0 s') [
        | some w ↦ (w, s')
        | none ↦ poll fuel c cfg guid targets deadline (sleep (nanoseconds cfg.poll_interval) s')
      ]

  -- The part of replicate below the choice of the targets.
  unfoldable pub await :
      ℕ → Core → ReplicationConfig → String → List String → Session → Waited × Session
  unfolding force poll
  await fuel c cfg guid [] s = (arrived, s)
  await fuel c cfg guid (t ∷ ts) s =
      let s' = force p c cfg guid (t ∷ ts) s in
      poll fuel c cfg guid (t ∷ ts) (now s' + nanoseconds cfg.timeout) s'

  -- The part of replicate below the error check of the targets.
  unfoldable pub proceed :
      ℕ → Core → ReplicationConfig → String → Result (List String) → Session → Waited × Session
  unfolding await
  proceed fuel c cfg guid (ok targets) s = await fuel c cfg guid targets s
  proceed fuel c cfg guid (err e) s = (gave_up e, s)
  proceed fuel c cfg guid panic s = (crashed, s)

  unfoldable pub replicate : ℕ → Core → ReplicationConfig → String → Session → Waited × Session
  unfolding replication_targets proceed
  replicate fuel c cfg guid s =
      if not cfg.wait
      then (arrived, s)
      else proceed fuel c cfg guid (replication_targets p c cfg s).0
          (replication_targets p c cfg s).1
