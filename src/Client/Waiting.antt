-- ===== src/Client/Waiting.antt =====
-- When the wait for replication ends, and with what.
use go_adpwsh.Prelude.{
  ℕ, zero, suc, ◌+◌, ◌*◌, ◌≤◌, ◌≡◌, ◌≢◌, refl, ap, ◌∙◌, inl, inr, ◌⊎◌, String, Bool, true, false,
  ◌||◌, not, none, some, List, [], ◌∷◌, arith, if◌then◌else◌, All, Bool-cases, Option-cases, str_eq,
}
use go_adpwsh.Prelude.Text.{codes, equal_fold}
use go_adpwsh.Core.Errors.{Result, ok, err, panic}
use go_adpwsh.Core.Exec.{Platform, Core, Session, sleep}
use go_adpwsh.Client.Replication.{
  nanoseconds, ReplicationConfig, other_targets, Presence, absent, out_of_fuel, verify, judge, poll,
  force, await, proceed, replicate, replication_targets,
}

-- Another name than the pinned source, and not the empty one.
abbrev pub IsTarget : String → String → Type 0
IsTarget server t = (str_eq t "" ≡ false) × (equal_fold (codes t) (codes server) ≡ false)

-- No target that is waited for is the pinned source, its name compared without case, or an empty name.
pub other_targets-IsTarget :
    (server : String) (ts : List String) → All (IsTarget server) (other_targets server ts)
unfolding other_targets
other_targets-IsTarget server [] = tt
other_targets-IsTarget server (t ∷ ts) =
    elim (Bool-cases (str_eq t "" || equal_fold (codes t) (codes server))) [
      | inl skip ↦ rw (skip, other_targets) (other_targets-IsTarget server ts)
      | inr keep ↦
          rw (keep, other_targets)
            ((ground (arith, keep), ground (arith, keep)), other_targets-IsTarget server ts)
    ]

pick {ℓ} : {A : Type ℓ} (b : Bool) (x y : A) → b ≡ true → (if not b then x else y) ≡ y
pick true x y h = refl
pick false x y h = cc

module _ (p : Platform) (now : Session → ℕ) (c : Core) (cfg : ReplicationConfig)
    (guid : String) where
  judge-late :
      (deadline : ℕ) (r : Result (List Presence)) (s : Session)
      → deadline ≤ now s
      → judge p now cfg guid deadline r s ≢ none
  unfolding judge
  judge-late deadline (err e) s late = cc
  judge-late deadline panic s late = cc
  judge-late deadline (ok results) s late = ground (arith, late)

  judge-ne-out_of_fuel :
      (deadline : ℕ) (r : Result (List Presence)) (s : Session)
      → judge p now cfg guid deadline r s ≢ some out_of_fuel
  unfolding judge
  judge-ne-out_of_fuel deadline (err e) s = cc
  judge-ne-out_of_fuel deadline panic s = cc
  judge-ne-out_of_fuel deadline (ok results) s = ground arith

  replicate-on :
      (fuel : ℕ) (s : Session)
      → cfg.wait ≡ true
      → replicate p now fuel c cfg guid s
        ≡ proceed p now fuel c cfg guid
            (replication_targets p c cfg s).0
            (replication_targets p c cfg s).1
  unfolding replicate
  replicate-on fuel s on = pick cfg.wait _ _ on

  module _ (slept : (n : ℕ) (s : Session) → now s + n ≤ now (sleep n s))
      (asked : (targets : List String) (s : Session)
        → now s ≤ now (verify p c guid targets s).1) where
    poll_round :
        (fuel : ℕ) (targets : List String) (deadline : ℕ) (s : Session)
        → (judge p now cfg guid deadline (verify p c guid targets s).0 (verify p c guid targets s).1
              ≡ none
            → (poll p now fuel c cfg guid targets deadline
                (sleep (nanoseconds cfg.poll_interval) (verify p c guid targets s).1)).0
              ≢ out_of_fuel)
        → (poll p now (suc fuel) c cfg guid targets deadline s).0 ≢ out_of_fuel
    unfolding poll
    poll_round fuel targets deadline s later =
        let r = (verify p c guid targets s).0 in
        let s' = (verify p c guid targets s).1 in
        elim (Option-cases (judge p now cfg guid deadline r s')) [
          | inr (w, done) ↦
              rw (done, poll) (λ e. judge-ne-out_of_fuel deadline r s' (done ∙ ap some e))
          | inl again ↦ rw (again, poll) (later again)
        ]

    poll-ne-out_of_fuel :
        (fuel : ℕ) (targets : List String) (deadline : ℕ) (s : Session)
        → deadline ≤ now s + fuel * nanoseconds cfg.poll_interval
        → (poll p now (suc fuel) c cfg guid targets deadline s).0 ≢ out_of_fuel
    poll-ne-out_of_fuel zero targets deadline s enough =
        let le = asked targets s in
        poll_round zero targets deadline s (λ again. absurd (
          judge-late deadline (verify p c guid targets s).0 (verify p c guid targets s).1
            (omega arith) again))
    poll-ne-out_of_fuel (suc fuel) targets deadline s enough =
        let le = asked targets s in
        let woke = slept (nanoseconds cfg.poll_interval) (verify p c guid targets s).1 in
        poll_round (suc fuel) targets deadline s (λ again.
          poll-ne-out_of_fuel fuel targets deadline
            (sleep (nanoseconds cfg.poll_interval) (verify p c guid targets s).1) (omega arith))

    await-ne-out_of_fuel :
        (fuel : ℕ) (targets : List String) (s : Session)
        → nanoseconds cfg.timeout ≤ fuel * nanoseconds cfg.poll_interval
        → (await p now (suc fuel) c cfg guid targets s).0 ≢ out_of_fuel
    unfolding await
    await-ne-out_of_fuel fuel [] s enough = cc
    await-ne-out_of_fuel fuel (t ∷ ts) s enough =
        poll-ne-out_of_fuel fuel (t ∷ ts) _ (force p c cfg guid (t ∷ ts) s) (omega arith)

    proceed-ne-out_of_fuel :
        (fuel : ℕ) (r : Result (List String)) (s : Session)
        → nanoseconds cfg.timeout ≤ fuel * nanoseconds cfg.poll_interval
        → (proceed p now (suc fuel) c cfg guid r s).0 ≢ out_of_fuel
    unfolding proceed
    proceed-ne-out_of_fuel fuel (ok targets) s enough = await-ne-out_of_fuel fuel targets s enough
    proceed-ne-out_of_fuel fuel (err e) s enough = λ h. cc
    proceed-ne-out_of_fuel fuel panic s enough = λ h. cc

    -- If the clock does not run back while the targets are asked, and sleeping takes the time that it is
    -- to take, the wait ends, with an answer, after as many polls as intervals are needed to cover the
    -- timeout, a last one counted in full, and one more.
    pub replicate-ne-out_of_fuel :
        (fuel : ℕ) (s : Session)
        → nanoseconds cfg.timeout ≤ fuel * nanoseconds cfg.poll_interval
        → (replicate p now (suc fuel) c cfg guid s).0 ≢ out_of_fuel
    unfolding replicate
    replicate-ne-out_of_fuel fuel s enough = elim (Bool-cases cfg.wait) [
      | inr off ↦ rw (off, replicate) (λ e. cc)
      | inl on ↦ rw (replicate-on (suc fuel) s on) (
          proceed-ne-out_of_fuel fuel (replication_targets p c cfg s).0
            (replication_targets p c cfg s).1 enough)
    ]

  -- A reply to one question to all the targets names none of them as one without the object.
  abbrev pub Verified : List String → Type 0
  Verified targets =
      (s : Session) × (results : List Presence) × ((verify p c guid targets s).0 ≡ ok results)
      × (absent results ≡ [])

  -- What it takes for the wait to succeed.
  abbrev pub Arrives : Session → Type 0
  Arrives s =
      (targets : List String) × ((replication_targets p c cfg s).0 ≡ ok targets)
      × ((targets ≡ []) ⊎ Verified targets)
