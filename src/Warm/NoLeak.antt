-- ===== src/Warm/NoLeak.antt =====
-- The pool as a whole: no live shell outside it, no connection lost, and none live after Close.
use go_adpwsh.Prelude.{
  ℕ, zero, suc, ◌≡◌, refl, sym, ap, ◌∙◌, subst, inl, inr, true, false, ◌||◌, some, List, [], ◌∷◌,
  ◌++◌, arith, Bool-cases, Option-cases, append_assoc, append-nil, length, List-cases,
}
use go_adpwsh.Prelude.Text.{Bytes}
use go_adpwsh.Warm.Conn.{built, Env, World, Conn, reap_conn_if_idle}
use go_adpwsh.Warm.Live.{live, held, holds, run_conn-Keeps, reap_conn_if_idle-Keeps}
use go_adpwsh.Warm.Pool.{
  Params, Pool, fill, new_pool, checkout, finish, reap_idle, close_all, close, Step, Steps,
  checks_out, finishes, sweeps, here, next,
}

-- Every live executor is held by a connection of the pool, idle or lent to a Run.
abbrev pub NoLeak : Pool → Type 0
NoLeak p = (i : ℕ) → live i p.world.events ≡ true → holds i (p.idle ++ p.busy) ≡ true

holds-append : (i : ℕ) (xs ys : List Conn) → holds i (xs ++ ys) ≡ (holds i xs || holds i ys)
holds-append i [] ys = refl
holds-append i (x ∷ xs) ys = ground (arith, holds-append i xs ys)

-- The connections with one of them taken to the front.
holds-middle :
    (i : ℕ) (xs ys zs : List Conn) (c : Conn)
    → holds i (xs ++ (ys ++ c ∷ zs)) ≡ (held c i || holds i (xs ++ (ys ++ zs)))
holds-middle i xs ys zs c = ground (
  arith,
  holds-append i xs (ys ++ c ∷ zs),
  holds-append i ys (c ∷ zs),
  holds-append i xs (ys ++ zs),
  holds-append i ys zs,
)

-- The same with the connection at the end of the idle ones.
holds-returned :
    (i : ℕ) (ys zs : List Conn) (c : Conn)
    → holds i ((ys ++ c ∷ []) ++ zs) ≡ (held c i || holds i (ys ++ zs))
holds-returned i ys zs c = rw append_assoc (holds-middle i [] ys zs c)

checkout-NoLeak : (p q : Pool) → checkout p ≡ some q → NoLeak p → NoLeak q
unfolding checkout
checkout-NoLeak p q e h i alive = elim (List-cases p.idle) [
  | inl empty ↦ let e' = rw (empty, checkout) at e in absurd (cc)
  | inr (c, rest, eq) ↦
      let e' : some (record p { idle = rest; busy = c ∷ p.busy }) ≡ some q =
        rw (eq, checkout) at e in
      let same : record p { idle = rest; busy = c ∷ p.busy } ≡ q = cc in
      subst (λ r. live i r.world.events ≡ true → holds i (r.idle ++ r.busy) ≡ true) same
        (λ l. rw (holds-middle i [] rest p.busy c) (rw eq at (h i l))) alive
]

module _ (env : Env) where
  finish-NoLeak :
      (command payload : Bytes) (now : ℕ) (before : List Conn) (c : Conn) (after : List Conn)
      (p : Pool)
      → p.busy ≡ before ++ c ∷ after
      → NoLeak p
      → NoLeak (finish env command payload now c (before ++ after) p).1
  unfolding finish
  finish-NoLeak command payload now before c after p e h i alive = rw holds-returned (
      run_conn-Keeps env c command payload p.world i (holds i (p.idle ++ (before ++ after)))
        (λ l. rw (← holds-middle i p.idle before after c) (rw e at (h i l))) alive)

  abbrev swept : ℕ → ℕ → Conn → List Conn → Pool → Pool
  swept reap_after now c rest p = record p {
    idle = rest ++ (reap_conn_if_idle env reap_after now c p.world).0 ∷ [];
    world = (reap_conn_if_idle env reap_after now c p.world).1;
  }

  swept-NoLeak :
      (reap_after now : ℕ) (c : Conn) (rest : List Conn) (p : Pool)
      → p.idle ≡ c ∷ rest
      → NoLeak p
      → NoLeak (swept reap_after now c rest p)
  swept-NoLeak reap_after now c rest p e h i alive = rw holds-returned (
      reap_conn_if_idle-Keeps env reap_after now c p.world i (holds i (rest ++ p.busy))
        (λ l. rw e at (h i l)) alive)

  reap_idle_empty :
      (reap_after now n : ℕ) (p : Pool) → p.idle ≡ [] → reap_idle env reap_after now (suc n) p ≡ p
  unfolding reap_idle
  reap_idle_empty reap_after now n p e = ground arith

  reap_idle_cons :
      (reap_after now n : ℕ) (p : Pool) (c : Conn) (rest : List Conn)
      → p.idle ≡ c ∷ rest
      → reap_idle env reap_after now (suc n) p
        ≡ reap_idle env reap_after now n (swept reap_after now c rest p)
  unfolding reap_idle
  reap_idle_cons reap_after now n p c rest e = rw (e, reap_idle)

  reap_idle-NoLeak :
      (reap_after now n : ℕ) (p : Pool) → NoLeak p → NoLeak (reap_idle env reap_after now n p)
  unfolding reap_idle
  reap_idle-NoLeak reap_after now zero p h = h
  reap_idle-NoLeak reap_after now (suc n) p h = elim (List-cases p.idle) [
    | inl empty ↦ subst NoLeak (sym (reap_idle_empty reap_after now n p empty)) h
    | inr (c, rest, e) ↦
        subst NoLeak (sym (reap_idle_cons reap_after now n p c rest e))
          (reap_idle-NoLeak reap_after now n _ (swept-NoLeak reap_after now c rest p e h))
  ]

  Step-NoLeak : {p q : Pool} → Step env p q → NoLeak p → NoLeak q
  Step-NoLeak {p} {q} (checks_out e) h = checkout-NoLeak p q e h
  Step-NoLeak {p} (finishes command payload now before c after busy e) h =
      subst NoLeak e (finish-NoLeak command payload now before c after p busy h)
  Step-NoLeak {p} (sweeps reap_after now n e) h =
      subst NoLeak e (reap_idle-NoLeak reap_after now n p h)

  -- From a pool in which every executor that is connected and not closed is one that a connection of the
  -- pool knows to be up, whatever Runs and sweeps of the reaper happen, in whatever order, lead to a
  -- pool of which this is true as well.
  pub Steps-NoLeak : {p q : Pool} → Steps env p q → NoLeak p → NoLeak q
  Steps-NoLeak here h = h
  Steps-NoLeak (next steps step) h = Step-NoLeak step (Steps-NoLeak steps h)

close_all-live :
    (cs : List Conn) (w : World) (i : ℕ)
    → (live i w.events ≡ true → holds i cs ≡ true)
    → live i (close_all cs w).events ≡ false
unfolding close_all
close_all-live [] w i h = elim (Bool-cases (live i w.events)) [
  | inl e ↦ absurd (cc (h e))
  | inr e ↦ e
]
close_all-live (c ∷ cs) w i h = close_all-live cs _ i (ground arith)

-- Close, called while no Run is in flight on a pool without leaks, closes every executor that was
-- connected.
pub close-live :
    (p : Pool) → NoLeak p → p.busy ≡ [] → (i : ℕ) → live i (close p).world.events ≡ false
unfolding close
close-live p h e i =
    close_all-live p.idle p.world i
      (λ l. subst (λ cs. holds i cs ≡ true) (append-nil p.idle) (rw e at (h i l)))

abbrev first_world : World → World
first_world w = record { events = built w.next ∷ w.events; next = suc w.next }

-- What New builds: as many connections as configured, and nothing is connected yet.
live-fill :
    (env : Env) (n : ℕ) (w w' : World) (cs : List Conn)
    → fill env n w ≡ some (cs, w')
    → (length cs ≡ n) × ((i : ℕ) → live i w'.events ≡ live i w.events)
unfolding fill
live-fill env zero w w' cs e =
    let same : ([], w) ≡ (cs, w') = cc in
    (
      ap (λ (x : List Conn × World). length x.0) (sym same),
      λ i. ap (λ (x : List Conn × World). live i x.1.events) (sym same),
    )
live-fill env (suc n) w w' cs e = elim (Bool-cases (env.build w.events)) [
  | inr bad ↦ let e' = rw (bad, fill) at e in absurd (cc)
  | inl good ↦ elim (Option-cases (fill env n (first_world w))) [
    | inl bad ↦ let e' = rw (good, fill, bad) at e in absurd (cc)
    | inr ((cs', w''), rest) ↦
        let ih = live-fill env n (first_world w) w'' cs' rest in
        let e' = rw (good, fill, rest) at e in
        let same : (record { exec = w.next; up = false; last_used = 0 } ∷ cs', w'') ≡ (cs, w') =
          cc in
        (
          ap (λ (x : List Conn × World). length x.0) (sym same) ∙ ap suc ih.0,
          λ i. ap (λ (x : List Conn × World). live i x.1.events) (sym same) ∙ ih.1 i,
        )
  ]
]

new_pool-NoLeak : (env : Env) (params : Params) (p : Pool) → new_pool env params ≡ some p → NoLeak p
unfolding new_pool
new_pool-NoLeak env params p e i alive =
    elim (Option-cases (fill env params.concurrency (record { events = []; next = 0 }))) [
      | inl bad ↦ absurd (ground (arith, bad))
      | inr ((cs, w), good) ↦
          let dead = (live-fill env params.concurrency _ w cs good).1 i in
          absurd (ground (arith, good, dead))
    ]

-- From New, through any Runs and sweeps in any order, to a Close while no Run is in flight: no
-- executor that was connected is left unclosed.
pub new_pool-close :
    (env : Env) (params : Params) (p q : Pool)
    → new_pool env params ≡ some p
    → Steps env p q
    → q.busy ≡ []
    → (i : ℕ) → live i (close q).world.events ≡ false
new_pool-close env params p q e steps quiet =
    close-live q (Steps-NoLeak env steps (new_pool-NoLeak env params p e)) quiet
