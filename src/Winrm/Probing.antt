-- ===== src/Winrm/Probing.antt =====
-- What Connect ends with: the first endpoint that answers, or the failure of every candidate.
use go_adpwsh.Prelude.{
  ℕ, ◌≡◌, ◌≢◌, refl, sym, ap, ◌∙◌, ◌⊎◌, inl, inr, String, Option, none, some, List, [], ◌∷◌, ◌++◌,
  arith, length, Bool-cases, not, ◌||◌, leb, drop, take-append-drop,
}
use go_adpwsh.Winrm.Failover.{
  Config, Network, Probe, unbuildable, unreachable, bound, Strategy, Cache, Connected,
  connect_budget, ordered_endpoints, candidates, probe_all, connect, after_failure, is_round_robin,
  rotation_start, rotate,
}

-- The endpoints probed, newest first.
abbrev pub probed_after : List Config → List Config → List Config
probed_after [] seen = seen
probed_after (ep ∷ eps) seen = probed_after eps (ep ∷ seen)

module _ (net : Network) (n : ℕ) where
  abbrev pub answer : List Config → Config → Probe
  answer seen ep = net.probe seen ep (connect_budget ep.timeout n)

  -- None of the endpoints, probed in this order after those seen, answers.
  abbrev pub AllFail : List Config → List Config → Type 0
  AllFail seen [] = Unit
  AllFail seen (ep ∷ eps) = (answer seen ep ≢ bound) × AllFail (ep ∷ seen) eps

  -- Bound to the first endpoint that answers, or to none when all failed.
  abbrev pub Outcome : List Config → List Config → Connected → Type 0
  Outcome eps seen s =
      ((failed : List Config) × (ep : Config) × (rest : List Config) × (eps ≡ failed ++ ep ∷ rest)
        × AllFail seen failed
        × (answer (probed_after failed seen) ep ≡ bound)
        × (s.active ≡ some ep)
        × (s.probed ≡ ep ∷ probed_after failed seen))
      ⊎ (AllFail seen eps × (s.active ≡ none) × (s.probed ≡ probed_after eps seen))

  cons_failed :
      (eps seen : List Config) (ep : Config) (s : Connected)
      → answer seen ep ≢ bound
      → Outcome eps (ep ∷ seen) s
      → Outcome (ep ∷ eps) seen s
  cons_failed eps seen ep s h (inl (failed, e, rest, split, all, yes_, active, probed)) =
      inl (ep ∷ failed, e, rest, ap (◌∷◌ ep) split, (h, all), yes_, active, probed)
  cons_failed eps seen ep s h (inr (all, active, probed)) = inr ((h, all), active, probed)

  Probe-cases :
      (a : Probe)
      → ((m : String) × (a ≡ unbuildable m)) ⊎ (((m : String) × (a ≡ unreachable m)) ⊎ (a ≡ bound))
  Probe-cases (unbuildable m) = inl (m, refl)
  Probe-cases (unreachable m) = inr (inl (m, refl))
  Probe-cases bound = inr (inr refl)

  pub probe_all-Outcome :
      (eps : List Config) (s : Connected)
      → s.active ≡ none
      → Outcome eps s.probed (probe_all net n eps s)
  unfolding probe_all
  probe_all-Outcome [] s h = inr (tt, h, refl)
  probe_all-Outcome (ep ∷ eps) s h = elim (Probe-cases (answer s.probed ep)) [
    | inl (m, e) ↦
        cons_failed eps s.probed ep (probe_all net n (ep ∷ eps) s) (λ b. cc)
          (rw (e, probe_all) (probe_all-Outcome eps (after_failure net s ep m) h))
    | inr (inl (m, e)) ↦
        cons_failed eps s.probed ep (probe_all net n (ep ∷ eps) s) (λ b. cc)
          (rw (e, probe_all) (probe_all-Outcome eps (after_failure net s ep m) h))
    | inr (inr e) ↦ inl ([], ep, eps, refl, tt, e, rw (e, probe_all), rw (e, probe_all))
  ]

-- Connect binds the first of its candidates that answers within its budget, after the others before
-- it in order have failed, or has tried every candidate and binds none.
pub connect-Outcome :
    (net : Network) (strategy : Strategy) (rr : Option ℕ) (endpoints : List Config) (cache : Cache)
    → let eps = candidates cache (net.now []) (ordered_endpoints strategy rr endpoints).0 in
      Outcome net (length eps) eps [] (connect net strategy rr endpoints cache)
unfolding connect
connect-Outcome net strategy rr endpoints cache = probe_all-Outcome net _ _ _ refl

of_candidates :
    (cache : Cache) (now : ℕ) (eps : List Config) → candidates cache now eps ≡ [] → eps ≡ []
unfolding candidates
of_candidates cache now eps h = ground arith

append_nil_swap {ℓ} : {A : Type ℓ} (xs ys : List A) → xs ++ ys ≡ [] → ys ++ xs ≡ []
append_nil_swap [] ys h = rw h
append_nil_swap (x ∷ xs) ys h = cc

ordered_endpoints_nil :
    (strategy : Strategy) (rr : Option ℕ) (endpoints : List Config)
    → (ordered_endpoints strategy rr endpoints).0 ≡ []
    → endpoints ≡ []
unfolding ordered_endpoints
ordered_endpoints_nil strategy none endpoints h = h
ordered_endpoints_nil strategy (some counter) endpoints h =
    elim (Bool-cases (not (is_round_robin strategy) || leb (length endpoints) 1)) [
      | inl plain ↦ ground (arith, plain)
      | inr turn ↦
          let start = rotation_start counter (length endpoints) in
          let h' : rotate start endpoints ≡ [] = rw (turn, ordered_endpoints) at h in
          sym (take-append-drop start endpoints) ∙ append_nil_swap (drop start endpoints) _ h'
    ]

probed_after-cons : (eps seen : List Config) (ep : Config) → probed_after eps (ep ∷ seen) ≢ []
probed_after-cons [] seen ep h = cc
probed_after-cons (e ∷ eps) seen ep h = probed_after-cons eps (ep ∷ seen) e h

of_probed_after : (eps : List Config) → probed_after eps [] ≡ [] → eps ≡ []
of_probed_after [] h = refl
of_probed_after (ep ∷ eps) h = absurd (probed_after-cons eps [] ep h)

-- Whatever the negative cache holds, Connect probes at least one of the configured endpoints, if any
-- is configured.
pub connect-probed :
    (net : Network) (strategy : Strategy) (rr : Option ℕ) (endpoints : List Config) (cache : Cache)
    → endpoints ≢ []
    → (connect net strategy rr endpoints cache).probed ≢ []
connect-probed net strategy rr endpoints cache h gave_up =
    elim (connect-Outcome net strategy rr endpoints cache) [
      | inl (failed, ep, rest, split, all, answered, active, probed) ↦ cc
      | inr (all, active, probed) ↦ h (
          ordered_endpoints_nil strategy rr endpoints
            (of_candidates cache _ _ (of_probed_after _ (sym probed ∙ gave_up))))
    ]
