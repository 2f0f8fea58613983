-- ===== src/Client/Laws/Pinned.antt =====
-- What New makes of a configuration.
use go_adpwsh.Prelude.{
  ◌<◌, ◌≡◌, refl, sym, ◌∙◌, true, false, ◌&&◌, some, arith, Bool-cases, Option-cases, inl, inr,
  str_eq,
}
use go_adpwsh.Core.Errors.{Error, error_of, constraint, message, Result, ok, err, panic}
use go_adpwsh.Core.Exec.{Platform, RetryConfig, Session, exec}
use go_adpwsh.Core.Mask.{end}
use go_adpwsh.Client.Replication.{nanoseconds, with_defaults}
use go_adpwsh.Client.New.{
  Config, Client, RootDse, decode_root_dse, first_core, pin, new, is_psopenad,
}

module _ (retry_defaults : RetryConfig → RetryConfig) (cfg : Config) where
  -- The client talks to one domain controller, the configured one if there is one, with the
  -- credential and the dialect of the configuration and a replication wait whose times are positive.
  abbrev pub IsPinned : Client → Type 0
  IsPinned client =
      (str_eq client.core.server "" ≡ false)
      × (str_eq cfg.server "" ≡ false → client.core.server ≡ cfg.server)
      × (client.core.credential ≡ cfg.credential)
      × (client.core.dialect ≡ cfg.dialect)
      × (0 < nanoseconds client.replication.timeout)
      × (0 < nanoseconds client.replication.poll_interval)

  pin-IsPinned :
      (r : Result RootDse) (client : Client)
      → pin retry_defaults cfg r ≡ ok client
      → IsPinned client
  unfolding pin first_core with_defaults
  pin-IsPinned (ok root) client h = ground arith
  pin-IsPinned (err e) client h = cc
  pin-IsPinned panic client h = cc

  reply : Platform → Session → Result RootDse
  reply p s = (exec p (first_core retry_defaults cfg) decode_root_dse "rootdse" end s).0

  new-pin :
      (p : Platform) (s : Session)
      → cfg.transport ≡ some p
      → (is_psopenad cfg.dialect && cfg.replication.force_sync) ≡ false
      → (new retry_defaults cfg s).0 ≡ pin retry_defaults cfg (reply p s)
  unfolding new reply
  new-pin p s here allowed = rw (here, allowed, new) refl

  abbrev no_forced_sync : Error
  no_forced_sync =
      error_of constraint "New"
        (message "Replication.ForceSync is not supported with DialectPSOpenAD")

  new-forced :
      (p : Platform) (s : Session)
      → cfg.transport ≡ some p
      → (is_psopenad cfg.dialect && cfg.replication.force_sync) ≡ true
      → (new retry_defaults cfg s).0 ≡ err no_forced_sync
  unfolding new
  new-forced p s here forced = rw (here, forced, new) refl

  -- If New returns a client, then the configuration has a transport and does not combine PSOpenAD
  -- with a forced synchronisation, and the client is pinned to a domain controller that has a name,
  -- the configured one if the configuration names one; the client keeps the credential and the
  -- dialect, and both times of its replication wait are positive.
  pub new-IsPinned :
      (s : Session) (client : Client)
      → (new retry_defaults cfg s).0 ≡ ok client
      → ((p : Platform) × (cfg.transport ≡ some p))
        × ((is_psopenad cfg.dialect && cfg.replication.force_sync) ≡ false)
        × IsPinned client
  unfolding new
  new-IsPinned s client h = elim (Option-cases cfg.transport) [
    | inl missing ↦ cc
    | inr (p, here) ↦ elim (Bool-cases (is_psopenad cfg.dialect && cfg.replication.force_sync)) [
      | inl forced ↦ let no = new-forced p s here forced in cc
      | inr allowed ↦
          ((p, here), allowed, pin-IsPinned (reply p s) client (sym (new-pin p s here allowed) ∙ h))
    ]
  ]
