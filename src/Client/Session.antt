-- ===== src/Client/Session.antt =====
-- src/services/dhcp_client.rs: `bound_phase` and `run`, over what the socket and the clock give.
use rustyrouter.Client.Backoff.{initial_retry_delay_secs}
use mathlib.Core.List.{Mem}
use rustyrouter.Client.Errors.{Result, ok, err, DhcpError}
use rustyrouter.Client.Lease.{
  ClientState, apply_lease_config, deconfigure, apply_lease_config-again, no_lease,
}
use rustyrouter.Client.Netlink.{Netlink, deconfigure_wan}
use rustyrouter.Client.Parse.{DhcpAck}
use rustyrouter.Client.Phases.{Reception, Round, discover_phase, request_phase, renew_lease}
use rustyrouter.Client.Renewal.{BoundStep, bound_step}
use rustyrouter.Dhcp.{Dhcproto}
use Prim.Native.String.{String}
use rustyrouter.Prelude.{
  ℕ, [], ◌∷◌, List, Option, none, some, ◌≡◌, false, refl, inl, inr, ◌⊎◌, ap, subst, sym,
}

-- A round of the loop of `bound_phase`: the clock reading, and what a renewal finds if one starts.
pub record Iteration : Type 0 where
  pub elapsed : ℕ
  pub renew_xid : ℕ
  pub rounds : List Round

-- A round of the loop of `run`.
pub record Attempt : Type 0 where
  pub xid : ℕ
  pub discovering : List (List Reception)
  pub requesting : List (List Reception)
  pub bound : List Iteration

pub step_cases :
    (s : BoundStep)
    → (s ≡ BoundStep.expired)
      ⊎ ((secs : ℕ) × (s ≡ BoundStep.sleep secs))
      ⊎ ((t2_secs : ℕ) × (s ≡ BoundStep.renew t2_secs))
step_cases BoundStep.expired = inl refl
step_cases (BoundStep.sleep secs) = inr (inl (secs, refl))
step_cases (BoundStep.renew t2_secs) = inr (inr (t2_secs, refl))

module _ (n : Netlink) (d : Dhcproto) (wan : String) where
  abbrev renewed : DhcpAck → ℕ → Iteration → Option (Result DhcpAck)
  renewed ack t2_secs it =
      (renew_lease d t2_secs ack.lease_secs ack.server_ip it.renew_xid false it.rounds).1

  -- The state, and the error that ends the loop, if the iterations come to one. No renewal may have
  -- come to its result when they end.
  unfoldable pub bound_loop :
      DhcpAck → List Iteration → ClientState n → ClientState n × Option DhcpError
  bound_loop ack [] st = (st, none)
  bound_loop ack (it ∷ rest) st = elim (bound_step it.elapsed ack.lease_secs) [
    | BoundStep.expired ↦ (deconfigure n wan st, some DhcpError.protocol)
    | BoundStep.sleep secs ↦ bound_loop ack rest st
    | BoundStep.renew t2_secs ↦ elim (renewed ack t2_secs it) [
      | none ↦ (st, none)
      | some result ↦ elim result [
        | err e ↦ (deconfigure n wan st, some e)
        | ok new_ack ↦
            let (st', applied) = apply_lease_config n wan st new_ack in
            elim applied [ err e ↦ (st', some e) | ok done ↦ bound_loop new_ack rest st' ]
      ]
    ]
  ]

  unfoldable pub bound_phase :
      DhcpAck → List Iteration → ClientState n → ClientState n × Option DhcpError
  unfolding bound_loop
  bound_phase ack its st =
      let (st', applied) = apply_lease_config n wan st ack in
      elim applied [ err e ↦ (st', some e) | ok done ↦ bound_loop ack its st' ]

  unfoldable pub run : List Attempt → ClientState n → ClientState n
  unfolding bound_phase
  run [] st = st
  run (a ∷ rest) st = elim (discover_phase d a.xid initial_retry_delay_secs a.discovering).1 [
    | none ↦ st
    | some discovered ↦ elim discovered [
      | err e ↦ run rest (deconfigure n wan st)
      | ok (xid, offer) ↦ elim (request_phase d xid initial_retry_delay_secs a.requesting).1 [
        | none ↦ st
        | some requested ↦ elim requested [
          | err e ↦ run rest (deconfigure n wan st)
          | ok ack ↦
              let (st', ended) = bound_phase ack a.bound st in
              elim ended [ none ↦ st' | some e ↦ run rest st' ]
        ]
      ]
    ]
  ]

  -- Along the iterations of the phase of a first acknowledgement in a first state, the acknowledgement
  -- is applied in the state: it is the first one, or the one before it was applied with success and an
  -- iteration then renewed it by this one.
  pub data IsApplied (first : DhcpAck) (its : List Iteration) (start : ClientState n)
      : DhcpAck → ClientState n → Type 0 where
    at_first : IsApplied first its start first start
    at_renewal :
        (ack new_ack : DhcpAck) (st : ClientState n) (it : Iteration) (t2_secs : ℕ)
        → IsApplied first its start ack st
        → (apply_lease_config n wan st ack).1 ≡ ok tt
        → Mem it its
        → bound_step it.elapsed ack.lease_secs ≡ BoundStep.renew t2_secs
        → (renew_lease d t2_secs ack.lease_secs ack.server_ip it.renew_xid false it.rounds).1
          ≡ some (ok new_ack)
        → IsApplied first its start new_ack (apply_lease_config n wan st ack).0

  -- The iteration ends the lease of the acknowledgement with the error: its time has passed, or its
  -- renewal fails.
  abbrev pub IsEnd : Iteration → DhcpAck → DhcpError → Type 0
  IsEnd it ack e =
      ((bound_step it.elapsed ack.lease_secs ≡ BoundStep.expired) × (e ≡ DhcpError.protocol))
      ⊎ ((t2_secs : ℕ) × (bound_step it.elapsed ack.lease_secs ≡ BoundStep.renew t2_secs)
          × ((renew_lease d t2_secs ack.lease_secs ack.server_ip it.renew_xid false it.rounds).1
              ≡ some (err e)))

  -- The state in which the last acknowledgement left the interface, if it failed with the error; or
  -- no lease, with the address of the acknowledgement taken away from the interface that it left, and
  -- an iteration ends its lease with the error.
  abbrev pub IsLeftBy :
      DhcpAck → List Iteration → ClientState n → DhcpError → ClientState n → Type 0
  IsLeftBy first its start e after =
      (ack : DhcpAck) × (st : ClientState n) × IsApplied first its start ack st
      × ((apply_lease_config n wan st ack ≡ (after, err e))
          ⊎ (((apply_lease_config n wan st ack).1 ≡ ok tt)
              × (after ≡ record {
                lease_state = no_lease;
                kernel =
                    (deconfigure_wan n wan ack.ip ack.mask
                      (apply_lease_config n wan st ack).0.kernel).0;
              })
              × ((it : Iteration) × Mem it its × IsEnd it ack e)))

  bound_phase-failed :
      (ack : DhcpAck) (its : List Iteration) (st : ClientState n) (e : DhcpError)
      → (apply_lease_config n wan st ack).1 ≡ err e
      → bound_phase ack its st ≡ ((apply_lease_config n wan st ack).0, some e)
  unfolding bound_phase
  bound_phase-failed ack its st e failed = rw (failed, bound_phase) refl

  bound_phase-unchanged :
      (ack : DhcpAck) (its : List Iteration) (st : ClientState n)
      → apply_lease_config n wan st ack ≡ (st, ok tt)
      → bound_phase ack its st ≡ bound_loop ack its st
  unfolding bound_phase
  bound_phase-unchanged ack its st same =
      let state = ap (λ (r : ClientState n × Result (Unit {0})). r.0) same in
      let applied = ap (λ (r : ClientState n × Result (Unit {0})). r.1) same in
      rw (applied, bound_phase) (ap (bound_loop ack its) state)

  -- When a configuration has failed and the next session is given the same acknowledgement, that
  -- session is bound without any configuration.
  pub bound_phase-unconfigured :
      (ack : DhcpAck) (its its' : List Iteration) (st : ClientState n) (e : DhcpError)
      → (apply_lease_config n wan st ack).1 ≡ err e
      → let st' = (bound_phase ack its st).0 in
        ((bound_phase ack its st).1 ≡ some e) × (bound_phase ack its' st' ≡ bound_loop ack its' st')
  bound_phase-unconfigured ack its its' st e failed =
      let first = bound_phase-failed ack its st e failed in
      let again = (apply_lease_config-again n wan st ack).1 in
      (
        ap (λ (r : ClientState n × Option DhcpError). r.1) first,
        subst (λ s. bound_phase ack its' s ≡ bound_loop ack its' s)
            (sym (ap (λ (r : ClientState n × Option DhcpError). r.0) first))
            (bound_phase-unchanged ack its' _ again),
      )
