-- ===== src/Client/Received.antt =====
-- src/services/dhcp_client.rs, `run`: where the lease that the client shares comes from.
use rustyrouter.Client.Renewal.{bound_step}
use rustyrouter.Client.Backoff.{calculate_next_delay, initial_retry_delay_secs}
use rustyrouter.Client.Lease.{
  WanLease, deconfigure, no_lease, ClientState, lease_of, apply_lease_config,
  apply_lease_config-again,
}
use rustyrouter.Client.Errors.{ok}
use Prim.Native.String.{String}
use rustyrouter.Prelude.{
  [], ℕ, ◌⊎◌, Option, List, ◌≡◌, ◌∷◌, inl, some, false, inr, refl, arith, Option-cases, subst, sym,
}
use rustyrouter.Client.Session.{Attempt, Iteration, bound_loop, step_cases, bound_phase, run}
use rustyrouter.Client.Phases.{
  wait_for_ack, request_phase, Reception, Round, renew_lease, renew_lease-ok, Result-cases, answer,
  answer-ack, discover_phase, wait_for_offer,
}
use rustyrouter.Dhcp.{Dhcproto}
use rustyrouter.Client.Parse.{ParseAckResult, DhcpAck, parse_ack_nak, DhcpOffer}
use rustyrouter.Client.Netlink.{Netlink}
use mathlib.Core.List.{Mem, mem-cons_self, mem-cons_of_mem}

ParseAckResult-cases :
    (r : ParseAckResult)
    → ((a : DhcpAck) × (r ≡ ParseAckResult.ack a))
      ⊎ ((r ≡ ParseAckResult.nak) ⊎ (r ≡ ParseAckResult.nothing))
ParseAckResult-cases (ParseAckResult.ack a) = inl (a, refl)
ParseAckResult-cases ParseAckResult.nak = inr (inl refl)
ParseAckResult-cases ParseAckResult.nothing = inr (inr refl)

module _ (d : Dhcproto) where
  -- The packets of one wait hold the acknowledgement, under the transaction id.
  abbrev pub IsHeard : ℕ → List Reception → DhcpAck → Type 0
  IsHeard xid received ack =
      (buf : List ℕ) × Mem (Reception.packet buf) received
      × (parse_ack_nak d buf xid ≡ ParseAckResult.ack ack)

  -- One of the waits of a request does.
  abbrev IsGranted : ℕ → List (List Reception) → DhcpAck → Type 0
  IsGranted xid rounds ack =
      (received : List Reception) × Mem received rounds × IsHeard xid received ack

  -- One of the waits of a renewal does.
  abbrev IsRenewed : Iteration → DhcpAck → Type 0
  IsRenewed it ack = (round : Round) × Mem round it.rounds × IsHeard it.renew_xid round.received ack

  -- The client has received the acknowledgement in the attempt.
  abbrev pub IsReceived : Attempt → DhcpAck → Type 0
  IsReceived a ack =
      IsGranted a.xid a.requesting ack ⊎ ((it : Iteration) × Mem it a.bound × IsRenewed it ack)

  IsHeard-more :
      (xid : ℕ) (r : Reception) (rest : List Reception) (ack : DhcpAck)
      → IsHeard xid rest ack
      → IsHeard xid (r ∷ rest) ack
  IsHeard-more xid r rest ack (buf, m, p) = (buf, mem-cons_of_mem _ m, p)

  wait_for_ack-IsHeard :
      (xid : ℕ) (received : List Reception) (ack : DhcpAck)
      → wait_for_ack d xid received ≡ ok (some (ParseAckResult.ack ack))
      → IsHeard xid received ack
  unfolding wait_for_ack
  wait_for_ack-IsHeard xid [] ack h = absurd (ground arith)
  wait_for_ack-IsHeard xid (Reception.failed ∷ rest) ack h = absurd (ground arith)
  wait_for_ack-IsHeard xid (Reception.packet buf ∷ rest) ack h =
      elim (ParseAckResult-cases (parse_ack_nak d buf xid)) [
        | inl (a, p) ↦
            let h' = rw (p, wait_for_ack) at h in
            let same : a ≡ ack = ground arith in (buf, mem-cons_self, rw same at p)
        | inr (inl p) ↦ absurd (ground arith)
        | inr (inr p) ↦
            IsHeard-more xid _ rest ack
              (wait_for_ack-IsHeard xid rest ack (rw (p, wait_for_ack) at h))
      ]

  discover_phase-xid :
      (xid delay : ℕ) (rounds : List (List Reception)) (found : ℕ) (offer : DhcpOffer)
      → (discover_phase d xid delay rounds).1 ≡ some (ok (found, offer))
      → found ≡ xid
  unfolding discover_phase
  discover_phase-xid xid delay [] found offer h = absurd (ground arith)
  discover_phase-xid xid delay (round ∷ rest) found offer h =
      elim (Result-cases (wait_for_offer d xid round)) [
        | inl (e, w) ↦ absurd (ground arith)
        | inr (heard, w) ↦ elim (Option-cases heard) [
          | inl quiet ↦
              discover_phase-xid xid (calculate_next_delay delay) rest found offer
                (rw (w, quiet, discover_phase) at h)
          | inr (o, said) ↦ ground arith
        ]
      ]

  request_phase-IsGranted :
      (xid delay : ℕ) (rounds : List (List Reception)) (ack : DhcpAck)
      → (request_phase d xid delay rounds).1 ≡ some (ok ack)
      → IsGranted xid rounds ack
  unfolding request_phase
  request_phase-IsGranted xid delay [] ack h = absurd (ground arith)
  request_phase-IsGranted xid delay (round ∷ rest) ack h =
      elim (Result-cases (wait_for_ack d xid round)) [
        | inl (e, w) ↦ absurd (ground arith)
        | inr (found, w) ↦ elim (Option-cases (answer found)) [
          | inl quiet ↦
              let (received, m, heard) =
                request_phase-IsGranted xid (calculate_next_delay delay) rest ack
                  (rw (w, quiet, request_phase) at h) in
              (received, mem-cons_of_mem _ m, heard)
          | inr (r, said) ↦
              let a : answer found ≡ some (ok ack) = ground arith in
              let w' = rw (answer-ack found ack a) at w in
              (round, mem-cons_self, wait_for_ack-IsHeard xid round ack w')
        ]
      ]

  renew_lease-IsRenewed :
      (t2_secs lease_secs : ℕ) (server_ip : Option ℕ) (it : Iteration) (ack : DhcpAck)
      → (renew_lease d t2_secs lease_secs server_ip it.renew_xid false it.rounds).1 ≡ some (ok ack)
      → IsRenewed it ack
  renew_lease-IsRenewed t2 lease server it ack h =
      let (round, m, _, w) = renew_lease-ok d t2 lease server it.renew_xid false it.rounds ack h in
      (round, m, wait_for_ack-IsHeard it.renew_xid round.received ack w)

module _ (n : Netlink) (d : Dhcproto) (wan : String) (Holds : WanLease → Type 0) where
  apply_lease_config-Holds :
      (st : ClientState n) (ack : DhcpAck)
      → Holds (lease_of ack)
      → Holds (apply_lease_config n wan st ack).0.lease_state
  apply_lease_config-Holds st ack h = subst Holds (sym (apply_lease_config-again n wan st ack).0) h

  bound_loop-Holds :
      Holds no_lease
      → (ack : DhcpAck) (its : List Iteration) (st : ClientState n)
      → ((it : Iteration) → Mem it its → (a : DhcpAck) → IsRenewed d it a → Holds (lease_of a))
      → Holds st.lease_state
      → Holds (bound_loop n d wan ack its st).0.lease_state
  unfolding bound_loop deconfigure
  bound_loop-Holds empty ack [] st each h = h
  bound_loop-Holds empty ack (it ∷ rest) st each h =
      let later : (j : Iteration)
          → Mem j rest
          → (a : DhcpAck) → IsRenewed d j a
          → Holds (lease_of a) =
        λ j m. each j (mem-cons_of_mem _ m) in
      elim (step_cases (bound_step it.elapsed ack.lease_secs)) [
        | inl s ↦ rw (s, bound_loop) empty
        | inr (inl (secs, s)) ↦ rw (s, bound_loop) (bound_loop-Holds empty ack rest st later h)
        | inr (inr (t2, s)) ↦
            let renewal =
              renew_lease d t2 ack.lease_secs ack.server_ip it.renew_xid false it.rounds in
            elim (Option-cases renewal.1) [
              | inl w ↦ rw (s, w, bound_loop) h
              | inr (result, w) ↦ elim (Result-cases result) [
                | inl (e, r) ↦ rw (s, w, r, bound_loop) empty
                | inr (a, r) ↦
                    let heard =
                      renew_lease-IsRenewed d t2 ack.lease_secs ack.server_ip it a (rw r at w) in
                    let kept = apply_lease_config-Holds st a (each it mem-cons_self a heard) in
                    elim (Result-cases (apply_lease_config n wan st a).1) [
                      | inl (e, f) ↦ rw (s, w, r, f, bound_loop) kept
                      | inr (done, f) ↦
                          rw (s, w, r, f, bound_loop) (bound_loop-Holds empty a rest _ later kept)
                    ]
              ]
            ]
      ]

  bound_phase-Holds :
      Holds no_lease
      → (ack : DhcpAck) (its : List Iteration) (st : ClientState n)
      → ((it : Iteration) → Mem it its → (a : DhcpAck) → IsRenewed d it a → Holds (lease_of a))
      → Holds (lease_of ack)
      → Holds (bound_phase n d wan ack its st).0.lease_state
  unfolding bound_phase
  bound_phase-Holds empty ack its st each h =
      let kept = apply_lease_config-Holds st ack h in
      elim (Result-cases (apply_lease_config n wan st ack).1) [
        | inl (e, f) ↦ rw (f, bound_phase) kept
        | inr (done, f) ↦ rw (f, bound_phase) (bound_loop-Holds empty ack its _ each kept)
      ]

  -- What holds of no lease, of the one before and of every acknowledgement received in the attempts
  -- holds of the shared lease after them.
  pub run-Holds :
      Holds no_lease
      → (attempts : List Attempt) (st : ClientState n)
      → ((a : Attempt)
          → Mem a attempts
          → (ack : DhcpAck) → IsReceived d a ack
          → Holds (lease_of ack))
      → Holds st.lease_state
      → Holds (run n d wan attempts st).lease_state
  unfolding run deconfigure
  run-Holds empty [] st each h = h
  run-Holds empty (a ∷ rest) st each h =
      let later : (b : Attempt)
          → Mem b rest
          → (ack : DhcpAck) → IsReceived d b ack
          → Holds (lease_of ack) =
        λ b m. each b (mem-cons_of_mem _ m) in
      let discovery = discover_phase d a.xid initial_retry_delay_secs a.discovering in
      elim (Option-cases discovery.1) [
        | inl w ↦ rw (w, run) h
        | inr (discovered, w) ↦ elim (Result-cases discovered) [
          | inl (e, r) ↦ rw (w, r, run) (run-Holds empty rest _ later empty)
          | inr ((xid, offer), r) ↦
              let own : xid ≡ a.xid =
                discover_phase-xid d a.xid initial_retry_delay_secs a.discovering xid offer
                  (rw r at w) in
              let request = request_phase d xid initial_retry_delay_secs a.requesting in
              elim (Option-cases request.1) [
                | inl v ↦ rw (w, r, v, run) h
                | inr (requested, v) ↦ elim (Result-cases requested) [
                  | inl (e, q) ↦ rw (w, r, v, q, run) (run-Holds empty rest _ later empty)
                  | inr (ack, q) ↦
                      let granted =
                        request_phase-IsGranted d xid initial_retry_delay_secs a.requesting ack
                          (rw q at v) in
                      let kept =
                        bound_phase-Holds empty ack a.bound st
                          (λ it m b renewed. each a mem-cons_self b (inr (it, m, renewed)))
                          (each a mem-cons_self ack (inl (rw own at granted))) in
                      elim (Option-cases (bound_phase n d wan ack a.bound st).1) [
                        | inl ended ↦ rw (w, r, v, q, ended, run) kept
                        | inr (e, ended) ↦
                            rw (w, r, v, q, ended, run) (run-Holds empty rest _ later kept)
                      ]
                ]
              ]
        ]
      ]
