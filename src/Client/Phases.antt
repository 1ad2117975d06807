-- ===== src/Client/Phases.antt =====
-- src/services/dhcp_client.rs: the waits for a reply, and the phases that send and wait until one comes.
-- What the socket gives during one wait is a list, at whose end the wait times out.
use mathlib.Core.List.{Mem, mem-cons_self, mem-cons_of_mem}
use rustyrouter.Client.Backoff.{calculate_next_delay, retry_delay_secs}
use rustyrouter.Client.Errors.{Result, ok, err, DhcpError}
use rustyrouter.Client.Parse.{DhcpOffer, DhcpAck, ParseAckResult, parse_offer, parse_ack_nak}
use rustyrouter.Client.Renewal.{calculate_renewal_params}
use rustyrouter.Dhcp.{Dhcproto}
use rustyrouter.Prelude.{
  ℕ, zero, suc, [], ◌∷◌, List, Option, none, some, ◌≡◌, Bool, true, not, ◌||◌, leb, ◌++◌,
  if◌then◌else◌, All, length, refl, arith, ◌<◌, inl, inr, ◌⊎◌, Bool-cases, Option-cases, ap,
}

pub data Reception : Type 0 where
  packet : List ℕ → Reception
  failed : Reception

-- A round of the loop of `renew_lease`: the clock readings, and what its wait receives.
pub record Round : Type 0 where
  pub elapsed : ℕ
  pub since_sent : ℕ
  pub received : List Reception

-- What an answer to a request means: the end of the phase with a result, or none.
abbrev pub answer : Option ParseAckResult → Option (Result DhcpAck)
answer none = none
answer (some (ParseAckResult.ack a)) = some (ok a)
answer (some ParseAckResult.nak) = some (err DhcpError.nak)
answer (some ParseAckResult.nothing) = none

pub answer-ack :
    (found : Option ParseAckResult) (a : DhcpAck)
    → answer found ≡ some (ok a)
    → found ≡ some (ParseAckResult.ack a)
answer-ack none a h = cc
answer-ack (some (ParseAckResult.ack b)) a h = ground arith
answer-ack (some ParseAckResult.nak) a h = ground arith
answer-ack (some ParseAckResult.nothing) a h = cc

pub Result-cases :
    {A : Type 0} (r : Result A) → ((e : DhcpError) × (r ≡ err e)) ⊎ ((a : A) × (r ≡ ok a))
Result-cases (err e) = inl (e, refl)
Result-cases (ok a) = inr (a, refl)

-- The delays of k attempts from the n-th on.
abbrev pub delays_from : ℕ → ℕ → List ℕ
delays_from n zero = []
delays_from n (suc k) = retry_delay_secs n ∷ delays_from (suc n) k

module _ (d : Dhcproto) where
  unfoldable pub wait_for_offer : ℕ → List Reception → Result (Option DhcpOffer)
  wait_for_offer xid [] = ok none
  wait_for_offer xid (failed ∷ rest) = err DhcpError.io
  wait_for_offer xid (packet buf ∷ rest) = elim (parse_offer d buf xid) [
    | some offer ↦ ok (some offer)
    | none ↦ wait_for_offer xid rest
  ]

  unfoldable pub wait_for_ack : ℕ → List Reception → Result (Option ParseAckResult)
  wait_for_ack xid [] = ok none
  wait_for_ack xid (failed ∷ rest) = err DhcpError.io
  wait_for_ack xid (packet buf ∷ rest) = elim (parse_ack_nak d buf xid) [
    | ParseAckResult.nothing ↦ wait_for_ack xid rest
    | res ↦ ok (some res)
  ]

  -- The delays of the messages sent, and the result, if the rounds give one.
  unfoldable pub discover_phase :
      ℕ → ℕ → List (List Reception) → List ℕ × Option (Result (ℕ × DhcpOffer))
  discover_phase xid delay [] = ([], none)
  discover_phase xid delay (round ∷ rest) =
      let (delays, result) = discover_phase xid (calculate_next_delay delay) rest in
      elim (wait_for_offer xid round) [
        | err e ↦ (delay ∷ [], some (err e))
        | ok found ↦ elim found [
          | some offer ↦ (delay ∷ [], some (ok (xid, offer)))
          | none ↦ (delay ∷ delays, result)
        ]
      ]

  unfoldable pub request_phase : ℕ → ℕ → List (List Reception) → List ℕ × Option (Result DhcpAck)
  request_phase xid delay [] = ([], none)
  request_phase xid delay (round ∷ rest) =
      let (delays, result) = request_phase xid (calculate_next_delay delay) rest in
      elim (wait_for_ack xid round) [
        | err e ↦ (delay ∷ [], some (err e))
        | ok found ↦ elim (answer found) [
          | some r ↦ (delay ∷ [], some r)
          | none ↦ (delay ∷ delays, result)
        ]
      ]

  -- The destination of the request that a round sends, if it sends one.
  unfoldable pub sent_in : ℕ → ℕ → Option ℕ → Bool → Round → List ℕ
  sent_in t2_secs lease_secs server_ip renew_sent round =
      let (retry_interval, dest_ip, in_rebinding) =
        calculate_renewal_params round.elapsed t2_secs lease_secs server_ip in
      if not renew_sent || leb retry_interval round.since_sent then dest_ip ∷ [] else []

  -- The destinations of the requests sent, and the result, if the rounds give one. Whatever the first
  -- round is, it sends.
  unfoldable pub renew_lease :
      ℕ → ℕ → Option ℕ → ℕ → Bool → List Round → List ℕ × Option (Result DhcpAck)
  unfolding sent_in
  renew_lease t2_secs lease_secs server_ip xid renew_sent [] = ([], none)
  renew_lease t2_secs lease_secs server_ip xid renew_sent (round ∷ rest) =
      let sent = sent_in t2_secs lease_secs server_ip renew_sent round in
      let (dests, result) = renew_lease t2_secs lease_secs server_ip xid true rest in
      if leb lease_secs round.elapsed
      then ([], some (err DhcpError.protocol))
      else elim (wait_for_ack xid round.received) [
        | err e ↦ (sent, some (err e))
        | ok found ↦ elim (answer found) [
          | some r ↦ (sent, some r)
          | none ↦ (sent ++ dests, result)
        ]
      ]

  -- After any number of rounds without an offer, the first round with one ends the discovery with it;
  -- one message was sent in each of these rounds, with the delays of the backoff.
  pub discover_phase-offer :
      (xid n : ℕ) (quiet : List (List Reception)) (round : List Reception)
      (rest : List (List Reception)) (offer : DhcpOffer)
      → All (λ r. wait_for_offer xid r ≡ ok none) quiet
      → wait_for_offer xid round ≡ ok (some offer)
      → discover_phase xid (retry_delay_secs n) (quiet ++ round ∷ rest)
        ≡ (delays_from n (suc (length quiet)), some (ok (xid, offer)))
  unfolding discover_phase retry_delay_secs
  discover_phase-offer xid n [] round rest offer h found = rw (found, discover_phase) refl
  discover_phase-offer xid n (q ∷ quiet) round rest offer h found =
      let ih = discover_phase-offer xid (suc n) quiet round rest offer h.1 found in
      rw (h.0, discover_phase)
        (ap (λ (r : List ℕ × Option (Result (ℕ × DhcpOffer))). (retry_delay_secs n ∷ r.0, r.1)) ih)

  -- A renewal that succeeds was answered by an acknowledgement in one of its rounds, which began before
  -- the lease had ended.
  pub renew_lease-ok :
      (t2_secs lease_secs : ℕ) (server_ip : Option ℕ) (xid : ℕ) (renew_sent : Bool)
      (rounds : List Round) (ack : DhcpAck)
      → (renew_lease t2_secs lease_secs server_ip xid renew_sent rounds).1 ≡ some (ok ack)
      → (round : Round) × Mem round rounds
        × (round.elapsed < lease_secs)
        × (wait_for_ack xid round.received ≡ ok (some (ParseAckResult.ack ack)))
  unfolding renew_lease
  renew_lease-ok t2 lease server xid sent [] ack h = absurd (ground arith)
  renew_lease-ok t2 lease server xid sent (round ∷ rest) ack h =
      elim (Bool-cases (leb lease round.elapsed)) [
        | inl over ↦ absurd (ground arith)
        | inr live ↦ elim (Result-cases (wait_for_ack xid round.received)) [
          | inl (e, w) ↦ absurd (ground arith)
          | inr (found, w) ↦ elim (Option-cases (answer found)) [
            | inl quiet ↦
                let (late, m, began, heard) =
                  renew_lease-ok t2 lease server xid true rest ack
                    (rw (live, w, quiet, renew_lease) at h) in
                (late, mem-cons_of_mem _ m, began, heard)
            | inr (r, said) ↦
                let a : answer found ≡ some (ok ack) = ground arith in
                (round, mem-cons_self, ground arith, rw (answer-ack found ack a) at w)
          ]
        ]
      ]
