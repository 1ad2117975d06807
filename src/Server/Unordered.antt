-- ===== src/Server/Unordered.antt =====
-- src/services/dhcp_server.rs: the handlers on two tables that are the same but for the order of their
-- entries.
use rustyrouter.Dhcp.{Dhcproto, MessageType, OptionCode}
use rustyrouter.Packet.{Pnet, RawPacket}
use rustyrouter.Prelude.{
  ℕ, List, [], ◌∷◌, Bool, true, false, ◌≡◌, refl, sym, ap, ◌∙◌, find, not, ◌&&◌, ◌==◌, ℕ_discrete,
  Bool-cases, Option-cases, inl, inr,
}
use rustyrouter.Prelude.Map
use rustyrouter.Prelude.Map.{Map, Distinct}
use rustyrouter.Server.LeaseTable.{
  LeaseTable, Ipv4Net, get, is_ip_available, evict_expired, next_available_ip, is_live,
}
use rustyrouter.Server.Exclusive.{get-evict_expired}
use rustyrouter.Server.Index.{evict_expired-InSync}
use rustyrouter.Server.Handlers.{
  lease_from, allocate, validate_requested_ip, requested_ip, handle_dhcp_discover,
  handle_dhcp_request, handle_dhcp_decline, handle_dhcp_release, dispatch,
}
use rustyrouter.Server.Replies.{ServerConfig}
use rustyrouter.Server.Observed.{Same, Same-validate_requested_ip, Same-insert, Same-remove}

leases-evict_expired :
    (s t : LeaseTable) (now mac : ℕ)
    → Same s t
    → get (evict_expired s now) mac ≡ get (evict_expired t now) mac
leases-evict_expired s t now mac e =
    get-evict_expired s now mac e.distinct
    ∙ ap (Map.kept (is_live now)) (e.leases mac)
    ∙ sym (get-evict_expired t now mac e.distinct')

index_of_held :
    (s t : LeaseTable) (now ip : ℕ)
    → Same s t
    → is_ip_available (evict_expired s now) ip ≡ false
    → is_ip_available (evict_expired t now) ip ≡ false
index_of_held s t now ip e h =
    let (mac, l, g, i) = (evict_expired-InSync s now e.distinct ip).0 h in
    (evict_expired-InSync t now e.distinct' ip).1
      (mac, l, sym (leases-evict_expired s t now mac e) ∙ g, i)

eq_of_false : (a b : Bool) → (a ≡ false → b ≡ false) → (b ≡ false → a ≡ false) → a ≡ b
eq_of_false false b f g = sym (f refl)
eq_of_false true false f g = g refl
eq_of_false true true f g = refl

Same-sym : (s t : LeaseTable) → Same s t → Same t s
Same-sym s t e = record {
  leases = λ mac. sym (e.leases mac);
  index = λ ip. sym (e.index ip);
  distinct = e.distinct';
  distinct' = e.distinct;
}

Same-evict_expired :
    (s t : LeaseTable) (now : ℕ) → Same s t → Same (evict_expired s now) (evict_expired t now)
Same-evict_expired s t now e = record {
  leases = λ mac. leases-evict_expired s t now mac e;
  index = λ ip.
      eq_of_false _ _ (index_of_held s t now ip e) (index_of_held t s now ip (Same-sym s t e));
  distinct =
      unfold evict_expired in Map.retain-Distinct ℕ_discrete (is_live now) s.by_mac e.distinct;
  distinct' =
      unfold evict_expired in Map.retain-Distinct ℕ_discrete (is_live now) t.by_mac e.distinct';
}

find-ext : (p q : ℕ → Bool) (xs : List ℕ) → ((x : ℕ) → p x ≡ q x) → find p xs ≡ find q xs
unfolding find
find-ext p q [] h = refl
find-ext p q (x ∷ xs) h = rw (h x, find-ext p q xs h) refl

found-Same :
    (s t : LeaseTable) (now server_ip : ℕ) (net : Ipv4Net)
    → Same s t
    → (next_available_ip s now net server_ip).1 ≡ (next_available_ip t now net server_ip).1
unfolding next_available_ip
found-Same s t now server_ip net e =
    let evicted = Same-evict_expired s t now e in
    find-ext _ _ net.hosts (λ ip. ap (λ b. not (ip == server_ip) && b) (evicted.index ip))

-- The address that is allocated is the same, and the tables stay so.
allocate-Same :
    (config : ServerConfig) (s t : LeaseTable) (mac now later : ℕ)
    → Same s t
    → ((allocate config s mac now later).1 ≡ (allocate config t mac now later).1)
      × Same (allocate config s mac now later).0 (allocate config t mac now later).0
unfolding allocate next_available_ip
allocate-Same config s t mac now later e = elim (Option-cases (get t mac)) [
  | inr (l, g) ↦ let g' = e.leases mac ∙ g in (rw (g, g', allocate) refl, rw (g, g', allocate) e)
  | inl g ↦
      let g' = e.leases mac ∙ g in
      let evicted = Same-evict_expired s t now e in
      let same = found-Same s t now config.server_ip config.net e in
      elim (Option-cases (next_available_ip t now config.net config.server_ip).1) [
        | inl f ↦
            let f' = same ∙ f in
            (rw (g, g', f, f', allocate) refl, rw (g, g', f, f', allocate) evicted)
        | inr (ip, f) ↦
            let f' = same ∙ f in
            (
              rw (g, g', f, f', allocate) refl,
              rw (g, g', f, f', allocate) (Same-insert _ _ mac (lease_from ip later) evicted),
            )
      ]
]

-- The frames sent are the same, and the tables stay so.
abbrev pub Agree : LeaseTable × List RawPacket → LeaseTable × List RawPacket → Type 0
Agree a b = (a.1 ≡ b.1) × Same a.0 b.0

module _ (p : Pnet) (d : Dhcproto) (config : ServerConfig) (dhcp : d.Message)
    (mac now later : ℕ) where
  discover-Same :
      (s t : LeaseTable)
      → Same s t
      → Agree
          (handle_dhcp_discover p d config dhcp mac s now later)
          (handle_dhcp_discover p d config dhcp mac t now later)
  unfolding handle_dhcp_discover
  discover-Same s t e =
      let (same, after) = allocate-Same config s t mac now later e in
      elim (Option-cases (allocate config t mac now later).1) [
        | inl f ↦
            let f' = same ∙ f in
            (rw (f, f', handle_dhcp_discover) refl, rw (f, f', handle_dhcp_discover) after)
        | inr (ip, f) ↦
            let f' = same ∙ f in
            (rw (f, f', handle_dhcp_discover) refl, rw (f, f', handle_dhcp_discover) after)
      ]

  request-Same :
      (s t : LeaseTable)
      → Same s t
      → Agree
          (handle_dhcp_request p d config dhcp mac s now later)
          (handle_dhcp_request p d config dhcp mac t now later)
  unfolding handle_dhcp_request
  request-Same s t e =
      let opt = (d.fields dhcp).opt OptionCode.requested_ip_address in
      elim (Option-cases (requested_ip opt (get t mac))) [
        | inl f ↦
            let f' = ap (requested_ip opt) (e.leases mac) ∙ f in
            (rw (f, f', handle_dhcp_request) refl, rw (f, f', handle_dhcp_request) e)
        | inr (ip, f) ↦
            let f' = ap (requested_ip opt) (e.leases mac) ∙ f in
            let valid = Same-validate_requested_ip s t ip mac now config e in
            elim (Bool-cases (validate_requested_ip ip mac config t now)) [
              | inl v ↦
                  let v' = valid ∙ v in
                  (
                    rw (f, f', v, v', handle_dhcp_request) refl,
                    rw (f, f', v, v', handle_dhcp_request)
                        (Same-insert s t mac (lease_from ip later) e),
                  )
              | inr v ↦
                  let v' = valid ∙ v in
                  (
                    rw (f, f', v, v', handle_dhcp_request) refl,
                    rw (f, f', v, v', handle_dhcp_request) e,
                  )
            ]
      ]

  -- On two tables that agree on each client's lease and on the addresses in the index, with one entry
  -- for a client at most, every message gets the same answer, and leaves tables that agree again: the
  -- order of the entries is never seen.
  pub dispatch-Same :
      (mtype : MessageType) (s t : LeaseTable)
      → Same s t
      → Agree
          (dispatch p d mtype config dhcp mac s now later)
          (dispatch p d mtype config dhcp mac t now later)
  unfolding dispatch handle_dhcp_decline handle_dhcp_release
  dispatch-Same MessageType.discover s t e = discover-Same s t e
  dispatch-Same MessageType.request s t e = request-Same s t e
  dispatch-Same MessageType.decline s t e = (refl, Same-remove s t mac e)
  dispatch-Same MessageType.release s t e = (refl, Same-remove s t mac e)
  dispatch-Same _ s t e = (refl, e)
