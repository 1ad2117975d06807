-- ===== src/Server/Index.antt =====
-- src/services/dhcp_server.rs, `LeaseTable`: the index of allocated addresses against the leases.
use rustyrouter.Server.Exclusive.{
  get-insert_self, get-remove_ne, get-insert_ne, get_of_remove, get-remove_self,
}
use rustyrouter.Prelude.{
  ◌∷◌, [], refl, ℕ, ◌≡◌, ℕ_discrete, some, map, false, none, true, ◌==◌, not, arith, ◌↔◌, ◌≢◌, ◌||◌,
  ◌&&◌, if_pos,
}
use rustyrouter.Server.LeaseTable.{
  LeaseTable, remove, evict_expired, insert, is_ip_available, ClientLease, get, is_live,
  release_old,
}
use rustyrouter.Prelude.Map
use rustyrouter.Prelude.Map.{Map, Distinct}
use rustyrouter.Prelude.Set

-- Some client's entry, expired or not, is on the address.
abbrev pub IsHeld : LeaseTable → ℕ → Type 0
IsHeld t ip = (mac : ℕ) × (l : ClientLease) × (get t mac ≡ some l) × (l.ip ≡ ip)

-- The index names an address exactly if an entry is on it.
abbrev pub InSync : LeaseTable → Type 0
InSync t = (ip : ℕ) → (is_ip_available t ip ≡ false) ↔ IsHeld t ip

-- No two entries, expired or not, are on one address.
abbrev pub UniqueIps : LeaseTable → Type 0
UniqueIps t =
    (m m' : ℕ) (l l' : ClientLease) → get t m ≡ some l → get t m' ≡ some l' → l.ip ≡ l'.ip → m ≡ m'

held_of_contains :
    (ip : ℕ) (m : Map ℕ ClientLease)
    → Distinct ℕ_discrete m
    → Set.contains ip (map (λ e. e.1.ip) m) ≡ true
    → (mac : ℕ) × (l : ClientLease) × (Map.get ℕ_discrete mac m ≡ some l) × (l.ip ≡ ip)
unfolding Set.contains Map.get
held_of_contains ip [] d h = absurd (ground arith)
held_of_contains ip ((j, l) ∷ m) d h = elim (ℕ_discrete l.ip ip) [
  | yes e ↦ (j, l, if_pos (ℕ_discrete j j) refl _ _, e)
  | no n ↦
      let (mac, k, g, e) = held_of_contains ip m d.1 (ground arith) in
      (mac, k, ground (arith, d.0), e)
]

contains_of_held :
    (ip mac : ℕ) (l : ClientLease) (m : Map ℕ ClientLease)
    → Map.get ℕ_discrete mac m ≡ some l
    → l.ip ≡ ip
    → Set.contains ip (map (λ e. e.1.ip) m) ≡ true
unfolding Set.contains Map.get
contains_of_held ip mac l [] g e = absurd (ground arith)
contains_of_held ip mac l ((j, k) ∷ m) g e = ground (arith, contains_of_held ip mac l m)

-- In a table with one entry for a client at most, the index is exact after `evict_expired`,
-- whatever it was before.
pub evict_expired-InSync :
    (t : LeaseTable) (now : ℕ) → Distinct ℕ_discrete t.by_mac → InSync (evict_expired t now)
unfolding evict_expired is_ip_available get
evict_expired-InSync t now d ip =
    let live = Map.retain (is_live now) t.by_mac in
    (
      λ h.
          held_of_contains ip live (Map.retain-Distinct ℕ_discrete (is_live now) t.by_mac d)
            (ground arith),
      λ held. let e = contains_of_held ip held.0 held.1 live held.2 held.3 in ground arith,
    )

available-insert :
    (t : LeaseTable) (mac ip : ℕ) (lease : ClientLease)
    → get t mac ≡ none
    → (is_ip_available (insert t mac lease) ip) ≡ (not (lease.ip == ip) && is_ip_available t ip)
unfolding insert is_ip_available get release_old
available-insert t mac ip lease fresh =
    rw (fresh, release_old) (ground (arith, Set.contains-insert lease.ip ip t.allocated_ips))

available-remove :
    (t : LeaseTable) (mac ip : ℕ) (lease : ClientLease)
    → get t mac ≡ some lease
    → is_ip_available (remove t mac).0 ip ≡ (lease.ip == ip || is_ip_available t ip)
unfolding remove is_ip_available get
available-remove t mac ip lease held =
    rw (held, remove) (ground (arith, Set.contains-remove lease.ip ip t.allocated_ips))

-- An entry for a new client keeps the index exact.
pub insert-InSync :
    (t : LeaseTable) (mac : ℕ) (lease : ClientLease)
    → get t mac ≡ none
    → InSync t
    → InSync (insert t mac lease)
insert-InSync t mac lease fresh sync ip = (to, from)
  where
    to : is_ip_available (insert t mac lease) ip ≡ false → IsHeld (insert t mac lease) ip
    to h = elim (ℕ_discrete lease.ip ip) [
      | yes e ↦ (mac, lease, get-insert_self t mac lease, e)
      | no n ↦
          let (m, l, g, e) = (sync ip).0 (ground (arith, available-insert t mac ip lease fresh)) in
          let other : m ≢ mac = ground arith in
          (m, l, ground (arith, get-insert_ne t mac m lease other), e)
    ]

    from : IsHeld (insert t mac lease) ip → is_ip_available (insert t mac lease) ip ≡ false
    from (m, l, g, e) = elim (ℕ_discrete m mac) [
      | yes p ↦ ground (arith, available-insert t mac ip lease fresh, get-insert_self t mac lease)
      | no n ↦
          let old = (sync ip).1 (m, l, ground (arith, get-insert_ne t mac m lease n), e) in
          ground (arith, available-insert t mac ip lease fresh)
    ]

-- Where no two entries share an address, a removal keeps the index exact.
pub remove-InSync :
    (t : LeaseTable) (mac : ℕ) (lease : ClientLease)
    → get t mac ≡ some lease
    → UniqueIps t
    → InSync t
    → InSync (remove t mac).0
remove-InSync t mac lease held unique sync ip = (to, from)
  where
    to : is_ip_available (remove t mac).0 ip ≡ false → IsHeld (remove t mac).0 ip
    to h =
        let (m, l, g, e) = (sync ip).0 (ground (arith, available-remove t mac ip lease held)) in
        let other : m ≢ mac = ground (arith, available-remove t mac ip lease held) in
        (m, l, ground (arith, get-remove_ne t mac m other), e)

    from : IsHeld (remove t mac).0 ip → is_ip_available (remove t mac).0 ip ≡ false
    from (m, l, g, e) =
        let g' = get_of_remove t mac m l g in
        let old = (sync ip).1 (m, l, g', e) in
        let other : m ≢ mac = ground (arith, get-remove_self t mac) in
        ground (arith, available-remove t mac ip lease held, unique m mac l lease)

-- A client whose expired entry is still in the table, and another that was given its address since:
-- when the first releases, the index calls the second one's address free.
pub remove-out_of_sync :
    (t : LeaseTable) (old_mac new_mac : ℕ) (old lease : ClientLease)
    → get t old_mac ≡ some old
    → old_mac ≢ new_mac
    → lease.ip ≡ old.ip
    → (get (remove (insert t new_mac lease) old_mac).0 new_mac ≡ some lease)
      × (is_ip_available (remove (insert t new_mac lease) old_mac).0 lease.ip ≡ true)
remove-out_of_sync t old_mac new_mac old lease g n e =
    let g' = get-insert_ne t new_mac old_mac lease n in
    (
      ground (
        arith,
        get-insert_self t new_mac lease,
        get-remove_ne (insert t new_mac lease) old_mac new_mac,
      ),
      ground (arith, available-remove (insert t new_mac lease) old_mac lease.ip old),
    )
