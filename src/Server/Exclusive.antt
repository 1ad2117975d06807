-- ===== src/Server/Exclusive.antt =====
-- src/services/dhcp_server.rs, `LeaseTable`: no two clients hold live leases on one address. The
-- lemmas for each method; Server/Safety.antt puts them together for the packets of the LAN.
use rustyrouter.Prelude.{
  subst, Option-cases, inl, inr, ℕ, ◌≡◌, ◌≢◌, ◌≤◌, ◌<◌, refl, false, not, ◌&&◌, none, some, [], ◌∷◌,
  map, ◌==◌, ℕ_discrete, any, arith, find-holds, find-Mem,
}
use mathlib.Core.List.{Mem}
use rustyrouter.Prelude.Map
use rustyrouter.Prelude.Map.{Map, Distinct}
use rustyrouter.Prelude.Set
use rustyrouter.Server.LeaseTable.{
  ClientLease, LeaseTable, Ipv4Net, get, insert, remove, is_ip_available, held_by_other,
  is_ip_taken_by_other, is_live, evict_expired, next_available_ip,
}

-- At the instant `now` no address is leased to two clients.
abbrev pub Exclusive : ℕ → LeaseTable → Type 0
Exclusive now t =
    (m m' : ℕ) (l l' : ClientLease)
    → get t m ≡ some l
    → get t m' ≡ some l'
    → now < l.expiry
    → now < l'.expiry
    → l.ip ≡ l'.ip
    → m ≡ m'

-- Every lease, expired or not, is on an address that passes the test.
abbrev pub Within : (ℕ → Type 0) → LeaseTable → Type 0
Within P t = (m : ℕ) (l : ClientLease) → get t m ≡ some l → P l.ip

pub Exclusive-mono :
    (now now' : ℕ) (t : LeaseTable) → now ≤ now' → Exclusive now t → Exclusive now' t
Exclusive-mono now now' t h e m m' l l' g g' x x' i = e m m' l l' g g' (omega arith) (omega arith) i

pub get-insert_self :
    (t : LeaseTable) (mac : ℕ) (l : ClientLease) → get (insert t mac l) mac ≡ some l
unfolding get insert
get-insert_self t mac l = ground (arith, Map.get-insert ℕ_discrete mac mac l t.by_mac)

pub get-insert_ne :
    (t : LeaseTable) (mac m : ℕ) (l : ClientLease) → m ≢ mac → get (insert t mac l) m ≡ get t m
unfolding get insert
get-insert_ne t mac m l h = ground (arith, Map.get-insert ℕ_discrete mac m l t.by_mac)

pub get-remove_self : (t : LeaseTable) (mac : ℕ) → get (remove t mac).0 mac ≡ none
unfolding get remove
get-remove_self t mac = ground (arith, Map.get-remove_self ℕ_discrete mac t.by_mac)

pub get-remove_ne : (t : LeaseTable) (mac m : ℕ) → m ≢ mac → get (remove t mac).0 m ≡ get t m
unfolding get remove
get-remove_ne t mac m h = ground (arith, Map.get-remove_ne ℕ_discrete mac m t.by_mac)

not_taken :
    (t : LeaseTable) (now ip mac m : ℕ) (l : ClientLease)
    → is_ip_taken_by_other t now ip mac ≡ false
    → get t m ≡ some l
    → now < l.expiry
    → l.ip ≡ ip
    → m ≡ mac
unfolding get is_ip_taken_by_other held_by_other
not_taken t now ip mac m l h g x e =
    ground (arith, Map.get_of_not-any ℕ_discrete (held_by_other now ip mac) m l t.by_mac)

pub insert-Exclusive :
    (t : LeaseTable) (now mac : ℕ) (lease : ClientLease)
    → Exclusive now t
    → is_ip_taken_by_other t now lease.ip mac ≡ false
    → Exclusive now (insert t mac lease)
insert-Exclusive t now mac lease ex free m m' l l' g g' x x' i = elim (ℕ_discrete m mac) [
  | yes e ↦ elim (ℕ_discrete m' mac) [
    | yes e' ↦ omega arith
    | no n' ↦
        let own : m' ≡ mac =
          not_taken t now lease.ip mac m' l' free (ground (arith, get-insert_ne t mac m' lease n'))
            x' (ground (arith, get-insert_self t mac lease)) in
        absurd (n' own)
  ]
  | no n ↦ elim (ℕ_discrete m' mac) [
    | yes e' ↦
        let own : m ≡ mac =
          not_taken t now lease.ip mac m l free (ground (arith, get-insert_ne t mac m lease n)) x
            (ground (arith, get-insert_self t mac lease)) in
        absurd (n own)
    | no n' ↦
        ex m m' l l' (ground (arith, get-insert_ne t mac m lease n))
          (ground (arith, get-insert_ne t mac m' lease n')) x x' i
  ]
]

pub get_of_remove :
    (t : LeaseTable) (mac m : ℕ) (l : ClientLease)
    → get (remove t mac).0 m ≡ some l
    → get t m ≡ some l
get_of_remove t mac m l g = elim (ℕ_discrete m mac) [
  | yes e ↦ absurd (ground (arith, get-remove_self t mac))
  | no n ↦ ground (arith, get-remove_ne t mac m n)
]

pub remove-Exclusive :
    (t : LeaseTable) (now mac : ℕ) → Exclusive now t → Exclusive now (remove t mac).0
remove-Exclusive t now mac ex m m' l l' g g' =
    ex m m' l l' (get_of_remove t mac m l g) (get_of_remove t mac m' l' g')

-- Each lease of the new table is the new one or an old one.
pub get_of_insert :
    (P : ℕ → Type 0) (t : LeaseTable) (mac : ℕ) (lease : ClientLease)
    → P lease.ip
    → Within P t
    → Within P (insert t mac lease)
get_of_insert P t mac lease new_P old_P m l g = elim (ℕ_discrete m mac) [
  | yes e ↦
      let same : lease.ip ≡ l.ip = ground (arith, get-insert_self t mac lease) in subst P same new_P
  | no n ↦ old_P m l (ground (arith, get-insert_ne t mac m lease n))
]

pub remove-Distinct :
    (t : LeaseTable) (mac : ℕ)
    → Distinct ℕ_discrete t.by_mac
    → Distinct ℕ_discrete (remove t mac).0.by_mac
unfolding remove
remove-Distinct t mac d = elim (Option-cases (Map.get ℕ_discrete mac t.by_mac)) [
  | inl e ↦ rw (e, remove) d
  | inr (l, e) ↦ rw (e, remove) (Map.remove-Distinct ℕ_discrete mac t.by_mac d)
]

pub get-evict_expired :
    (t : LeaseTable) (now m : ℕ)
    → Distinct ℕ_discrete t.by_mac
    → get (evict_expired t now) m ≡ Map.kept (is_live now) (get t m)
unfolding get evict_expired
get-evict_expired t now m d = Map.get-retain ℕ_discrete (is_live now) m t.by_mac d

pub get_of_evict :
    (t : LeaseTable) (now m : ℕ) (l : ClientLease)
    → Distinct ℕ_discrete t.by_mac
    → get (evict_expired t now) m ≡ some l
    → get t m ≡ some l
get_of_evict t now m l d g = ground (arith, get-evict_expired t now m d)

pub evict_expired-Exclusive :
    (t : LeaseTable) (now : ℕ)
    → Distinct ℕ_discrete t.by_mac
    → Exclusive now t
    → Exclusive now (evict_expired t now)
evict_expired-Exclusive t now d ex m m' l l' g g' =
    ex m m' l l' (get_of_evict t now m l d g) (get_of_evict t now m' l' d g')

-- An address that no entry of the list has is held by nobody.
any-held_by_other :
    (now ip mac : ℕ) (m : Map ℕ ClientLease)
    → Set.contains ip (map (λ e. e.1.ip) m) ≡ false
    → any (held_by_other now ip mac) m ≡ false
unfolding any held_by_other Set.contains
any-held_by_other now ip mac [] h = refl
any-held_by_other now ip mac ((j, l) ∷ m) h = ground (arith, any-held_by_other now ip mac m)

-- The address that is found for a new client is a host other than the server, and no lease is on it.
pub next_available_ip-free :
    (t : LeaseTable) (now mac later server_ip ip : ℕ) (net : Ipv4Net)
    → (next_available_ip t now net server_ip).1 ≡ some ip
    → (is_ip_taken_by_other (evict_expired t now) later ip mac ≡ false)
      × (ip ≢ server_ip)
      × Mem ip net.hosts
unfolding next_available_ip is_ip_taken_by_other evict_expired
next_available_ip-free t now mac later server_ip ip net h =
    let found =
      find-holds (λ a. not (a == server_ip) && is_ip_available (evict_expired t now) a) net.hosts ip
        h in
    (
      any-held_by_other later ip mac _ (ground arith),
      ground arith,
      find-Mem (λ a. not (a == server_ip) && is_ip_available (evict_expired t now) a) net.hosts ip
          h,
    )
