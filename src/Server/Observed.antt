-- ===== src/Server/Observed.antt =====
-- src/services/dhcp_server.rs: the lease table as its clients see it. Two tables are the same here with the
-- same lease for each client and the same addresses in the index.

use rustyrouter.Prelude.{
  ℕ, [], ◌∷◌, Bool, true, false, Option, some, none, ◌≡◌, refl, sym, ap, ◌∙◌, any, not, ◌&&◌, ◌==◌,
  if◌then◌else◌, arith, ℕ_discrete, Bool-cases, Option-cases, inl, inr, if_pos,
}
use rustyrouter.Prelude.Map
use rustyrouter.Prelude.Map.{Map, Distinct}
use rustyrouter.Prelude.Set
use rustyrouter.Server.LeaseTable.{
  ClientLease, LeaseTable, get, insert, remove, is_ip_available, held_by_other,
  is_ip_taken_by_other, release_old,
}
use rustyrouter.Server.Exclusive.{
  get-insert_self, get-insert_ne, get-remove_self, get-remove_ne, remove-Distinct,
}
use rustyrouter.Server.Handlers.{validate_requested_ip}
use rustyrouter.Server.Replies.{ServerConfig}

pub record Same (s t : LeaseTable) : Type 0 where
  pub leases : (mac : ℕ) → get s mac ≡ get t mac
  pub index : (ip : ℕ) → is_ip_available s ip ≡ is_ip_available t ip
  pub distinct : Distinct ℕ_discrete s.by_mac
  pub distinct' : Distinct ℕ_discrete t.by_mac

-- Two tests with the same positive cases are equal.
eq_of_iff : (a b : Bool) → (a ≡ true → b ≡ true) → (b ≡ true → a ≡ true) → a ≡ b
eq_of_iff true b f g = sym (f refl)
eq_of_iff false true f g = g refl
eq_of_iff false false f g = refl

-- Some entry passes the test.
entry_of_any :
    (p : ℕ × ClientLease → Bool) (m : Map ℕ ClientLease)
    → Distinct ℕ_discrete m
    → any p m ≡ true
    → (mac : ℕ) × (l : ClientLease) × (Map.get ℕ_discrete mac m ≡ some l) × (p (mac, l) ≡ true)
unfolding any Map.get
entry_of_any p [] d h = absurd (ground arith)
entry_of_any p ((j, l) ∷ m) d h = elim (Bool-cases (p (j, l))) [
  | inl y ↦ (j, l, if_pos (ℕ_discrete j j) refl _ _, y)
  | inr n ↦
      let (mac, k, g, y) = entry_of_any p m d.1 (ground arith) in (mac, k, ground (arith, d.0), y)
]

any_of_entry :
    (p : ℕ × ClientLease → Bool) (m : Map ℕ ClientLease) (mac : ℕ) (l : ClientLease)
    → Map.get ℕ_discrete mac m ≡ some l
    → p (mac, l) ≡ true
    → any p m ≡ true
any_of_entry p m mac l g y = elim (Bool-cases (any p m)) [
  | inl yes_any ↦ yes_any
  | inr no_any ↦ let n = Map.get_of_not-any ℕ_discrete p mac l m no_any g in absurd (ground arith)
]

any-le :
    (p : ℕ × ClientLease → Bool) (s t : LeaseTable)
    → Distinct ℕ_discrete s.by_mac
    → ((mac : ℕ) → get s mac ≡ get t mac)
    → any p s.by_mac ≡ true
    → any p t.by_mac ≡ true
unfolding get
any-le p s t d leases h =
    let (mac, l, g, y) = entry_of_any p s.by_mac d h in
    any_of_entry p t.by_mac mac l (sym (leases mac) ∙ g) y

Same-is_ip_taken_by_other :
    (s t : LeaseTable) (now ip mac : ℕ)
    → Same s t
    → is_ip_taken_by_other s now ip mac ≡ is_ip_taken_by_other t now ip mac
unfolding is_ip_taken_by_other
Same-is_ip_taken_by_other s t now ip mac e =
    let test = held_by_other now ip mac in
    eq_of_iff _ _ (any-le test s t e.distinct e.leases)
      (any-le test t s e.distinct' (λ m. sym (e.leases m)))

pub Same-validate_requested_ip :
    (s t : LeaseTable) (ip mac now : ℕ) (config : ServerConfig)
    → Same s t
    → validate_requested_ip ip mac config s now ≡ validate_requested_ip ip mac config t now
unfolding validate_requested_ip
Same-validate_requested_ip s t ip mac now config e =
    rw (Same-is_ip_taken_by_other s t now ip mac e) refl

-- Whether an address is free once an entry has been taken out of the index.
abbrev freed : ℕ → Option ClientLease → Bool → Bool
freed ip none free = free
freed ip (some old) free = if old.ip == ip then true else free

freed-Same :
    (s t : LeaseTable) (mac ip : ℕ)
    → Same s t
    → freed ip (get s mac) (is_ip_available s ip) ≡ freed ip (get t mac) (is_ip_available t ip)
freed-Same s t mac ip e =
    ap (λ o. freed ip o (is_ip_available s ip)) (e.leases mac)
    ∙ ap (freed ip (get t mac)) (e.index ip)

available-insert_any :
    (t : LeaseTable) (mac ip : ℕ) (lease : ClientLease)
    → is_ip_available (insert t mac lease) ip
      ≡ (not (lease.ip == ip) && freed ip (get t mac) (is_ip_available t ip))
unfolding insert is_ip_available get release_old
available-insert_any t mac ip lease = elim (Option-cases (Map.get ℕ_discrete mac t.by_mac)) [
  | inl e ↦ rw (e, release_old) (ground (arith, Set.contains-insert lease.ip ip t.allocated_ips))
  | inr (old, e) ↦
      rw (e, release_old)
        (ground (
          arith,
          Set.contains-insert lease.ip ip (Set.remove old.ip t.allocated_ips),
          Set.contains-remove old.ip ip t.allocated_ips,
        ))
]

available-remove_any :
    (t : LeaseTable) (mac ip : ℕ)
    → is_ip_available (remove t mac).0 ip ≡ freed ip (get t mac) (is_ip_available t ip)
unfolding remove is_ip_available get
available-remove_any t mac ip = elim (Option-cases (Map.get ℕ_discrete mac t.by_mac)) [
  | inl e ↦ rw (e, remove) refl
  | inr (old, e) ↦ rw (e, remove) (ground (arith, Set.contains-remove old.ip ip t.allocated_ips))
]

pub Same-insert :
    (s t : LeaseTable) (mac : ℕ) (lease : ClientLease)
    → Same s t
    → Same (insert s mac lease) (insert t mac lease)
Same-insert s t mac lease e = record {
  leases = λ m. elim (ℕ_discrete m mac) [
    | yes own ↦ rw own (get-insert_self s mac lease ∙ sym (get-insert_self t mac lease))
    | no n ↦ get-insert_ne s mac m lease n ∙ e.leases m ∙ sym (get-insert_ne t mac m lease n)
  ];
  index = λ ip.
      available-insert_any s mac ip lease
      ∙ ap (λ b. not (lease.ip == ip) && b) (freed-Same s t mac ip e)
      ∙ sym (available-insert_any t mac ip lease);
  distinct = unfold insert in Map.insert-Distinct ℕ_discrete mac lease s.by_mac e.distinct;
  distinct' = unfold insert in Map.insert-Distinct ℕ_discrete mac lease t.by_mac e.distinct';
}

pub Same-remove : (s t : LeaseTable) (mac : ℕ) → Same s t → Same (remove s mac).0 (remove t mac).0
Same-remove s t mac e = record {
  leases = λ m. elim (ℕ_discrete m mac) [
    | yes own ↦ rw own (get-remove_self s mac ∙ sym (get-remove_self t mac))
    | no n ↦ get-remove_ne s mac m n ∙ e.leases m ∙ sym (get-remove_ne t mac m n)
  ];
  index = λ ip.
      available-remove_any s mac ip ∙ freed-Same s t mac ip e ∙ sym (available-remove_any t mac ip);
  distinct = remove-Distinct s mac e.distinct;
  distinct' = remove-Distinct t mac e.distinct';
}
