-- ===== src/Client/Lease.antt =====
-- src/services/dhcp_client.rs, `apply_lease_config` and `deconfigure`: the shared lease, which the
-- DNS forwarder and the SNTP client read, and the WAN interface.
use rustyrouter.Client.Errors.{Result, ok}
use rustyrouter.Client.Parse.{DhcpAck}
use rustyrouter.Client.Netlink.{Netlink, configure_wan, deconfigure_wan}
use Prim.Native.String.{String}
use rustyrouter.Prelude.{
  ℕ, none, some, [], true, false, List, Bool, Option, ◌≡◌, ◌||◌, ℕ_discrete, if◌then◌else◌, arith,
  refl, Bool-cases, inl, inr,
}

-- `WanLease` of src/services/utils.rs
pub record WanLease : Type 0 where
  pub ip : Option ℕ
  pub mask : Option ℕ
  pub gateway : Option ℕ
  pub dns_servers : List ℕ

unfoldable pub no_lease : WanLease
no_lease = record { ip = none; mask = none; gateway = none; dns_servers = [] }

unfoldable pub address_eq : Discrete (Option ℕ)
address_eq = hlevel ℕ_discrete

unfoldable pub servers_eq : Discrete (List ℕ)
servers_eq = hlevel ℕ_discrete

abbrev pub ne : {A : Type 0} → Discrete A → A → A → Bool
ne dec a b = elim (dec a b) [ yes _ ↦ false | no _ ↦ true ]

unfoldable pub is_changed : WanLease → DhcpAck → Bool
is_changed lease ack =
    ne address_eq lease.ip (some ack.ip)
    || ne address_eq lease.mask (some ack.mask)
    || ne address_eq lease.gateway ack.gateway
    || ne servers_eq lease.dns_servers ack.dns_servers

unfoldable pub lease_of : DhcpAck → WanLease
lease_of ack = record {
  ip = some ack.ip;
  mask = some ack.mask;
  gateway = ack.gateway;
  dns_servers = ack.dns_servers;
}

module _ (n : Netlink) where
  pub record ClientState : Type 0 where
    pub lease_state : WanLease
    pub kernel : n.Kernel

  unfoldable pub apply_lease_config :
      String → ClientState → DhcpAck → ClientState × Result (Unit {0})
  unfolding lease_of
  apply_lease_config wan st ack =
      if is_changed st.lease_state ack
      then (let (k, r) = configure_wan n wan ack.ip ack.mask ack.gateway st.kernel in
          (record { lease_state = lease_of ack; kernel = k }, r))
      else (st, ok tt)

  -- The kernel after the interface's address is taken away, if there was one.
  unfoldable pub withdraw : String → Option ℕ → Option ℕ → n.Kernel → n.Kernel
  withdraw wan (some ip) (some mask) k = (deconfigure_wan n wan ip mask k).0
  withdraw wan _ _ k = k

  unfoldable pub deconfigure : String → ClientState → ClientState
  unfolding withdraw
  deconfigure wan st = record {
    lease_state = no_lease;
    kernel = withdraw wan st.lease_state.ip st.lease_state.mask st.kernel;
  }

  pub is_changed-eq_false :
      (lease : WanLease) (ack : DhcpAck) → is_changed lease ack ≡ false → lease ≡ lease_of ack
  unfolding is_changed lease_of
  is_changed-eq_false lease ack h = ground arith

  is_changed-lease_of : (ack : DhcpAck) → is_changed (lease_of ack) ack ≡ false
  unfolding is_changed lease_of
  is_changed-lease_of ack = ground arith

  -- Whether or not the interface could be configured, the shared lease is the acknowledged one, and
  -- applying the same acknowledgement again reports success and does not touch the kernel.
  pub apply_lease_config-again :
      (wan : String) (st : ClientState) (ack : DhcpAck)
      → let st' = (apply_lease_config wan st ack).0 in
        (st'.lease_state ≡ lease_of ack) × (apply_lease_config wan st' ack ≡ (st', ok tt))
  unfolding apply_lease_config
  apply_lease_config-again wan st ack = elim (Bool-cases (is_changed st.lease_state ack)) [
    | inl y ↦ rw y (refl, rw (is_changed-lease_of ack) refl)
    | inr f ↦ rw f (is_changed-eq_false st.lease_state ack f, rw f refl)
  ]

  -- After `deconfigure` the shared lease is empty, so the next acknowledgement is always configured.
  pub apply_lease_config-deconfigure :
      (wan : String) (st : ClientState) (ack : DhcpAck)
      → let st' = deconfigure wan st in
        let (k, r) = configure_wan n wan ack.ip ack.mask ack.gateway st'.kernel in
        (st'.lease_state ≡ no_lease)
        × (apply_lease_config wan st' ack ≡ (record { lease_state = lease_of ack; kernel = k }, r))
  unfolding apply_lease_config deconfigure is_changed no_lease address_eq
  apply_lease_config-deconfigure wan st ack = (refl, refl)

  -- Deconfiguring an acknowledged lease takes its address away.
  pub deconfigure-lease_of :
      (wan : String) (st : ClientState) (ack : DhcpAck)
      → st.lease_state ≡ lease_of ack
      → deconfigure wan st ≡ record {
        lease_state = no_lease;
        kernel = (deconfigure_wan n wan ack.ip ack.mask st.kernel).0;
      }
  unfolding deconfigure withdraw lease_of
  deconfigure-lease_of wan st ack held = rw held refl
