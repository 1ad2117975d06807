-- ===== src/Client/Netlink.antt =====
-- src/services/dhcp_client.rs, `configure_wan` and `deconfigure_wan`. The crate `rtnetlink` and the
-- kernel behind it are a parameter: each request may fail, and leaves a new kernel.
use rustyrouter.Client.Mask.{mask_to_prefix_len}
use rustyrouter.Client.Errors.{Result, DhcpError, ok, err}
use Prim.Native.String.{String}
use rustyrouter.Prelude.{
  ℕ, none, some, [], ◌∷◌, List, Bool, Option, ◌≡◌, ◌==◌, if◌then◌else◌, ◌&&◌, any, refl,
}

-- An address that the kernel lists, with its `Local` attributes.
pub record Address : Type 0 where
  pub index : ℕ
  pub locals : List ℕ

pub record Netlink : Type 1 where
  pub Kernel : Type 0
  pub new_connection : Kernel → Kernel × Bool
  -- `none` is an error, `some none` an interface that is not there.
  pub link_index : Kernel → String → Option (Option ℕ)
  -- The stream of addresses; `none` is an error of the stream.
  pub addresses : Kernel → List (Option Address)
  pub del_address : Kernel → Address → Kernel × Bool
  pub link_up : Kernel → ℕ → Kernel × Bool
  pub add_address : Kernel → ℕ → ℕ → ℕ → Kernel × Bool
  pub add_default_route : Kernel → ℕ → ℕ → Kernel × Bool

module _ (n : Netlink) where
  -- A computation on the kernel that may fail.
  abbrev pub M : Type 0 → Type 0
  M A = n.Kernel → n.Kernel × Result A

  infixl 5 ◌>>=◌ ◌>>◌
  abbrev ◌>>=◌ : {A B : Type 0} → M A → (A → M B) → M B
  ◌>>=◌ m f k = let (k', r) = m k in elim r [ ok a ↦ f a k' | err e ↦ (k', err e) ]

  abbrev ◌>>◌ : {B : Type 0} → M (Unit {0}) → M B → M B
  m >> f = m >>= λ _. f

  abbrev pure : {A : Type 0} → A → M A
  pure a k = (k, ok a)

  abbrev fail : {A : Type 0} → DhcpError → M A
  fail e k = (k, err e)

  -- A request that is given up on an error (`?`), and one whose error is only logged.
  abbrev try : DhcpError → (n.Kernel → n.Kernel × Bool) → M (Unit {0})
  try e request k = let (k', done) = request k in (k', if done then ok tt else err e)

  abbrev attempt : (n.Kernel → n.Kernel × Bool) → M (Unit {0})
  attempt request k = let (k', done) = request k in (k', ok tt)

  abbrev prefix_of : ℕ → M ℕ
  prefix_of mask k = (k, mask_to_prefix_len mask)

  abbrev found : Option (Option ℕ) → Result ℕ
  found none = err DhcpError.rt_netlink
  found (some none) = err DhcpError.interface_not_found
  found (some (some index)) = ok index

  abbrev link_of : String → M ℕ
  link_of name k = (k, found (n.link_index k name))

  abbrev list_addresses : M (List (Option Address))
  list_addresses k = (k, ok (n.addresses k))

  -- The loop over the listed addresses that deletes those that pass the test.
  unfoldable pub delete_matching : (Address → Bool) → List (Option Address) → M (Unit {0})
  delete_matching test [] = pure tt
  delete_matching test (none ∷ rest) = fail DhcpError.rt_netlink
  delete_matching test (some a ∷ rest) = do
    if test a then attempt (λ k. n.del_address k a) else pure tt
    delete_matching test rest

  unfoldable pub deconfigure_wan : String → ℕ → ℕ → M (Unit {0})
  deconfigure_wan wan_interface ip mask = do
    prefix_len ← prefix_of mask
    try DhcpError.io n.new_connection
    index ← link_of wan_interface
    listed ← list_addresses
    delete_matching (λ a. a.index == index && any (λ l. l == ip) a.locals) listed

  unfoldable pub add_gateway : Option ℕ → ℕ → M (Unit {0})
  add_gateway none index = pure tt
  add_gateway (some gw) index = attempt (λ k. n.add_default_route k gw index)

  unfoldable pub configure_wan : String → ℕ → ℕ → Option ℕ → M (Unit {0})
  unfolding add_gateway
  configure_wan wan_interface ip mask gateway = do
    prefix_len ← prefix_of mask
    try DhcpError.io n.new_connection
    index ← link_of wan_interface
    listed ← list_addresses
    delete_matching (λ a. a.index == index) listed
    try DhcpError.rt_netlink (λ k. n.link_up k index)
    try DhcpError.rt_netlink (λ k. n.add_address k index ip prefix_len)
    add_gateway gateway index

  -- A mask that is no prefix mask is an error, and the kernel is not touched.
  pub configure_wan-mask :
      (name : String) (ip mask : ℕ) (gateway : Option ℕ) (k : n.Kernel) (e : DhcpError)
      → mask_to_prefix_len mask ≡ err e
      → configure_wan name ip mask gateway k ≡ (k, err e)
  unfolding configure_wan
  configure_wan-mask name ip mask gateway k e h = rw (h, ◌>>=◌) refl
