-- ===== src/Transport/Host.antt =====
-- internal/transport/libp2p.go: `NewLibp2pHost`. go-libp2p is an argument: what it makes of a connection
-- manager and of the options.
use go_p2p_messenger.Base.{
  ℕ, Text, codes, decimal, Bool, true, List, [], ◌∷◌, ◌++◌, Exec, wrapping, ◌>>=◌,
}
use go_p2p_messenger.Identity.{Crypto, Identity}

-- The options that the program sets; the default security is Noise, the default muxer Yamux.
pub record HostOptions (K M : Type 0) : Type 0 where
  pub key : K
  pub listen_addrs : List Text
  pub default_security : Bool
  pub default_muxers : Bool
  pub manager : M
  pub nat_port_map : Bool
  pub hole_punching : Bool

pub record Libp2p (W K : Type 0) : Type 1 where
  pub Manager : Type 0
  pub Host : Type 0
  -- The low and the high water, and the grace period in seconds.
  pub new_conn_manager : ℕ → ℕ → ℕ → Exec W Manager
  pub new_host : HostOptions K Manager → Exec W Host

module _ {W : Type 0} (c : Crypto) (lib : Libp2p W c.PrivKey) where
  unfoldable pub listen_addrs : ℕ → List Text
  listen_addrs port =
      (codes "/ip4/0.0.0.0/udp/" ++ (decimal port ++ codes "/quic-v1"))
      ∷ (codes "/ip4/0.0.0.0/tcp/" ++ decimal port)
      ∷ []

  unfoldable pub host_options : Identity c → ℕ → lib.Manager → HostOptions c.PrivKey lib.Manager
  unfolding listen_addrs
  host_options ident port manager = record {
    key = ident.private_key;
    listen_addrs = listen_addrs port;
    default_security = true;
    default_muxers = true;
    manager = manager;
    nat_port_map = true;
    hole_punching = true;
  }

  -- `NewLibp2pHost`
  unfoldable pub new_libp2p_host : Identity c → ℕ → Exec W lib.Host
  unfolding host_options
  new_libp2p_host ident port =
      wrapping "create conn manager" (lib.new_conn_manager 100 400 60) >>= λ manager.
      wrapping "create libp2p host" (lib.new_host (host_options ident port manager))
