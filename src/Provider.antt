-- ===== src/Provider.antt =====
-- What a provider of outbounds keeps, and what it leaves out of a subscription
-- (provider/default.go, outbound/group.go).
pub mod Start
pub mod Ports
pub mod Override
pub mod Update
pub mod FirstStart
pub mod Local
mod Tests
use sfa_provider.Prelude.{
  ℕ, String, Option, none, some, Bool, true, false, not, List, [], ◌∷◌, ◌&&◌, ◌||◌, ◌==◌,
  string_key, ℕ_key, Map, any, all, is_empty, if◌then◌else◌,
}
use sfa_provider.Boot.{Outbound}

-- option.DialerOptions: the addresses, durations and the domain strategy by what they are, in numbers
-- and texts.
pub record DialerOptions : Type 0 where
  pub detour : String
  pub bind_interface : String
  pub inet4_bind_address : Option String
  pub inet6_bind_address : Option String
  pub server_addresses : List String
  pub protect_path : String
  pub routing_mark : ℕ
  pub reuse_addr : Bool
  pub connect_timeout : ℕ
  pub tcp_fast_open : Bool
  pub tcp_multi_path : Bool
  pub udp_fragment : Option Bool
  pub udp_fragment_default : Bool
  pub domain_strategy : String
  pub fallback_delay : ℕ
  pub store_last_ip : Bool
  pub is_wire_guard_listener : Bool

-- option.Outbound: `dialer` are the dialer options of the protocol's options and `body` stands for
-- the rest of these; `port` is what Port takes from them.
pub record Options : Type 0 where
  pub tag : String
  pub type_name : String
  pub port : ℕ
  pub dialer : DialerOptions
  pub body : String

-- The filters of a provider: regular expressions as predicates, and the ports as a list.
pub record Filters : Type 0 where
  pub includes : List (String → Bool)
  pub excludes : Option (String → Bool)
  pub types : List String
  pub ports : List ℕ

-- myProviderAdapter, as far as an update changes it.
pub record ProviderAdapter : Type 0 where
  pub tag : String
  pub outbounds : List Outbound
  pub outbound_by_tag : Map String Outbound
  pub last_outs : List Options

abbrev known_types : List String
known_types =
    "tor" ∷ "ssh" ∷ "http" ∷ "socks" ∷ "tuic" ∷ "vmess" ∷ "vless" ∷ "trojan" ∷ "shadowtls"
    ∷ "shadowsocks" ∷ "shadowsocksr" ∷ "hysteria" ∷ "hysteria2" ∷ "wireguard" ∷ []

abbrev pub check_type : List String → Bool
check_type types = all (λ t. any (λ known. t == known) known_types) types

abbrev pub test_includes : String → List (String → Bool) → Bool
test_includes tag includes =
    if is_empty includes then true else all (λ matches. matches tag) includes

abbrev pub test_excludes : String → Option (String → Bool) → Bool
test_excludes tag none = true
test_excludes tag (some excludes) = not (excludes tag)

abbrev pub test_types : String → List String → Bool
test_types type_name types = if is_empty types then true else any (λ t. type_name == t) types

abbrev pub test_ports : ℕ → List ℕ → Bool
test_ports port ports = if (port == 0) || is_empty ports then true else any (λ p. p == port) ports

-- The condition of common.Filter in parseOutbounds.
abbrev pub passes : Filters → Options → Bool
passes filters o =
    test_includes o.tag filters.includes
    && test_excludes o.tag filters.excludes
    && test_types o.type_name filters.types
    && test_ports o.port filters.ports

-- common.Filter
abbrev pub filter : Filters → List Options → List Options
filter filters [] = []
filter filters (o ∷ outbounds) =
    if passes filters o then o ∷ filter filters outbounds else filter filters outbounds
