-- ===== src/Provider/Override.antt =====
-- newParser of provider/parser.go: what a provider changes in the outbounds of a subscription.
pub mod Detours
mod Tests
use sfa_provider.Prelude.{
  ℕ, String, Option, none, some, Bool, true, false, not, List, [], ◌∷◌, ◌&&◌, ◌==◌, string_key, any,
  Result, ok, err, ◌>>=◌, if◌then◌else◌,
}
use Prim.Native.String.{◌++◌}
use sfa_provider.Provider.{DialerOptions, Options}

-- option.OverrideDialerOptions, where none is nil.
pub record OverrideDialerOptions : Type 0 where
  pub detour : Option String
  pub bind_interface : Option String
  pub inet4_bind_address : Option String
  pub inet6_bind_address : Option String
  pub protect_path : Option String
  pub routing_mark : Option ℕ
  pub reuse_addr : Option Bool
  pub connect_timeout : Option ℕ
  pub tcp_fast_open : Option Bool
  pub tcp_multi_path : Option Bool
  pub udp_fragment : Option Bool
  pub domain_strategy : Option String
  pub fallback_delay : Option ℕ
  pub store_last_ip : Option Bool

-- option.OutboundOverrideOptions
pub record OutboundOverride : Type 0 where
  pub tag_prefix : String
  pub tag_suffix : String
  pub dialer : Option OverrideDialerOptions

abbrev is_none : {A : Type 0} → Option A → Bool
is_none none = true
is_none (some a) = false

-- reflect.DeepEqual with defaultOptions
abbrev is_default : OverrideDialerOptions → Bool
is_default d =
    is_none d.detour
    && is_none d.bind_interface
    && is_none d.inet4_bind_address
    && is_none d.inet6_bind_address
    && is_none d.protect_path
    && is_none d.routing_mark
    && is_none d.reuse_addr
    && is_none d.connect_timeout
    && is_none d.tcp_fast_open
    && is_none d.tcp_multi_path
    && is_none d.udp_fragment
    && is_none d.domain_strategy
    && is_none d.fallback_delay
    && is_none d.store_last_ip

-- if p != nil { x = *p }
abbrev set_if : {A : Type 0} → Option A → A → A
set_if none x = x
set_if (some a) x = a

-- if p != nil { x = p }
abbrev set_pointer : {A : Type 0} → Option A → Option A → Option A
set_pointer none x = x
set_pointer (some a) x = some a

-- The first condition of overrideDialerOption.
abbrev pub drop_detour : List String → DialerOptions → DialerOptions
drop_detour tags options =
    if not (options.detour == "") && not (any (λ tag. options.detour == tag) tags)
    then record options { detour = "" }
    else options

abbrev pub override_detour : Option String → String → String
override_detour none detour = detour
override_detour (some new) detour = if detour == "" then new else detour

-- The conditions of overrideDialerOption from that on Detour on. That on DomainStrategy sets
-- UDPFragment.
abbrev pub override_fields : OverrideDialerOptions → DialerOptions → DialerOptions
override_fields d options = record options {
  detour = override_detour d.detour options.detour;
  bind_interface = set_if d.bind_interface options.bind_interface;
  inet4_bind_address = set_pointer d.inet4_bind_address options.inet4_bind_address;
  inet6_bind_address = set_pointer d.inet6_bind_address options.inet6_bind_address;
  protect_path = set_if d.protect_path options.protect_path;
  routing_mark = set_if d.routing_mark options.routing_mark;
  reuse_addr = set_if d.reuse_addr options.reuse_addr;
  connect_timeout = set_if d.connect_timeout options.connect_timeout;
  tcp_fast_open = set_if d.tcp_fast_open options.tcp_fast_open;
  tcp_multi_path = set_if d.tcp_multi_path options.tcp_multi_path;
  udp_fragment =
      if is_none d.domain_strategy
      then set_pointer d.udp_fragment options.udp_fragment
      else d.udp_fragment;
  fallback_delay = set_if d.fallback_delay options.fallback_delay;
  store_last_ip = set_if d.store_last_ip options.store_last_ip;
}

abbrev pub override_given : Option OverrideDialerOptions → DialerOptions → DialerOptions
override_given none options = options
override_given (some d) options = if is_default d then options else override_fields d options

-- overrideDialerOption
unfoldable pub override_dialer_option :
    Option OutboundOverride → List String → DialerOptions → DialerOptions
override_dialer_option none tags options = drop_detour tags options
override_dialer_option (some override) tags options =
    override_given override.dialer (drop_detour tags options)

-- The two conditions on the tag.
abbrev pub override_tag : Option OutboundOverride → String → String
override_tag none tag = tag
override_tag (some override) tag =
    let tag = if override.tag_prefix == "" then tag else override.tag_prefix ++ tag in
    if override.tag_suffix == "" then tag else tag ++ override.tag_suffix

-- The cases of the switch.
abbrev pub has_dialer : String → Bool
has_dialer type_name =
    any (λ t. type_name == t)
      ("http" ∷ "socks" ∷ "tuic" ∷ "vmess" ∷ "vless" ∷ "trojan" ∷ "hysteria" ∷ "shadowtls"
        ∷ "hysteria2" ∷ "wireguard" ∷ "shadowsocks" ∷ "shadowsocksr" ∷ [])

-- The body of the loop of overrideOutbounds.
abbrev pub override_outbound : Option OutboundOverride → List String → Options → Options
override_outbound override tags o =
    let named = record o { tag = override_tag override o.tag } in
    if has_dialer o.type_name
    then record named { dialer = override_dialer_option override tags o.dialer }
    else named

abbrev pub override_each : Option OutboundOverride → List String → List Options → List Options
override_each override tags [] = []
override_each override tags (o ∷ outbounds) =
    override_outbound override tags o ∷ override_each override tags outbounds

abbrev pub tags_of : List Options → List String
tags_of [] = []
tags_of (o ∷ outbounds) = o.tag ∷ tags_of outbounds

-- overrideOutbounds: `tags` are those before the override.
abbrev pub override_outbounds : Option OutboundOverride → List Options → List Options
override_outbounds override outbounds = override_each override (tags_of outbounds) outbounds

-- newParser, with the parsers of the formats as an argument.
unfoldable pub new_parser :
    (String → Result String (List Options))
    → Option OutboundOverride
    → String
    → Result String (List Options)
new_parser parse override content =
    parse content >>= λ outbounds. ok (override_outbounds override outbounds)
