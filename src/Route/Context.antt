-- ===== src/Route/Context.antt =====
-- `InboundContext` of adapter/inbound.go, as far as rules read or write it. A `Socksaddr` has
-- either an address or a domain name. The flags that a rule sets while it is matched stand in
-- `MatchFlags`.
use sfa_provider.Prelude.{ℕ, String, Option, Bool, true, false, List}
use sfa_provider.FakeIp.Addr.{Addr}

pub record Socksaddr : Type 0 where
  pub addr : Addr
  pub port : ℕ
  pub fqdn : String

-- process.Info, without the number of the user.
pub record ProcessInfo : Type 0 where
  pub process_path : String
  pub package_name : String
  pub user : String

pub record MatchFlags : Type 0 where
  pub source_address_match : Bool
  pub source_port_match : Bool
  pub destination_address_match : Bool
  pub destination_port_match : Bool
  pub did_match : Bool

pub record InboundContext : Type 0 where
  pub inbound : String
  pub ip_version : ℕ
  pub network : String
  pub source : Socksaddr
  pub destination : Socksaddr
  pub user : String
  pub outbound : String
  pub protocol : String
  pub sniff_host : String
  pub client : String
  pub dns_mode : String
  pub domain : String
  pub destination_addresses : List Addr
  pub source_geoip_code : String
  pub geoip_code : String
  pub process_info : Option ProcessInfo
  pub query_type : ℕ
  pub ip_cidr_match_source : Bool
  pub ip_cidr_accept_empty : Bool
  pub flags : MatchFlags
  pub open flags use *
  pub ignore_destination_ip_cidr_match : Bool
  pub is_resolved : Bool
  pub dns_fall_back : Bool
  pub fake_ip_filter : Bool

abbrev pub no_flags : MatchFlags
no_flags = record {
  source_address_match = false;
  source_port_match = false;
  destination_address_match = false;
  destination_port_match = false;
  did_match = false;
}

-- ResetRuleCache
abbrev pub reset_rule_cache : InboundContext → InboundContext
reset_rule_cache m = record m {
  ip_cidr_match_source = false;
  ip_cidr_accept_empty = false;
  flags = no_flags;
}

abbrev pub with_flags : MatchFlags → InboundContext → InboundContext
with_flags f m = record m { flags = f }

-- metadata.DidMatch = true, and so for the other flags.
abbrev pub set_did_match : InboundContext → InboundContext
set_did_match m = record m { flags = record m.flags { did_match = true } }

abbrev pub set_source_address : InboundContext → InboundContext
set_source_address m = record m { flags = record m.flags { source_address_match = true } }

abbrev pub set_source_port : InboundContext → InboundContext
set_source_port m = record m { flags = record m.flags { source_port_match = true } }

abbrev pub set_destination_address : InboundContext → InboundContext
set_destination_address m = record m { flags = record m.flags { destination_address_match = true } }

abbrev pub set_destination_port : InboundContext → InboundContext
set_destination_port m = record m { flags = record m.flags { destination_port_match = true } }
