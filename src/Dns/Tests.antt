-- ===== src/Dns/Tests.antt =====
-- A router with three DNS rules at concrete queries.
use sfa_provider.Prelude.{
  String, Option, none, some, Bool, true, false, List, [], ◌∷◌, ◌≡◌, refl, ok, err, ◌==◌,
  string_key, if◌then◌else◌, any, arith,
}
use sfa_provider.FakeIp.Addr.{Addr, ipv4, addr_beq}
use sfa_provider.FakeIp.Transport.{as_is, prefer_ipv4, use_ipv4}
use sfa_provider.Route.Context.{InboundContext}
use sfa_provider.Route.LogicalRule.Meaning.{Keeps}
use sfa_provider.Route.DnsRule.{DnsRule, match_fallback}
use sfa_provider.Dns.Servers.{
  QueryOptions, is_fake_ip, plain, fake_ip, Transport, FallbackEntry, DnsEntry, Servers,
  new_context,
}
use sfa_provider.Dns.Match.{
  drop, match_dns, match_from, try_rule, match_fallback_rules, fallback_from, use_fallback,
}
use sfa_provider.Dns.Match.First.{first_taker, match_dns_lem}
use sfa_provider.Dns.Lookup.{
  Client, LookupState, Answer, again, rejected, name_error, lookup_func, lookup_loop, lookup_round,
  conclude, fall_back, ask,
}
use sfa_provider.Dns.Lookup.Termination.{lookup_func_returns}
use sfa_provider.Dns.Lookup.Avoids.{AgreesOnReal, lookup_avoids_fake_ip}
use sfa_provider.Dns.Exchange
use sfa_provider.Dns.Exchange.{
  Question, Responses, ExchangeClient, Outcome, exchange_func, exchange_loop, exchange_round,
  is_address_query, query_metadata,
}
use sfa_provider.Dns.Exchange.Termination.{exchange_func_returns}

abbrev no_options : QueryOptions
no_options = record { disable_cache = false; rewrite_ttl = none; client_subnet = none }

abbrev local : Transport
local = record { tag = "local"; kind = plain }

abbrev remote : Transport
remote = record { tag = "remote"; kind = plain }

abbrev fake : Transport
fake = record { tag = "fake"; kind = fake_ip none }

abbrev servers : Servers
servers = record {
  transport_map = λ tag.
      if tag == "local"
      then some local
      else if tag == "remote"
      then some remote
      else if tag == "fake"
      then some fake
      else none;
  transport_domain_strategy = λ t. if t.tag == "remote" then some prefer_ipv4 else none;
  default_transport = local;
  default_domain_strategy = as_is;
}

-- A rule for one domain, and a limit of the answer to one address.
abbrev domain_rule : String → Bool → DnsRule
domain_rule domain limited = record {
  match = λ m. (m.domain == domain, m);
  match_limit = λ m. (any (λ a. addr_beq a (ipv4 1)) m.destination_addresses, m);
  with_address_limit = limited;
}

domain_rule-Keeps : (domain : String) (limited : Bool) → Keeps (domain_rule domain limited).match
domain_rule-Keeps domain limited m = refl

-- A fallback rule for every answer.
abbrev fallback_to : String → FallbackEntry
fallback_to server = record {
  rule = record {
    accept_result = false;
    match_all = true;
    items = [];
    destination_address_items = [];
    invert = false;
  };
  outbound = server;
  options = no_options;
}

abbrev rule_to : String → DnsRule → List FallbackEntry → DnsEntry
rule_to server rule fallbacks = record {
  rule = rule;
  disabled = false;
  outbound = server;
  options = no_options;
  allow_fallthrough = false;
  fallback_rules = fallbacks;
}

abbrev dns_rules : List DnsEntry
dns_rules =
    rule_to "fake" (domain_rule "a.example" false) []
    ∷ rule_to "local" (domain_rule "a.example" true) []
    ∷ rule_to "remote" (domain_rule "a.example" false) (fallback_to "" ∷ [])
    ∷ []

abbrev asked : InboundContext
asked = record new_context { domain = "a.example" }

match_dns_lem_example :
    (match_dns servers no_options dns_rules false (some 1) true asked).0
    ≡ first_taker servers no_options false true 2 (drop 2 dns_rules) asked
match_dns_lem_example = match_dns_lem servers no_options dns_rules false (some 1) true asked (
  domain_rule-Keeps "a.example" false,
  (domain_rule-Keeps "a.example" true, (domain_rule-Keeps "a.example" false, tt)),
)

-- The fake-IP rule is passed over.
second_matches : (match_dns servers no_options dns_rules false none true asked).0.transport ≡ local
unfolding match_dns match_from try_rule
second_matches = refl

-- A client that has the address 2 for every domain, and logs the transports that it asks.
abbrev client : Client (List String)
client = record {
  lookup = λ q w. (ok (ipv4 2 ∷ []), q.transport.tag ∷ w);
  lookup_with_check = λ q check s.
      let (accepted, m) = check (ipv4 2 ∷ []) s.0 in
      (if accepted then ok (ipv4 2 ∷ []) else err rejected, (m, q.transport.tag ∷ s.1));
}

-- The same, but it fails at fake-IP transports.
abbrev strict_client : Client (List String)
strict_client = record {
  lookup = λ q w.
      if is_fake_ip q.transport.kind
      then (err name_error, w)
      else (ok (ipv4 2 ∷ []), q.transport.tag ∷ w);
  lookup_with_check = λ q check s.
      if is_fake_ip q.transport.kind
      then (err name_error, s)
      else client.lookup_with_check q check s;
}

clients-AgreesOnReal : AgreesOnReal client strict_client
clients-AgreesOnReal = record {
  lookups = λ q w h. ground arith;
  checked_lookups = λ q check s h. ground arith;
}

abbrev lookup_at : Client (List String) → Option (Answer × List String)
lookup_at c = lookup_func c servers no_options dns_rules "a.example" false use_ipv4 asked []

lookup_func_returns_example : (r : Answer × List String) × (lookup_at client ≡ some r)
lookup_func_returns_example =
    lookup_func_returns client servers no_options dns_rules "a.example" false use_ipv4 asked []

lookup_avoids_fake_ip_example : lookup_at client ≡ lookup_at strict_client
lookup_avoids_fake_ip_example =
    lookup_avoids_fake_ip client strict_client clients-AgreesOnReal servers no_options dns_rules
      "a.example" false use_ipv4 asked [] refl

-- The answer of the limited rule is rejected, the next is followed by a fallback rule without a
-- server, and the default transport has the last word.
lookup_runs : lookup_at client ≡ some (ok (ipv4 2 ∷ []), "local" ∷ "remote" ∷ "local" ∷ [])
unfolding lookup_func lookup_loop lookup_round conclude fall_back ask match_dns match_from try_rule
    match_fallback_rules fallback_from use_fallback match_fallback
lookup_runs = refl

-- The third round of that lookup.
abbrev before_fallback : LookupState (List String)
before_fallback = record { index = some 1; strategy = use_ipv4; metadata = asked; world = [] }

-- The strategy for IPv4 only, that the lookup was asked with, is lost by the fallback rule.
strategy_lost :
    lookup_round client servers no_options dns_rules "a.example" false before_fallback
    ≡ again (record { index = some 2; strategy = as_is; metadata = asked; world = "remote" ∷ [] })
unfolding lookup_round conclude fall_back ask match_dns match_from try_rule match_fallback_rules
    fallback_from use_fallback match_fallback
strategy_lost = refl

abbrev responses : Responses (List Addr)
responses = record { is_success = λ r. true; to_addresses = λ r. some r }

abbrev exchange_client : ExchangeClient (List Addr) (List String)
exchange_client = record {
  exchange = λ q w. (ok (some (ipv4 2 ∷ [])), q.transport.tag ∷ w);
  exchange_with_check = λ q check s.
      let (accepted, m) = check (ipv4 2 ∷ []) s.0 in
      (if accepted then ok (some (ipv4 2 ∷ [])) else err rejected, (m, q.transport.tag ∷ s.1));
}

abbrev exchange_at : Option (Outcome (List Addr) × List String)
exchange_at =
    exchange_func responses exchange_client servers no_options dns_rules
      (record { name = "a.example."; qtype = 1 } ∷ []) false (λ name. true) new_context []

exchange_func_returns_example : (r : Outcome (List Addr) × List String) × (exchange_at ≡ some r)
exchange_func_returns_example =
    exchange_func_returns responses exchange_client servers no_options dns_rules
      (record { name = "a.example."; qtype = 1 } ∷ []) false (λ name. true) new_context []

-- A query from outside is answered by the fake-IP transport.
exchange_runs : exchange_at ≡ some (ok (some (ipv4 2 ∷ []), true), "fake" ∷ [])
unfolding exchange_func exchange_loop exchange_round Exchange.conclude Exchange.ask is_address_query
    query_metadata match_dns match_from try_rule
exchange_runs = refl
