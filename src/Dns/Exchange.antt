-- ===== src/Dns/Exchange.antt =====
-- `exchangeFunc` of route/router_dns.go. A response is a value of a type `R` from the DNS library,
-- of which the loop asks whether its code is success and which addresses it has (`none` is an
-- error of MessageToAddresses); the client is an argument as in the lookup.
pub mod Termination
use sfa_provider.Prelude.{
  ℕ, zero, suc, String, Option, none, some, Bool, true, false, not, List, [], ◌∷◌, ◌&&◌, ◌||◌, ◌==◌,
  ℕ_key, Result, ok, err, is_empty, any, length, if◌then◌else◌,
}
use Prim.Native.String
use sfa_provider.FakeIp.Addr.{Addr, unset}
use sfa_provider.FakeIp.Transport.{Strategy}
use sfa_provider.Route.Context.{InboundContext}
use sfa_provider.Dns.Servers.{QueryOptions, Transport, is_rcode, FallbackEntry, DnsEntry, Servers}
use sfa_provider.Dns.Match.{DnsMatch, FallbackMatch, match_dns, match_fallback_rules}
use sfa_provider.Dns.Lookup.{LookupError, rejected, rejected_cached, name_error, failed, limits}

pub record Question : Type 0 where
  pub name : String
  pub qtype : ℕ

-- TypeA, TypeAAAA and TypeHTTPS
abbrev pub type_a : ℕ
type_a = 1

abbrev pub type_aaaa : ℕ
type_aaaa = 28

abbrev pub type_https : ℕ
type_https = 65

-- isAddressQuery
unfoldable pub is_address_query : List Question → Bool
is_address_query questions =
    any (λ q. q.qtype == type_a || q.qtype == type_aaaa || q.qtype == type_https) questions

-- fqdn[:len(fqdn)-1]
abbrev pub drop_last : String → String
drop_last String.[] = ""
drop_last (String.◌∷◌ c String.[]) = ""
drop_last (String.◌∷◌ c (String.◌∷◌ d s)) = String.◌∷◌ c (drop_last (String.◌∷◌ d s))

-- fqdnToDomain; `is_fqdn` is that of the DNS library.
unfoldable pub fqdn_to_domain : (String → Bool) → String → String
fqdn_to_domain is_fqdn fqdn = if is_fqdn fqdn then drop_last fqdn else fqdn

-- The head of exchangeFunc: what the metadata says of the query.
unfoldable pub query_metadata : (String → Bool) → List Question → InboundContext → InboundContext
unfolding fqdn_to_domain
query_metadata is_fqdn [] m = record m {
  destination = record { addr = unset 0; port = 0; fqdn = "" };
}
query_metadata is_fqdn (q ∷ questions) m = record m {
  destination = record { addr = unset 0; port = 0; fqdn = "" };
  query_type = q.qtype;
  ip_version = if q.qtype == type_a then 4 else if q.qtype == type_aaaa then 6 else m.ip_version;
  domain = fqdn_to_domain is_fqdn q.name;
}

-- What the DNS library says of a response.
pub record Responses (R : Type 0) : Type 0 where
  pub is_success : R → Bool
  pub to_addresses : R → Option (List Addr)

-- `none` is the nil pointer.
abbrev pub Reply : Type 0 → Type 0
Reply R = Result LookupError (Option R)

pub record ExchangeQuery : Type 0 where
  pub options : QueryOptions
  pub metadata : InboundContext
  pub transport : Transport
  pub questions : List Question
  pub strategy : Strategy
  pub is_cache_update : Bool

abbrev pub ResponseCheck : Type 0 → Type 0
ResponseCheck R = R → InboundContext → Bool × InboundContext

pub record ExchangeClient (R W : Type 0) : Type 0 where
  pub exchange : ExchangeQuery → W → Reply R × W
  pub exchange_with_check :
      ExchangeQuery → ResponseCheck R → InboundContext × W → Reply R × (InboundContext × W)

pub record ExchangeState (W : Type 0) : Type 0 where
  pub index : Option ℕ
  pub metadata : InboundContext
  pub world : W

-- What the function returns: the response, and whether it is of a fake-IP transport.
abbrev pub Outcome : Type 0 → Type 0
Outcome R = Result LookupError (Option R × Bool)

pub data ExchangeRound (R W : Type 0) : Type 0 where
  finished : Outcome R → W → ExchangeRound R W
  again : ExchangeState W → ExchangeRound R W

-- `if err != nil { return nil, false, err }`
abbrev pub outcome_of : {R : Type 0} → Bool → Reply R → Outcome R
outcome_of fake (ok response) = ok (response, fake)
outcome_of fake (err e) = err e

abbrev pub reply_rejected : {R : Type 0} → Reply R → Bool
reply_rejected (ok response) = false
reply_rejected (err rejected) = true
reply_rejected (err rejected_cached) = true
reply_rejected (err name_error) = false
reply_rejected (err (failed e)) = false

abbrev pub addresses_or_none : Option (List Addr) → List Addr
addresses_or_none none = []
addresses_or_none (some addrs) = addrs

module _ {R W : Type 0} (responses : Responses R) (client : ExchangeClient R W) (servers : Servers)
    (base : QueryOptions) (dns_rules : List DnsEntry) (questions : List Question)
    (is_cache_update : Bool) where
  -- The closure that MatchAddressLimit runs in.
  abbrev pub response_check : Option (ℕ × DnsEntry) → ResponseCheck R
  response_check none response m = (true, m)
  response_check (some (i, entry)) response m = elim (responses.to_addresses response) [
    | none ↦ (false, m)
    | some addresses ↦ entry.rule.match_limit (record m { destination_addresses = addresses })
  ]

  abbrev pub exchange_query : QueryOptions → Transport → Strategy → InboundContext → ExchangeQuery
  exchange_query options transport strategy m = record {
    options = options;
    metadata = m;
    transport = transport;
    questions = questions;
    strategy = strategy;
    is_cache_update = is_cache_update;
  }

  unfoldable pub ask : DnsMatch → InboundContext × W → Reply R × (InboundContext × W)
  ask found (m, w) =
      let query = exchange_query found.options found.transport found.strategy m in
      if limits found.rule
      then client.exchange_with_check query (response_check found.rule) (m, w)
      else (let (reply, w') = client.exchange query w in (reply, (m, w')))

  -- After matchFallbackRules: its rule and its transport are the third and fourth argument.
  abbrev pub proceed :
      ℕ
      → R
      → FallbackMatch
      → Option FallbackEntry
      → Option Transport
      → InboundContext × W
      → ExchangeRound R W
  proceed i response found none transport (m, w) = finished (ok (some response, false)) w
  proceed i response found (some fallback) none (m, w) =
      again (record { index = some i; metadata = m; world = w })
  proceed i response found (some fallback) (some transport) (m, w) =
      let (reply, w') =
        client.exchange (exchange_query found.options transport found.strategy m) w in
      finished (outcome_of found.is_fake_ip_match reply) w'

  -- A response that was not rejected: it may fall through to the next rule, or to a fallback rule.
  unfoldable pub accept : ℕ → DnsEntry → R → InboundContext × W → ExchangeRound R W
  accept i entry response (m, w) =
      let addrs = addresses_or_none (responses.to_addresses response) in
      let found = match_fallback_rules servers base m.domain addrs entry.fallback_rules true in
      if not (responses.is_success response) || is_empty addrs
      then (if entry.allow_fallthrough
          then again (record { index = some i; metadata = m; world = w })
          else finished (ok (some response, false)) w)
      else if is_empty entry.fallback_rules
      then finished (ok (some response, false)) w
      else proceed i response found found.rule found.transport (m, w)

  -- What a round does with the reply to its query.
  unfoldable pub conclude : DnsMatch → Reply R × (InboundContext × W) → ExchangeRound R W
  unfolding accept
  conclude found (reply, (m, w)) = elim found.rule [
    | none ↦ finished (outcome_of found.is_fake_ip_match reply) w
    | some (i, entry) ↦
        if not (is_address_query questions)
          || found.is_fake_ip_match
          || is_rcode found.transport.kind
        then finished (outcome_of found.is_fake_ip_match reply) w
        else if limits found.rule && reply_rejected reply
        then again (record { index = some i; metadata = m; world = w })
        else elim reply [
          | err e ↦ finished (err e) w
          | ok response ↦ elim response [
            | none ↦ finished (ok (none, false)) w
            | some r ↦ accept i entry r (m, w)
          ]
        ]
  ]

  -- One round of the loop.
  unfoldable pub exchange_round : ExchangeState W → ExchangeRound R W
  exchange_round s =
      let (found, m) =
        match_dns servers base dns_rules true s.index (is_address_query questions) s.metadata in
      conclude found (ask found (m, s.world))

  -- The loop; `none` is out of fuel.
  unfoldable pub exchange_loop : ℕ → ExchangeState W → Option (Outcome R × W)
  exchange_loop zero s = none
  exchange_loop (suc fuel) s = elim (exchange_round s) [
    | finished outcome w ↦ some (outcome, w)
    | again s' ↦ exchange_loop fuel s'
  ]

  -- exchangeFunc: a round for every rule and one more are enough.
  unfoldable pub exchange_func : (String → Bool) → InboundContext → W → Option (Outcome R × W)
  exchange_func is_fqdn m w =
      exchange_loop (suc (length dns_rules))
        (record { index = none; metadata = query_metadata is_fqdn questions m; world = w })
