-- ===== src/Lib.antt =====
-- Verified models of the routing core of sing-box: how a connection finds its outbound, the pool of
-- fake addresses that stands for domain names until then, and how the outbounds are started, taken
-- from providers and chosen.
--
-- FakeIp is the fake-IP pool of transport/fakeip. `FakeIp.Addr` has netip's addresses and prefixes,
-- which are not in the repository, as a family with a value (zones are left out). `FakeIp.Storage`
-- is the interface FakeIPStorage of adapter/fakeip.go with the laws that the store relies on;
-- `FakeIp.Memory` is its implementation transport/fakeip/memory.go, one function for each method,
-- where the mutexes make each method one step. `FakeIp.Store` is transport/fakeip/store.go over any
-- storage: `start` is Start, `create` is Create, with `next_address` and `assign` for its blocks,
-- `lookup`, `reset` and `close` are the methods of these names. `FakeIp.CacheFile` is the storage
-- of experimental/cachefile/fakeip.go, with missing buckets, pending writes and the timer of the
-- metadata. `FakeIp.Transport` is Lookup of transport/fakeip/server.go, which asks the store for
-- one address of each family. The modules below a part hold its proofs, and FakeIp/Tests.antt its
-- concrete runs.
--
-- Route is the matching of rules. `Route.Context` is InboundContext of adapter/inbound.go: matching
-- writes its findings (the rule cache) into the connection's metadata, so that every match returns
-- the metadata with its answer. `Route.Item` and `Route.Items` are the conditions of
-- route/rule_item_*.go, `Route.DefaultRule` is abstractDefaultRule and `Route.LogicalRule` is
-- abstractLogicalRule of route/rule_abstract.go with the headless rules of route/rule_headless.go
-- and the rule sets of route/rule_set_abstract.go and route/rule_item_rule_set.go, `Route.DnsRule`
-- the DNS rules and fallback rules of route/rule_dns.go. `Route.Builder` and `Route.Headless` are
-- the builders of route/rule_headless.go, from the options that `Srs.Options` has, a function for
-- each block of NewDefaultHeadlessRule, and `Route.Headless.Described` lists the conditions of each
-- group from the options; `Route.Items.Host` has the conditions on processes.
-- `Route.Router` is match0 and match of route/router.go, which tries the rules in order and may
-- resolve the destination on the way. A condition that reads only the connection is `Plain`.
--
-- Dns is route/router_dns.go. `Dns.Servers` has the transports as their tags and the type tests
-- made on them, and the DNS rules with their servers and options; `Dns.Match` is matchDNS and
-- matchFallbackRules, `Dns.Lookup` is lookupFunc and `Dns.Exchange` is exchangeFunc. The client of
-- sing-dns is an argument that changes a world and may run the check of a response any number of
-- times. The two loops have fuel, a round for each rule and one more, which is enough since every
-- further round starts after the rule of the last. A fake-IP transport that a rule names is the
-- transport of FakeIp.
--
-- Srs is the binary format of rule sets, common/srs. `Srs.Wire` is what it takes from its
-- libraries, codecs of values and the matchers, with the laws of the theorems; `Srs.Options` is the
-- rule of option/rule_set.go, `Srs.Writing` has Write and the functions that it calls, into a list
-- of bytes, and `Srs.Reading` has Read and those that it calls. A rule may hold rules, and the
-- readers recur on fuel, twice the length of the stream and two more, since each rule takes a byte
-- and two calls. `Srs.RoundTrip.Loaded` says what reading should yield. The rules that are read go
-- to `Route.Headless`.
--
-- Group is the choice of a member by a group of outbounds. `Group.Members` has what a group sees of
-- its members, RealTag of outbound/selector.go and the delay histories of
-- common/urltest/urltest.go; `Group.Interrupt` is common/interrupt/group.go, and `Group.UrlTest` is
-- Select and performUpdateCheck of outbound/urltest.go, where delays are uint16 and their sum with
-- the tolerance is taken modulo 65536. What a member that is a group itself answers to Now is a
-- field of it, since no call of these functions changes it. The router hands a connection to the
-- outbound that match0 names, which may be such a group.
--
-- `Group.Selector` is outbound/selector.go with every method that changes its state, of which the
-- fallback by measured delays is `Group.Selector.Delay`.
--
-- Boot is box_outbound.go: `assign_tags` is the first loop of startOutbounds, `start_providers` is
-- startProviderOutbounds and `start_loop` the loop over the outbounds, a round of it in `start_round`,
-- with lintOutbound in `lint`. `Boot.Order` has the starts one at a time as a relation. Start of an
-- outbound is a field of it, its error where it has one, and the names that are made of tags and
-- numbers are an argument. The loop has fuel, a round for each outbound and one more, since every
-- round but the last starts an outbound; the search of lintOutbound has as much, since each step finds
-- another outbound.
--
-- Provider is provider/default.go with the filters of outbound/group.go: `Provider.Start` is
-- startOutbounds, where the search for a free number has a round for each tag that is taken and one
-- more, `Provider.Update` is updateProviderFromContent with what it calls, and `Provider.Override`
-- is provider/parser.go, which changes the outbounds of a subscription. The parsers of subscriptions
-- and the constructors of outbounds are arguments, and the groups of the router are an interface, which
-- the selectors of Group fill in `Provider.Update.Selectors`. `Provider.Local` is UpdateProvider of
-- provider/local.go, where a file is its time and its text, `Provider.FirstStart` is firstStart and
-- `Provider.Ports` is CreatePortsMap.
--
-- Version is the order of common/badversion/version.go.
--
-- Every other loop runs over a list, so that no fuel is needed. Arguments of the definitions stand
-- for what is not in the repository or is I/O: the DNS lookup, the table of outbounds, the matchers
-- of domains, sets of addresses and regular expressions.
--
-- Not modelled: the host tables, the cache and the reverse mapping around the two loops of
-- route/router_dns.go, the timers and tests of the URL test group, the downloads of rule sets, the
-- rest of the cache file, the sniffers; the parsers of subscriptions, the downloads and the health
-- checks of providers; the protocols of inbounds, outbounds and transports, which call other libraries;
-- the search for the process of a connection, whose result only the conditions on processes read; the
-- rest of the start-up, the API servers and the command line.
mod Prelude
pub mod FakeIp
pub mod Route
pub mod Group
pub mod Dns
pub mod Srs
pub mod Version
pub mod Boot
pub mod Provider
