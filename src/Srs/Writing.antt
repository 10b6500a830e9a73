-- ===== src/Srs/Writing.antt =====
-- The writers of common/srs/binary.go and common/srs/ip_set.go, into a buffer, which never fails.
use sfa_provider.Prelude.{
  ℕ, String, none, some, Bool, true, false, not, List, [], ◌∷◌, ◌++◌, ◌&&◌, Result, ok, err, ◌>>=◌,
  is_empty, length, if◌then◌else◌,
}
use sfa_provider.Srs.Wire.{Codec, IpSet, Wire, concat_map}
use sfa_provider.Srs.Options.{
  DefaultOptions, Mode, mode_and, mode_or, HeadlessRule, default_rule, logical_rule, HeadlessRules,
  nil, cons, count,
}

-- The index of a list of addresses that does not parse, and a set that netipx refuses.
pub data WriteError : Type 0 where
  bad_address : String → WriteError
  bad_set : WriteError

-- binary.Write of a bool
abbrev pub write_bool : Bool → List ℕ
write_bool true = 1 ∷ []
write_bool false = 0 ∷ []

-- writeRuleItemString and writeRuleItemUint16, where the list is not empty.
unfoldable pub write_item : {V : Type 0} → Codec (List V) → ℕ → List V → List ℕ
write_item codec item_type [] = []
write_item codec item_type (v ∷ vs) = item_type ∷ codec.write (v ∷ vs)

abbrev pub mode_byte : Mode → ℕ
mode_byte mode_and = 0
mode_byte mode_or = 1

module _ {M A R : Type 0} (w : Wire M A R) where
  -- writeIPSet
  unfoldable pub write_ip_set : IpSet R → List ℕ
  write_ip_set set = 1 ∷ (w.uint64.write (length set.rr) ++ concat_map w.write_range set.rr)

  -- The loop of writeRuleItemCIDR: a prefix, or else an address.
  unfoldable pub parse_ranges : List String → Result WriteError (List R)
  parse_ranges [] = ok []
  parse_ranges (s ∷ ss) =
      let rest = parse_ranges ss in
      elim (w.parse_prefix s) [
        | some r ↦ rest >>= λ rs. ok (r ∷ rs)
        | none ↦ elim (w.parse_addr s) [
          | some r ↦ rest >>= λ rs. ok (r ∷ rs)
          | none ↦ err (bad_address s)
        ]
      ]

  -- The set that writeRuleItemCIDR builds.
  unfoldable pub set_of : List String → Result WriteError (IpSet R)
  set_of values = parse_ranges values >>= λ ranges. elim (w.build ranges) [
    | some set ↦ ok set
    | none ↦ err bad_set
  ]

  -- writeRuleItemCIDR, where the list is not empty.
  unfoldable pub write_cidr : ℕ → List String → Result WriteError (List ℕ)
  write_cidr item_type [] = ok []
  write_cidr item_type (v ∷ vs) = set_of (v ∷ vs) >>= λ set. ok (item_type ∷ write_ip_set set)

  unfoldable pub write_domains : Bool → List String → List String → List ℕ
  write_domains unstable domain domain_suffix =
      if is_empty domain && is_empty domain_suffix
      then []
      else 2 ∷ w.matcher.write (w.new_matcher domain domain_suffix (not unstable))

  unfoldable pub write_adguard : List String → List ℕ
  write_adguard [] = []
  write_adguard (d ∷ ds) = 16 ∷ w.adguard.write (w.new_adguard (d ∷ ds))

  -- writeDefaultRule: the items in the order of their types, with those of the two address sets
  -- already written.
  unfoldable pub write_items : Bool → DefaultOptions M A R → List ℕ → List ℕ → List ℕ
  write_items unstable r source_cidr cidr =
      write_item w.uint16s 0 r.query_type
      ++ (write_item w.strings 1 r.network
          ++ (write_domains unstable r.domain r.domain_suffix
              ++ (write_item w.strings 3 r.domain_keyword
                  ++ (write_item w.strings 4 r.domain_regex
                      ++ (source_cidr
                          ++ (cidr
                              ++ (write_item w.uint16s 7 r.source_port
                                  ++ (write_item w.strings 8 r.source_port_range
                                      ++ (write_item w.uint16s 9 r.port
                                          ++ (write_item w.strings 10 r.port_range
                                              ++ (write_item w.strings 11 r.process_name
                                                  ++ (write_item w.strings 12 r.process_path
                                                      ++ (write_item w.strings 13 r.package_name
                                                          ++ (write_item w.strings 14 r.wifi_ssid
                                                            ++ (write_item w.strings 15 r.wifi_bssid
                                                            ++ (write_adguard r.adguard_domain
                                                            ++ (255
                                                            ∷ write_bool r.invert)))))))))))))))))

  unfoldable pub write_default_rule : Bool → DefaultOptions M A R → Result WriteError (List ℕ)
  unfolding write_items
  write_default_rule unstable r = write_cidr 5 r.source_ip_cidr >>= λ source_cidr.
      write_cidr 6 r.ip_cidr >>= λ cidr. ok (0 ∷ write_items unstable r source_cidr cidr)

-- writeRule, writeLogicalRule and the loop over the rules.
unfoldable mutual
  pub write_rule :
      {M A R : Type 0} → Wire M A R → Bool → HeadlessRule M A R → Result WriteError (List ℕ)
  write_rule w unstable (default_rule r) = write_default_rule w unstable r
  write_rule w unstable (logical_rule mode rules invert) = write_rules w unstable rules >>= λ bytes.
      ok (1 ∷ mode_byte mode ∷ (w.uvarint.write (count rules) ++ (bytes ++ write_bool invert)))

  pub write_rules :
      {M A R : Type 0} → Wire M A R → Bool → HeadlessRules M A R → Result WriteError (List ℕ)
  write_rules w unstable nil = ok []
  write_rules w unstable (cons rule rules) = write_rule w unstable rule >>= λ bytes.
      write_rules w unstable rules >>= λ rest. ok (bytes ++ rest)

abbrev pub version_byte : Bool → ℕ
version_byte true = 2
version_byte false = 1

-- Write
unfoldable pub write :
    {M A R : Type 0} → Wire M A R → Bool → HeadlessRules M A R → Result WriteError (List ℕ)
write w unstable rules = write_rules w unstable rules >>= λ bytes. ok (
    0x53
    ∷ 0x52
    ∷ 0x53
    ∷ version_byte unstable
    ∷ w.compress (w.uvarint.write (count rules) ++ bytes))
