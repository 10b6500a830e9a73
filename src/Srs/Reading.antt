-- ===== src/Srs/Reading.antt =====
-- The readers of common/srs/binary.go and common/srs/ip_set.go. They recur on fuel, since a rule
-- may hold rules; `stuck` is no error of the source but the end of the fuel.
use sfa_provider.Prelude.{
  ℕ, zero, suc, Option, none, some, Bool, not, List, [], ◌∷◌, Result, ok, err, ◌>>=◌, length, ◌+◌,
  ◌==◌, ℕ_key, ltb, if◌then◌else◌,
}
use sfa_provider.Srs.Wire.{Codec, IpSet, Wire}
use sfa_provider.Srs.Options.{
  DefaultOptions, Mode, mode_and, mode_or, HeadlessRule, default_rule, logical_rule, HeadlessRules,
  nil, cons, no_options,
}

pub data ReadError : Type 0 where
  unexpected_end invalid_file invalid_set cannot_decompile stuck : ReadError
  unsupported_version unknown_rule_type unknown_item_type unknown_mode : ℕ → ReadError

-- A value with the bytes that are left.
abbrev pub Read : Type 0 → Type 0
Read V = Result ReadError (V × List ℕ)

abbrev pub from_codec : {V : Type 0} → Option (V × List ℕ) → Read V
from_codec none = err unexpected_end
from_codec (some r) = ok r

-- binary.Read of a byte, and of a bool.
abbrev pub read_byte : List ℕ → Read ℕ
read_byte [] = err unexpected_end
read_byte (b ∷ rest) = ok (b, rest)

abbrev pub read_bool : List ℕ → Read Bool
read_bool [] = err unexpected_end
read_bool (b ∷ rest) = ok (not (b == 0), rest)

-- A field of the rule that is a value of a codec.
abbrev pub read_field : {V T : Type 0} → Codec V → (V → T) → List ℕ → Read T
read_field codec set bytes = from_codec (codec.read bytes) >>= λ r. ok (set r.0, r.1)

module _ {M A R : Type 0} (w : Wire M A R) (recover : Bool) where
  -- readIPSet
  unfoldable pub read_ip_set : List ℕ → Read (IpSet R)
  read_ip_set bytes = read_byte bytes >>= λ version.
      if version.0 == 1
      then (from_codec (w.uint64.read version.1) >>= λ n.
          from_codec (w.read_ranges n.0 n.1) >>= λ ranges. ok (record { rr = ranges.0 }, ranges.1))
      else err invalid_set

  abbrev pub set_domains : DefaultOptions M A R → M → DefaultOptions M A R
  set_domains r matcher =
      if recover
      then record r {
        domain_matcher = some matcher;
        domain = (w.dump matcher).0;
        domain_suffix = (w.dump matcher).1;
      }
      else record r { domain_matcher = some matcher }

  abbrev pub set_source : DefaultOptions M A R → IpSet R → DefaultOptions M A R
  set_source r set =
      if recover
      then record r { source_ip_set = some set; source_ip_cidr = w.prefixes set }
      else record r { source_ip_set = some set }

  abbrev pub set_ips : DefaultOptions M A R → IpSet R → DefaultOptions M A R
  set_ips r set =
      if recover
      then record r { ip_set = some set; ip_cidr = w.prefixes set }
      else record r { ip_set = some set }

  -- The switch of readDefaultRule, without the item that ends the rule.
  unfoldable pub read_item : ℕ → DefaultOptions M A R → List ℕ → Read (DefaultOptions M A R)
  unfolding read_ip_set
  read_item item_type r bytes =
      if item_type == 0
      then read_field w.uint16s (λ v. record r { query_type = v }) bytes
      else if item_type == 1
      then read_field w.strings (λ v. record r { network = v }) bytes
      else if item_type == 2
      then read_field w.matcher (λ v. set_domains r v) bytes
      else if item_type == 3
      then read_field w.strings (λ v. record r { domain_keyword = v }) bytes
      else if item_type == 4
      then read_field w.strings (λ v. record r { domain_regex = v }) bytes
      else if item_type == 5
      then (read_ip_set bytes >>= λ s. ok (set_source r s.0, s.1))
      else if item_type == 6
      then (read_ip_set bytes >>= λ s. ok (set_ips r s.0, s.1))
      else if item_type == 7
      then read_field w.uint16s (λ v. record r { source_port = v }) bytes
      else if item_type == 8
      then read_field w.strings (λ v. record r { source_port_range = v }) bytes
      else if item_type == 9
      then read_field w.uint16s (λ v. record r { port = v }) bytes
      else if item_type == 10
      then read_field w.strings (λ v. record r { port_range = v }) bytes
      else if item_type == 11
      then read_field w.strings (λ v. record r { process_name = v }) bytes
      else if item_type == 12
      then read_field w.strings (λ v. record r { process_path = v }) bytes
      else if item_type == 13
      then read_field w.strings (λ v. record r { package_name = v }) bytes
      else if item_type == 14
      then read_field w.strings (λ v. record r { wifi_ssid = v }) bytes
      else if item_type == 15
      then read_field w.strings (λ v. record r { wifi_bssid = v }) bytes
      else if item_type == 16
      then (if recover
          then err cannot_decompile
          else read_field w.adguard (λ v. record r { adguard_domain_matcher = some v }) bytes)
      else err (unknown_item_type item_type)

  -- The loop of readDefaultRule.
  unfoldable pub read_default_rule : ℕ → DefaultOptions M A R → List ℕ → Read (DefaultOptions M A R)
  read_default_rule zero r bytes = err stuck
  read_default_rule (suc fuel) r bytes = read_byte bytes >>= λ item.
      let last = read_bool item.1 >>= λ b. ok (record r { invert = b.0 }, b.1) in
      let more = read_item item.0 r item.1 >>= λ next. read_default_rule fuel next.0 next.1 in
      if item.0 == 255 then last else more

-- The switch of readLogicalRule.
abbrev pub mode_of : ℕ → Result ReadError Mode
mode_of b = if b == 0 then ok mode_and else if b == 1 then ok mode_or else err (unknown_mode b)

-- readRule, readLogicalRule and the loop over the rules.
unfoldable mutual
  pub read_rule : {M A R : Type 0} → Wire M A R → Bool → ℕ → List ℕ → Read (HeadlessRule M A R)
  read_rule w recover zero bytes = err stuck
  read_rule w recover (suc fuel) bytes = read_byte bytes >>= λ kind.
      let as_default = read_default_rule w recover (length kind.1 + 1) no_options kind.1 >>= λ r.
      ok (default_rule r.0, r.1) in
      let as_logical = read_logical_rule w recover fuel kind.1 in
      if kind.0 == 0
      then as_default
      else if kind.0 == 1
      then as_logical
      else err (unknown_rule_type kind.0)

  pub read_logical_rule :
      {M A R : Type 0} → Wire M A R → Bool → ℕ → List ℕ → Read (HeadlessRule M A R)
  read_logical_rule w recover zero bytes = err stuck
  read_logical_rule w recover (suc fuel) bytes = read_byte bytes >>= λ mode. mode_of mode.0 >>= λ m.
      from_codec (w.uvarint.read mode.1) >>= λ n. read_rules w recover fuel n.0 n.1 >>= λ rules.
      read_bool rules.1 >>= λ invert. ok (logical_rule m rules.0 invert.0, invert.1)

  pub read_rules :
      {M A R : Type 0} → Wire M A R → Bool → ℕ → ℕ → List ℕ → Read (HeadlessRules M A R)
  read_rules w recover zero n bytes = err stuck
  read_rules w recover (suc fuel) zero bytes = ok (nil, bytes)
  read_rules w recover (suc fuel) (suc n) bytes = read_rule w recover fuel bytes >>= λ rule.
      read_rules w recover fuel n rule.1 >>= λ rules. ok (cons rule.0 rules.0, rules.1)

-- The fuel for a stream of a length.
abbrev pub fuel_of : List ℕ → ℕ
fuel_of bytes = length bytes + length bytes + 2

abbrev pub read_body :
    {M A R : Type 0} → Wire M A R → Bool → List ℕ → Result ReadError (HeadlessRules M A R)
read_body w recover bytes = from_codec (w.uvarint.read bytes) >>= λ n.
    read_rules w recover (fuel_of bytes) n.0 n.1 >>= λ rules. ok rules.0

-- Read
unfoldable pub read :
    {M A R : Type 0} → Wire M A R → Bool → List ℕ → Result ReadError (HeadlessRules M A R)
read w recover (a ∷ b ∷ c ∷ rest) =
    if not (a == 0x53)
    then err invalid_file
    else if not (b == 0x52)
    then err invalid_file
    else if not (c == 0x53)
    then err invalid_file
    else (read_byte rest >>= λ version.
        if ltb 2 version.0
        then err (unsupported_version version.0)
        else elim (w.decompress version.1) [
          | none ↦ err invalid_file
          | some bytes ↦ read_body w recover bytes
        ])
read w recover bytes = err unexpected_end
