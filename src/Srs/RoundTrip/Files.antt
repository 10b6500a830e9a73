-- ===== src/Srs/RoundTrip/Files.antt =====
-- The round trip of a file: Write, then Read, of common/srs/binary.go.
use sfa_provider.Prelude.{
  ℕ, zero, suc, Bool, true, false, List, [], ◌∷◌, ◌++◌, ◌≡◌, refl, sym, ap, none, some, ◌∙◌, Result,
  ok, err, ◌>>=◌, length-append, arith,
}
use mathlib.Core.List.{append-nil}
use sfa_provider.Srs.Wire.{Wire, WireLaws}
use sfa_provider.Srs.Options.{
  HeadlessRule, default_rule, logical_rule, HeadlessRules, nil, cons, count,
}
use sfa_provider.Srs.Writing.{WriteError, write_rule, write_rules, version_byte, write}
use sfa_provider.Srs.Reading.{
  ReadError, invalid_file, read_rule, read_rules, fuel_of, read_body, read,
}
use sfa_provider.Srs.RoundTrip.Loaded.{loaded_rule, loaded_rules}
use sfa_provider.Srs.RoundTrip.Rules.{
  Both, bind-Both, FitsRule, FitsRules, RuleReads, RulesRead, default-Both, logical_reads,
  cons_read,
}

mutual
  unfolding write_rule loaded_rule FitsRule read_rule

  rule-Both :
      {M A R : Type 0} (w : Wire M A R) (laws : WireLaws w) (unstable recover : Bool)
      (rule : HeadlessRule M A R)
      → FitsRule laws unstable recover rule
      → Both
          (RuleReads w recover)
          (write_rule w unstable rule)
          (loaded_rule w unstable recover rule)
  rule-Both w laws unstable recover (default_rule r) fits =
      default-Both w recover laws unstable r fits
  rule-Both w laws unstable recover (logical_rule mode rules invert) fits =
      bind-Both (RulesRead w recover (count rules)) (RuleReads w recover)
        (write_rules w unstable rules) (loaded_rules w unstable recover rules) _ _
        (rules-Both w laws unstable recover rules fits.1)
        (λ bytes rs h. logical_reads w recover laws mode (count rules) bytes rs invert fits.0 h)

  rules-Both :
      {M A R : Type 0} (w : Wire M A R) (laws : WireLaws w) (unstable recover : Bool)
      (rules : HeadlessRules M A R)
      → FitsRules laws unstable recover rules
      → Both
          (RulesRead w recover (count rules))
          (write_rules w unstable rules)
          (loaded_rules w unstable recover rules)
  rules-Both w laws unstable recover nil fits = none_read
    where
      none_read : RulesRead w recover 0 [] nil
      none_read zero rest l = ground (arith, l)
      none_read (suc fuel) rest l = refl
  rules-Both w laws unstable recover (cons rule rules) fits =
      bind-Both (RuleReads w recover) (RulesRead w recover (suc (count rules)))
        (write_rule w unstable rule) (loaded_rule w unstable recover rule) _ _
        (rule-Both w laws unstable recover rule fits.0)
        (λ bytes r h.
          bind-Both (RulesRead w recover (count rules)) (RulesRead w recover (suc (count rules)))
            (write_rules w unstable rules) (loaded_rules w unstable recover rules) _ _
            (rules-Both w laws unstable recover rules fits.1)
            (λ more rs h'. cons_read w recover (count rules) bytes more r rs h h'))

module _ {M A R : Type 0} (w : Wire M A R) (laws : WireLaws w) (unstable recover : Bool) where
  body_read :
      (n : ℕ) (bytes : List ℕ) (rs : HeadlessRules M A R)
      → laws.uvarint.Fits n
      → RulesRead w recover n bytes rs
      → read_body w recover (w.uvarint.write n ++ bytes) ≡ ok rs
  body_read n bytes rs fits h =
      let body = w.uvarint.write n ++ bytes in
      let e =
        ap (read_rules w recover (fuel_of body) n) (sym (append-nil bytes))
        ∙ h (fuel_of body) [] (omega (arith, length-append (w.uvarint.write n) bytes)) in
      simp (laws.uvarint.read-write n bytes fits, e)

  file_read :
      (n : ℕ) (bytes : List ℕ) (rs : HeadlessRules M A R)
      → laws.uvarint.Fits n
      → RulesRead w recover n bytes rs
      → read w recover
          (0x53 ∷ 0x52 ∷ 0x53 ∷ version_byte unstable ∷ w.compress (w.uvarint.write n ++ bytes))
        ≡ ok rs
  unfolding read
  file_read n bytes rs fits h = at unstable
    where
      unpacked :
          elim (w.decompress (w.compress (w.uvarint.write n ++ bytes)))
            as (λ x. Result ReadError (HeadlessRules M A R)) [
              | none ↦ err invalid_file
              | some bytes ↦ read_body w recover bytes
            ]
          ≡ ok rs
      unpacked = simp (laws.decompress-compress, body_read n bytes rs fits h)

      at :
          (b : Bool)
          → read w recover
              (0x53 ∷ 0x52 ∷ 0x53 ∷ version_byte b ∷ w.compress (w.uvarint.write n ++ bytes))
            ≡ ok rs
      at true = unpacked
      at false = unpacked

  -- Read after Write: a rule set whose values fit is written and read back as the rules with their
  -- domain and address lists turned into matchers (and printed again by the libraries if they are
  -- recovered), or both fail at one address list that does not parse.
  pub read-write :
      (rules : HeadlessRules M A R)
      → laws.uvarint.Fits (count rules)
      → FitsRules laws unstable recover rules
      → Both
          (λ bytes rs. read w recover bytes ≡ ok rs)
          (write w unstable rules)
          (loaded_rules w unstable recover rules)
  unfolding write
  read-write rules fits_count fits =
      at (write_rules w unstable rules) (loaded_rules w unstable recover rules)
        (rules-Both w laws unstable recover rules fits)
    where
      at :
          (x : Result WriteError (List ℕ)) (y : Result WriteError (HeadlessRules M A R))
          → Both (RulesRead w recover (count rules)) x y
          → Both
              (λ bytes rs. read w recover bytes ≡ ok rs)
              (x >>= λ bytes. ok (
                0x53
                ∷ 0x52
                ∷ 0x53
                ∷ version_byte unstable
                ∷ w.compress (w.uvarint.write (count rules) ++ bytes)))
              y
      at (ok bytes) (ok rs) h = file_read (count rules) bytes rs fits_count h
      at (err e) (err e') h = h
      at (ok bytes) (err e) h = h
      at (err e) (ok rs) h = h
