-- ===== src/Srs/Termination.antt =====
-- The readers of common/srs/binary.go stop: the fuel that the model gives them never runs out.
use sfa_provider.Prelude.{
  ℕ, zero, suc, Option, none, some, Bool, true, false, not, List, [], ◌∷◌, ◌≡◌, refl, Result, ok,
  err, ◌>>=◌, length, ◌+◌, ◌≤◌, ◌==◌, ℕ_key, ltb, if◌then◌else◌, arith,
}
use sfa_provider.Srs.Wire.{Codec, CodecLaws, Wire, WireLaws}
use sfa_provider.Srs.Options.{DefaultOptions, Mode, mode_and, mode_or, HeadlessRules, no_options}
use sfa_provider.Srs.Reading.{
  Read, ReadError, stuck, invalid_file, unknown_mode, unsupported_version, from_codec, read_byte,
  read_bool, read_field, mode_of, read_ip_set, read_item, read_default_rule, read_rule,
  read_logical_rule, read_rules, fuel_of, read_body, read,
}
use sfa_provider.Srs.Termination.Items.{
  is_stuck, Within, bind-Within, either-Within, codec-Within, bool-Within, default-Within,
  mode-Within,
}
pub mod Items

mutual
  unfolding read_rule

  rule-Within :
      {M A R : Type 0} (w : Wire M A R) (laws : WireLaws w) (recover : Bool) (fuel n : ℕ)
      (bytes : List ℕ)
      → length bytes + length bytes + 1 ≤ fuel
      → length bytes ≤ suc n
      → Within n (read_rule w recover fuel bytes)
  rule-Within w laws recover zero n bytes l l' = ground (arith, l)
  rule-Within w laws recover (suc fuel) n [] l l' = refl
  rule-Within w laws recover (suc fuel) n (b ∷ bytes) l l' =
      either-Within (b == 0) n _ _
        (bind-Within n n _ _
          (default-Within w laws recover (length bytes + 1) n no_options bytes (omega arith)
            (omega (arith, l')))
          (λ r k. k))
        (either-Within (b == 1) n _ _
          (logical-Within w laws recover fuel n bytes (omega (arith, l)) (omega (arith, l'))) refl)

  logical-Within :
      {M A R : Type 0} (w : Wire M A R) (laws : WireLaws w) (recover : Bool) (fuel n : ℕ)
      (bytes : List ℕ)
      → length bytes + length bytes + 2 ≤ fuel
      → length bytes ≤ n
      → Within n (read_logical_rule w recover fuel bytes)
  logical-Within w laws recover zero n bytes l l' = ground (arith, l)
  logical-Within w laws recover (suc fuel) n [] l l' = refl
  logical-Within w laws recover (suc fuel) n (b ∷ bytes) l l' =
      mode-Within w laws recover b n _ (λ m.
        bind-Within (length bytes) n _ _
          (codec-Within w.uvarint laws.uvarint (length bytes) bytes (omega arith))
          (λ c k.
            bind-Within n n _ _
              (rules-Within w laws recover fuel n c.0 c.1 (omega (arith, l, k))
                (omega (arith, l', k)))
              (λ rules k'. bind-Within n n _ _ (bool-Within n rules.1 k') (λ i k''. k''))))

  rules-Within :
      {M A R : Type 0} (w : Wire M A R) (laws : WireLaws w) (recover : Bool) (fuel n c : ℕ)
      (bytes : List ℕ)
      → length bytes + length bytes + 2 ≤ fuel
      → length bytes ≤ n
      → Within n (read_rules w recover fuel c bytes)
  rules-Within w laws recover zero n c bytes l l' = ground (arith, l)
  rules-Within w laws recover (suc fuel) n zero bytes l l' = l'
  rules-Within w laws recover (suc zero) n (suc c) bytes l l' = ground (arith, l)
  rules-Within w laws recover (suc (suc fuel)) n (suc c) [] l l' = refl
  rules-Within w laws recover (suc (suc fuel)) n (suc c) (b ∷ bytes) l l' =
      bind-Within (length bytes) n _ _
        (rule-Within w laws recover (suc fuel) (length bytes) (b ∷ bytes) (omega (arith, l))
          (omega arith))
        (λ rule k.
          bind-Within n n _ _
            (rules-Within w laws recover (suc fuel) n c rule.1 (omega (arith, l, k))
              (omega (arith, l', k)))
            (λ rules k'. k'))

abbrev IsRunning : {V : Type 0} → Result ReadError V → Type 0
IsRunning (ok v) = Unit
IsRunning (err e) = is_stuck e ≡ false

bind-IsRunning :
    {V W : Type 0} (n : ℕ) (x : Read V) (f : V × List ℕ → Result ReadError W)
    → Within n x
    → ((r : V × List ℕ) → length r.1 ≤ n → IsRunning (f r))
    → IsRunning (x >>= f)
bind-IsRunning n (ok r) f h k = k r h
bind-IsRunning n (err e) f h k = h

module _ {M A R : Type 0} (w : Wire M A R) (laws : WireLaws w) (recover : Bool) where
  body-IsRunning : (bytes : List ℕ) → IsRunning (read_body w recover bytes)
  body-IsRunning bytes =
      bind-IsRunning (length bytes) _ _
        (codec-Within w.uvarint laws.uvarint (length bytes) bytes (omega arith))
        (λ n l.
          bind-IsRunning (length n.1) _ _
            (rules-Within w laws recover (fuel_of bytes) (length n.1) n.0 n.1 (omega (arith, l))
              (omega arith))
            (λ rules k. tt))

  either-IsRunning :
      {V : Type 0} (b : Bool) (x y : Result ReadError V)
      → IsRunning x
      → IsRunning y
      → IsRunning (if b then x else y)
  either-IsRunning true x y h k = h
  either-IsRunning false x y h k = k

  unpacked-IsRunning :
      (o : Option (List ℕ))
      → IsRunning (elim o as (λ x. Result ReadError (HeadlessRules M A R)) [
        | none ↦ err invalid_file
        | some bytes ↦ read_body w recover bytes
      ])
  unpacked-IsRunning none = refl
  unpacked-IsRunning (some bytes) = body-IsRunning bytes

  versioned-IsRunning :
      (rest : List ℕ)
      → IsRunning (
          read_byte rest >>= λ version.
          if ltb 2 version.0
          then err (unsupported_version version.0)
          else elim (w.decompress version.1) as (λ x. Result ReadError (HeadlessRules M A R)) [
            | none ↦ err invalid_file
            | some bytes ↦ read_body w recover bytes
          ])
  versioned-IsRunning [] = refl
  versioned-IsRunning (v ∷ rest) =
      either-IsRunning (ltb 2 v) _ _ refl (unpacked-IsRunning (w.decompress rest))

  read-IsRunning : (bytes : List ℕ) → IsRunning (read w recover bytes)
  unfolding read
  read-IsRunning [] = refl
  read-IsRunning (a ∷ []) = refl
  read-IsRunning (a ∷ b ∷ []) = refl
  read-IsRunning (a ∷ b ∷ c ∷ rest) = either-IsRunning (not (a == 0x53)) _ _ refl (
      either-IsRunning (not (b == 0x52)) _ _ refl
        (either-IsRunning (not (c == 0x53)) _ _ refl (versioned-IsRunning rest)))

  -- For a wire format whose readers do not lengthen the stream, the loops and the recursion of Read
  -- end on every input: with the fuel of the model, which grows with the length of the unpacked
  -- stream, the result is a rule set or an error of the source, and never `stuck`.
  pub read_returns : (bytes : List ℕ) → ¬ (read w recover bytes ≡ err stuck)
  read_returns bytes e = runs_not (read w recover bytes) (read-IsRunning bytes) e
    where
      runs_not : (x : Result ReadError (HeadlessRules M A R)) → IsRunning x → x ≡ err stuck → ⊥
      runs_not (ok v) h e = ground (arith, e)
      runs_not (err stuck) h e = ground (arith, h)
      runs_not (err _) h e = ground (arith, e)
