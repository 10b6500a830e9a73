-- ===== src/Srs/Termination/Items.antt =====
-- The readers of common/srs/binary.go leave no more bytes than they were given, and the fuel for a
-- default rule does not run out.
use sfa_provider.Prelude.{
  ℕ, zero, suc, Option, none, some, Bool, true, false, List, [], ◌∷◌, ◌≡◌, refl, ok, err, ◌>>=◌,
  length, ◌+◌, ◌≤◌, ◌==◌, ℕ_key, if◌then◌else◌, arith,
}
use sfa_provider.Srs.Wire.{Codec, CodecLaws, Wire, WireLaws}
use sfa_provider.Srs.Options.{DefaultOptions, Mode, mode_and, mode_or}
use sfa_provider.Srs.Reading.{
  Read, ReadError, stuck, unknown_mode, from_codec, read_bool, read_field, mode_of, read_ip_set,
  read_item, read_default_rule,
}

abbrev pub is_stuck : ReadError → Bool
is_stuck stuck = true
is_stuck _ = false

-- A reader that leaves no more than n bytes, or fails otherwise than at the end of its fuel.
abbrev pub Within : {V : Type 0} → ℕ → Read V → Type 0
Within n (ok r) = length r.1 ≤ n
Within n (err e) = is_stuck e ≡ false

pub bind-Within :
    {V W : Type 0} (m n : ℕ) (x : Read V) (f : V × List ℕ → Read W)
    → Within m x
    → ((r : V × List ℕ) → length r.1 ≤ m → Within n (f r))
    → Within n (x >>= f)
bind-Within m n (ok r) f h k = k r h
bind-Within m n (err e) f h k = h

pub either-Within :
    {V : Type 0} (b : Bool) (n : ℕ) (x y : Read V)
    → Within n x
    → Within n y
    → Within n (if b then x else y)
either-Within true n x y h k = h
either-Within false n x y h k = k

pub codec-Within :
    {V : Type 0} (codec : Codec V) (laws : CodecLaws codec) (n : ℕ) (bytes : List ℕ)
    → length bytes ≤ n
    → Within n (from_codec (codec.read bytes))
codec-Within {V} codec laws n bytes l =
    at (codec.read bytes) (λ v rest e. laws.shrinks bytes v rest e)
  where
    at :
        (o : Option (V × List ℕ))
        → ((v : V) (rest : List ℕ) → o ≡ some (v, rest) → length rest ≤ length bytes)
        → Within n (from_codec o)
    at none h = refl
    at (some r) h = omega (arith, h r.0 r.1 refl, l)

pub field-Within :
    {V T : Type 0} (codec : Codec V) (laws : CodecLaws codec) (set : V → T) (bytes : List ℕ)
    → Within (length bytes) (read_field codec set bytes)
field-Within codec laws set bytes =
    bind-Within (length bytes) (length bytes) _ _
      (codec-Within codec laws (length bytes) bytes (omega arith)) (λ r l. l)

pub bool-Within : (n : ℕ) (bytes : List ℕ) → length bytes ≤ n → Within n (read_bool bytes)
bool-Within n [] l = refl
bool-Within n (b ∷ bytes) l = omega (arith, l)

module _ {M A R : Type 0} (w : Wire M A R) (laws : WireLaws w) (recover : Bool) where
  pub ranges-Within :
      (n m : ℕ) (bytes : List ℕ) → length bytes ≤ m → Within m (from_codec (w.read_ranges n bytes))
  ranges-Within n m bytes l =
      at (w.read_ranges n bytes) (λ v rest e. laws.read_ranges_shrinks n bytes v rest e)
    where
      at :
          (o : Option (List R × List ℕ))
          → ((v : List R) (rest : List ℕ) → o ≡ some (v, rest) → length rest ≤ length bytes)
          → Within m (from_codec o)
      at none h = refl
      at (some r) h = omega (arith, h r.0 r.1 refl, l)

  pub ip_set-Within : (bytes : List ℕ) → Within (length bytes) (read_ip_set w recover bytes)
  unfolding read_ip_set
  ip_set-Within [] = refl
  ip_set-Within (b ∷ bytes) =
      either-Within (b == 1) _ _ _
        (bind-Within (length bytes) _ _ _
          (codec-Within w.uint64 laws.uint64 (length bytes) bytes (omega arith))
          (λ n l.
            bind-Within (length bytes) _ _ _ (ranges-Within n.0 (length bytes) n.1 l)
              (λ ranges k. omega (arith, k))))
        refl

  pub item-Within :
      (item_type : ℕ) (r : DefaultOptions M A R) (bytes : List ℕ)
      → Within (length bytes) (read_item w recover item_type r bytes)
  unfolding read_item
  item-Within t r bytes =
      either-Within (t == 0) _ _ _ (field-Within w.uint16s laws.uint16s _ bytes) (
        either-Within (t == 1) _ _ _ (field-Within w.strings laws.strings _ bytes) (
          either-Within (t == 2) _ _ _ (field-Within w.matcher laws.matcher _ bytes) (
            either-Within (t == 3) _ _ _ (field-Within w.strings laws.strings _ bytes) (
              either-Within (t == 4) _ _ _ (field-Within w.strings laws.strings _ bytes) (
                either-Within (t == 5) _ _ _ (bind-Within _ _ _ _ (ip_set-Within bytes) (λ s l. l))
                  (either-Within (t == 6) _ _ _
                    (bind-Within _ _ _ _ (ip_set-Within bytes) (λ s l. l))
                    (either-Within (t == 7) _ _ _ (field-Within w.uint16s laws.uint16s _ bytes) (
                      either-Within (t == 8) _ _ _ (field-Within w.strings laws.strings _ bytes) (
                        either-Within (t == 9) _ _ _ (field-Within w.uint16s laws.uint16s _ bytes) (
                          either-Within (t == 10) _ _ _
                            (field-Within w.strings laws.strings _ bytes)
                            (either-Within (t == 11) _ _ _
                              (field-Within w.strings laws.strings _ bytes)
                              (either-Within (t == 12) _ _ _
                                (field-Within w.strings laws.strings _ bytes)
                                (either-Within (t == 13) _ _ _
                                  (field-Within w.strings laws.strings _ bytes)
                                  (either-Within (t == 14) _ _ _
                                    (field-Within w.strings laws.strings _ bytes)
                                    (either-Within (t == 15) _ _ _
                                      (field-Within w.strings laws.strings _ bytes)
                                      (either-Within (t == 16) _ _ _
                                        (either-Within recover _ _ _ refl
                                          (field-Within w.adguard laws.adguard _ bytes))
                                        refl))))))))))))))))

  pub default-Within :
      (fuel n : ℕ) (r : DefaultOptions M A R) (bytes : List ℕ)
      → length bytes + 1 ≤ fuel
      → length bytes ≤ n
      → Within n (read_default_rule w recover fuel r bytes)
  unfolding read_default_rule
  default-Within zero n r bytes l l' = ground (arith, l)
  default-Within (suc fuel) n r [] l l' = refl
  default-Within (suc fuel) n r (b ∷ bytes) l l' =
      either-Within (b == 255) n _ _
        (bind-Within n n _ _ (bool-Within n bytes (omega (arith, l'))) (λ r k. k))
        (bind-Within (length bytes) n _ _ (item-Within b r bytes) (λ next k.
          default-Within fuel n next.0 next.1 (omega (arith, l, k)) (omega (arith, l', k))))

  pub mode-Within :
      {V : Type 0} (b n : ℕ) (f : Mode → Read V)
      → ((m : Mode) → Within n (f m))
      → Within n (mode_of b >>= f)
  mode-Within b n f h = at (b == 0) (b == 1)
    where
      at :
          (p q : Bool)
          → Within n
              ((if p then ok mode_and else if q then ok mode_or else err (unknown_mode b)) >>= f)
      at true q = h mode_and
      at false true = h mode_or
      at false false = refl
