-- ===== src/Srs/RoundTrip/Segments.antt =====
-- The bytes of a default rule as segments, one after the other, each read in its own rounds of the
-- loop of readDefaultRule (common/srs/binary.go).
use sfa_provider.Prelude.{
  ℕ, suc, Bool, true, false, List, [], ◌∷◌, ◌++◌, ◌==◌, ℕ_key, ◌≡◌, refl, ap, ◌∙◌, ok, ◌>>=◌,
  length, length-append, ◌+◌, ◌≤◌, if◌then◌else◌, arith,
}
use mathlib.Core.List.{append_assoc}
use sfa_provider.Srs.Wire.{Codec, CodecLaws, Wire}
use sfa_provider.Srs.Options.{DefaultOptions}
use sfa_provider.Srs.Writing.{write_item, write_bool}
use sfa_provider.Srs.Reading.{read_item, read_field, from_codec, read_bool, read_default_rule}

module _ {M A R : Type 0} (w : Wire M A R) (recover : Bool) where
  -- A round of the loop at a byte that is no end.
  step :
      (fuel item_type : ℕ) (r r' : DefaultOptions M A R) (bytes rest : List ℕ)
      → (item_type == 255) ≡ false
      → read_item w recover item_type r bytes ≡ ok (r', rest)
      → read_default_rule w recover (suc fuel) r (item_type ∷ bytes)
        ≡ read_default_rule w recover fuel r' rest
  unfolding read_default_rule
  step fuel item_type r r' bytes rest e h =
      ap
        (λ b.
          if b
          then (read_bool bytes >>= λ b. ok (record r { invert = b.0 }, b.1))
          else (read_item w recover item_type r bytes >>= λ next.
              read_default_rule w recover fuel next.0 next.1))
        e
      ∙ ap (λ x. x >>= λ next. read_default_rule w recover fuel next.0 next.1) h

  -- Bytes that the loop turns from one rule into another, in no more rounds than they are long.
  pub record Segment (bytes : List ℕ) (r r' : DefaultOptions M A R) : Type 0 where
    pub rounds :
        (n : ℕ) (rest : List ℕ)
        → (k : ℕ) × (k ≤ length bytes + n)
          × (read_default_rule w recover k r (bytes ++ rest)
              ≡ read_default_rule w recover n r' rest)

  -- Bytes that end a rule.
  pub record Whole (bytes : List ℕ) (r r' : DefaultOptions M A R) : Type 0 where
    pub rounds :
        (rest : List ℕ)
        → (k : ℕ) × (k ≤ length bytes)
          × (read_default_rule w recover k r (bytes ++ rest) ≡ ok (r', rest))

infixr 4 ◌▸◌
pub ◌▸◌ :
    {M A R : Type 0} {w : Wire M A R} {recover : Bool} {p q : List ℕ}
    {r r' r'' : DefaultOptions M A R}
    → Segment w recover p r r'
    → Whole w recover q r' r''
    → Whole w recover (p ++ q) r r''
◌▸◌ {M} {A} {R} {w} {recover} {p} {q} {r} {r'} {r''} s t = record {
  rounds = λ rest.
      let b = t.rounds rest in
      let a = s.rounds b.0 (q ++ rest) in
      (
        a.0,
        omega (arith, a.1, b.1, length-append p q),
        ap (read_default_rule w recover a.0 r) (append_assoc p q rest) ∙ a.2 ∙ b.2,
      );
}

module _ {M A R : Type 0} (w : Wire M A R) (recover : Bool) where
  pub empty-Segment : (r : DefaultOptions M A R) → Segment w recover [] r r
  empty-Segment r = record { rounds = λ n rest. (n, omega arith, refl) }

  pub item-Segment :
      (item_type : ℕ) (bytes : List ℕ) (r r' : DefaultOptions M A R)
      → (item_type == 255) ≡ false
      → ((rest : List ℕ) → read_item w recover item_type r (bytes ++ rest) ≡ ok (r', rest))
      → Segment w recover (item_type ∷ bytes) r r'
  item-Segment item_type bytes r r' e f = record {
    rounds = λ n rest.
        (suc n, omega arith, step w recover n item_type r r' (bytes ++ rest) rest e (f rest));
  }

  -- A list that is written if it is not empty.
  pub listed :
      {V : Type 0} (codec : Codec (List V)) (laws : CodecLaws codec) (item_type : ℕ)
      (set : List V → DefaultOptions M A R) (v : List V)
      → laws.Fits v
      → (item_type == 255) ≡ false
      → ((bytes : List ℕ)
          → read_item w recover item_type (set []) bytes ≡ read_field codec set bytes)
      → Segment w recover (write_item codec item_type v) (set []) (set v)
  unfolding write_item
  listed codec laws item_type set [] fits e f = empty-Segment (set [])
  listed codec laws item_type set (v ∷ vs) fits e f =
      item-Segment item_type (codec.write (v ∷ vs)) (set []) (set (v ∷ vs)) e (λ rest.
        f (codec.write (v ∷ vs) ++ rest)
        ∙ ap (λ x. from_codec x >>= λ y. ok (set y.0, y.1)) (laws.read-write (v ∷ vs) rest fits))

  -- The end of the rule.
  pub ended :
      (r : DefaultOptions M A R) (b : Bool)
      → Whole w recover (255 ∷ write_bool b) r (record r { invert = b })
  unfolding read_default_rule
  ended r true = record { rounds = λ rest. (1, omega arith, refl) }
  ended r false = record { rounds = λ rest. (1, omega arith, refl) }
