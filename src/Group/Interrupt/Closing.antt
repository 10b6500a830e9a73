-- ===== src/Group/Interrupt/Closing.antt =====
-- Interrupt of common/interrupt/group.go: the connections before the call against those after it.
use sfa_provider.Prelude.{
  ℕ, ◌+◌, Bool, true, not, List, [], ◌∷◌, ◌++◌, ◌≡◌, refl, length, length-append, all, arith, inl,
  inr, Bool-cases,
}
use sfa_provider.Group.Interrupt.{
  Connection, InterruptGroup, is_hit, close_hit, keep_missed, interrupt,
}

counted :
    (b : Bool) (cs : List Connection) (closed : List ℕ)
    → length (keep_missed b cs) + length (close_hit b cs closed) ≡ length cs + length closed
unfolding keep_missed close_hit
counted b [] closed = refl
counted b (c ∷ cs) closed = elim (Bool-cases (is_hit b c)) [
  | inl e ↦
      rw e (omega (arith, counted b cs (closed ++ c.conn ∷ []), length-append closed (c.conn ∷ [])))
  | inr e ↦ rw e (omega (arith, counted b cs closed))
]

missed : (b : Bool) (cs : List Connection) → all (λ c. not (is_hit b c)) (keep_missed b cs) ≡ true
unfolding keep_missed
missed b [] = refl
missed b (c ∷ cs) = let ih = missed b cs in ground (arith, ih)

-- After Interrupt, the connections that are tracked and those that are closed are together as many
-- as before, and no connection that it is to close (an internal one, or any at all where external
-- ones are to be interrupted too) is still tracked.
pub interrupt_lem :
    (b : Bool) (g : InterruptGroup)
    → (length (interrupt b g).connections + length (interrupt b g).closed
        ≡ length g.connections + length g.closed)
      × (all (λ c. not (is_hit b c)) (interrupt b g).connections ≡ true)
unfolding interrupt
interrupt_lem b g = (counted b g.connections g.closed, missed b g.connections)
