-- ===== src/Group/Interrupt.antt =====
-- `Group` of common/interrupt/group.go: the connections that are closed when the group turns to
-- another member. A connection is a number; `closed` collects the calls of Close.
pub mod Closing
use sfa_provider.Prelude.{ℕ, Bool, not, List, [], ◌∷◌, ◌++◌, ◌||◌, if◌then◌else◌}

pub record Connection : Type 0 where
  pub conn : ℕ
  pub is_external : Bool

pub record InterruptGroup : Type 0 where
  pub connections : List Connection
  pub closed : List ℕ

-- NewGroup
abbrev pub new_group : InterruptGroup
new_group = record { connections = []; closed = [] }

-- NewConn and NewPacketConn
unfoldable pub new_conn : ℕ → Bool → InterruptGroup → InterruptGroup
new_conn conn is_external g = record g {
  connections = g.connections ++ record { conn = conn; is_external = is_external } ∷ [];
}

abbrev pub is_hit : Bool → Connection → Bool
is_hit interrupt_external c = not c.is_external || interrupt_external

-- The first loop, which closes, and what the second one leaves.
unfoldable pub close_hit : Bool → List Connection → List ℕ → List ℕ
close_hit all_of_them [] closed = closed
close_hit all_of_them (c ∷ cs) closed =
    close_hit all_of_them cs (if is_hit all_of_them c then closed ++ c.conn ∷ [] else closed)

unfoldable pub keep_missed : Bool → List Connection → List Connection
keep_missed all_of_them [] = []
keep_missed all_of_them (c ∷ cs) =
    let rest = keep_missed all_of_them cs in if is_hit all_of_them c then rest else c ∷ rest

-- Interrupt
unfoldable pub interrupt : Bool → InterruptGroup → InterruptGroup
interrupt interrupt_external g = record {
  connections = keep_missed interrupt_external g.connections;
  closed = close_hit interrupt_external g.connections g.closed;
}
