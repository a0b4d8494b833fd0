-- ===== src/Notices/Writes.antt =====
-- Writes of the outbox that may throw, one after another.
use werefa.Notices.{Outbox}
use werefa.Prelude.{Option, none, some, List, [], ◌∷◌}

-- A write that throws leaves what was written before; the rest of the event is not written.
pub data Written : Type 0 where
  done : Outbox → Written
  thrown : Outbox → Written

abbrev pub written : Written → Outbox
written (done o) = o
written (thrown o) = o

abbrev pub attempt : Outbox → Option Outbox → Written
attempt o none = thrown o
attempt o (some next) = done next

abbrev pub and_then : Written → (Outbox → Written) → Written
and_then (done o) k = k o
and_then (thrown o) k = thrown o

unfoldable pub for_each {ℓ} : {A : Type ℓ} → (A → Outbox → Written) → List A → Outbox → Written
for_each f [] o = done o
for_each f (x ∷ xs) o = and_then (f x o) (for_each f xs)
