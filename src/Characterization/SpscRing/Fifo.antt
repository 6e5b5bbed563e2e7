-- ===== src/Characterization/SpscRing/Fifo.antt =====
-- What the ring of characterization/spsc_ring.hpp promises: a bounded first-in first-out queue, on
-- which a push and a pop are one step, and whose drains end at the values of a snapshot.
use avi_99l_mission_board.Base.{
  ℕ, ◌+◌, ◌-◌, ◌<◌, ◌≡◌, ◌≢◌, Option, none, some, List, [], ◌∷◌, ◌++◌, length,
}
use avi_99l_mission_board.Characterization.SpscRing.{
  Action, silent, pushed, push_failed, popped, pop_failed, snapped, until_done,
}

-- `bound` is how many values of a snapshot are left.
pub record Fifo (T : Type 0) : Type 0 where
  pub items : List T
  pub bound : Option ℕ

abbrev pub lower : Option ℕ → Option ℕ
lower none = none
lower (some k) = some (k - 1)

pub data Serves {T : Type 0} (capacity : ℕ) (q : Fifo T) : Action T → Fifo T → Type 0 where
  idle : Serves capacity q silent q
  forget : Serves capacity q silent (record q { bound = none })
  enqueue :
      (v : T)
      → length q.items + 1 < capacity
      → Serves capacity q (pushed v) (record q { items = q.items ++ v ∷ [] })
  refuse : (v : T) → length q.items + 1 ≡ capacity → Serves capacity q (push_failed v) q
  dequeue :
      (v : T) (rest : List T)
      → q.items ≡ v ∷ rest
      → q.bound ≢ some 0
      → Serves capacity q (popped v) (record { items = rest; bound = lower q.bound })
  fail : q.items ≡ [] → Serves capacity q pop_failed q
  snap : Serves capacity q snapped (record q { bound = some (length q.items) })
  done : q.bound ≡ some 0 → Serves capacity q until_done q

pub data Served {T : Type 0} (capacity : ℕ) : Fifo T → List (Action T) → Fifo T → Type 0 where
  stop : {q : Fifo T} → Served capacity q [] q
  next :
      {q r u : Fifo T} {a : Action T} {rest : List (Action T)}
      → Serves capacity q a r
      → Served capacity r rest u
      → Served capacity q (a ∷ rest) u
