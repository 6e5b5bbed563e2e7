-- ===== src/Runtime/EmergencyLatch.antt =====
-- runtime/emergency_latch.hpp: `EmergencyLatch`, one 16-bit atomic through which an interrupt hands a
-- transaction id to a task. Each exchange is one step.
use avi_99l_mission_board.Base.{
  ℕ, ◌+◌, ◌^◌, ◌/◌, ◌%◌, ◌<◌, ◌≡◌, refl, Bool, not, List, [], ◌∷◌, Option, none, some, ◌==◌,
  if◌then◌else◌, u8, arith,
}

pub record EmergencyLatch : Type 0 where
  pub pending_word : ℕ

abbrev pub new : EmergencyLatch
new = record { pending_word = 0 }

-- Bit 8 of the word.
abbrev pub has_flag : ℕ → Bool
has_flag word = not (word / 2 ^ 8 % 2 == 0)

-- The id is a byte, so that `| 0x100` adds the flag.
unfoldable pub signal : ℕ → EmergencyLatch → EmergencyLatch × Bool
signal transaction_id l =
    (record { pending_word = transaction_id + 0x100 }, has_flag l.pending_word)

-- The id is written only if the flag was set.
unfoldable pub take : EmergencyLatch → EmergencyLatch × Option ℕ
take l = (
  record { pending_word = 0 },
  if not (has_flag l.pending_word) then none else some (u8 l.pending_word),
)

unfoldable pub pending : EmergencyLatch → Bool
pending l = has_flag l.pending_word

pub data LatchCall : Type 0 where
  signals : ℕ → LatchCall
  takes : LatchCall

unfoldable pub latch_calls : List LatchCall → EmergencyLatch → EmergencyLatch
latch_calls [] l = l
latch_calls (signals t ∷ cs) l = latch_calls cs (signal t l).0
latch_calls (takes ∷ cs) l = latch_calls cs (take l).0

-- What the latch promises: the id of the last signal since the last take.
unfoldable pub waiting : Option ℕ → List LatchCall → Option ℕ
waiting o [] = o
waiting o (signals t ∷ cs) = waiting (some t) cs
waiting o (takes ∷ cs) = waiting none cs

-- Every id that is signalled is a byte.
abbrev pub Bytes : List LatchCall → Type 0
Bytes [] = Unit
Bytes (signals t ∷ cs) = (t < 256) × Bytes cs
Bytes (takes ∷ cs) = Bytes cs

abbrev Holds : EmergencyLatch → Option ℕ → Type 0
Holds l none = l.pending_word ≡ 0
Holds l (some t) = (l.pending_word ≡ t + 0x100) × (t < 256)

calls-Holds :
    (cs : List LatchCall) (l : EmergencyLatch) (o : Option ℕ)
    → Bytes cs
    → Holds l o
    → Holds (latch_calls cs l) (waiting o cs)
unfolding latch_calls waiting signal take
calls-Holds [] l o b h = h
calls-Holds (signals t ∷ cs) l o b h = calls-Holds cs _ (some t) b.1 (refl, b.0)
calls-Holds (takes ∷ cs) l o b h = calls-Holds cs _ none b refl

Holds-take : (l : EmergencyLatch) (o : Option ℕ) → Holds l o → (take l).1 ≡ o
unfolding take
Holds-take l none h = ground arith
Holds-take l (some t) h = ground arith

-- After any signals of byte ids and takes, in any order, a take gets the id of the last signal since the last take,
-- an id of 0 included, and nothing when there was none: a later signal replaces an earlier one, and
-- no signal is taken twice.
pub take_refines :
    (cs : List LatchCall) → Bytes cs → (take (latch_calls cs new)).1 ≡ waiting none cs
take_refines cs b =
    Holds-take (latch_calls cs new) (waiting none cs) (calls-Holds cs new none b refl)
