-- ===== src/Characterization/SpscRing.antt =====
-- characterization/spsc_ring.hpp: `SpscRing`, a ring that one producer and one consumer share without a
-- lock. Each load and each store of an index, and each copy of a value, is a step of its own; the
-- steps of the two tasks come in any order, as the acquire and release orders of the code allow.
mod Contents
mod Fifo
mod Holds
mod Refine
mod Examples
use avi_99l_mission_board.Base.{
  ℕ, ◌+◌, ◌%◌, ◌<◌, ◌≡◌, ◌≢◌, Bool, Option, none, some, List, [], ◌∷◌, ◌==◌, if◌then◌else◌,
}

-- `std::array<T, Capacity>`. The code only reads and writes at indices below the capacity.
abbrev pub Storage : Type 0 → Type 0
Storage T = ℕ → T

abbrev pub put : {T : Type 0} → ℕ → T → Storage T → Storage T
put i value storage = λ j. if j == i then value else storage j

pub record SpscRing (T : Type 0) : Type 0 where
  pub storage : Storage T
  pub head : ℕ
  pub tail : ℕ

-- `Capacity` is the template's second argument.
unfoldable pub increment : (capacity : ℕ) → ℕ → ℕ
increment capacity value = (value + 1) % capacity

-- Where a call of `push` stands, with its local variables. The next index is a function of `head`.
pub data Producer (T : Type 0) : Type 0 where
  resting : Producer T
  head_loaded room_seen stored : (value : T) (head : ℕ) → Producer T

-- Where a call of `pop` or `popUntil` stands.
pub data Consumer (T : Type 0) : Type 0 where
  waiting : Consumer T
  pop_started until_started slot_ready : (tail : ℕ) → Consumer T
  value_read : (tail : ℕ) (value : T) → Consumer T

-- The cursor is the consumer's variable for the result of `consumerHeadSnapshot`.
pub record System (T : Type 0) : Type 0 where
  pub ring : SpscRing T
  pub producer : Producer T
  pub consumer : Consumer T
  pub cursor : Option ℕ

-- What a step shows to the callers.
pub data Action (T : Type 0) : Type 0 where
  silent : Action T
  pushed push_failed popped : T → Action T
  pop_failed snapped until_done : Action T

-- The steps of the producer.
pub data Push {T : Type 0} (capacity : ℕ) (s : System T) : Action T → System T → Type 0 where
  load_head :
      (value : T)
      → s.producer ≡ resting
      → Push capacity s silent (record s { producer = head_loaded value s.ring.head })
  see_full :
      (value : T) (head : ℕ)
      → s.producer ≡ head_loaded value head
      → increment capacity head ≡ s.ring.tail
      → Push capacity s (push_failed value) (record s { producer = resting })
  see_room :
      (value : T) (head : ℕ)
      → s.producer ≡ head_loaded value head
      → increment capacity head ≢ s.ring.tail
      → Push capacity s silent (record s { producer = room_seen value head })
  store_value :
      (value : T) (head : ℕ)
      → s.producer ≡ room_seen value head
      → Push capacity s silent (record s {
        ring = record s.ring { storage = put head value s.ring.storage };
        producer = stored value head;
      })
  publish :
      (value : T) (head : ℕ)
      → s.producer ≡ stored value head
      → Push capacity s
          (pushed value)
          (record s { ring = record s.ring { head = increment capacity head }; producer = resting })

-- The steps of the consumer. A cursor is for the calls of `popUntil` up to the next `pop`.
pub data Pop {T : Type 0} (capacity : ℕ) (s : System T) : Action T → System T → Type 0 where
  load_tail :
      s.consumer ≡ waiting
      → Pop capacity s silent (record s { consumer = pop_started s.ring.tail; cursor = none })
  see_empty :
      (tail : ℕ)
      → s.consumer ≡ pop_started tail
      → tail ≡ s.ring.head
      → Pop capacity s pop_failed (record s { consumer = waiting })
  see_value :
      (tail : ℕ)
      → s.consumer ≡ pop_started tail
      → tail ≢ s.ring.head
      → Pop capacity s silent (record s { consumer = slot_ready tail })
  snapshot : s.consumer ≡ waiting → Pop capacity s snapped (record s { cursor = some s.ring.head })
  load_tail_until :
      (bound : ℕ)
      → s.consumer ≡ waiting
      → s.cursor ≡ some bound
      → Pop capacity s silent (record s { consumer = until_started s.ring.tail })
  see_bound :
      (tail bound : ℕ)
      → s.consumer ≡ until_started tail
      → s.cursor ≡ some bound
      → tail ≡ bound
      → Pop capacity s until_done (record s { consumer = waiting })
  see_before_bound :
      (tail bound : ℕ)
      → s.consumer ≡ until_started tail
      → s.cursor ≡ some bound
      → tail ≢ bound
      → Pop capacity s silent (record s { consumer = slot_ready tail })
  read_value :
      (tail : ℕ)
      → s.consumer ≡ slot_ready tail
      → Pop capacity s silent (record s { consumer = value_read tail (s.ring.storage tail) })
  release :
      (tail : ℕ) (value : T)
      → s.consumer ≡ value_read tail value
      → Pop capacity s
          (popped value)
          (record s { ring = record s.ring { tail = increment capacity tail }; consumer = waiting })

pub data Step {T : Type 0} (capacity : ℕ) (s : System T) (a : Action T) (t : System T)
    : Type 0 where
  produces : Push capacity s a t → Step capacity s a t
  consumes : Pop capacity s a t → Step capacity s a t

-- Steps in any order, with what they show, the first one first.
pub data Run {T : Type 0} (capacity : ℕ) : System T → List (Action T) → System T → Type 0 where
  stop : {s : System T} → Run capacity s [] s
  next :
      {s t u : System T} {a : Action T} {rest : List (Action T)}
      → Step capacity s a t
      → Run capacity t rest u
      → Run capacity s (a ∷ rest) u

-- `reset`, which is called while both tasks rest, and `empty`.
unfoldable pub reset : {T : Type 0} → SpscRing T → SpscRing T
reset r = record r { head = 0; tail = 0 }

unfoldable pub empty : {T : Type 0} → SpscRing T → Bool
empty r = r.head == r.tail

abbrev pub rested : {T : Type 0} → SpscRing T → System T
rested r = record { ring = r; producer = resting; consumer = waiting; cursor = none }
