-- ===== src/Characterization/SpscRing/Holds.antt =====
-- characterization/spsc_ring.hpp: how the indices and the local variables go with the queue.
use avi_99l_mission_board.Base.{
  ℕ, suc, ◌+◌, ◌≤◌, ◌<◌, ◌≡◌, ◌≢◌, ◌↔◌, refl, Option, none, some, List, [], ◌∷◌, ◌++◌, length,
  length-append, arith, subst, sym, ap,
}
use avi_99l_mission_board.Characterization.SpscRing.{
  Storage, put, SpscRing, increment, Producer, resting, head_loaded, room_seen, stored, Consumer,
  waiting, pop_started, until_started, slot_ready, value_read, System,
}
use avi_99l_mission_board.Characterization.SpscRing.Fifo.{Fifo, lower}
use avi_99l_mission_board.Characterization.SpscRing.Contents.{
  increment_cases, Spans, Reaches, Reaches-increment, Spans-put, Spans-append,
}

-- The ring holds the values of the queue.
pub record Holds {T : Type 0} (capacity : ℕ) (r : SpscRing T) (items : List T) : Type 0 where
  pub tail_below : r.tail < capacity
  pub head_below : r.head < capacity
  pub below : length items < capacity
  pub reaches : Reaches capacity r.tail (length items) r.head
  pub spans : Spans capacity r.storage r.tail items

-- What a call of `push` knows, with `n` values in the ring.
abbrev pub ProducerAt :
    {T : Type 0} → (capacity n : ℕ) → Storage T → (head : ℕ) → Producer T → Type 0
ProducerAt capacity n storage head resting = Unit
ProducerAt capacity n storage head (head_loaded v h) = h ≡ head
ProducerAt capacity n storage head (room_seen v h) = (h ≡ head) × (n + 1 < capacity)
ProducerAt capacity n storage head (stored v h) = (h ≡ head) × (n + 1 < capacity) × (storage h ≡ v)

-- What a call of `pop` or `popUntil` knows.
abbrev pub ConsumerAt : {T : Type 0} → Fifo T → (tail : ℕ) → Consumer T → Type 0
ConsumerAt q tail waiting = Unit
ConsumerAt q tail (pop_started t) = (t ≡ tail) × (q.bound ≡ none)
ConsumerAt q tail (until_started t) = t ≡ tail
ConsumerAt q tail (slot_ready t) = (t ≡ tail) × (0 < length q.items) × (q.bound ≢ some 0)
ConsumerAt {T} q tail (value_read t v) =
    (t ≡ tail) × (q.bound ≢ some 0) × ((rest : List T) × (q.items ≡ v ∷ rest))

-- The cursor stands after the values of the snapshot.
abbrev pub CursorAt : (capacity n tail : ℕ) → Option ℕ → Option ℕ → Type 0
CursorAt capacity n tail none none = Unit
CursorAt capacity n tail (some end) (some k) =
    (k ≤ n) × (end < capacity) × Reaches capacity tail k end
CursorAt capacity n tail none (some k) = ⊥
CursorAt capacity n tail (some end) none = ⊥

pub record Simulates {T : Type 0} (capacity : ℕ) (s : System T) (q : Fifo T) : Type 0 where
  pub holds : Holds capacity s.ring q.items
  pub producing : ProducerAt capacity (length q.items) s.ring.storage s.ring.head s.producer
  pub consuming : ConsumerAt q s.ring.tail s.consumer
  pub bounded : CursorAt capacity (length q.items) s.ring.tail s.cursor q.bound

-- A value more changes nothing for the consumer, a value less nothing for the producer.
pub ConsumerAt-append :
    {T : Type 0} (q : Fifo T) (tail : ℕ) (v : T) (c : Consumer T)
    → ConsumerAt q tail c
    → ConsumerAt (record q { items = q.items ++ v ∷ [] }) tail c
ConsumerAt-append q tail v waiting at = at
ConsumerAt-append q tail v (pop_started t) at = at
ConsumerAt-append q tail v (until_started t) at = at
ConsumerAt-append q tail v (slot_ready t) at =
    (at.0, omega (arith, length-append q.items (v ∷ [])), at.2)
ConsumerAt-append q tail v (value_read t w) at =
    (at.0, at.1, (at.2.0 ++ v ∷ [], ap (λ xs. xs ++ v ∷ []) at.2.1))

pub CursorAt-grow :
    (capacity n tail : ℕ) (cursor bound : Option ℕ)
    → CursorAt capacity n tail cursor bound
    → CursorAt capacity (n + 1) tail cursor bound
CursorAt-grow capacity n tail none none at = at
CursorAt-grow capacity n tail none (some k) at = elim at [ ]
CursorAt-grow capacity n tail (some end) none at = elim at [ ]
CursorAt-grow capacity n tail (some end) (some k) at = (omega arith, at.1, at.2)

pub ProducerAt-shrink :
    {T : Type 0} (capacity n : ℕ) (storage : Storage T) (head : ℕ) (p : Producer T)
    → ProducerAt capacity (suc n) storage head p
    → ProducerAt capacity n storage head p
ProducerAt-shrink capacity n storage head resting at = at
ProducerAt-shrink capacity n storage head (head_loaded v h) at = at
ProducerAt-shrink capacity n storage head (room_seen v h) at = (at.0, omega arith)
ProducerAt-shrink capacity n storage head (stored v h) at = (at.0, omega arith, at.2)

module _ {T : Type 0} (capacity : ℕ) where
  pub Holds-put :
      (r : SpscRing T) (items : List T) (v : T)
      → Holds capacity r items
      → Holds capacity (record r { storage = put r.head v r.storage }) items
  Holds-put r items v h = record {
    tail_below = h.tail_below;
    head_below = h.head_below;
    below = h.below;
    reaches = h.reaches;
    spans =
        Spans-put capacity r.storage r.tail r.head v items h.tail_below h.head_below h.below
          h.reaches h.spans;
  }

  pub Holds-publish :
      (r : SpscRing T) (items : List T) (v : T)
      → Holds capacity r items
      → length items + 1 < capacity
      → r.storage r.head ≡ v
      → Holds capacity (record r { head = increment capacity r.head }) (items ++ v ∷ [])
  Holds-publish r items v h room at =
      let c = increment_cases capacity r.head h.head_below in
      let n = length-append items (v ∷ []) in
      record {
        tail_below = h.tail_below;
        head_below = ground arith;
        below = omega (arith, n);
        reaches =
            subst (λ k. Reaches capacity r.tail k (increment capacity r.head)) (sym n)
              (ground arith);
        spans =
            Spans-append capacity r.storage r.tail r.head v items h.tail_below h.head_below h.below
              h.reaches at h.spans;
      }

  pub Holds-release :
      (r : SpscRing T) (v : T) (rest : List T)
      → Holds capacity r (v ∷ rest)
      → Holds capacity (record r { tail = increment capacity r.tail }) rest
  Holds-release r v rest h =
      let c =
        Reaches-increment capacity r.tail (length rest) r.head h.tail_below h.head_below h.below
          h.reaches in
      record {
        tail_below = c.0;
        head_below = h.head_below;
        below = omega (arith, h.below);
        reaches = c.1;
        spans = h.spans.1;
      }

  -- The distance from the tail to the head tells whether the ring is full, and whether it is empty.
  pub Holds-full :
      (r : SpscRing T) (items : List T)
      → Holds capacity r items
      → (increment capacity r.head ≡ r.tail) ↔ (length items + 1 ≡ capacity)
  Holds-full r items h =
      let c = increment_cases capacity r.head h.head_below in (ground arith, ground arith)

  pub Holds-empty :
      (r : SpscRing T) (items : List T)
      → Holds capacity r items
      → (r.tail ≡ r.head) ↔ (length items ≡ 0)
  Holds-empty r items h = (ground arith, ground arith)

-- The consumer's cursor: at the end of its snapshot, before it, and after a value was taken.
module _ (capacity n tail : ℕ) where
  pub CursorAt-reached :
      (end : ℕ) (bound : Option ℕ)
      → n < capacity
      → tail < capacity
      → CursorAt capacity n tail (some end) bound
      → tail ≡ end
      → bound ≡ some 0
  CursorAt-reached end none below t at same = elim at [ ]
  CursorAt-reached end (some k) below t at same = ap some (ground arith)

  pub CursorAt-before :
      (end : ℕ) (bound : Option ℕ)
      → n < capacity
      → tail < capacity
      → CursorAt capacity n tail (some end) bound
      → tail ≢ end
      → (0 < n) × (bound ≢ some 0)
  CursorAt-before end none below t at apart = elim at [ ]
  CursorAt-before end (some k) below t at apart = ground arith

pub CursorAt-take :
    (capacity n tail : ℕ) (cursor bound : Option ℕ)
    → suc n < capacity
    → tail < capacity
    → bound ≢ some 0
    → CursorAt capacity (suc n) tail cursor bound
    → CursorAt capacity n (increment capacity tail) cursor (lower bound)
CursorAt-take capacity n tail none none below t left at = at
CursorAt-take capacity n tail none (some k) below t left at = elim at [ ]
CursorAt-take capacity n tail (some end) none below t left at = elim at [ ]
CursorAt-take capacity n tail (some end) (some k) below t left at =
    let c = increment_cases capacity tail t in ground arith

-- The value in the tail's slot is the first of the queue.
pub Spans-first :
    {T : Type 0} (capacity : ℕ) (storage : Storage T) (tail : ℕ) (items : List T)
    → 0 < length items
    → Spans capacity storage tail items
    → (rest : List T) × (items ≡ storage tail ∷ rest)
Spans-first capacity storage tail [] some_value s = absurd (omega arith)
Spans-first capacity storage tail (x ∷ xs) some_value s = (xs, ap (λ y. y ∷ xs) (sym s.0))

pub length-zero : {T : Type 0} (items : List T) → length items ≡ 0 → items ≡ []
length-zero [] e = refl
length-zero (x ∷ xs) e = absurd (omega arith)
