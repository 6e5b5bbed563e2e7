-- ===== src/Characterization/SpscRing/Refine.antt =====
-- characterization/spsc_ring.hpp: whatever the order of the steps, the callers see a queue.
use avi_99l_mission_board.Base.{
  ℕ, ◌≤◌, ◌≡◌, refl, Option, none, some, List, [], ◌∷◌, ◌++◌, length, length-append, arith, subst,
  sym, ap, ◌∙◌,
}
use avi_99l_mission_board.Characterization.SpscRing.{
  put, SpscRing, increment, Producer, head_loaded, room_seen, stored, Consumer, waiting,
  pop_started, until_started, slot_ready, value_read, System, Action, Push, load_head, see_full,
  see_room, store_value, publish, Pop, load_tail, see_empty, see_value, snapshot, load_tail_until,
  see_bound, see_before_bound, read_value, release, produces, consumes, Run, rested, reset, popped,
}
use avi_99l_mission_board.Characterization.SpscRing.Fifo.{
  Fifo, lower, Serves, idle, forget, enqueue, refuse, dequeue, fail, snap, done, Served,
}
use avi_99l_mission_board.Characterization.SpscRing.Holds.{
  Holds, ProducerAt, ConsumerAt, CursorAt, Simulates, ConsumerAt-append, CursorAt-grow,
  CursorAt-reached, CursorAt-before, CursorAt-take, Spans-first, length-zero, ProducerAt-shrink,
  Holds-put, Holds-publish, Holds-release, Holds-full, Holds-empty,
}

module _ {T : Type 0} (capacity : ℕ) where
  -- A step of the code is a step of the queue.
  abbrev Followed : Fifo T → Action T → System T → Type 0
  Followed q a t = (r : Fifo T) × Serves capacity q a r × Simulates capacity t r

  -- What the producer knows once its place is known.
  producing_at :
      (s : System T) (q : Fifo T) (p : Producer T)
      → Simulates capacity s q
      → s.producer ≡ p
      → ProducerAt capacity (length q.items) s.ring.storage s.ring.head p
  producing_at s q p i at =
      subst (ProducerAt capacity (length q.items) s.ring.storage s.ring.head) at i.producing

  push-Followed :
      (s : System T) (q : Fifo T) (a : Action T) (t : System T)
      → Simulates capacity s q
      → Push capacity s a t
      → Followed q a t
  push-Followed s q _ _ i (load_head v at) = (
    q,
    idle,
    record { holds = i.holds; producing = refl; consuming = i.consuming; bounded = i.bounded },
  )
  push-Followed s q _ _ i (see_full v head at full) =
      let p = producing_at s q (head_loaded v head) i at in
      let same = ap (increment capacity) p in
      (
        q,
        refuse v ((Holds-full capacity s.ring q.items i.holds).0 (sym same ∙ full)),
        record {
          holds = i.holds;
          producing = ground arith;
          consuming = i.consuming;
          bounded = i.bounded;
        },
      )
  push-Followed s q _ _ i (see_room v head at room) =
      let p = producing_at s q (head_loaded v head) i at in
      let f = Holds-full capacity s.ring q.items i.holds in
      let b = i.holds.below in
      let same = ap (increment capacity) p in
      (
        q,
        idle,
        record {
          holds = i.holds;
          producing = (p, ground arith);
          consuming = i.consuming;
          bounded = i.bounded;
        },
      )
  push-Followed s q _ _ i (store_value v head at) =
      let p = producing_at s q (room_seen v head) i at in
      (
        q,
        idle,
        record {
          holds =
              subst
                (λ h. Holds capacity (record s.ring { storage = put h v s.ring.storage }) q.items)
                (sym p.0) (Holds-put capacity s.ring q.items v i.holds);
          producing = (p.0, p.1, ground arith);
          consuming = i.consuming;
          bounded = i.bounded;
        },
      )
  push-Followed s q _ _ i (publish v head at) =
      let p = producing_at s q (stored v head) i at in
      let grown = length-append q.items (v ∷ []) in
      (
        record q { items = q.items ++ v ∷ [] },
        enqueue v p.1,
        record {
          holds =
              subst
                (λ h.
                  Holds capacity (record s.ring { head = increment capacity h })
                    (q.items ++ v ∷ []))
                (sym p.0)
                (Holds-publish capacity s.ring q.items v i.holds p.1
                  (ap s.ring.storage (sym p.0) ∙ p.2));
          producing = ground arith;
          consuming = ConsumerAt-append q s.ring.tail v s.consumer i.consuming;
          bounded =
              subst (λ n. CursorAt capacity n s.ring.tail s.cursor q.bound) (sym grown)
                (CursorAt-grow capacity (length q.items) s.ring.tail s.cursor q.bound i.bounded);
        },
      )

  consuming_at :
      (s : System T) (q : Fifo T) (c : Consumer T)
      → Simulates capacity s q
      → s.consumer ≡ c
      → ConsumerAt q s.ring.tail c
  consuming_at s q c i at = subst (ConsumerAt q s.ring.tail) at i.consuming

  bounded_at :
      (s : System T) (q : Fifo T) (cursor : Option ℕ)
      → Simulates capacity s q
      → s.cursor ≡ cursor
      → CursorAt capacity (length q.items) s.ring.tail cursor q.bound
  bounded_at s q cursor i at =
      subst (λ c. CursorAt capacity (length q.items) s.ring.tail c q.bound) at i.bounded

  release-Followed :
      (s : System T) (q : Fifo T) (tail : ℕ) (v : T)
      → Simulates capacity s q
      → s.consumer ≡ value_read tail v
      → Followed q
          (popped v)
          (record s { ring = record s.ring { tail = increment capacity tail }; consumer = waiting })
  release-Followed s q tail v i at =
      let c = consuming_at s q (value_read tail v) i at in
      let rest = c.2.0 in
      let h = subst (Holds capacity s.ring) c.2.1 i.holds in
      let n = ap length c.2.1 in
      let moved : SpscRing T = record s.ring { tail = increment capacity tail } in
      (
        record { items = rest; bound = lower q.bound },
        dequeue v rest c.2.1 c.1,
        record {
          holds =
              subst (λ k. Holds capacity (record s.ring { tail = increment capacity k }) rest)
                (sym c.0) (Holds-release capacity s.ring v rest h);
          producing =
              ProducerAt-shrink capacity (length rest) s.ring.storage s.ring.head s.producer (
                subst (λ k. ProducerAt capacity k s.ring.storage s.ring.head s.producer) n
                  i.producing);
          consuming = ground arith;
          bounded =
              subst
                (λ k.
                  CursorAt capacity (length rest) (increment capacity k) s.cursor (lower q.bound))
                (sym c.0)
                (CursorAt-take capacity (length rest) s.ring.tail s.cursor q.bound h.below
                  h.tail_below c.1
                  (subst (λ k. CursorAt capacity k s.ring.tail s.cursor q.bound) n i.bounded));
        },
      )

  pop-Followed :
      (s : System T) (q : Fifo T) (a : Action T) (t : System T)
      → Simulates capacity s q
      → Pop capacity s a t
      → Followed q a t
  pop-Followed s q _ _ i (load_tail at) = (
    record q { bound = none },
    forget,
    record {
      holds = i.holds;
      producing = i.producing;
      consuming = (refl, refl);
      bounded = ground arith;
    },
  )
  pop-Followed s q _ _ i (see_empty tail at none_left) =
      let c = consuming_at s q (pop_started tail) i at in
      let n = (Holds-empty capacity s.ring q.items i.holds).0 (sym c.0 ∙ none_left) in
      (
        q,
        fail (length-zero q.items n),
        record {
          holds = i.holds;
          producing = i.producing;
          consuming = ground arith;
          bounded = i.bounded;
        },
      )
  pop-Followed s q _ _ i (see_value tail at left) =
      let c = consuming_at s q (pop_started tail) i at in
      let e = Holds-empty capacity s.ring q.items i.holds in
      (
        q,
        idle,
        record {
          holds = i.holds;
          producing = i.producing;
          consuming = (c.0, ground arith, ground arith);
          bounded = i.bounded;
        },
      )
  pop-Followed s q _ _ i (snapshot at) = (
    record q { bound = some (length q.items) },
    snap,
    record {
      holds = i.holds;
      producing = i.producing;
      consuming =
          subst (ConsumerAt (record q { bound = some (length q.items) }) s.ring.tail) (sym at)
            (ground arith);
      bounded = (omega arith, i.holds.head_below, i.holds.reaches);
    },
  )
  pop-Followed s q _ _ i (load_tail_until bound at cut) = (
    q,
    idle,
    record { holds = i.holds; producing = i.producing; consuming = refl; bounded = i.bounded },
  )
  pop-Followed s q _ _ i (see_bound tail bound at cut same) =
      let c = consuming_at s q (until_started tail) i at in
      let b = bounded_at s q (some bound) i cut in
      let h = i.holds in
      (
        q,
        done (
            CursorAt-reached capacity (length q.items) s.ring.tail bound q.bound h.below
              h.tail_below b (sym c ∙ same)),
        record {
          holds = i.holds;
          producing = i.producing;
          consuming = ground arith;
          bounded = i.bounded;
        },
      )
  pop-Followed s q _ _ i (see_before_bound tail bound at cut apart) =
      let c = consuming_at s q (until_started tail) i at in
      let b = bounded_at s q (some bound) i cut in
      let h = i.holds in
      let left =
        CursorAt-before capacity (length q.items) s.ring.tail bound q.bound h.below h.tail_below b
          (λ e. apart (c ∙ e)) in
      (
        q,
        idle,
        record {
          holds = i.holds;
          producing = i.producing;
          consuming = (c, left.0, left.1);
          bounded = i.bounded;
        },
      )
  pop-Followed s q _ _ i (read_value tail at) =
      let c = consuming_at s q (slot_ready tail) i at in
      let first = Spans-first capacity s.ring.storage s.ring.tail q.items c.1 i.holds.spans in
      (
        q,
        idle,
        record {
          holds = i.holds;
          producing = i.producing;
          consuming =
              (c.0, c.2, (first.0, first.1 ∙ ap (λ k. s.ring.storage k ∷ first.0) (sym c.0)));
          bounded = i.bounded;
        },
      )
  pop-Followed s q _ _ i (release tail v at) = release-Followed s q tail v i at

  run-Served :
      (shown : List (Action T)) (s t : System T) (q : Fifo T)
      → Simulates capacity s q
      → Run capacity s shown t
      → (r : Fifo T) × Served capacity q shown r × Simulates capacity t r
  run-Served [] s t q i Run.stop = (q, Served.stop, i)
  run-Served (a ∷ shown) s t q i (Run.next (produces p) more) =
      let f = push-Followed s q a _ i p in
      let rest = run-Served shown _ t f.0 f.2 more in (rest.0, Served.next f.1 rest.1, rest.2)
  run-Served (a ∷ shown) s t q i (Run.next (consumes p) more) =
      let f = pop-Followed s q a _ i p in
      let rest = run-Served shown _ t f.0 f.2 more in (rest.0, Served.next f.1 rest.1, rest.2)

  reset-Simulates :
      (r : SpscRing T)
      → 2 ≤ capacity
      → Simulates capacity (rested (reset r)) (record { items = []; bound = none })
  unfolding reset
  reset-Simulates r two = record {
    holds = record {
      tail_below = omega arith;
      head_below = omega arith;
      below = omega arith;
      reaches = ground arith;
      spans = ground arith;
    };
    producing = ground arith;
    consuming = ground arith;
    bounded = ground arith;
  }

-- From a reset ring, whatever the order in which the loads, stores and copies of one producer and one
-- consumer come, their calls return what a first-in first-out queue of one value less than the
-- capacity returns: a push fails only on a full queue, a pop only on an empty one, the values come
-- out in the order they went in, each once and unharmed, and a drain up to a snapshot takes exactly
-- the values that were in the queue then.
pub reset-run_refines :
    {T : Type 0} (capacity : ℕ) (r : SpscRing T) (shown : List (Action T)) (t : System T)
    → 2 ≤ capacity
    → Run capacity (rested (reset r)) shown t
    → (q : Fifo T) × Served capacity (record { items = []; bound = none }) shown q
reset-run_refines capacity r shown t two run =
    let f = run-Served capacity shown _ t _ (reset-Simulates capacity r two) run in (f.0, f.1)
