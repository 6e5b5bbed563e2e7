-- ===== src/Characterization/SpscRing/Examples.antt =====
-- A push of 7 that a pop overtakes, a push of 8 to the full ring, and a drain up to a snapshot.
use avi_99l_mission_board.Base.{ℕ, ◌≤◌, refl, none, some, List, [], ◌∷◌, arith}
use avi_99l_mission_board.Characterization.SpscRing.{
  SpscRing, put, increment, System, Action, silent, pushed, push_failed, popped, pop_failed,
  snapped, until_done, load_head, see_full, see_room, store_value, publish, load_tail, see_empty,
  snapshot, load_tail_until, see_bound, see_before_bound, read_value, release, produces, consumes,
  Run, rested, reset, resting, waiting,
}
use avi_99l_mission_board.Characterization.SpscRing.Fifo.{Fifo, Served}
use avi_99l_mission_board.Characterization.SpscRing.Refine.{reset-run_refines}

abbrev fresh : SpscRing ℕ
fresh = record { storage = λ _. 0; head = 0; tail = 1 }

abbrev shown : List (Action ℕ)
shown =
    silent
    ∷ silent
    ∷ silent
    ∷ silent
    ∷ pop_failed
    ∷ pushed 7
    ∷ snapped
    ∷ silent
    ∷ silent
    ∷ push_failed 8
    ∷ silent
    ∷ silent
    ∷ popped 7
    ∷ silent
    ∷ until_done
    ∷ []

abbrev last : System ℕ
last = record {
  ring = record { storage = put 0 7 (λ _. 0); head = 1; tail = 1 };
  producer = resting;
  consumer = waiting;
  cursor = some 1;
}

two_tasks : Run 2 (rested (reset fresh)) shown last
unfolding reset increment
two_tasks = Run.next (produces (load_head 7 refl)) (
    Run.next (consumes (load_tail refl)) (
      Run.next (produces (see_room 7 0 refl (ground arith))) (
        Run.next (produces (store_value 7 0 refl)) (
          Run.next (consumes (see_empty 0 refl refl)) (
            Run.next (produces (publish 7 0 refl)) (
              Run.next (consumes (snapshot refl)) (
                Run.next (consumes (load_tail_until 1 refl refl)) (
                  Run.next (produces (load_head 8 refl)) (
                    Run.next (produces (see_full 8 1 refl refl)) (
                      Run.next (consumes (see_before_bound 0 1 refl refl (ground arith))) (
                        Run.next (consumes (read_value 0 refl)) (
                          Run.next (consumes (release 0 7 refl)) (
                            Run.next (consumes (load_tail_until 1 refl refl)) (
                              Run.next (consumes (see_bound 1 1 refl refl refl))
                                Run.stop))))))))))))))

two_slots : 2 ≤ 2
two_slots = omega arith

reset-run_refines_example : (q : Fifo ℕ) × Served 2 (record { items = []; bound = none }) shown q
reset-run_refines_example = reset-run_refines 2 fresh shown last two_slots two_tasks
