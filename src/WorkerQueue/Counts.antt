-- ===== src/WorkerQueue/Counts.antt =====
-- On the bound and the count of a queue of backend/app/workers over any run.
use issue_pilot.Prelude.{
  ℕ, ◌+◌, ◌≤◌, ◌≡◌, refl, ◌⊎◌, inr, Option, none, some, List, [], ◌∷◌, Bool, false, arith, length,
  length-append,
}
use issue_pilot.WorkerQueue.{
  Queue, Event, Outcome, Worker, enqueue, start, stop, join_return, put_sentinel, put_nowait,
  forget_worker, take_item, receive, handle_failure, task_done, end_call, end_handler, is_full,
  step, run, new,
}

module _ {ℓ} {A : Type ℓ} where
  -- The calls under way.
  abbrev pub in_hand : Worker A → ℕ
  in_hand (Worker.busy _) = 1
  in_hand (Worker.handling _) = 1
  in_hand _ = 0

module _ {ℓ κ} {A : Type ℓ} {E : Type κ} where
  pub record IsValid (q : Queue A E) : Type 0 where
    pub counted : q.unfinished ≡ length q.pending + in_hand q.worker
    pub bounded : (q.capacity ≡ 0) ⊎ (length q.pending ≤ q.capacity)

  put_nowait-IsValid :
      (item : Option A) (q : Queue A E)
      → IsValid q
      → is_full q ≡ false
      → IsValid (put_nowait item q)
  unfolding put_nowait is_full
  put_nowait-IsValid item q v room = record {
    counted = ground (arith, v.counted, length-append q.pending (item ∷ []));
    bounded = ground (arith, v.bounded, length-append q.pending (item ∷ []));
  }

  enqueue-IsValid : (item : A) (q : Queue A E) → IsValid q → IsValid (enqueue item q).1
  unfolding enqueue
  enqueue-IsValid item q v = ground (arith, v, put_nowait-IsValid (some item) q v)

  start-IsValid : (q : Queue A E) → IsValid q → IsValid (start q)
  unfolding start
  start-IsValid q v = record {
    counted = ground (arith, v.counted);
    bounded = ground (arith, v.bounded);
  }

  stop-IsValid : (q : Queue A E) → IsValid q → IsValid (stop q)
  unfolding stop
  stop-IsValid q v = record {
    counted = ground (arith, v.counted);
    bounded = ground (arith, v.bounded);
  }

  receive-IsValid : (q : Queue A E) → IsValid q → IsValid (receive q)
  unfolding receive take_item
  receive-IsValid q v = record {
    counted = ground (arith, v.counted);
    bounded = ground (arith, v.bounded);
  }

  end_call-IsValid :
      (outcome : Outcome E) (q : Queue A E) → IsValid q → IsValid (end_call outcome q)
  unfolding end_call handle_failure task_done
  end_call-IsValid outcome q v = record {
    counted = ground (arith, v.counted);
    bounded = ground (arith, v.bounded);
  }

  end_handler-IsValid : (q : Queue A E) → IsValid q → IsValid (end_handler q)
  unfolding end_handler task_done
  end_handler-IsValid q v = record {
    counted = ground (arith, v.counted);
    bounded = ground (arith, v.bounded);
  }

  join_return-IsValid : (q : Queue A E) → IsValid q → IsValid (join_return q)
  unfolding join_return
  join_return-IsValid q v = record {
    counted = ground (arith, v.counted);
    bounded = ground (arith, v.bounded);
  }

  put_sentinel-IsValid : (q : Queue A E) → IsValid q → IsValid (put_sentinel q)
  unfolding put_sentinel put_nowait is_full
  put_sentinel-IsValid q v = record {
    counted = ground (arith, v.counted, length-append q.pending (none ∷ []));
    bounded = ground (arith, v.bounded, length-append q.pending (none ∷ []));
  }

  forget_worker-IsValid : (q : Queue A E) → IsValid q → IsValid (forget_worker q)
  unfolding forget_worker
  forget_worker-IsValid q v = record {
    counted = ground (arith, v.counted);
    bounded = ground (arith, v.bounded);
  }

  pub step-IsValid : (event : Event A E) (q : Queue A E) → IsValid q → IsValid (step event q)
  unfolding step
  step-IsValid Event.start_called q = start-IsValid q
  step-IsValid Event.stop_called q = stop-IsValid q
  step-IsValid Event.join_returned q = join_return-IsValid q
  step-IsValid Event.sentinel_put q = put_sentinel-IsValid q
  step-IsValid Event.item_received q = receive-IsValid q
  step-IsValid Event.handler_ended q = end_handler-IsValid q
  step-IsValid Event.worker_awaited q = forget_worker-IsValid q
  step-IsValid (Event.submitted item) q = enqueue-IsValid item q
  step-IsValid (Event.call_ended outcome) q = end_call-IsValid outcome q

  pub run-IsValid : (events : List (Event A E)) (q : Queue A E) → IsValid q → IsValid (run events q)
  unfolding run
  run-IsValid [] q v = v
  run-IsValid (event ∷ events) q v = run-IsValid events (step event q) (step-IsValid event q v)

  new-IsValid :
      (capacity : ℕ) (enabled handler : Bool)
      → IsValid (new {A = A} {E = E} capacity enabled handler)
  unfolding new
  new-IsValid capacity enabled handler = record { counted = refl; bounded = inr (omega arith) }

  -- In every run from a new queue, at most `capacity` entries wait, unless the capacity is 0, and
  -- the count of unfinished tasks, which `join` waits for, is the number of the entries that wait
  -- and of the call under way.
  pub run-new-IsValid :
      (events : List (Event A E)) (capacity : ℕ) (enabled handler : Bool)
      → IsValid (run events (new capacity enabled handler))
  run-new-IsValid events capacity enabled handler =
      run-IsValid events (new capacity enabled handler) (new-IsValid capacity enabled handler)
