-- ===== src/WorkerQueue/Examples.antt =====
-- The theorems on the workers' queues at a queue of two places, whose items and exceptions are
-- numbers.
use issue_pilot.Prelude.{ℕ, ◌≡◌, refl, none, some, List, [], ◌∷◌, ◌++◌, true, false}
use issue_pilot.WorkerQueue.{
  ImplementationWorkItem, Queue, Event, Outcome, Worker, Stop, new, run, step, start, enqueue,
  is_full, put_nowait, receive, take_item, end_call, handle_failure, enqueue_work,
}
use issue_pilot.WorkerQueue.Counts.{IsValid, run-new-IsValid}
use issue_pilot.WorkerQueue.Fifo.{items, accepted_items, gain, run-new_fifo}
use issue_pilot.WorkerQueue.Drain.{turns, finale, backlog, processed, run-stop_drains}

-- Three submissions to a queue of two places, and a call that raises.
abbrev events : List (Event ℕ ℕ)
events =
    Event.start_called
    ∷ Event.submitted 7
    ∷ Event.submitted 8
    ∷ Event.submitted 9
    ∷ Event.item_received
    ∷ Event.call_ended (Outcome.raised 1)
    ∷ []

abbrev empty : Queue ℕ ℕ
empty = new 2 true true

run_events : (run events empty).pending ≡ some 8 ∷ []
unfolding run step new start enqueue is_full put_nowait receive take_item end_call handle_failure
run_events = refl

run-new-IsValid_example : IsValid (run events (new 2 true true))
run-new-IsValid_example = run-new-IsValid events 2 true true

run-new_fifo_example :
    (run events (new 2 true true)).called ++ items (run events (new 2 true true)).pending
    ≡ accepted_items events (new 2 true true)
run-new_fifo_example = run-new_fifo events 2 true true

accepted_in_order : accepted_items events (new 2 true true) ≡ 7 ∷ 8 ∷ []
unfolding accepted_items gain run step new start enqueue is_full put_nowait receive take_item
    end_call handle_failure
accepted_in_order = refl

abbrev two : List ℕ
two = 7 ∷ 8 ∷ []

abbrev outcomes : List (Outcome ℕ)
outcomes = Outcome.raised 1 ∷ Outcome.returned ∷ []

no_stop : (new {A = ℕ} {E = ℕ} 2 true true).stopping ≡ Stop.no_stop
unfolding new
no_stop = refl

run-stop_drains_example :
    run (Event.stop_called ∷ turns outcomes ++ finale) (backlog two empty)
    ≡ record (processed two outcomes empty) {
      pending = [];
      unfinished = 0;
      worker = Worker.absent;
      stopping = Stop.no_stop;
    }
run-stop_drains_example = run-stop_drains two outcomes empty refl no_stop

enqueue_work_unknown : enqueue_work "patch" 3 ≡ none
unfolding enqueue_work
enqueue_work_unknown = refl

abbrev opened : Queue ImplementationWorkItem ℕ
opened = new 2 true false
