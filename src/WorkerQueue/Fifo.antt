-- ===== src/WorkerQueue/Fifo.antt =====
-- On the order in which a queue of backend/app/workers calls its processor, over any run.
use issue_pilot.Prelude.{
  ℕ, ◌≡◌, refl, sym, ap, ◌∙◌, Option, none, some, List, [], ◌∷◌, ◌++◌, Bool, arith,
}
use mathlib.Core.List.{append_assoc, append-nil}
use issue_pilot.WorkerQueue.{
  Queue, Event, Submission, enqueue, start, stop, join_return, put_sentinel, put_nowait,
  forget_worker, take_item, receive, handle_failure, task_done, end_call, end_handler, step, run,
  new,
}

module _ {ℓ} {A : Type ℓ} where
  -- The items among what an asyncio.Queue holds.
  pub items : List (Option A) → List A
  items [] = []
  items (none ∷ rest) = items rest
  items (some item ∷ rest) = item ∷ items rest

  pub items-append : (xs ys : List (Option A)) → items (xs ++ ys) ≡ items xs ++ items ys
  unfolding items
  items-append [] ys = refl
  items-append (none ∷ xs) ys = items-append xs ys
  items-append (some x ∷ xs) ys = ap (λ zs. x ∷ zs) (items-append xs ys)

module _ {ℓ κ} {A : Type ℓ} {E : Type κ} where
  -- The item that a call of the public methods adds, which is one that returns True.
  unfoldable pub gain : Event A E → Queue A E → List A
  gain (Event.submitted item) q = elim (enqueue item q).0 [
    | Submission.accepted ↦ item ∷ []
    | _ ↦ []
  ]
  gain _ q = []

  -- The accepted items of a run, oldest first.
  unfoldable pub accepted_items : List (Event A E) → Queue A E → List A
  accepted_items [] q = []
  accepted_items (event ∷ events) q = gain event q ++ accepted_items events (step event q)

  -- What the queue has been given, as far as its state tells.
  pub known : Queue A E → List A
  known q = q.called ++ items q.pending

  known-take_item :
      (pending : List (Option A)) (q : Queue A E)
      → q.pending ≡ pending
      → known (take_item pending q) ≡ q.called ++ items pending
  unfolding take_item known items
  known-take_item [] q h = rw h refl
  known-take_item (none ∷ rest) q h = refl
  known-take_item (some item ∷ rest) q h = append_assoc q.called (item ∷ []) (items rest)

  known-step : (event : Event A E) (q : Queue A E) → known (step event q) ≡ known q ++ gain event q
  unfolding step gain known items start stop join_return put_sentinel put_nowait forget_worker
      receive take_item end_call end_handler handle_failure task_done enqueue
  known-step Event.start_called q = ground (arith, append-nil (q.called ++ items q.pending))
  known-step Event.stop_called q = ground (arith, append-nil (q.called ++ items q.pending))
  known-step Event.join_returned q = ground (arith, append-nil (q.called ++ items q.pending))
  known-step Event.sentinel_put q = ground (
    arith,
    append-nil (q.called ++ items q.pending),
    items-append q.pending (none ∷ []),
    append-nil (items q.pending),
  )
  known-step Event.item_received q =
      ground (arith, append-nil (q.called ++ items q.pending), known-take_item q.pending q refl)
  known-step Event.handler_ended q = ground (arith, append-nil (q.called ++ items q.pending))
  known-step Event.worker_awaited q = ground (arith, append-nil (q.called ++ items q.pending))
  known-step (Event.submitted item) q = ground (
    arith,
    append-nil (q.called ++ items q.pending),
    items-append q.pending (some item ∷ []),
    append_assoc q.called (items q.pending) (item ∷ []),
  )
  known-step (Event.call_ended outcome) q = ground (arith, append-nil (q.called ++ items q.pending))

  pub known-run :
      (events : List (Event A E)) (q : Queue A E)
      → known (run events q) ≡ known q ++ accepted_items events q
  unfolding run accepted_items
  known-run [] q = sym (append-nil (known q))
  known-run (event ∷ events) q =
      known-run events (step event q)
      ∙ ap (λ xs. xs ++ accepted_items events (step event q)) (known-step event q)
      ∙ append_assoc (known q) (gain event q) (accepted_items events (step event q))

  -- In every run from a new queue the processor has been called with the accepted items in the
  -- order of their submission, each once, up to those that wait, which follow in the same order,
  -- whatever the calls return or raise.
  pub run-new_fifo :
      (events : List (Event A E)) (capacity : ℕ) (enabled handler : Bool)
      → (run events (new capacity enabled handler)).called
          ++ items (run events (new capacity enabled handler)).pending
        ≡ accepted_items events (new capacity enabled handler)
  unfolding known items new
  run-new_fifo events capacity enabled handler = known-run events (new capacity enabled handler)
