-- ===== src/WorkerQueue/Drain.antt =====
-- On how a worker of backend/app/workers works off what waits, and how `stop` ends it.
use issue_pilot.Prelude.{
  ℕ, suc, ◌-◌, ◌≡◌, refl, sym, ap, ◌∙◌, some, List, [], ◌∷◌, ◌++◌, map, Bool, true, false, arith,
  leb, ◌==◌, not, ◌&&◌, if◌then◌else◌, length,
}
use mathlib.Core.List.{append_assoc, append-nil}
use issue_pilot.WorkerQueue.{
  Queue, Event, Outcome, Worker, Stop, stop, join_return, put_sentinel, put_nowait, forget_worker,
  take_item, receive, handle_failure, task_done, end_call, end_handler, is_full, step, run,
}

suc-sub_one : (n : ℕ) → suc n - 1 ≡ n
suc-sub_one n = omega arith

room : (capacity : ℕ) → (not (capacity == 0) && leb capacity 0) ≡ false
room capacity = ground arith

module _ {ℓ κ} {A : Type ℓ} {E : Type κ} where
  -- The items whose calls raised, with what they raised.
  pub failures : List A → List (Outcome E) → List (A × E)
  failures (item ∷ rest) (Outcome.returned ∷ outcomes) = failures rest outcomes
  failures (item ∷ rest) (Outcome.raised error ∷ outcomes) = (item, error) ∷ failures rest outcomes
  failures _ _ = []

  -- A turn of the loop of `_consume` for each outcome.
  pub turns : List (Outcome E) → List (Event A E)
  turns [] = []
  turns (outcome ∷ outcomes) =
      Event.item_received ∷ Event.call_ended outcome ∷ Event.handler_ended ∷ turns outcomes

  -- The queue of an idle worker with these items waiting.
  pub backlog : List A → Queue A E → Queue A E
  backlog items q = record q {
    pending = map some items;
    unfinished = length items;
    worker = Worker.waiting;
  }

  -- The queue after these items were processed with these outcomes.
  pub processed : List A → List (Outcome E) → Queue A E → Queue A E
  processed items outcomes q = record q {
    called = q.called ++ items;
    reported = q.reported ++ (if q.has_failure_handler then failures items outcomes else []);
  }

  -- A state between two turns, by the parts that the turns change.
  abbrev at_turn : List A → ℕ → List A → List (A × E) → Queue A E → Queue A E
  at_turn items unfinished called reported q = record (backlog items q) {
    unfinished = unfinished;
    called = called;
    reported = reported;
  }

  report-if :
      (b : Bool) (xs ys : List (A × E))
      → (if b then xs ++ ys else xs) ≡ xs ++ (if b then ys else [])
  report-if true xs ys = refl
  report-if false xs ys = sym (append-nil xs)

  report-none : (b : Bool) (xs : List (A × E)) → xs ≡ xs ++ (if b then [] else [])
  report-none true xs = sym (append-nil xs)
  report-none false xs = sym (append-nil xs)

  end_handler-if :
      (b : Bool) (item : A) (reported : List (A × E)) (q : Queue A E)
      → end_handler (
          if b
          then record q { worker = Worker.handling item; reported = reported }
          else task_done q)
        ≡ record (task_done q) { reported = if b then reported else q.reported }
  unfolding end_handler task_done
  end_handler-if true item reported q = refl
  end_handler-if false item reported q = refl

  report-append :
      (b : Bool) (xs ys zs : List (A × E))
      → (xs ++ (if b then ys else [])) ++ (if b then zs else [])
        ≡ xs ++ (if b then ys ++ zs else [])
  report-append true xs ys zs = append_assoc xs ys zs
  report-append false xs ys zs = append_assoc xs [] []

  turn :
      (item : A) (rest : List A) (outcome : Outcome E) (q : Queue A E)
      → run (turns (outcome ∷ [])) (backlog (item ∷ rest) q)
        ≡ backlog rest (processed (item ∷ []) (outcome ∷ []) q)
  unfolding run step turns backlog processed failures receive take_item end_call end_handler
      handle_failure task_done
  turn item rest Outcome.returned q =
      ap (λ n. at_turn rest n (q.called ++ item ∷ []) q.reported q) (suc-sub_one (length rest))
      ∙ ap (λ r. at_turn rest (length rest) (q.called ++ item ∷ []) r q)
          (report-none q.has_failure_handler q.reported)
  turn item rest (Outcome.raised error) q =
      end_handler-if q.has_failure_handler item (q.reported ++ (item, error) ∷ [])
        (record (backlog rest q) {
          unfinished = suc (length rest);
          worker = Worker.busy item;
          called = q.called ++ item ∷ [];
        })
      ∙ ap
          (λ n.
            at_turn rest n (q.called ++ item ∷ [])
              (if q.has_failure_handler then q.reported ++ (item, error) ∷ [] else q.reported) q)
          (suc-sub_one (length rest))
      ∙ ap (λ r. at_turn rest (length rest) (q.called ++ item ∷ []) r q)
          (report-if q.has_failure_handler q.reported ((item, error) ∷ []))

  failures-cons :
      (item : A) (rest : List A) (outcome : Outcome E) (outcomes : List (Outcome E))
      → failures (item ∷ []) (outcome ∷ []) ++ failures rest outcomes
        ≡ failures (item ∷ rest) (outcome ∷ outcomes)
  unfolding failures
  failures-cons item rest Outcome.returned outcomes = refl
  failures-cons item rest (Outcome.raised error) outcomes = refl

  processed-append :
      (item : A) (rest : List A) (outcome : Outcome E) (outcomes : List (Outcome E)) (q : Queue A E)
      → processed rest outcomes (processed (item ∷ []) (outcome ∷ []) q)
        ≡ processed (item ∷ rest) (outcome ∷ outcomes) q
  unfolding processed
  processed-append item rest outcome outcomes q =
      ap
        (λ c. record q {
          called = c;
          reported = (processed rest outcomes (processed (item ∷ []) (outcome ∷ []) q)).reported;
        })
        (append_assoc q.called (item ∷ []) rest)
      ∙ ap (λ r. record q { called = q.called ++ item ∷ rest; reported = r })
          (report-append q.has_failure_handler q.reported (failures (item ∷ []) (outcome ∷ []))
              (failures rest outcomes)
            ∙ ap (λ f. q.reported ++ (if q.has_failure_handler then f else []))
                (failures-cons item rest outcome outcomes))

  processed-nil : (q : Queue A E) → q ≡ processed [] [] q
  unfolding processed failures
  processed-nil q =
      ap (λ c. record q { called = c }) (sym (append-nil q.called))
      ∙ ap (λ r. record q { called = q.called ++ []; reported = r })
          (report-none q.has_failure_handler q.reported)

  run-turns_cons :
      (outcome : Outcome E) (outcomes : List (Outcome E)) (q : Queue A E)
      → run (turns (outcome ∷ outcomes)) q ≡ run (turns outcomes) (run (turns (outcome ∷ [])) q)
  unfolding run turns
  run-turns_cons outcome outcomes q = refl

  run-nil : (q : Queue A E) → run (turns []) q ≡ q
  unfolding run turns
  run-nil q = refl

  -- From an idle worker, a turn of the loop for each of the items that wait calls the processor
  -- with all of them, in order, and leaves nothing waiting or unfinished, whichever of the calls
  -- raise. The failure handler, if there is one, has then had the items that raised, in order,
  -- each with its exception.
  pub run-turns :
      (items : List A) (outcomes : List (Outcome E)) (q : Queue A E)
      → length outcomes ≡ length items
      → run (turns outcomes) (backlog items q) ≡ backlog [] (processed items outcomes q)
  run-turns [] [] q same = run-nil (backlog [] q) ∙ ap (λ p. backlog [] p) (processed-nil q)
  run-turns [] (outcome ∷ outcomes) q same = ground (arith, same)
  run-turns (item ∷ rest) [] q same = ground (arith, same)
  run-turns (item ∷ rest) (outcome ∷ outcomes) q same =
      run-turns_cons outcome outcomes (backlog (item ∷ rest) q)
      ∙ ap (λ p. run (turns outcomes) p) (turn item rest outcome q)
      ∙ run-turns rest outcomes (processed (item ∷ []) (outcome ∷ []) q) (omega (arith, same))
      ∙ ap (λ p. backlog [] p) (processed-append item rest outcome outcomes q)

  -- What `stop` and the worker do once everything is processed.
  pub finale : List (Event A E)
  finale =
      Event.join_returned ∷ Event.sentinel_put ∷ Event.item_received ∷ Event.worker_awaited ∷ []

  run-append : (xs ys : List (Event A E)) (q : Queue A E) → run (xs ++ ys) q ≡ run ys (run xs q)
  unfolding run
  run-append [] ys q = refl
  run-append (x ∷ xs) ys q = run-append xs ys (step x q)

  stop-backlog :
      (items : List A) (q : Queue A E)
      → q.stopping ≡ Stop.no_stop
      → stop (backlog items q) ≡ backlog items (record q { stopping = Stop.joining })
  unfolding stop backlog
  stop-backlog items q h = rw h refl

  run-finale :
      (q : Queue A E)
      → run finale (backlog [] (record q { stopping = Stop.joining }))
        ≡ record q { pending = []; unfinished = 0; worker = Worker.absent; stopping = Stop.no_stop }
  unfolding run finale step backlog join_return put_sentinel is_full put_nowait receive take_item
      forget_worker
  run-finale q = rw (room q.capacity) refl

  processed-stopping :
      (items : List A) (outcomes : List (Outcome E)) (s : Stop) (q : Queue A E)
      → processed items outcomes (record q { stopping = s })
        ≡ record (processed items outcomes q) { stopping = s }
  unfolding processed
  processed-stopping items outcomes s q = refl

  run-stop :
      (events : List (Event A E)) (q : Queue A E)
      → run (Event.stop_called ∷ events) q ≡ run events (stop q)
  unfolding run step
  run-stop events q = refl

  -- A call of `stop` on an idle worker without another call under way lets it process everything
  -- that waits, in order and whatever the calls return or raise, and then ends it: nothing is left
  -- waiting or unfinished, and the queue can be started again.
  pub run-stop_drains :
      (items : List A) (outcomes : List (Outcome E)) (q : Queue A E)
      → length outcomes ≡ length items
      → q.stopping ≡ Stop.no_stop
      → run (Event.stop_called ∷ turns outcomes ++ finale) (backlog items q)
        ≡ record (processed items outcomes q) {
          pending = [];
          unfinished = 0;
          worker = Worker.absent;
          stopping = Stop.no_stop;
        }
  run-stop_drains items outcomes q same h =
      let started = record q { stopping = Stop.joining } in
      run-stop (turns outcomes ++ finale) (backlog items q)
      ∙ ap (run (turns outcomes ++ finale)) (stop-backlog items q h)
      ∙ run-append (turns outcomes) finale (backlog items started)
      ∙ ap (run finale) (run-turns items outcomes started same)
      ∙ ap (λ p. run finale (backlog [] p)) (processed-stopping items outcomes Stop.joining q)
      ∙ run-finale (processed items outcomes q)
