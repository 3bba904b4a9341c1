-- ===== src/Tests/Interleavings.antt =====
-- Runs of the goroutines of a server with one worker.
use redi_go.Prelude.{Bytes, codes, ℕ, [], ◌∷◌, List, ◌≡◌, refl, arith, false, true, In, beq}
use redi_go.Go.Result.{panic}
use redi_go.Resp.Command.{Command}
use redi_go.HashTable.Dict.{create_dict}
use redi_go.Core.Worker.{execute}
use redi_go.Server.{Server, new_server, worker_id, draw}
use redi_go.Server.Concurrent.{
  Task, ready, waiting, workers_stopped, Machine, start, enqueue, send, execute_and_response,
  receive, put, Event, sent, executed, received, stop_moved, canceling, closing, joining, send_task,
  run_task, receive_reply, call_stop, cancel, close, join, stop_ends, return_canceled, stop_step,
  Steps, here, next,
}
use redi_go.Server.Concurrent.Sequential.{Dispatched, Calls, Steps-linearizable}
use redi_go.Server.Concurrent.Replies.{waiting-executed}
use redi_go.Server.Concurrent.Shutdown.{returned_never_answers, send-workers_stopped}
use redi_go.Server.Concurrent.Stopping.{EndsWithin, called-workers_stopped}
use redi_go.Tests.Servers.{env, pred}

abbrev one : Server
one = new_server 2

abbrev ping : Command
ping = record { cmd = codes "PING"; args = [] }

abbrev task : ℕ → Task
task h = record { handler = h; command = ping }

abbrev one_sent : Machine
one_sent = enqueue (start one) 5 0 ping

abbrev both_sent : Machine
both_sent = enqueue one_sent 6 0 ping

-- Two handlers send a command each.
sent_both : Steps (start one) (sent 0 5 ping ∷ sent 0 6 ping ∷ []) both_sent
unfolding new_server start worker_id draw enqueue
sent_both =
    next (send_task 5 0 ping pred refl refl (omega arith) (omega arith) refl)
      (next (send_task 6 0 ping pred refl refl (omega arith) (omega arith) refl) here)

abbrev run_first : Machine × Bytes
run_first = execute_and_response env both_sent 0 create_dict (task 5) (task 6 ∷ [])

abbrev run_second : Machine × Bytes
run_second = execute_and_response env run_first.0 0 create_dict (task 6) []

-- The worker runs both.
run_both :
    Steps both_sent
      (executed 0 5 ping run_first.1 ∷ executed 0 6 ping run_second.1 ∷ [])
      run_second.0
unfolding new_server start enqueue execute_and_response execute beq
run_both =
    next (run_task 0 env create_dict (task 5) (task 6 ∷ []) refl refl refl)
      (next (run_task 0 env create_dict (task 6) [] refl refl refl) here)

waiting-executed_example :
    (res : Bytes) × In
      (executed 0 6 ping res)
      (executed 0 5 ping run_first.1 ∷ executed 0 6 ping run_second.1 ∷ [])
waiting-executed_example =
    waiting-executed one 6 0 ping sent_both (unfold enqueue in refl) run_both
      (unfold enqueue start in omega arith)

-- One handler from its command to its reply.
abbrev ran : Machine × Bytes
ran = execute_and_response env one_sent 0 create_dict (task 5) []

abbrev whole_call : List Event
whole_call = sent 0 5 ping ∷ executed 0 5 ping ran.1 ∷ received 5 ping ran.1 ∷ []

call_of_five : Steps (start one) whole_call (receive ran.0 5)
unfolding new_server start worker_id draw enqueue execute_and_response
call_of_five = next (send_task 5 0 ping pred refl refl (omega arith) (omega arith) refl) (
    next (run_task 0 env create_dict (task 5) [] refl refl refl)
      (next (receive_reply 5 ping ran.1 refl) here))

Steps-linearizable_example :
    Dispatched one whole_call (receive ran.0 5).server
    × Calls 5 ready whole_call ((receive ran.0 5).phase 5)
Steps-linearizable_example = Steps-linearizable one 5 call_of_five

-- `Stop` while a handler waits: the worker returns with the task in its channel.
abbrev after_cancel : Machine
after_cancel = record (record one_sent { stop = canceling 0 }) {
  canceled = put (λ id. false) 0 true;
  stop = closing 0;
}

abbrev after_close : Machine
after_close = record after_cancel { closed = put (λ id. false) 0 true; stop = joining 0 }

abbrev after_return : Machine
after_return = record after_close { returned = put (λ id. false) 0 true }

abbrev after_join : Machine
after_join = record after_return { stop = canceling 1 }

abbrev after_stop : Machine
after_stop = record after_join { stop = workers_stopped }

until_return :
    Steps
      (start one)
      (sent 0 5 ping ∷ stop_moved ∷ stop_moved ∷ stop_moved ∷ stop_moved ∷ [])
      after_return
unfolding new_server start worker_id draw enqueue
until_return = next (send_task 5 0 ping pred refl refl (omega arith) (omega arith) refl) (
    next (stop_step (call_stop refl)) (
      next (stop_step (cancel 0 refl (omega arith)))
        (next (stop_step (close 0 refl)) (next (stop_step (return_canceled 0 refl refl)) here))))

until_stop : Steps after_return (stop_moved ∷ stop_moved ∷ []) after_stop
unfolding new_server start enqueue
until_stop = next (stop_step (join 0 refl refl)) (next (stop_step (stop_ends refl)) here)

returned_never_answers_example : after_stop.phase 5 ≡ waiting 0 ping
returned_never_answers_example =
    returned_never_answers one 5 0 ping until_return refl (unfold enqueue in refl) until_stop

stop_run :
    Steps
      (start one)
      (sent 0 5 ping
        ∷ stop_moved
        ∷ stop_moved
        ∷ stop_moved
        ∷ stop_moved
        ∷ stop_moved
        ∷ stop_moved
        ∷ [])
      after_stop
unfolding new_server start worker_id draw enqueue
stop_run = next (send_task 5 0 ping pred refl refl (omega arith) (omega arith) refl) (
    next (stop_step (call_stop refl)) (
      next (stop_step (cancel 0 refl (omega arith))) (
        next (stop_step (close 0 refl))
          (next (stop_step (return_canceled 0 refl refl)) until_stop))))

send-workers_stopped_example : send after_stop 7 0 ping ≡ panic
send-workers_stopped_example =
    send-workers_stopped one 7 0 ping stop_run refl (unfold enqueue start new_server in omega arith)

called-workers_stopped_example : EndsWithin 5 after_return
unfolding enqueue start new_server
called-workers_stopped_example = called-workers_stopped one until_return (λ e. cc)
