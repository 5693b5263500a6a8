-- ===== src/Service/Tests.antt =====
-- The workers at concrete inputs.
use comp_p.Common.{
  Bool, ◌≤◌, ◌⊎◌, length, ℕ, ◌+◌, ◌≡◌, refl, true, false, [], ◌∷◌, ◌++◌, none, some, Bytes, codes,
  str_eq, List, arith,
}
use comp_p.ServerCommon.{ClientState, Request, zero_client, max_pending_responses, u64_mod}
use comp_p.Handles.{HandleStore}
use comp_p.Threadpool.{Threadpool}
use comp_p.Threadpool.Queues.{
  threadpool_create, threadpool_register_client, threadpool_submit, find_client_queue, append_queue,
  new_queue, request_of, enqueue, put_queue, dequeue_fair_request, visit, rotation, ring, cycle,
  from, before, pop_request, is_nil, head_client, next_after, worker_turn, work,
}
use comp_p.Threadpool.Requests.{accepted_by, tally, queued}
use comp_p.Rpc.Ffmpeg.{exited}
use comp_p.Rpc.{Environment, answered}
use comp_p.Rpc.Text.{response_code, rpc_value}
use comp_p.Rpc.Tokens.{line_of, tokenize-line_of}
use comp_p.CString.{is_delim}
use comp_p.Threadpool.Response.{Write, wrote}
use comp_p.Service.Ordered.{IsNew, ReadsInOrder, responses_in_order}
use comp_p.Rpc.Request.{command, rpc_handle_request}
use comp_p.Service.{
  Service, fresh, replying, put, world_of, with_world, worker_response, deliver, job_after,
  world_after,
}
use comp_p.Service.Ledger.{
  Ledger, Step, empty_ledger, start, Reach, begin, later, register, submit, handle, reply,
  take_next,
}
use comp_p.Auth.{auth_load}
use comp_p.Threadpool.Life.{Resources, create_pool, make_threads}
use comp_p.Server.Clients.{got, ended, parse_arguments, thread_count}
use comp_p.Server.Main.{Server, ready, Happening, main_round}
use comp_p.Server.Start.{serves, with_pool, server_start}
use comp_p.Server.Boot.{first_server}
use comp_p.Service.Sweep.{fresh_client}
use comp_p.Service.System.{service_of, boot, round, system_reached}
use comp_p.Service.Conserve.{Conserved, held, requests_of, requests_conserved}

abbrev store : HandleStore
store = record { next_id = 1; canvases = []; sprites = []; placements = [] }

abbrev new_clients : ℕ → ClientState
new_clients pid = record zero_client { client_pid = pid; fifo_s2c_fd = some 4 }

abbrev a_line : Bytes
a_line = line_of (codes "barrier") (codes "1" ∷ [])

abbrev first_request : Request
first_request = record { client = 7; request_seq_num = 0; rpc_line = a_line }

abbrev registered : Service
registered = record (start none store new_clients) {
  pool = (threadpool_register_client true threadpool_create 7).1;
}

abbrev submitted : Service
submitted = record registered {
  pool = (threadpool_submit true true registered.pool (new_clients 7) a_line).1;
  clients =
      put 7 (threadpool_submit true true registered.pool (new_clients 7) a_line).2 new_clients;
}

abbrev one_accepted : Ledger
one_accepted = record empty_ledger {
  accepted =
      accepted_by (threadpool_submit true true registered.pool (new_clients 7) a_line).0
        (request_of (new_clients 7) a_line)
      ++ [];
}

abbrev taken_pool : Threadpool
taken_pool = (dequeue_fair_request submitted.pool).1

abbrev in_work : Service
in_work = record submitted { pool = taken_pool; jobs = fresh first_request ∷ [] }

turn_lem : worker_turn submitted.pool ≡ work (some first_request) taken_pool
unfolding worker_turn dequeue_fair_request threadpool_create threadpool_register_client
    threadpool_submit find_client_queue append_queue new_queue request_of enqueue put_queue visit
    rotation ring cycle from before pop_request is_nil head_client next_after
turn_lem = refl

abbrev at_work : Reach none store new_clients one_accepted in_work
at_work =
    later (later (later begin (register true 7)) (submit true true 7 a_line))
      (take_next first_request taken_pool turn_lem)

accepted_lem : one_accepted.accepted ≡ first_request ∷ []
unfolding threadpool_create threadpool_register_client threadpool_submit find_client_queue
    append_queue new_queue request_of accepted_by
accepted_lem = refl

requests_conserved_example :
    tally (λ r. true) one_accepted.accepted
    ≡ queued (λ r. true) in_work.pool.clients
      + tally (λ r. true) (held in_work.jobs)
      + tally (λ r. true) (requests_of one_accepted.finished)
      + tally (λ r. true) one_accepted.dropped
unfolding accepted_by threadpool_submit
requests_conserved_example = requests_conserved at_work (rw accepted_lem (omega arith)) (λ r. true)

abbrev quiet : Environment
quiet = record {
  animate_create_canvas = λ h w c. 70;
  animate_create_sprite = λ file. 80;
  animate_create_rectangle = λ w h c f. 81;
  animate_create_circle = λ r c f. 82;
  animate_place_sprite = λ c s x y. 90;
  animate_destroy_sprite = λ s. false;
  line_ok = true;
  record_ok = true;
  user_ok = true;
  time = 1000;
  buffers_ok = true;
  dat_opens = true;
  frame_writes = λ n. true;
  dat_closes = true;
  log_opens = true;
  fork_ok = true;
  waits = exited 0 ∷ [];
  others = λ n s. s;
}

-- The client has not logged in.
abbrev refusal : Bytes
refusal = response_code rpc_value

refused_lem :
    rpc_handle_request quiet (world_of in_work 7) a_line ≡ answered refusal (world_of in_work 7)
unfolding rpc_handle_request command str_eq put threadpool_submit threadpool_register_client
    find_client_queue threadpool_create append_queue new_queue
refused_lem =
    let tokens =
      tokenize-line_of (codes "barrier") (codes "1" ∷ []) (omega arith)
        (unfold is_delim in ground arith, (unfold is_delim in ground arith, tt)) in
    rw (tokens, rpc_handle_request) refl

abbrev handled : Service
handled = record (with_world 7 (world_of in_work 7) in_work) {
  jobs = replying first_request refusal ∷ [];
}

abbrev whole_write : List Write
whole_write = wrote 8 ∷ []

abbrev replied : Service
replied = record (deliver whole_write first_request (worker_response true true refusal) handled) {
  jobs = [];
}

abbrev one_finished : Ledger
one_finished = record one_accepted {
  finished = record { request = first_request; response = worker_response true true refusal } ∷ [];
}

handled_step : Step one_accepted in_work one_accepted handled
unfolding job_after world_after
handled_step =
    handle quiet first_request (answered refusal (world_of in_work 7)) [] [] refl refused_lem

abbrev at_reply : Reach none store new_clients one_finished replied
at_reply =
    later (later at_work handled_step)
      (reply true true whole_write first_request refusal [] [] refl)

new_clients-IsNew : (pid : ℕ) → IsNew pid (new_clients pid)
new_clients-IsNew pid = record {
  pid_of = refl;
  none_received = refl;
  none_sent = refl;
  no_pending = λ k. refl;
  connected = refl;
}

responses_in_order_example : ReadsInOrder 7 one_finished replied
unfolding accepted_by threadpool_submit
responses_in_order_example =
    responses_in_order new_clients-IsNew at_reply (rw accepted_lem (omega arith)) 7

abbrev resources : Resources
resources = record {
  pool_ok = true;
  workers_ok = true;
  mutex_ok = true;
  cond_ok = true;
  thread_ok = λ k. true;
}

abbrev first : Server
first = first_server (record { users = [] }) store

start_lem :
    server_start true (λ k. true) none (some store) resources (codes "2" ∷ []) ≡ serves first
unfolding server_start with_pool parse_arguments auth_load create_pool make_threads thread_count
start_lem = refl

-- A client comes, sends a line, and goes.
abbrev busy_round : Happening
busy_round = record {
  opening = record {
    fifos_ok = true;
    ready_ok = true;
    paths_ok = true;
    c2s = some 5;
    s2c = some 6;
    calloc_ok = true;
    mutex_ok = true;
    queue_ok = true;
    time = 1000;
  };
  now = 1000;
  gone = λ pid. false;
  select = ready (λ fd. true);
  reads = λ pid. got (codes "barrier 1" ++ 10 ∷ []) ∷ ended ∷ [];
  allocations = λ pid k. (true, true, true);
}

abbrev after_round : Server
after_round = (main_round busy_round 7 first).0

system_reached_example :
    (l : Ledger) × Reach
      (some (record { users = [] }))
      store
      fresh_client
      l
      (service_of after_round [] (λ pid. []))
    × ((u64_mod ≤ length l.accepted + max_pending_responses + 1)
        ⊎ (((picks : Request → Bool) → Conserved picks l (service_of after_round [] (λ pid. [])))
            × ((pid : ℕ) → ReadsInOrder pid l (service_of after_round [] (λ pid. [])))))
system_reached_example =
    system_reached true (λ k. true) none (some store) resources (codes "2" ∷ []) start_lem
      (round busy_round 7 boot)
