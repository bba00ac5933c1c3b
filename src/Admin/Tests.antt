-- ===== src/Admin/Tests.antt =====
-- Tests of the admin server on a process whose profilers are known.
use game_production.Common.{
  string_key, Bool, true, false, none, some, List, [], ◌∷◌, ◌++◌, ◌==◌, ok, err, Error, failure,
  Exec, ◌≡◌, refl, if◌then◌else◌, All,
}
use game_production.Rpc.Profiles.{
  heap_snapshot, Chunk, Stream, CollectResp, no_data, received, part,
}
use game_production.Admin.{
  Buffers, Runtime, collect_performance_data, capture, traced, waited, snapshots, body,
  send_buffers, send_bytes, send_from, slice, end_of, wait_time, enable_rates, restore_rates,
}
use game_production.Admin.Released.{
  Status, cpu_after, trace_after, Profilers, collection_leaves_profilers,
}
use game_production.Admin.Delivered.{SendHistory, collected_profiles, buffer}
use game_production.Admin.Sized.{sent_chunks_short}
use game_production.Admin.Chunks.{IsSized}

record Host : Type 0 where
  status : Status
  sent : List Chunk
  gone : Bool  -- the client has cancelled

abbrev in_use : Error
in_use = failure "profiling already in use"

abbrev start_cpu_on : Bool → Exec Host (Unit {0})
start_cpu_on true h = (err in_use, h)
start_cpu_on false h = (ok tt, record h { status = record (h.status) { cpu = true } })

abbrev start_trace_on : Bool → Exec Host (Unit {0})
start_trace_on true h = (err in_use, h)
start_trace_on false h = (ok tt, record h { status = record (h.status) { trace = true } })

abbrev wait_for : Bool → Exec Host (Unit {0})
wait_for true h = (err (failure "context canceled"), h)
wait_for false h = (ok tt, h)

abbrev host : Runtime Host
host = record {
  set_block_rate = λ n h. record h { status = record (h.status) { block_rate = n } };
  set_mutex_fraction = λ n h. record h { status = record (h.status) { mutex_fraction = n } };
  start_cpu = λ h. start_cpu_on h.status.cpu h;
  stop_cpu = λ h. (1 ∷ 2 ∷ [], record h { status = record (h.status) { cpu = false } });
  start_trace = λ h. start_trace_on h.status.trace h;
  stop_trace = λ h. (3 ∷ [], record h { status = record (h.status) { trace = false } });
  wait = λ n h. wait_for h.gone h;
  write_heap = λ h. (ok (4 ∷ 5 ∷ 6 ∷ []), h);
  lookup = λ name h. (if name == "goroutine" then some (7 ∷ []) else none, h);
  hostname = λ h. ("node", h);
  now = λ h. (1700000000, h);
  send = λ c h. (ok tt, record h { sent = h.sent ++ c ∷ [] });
}

abbrev quiet : Status
quiet = record { cpu = false; trace = false; block_rate = 0; mutex_fraction = 0 }

abbrev idle : Host
idle = record { status = quiet; sent = []; gone = false }

-- Another collection is under way.
abbrev busy : Host
busy = record {
  status = record { cpu = true; trace = true; block_rate = 1; mutex_fraction = 1 };
  sent = [];
  gone = false;
}

cpu_law :
    (h : Host) (b : Bool)
    → h.status.cpu ≡ b
    → (start_cpu_on b h).1.status ≡ cpu_after (start_cpu_on b h).0 h.status
cpu_law h true e = refl
cpu_law h false e = refl

trace_law :
    (h : Host) (b : Bool)
    → (start_trace_on b h).1.status ≡ trace_after (start_trace_on b h).0 h.status
trace_law h true = refl
trace_law h false = refl

wait_law : (h : Host) (b : Bool) → (wait_for b h).1 ≡ h
wait_law h true = refl
wait_law h false = refl

host_profilers : Profilers host
host_profilers = record {
  status = λ h. h.status;
  block_rate_set = λ n h. refl;
  mutex_fraction_set = λ n h. refl;
  cpu_started = λ h. cpu_law h h.status.cpu refl;
  cpu_refused = λ h on. (in_use, rw on refl);
  cpu_stopped = λ h. refl;
  trace_started = λ h. trace_law h h.status.trace;
  trace_refused = λ h on. (in_use, rw on refl);
  trace_stopped = λ h. refl;
  waiting = λ n h. rw (wait_law h h.gone) refl;
  heap_written = λ h. refl;
  looked_up = λ name h. refl;
  hostname_read = λ h. refl;
  now_read = λ h. refl;
  sent = λ c h. refl;
}

cpu_sent : (h : Host) (b : Bool) → (start_cpu_on b h).1.sent ≡ h.sent
cpu_sent h true = refl
cpu_sent h false = refl

trace_sent : (h : Host) (b : Bool) → (start_trace_on b h).1.sent ≡ h.sent
trace_sent h true = refl
trace_sent h false = refl

host_delivers : SendHistory host
host_delivers = record {
  handed = λ h. h.sent;
  sent = λ c h. refl;
  block_rate_set = λ n h. refl;
  mutex_fraction_set = λ n h. refl;
  cpu_started = λ h. cpu_sent h h.status.cpu;
  cpu_stopped = λ h. refl;
  trace_started = λ h. trace_sent h h.status.trace;
  trace_stopped = λ h. refl;
  waiting = λ n h. rw (wait_law h h.gone) refl;
  heap_written = λ h. refl;
  looked_up = λ name h. refl;
  hostname_read = λ h. refl;
  now_read = λ h. refl;
}

abbrev after_idle : Host
unfolding collect_performance_data
after_idle = (collect_performance_data host 10 idle).1

idle_succeeds : collect_performance_data host 10 idle ≡ (ok tt, after_idle)
unfolding collect_performance_data capture traced waited snapshots body send_buffers send_bytes
    send_from slice end_of wait_time enable_rates restore_rates
idle_succeeds = refl

-- A client that has gone is answered with its context's error, with the profilers off.
cancelled_test :
    collect_performance_data host 10 (record idle { gone = true })
    ≡ (err (failure "context canceled"), record idle { gone = true })
unfolding collect_performance_data capture traced waited snapshots body wait_time enable_rates
    restore_rates
cancelled_test = refl

collection_leaves_profilers_example :
    (collect_performance_data host 10 busy).1.status
    ≡ record { cpu = true; trace = true; block_rate = 0; mutex_fraction = 0 }
unfolding collect_performance_data host_profilers
collection_leaves_profilers_example = collection_leaves_profilers host host_profilers 10 busy

abbrev at_client : Stream
at_client = record { chunks = after_idle.sent; ending = none }

abbrev joined_at_client : CollectResp
unfolding received
joined_at_client = elim (received at_client) [ ok a ↦ a | err e ↦ no_data ]

collected_profiles_example :
    (b : Buffers) × ((capture host 10 (enable_rates host idle)).0 ≡ ok b)
    × (part heap_snapshot joined_at_client ≡ buffer heap_snapshot b)
unfolding host_delivers collect_performance_data capture traced waited snapshots body send_buffers
    send_bytes send_from slice end_of wait_time enable_rates restore_rates received no_data
collected_profiles_example =
    collected_profiles host host_delivers heap_snapshot 10 idle after_idle tt at_client
      joined_at_client refl idle_succeeds (λ ends. refl) refl

sent_chunks_short_test : All IsSized (collect_performance_data host 10 idle).1.sent
unfolding host_delivers
sent_chunks_short_test = sent_chunks_short host host_delivers 10 idle refl
