-- ===== src/Server/RunLog.antt =====
-- `save_to_db` of crates/flow-server/src/db_worker/flow_run_worker.rs: the events of a run go to the
-- database, and its logs, numbered, to the worker that copies them in. An i32 is its 32 bits.
pub mod Numbering
use flow_backend.Prelude.{
  ℕ, suc, ◌%◌, ◌^◌, Bool, true, false, Option, none, some, List, [], ◌∷◌, ◌++◌, Str, str,
  if◌then◌else◌,
}
use flow_backend.Value.{Value}
use flow_backend.Flow.State.{NodeId}
use flow_backend.Server.Events.{
  LogLevel, NodeLog, FlowLog, Event, trace, debug, info, warn, error, flow_start, flow_error,
  flow_log, flow_finish, node_start, node_output, node_error, node_log, node_finish,
  signature_request,
}
use flow_backend.Server.RunWorker.{UserId, FlowRunId}
use flow_backend.Server.Strip.{strip}

-- Display for LogLevel
abbrev pub level_name : LogLevel → Str
level_name trace = str "Trace"
level_name debug = str "Debug"
level_name info = str "Info"
level_name warn = str "Warn"
level_name error = str "Error"

-- `as i32`
abbrev pub as_i32 : ℕ → ℕ
as_i32 n = n % 2 ^ 32

pub record FlowRunLogsRow : Type 0 where
  pub user_id : UserId
  pub flow_run_id : FlowRunId
  pub log_index : ℕ
  pub node_id : Option NodeId
  pub times : Option ℕ
  pub time : ℕ
  pub log_level : Str
  pub content : Str
  pub module_path : Option Str

-- The calls of a connection; an error of one is only logged.
pub data DbCall : Type 0 where
  set_start_time : FlowRunId → (time : ℕ) → DbCall
  push_flow_error : FlowRunId → Str → DbCall
  set_run_result : FlowRunId → (time : ℕ) (not_run : List NodeId) (output : Value) → DbCall
  new_node_run : FlowRunId → NodeId → (times time : ℕ) (input : Value) → DbCall
  save_node_output : FlowRunId → NodeId → (times : ℕ) (output : Value) → DbCall
  push_node_error : FlowRunId → NodeId → (times : ℕ) (error : Str) → DbCall
  set_node_finish : FlowRunId → NodeId → (times time : ℕ) → DbCall

-- Where the task stands: the next index, the calls so far, the logs of this chunk, and those that
-- were sent to the DBWorker.
pub record Saving : Type 0 where
  pub log_index : ℕ
  pub calls : List DbCall
  pub logs : List FlowRunLogsRow
  pub copies : List (List FlowRunLogsRow)

abbrev pub call : Saving → DbCall → Saving
call s c = record s { calls = s.calls ++ c ∷ [] }

abbrev pub node_row : UserId → FlowRunId → ℕ → NodeLog → FlowRunLogsRow
node_row user_id run_id log_index e = record {
  user_id = user_id;
  flow_run_id = run_id;
  log_index = log_index;
  node_id = some e.node_id;
  times = some (as_i32 e.times);
  time = e.time;
  log_level = level_name e.level;
  content = e.content;
  module_path = e.module_path;
}

abbrev pub flow_row : UserId → FlowRunId → ℕ → FlowLog → FlowRunLogsRow
flow_row user_id run_id log_index e = record {
  user_id = user_id;
  flow_run_id = run_id;
  log_index = log_index;
  node_id = none;
  times = none;
  time = e.time;
  log_level = level_name e.level;
  content = e.content;
  module_path = e.module_path;
}

abbrev pub push_row : Saving → FlowRunLogsRow → Saving
push_row s row = record s { logs = s.logs ++ row ∷ []; log_index = suc s.log_index % 2 ^ 32 }

unfoldable pub save_event : UserId → FlowRunId → Saving → Event → Saving
unfolding strip
save_event user_id run_id s (flow_start time) = call s (set_start_time run_id time)
save_event user_id run_id s (flow_error time msg) = call s (push_flow_error run_id msg)
save_event user_id run_id s (flow_finish time not_run output) =
    call s (set_run_result run_id time not_run output)
save_event user_id run_id s (node_start time node_id times input) =
    call s (new_node_run run_id node_id (as_i32 times) time (strip input))
save_event user_id run_id s (node_output time node_id times output) =
    call s (save_node_output run_id node_id (as_i32 times) (strip output))
save_event user_id run_id s (node_error time node_id times msg) =
    call s (push_node_error run_id node_id (as_i32 times) msg)
save_event user_id run_id s (node_finish time node_id times) =
    call s (set_node_finish run_id node_id (as_i32 times) time)
save_event user_id run_id s (node_log e) = push_row s (node_row user_id run_id s.log_index e)
save_event user_id run_id s (flow_log e) = push_row s (flow_row user_id run_id s.log_index e)
save_event user_id run_id s (signature_request time id) = s

abbrev pub save_events : UserId → FlowRunId → Saving → List Event → Saving
save_events user_id run_id s [] = s
save_events user_id run_id s (e ∷ es) =
    save_events user_id run_id (save_event user_id run_id s e) es

-- Logs are sent when there are some; an error of the sending is only logged.
unfoldable pub send_logs : Saving → List FlowRunLogsRow → Saving
send_logs s [] = s
send_logs s (row ∷ rows) = record s { copies = s.copies ++ (row ∷ rows) ∷ [] }

-- A chunk of events, and whether a connection could be had for it.
abbrev pub Chunk : Type 0
Chunk = Bool × List Event

unfoldable pub save_chunk : UserId → FlowRunId → Saving → Chunk → Saving
unfolding save_event send_logs
save_chunk user_id run_id s (connected, events) =
    if connected
    then (let done = save_events user_id run_id (record s { logs = [] }) events in
        send_logs done done.logs)
    else s

abbrev pub save_chunks : UserId → FlowRunId → Saving → List Chunk → Saving
save_chunks user_id run_id s [] = s
save_chunks user_id run_id s (c ∷ cs) =
    save_chunks user_id run_id (save_chunk user_id run_id s c) cs

abbrev pub begin_saving : Saving
begin_saving = record { log_index = 0; calls = []; logs = []; copies = [] }

unfoldable pub save_to_db : UserId → FlowRunId → List Chunk → Saving
unfolding save_chunk
save_to_db user_id run_id chunks = save_chunks user_id run_id begin_saving chunks
