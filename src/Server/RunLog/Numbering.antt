-- ===== src/Server/RunLog/Numbering.antt =====
-- What is saved of a run, and how its logs are numbered.
use flow_backend.Prelude.{
  subst, ℕ, suc, ◌%◌, ◌^◌, true, false, ◌≡◌, ◌≢◌, refl, ◌∙◌, sym, ap, ap₂, List, [], ◌∷◌, ◌++◌,
  append-nil, append_assoc, All, All-append, arith,
}
use flow_backend.Server.Events.{
  Event, flow_start, flow_error, flow_log, flow_finish, node_start, node_output, node_error,
  node_log, node_finish, signature_request,
}
use flow_backend.Server.RunWorker.{UserId, FlowRunId}
use flow_backend.Server.Strip.{strip}
use flow_backend.Server.RunLog.{
  push_row, as_i32, FlowRunLogsRow, DbCall, set_start_time, push_flow_error, set_run_result,
  new_node_run, save_node_output, push_node_error, set_node_finish, Saving, node_row, flow_row,
  save_event, save_events, send_logs, Chunk, save_chunk, save_chunks, begin_saving, save_to_db,
}

-- The events of the chunks that a connection could be had for.
abbrev pub kept : List Chunk → List Event
kept [] = []
kept ((true, events) ∷ chunks) = events ++ kept chunks
kept ((false, events) ∷ chunks) = kept chunks

abbrev pub flatten : List (List FlowRunLogsRow) → List FlowRunLogsRow
flatten [] = []
flatten (rows ∷ more) = rows ++ flatten more

flatten-append :
    (xs ys : List (List FlowRunLogsRow)) → flatten (xs ++ ys) ≡ flatten xs ++ flatten ys
flatten-append [] ys = refl
flatten-append (x ∷ xs) ys =
    ap (◌++◌ x) (flatten-append xs ys) ∙ sym (append_assoc x (flatten xs) (flatten ys))

module _ (user_id : UserId) (run_id : FlowRunId) where
  abbrev pub row_of : ℕ → Event → List FlowRunLogsRow
  row_of n (node_log e) = node_row user_id run_id (as_i32 n) e ∷ []
  row_of n (flow_log e) = flow_row user_id run_id (as_i32 n) e ∷ []
  row_of n _ = []

  abbrev pub number_after : ℕ → Event → ℕ
  number_after n (node_log e) = suc n
  number_after n (flow_log e) = suc n
  number_after n _ = n

  abbrev pub call_of : Event → List DbCall
  call_of (flow_start time) = set_start_time run_id time ∷ []
  call_of (flow_error time msg) = push_flow_error run_id msg ∷ []
  call_of (flow_finish time not_run output) = set_run_result run_id time not_run output ∷ []
  call_of (node_start time node_id times input) =
      new_node_run run_id node_id (as_i32 times) time (strip input) ∷ []
  call_of (node_output time node_id times output) =
      save_node_output run_id node_id (as_i32 times) (strip output) ∷ []
  call_of (node_error time node_id times msg) =
      push_node_error run_id node_id (as_i32 times) msg ∷ []
  call_of (node_finish time node_id times) = set_node_finish run_id node_id (as_i32 times) time ∷ []
  call_of _ = []

  -- The rows of the logs among some events, numbered from a start.
  abbrev pub numbered : ℕ → List Event → List FlowRunLogsRow
  numbered n [] = []
  numbered n (e ∷ es) = row_of n e ++ numbered (number_after n e) es

  abbrev pub logs_after : ℕ → List Event → ℕ
  logs_after n [] = n
  logs_after n (e ∷ es) = logs_after (number_after n e) es

  abbrev pub calls_of : List Event → List DbCall
  calls_of [] = []
  calls_of (e ∷ es) = call_of e ++ calls_of es

  numbered-append :
      (n : ℕ) (xs ys : List Event)
      → numbered n (xs ++ ys) ≡ numbered n xs ++ numbered (logs_after n xs) ys
  numbered-append n [] ys = refl
  numbered-append n (x ∷ xs) ys =
      ap (◌++◌ (row_of n x)) (numbered-append (number_after n x) xs ys)
      ∙ sym (append_assoc (row_of n x) (numbered (number_after n x) xs) _)

  logs_after-append :
      (n : ℕ) (xs ys : List Event) → logs_after n (xs ++ ys) ≡ logs_after (logs_after n xs) ys
  logs_after-append n [] ys = refl
  logs_after-append n (x ∷ xs) ys = logs_after-append (number_after n x) xs ys

  calls_of-append : (xs ys : List Event) → calls_of (xs ++ ys) ≡ calls_of xs ++ calls_of ys
  calls_of-append [] ys = refl
  calls_of-append (x ∷ xs) ys =
      ap (◌++◌ (call_of x)) (calls_of-append xs ys)
      ∙ sym (append_assoc (call_of x) (calls_of xs) (calls_of ys))

  abbrev IsAfter : Saving → ℕ → List Event → Saving → Type 0
  IsAfter s n es t =
      (t.log_index ≡ as_i32 (logs_after n es))
      × (t.calls ≡ s.calls ++ calls_of es)
      × (t.logs ≡ s.logs ++ numbered n es)
      × (t.copies ≡ s.copies)

  wraps : (n : ℕ) → suc (as_i32 n) % 2 ^ 32 ≡ as_i32 (suc n)
  wraps n = omega arith

  after_call :
      (s t : Saving) (n : ℕ) (c : DbCall) (es : List Event)
      → IsAfter (record s { calls = s.calls ++ c ∷ [] }) n es t
      → (t.log_index ≡ as_i32 (logs_after n es))
        × (t.calls ≡ s.calls ++ c ∷ calls_of es)
        × (t.logs ≡ s.logs ++ numbered n es)
        × (t.copies ≡ s.copies)
  after_call s t n c es (index, calls, logs, copies) =
      (index, calls ∙ append_assoc s.calls (c ∷ []) (calls_of es), logs, copies)

  after_row :
      (s t : Saving) (n : ℕ) (row : ℕ → FlowRunLogsRow) (es : List Event)
      → s.log_index ≡ as_i32 n
      → IsAfter (push_row s (row s.log_index)) (suc n) es t
      → (t.log_index ≡ as_i32 (logs_after (suc n) es))
        × (t.calls ≡ s.calls ++ calls_of es)
        × (t.logs ≡ s.logs ++ row (as_i32 n) ∷ numbered (suc n) es)
        × (t.copies ≡ s.copies)
  after_row s t n row es at_n (index, calls, logs, copies) = (
    index,
    calls,
    logs
        ∙ append_assoc s.logs (row s.log_index ∷ []) (numbered (suc n) es)
        ∙ ap (λ i. s.logs ++ row i ∷ numbered (suc n) es) at_n,
    copies,
  )

  next_index : (i n : ℕ) → i ≡ as_i32 n → suc i % 2 ^ 32 ≡ as_i32 (suc n)
  next_index i n e = ap (λ j. suc j % 2 ^ 32) e ∙ wraps n

  save_events-IsAfter :
      (es : List Event) (s : Saving) (n : ℕ)
      → s.log_index ≡ as_i32 n
      → IsAfter s n es (save_events user_id run_id s es)
  unfolding save_event
  save_events-IsAfter [] s n h = (h, sym (append-nil s.calls), sym (append-nil s.logs), refl)
  save_events-IsAfter ((flow_start time) ∷ es) s n h =
      after_call s _ n (set_start_time run_id time) es (save_events-IsAfter es _ n h)
  save_events-IsAfter ((flow_error time msg) ∷ es) s n h =
      after_call s _ n (push_flow_error run_id msg) es (save_events-IsAfter es _ n h)
  save_events-IsAfter ((flow_finish time not_run output) ∷ es) s n h =
      after_call s _ n (set_run_result run_id time not_run output) es (save_events-IsAfter es _ n h)
  save_events-IsAfter ((node_start time node_id times input) ∷ es) s n h =
      after_call s _ n (new_node_run run_id node_id (as_i32 times) time (strip input)) es
        (save_events-IsAfter es _ n h)
  save_events-IsAfter ((node_output time node_id times output) ∷ es) s n h =
      after_call s _ n (save_node_output run_id node_id (as_i32 times) (strip output)) es
        (save_events-IsAfter es _ n h)
  save_events-IsAfter ((node_error time node_id times msg) ∷ es) s n h =
      after_call s _ n (push_node_error run_id node_id (as_i32 times) msg) es
        (save_events-IsAfter es _ n h)
  save_events-IsAfter ((node_finish time node_id times) ∷ es) s n h =
      after_call s _ n (set_node_finish run_id node_id (as_i32 times) time) es
        (save_events-IsAfter es _ n h)
  save_events-IsAfter ((node_log l) ∷ es) s n h =
      after_row s _ n (λ i. node_row user_id run_id i l) es h
        (save_events-IsAfter es _ (suc n) (next_index s.log_index n h))
  save_events-IsAfter ((flow_log l) ∷ es) s n h =
      after_row s _ n (λ i. flow_row user_id run_id i l) es h
        (save_events-IsAfter es _ (suc n) (next_index s.log_index n h))
  save_events-IsAfter ((signature_request time id) ∷ es) s n h = save_events-IsAfter es s n h

  -- What the task has done when these events are saved.
  record IsSaved (s : Saving) (es : List Event) : Type 0 where
    index : s.log_index ≡ as_i32 (logs_after 0 es)
    calls : s.calls ≡ calls_of es
    rows : flatten s.copies ≡ numbered 0 es
    full : All (λ rows. rows ≢ []) s.copies

  send_logs-rows :
      (s : Saving) (rows : List FlowRunLogsRow)
      → flatten (send_logs s rows).copies ≡ flatten s.copies ++ rows
  unfolding send_logs
  send_logs-rows s [] = sym (append-nil (flatten s.copies))
  send_logs-rows s (row ∷ rows) =
      flatten-append s.copies ((row ∷ rows) ∷ [])
      ∙ ap (◌++◌ (flatten s.copies)) (append-nil (row ∷ rows))

  send_logs-full :
      (s : Saving) (rows : List FlowRunLogsRow)
      → All (λ rows. rows ≢ []) s.copies
      → All (λ rows. rows ≢ []) (send_logs s rows).copies
  unfolding send_logs
  send_logs-full s [] h = h
  send_logs-full s (row ∷ rows) h =
      All-append (λ rows. rows ≢ []) s.copies h ((row ∷ rows) ∷ []) (λ e. cc e, tt)

  send_logs-rest :
      (s : Saving) (rows : List FlowRunLogsRow)
      → ((send_logs s rows).log_index ≡ s.log_index) × ((send_logs s rows).calls ≡ s.calls)
  unfolding send_logs
  send_logs-rest s [] = (refl, refl)
  send_logs-rest s (row ∷ rows) = (refl, refl)

  save_chunk-IsSaved :
      (s : Saving) (before es : List Event)
      → IsSaved s before
      → IsSaved (save_chunk user_id run_id s (true, es)) (before ++ es)
  unfolding save_chunk
  save_chunk-IsSaved s before es h =
      let t = save_events user_id run_id (record s { logs = [] }) es in
      let (index, calls, logs, copies) =
        save_events-IsAfter es (record s { logs = [] }) (logs_after 0 before) h.index in
      let rest = send_logs-rest t t.logs in
      record {
        index = rest.0 ∙ index ∙ ap as_i32 (sym (logs_after-append 0 before es));
        calls =
            rest.1 ∙ calls ∙ ap (λ l. l ++ calls_of es) h.calls ∙ sym (calls_of-append before es);
        rows =
            send_logs-rows t t.logs
            ∙ ap₂ ◌++◌ (ap flatten copies ∙ h.rows) logs
            ∙ sym (numbered-append 0 before es);
        full = send_logs-full t t.logs (subst (All (λ rows. rows ≢ [])) (sym copies) h.full);
      }

  save_chunks-IsSaved :
      (s : Saving) (before : List Event) (chunks : List Chunk)
      → IsSaved s before
      → IsSaved (save_chunks user_id run_id s chunks) (before ++ kept chunks)
  unfolding save_chunk
  save_chunks-IsSaved s before [] h = subst (IsSaved s) (sym (append-nil before)) h
  save_chunks-IsSaved s before ((true, es) ∷ chunks) h =
      subst (IsSaved _) (append_assoc before es (kept chunks)) (
        save_chunks-IsSaved (save_chunk user_id run_id s (true, es)) (before ++ es) chunks
          (save_chunk-IsSaved s before es h))
  save_chunks-IsSaved s before ((false, es) ∷ chunks) h = save_chunks-IsSaved s before chunks h

  -- Whatever chunks the events of a run come in, and whichever of them find a connection: each event
  -- of a chunk that finds one makes its call, in order; the rows that are sent are those of the logs
  -- among these events, in order and numbered from 0 without a gap, as an i32 wraps; and nothing empty
  -- is sent.
  pub save_to_db-numbered :
      (chunks : List Chunk)
      → let s = save_to_db user_id run_id chunks in
        (s.calls ≡ calls_of (kept chunks))
        × (flatten s.copies ≡ numbered 0 (kept chunks))
        × All (λ rows. rows ≢ []) s.copies
  unfolding save_to_db
  save_to_db-numbered chunks =
      let h =
        save_chunks-IsSaved begin_saving [] chunks
          (record { index = refl; calls = refl; rows = refl; full = tt }) in
      (h.calls, h.rows, h.full)
