-- ===== src/Examples/Agents.antt =====
-- The theorems on the agent, at a worker whose model answers at once, and on the requests to a model.
use openjarvis.Base.{
  text_eq, ℕ, ◌+◌, ◌*◌, ◌/◌, leb, Text, List, [], ◌∷◌, ◌++◌, map, Option, none, some, true, false,
  ◌≡◌, refl, txt, Result, ok, err, last, empty_object, Json, ◌↔◌,
}
use openjarvis.Session.Manager.{
  persist_thread_context_snapshot, fetch_thread_context_from_store_only,
}
use openjarvis.Base.Str.{text_eq_instance, trim_end_by, trim_start_by, is_whitespace}
use openjarvis.Base.Dict
use openjarvis.Context.{is_system, Role, ChatMessage, ChatToolCall, chat_message, with_tool_calls}
use openjarvis.Thread.{Thread, FinalizedTurn}
use openjarvis.Thread.Messages.{messages, append_message, replace_messages_after_compaction}
use openjarvis.Thread.Turn.{current_turn_id}
use openjarvis.Session.{session_key_eq, session_key}
use openjarvis.Session.Memory.{
  load_thread_context as load_stored, resolve_or_create_session, save_thread_context, MemoryState,
  memory_store, uuid_instance,
}
use openjarvis.Session.Cache.{
  cached_thread_handle, cache_thread_handle_if_absent, touch_cached_session, CachedSession, cell,
}
use openjarvis.Compact.{
  CompactSummary, build_compacted_messages, compacted_assistant_prefix,
  compacted_user_continue_message, static_provider,
}
use openjarvis.Compact.Budget.{Floats}
use openjarvis.Router.{AgentRequest}
use openjarvis.Agent.{Failure, failure, pure, fail}
use openjarvis.Agent.Hooks.{
  pre_compact, as_str, hook_event_kind_from_name, build_posix_hook_command,
}
use openjarvis.Agent.Hooks.Names.{hook_event_kind_from_name_lem}
use openjarvis.Agent.Hooks.Quoting.{build_posix_hook_command_words, shell_words, gap}
use openjarvis.Agent.Tools.{ToolCallResult, ToolHandler, Peripherals}
use openjarvis.Agent.Events.{build_tool_result_message, EventSender, from_incoming_and_locator}
use openjarvis.Agent.Loop.{Outside, AgentLoop, World}
use openjarvis.Agent.Loop.Round.{Answer}
use openjarvis.Agent.Loop.Live.{Runtime, LoopOutput, TurnCompletion, run_live_thread, live_rounds}
use openjarvis.Agent.Loop.Live.Reports.{Reported, Runs, live_rounds-Runs, run_live_thread-Reported}
use openjarvis.Agent.Worker.{lock_thread, AgentWorker, handle_request, run_worker}
use openjarvis.Agent.Worker.Reports.{Answered, handle_request-Answered}
use openjarvis.Agent.Worker.Stuck.{Stuck, run_worker-Stuck}
use openjarvis.Llm.Orphans.{compaction_orphans}
use openjarvis.Llm.{
  OpenAiMessage, system, user, tool, assistant, serialize_openai_messages,
  serialize_openai_tool_call,
}
use openjarvis.Llm.Calls.{request_calls, history_calls, serialize_openai_messages-calls}
use openjarvis.Examples.{
  instruction, uuids, locator, fresh_thread, greeting, open_thread, incoming, manager, turn,
}

abbrev percent : Floats
percent = record { Float = ℕ; ratio = λ n d. n * 100 / d; at_least = λ a b. leb b a }

-- The outside is a counter, that the clock and the identifiers are drawn from.
abbrev tick : ℕ → ℕ × ℕ
tick n = (n, n + 1)

abbrev handlers : Dict.Dict Text (ToolHandler ℕ)
handlers = []

abbrev peripherals : Peripherals ℕ
peripherals = record {
  ensure_server_tools = λ name. pure handlers;
  parse_toolset_name = λ tool arguments. ok (txt "notes");
  manage_toolset_schema = txt "{}";
  empty_schema = txt "{}";
}

abbrev outside : Outside MemoryState ℕ ℕ
outside = record {
  uuid = uuids;
  store = memory_store uuids;
  now = tick;
  new_id = tick;
  provider = λ n. (static_provider (record { compacted_assistant = txt "short" }), n);
  peripherals = peripherals;
  json_text = λ j. txt "json";
  report_json = λ r. empty_object;
  store_failure = λ e. failure (txt "store");
  compact_failure = λ e. failure (txt "compact");
  channel_closed = txt "closed";
}

abbrev agent_loop : AgentLoop ℕ ℕ
agent_loop = record {
  hooks = [];
  compact_enabled = false;
  auto_compact = false;
  tool_visible_threshold_ratio = 70;
  runtime_threshold_ratio = 90;
  budget_estimator = record {
    context_window_tokens = 1000;
    reserved_output_tokens = 10;
    tokenizer = txt "chars_div4";
    calls_text = λ calls. [];
  };
}

abbrev runtime : Runtime MemoryState ℕ ℕ
runtime = record {
  mcp_server_count = λ e. 0;
  uuid_text = λ u. u ∷ [];
  status_json = λ s. empty_object;
  register_builtin_tools = pure tt;
}

abbrev worker : AgentWorker MemoryState ℕ ℕ
worker = record {
  outside = outside;
  agent_loop = agent_loop;
  runtime = runtime;
  thread_initializer = record {
    system_prompt = txt "be brief";
    now = tick;
    memory_messages = λ at. pure [];
    skill_catalog = λ e. (none, e);
  };
}

abbrev world : World MemoryState ℕ ℕ
world = record {
  thread = fresh_thread;
  sessions = manager;
  event_tx = record { is_open = true; sent = [] };
  tools = record { always_visible_handlers = []; toolsets = [] };
  env = 50;
  reply_to_source = false;
  used_tool_names = [];
  last_visible_tools = [];
  last_budget_report = none;
}

-- The model says one thing, and is done.
abbrev says_pong : Answer
says_pong request =
    ok (record { message = some (chat_message Role.assistant (txt "pong") 60); tool_calls = [] })

abbrev request : AgentRequest
request = record { locator = locator; incoming = incoming }

abbrev output_of : Result Failure (Option LoopOutput) → LoopOutput
output_of (ok (some output)) = output
output_of (ok none) = record { reply = []; metadata = empty_object; turns = [] }
output_of (err e) = record { reply = []; metadata = empty_object; turns = [] }

abbrev sender : EventSender
sender = from_incoming_and_locator incoming fresh_thread.locator

abbrev live : Result Failure (Option LoopOutput) × World MemoryState ℕ ℕ
live =
    run_live_thread percent outside agent_loop runtime locator sender greeting (some (txt "m1"))
      (says_pong ∷ []) world

live-ok : live.0 ≡ ok (some (output_of live.0))
unfolding run_live_thread persist_thread_context_snapshot resolve_or_create_session
    save_thread_context Dict.contains_key Dict.insert session_key_eq text_eq trim_end_by
    trim_start_by is_whitespace touch_cached_session
live-ok = refl

run_live_thread-Reported_example :
    (f : FinalizedTurn) × ((output_of live.0).turns ≡ f ∷ [])
    × Reported percent outside agent_loop runtime locator sender world live.1 f
run_live_thread-Reported_example =
    run_live_thread-Reported percent outside agent_loop runtime locator sender greeting
      (some (txt "m1")) (says_pong ∷ []) world (output_of live.0) refl live-ok

abbrev rounds : Result Failure (Option TurnCompletion) × World MemoryState ℕ ℕ
rounds =
    live_rounds percent outside agent_loop runtime locator sender (txt "t") greeting
      (some (txt "m1")) (says_pong ∷ []) world

live_rounds-Runs_example : Runs percent outside agent_loop runtime locator sender 50 world rounds.1
live_rounds-Runs_example =
    live_rounds-Runs percent outside agent_loop runtime locator sender (txt "t") greeting
      (some (txt "m1")) (says_pong ∷ []) world refl

abbrev handled : Result Failure (Option LoopOutput) × World MemoryState ℕ ℕ
handled = handle_request percent worker request (says_pong ∷ []) world

locked-closed :
    current_turn_id (lock_thread percent worker locator incoming.received_at world).1.thread ≡ none
unfolding lock_thread current_turn_id persist_thread_context_snapshot resolve_or_create_session
    save_thread_context Dict.contains_key Dict.insert session_key_eq text_eq touch_cached_session
    cached_thread_handle fetch_thread_context_from_store_only load_stored
    cache_thread_handle_if_absent
locked-closed = refl

handled-ok : handled.0 ≡ ok (some (output_of handled.0))
unfolding handle_request persist_thread_context_snapshot resolve_or_create_session
    save_thread_context Dict.contains_key Dict.insert session_key_eq text_eq trim_end_by
    trim_start_by is_whitespace touch_cached_session cached_thread_handle
    fetch_thread_context_from_store_only load_stored cache_thread_handle_if_absent
handled-ok = refl

handle_request-Answered_example :
    (f : FinalizedTurn) × Answered percent worker locator world handled.1 f
handle_request-Answered_example =
    handle_request-Answered percent worker request (says_pong ∷ []) world (output_of handled.0)
      locked-closed handled-ok

-- The cache after a run that failed with its turn open.
abbrev idle_session : CachedSession
idle_session = record {
  id = 1;
  key = session_key locator;
  threads = (locator.thread_id, open_thread) ∷ [];
  created_at = 10;
  updated_at = 11;
}

abbrev idle_world : World MemoryState ℕ ℕ
idle_world = record world {
  sessions = record manager { sessions = (session_key locator, idle_session) ∷ [] };
}

idle_world-Stuck : Stuck locator idle_world.sessions
unfolding cell Dict.get session_key_eq text_eq messages
idle_world-Stuck = record {
  thread = open_thread;
  turn = turn;
  held = refl;
  opened = refl;
  started = refl;
}

run_worker-Stuck_example :
    let after =
      run_worker percent worker ((request, says_pong ∷ []) ∷ (request, []) ∷ []) idle_world in
    Stuck locator after.sessions × (after.event_tx ≡ idle_world.event_tx)
run_worker-Stuck_example =
    run_worker-Stuck percent worker locator ((request, says_pong ∷ []) ∷ (request, []) ∷ [])
      idle_world idle_world-Stuck (refl, (refl, tt))

build_posix_hook_command_words_example :
    shell_words gap [] (build_posix_hook_command (txt "echo" ∷ txt "it's" ∷ []))
    ≡ some (txt "echo" ∷ txt "it's" ∷ [])
build_posix_hook_command_words_example =
    build_posix_hook_command_words (txt "echo" ∷ txt "it's" ∷ [])

hook_event_kind_from_name_lem_example :
    (hook_event_kind_from_name (txt "pre_compact") ≡ ok pre_compact)
    ↔ (txt "pre_compact" ≡ as_str pre_compact)
hook_event_kind_from_name_lem_example =
    hook_event_kind_from_name_lem (txt "pre_compact") pre_compact

abbrev note_tool : ToolHandler ℕ
note_tool = record {
  definition = record { name = txt "note"; description = txt "takes a note"; schema = txt "{}" };
  call_with_context = λ c q. fail (failure (txt "no notes"));
}

abbrev call : ChatToolCall
call = record { id = txt "c1"; name = txt "read"; arguments = empty_object }

abbrev history : List ChatMessage
history =
    greeting
    ∷ chat_message Role.assistant (txt "let me see") 12
    ∷ with_tool_calls (call ∷ []) (chat_message Role.toolcall [] 12)
    ∷ with_tool_calls (call ∷ []) (chat_message Role.toolcall [] 12)
    ∷ []

abbrev json_text : Json → Text
json_text j = txt "{}"

serialize_openai_messages-calls_example :
    let calls = call ∷ call ∷ [] in
    let sent = map (serialize_openai_tool_call json_text) calls in
    request_calls (user greeting.content ∷ assistant (some (txt "let me see")) sent ∷ [])
    ≡ map (serialize_openai_tool_call json_text) (history_calls history)
unfolding serialize_openai_messages trim_end_by trim_start_by is_whitespace
serialize_openai_messages-calls_example =
    serialize_openai_messages-calls json_text history
      (user greeting.content
        ∷ assistant (some (txt "let me see"))
            (map (serialize_openai_tool_call json_text) (call ∷ call ∷ []))
        ∷ [])
      refl

abbrev summary : CompactSummary
summary = record { compacted_assistant = txt "short" }

abbrev compact_answer : ToolCallResult
compact_answer = record { content = txt "done"; metadata = empty_object; is_error = false }

abbrev compacted_thread : Thread
compacted_thread = record open_thread {
  thread = record {
    messages = instruction ∷ build_compacted_messages summary 20;
    created_at = 9;
    updated_at = 20;
  };
}

abbrev answered_thread : Thread
answered_thread = record open_thread {
  thread = record {
    messages =
        instruction ∷ build_compacted_messages summary 20
        ++ build_tool_result_message compact_answer (txt "c1") 21 ∷ [];
    created_at = 9;
    updated_at = 21;
  };
}

abbrev orphaned : List OpenAiMessage
orphaned =
    system instruction.content
    ∷ assistant (some (compacted_assistant_prefix ++ summary.compacted_assistant)) []
    ∷ user compacted_user_continue_message
    ∷ tool (txt "done") (txt "c1")
    ∷ []

compaction_orphans_example :
    (history_calls (messages answered_thread) ≡ [])
    × (request_calls orphaned ≡ [])
    × (last (messages answered_thread)
        ≡ some (build_tool_result_message compact_answer (txt "c1") 21))
    × ((build_tool_result_message compact_answer (txt "c1") 21).tool_call_id ≡ some (txt "c1"))
unfolding replace_messages_after_compaction append_message serialize_openai_messages messages
    build_compacted_messages build_tool_result_message is_system trim_end_by trim_start_by
    is_whitespace
compaction_orphans_example =
    compaction_orphans summary 20 20 21 compact_answer (txt "c1") open_thread compacted_thread
      answered_thread json_text orphaned refl refl refl
