-- ===== src/Thread/Turn/Lifecycle.antt =====
-- thread.rs: a whole turn, from its opening to its finalization.
use openjarvis.Base.{
  Text, List, [], ◌∷◌, ◌++◌, map, Option, none, some, ◌≡◌, refl, arith, Result, ok, err,
}
use openjarvis.Context.{ChatMessage, Uuid, Instant}
use openjarvis.Thread.{
  Thread, CurrentTurn, ThreadToolEvent, ThreadTurnEvent, TurnStatus, succeeded, failed,
  FinalizedTurn, ThreadError, already_unfinished, no_active_turn, nothing_to_finalize, with_turn_id,
}
use openjarvis.Thread.Turn.{
  begin_turn, current_turn_id, record_tool_event, buffer_turn_event, settle, finalize_turn_success,
  finalize_turn_failure, failure_event, failure_reply,
}
use openjarvis.Thread.Messages.{append_message}
use openjarvis.Thread.Turn.Actions.{
  TurnAction, act_all, appended, recorded, buffered, earlier, earliest, act_all-Progress,
}

pub data Ending : Type 0 where
  succeeds : Text → Ending
  fails : Text → Ending

finish : Ending → Instant → Thread → Result ThreadError (FinalizedTurn × Thread)
finish (succeeds reply) done t = finalize_turn_success reply done t
finish (fails error) done t = finalize_turn_failure error done t

-- A turn as its owner runs it: opened, acted in, finalized.
pub run_turn :
    Uuid
    → Option Text
    → Instant
    → List TurnAction
    → Ending
    → Instant
    → Thread
    → Result ThreadError (FinalizedTurn × Thread)
unfolding finish
run_turn id external_message_id started_at r ending done t =
    elim (begin_turn id external_message_id started_at t) [
      | err e ↦ err e
      | ok (_, t') ↦ elim (act_all r t') [ err e ↦ err e | ok t'' ↦ finish ending done t'' ]
    ]

-- The batch that the turn reports: a failed turn that buffered nothing reports its failure.
abbrev pub reported : Ending → List ThreadTurnEvent → List ThreadTurnEvent
reported (succeeds reply) events = events
reported (fails error) [] = failure_event error ∷ []
reported (fails error) (e ∷ events) = e ∷ events

abbrev pub reply_of : Ending → Text
reply_of (succeeds reply) = reply
reply_of (fails error) = failure_reply error

abbrev pub status_of : Ending → TurnStatus
status_of (succeeds reply) = succeeded
status_of (fails error) = failed error

pub record Commits (id : Uuid) (external : Option Text) (start : Instant) (r : List TurnAction)
    (ending : Ending) (done : Instant) (t : Thread) (f : FinalizedTurn) (t' : Thread) : Type 0 where
  pub messages : t'.thread.messages ≡ t.thread.messages ++ appended r
  pub audit :
      t'.state.tools.tool_events
      ≡ t.state.tools.tool_events ++ map (with_turn_id id) (t.pending_tool_events ++ recorded r)
  pub begun : t'.thread.created_at ≡ earlier start (earliest t.thread.created_at (appended r))
  pub features : t'.state.features ≡ t.state.features
  pub approval : t'.state.approval ≡ t.state.approval
  pub toolsets : t'.state.tools.loaded_toolsets ≡ t.state.tools.loaded_toolsets
  pub closed : t'.current_turn ≡ none
  pub drained : t'.pending_tool_events ≡ []
  pub revision : t'.revision ≡ t.revision
  pub locator : t'.locator ≡ t.locator
  pub updated : t'.thread.updated_at ≡ done
  pub snapshot : f.snapshot ≡ t'
  pub turn : (f.turn_id ≡ id) × (f.external_message_id ≡ external) × (f.started_at ≡ start)
  pub completed : f.completed_at ≡ done
  pub events : f.events ≡ reported ending (buffered r)
  pub outcome : (f.reply ≡ reply_of ending) × (f.status ≡ status_of ending)

-- The thread with its turn just opened.
opened : Uuid → Option Text → Instant → Thread → CurrentTurn
opened id external start t = record {
  turn_id = id;
  external_message_id = external;
  started_at = start;
  buffered_events = [];
  tool_events = t.pending_tool_events;
}

begin_turn-opened :
    (id : Uuid) (external : Option Text) (start : Instant) (t : Thread)
    → t.current_turn ≡ none
    → begin_turn id external start t
      ≡ ok (
        id,
        record t { pending_tool_events = []; current_turn = some (opened id external start t) },
      )
unfolding begin_turn opened
begin_turn-opened id external start t e = ground arith

-- The value that a finalization returns for the open turn.
finalized : Ending → Instant → CurrentTurn → Thread → FinalizedTurn
finalized ending done turn t' = record {
  turn_id = turn.turn_id;
  external_message_id = turn.external_message_id;
  started_at = turn.started_at;
  completed_at = done;
  reply = reply_of ending;
  status = status_of ending;
  events = reported ending turn.buffered_events;
  snapshot = t';
}

finish-settle :
    (ending : Ending) (done : Instant) (t : Thread) (turn : CurrentTurn)
    → t.current_turn ≡ some turn
    → finish ending done t
      ≡ ok (finalized ending done turn (settle turn done t), settle turn done t)
unfolding finish finalized finalize_turn_success finalize_turn_failure
finish-settle (succeeds reply) done t turn e = ground arith
finish-settle (fails error) done t turn e = ground arith

settle-Commits :
    (id : Uuid) (external : Option Text) (start : Instant) (r : List TurnAction) (ending : Ending)
    (done : Instant) (t t' : Thread) (turn : CurrentTurn)
    → turn ≡ record (opened id external start t) {
      tool_events = t.pending_tool_events ++ recorded r;
      buffered_events = buffered r;
    }
    → t'.thread.messages ≡ t.thread.messages ++ appended r
    → t'.thread.created_at ≡ earliest t.thread.created_at (appended r)
    → t'.pending_tool_events ≡ []
    → t'.state ≡ t.state
    → t'.revision ≡ t.revision
    → t'.locator ≡ t.locator
    → Commits id external start r ending done t
        (finalized ending done turn (settle turn done t'))
        (settle turn done t')
unfolding settle finalized opened
settle-Commits id external start r ending done t t' turn e m b p s v l = ground arith

-- From a thread with no turn, a whole turn succeeds: the messages are the old ones followed by the
-- appended ones, the audit trail grows by the pending and the recorded tool events, stamped with
-- the turn, the reported batch is what was buffered (or the failure event, if a failed turn
-- buffered nothing), the snapshot is the thread left behind, and that thread has no open turn. Every
-- other field of it is told too: it begins at the earliest of its old start, the turn's start and the
-- times of the appended messages, is updated at the turn's end, and keeps its locator, revision,
-- toolsets, features and approvals.
pub run_turn-Commits :
    (id : Uuid) (external : Option Text) (start : Instant) (r : List TurnAction) (ending : Ending)
    (done : Instant) (t : Thread)
    → t.current_turn ≡ none
    → (f : FinalizedTurn) × (t' : Thread) × (run_turn id external start r ending done t
        ≡ ok (f, t'))
      × Commits id external start r ending done t f t'
unfolding run_turn
run_turn-Commits id external start r ending done t e =
    let turn = opened id external start t in
    let t₀ : Thread = record t { pending_tool_events = []; current_turn = some turn } in
    let (t₁, ran, p) = act_all-Progress r t₀ turn refl in
    let turn' : CurrentTurn = record turn {
      tool_events = turn.tool_events ++ recorded r;
      buffered_events = turn.buffered_events ++ buffered r;
    } in
    (
      finalized ending done turn' (settle turn' done t₁),
      settle turn' done t₁,
      rw (begin_turn-opened id external start t e, ran, run_turn)
          (finish-settle ending done t₁ turn' p.current),
      settle-Commits id external start r ending done t t₁ turn' (unfold opened in refl) p.messages
          p.begun p.pending p.audit p.revision p.locator,
    )

-- While a turn is open, another cannot be opened: the attempt reports the thread and changes nothing.
begin_turn_exclusive :
    (id id' : Uuid) (external external' : Option Text) (start start' : Instant) (t t' : Thread)
    (u : Uuid)
    → begin_turn id external start t ≡ ok (u, t')
    → (t.current_turn ≡ none)
      × (current_turn_id t' ≡ some id)
      × (begin_turn id' external' start' t' ≡ err (already_unfinished t.locator.thread_id))
unfolding begin_turn current_turn_id
begin_turn_exclusive id id' external external' start start' t t' u e = ground arith

-- Outside a turn no message is appended, no event buffered and nothing finalized, and each attempt
-- says so; a tool event is kept as pending.
pub closed_rejects :
    (t : Thread) (m : ChatMessage) (e : ThreadTurnEvent) (x : ThreadToolEvent) (s : Text)
    (done : Instant)
    → t.current_turn ≡ none
    → (append_message m t ≡ err (no_active_turn t.locator.thread_id))
      × (buffer_turn_event e t ≡ err (no_active_turn t.locator.thread_id))
      × (finalize_turn_success s done t ≡ err (nothing_to_finalize t.locator.thread_id))
      × (finalize_turn_failure s done t ≡ err (nothing_to_finalize t.locator.thread_id))
      × (record_tool_event x t ≡ record t { pending_tool_events = t.pending_tool_events ++ x ∷ [] })
unfolding append_message buffer_turn_event finalize_turn_success finalize_turn_failure
    record_tool_event
closed_rejects t m e x s done h = ground arith
