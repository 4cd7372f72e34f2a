-- ===== src/Thread/Turn.antt =====
-- thread.rs: opening a turn, what it buffers, and its finalization.
pub mod Actions
pub mod Lifecycle
pub mod Audit
use openjarvis.Base.{
  Text, Json, List, [], ◌∷◌, ◌++◌, map, Option, none, some, true, txt, ltb, if◌then◌else◌, Result,
  ok, err, is_empty, unwrap_or,
}
use openjarvis.Base.Value.{obj, field, str, bool, end}
use openjarvis.Context.{Uuid, Instant}
use openjarvis.Thread.{
  Thread, CurrentTurn, ThreadToolEvent, ThreadTurnEvent, TurnEventKind, TurnStatus, succeeded,
  failed, FinalizedTurn, ThreadError, already_unfinished, no_active_turn, nothing_to_finalize,
  with_turn_id,
}

-- `ThreadCurrentTurn::new`, with the identifier that it draws.
abbrev pub new_turn : Uuid → Option Text → Instant → CurrentTurn
new_turn id external_message_id started_at = record {
  turn_id = id;
  external_message_id = external_message_id;
  started_at = started_at;
  buffered_events = [];
  tool_events = [];
}

-- `open_turn`: the pending tool events move into the new turn.
unfoldable pub open_turn :
    Uuid → Option Text → Instant → Thread → Result ThreadError (CurrentTurn × Thread)
open_turn id external_message_id started_at t = elim t.current_turn [
  | some turn ↦ err (already_unfinished t.locator.thread_id)
  | none ↦
      let fresh = new_turn id external_message_id started_at in
      let turn = record fresh { tool_events = fresh.tool_events ++ t.pending_tool_events } in
      ok (turn, record t { pending_tool_events = []; current_turn = some turn })
]

unfoldable pub begin_turn :
    Uuid → Option Text → Instant → Thread → Result ThreadError (Uuid × Thread)
unfolding open_turn
begin_turn id external_message_id started_at t =
    elim (open_turn id external_message_id started_at t) [
      | ok (turn, t') ↦ ok (turn.turn_id, t')
      | err e ↦ err e
    ]

unfoldable pub current_turn_id : Thread → Option Uuid
current_turn_id t = elim t.current_turn [ none ↦ none | some turn ↦ some turn.turn_id ]

-- `current_turn_mut`
unfoldable pub current_turn_mut : Thread → Result ThreadError CurrentTurn
current_turn_mut t = elim t.current_turn [
  | none ↦ err (no_active_turn t.locator.thread_id)
  | some turn ↦ ok turn
]

unfoldable pub pending_tool_events : Thread → List ThreadToolEvent
pending_tool_events t = elim t.current_turn [
  | none ↦ t.pending_tool_events
  | some turn ↦ turn.tool_events
]

unfoldable pub record_tool_event : ThreadToolEvent → Thread → Thread
record_tool_event e t = elim t.current_turn [
  | none ↦ record t { pending_tool_events = t.pending_tool_events ++ e ∷ [] }
  | some turn ↦ record t {
    current_turn = some (record turn { tool_events = turn.tool_events ++ e ∷ [] });
  }
]

unfoldable pub current_turn_events : Thread → List ThreadTurnEvent
current_turn_events t = elim t.current_turn [ none ↦ [] | some turn ↦ turn.buffered_events ]

unfoldable pub buffer_turn_event : ThreadTurnEvent → Thread → Result ThreadError Thread
unfolding current_turn_mut
buffer_turn_event e t = elim (current_turn_mut t) [
  | err e' ↦ err e'
  | ok turn ↦
      let turn' = record turn { buffered_events = turn.buffered_events ++ e ∷ [] } in
      ok (record t { current_turn = some turn' })
]

-- What both finalizations do to the thread whose turn they have taken.
unfoldable pub settle : CurrentTurn → Instant → Thread → Thread
settle turn completed_at t =
    let created =
      if ltb turn.started_at t.thread.created_at then turn.started_at else t.thread.created_at in
    let stamped = map (with_turn_id turn.turn_id) turn.tool_events in
    record t {
      current_turn = none;
      thread = record t.thread { updated_at = completed_at; created_at = created };
      state = record t.state {
        tools = record t.state.tools { tool_events = t.state.tools.tool_events ++ stamped };
      };
    }

unfoldable pub finalize_turn :
    TurnStatus → Text → Instant → Thread → Result ThreadError (FinalizedTurn × Thread)
unfolding settle
finalize_turn status reply completed_at t = elim t.current_turn [
  | none ↦ err (nothing_to_finalize t.locator.thread_id)
  | some turn ↦
      let t' = settle turn completed_at t in
      let finalized : FinalizedTurn = record {
        turn_id = turn.turn_id;
        external_message_id = turn.external_message_id;
        started_at = turn.started_at;
        completed_at = completed_at;
        reply = reply;
        status = status;
        events = turn.buffered_events;
        snapshot = t';
      } in
      ok (finalized, t')
]

unfoldable pub finalize_turn_success :
    Text → Instant → Thread → Result ThreadError (FinalizedTurn × Thread)
unfolding finalize_turn
finalize_turn_success reply completed_at t = finalize_turn succeeded reply completed_at t

unfoldable pub failure_reply : Text → Text
failure_reply error = txt "[openjarvis][agent_error] " ++ error

abbrev failure_metadata : Json
failure_metadata = obj (
    field (txt "source") (str (txt "turn_failure"))
      (field (txt "is_final") (bool true) (field (txt "is_error") (bool true) end)))

-- The event that stands in for an empty batch.
unfoldable pub failure_event : Text → ThreadTurnEvent
unfolding failure_reply
failure_event error = record {
  kind = TurnEventKind.text_output;
  content = failure_reply error;
  metadata = failure_metadata;
}

unfoldable pub finalize_turn_failure :
    Text → Instant → Thread → Result ThreadError (FinalizedTurn × Thread)
unfolding settle failure_reply failure_event
finalize_turn_failure error completed_at t = elim t.current_turn [
  | none ↦ err (nothing_to_finalize t.locator.thread_id)
  | some turn ↦
      let t' = settle turn completed_at t in
      let events =
        if is_empty turn.buffered_events then failure_event error ∷ [] else turn.buffered_events in
      let finalized : FinalizedTurn = record {
        turn_id = turn.turn_id;
        external_message_id = turn.external_message_id;
        started_at = turn.started_at;
        completed_at = completed_at;
        reply = failure_reply error;
        status = failed error;
        events = events;
        snapshot = t';
      } in
      ok (finalized, t')
]
