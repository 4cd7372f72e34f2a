-- ===== src/Thread/Turn/Actions.antt =====
-- thread.rs: what a turn's owner does while the turn is open.
use openjarvis.Base.{
  List, [], ◌∷◌, ◌++◌, some, ◌≡◌, refl, arith, ltb, if◌then◌else◌, Result, ok, err,
}
use mathlib.Core.List.{append_assoc, append-nil}
use openjarvis.Context.{ChatMessage, Instant}
use openjarvis.Thread.{Thread, CurrentTurn, ThreadToolEvent, ThreadTurnEvent, ThreadError}
use openjarvis.Thread.Turn.{record_tool_event, buffer_turn_event}
use openjarvis.Thread.Messages.{append_message}

-- What a turn's owner does between the opening and the finalization.
pub data TurnAction : Type 0 where
  appends : ChatMessage → TurnAction
  records : ThreadToolEvent → TurnAction
  buffers : ThreadTurnEvent → TurnAction

act : TurnAction → Thread → Result ThreadError Thread
act (appends m) t = append_message m t
act (records e) t = ok (record_tool_event e t)
act (buffers e) t = buffer_turn_event e t

pub act_all : List TurnAction → Thread → Result ThreadError Thread
unfolding act
act_all [] t = ok t
act_all (a ∷ as_) t = elim (act a t) [ ok t' ↦ act_all as_ t' | err e ↦ err e ]

abbrev pub appended : List TurnAction → List ChatMessage
appended [] = []
appended (appends m ∷ r) = m ∷ appended r
appended (records e ∷ r) = appended r
appended (buffers e ∷ r) = appended r

abbrev pub recorded : List TurnAction → List ThreadToolEvent
recorded [] = []
recorded (appends m ∷ r) = recorded r
recorded (records e ∷ r) = e ∷ recorded r
recorded (buffers e ∷ r) = recorded r

abbrev pub buffered : List TurnAction → List ThreadTurnEvent
buffered [] = []
buffered (appends m ∷ r) = buffered r
buffered (records e ∷ r) = buffered r
buffered (buffers e ∷ r) = e ∷ buffered r

abbrev pub earlier : Instant → Instant → Instant
earlier a c = if ltb a c then a else c

-- The earliest of an instant and of the times of messages.
abbrev pub earliest : Instant → List ChatMessage → Instant
earliest c [] = c
earliest c (m ∷ ms) = earliest (earlier m.created_at c) ms

-- What the actions of an open turn leave behind.
pub record Progress (t : Thread) (turn : CurrentTurn) (r : List TurnAction) (t' : Thread)
    : Type 0 where
  pub messages : t'.thread.messages ≡ t.thread.messages ++ appended r
  pub begun : t'.thread.created_at ≡ earliest t.thread.created_at (appended r)
  pub current :
      t'.current_turn
      ≡ some (record turn {
        tool_events = turn.tool_events ++ recorded r;
        buffered_events = turn.buffered_events ++ buffered r;
      })
  pub pending : t'.pending_tool_events ≡ t.pending_tool_events
  pub audit : t'.state ≡ t.state
  pub revision : t'.revision ≡ t.revision
  pub locator : t'.locator ≡ t.locator

-- The open turn after one action.
abbrev advance : TurnAction → CurrentTurn → CurrentTurn
advance (appends m) turn = turn
advance (records e) turn = record turn { tool_events = turn.tool_events ++ e ∷ [] }
advance (buffers e) turn = record turn { buffered_events = turn.buffered_events ++ e ∷ [] }

record OneStep (t : Thread) (turn : CurrentTurn) (a : TurnAction) (t' : Thread) : Type 0 where
  acted : act a t ≡ ok t'
  messages : t'.thread.messages ≡ t.thread.messages ++ appended (a ∷ [])
  begun : t'.thread.created_at ≡ earliest t.thread.created_at (appended (a ∷ []))
  current : t'.current_turn ≡ some (advance a turn)
  pending : t'.pending_tool_events ≡ t.pending_tool_events
  audit : t'.state ≡ t.state
  revision : t'.revision ≡ t.revision
  locator : t'.locator ≡ t.locator

act-OneStep :
    (a : TurnAction) (t : Thread) (turn : CurrentTurn)
    → t.current_turn ≡ some turn
    → (t' : Thread) × OneStep t turn a t'
unfolding act append_message record_tool_event buffer_turn_event
act-OneStep (appends m) t turn e =
    let created =
      if ltb m.created_at t.thread.created_at then m.created_at else t.thread.created_at in
    (
      record t {
        thread = record {
          messages = t.thread.messages ++ m ∷ [];
          created_at = created;
          updated_at = m.created_at;
        };
      },
      ground arith,
    )
act-OneStep (records x) t turn e = (
  record t { current_turn = some (advance (records x) turn) },
  ground (arith, append-nil t.thread.messages),
)
act-OneStep (buffers x) t turn e = (
  record t { current_turn = some (advance (buffers x) turn) },
  ground (arith, append-nil t.thread.messages),
)

Progress-cons :
    (a : TurnAction) (r : List TurnAction) (t t' t'' : Thread) (turn : CurrentTurn)
    → OneStep t turn a t'
    → Progress t' (advance a turn) r t''
    → Progress t turn (a ∷ r) t''
Progress-cons (appends m) r t t' t'' turn s p =
    ground (arith, append_assoc t.thread.messages (m ∷ []) (appended r))
Progress-cons (records e) r t t' t'' turn s p =
    ground
      (arith, append-nil t.thread.messages, append_assoc turn.tool_events (e ∷ []) (recorded r))
Progress-cons (buffers e) r t t' t'' turn s p =
    ground
      (arith, append-nil t.thread.messages, append_assoc turn.buffered_events (e ∷ []) (buffered r))

pub act_all-Progress :
    (r : List TurnAction) (t : Thread) (turn : CurrentTurn)
    → t.current_turn ≡ some turn
    → (t' : Thread) × (act_all r t ≡ ok t') × Progress t turn r t'
unfolding act_all
act_all-Progress [] t turn e = (
  t,
  refl,
  ground (
    arith,
    append-nil t.thread.messages,
    append-nil turn.tool_events,
    append-nil turn.buffered_events,
  ),
)
act_all-Progress (a ∷ r) t turn e =
    let (t', s) = act-OneStep a t turn e in
    let (t'', ran, p) = act_all-Progress r t' (advance a turn) s.current in
    (t'', rw (s.acted, act_all) ran, Progress-cons a r t t' t'' turn s p)
