-- ===== src/Thread/Turn/Audit.antt =====
-- thread.rs: over any history of calls, whether they succeed or fail, the audit trail of tool
-- events loses nothing, repeats nothing and keeps its order.
use mathlib.Core.List.{append_assoc, append-nil, map-append}
use openjarvis.Base.{
  Text, List, [], ◌∷◌, ◌++◌, map, Option, none, some, ◌≡◌, refl, ◌∙◌, ap, arith, Result, ok, err,
  ◌⊎◌, inl, inr, Option-cases, sym, subst,
}
use openjarvis.Context.{ChatMessage, Uuid, Instant}
use openjarvis.Thread.{
  Thread, CurrentTurn, ThreadToolEvent, ThreadTurnEvent, ThreadError, with_turn_id,
}
use openjarvis.Thread.Turn.{
  begin_turn, record_tool_event, buffer_turn_event, settle, finalize_turn_success,
  finalize_turn_failure, pending_tool_events,
}
use openjarvis.Thread.Messages.{append_message}

pub data Call : Type 0 where
  begins : Uuid → Option Text → Instant → Call
  appends : ChatMessage → Call
  records : ThreadToolEvent → Call
  buffers : ThreadTurnEvent → Call
  succeeds : Text → Instant → Call
  fails : Text → Instant → Call

-- A call that fails leaves the thread as it was.
abbrev after : Thread → Result ThreadError Thread → Thread
after t (ok t') = t'
after t (err e) = t

abbrev after_with : {A : Type 0} → Thread → Result ThreadError (A × Thread) → Thread
after_with t (ok (a, t')) = t'
after_with t (err e) = t

pub call : Call → Thread → Thread
call (begins id external start) t = after_with t (begin_turn id external start t)
call (appends m) t = after t (append_message m t)
call (records e) t = record_tool_event e t
call (buffers e) t = after t (buffer_turn_event e t)
call (succeeds reply done) t = after_with t (finalize_turn_success reply done t)
call (fails error done) t = after_with t (finalize_turn_failure error done t)

pub history : List Call → Thread → Thread
history [] t = t
history (c ∷ cs) t = history cs (call c t)

abbrev pub noted : List Call → List ThreadToolEvent
noted [] = []
noted (records e ∷ cs) = e ∷ noted cs
noted (_ ∷ cs) = noted cs

-- An event without the turn that it is stamped with at the end.
abbrev pub untagged : ThreadToolEvent → ThreadToolEvent
untagged e = record e { turn_id = none }

abbrev pub trail : Thread → List ThreadToolEvent
trail t = map untagged (t.state.tools.tool_events ++ pending_tool_events t)

-- While a turn is open, no tool event waits outside it.
abbrev pub IsTidy : Thread → Type 0
IsTidy t = (t.current_turn ≡ none) ⊎ (t.pending_tool_events ≡ [])

map-untagged :
    (u : Uuid) (es : List ThreadToolEvent)
    → map untagged (map (with_turn_id u) es) ≡ map untagged es
map-untagged u [] = refl
map-untagged u (e ∷ es) = ap (◌∷◌ (untagged e)) (map-untagged u es)

abbrev noted_once : Call → List ThreadToolEvent
noted_once c = noted (c ∷ [])

record Kept (c : Call) (t t' : Thread) : Type 0 where
  tidy : IsTidy t'
  kept : trail t' ≡ trail t ++ map untagged (noted_once c)

module _ (t : Thread) (tidy : IsTidy t) where
  unchanged : (c : Call) → noted_once c ≡ [] → Kept c t t
  unchanged c e = record { tidy = tidy; kept = rw e (sym (append-nil (trail t))) }

  settle-Kept :
      (turn : CurrentTurn) (done : Instant) (c : Call)
      → noted_once c ≡ []
      → t.current_turn ≡ some turn
      → Kept c t (settle turn done t)
  unfolding settle pending_tool_events
  settle-Kept turn done c n e = ground (
    arith,
    append-nil (trail t),
    append-nil (t.state.tools.tool_events ++ map (with_turn_id turn.turn_id) turn.tool_events),
    map-append untagged t.state.tools.tool_events
        (map (with_turn_id turn.turn_id) turn.tool_events),
    map-append untagged t.state.tools.tool_events turn.tool_events,
    map-untagged turn.turn_id turn.tool_events,
  )

  call-Kept : (c : Call) → Kept c t (call c t)
  unfolding call begin_turn append_message record_tool_event buffer_turn_event finalize_turn_success
      finalize_turn_failure pending_tool_events
  call-Kept (begins id external start) = ground (arith, append-nil (trail t))
  call-Kept (appends m) = ground (arith, append-nil (trail t))
  call-Kept (records e) = ground (
    arith,
    append_assoc t.state.tools.tool_events t.pending_tool_events (e ∷ []),
    map-append untagged (t.state.tools.tool_events ++ pending_tool_events t) (e ∷ []),
    append_assoc t.state.tools.tool_events (pending_tool_events t) (e ∷ []),
  )
  call-Kept (buffers e) = ground (arith, append-nil (trail t))
  call-Kept (succeeds reply done) = elim (Option-cases t.current_turn) [
    | inl e ↦
        subst (Kept (succeeds reply done) t) (ground arith) (unchanged (succeeds reply done) refl)
    | inr (turn, e) ↦
        subst (Kept (succeeds reply done) t) (ground arith)
          (settle-Kept turn done (succeeds reply done) refl e)
  ]
  call-Kept (fails error done) = elim (Option-cases t.current_turn) [
    | inl e ↦ subst (Kept (fails error done) t) (ground arith) (unchanged (fails error done) refl)
    | inr (turn, e) ↦
        subst (Kept (fails error done) t) (ground arith)
          (settle-Kept turn done (fails error done) refl e)
  ]

Kept-cons :
    (c : Call) (cs : List Call) (t t' t'' : Thread)
    → Kept c t t'
    → trail t'' ≡ trail t' ++ map untagged (noted cs)
    → trail t'' ≡ trail t ++ map untagged (noted (c ∷ cs))
Kept-cons (records e) cs t t' t'' k q =
    q
    ∙ ap (λ (es : List ThreadToolEvent). es ++ map untagged (noted cs)) k.kept
    ∙ append_assoc (trail t) (untagged e ∷ []) (map untagged (noted cs))
Kept-cons (begins id external start) cs t t' t'' k q = ground (arith, k.kept, append-nil (trail t))
Kept-cons _ cs t t' t'' k q = ground (arith, k.kept, append-nil (trail t))

-- From a tidy thread, any sequence of calls, failing ones included, leaves a tidy thread whose
-- trail of persisted and open tool events is the old trail followed by the recorded events, in
-- order and as often, but for the turn that each is stamped with.
pub trail-history :
    (cs : List Call) (t : Thread)
    → IsTidy t
    → IsTidy (history cs t) × (trail (history cs t) ≡ trail t ++ map untagged (noted cs))
unfolding history
trail-history [] t tidy = (tidy, sym (append-nil (trail t)))
trail-history (c ∷ cs) t tidy =
    let k = call-Kept t tidy c in
    let (tidy', q) = trail-history cs (call c t) k.tidy in
    (tidy', Kept-cons c cs t (call c t) (history cs (call c t)) k q)
