-- ===== src/Agent/Worker/Reports.antt =====
-- agent/worker.rs: what the worker reports of a request.
use openjarvis.Base.{
  txt, Text, List, [], ◌∷◌, ◌++◌, map, Option, none, some, Bool, true, false, refl, sym, ap, subst,
  ◌∙◌, ◌≡◌, Result, ok, err, arith, All, is_empty,
}
use mathlib.Core.List.{append_assoc}
use openjarvis.Context.{ChatMessage, Instant}
use openjarvis.Thread.{Thread, FinalizedTurn}
use openjarvis.Thread.Messages.{messages, replace_messages}
use openjarvis.Thread.Turn.{current_turn_id}
use openjarvis.Compact.Budget.{Floats}
use openjarvis.Session.{ThreadLocator}
use openjarvis.Router.{
  AgentRequest, AgentEvent, CommittedMessage, message_committed, turn_finalized, request_completed,
}
use openjarvis.Agent.{Failure, Run, continue, ◌>>=◌, pure, fail}
use openjarvis.Agent.Events.{EventSender, from_incoming_and_locator, incoming_message}
use openjarvis.Agent.Loop.{World, report_event}
use openjarvis.Agent.Loop.Advance.{marks, Single, Ours}
use openjarvis.Agent.Loop.Round.{Answer}
use openjarvis.Agent.Loop.Calm.{if-Same, Calm, step-Calm, use-Calm, then-Calm, persist_locked-Calm}
use openjarvis.Agent.Loop.Live.{
  prepare_thread_runtime, LoopOutput, run_locked_thread, run_live_thread,
}
use openjarvis.Agent.Loop.Live.Reports.{Reported, continue-ok, run_live_thread-Reported}
use openjarvis.Agent.Worker.{
  AgentWorker, commit_turn, report_turn, report_turns, report_completed, conclude, run_request,
  fallback, start_thread, initialize_thread, set_initial, build_initial, persist_initial, serve,
  serve_locked, handle_request, lock_thread,
}

module _ {S E F : Type 0} where
  report_event-sent :
      (what reason : Text) (e : AgentEvent) (w : World S E F)
      → (report_event what reason e w).0 ≡ ok tt
      → (report_event what reason e w).1.event_tx.sent ≡ w.event_tx.sent ++ e ∷ []
  report_event-sent what reason e w h = ground arith

never-ok :
    {W A B : Type 0} (x : Result Failure A) (y : Failure) (w : W)
    → (e : Failure) × ((continue x (λ _. fail {A = B} y) w).0 ≡ err e)
never-ok (ok a) y w = (y, refl)
never-ok (err e) y w = (e, refl)

module _ {S E : Type 0} (floats : Floats) (k : AgentWorker S E floats.Float) where
  commit_turn-sender :
      (l : ThreadLocator) (f : FinalizedTurn) (w : World S E floats.Float)
      → (commit_turn floats k l f w).1.event_tx ≡ w.event_tx
  unfolding commit_turn
  commit_turn-sender l f w = ground arith

  report_turn-sent :
      (what : Text) (l : ThreadLocator) (f : FinalizedTurn) (w : World S E floats.Float)
      → (report_turn floats k what l f w).0 ≡ ok tt
      → (report_turn floats k what l f w).1.event_tx.sent
        ≡ w.event_tx.sent ++ turn_finalized l f ∷ []
  unfolding report_turn
  report_turn-sent what l f w h =
      let committed = commit_turn floats k l f w in
      let (u, r, e) =
        continue-ok committed.0
          (λ _. report_event what k.outside.channel_closed (turn_finalized l f)) committed.1 tt h in
      ap (λ x. x.1.event_tx.sent) e
      ∙ report_event-sent what k.outside.channel_closed (turn_finalized l f) committed.1
          (sym (ap (λ x. x.0) e) ∙ h)
      ∙ ap (λ s. s.sent ++ turn_finalized l f ∷ []) (commit_turn-sender l f w)

  report_completed-sent :
      (what : Text) (l : ThreadLocator) (w : World S E floats.Float)
      → (report_completed floats k what l w).0 ≡ ok tt
      → (report_completed floats k what l w).1.event_tx.sent
        ≡ w.event_tx.sent ++ request_completed l (k.outside.now w.env).0 ∷ []
  unfolding report_completed
  report_completed-sent what l w h = ground arith

  -- The two reports that follow the messages of a request.
  reported-sent :
      (what what' : Text) (l : ThreadLocator) (f : FinalizedTurn) (w : World S E floats.Float)
      → ((report_turn floats k what l f >>= (λ _. report_completed floats k what' l)) w).0 ≡ ok tt
      → (at : Instant) × (((report_turn floats k what l f
              >>= (λ _. report_completed floats k what' l))
            w).1.event_tx.sent
          ≡ w.event_tx.sent ++ (turn_finalized l f ∷ request_completed l at ∷ []))
  reported-sent what what' l f w h =
      let reported = report_turn floats k what l f w in
      let (u, r, e) =
        continue-ok reported.0 (λ _. report_completed floats k what' l) reported.1 tt h in
      (
        (k.outside.now reported.1.env).0,
        ap (λ x. x.1.event_tx.sent) e
            ∙ report_completed-sent what' l reported.1 (sym (ap (λ x. x.0) e) ∙ h)
            ∙ ap (λ s. s ++ request_completed l (k.outside.now reported.1.env).0 ∷ [])
                (report_turn-sent what l f w r)
            ∙ append_assoc w.event_tx.sent (turn_finalized l f ∷ [])
                (request_completed l (k.outside.now reported.1.env).0 ∷ []),
      )

  report_turns-sent :
      (l : ThreadLocator) (f : FinalizedTurn) (w : World S E floats.Float)
      → (report_turns floats k l (f ∷ []) w).0 ≡ ok tt
      → (report_turns floats k l (f ∷ []) w).1.event_tx.sent
        ≡ w.event_tx.sent ++ turn_finalized l f ∷ []
  unfolding report_turns
  report_turns-sent l f w h =
      let what = txt "failed to report finalized turn: " in
      let reported = report_turn floats k what l f w in
      let (u, r, e) = continue-ok reported.0 (λ _. pure tt) reported.1 tt h in
      ap (λ x. x.1.event_tx.sent) e ∙ report_turn-sent what l f w r

  conclude-sent :
      (q : AgentRequest) (output : LoopOutput) (f : FinalizedTurn) (w : World S E floats.Float)
      (x : Option LoopOutput)
      → output.turns ≡ f ∷ []
      → (conclude floats k q (ok (some output)) w).0 ≡ ok x
      → (at : Instant) × ((conclude floats k q (ok (some output)) w).1.event_tx.sent
          ≡ w.event_tx.sent ++ (turn_finalized q.locator f ∷ request_completed q.locator at ∷ []))
  unfolding conclude
  conclude-sent q output f w x t h =
      let l = q.locator in
      let what = txt "failed to report completed request: " in
      let turns = report_turns floats k l output.turns w in
      let (u, r, e) =
        continue-ok turns.0 (λ _. report_completed floats k what l >>= (λ _. pure (some output)))
          turns.1 x h in
      let completed = report_completed floats k what l turns.1 in
      let (v, r', e') =
        continue-ok completed.0 (λ _. pure (some output)) completed.1 x
          (sym (ap (λ y. y.0) e) ∙ h) in
      let first : turns.1.event_tx.sent ≡ w.event_tx.sent ++ turn_finalized l f ∷ [] =
        ap (λ fs. (report_turns floats k l fs w).1.event_tx.sent) t
        ∙ report_turns-sent l f w (sym (ap (λ fs. (report_turns floats k l fs w).0) t) ∙ r) in
      (
        (k.outside.now turns.1.env).0,
        ap (λ y. y.1.event_tx.sent) (e ∙ e')
            ∙ report_completed-sent what l turns.1 r'
            ∙ ap (λ s. s ++ request_completed l (k.outside.now turns.1.env).0 ∷ []) first
            ∙ append_assoc w.event_tx.sent (turn_finalized l f ∷ [])
                (request_completed l (k.outside.now turns.1.env).0 ∷ []),
      )

  -- What the router gets of a request: the messages of one turn, then the turn, then the end.
  pub record Answered (l : ThreadLocator) (w w' : World S E floats.Float) (f : FinalizedTurn)
      : Type 0 where
    pub sent : List CommittedMessage
    pub completed_at : Instant
    pub events :
        w'.event_tx.sent
        ≡ w.event_tx.sent
          ++ (map message_committed sent
              ++ (turn_finalized l f ∷ request_completed l completed_at ∷ []))
    pub ours : All (Ours l (some f.turn_id)) sent
    pub single : Single true (marks sent)

  concluded-Answered :
      (q : AgentRequest) (tx : EventSender) (x : Result Failure (Option LoopOutput))
      (v w : World S E floats.Float) (output : LoopOutput)
      → ((y : LoopOutput)
          → x ≡ ok (some y)
          → (f : FinalizedTurn) × (y.turns ≡ f ∷ [])
            × Reported floats k.outside k.agent_loop k.runtime q.locator tx v w f)
      → (conclude floats k q x w).0 ≡ ok (some output)
      → (f : FinalizedTurn) × Answered q.locator v (conclude floats k q x w).1 f
  unfolding conclude
  concluded-Answered q tx (ok none) v w output h e = ground arith
  concluded-Answered q tx (err y) v w output h e =
      let (z, n) =
        never-ok {B = Option LoopOutput} (fallback floats k q y.chain w).0 y
          (fallback floats k q y.chain w).1 in
      ground (arith, n, e)
  concluded-Answered q tx (ok (some y)) v w output h e =
      let (f, turns, p) = h y refl in
      let (at, s) = conclude-sent q y f w (some output) turns e in
      (
        f,
        record {
          sent = p.sent;
          completed_at = at;
          events =
              s
              ∙ ap (λ es. es ++ (turn_finalized q.locator f ∷ request_completed q.locator at ∷ []))
                  p.events
              ∙ append_assoc v.event_tx.sent (map message_committed p.sent)
                  (turn_finalized q.locator f ∷ request_completed q.locator at ∷ []);
          ours = p.ours;
          single = p.single;
        },
      )

  run_request-Answered :
      (q : AgentRequest) (answers : List Answer) (w : World S E floats.Float) (output : LoopOutput)
      → w.thread.current_turn ≡ none
      → (run_request floats k q answers w).0 ≡ ok (some output)
      → (f : FinalizedTurn) × Answered q.locator w (run_request floats k q answers w).1 f
  unfolding run_request run_locked_thread
  run_request-Answered q answers w output c e =
      let tx = from_incoming_and_locator q.incoming w.thread.locator in
      let m = incoming_message q.incoming in
      let external = q.incoming.external_message_id in
      let ran =
        run_live_thread floats k.outside k.agent_loop k.runtime q.locator tx m external answers w in
      concluded-Answered q tx ran.0 w ran.1 output
        (λ y h.
          run_live_thread-Reported floats k.outside k.agent_loop k.runtime q.locator tx m external
            answers w y c h)
        e

  set_initial-Calm : (ms : List ChatMessage) → Calm S E floats.Float (set_initial floats k ms)
  unfolding set_initial replace_messages current_turn_id
  set_initial-Calm [] = step-Calm S E floats.Float _ (λ w. (refl, refl, refl))
  set_initial-Calm (m ∷ ms) = step-Calm S E floats.Float _ (λ w. (refl, refl, refl))

  build_initial-Calm : Calm S E floats.Float (build_initial floats k)
  unfolding build_initial
  build_initial-Calm = step-Calm S E floats.Float _ (λ w. (refl, refl, refl))

  start_thread-Calm : Calm S E floats.Float (start_thread floats k)
  unfolding start_thread
  start_thread-Calm =
      then-Calm S E floats.Float _ _
        (step-Calm S E floats.Float (prepare_thread_runtime k.runtime)
          (unfold prepare_thread_runtime in λ w. (refl, refl, refl)))
        (λ _. then-Calm S E floats.Float _ _ build_initial-Calm set_initial-Calm)

  initialize_thread-Calm : Calm S E floats.Float (initialize_thread floats k)
  unfolding initialize_thread
  initialize_thread-Calm = step-Calm S E floats.Float _ (λ w.
      if-Same (is_empty (messages w.thread)) w (start_thread floats k w) (ok false, w)
        (use-Calm S E floats.Float _ start_thread-Calm w) (refl, refl, refl))

  persist_initial-Calm :
      (l : ThreadLocator) (at : Instant) (b : Bool)
      → Calm S E floats.Float (persist_initial floats k l at b)
  unfolding persist_initial
  persist_initial-Calm l at false = step-Calm S E floats.Float _ (λ w. (refl, refl, refl))
  persist_initial-Calm l at true =
      step-Calm S E floats.Float _
        (λ w. use-Calm S E floats.Float _ (persist_locked-Calm k.outside l at) w)

  no_turn : (t : Thread) → current_turn_id t ≡ none → t.current_turn ≡ none
  unfolding current_turn_id
  no_turn t e = ground arith

  -- Of a report from a world with the same events sent.
  Answered-sent :
      (l : ThreadLocator) (u v w : World S E floats.Float) (f : FinalizedTurn)
      → v.event_tx ≡ u.event_tx
      → Answered l v w f
      → Answered l u w f
  Answered-sent l u v w f e p = record {
    sent = p.sent;
    completed_at = p.completed_at;
    events =
        p.events
        ∙ ap
            (λ s.
              s.sent
              ++ (map message_committed p.sent
                  ++ (turn_finalized l f ∷ request_completed l p.completed_at ∷ [])))
            e;
    ours = p.ours;
    single = p.single;
  }

  -- After calm steps on a thread that has no open turn.
  Calm-Answered :
      {A : Type 0} (l : ThreadLocator) (m : Run (World S E floats.Float) A)
      (next : A → Run (World S E floats.Float) (Option LoopOutput)) (output : LoopOutput)
      → Calm S E floats.Float m
      → ((y : A) (w : World S E floats.Float)
          → current_turn_id w.thread ≡ none
          → (next y w).0 ≡ ok (some output)
          → (f : FinalizedTurn) × Answered l w (next y w).1 f)
      → (w : World S E floats.Float) → current_turn_id w.thread ≡ none
      → ((m >>= next) w).0 ≡ ok (some output)
      → (f : FinalizedTurn) × Answered l w ((m >>= next) w).1 f
  Calm-Answered l m next output c h w t e =
      let same = use-Calm S E floats.Float m c w in
      let (y, r, s) = continue-ok (m w).0 next (m w).1 (some output) e in
      let (f, p) = h y (m w).1 (same.0 ∙ t) (sym (ap (λ x. x.0) s) ∙ e) in
      (
        f,
        subst (λ x. Answered l w x f) (sym (ap (λ x. x.1) s))
            (Answered-sent l w (m w).1 _ f same.1 p),
      )

  serve-Answered :
      (q : AgentRequest) (answers : List Answer) (output : LoopOutput) (w : World S E floats.Float)
      → current_turn_id w.thread ≡ none
      → (serve floats k q answers w).0 ≡ ok (some output)
      → (f : FinalizedTurn) × Answered q.locator w (serve floats k q answers w).1 f
  unfolding serve
  serve-Answered q answers output =
      let at = q.incoming.received_at in
      Calm-Answered q.locator (initialize_thread floats k)
        (λ b. persist_initial floats k q.locator at b >>= (λ _. run_request floats k q answers))
        output initialize_thread-Calm
        (λ b.
          Calm-Answered q.locator (persist_initial floats k q.locator at b)
            (λ _. run_request floats k q answers) output (persist_initial-Calm q.locator at b)
            (λ _ w t e. run_request-Answered q answers w output (no_turn w.thread t) e))

  lock_thread-sender :
      (l : ThreadLocator) (at : Instant) (w : World S E floats.Float)
      → (lock_thread floats k l at w).1.event_tx ≡ w.event_tx
  unfolding lock_thread
  lock_thread-sender l at w = ground arith

  serve_locked-Answered :
      (q : AgentRequest) (answers : List Answer) (output : LoopOutput) (w : World S E floats.Float)
      → current_turn_id w.thread ≡ none
      → (serve_locked floats k q answers w).0 ≡ ok (some output)
      → (f : FinalizedTurn) × Answered q.locator w (serve_locked floats k q answers w).1 f
  unfolding serve_locked
  serve_locked-Answered q answers output w t e =
      let (f, p) = serve-Answered q answers output w t e in
      (
        f,
        rw e (record {
          sent = p.sent;
          completed_at = p.completed_at;
          events = p.events;
          ours = p.ours;
          single = p.single;
        }),
      )

-- A request that is answered with an output, on a thread that has no open turn when it is locked:
-- after what was sent before, the router is sent committed messages of one turn of the thread, of
-- which at most the first payload answers the source, then that turn as finalized, and last that
-- the request is completed.
pub handle_request-Answered :
    {S E : Type 0} (floats : Floats) (k : AgentWorker S E floats.Float) (q : AgentRequest)
    (answers : List Answer) (w : World S E floats.Float) (output : LoopOutput)
    → current_turn_id (lock_thread floats k q.locator q.incoming.received_at w).1.thread ≡ none
    → (handle_request floats k q answers w).0 ≡ ok (some output)
    → (f : FinalizedTurn) × Answered floats k q.locator w (handle_request floats k q answers w).1 f
unfolding handle_request
handle_request-Answered floats k q answers w output t e =
    let locked = lock_thread floats k q.locator q.incoming.received_at w in
    let (y, r, s) =
      continue-ok locked.0 (λ _. serve_locked floats k q answers) locked.1 (some output) e in
    let (f, p) =
      serve_locked-Answered floats k q answers output locked.1 t (sym (ap (λ x. x.0) s) ∙ e) in
    (
      f,
      subst (λ x. Answered floats k q.locator w x f) (sym (ap (λ x. x.1) s))
          (Answered-sent floats k q.locator w locked.1 _ f
            (lock_thread-sender floats k q.locator q.incoming.received_at w) p),
    )
