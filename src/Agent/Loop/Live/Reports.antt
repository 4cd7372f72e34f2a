-- ===== src/Agent/Loop/Live/Reports.antt =====
-- agent/agent_loop.rs: what a whole run reports to the router, and the turn that it finalizes.
use openjarvis.Base.{
  Text, Json, List, [], ◌∷◌, ◌++◌, map, Option, none, some, true, refl, sym, ap, subst, ◌∙◌, ◌≡◌,
  Result, ok, err, arith, All,
}
use openjarvis.Context.{ChatMessage, Instant, Uuid, Role, chat_message}
use openjarvis.Thread.{FinalizedTurn}
use openjarvis.Thread.Turn.{
  begin_turn, current_turn_id, finalize_turn_success, finalize_turn_failure, settle, failure_reply,
}
use openjarvis.Compact.Budget.{Floats}
use openjarvis.Session.{ThreadLocator}
use openjarvis.Router.{CommittedMessage, message_committed}
use openjarvis.Agent.{Failure, Run, continue, ◌>>=◌, pure}
use openjarvis.Agent.Hooks.{HookKind}
use openjarvis.Agent.Events.{EventSender}
use openjarvis.Agent.Loop.{Outside, AgentLoop, World, emit_hook}
use openjarvis.Agent.Loop.Advance.{Advance, Advance-trans, marks, Single, Ours}
use openjarvis.Agent.Loop.Calm.{lift-Calm, draw-Calm}
use openjarvis.Agent.Loop.Commits.{
  Advances, then-Advances, step-Advances, use-Advances, Calm-Advances, commit_message-Advances,
}
use openjarvis.Agent.Loop.Round.{Answer, TurnLoopSuccess, turn_result}
use openjarvis.Agent.Loop.Round.Steps.{turn_result-Moves, pre_turn-Moves}
use openjarvis.Agent.Loop.Live.{
  Runtime, LoopOutput, TurnCompletion, turn_failure_event, prepare_thread_runtime, commit_failure,
  after_round, loop_body, turn_loop, until_done, announce, finalize, finish_turn, finish_or_wait,
  open_live_turn, live_rounds, reset_variables, run_live_thread, prompt_payload,
}

-- What a sequence that succeeds went through.
pub continue-ok :
    {W A B : Type 0} (x : Result Failure A) (f : A → Run W B) (w : W) (b : B)
    → (continue x f w).0 ≡ ok b
    → (a : A) × (x ≡ ok a) × (continue x f w ≡ f a w)
continue-ok (ok a) f w b e = (a, refl, refl)
continue-ok (err x) f w b e = ground arith

wrapped :
    {W A : Type 0} (x : Result Failure A) (w : W) (a : A)
    → (continue x (λ y. pure (some y)) w).0 ≡ ok (some a)
    → (x ≡ ok a) × ((continue x (λ y. pure (some y)) w).1 ≡ w)
wrapped (ok y) w a e = (ground arith, refl)
wrapped (err x) w a e = ground arith

module _ {S E : Type 0} (floats : Floats) (o : Outside S E floats.Float)
    (a : AgentLoop E floats.Float) (rt : Runtime S E floats.Float) (l : ThreadLocator)
    (tx : EventSender) where
  abbrev Moves : {A : Type 0} → Run (World S E floats.Float) A → Type 0
  Moves m = Advances S E floats.Float l m

  done-Moves : {A : Type 0} (x : A) → Moves (pure x)
  done-Moves x = Calm-Advances S E floats.Float l (pure x) (lift-Calm S E floats.Float (ok x))

  commit_failure-Moves : (error : Text) → Moves (commit_failure floats o a rt l tx error)
  unfolding commit_failure
  commit_failure-Moves error =
      then-Advances S E floats.Float l _ _
        (Calm-Advances S E floats.Float l _ (draw-Calm S E floats.Float o.now))
        (λ at.
          then-Advances S E floats.Float l _ _
            (commit_message-Advances o l tx (chat_message Role.assistant (failure_reply error) at)
              (turn_failure_event (failure_reply error) ∷ []))
            (λ _. done-Moves (record { reply = failure_reply error; failure_error = some error })))

  after_round-Moves :
      (r : Result Failure TurnLoopSuccess) → Moves (after_round floats o a rt l tx r)
  unfolding after_round
  after_round-Moves (ok r) = done-Moves _
  after_round-Moves (err e) =
      then-Advances S E floats.Float l _ _ (commit_failure-Moves e.chain) (λ c. done-Moves (some c))

  round-Moves :
      (thread_id : Text) (generate : Answer)
      → Moves (λ w.
        let round = turn_result floats o a l tx thread_id generate w in
        after_round floats o a rt l tx round.0 round.1)
  round-Moves thread_id generate = step-Advances S E floats.Float l _ (λ w.
      let round = turn_result floats o a l tx thread_id generate w in
      Advance-trans l w round.1 (after_round floats o a rt l tx round.0 round.1).1
        (use-Advances S E floats.Float l _ (turn_result-Moves floats o a l tx thread_id generate) w)
        (use-Advances S E floats.Float l _ (after_round-Moves round.0) round.1))

  loop_body-Moves :
      (thread_id : Text) (generate : Answer)
      → Moves (loop_body floats o a rt l tx thread_id generate)
  unfolding loop_body
  loop_body-Moves thread_id generate =
      then-Advances S E floats.Float l _ _ (pre_turn-Moves floats o a l tx thread_id)
        (λ _. round-Moves thread_id generate)

  until_done-Moves :
      (more : Run (World S E floats.Float) (Option TurnCompletion)) (done : Option TurnCompletion)
      → Moves more
      → Moves (until_done floats o a rt l tx more done)
  until_done-Moves more none h = h
  until_done-Moves more (some c) h = done-Moves (some c)

  turn_loop-Moves :
      (thread_id : Text) (answers : List Answer)
      → Moves (turn_loop floats o a rt l tx thread_id answers)
  unfolding turn_loop
  turn_loop-Moves thread_id [] = done-Moves none
  turn_loop-Moves thread_id (generate ∷ answers) =
      then-Advances S E floats.Float l _ _ (loop_body-Moves thread_id generate) (λ done.
        until_done-Moves (turn_loop floats o a rt l tx thread_id answers) done
          (turn_loop-Moves thread_id answers))

  -- The opening, on a thread that has no open turn.
  opening :
      (external : Option Text) (at : Instant) (w : World S E floats.Float)
      → w.thread.current_turn ≡ none
      → ((open_live_turn floats o a rt l tx external at w).0 ≡ ok (o.new_id w.env).0)
        × (current_turn_id (open_live_turn floats o a rt l tx external at w).1.thread
            ≡ some (o.new_id w.env).0)
        × ((open_live_turn floats o a rt l tx external at w).1.event_tx ≡ w.event_tx)
        × ((open_live_turn floats o a rt l tx external at w).1.reply_to_source ≡ w.reply_to_source)
  unfolding open_live_turn begin_turn current_turn_id
  opening external at w e = ground arith

  -- What is known of a run from the opening of its turn up to a world.
  pub record Runs (id : Uuid) (w w' : World S E floats.Float) : Type 0 where
    pub sent : List CommittedMessage
    pub turn : current_turn_id w'.thread ≡ some id
    pub events : w'.event_tx.sent ≡ w.event_tx.sent ++ map message_committed sent
    pub ours : All (Ours l (some id)) sent
    pub single : Single w.reply_to_source (marks sent)

  opened-Runs :
      (id : Uuid) (w u w' : World S E floats.Float)
      → current_turn_id u.thread ≡ some id
      → u.event_tx ≡ w.event_tx
      → u.reply_to_source ≡ w.reply_to_source
      → Advance l u w'
      → Runs id w w'
  opened-Runs id w u w' t e b p = record {
    sent = p.sent;
    turn = p.turn ∙ t;
    events = p.events ∙ ap (λ s. s.sent ++ map message_committed p.sent) e;
    ours = subst (λ x. All (Ours l x) p.sent) t p.ours;
    single = subst (λ x. Single x (marks p.sent)) b p.single;
  }

  -- From a thread with no open turn, however the rounds end, in an answer, in a failure, or waiting for
  -- the model: the turn that was opened is still open, the router was sent only messages of this thread
  -- and this turn, and at most the first payload of them answers the source, if one still may.
  pub live_rounds-Runs :
      (thread_id : Text) (m : ChatMessage) (external : Option Text) (answers : List Answer)
      (w : World S E floats.Float)
      → w.thread.current_turn ≡ none
      → Runs (o.new_id w.env).0 w (live_rounds floats o a rt l tx thread_id m external answers w).1
  unfolding live_rounds
  live_rounds-Runs thread_id m external answers w e =
      let opened = open_live_turn floats o a rt l tx external m.created_at w in
      let (r, t, s, b) = opening external m.created_at w e in
      rw r (
        opened-Runs (o.new_id w.env).0 w opened.1 _ t s b (
          use-Advances S E floats.Float l _
            (then-Advances S E floats.Float l _ _ (commit_message-Advances o l tx m [])
              (λ _. turn_loop-Moves thread_id answers))
            opened.1))

  -- A finalization that succeeds takes the open turn, and touches nothing else.
  record Closes (w w' : World S E floats.Float) (f : FinalizedTurn) : Type 0 where
    turn : current_turn_id w.thread ≡ some f.turn_id
    closed : w'.thread.current_turn ≡ none
    snapshot : f.snapshot ≡ w'.thread
    sender : w'.event_tx ≡ w.event_tx

  finalize-Closes :
      (c : TurnCompletion) (at : Instant) (w : World S E floats.Float) (f : FinalizedTurn)
      → (finalize floats o a rt l tx c at w).0 ≡ ok f
      → Closes w (finalize floats o a rt l tx c at w).1 f
  unfolding finalize finalize_turn_success finalize_turn_failure current_turn_id settle
  finalize-Closes c at w f e = record {
    turn = ground arith;
    closed = ground arith;
    snapshot = ground arith;
    sender = ground arith;
  }

  announce-turns :
      (c : TurnCompletion) (f : FinalizedTurn) (w : World S E floats.Float) (output : LoopOutput)
      → (announce floats o a rt l tx c f w).0 ≡ ok output
      → (output.turns ≡ f ∷ [])
        × ((announce floats o a rt l tx c f w).1.thread ≡ w.thread)
        × ((announce floats o a rt l tx c f w).1.event_tx ≡ w.event_tx)
  unfolding announce emit_hook
  announce-turns c f w output e = ground arith

  announced-Closes :
      (c : TurnCompletion) (x : Result Failure FinalizedTurn) (w w' : World S E floats.Float)
      (output : LoopOutput)
      → ((f : FinalizedTurn) → x ≡ ok f → Closes w w' f)
      → (continue x (announce floats o a rt l tx c) w').0 ≡ ok output
      → (f : FinalizedTurn) × (output.turns ≡ f ∷ [])
        × Closes w (continue x (announce floats o a rt l tx c) w').1 f
  announced-Closes c (ok f) w w' output h e =
      let (turns, thread, sender) = announce-turns c f w' output e in
      let p = h f refl in
      (
        f,
        turns,
        record {
          turn = p.turn;
          closed = ap (λ t. t.current_turn) thread ∙ p.closed;
          snapshot = p.snapshot ∙ sym thread;
          sender = sender ∙ p.sender;
        },
      )
  announced-Closes c (err x) w w' output h e = ground arith

  finish_turn-Closes :
      (c : TurnCompletion) (w : World S E floats.Float) (output : LoopOutput)
      → (finish_turn floats o a rt l tx c w).0 ≡ ok output
      → (f : FinalizedTurn) × (output.turns ≡ f ∷ [])
        × Closes w (finish_turn floats o a rt l tx c w).1 f
  unfolding finish_turn
  finish_turn-Closes c w output e =
      let at = (o.now w.env).0 in
      let w₀ : World S E floats.Float = record w { env = (o.now w.env).1 } in
      let closed : (f : FinalizedTurn)
          → (finalize floats o a rt l tx c at w₀).0 ≡ ok f
          → Closes w (finalize floats o a rt l tx c at w₀).1 f =
        λ f k.
          let p = finalize-Closes c at w₀ f k in
          record { turn = p.turn; closed = p.closed; snapshot = p.snapshot; sender = p.sender } in
      announced-Closes c (finalize floats o a rt l tx c at w₀).0 w
        (finalize floats o a rt l tx c at w₀).1 output closed e

  -- What a run of which the result is known has reported, from the world it began with.
  pub record Reported (w w' : World S E floats.Float) (f : FinalizedTurn) : Type 0 where
    pub sent : List CommittedMessage
    pub events : w'.event_tx.sent ≡ w.event_tx.sent ++ map message_committed sent
    pub ours : All (Ours l (some f.turn_id)) sent
    pub single : Single true (marks sent)
    pub closed : w'.thread.current_turn ≡ none
    pub snapshot : f.snapshot ≡ w'.thread

  closed-Reported :
      (id : Uuid) (v w w' : World S E floats.Float) (f : FinalizedTurn)
      → v.reply_to_source ≡ true
      → Runs id v w
      → Closes w w' f
      → Reported v w' f
  closed-Reported id v w w' f b p q =
      let same : some id ≡ some f.turn_id = sym p.turn ∙ q.turn in
      record {
        sent = p.sent;
        events = ap (λ s. s.sent) q.sender ∙ p.events;
        ours = subst (λ x. All (Ours l x) p.sent) same p.ours;
        single = subst (λ x. Single x (marks p.sent)) b p.single;
        closed = q.closed;
        snapshot = q.snapshot;
      }

  finish_or_wait-Reported :
      (id : Uuid) (v w : World S E floats.Float) (x : Result Failure (Option TurnCompletion))
      (output : LoopOutput)
      → v.reply_to_source ≡ true
      → Runs id v w
      → (continue x (finish_or_wait floats o a rt l tx) w).0 ≡ ok (some output)
      → (f : FinalizedTurn) × (output.turns ≡ f ∷ [])
        × Reported v (continue x (finish_or_wait floats o a rt l tx) w).1 f
  unfolding finish_or_wait
  finish_or_wait-Reported id v w (ok none) output b p e = ground arith
  finish_or_wait-Reported id v w (err x) output b p e = ground arith
  finish_or_wait-Reported id v w (ok (some c)) output b p e =
      let finished = finish_turn floats o a rt l tx c w in
      let (r, s) = wrapped finished.0 finished.1 output e in
      let (f, turns, q) = finish_turn-Closes c w output r in
      (f, turns, subst (λ u. Reported v u f) (sym s) (closed-Reported id v w finished.1 f b p q))

  -- The world that a run begins with matters by what was sent only.
  Reported-sent :
      (u v w : World S E floats.Float) (f : FinalizedTurn)
      → v.event_tx ≡ u.event_tx
      → Reported v w f
      → Reported u w f
  Reported-sent u v w f e p = record {
    sent = p.sent;
    events = p.events ∙ ap (λ s. s.sent ++ map message_committed p.sent) e;
    ours = p.ours;
    single = p.single;
    closed = p.closed;
    snapshot = p.snapshot;
  }

  abbrev pub rounds_to_end :
      Text
      → ChatMessage
      → Option Text
      → List Answer
      → Run (World S E floats.Float) (Option LoopOutput)
  rounds_to_end thread_id m external answers =
      live_rounds floats o a rt l tx thread_id m external answers
      >>= finish_or_wait floats o a rt l tx

  module _ (thread_id : Text) (m : ChatMessage) (external : Option Text) (answers : List Answer)
      (output : LoopOutput) where
    rounds-Reported :
        (w : World S E floats.Float)
        → w.thread.current_turn ≡ none
        → w.reply_to_source ≡ true
        → (rounds_to_end thread_id m external answers w).0 ≡ ok (some output)
        → (f : FinalizedTurn) × (output.turns ≡ f ∷ [])
          × Reported w (rounds_to_end thread_id m external answers w).1 f
    rounds-Reported w c b e =
        let ran = live_rounds floats o a rt l tx thread_id m external answers w in
        finish_or_wait-Reported (o.new_id w.env).0 w ran.1 ran.0 output b
          (live_rounds-Runs thread_id m external answers w c) e

    after-Reported :
        (x : Result Failure (Unit {0})) (w : World S E floats.Float)
        (next : Run (World S E floats.Float) (Option LoopOutput))
        → ((next w).0 ≡ ok (some output)
            → (f : FinalizedTurn) × (output.turns ≡ f ∷ []) × Reported w (next w).1 f)
        → (continue x (λ _. next) w).0 ≡ ok (some output)
        → (f : FinalizedTurn) × (output.turns ≡ f ∷ []) × Reported w (continue x (λ _. next) w).1 f
    after-Reported (ok u) w next h e = h e
    after-Reported (err y) w next h e = ground arith

    hooked-Reported :
        (payload : Json) (w : World S E floats.Float)
        → w.thread.current_turn ≡ none
        → w.reply_to_source ≡ true
        → ((emit_hook a.hooks HookKind.user_prompt_submit payload
              >>= (λ _. rounds_to_end thread_id m external answers))
            w).0
          ≡ ok (some output)
        → (f : FinalizedTurn) × (output.turns ≡ f ∷ [])
          × Reported w
              ((emit_hook a.hooks HookKind.user_prompt_submit payload
                  >>= (λ _. rounds_to_end thread_id m external answers))
                w).1
              f
    unfolding emit_hook
    hooked-Reported payload w c b e =
        let emitted = emit_hook a.hooks HookKind.user_prompt_submit payload w in
        let (f, turns, p) =
          after-Reported emitted.0 emitted.1 (rounds_to_end thread_id m external answers)
            (rounds-Reported emitted.1 c b) e in
        (f, turns, Reported-sent w emitted.1 _ f refl p)

-- A run on a thread with no open turn, that ends with an output: the output has one turn; what the
-- run sent to the router, after what was sent before, is messages of this thread and of this turn
-- and nothing else; at most the first payload of them answers the source; and the thread is left
-- with no open turn, as the turn's snapshot.
pub run_live_thread-Reported :
    {S E : Type 0} (floats : Floats) (o : Outside S E floats.Float) (a : AgentLoop E floats.Float)
    (rt : Runtime S E floats.Float) (l : ThreadLocator) (tx : EventSender) (m : ChatMessage)
    (external : Option Text) (answers : List Answer) (w : World S E floats.Float)
    (output : LoopOutput)
    → w.thread.current_turn ≡ none
    → (run_live_thread floats o a rt l tx m external answers w).0 ≡ ok (some output)
    → (f : FinalizedTurn) × (output.turns ≡ f ∷ [])
      × Reported floats o a rt l tx w (run_live_thread floats o a rt l tx m external answers w).1 f
unfolding run_live_thread prepare_thread_runtime
run_live_thread-Reported floats o a rt l tx m external answers w output c e =
    let id = w.thread.locator.thread_id in
    let prepared = prepare_thread_runtime rt (reset_variables floats o a rt l tx w) in
    let payload = prompt_payload floats o a rt l tx w.thread in
    let (f, turns, p) =
      after-Reported floats o a rt l tx id m external answers output prepared.0 prepared.1
        (emit_hook a.hooks HookKind.user_prompt_submit payload
          >>= (λ _. rounds_to_end floats o a rt l tx id m external answers))
        (hooked-Reported floats o a rt l tx id m external answers output payload prepared.1 c refl)
        e in
    (f, turns, Reported-sent floats o a rt l tx w prepared.1 _ f refl p)
