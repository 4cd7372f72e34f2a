-- ===== src/Agent/Worker/Stuck.antt =====
-- agent/worker.rs: a request on a thread that a run has left with its turn open.
use openjarvis.Base.{
  Option-cases, inl, inr, Text, Json, List, [], ◌∷◌, Option, some, false, refl, sym, ap, subst, ◌∙◌,
  ◌≡◌, Result, ok, err, arith, All, is_empty,
}
use openjarvis.Context.{ChatMessage, Instant, Uuid}
use openjarvis.Model.{IncomingMessage}
use openjarvis.Thread.{Thread, CurrentTurn, already_unfinished}
use openjarvis.Thread.Messages.{messages}
use openjarvis.Thread.Turn.{begin_turn, failure_reply}
use openjarvis.Compact.Budget.{Floats}
use openjarvis.Base.Dict
use openjarvis.Session.{
  SessionKey, UuidCrate, SessionStore, ThreadLocator, session_key, session_key_instance,
}
use openjarvis.Session.Cache.{Manager, CachedSession, cell, cached_thread_handle}
use openjarvis.Session.Cache.Laws.{cell-write_cell}
use openjarvis.Session.Manager.{lock_thread_context, ensure_thread_handle}
use openjarvis.Router.{AgentRequest}
use openjarvis.Agent.{Failure, Run, continue, ◌>>=◌}
use openjarvis.Agent.Events.{EventSender, from_incoming_and_locator, incoming_message}
use openjarvis.Agent.Loop.{World, emit_hook, on_thread, thread_failure}
use openjarvis.Agent.Loop.Round.{Answer}
use openjarvis.Agent.Hooks.{HookKind}
use openjarvis.Agent.Loop.Live.Reports.{rounds_to_end}
use openjarvis.Agent.Loop.Live.{
  reset_variables, prompt_payload, LoopOutput, open_live_turn, live_rounds, finish_or_wait,
  run_live_thread, run_locked_thread, prepare_thread_runtime,
}
use openjarvis.Agent.Worker.{
  AgentWorker, open_fallback, fallback, conclude, run_request, initialize_thread, persist_initial,
  serve, serve_locked, release, lock_thread, handle_request, run_worker,
}

module _ {S E F : Type 0} where
  -- The step fails, and leaves the thread, what was sent, and the sessions as they were.
  record Blocked {A : Type 0} (u : World S E F) (r : Result Failure A × World S E F) : Type 0 where
    failure : Failure
    fails : r.0 ≡ err failure
    thread : r.1.thread ≡ u.thread
    sender : r.1.event_tx ≡ u.event_tx
    sessions : r.1.sessions ≡ u.sessions

  -- Of a sequence whose first step, if it succeeds, leaves them so.
  continue-Blocked :
      {A B : Type 0} (x : Result Failure A) (f : A → Run (World S E F) B) (u v : World S E F)
      → v.thread ≡ u.thread
      → v.event_tx ≡ u.event_tx
      → v.sessions ≡ u.sessions
      → ((y : A) → Blocked v (f y v))
      → Blocked u (continue x f v)
  continue-Blocked (ok y) f u v t e s h =
      let p = h y in
      record {
        failure = p.failure;
        fails = p.fails;
        thread = p.thread ∙ t;
        sender = p.sender ∙ e;
        sessions = p.sessions ∙ s;
      }
  continue-Blocked (err x) f u v t e s h = record {
    failure = x;
    fails = refl;
    thread = t;
    sender = e;
    sessions = s;
  }

  failed-Blocked :
      {A B : Type 0} (r : Result Failure A × World S E F) (f : A → Run (World S E F) B)
      (u : World S E F)
      → Blocked u r
      → Blocked u (continue r.0 f r.1)
  failed-Blocked r f u p = rw (p.fails) (record {
    failure = p.failure;
    fails = refl;
    thread = p.thread;
    sender = p.sender;
    sessions = p.sessions;
  })

  moved-Blocked :
      {A : Type 0} (u v : World S E F) (r : Result Failure A × World S E F)
      → v.thread ≡ u.thread
      → v.event_tx ≡ u.event_tx
      → v.sessions ≡ u.sessions
      → Blocked v r
      → Blocked u r
  moved-Blocked u v r t e s p = record {
    failure = p.failure;
    fails = p.fails;
    thread = p.thread ∙ t;
    sender = p.sender ∙ e;
    sessions = p.sessions ∙ s;
  }

  begin-Blocked :
      (id : Uuid) (external : Option Text) (at : Instant) (u : World S E F) (turn : CurrentTurn)
      → u.thread.current_turn ≡ some turn
      → Blocked u (on_thread (begin_turn id external at) u)
  unfolding begin_turn
  begin-Blocked id external at u turn e = record {
    failure = thread_failure (already_unfinished u.thread.locator.thread_id);
    fails = ground arith;
    thread = ground arith;
    sender = ground arith;
    sessions = ground arith;
  }

module _ {S E : Type 0} (floats : Floats) (k : AgentWorker S E floats.Float) where
  module _ (l : ThreadLocator) (tx : EventSender) where
    live_rounds-Blocked :
        (thread_id : Text) (m : ChatMessage) (external : Option Text) (answers : List Answer)
        (u : World S E floats.Float) (turn : CurrentTurn)
        → u.thread.current_turn ≡ some turn
        → Blocked u (
            live_rounds floats k.outside k.agent_loop k.runtime l tx thread_id m external answers u)
    unfolding live_rounds open_live_turn
    live_rounds-Blocked thread_id m external answers u turn e =
        let v : World S E floats.Float = record u { env = (k.outside.new_id u.env).1 } in
        let opened = begin-Blocked (k.outside.new_id u.env).0 external m.created_at v turn e in
        moved-Blocked u v _ refl refl refl (failed-Blocked _ _ v opened)

    hooked-Blocked :
        (thread_id : Text) (payload : Json) (m : ChatMessage) (external : Option Text)
        (answers : List Answer) (u : World S E floats.Float) (turn : CurrentTurn)
        → u.thread.current_turn ≡ some turn
        → Blocked u (
            (emit_hook k.agent_loop.hooks HookKind.user_prompt_submit payload >>= (λ _.
                rounds_to_end floats k.outside k.agent_loop k.runtime l tx thread_id m external
                  answers))
              u)
    unfolding emit_hook
    hooked-Blocked thread_id payload m external answers u turn e =
        let emitted = emit_hook k.agent_loop.hooks HookKind.user_prompt_submit payload u in
        continue-Blocked emitted.0
          (λ _.
            rounds_to_end floats k.outside k.agent_loop k.runtime l tx thread_id m external answers)
          u emitted.1 refl refl refl
          (λ _.
            failed-Blocked
              (live_rounds floats k.outside k.agent_loop k.runtime l tx thread_id m external answers
                emitted.1)
              (finish_or_wait floats k.outside k.agent_loop k.runtime l tx) emitted.1
              (live_rounds-Blocked thread_id m external answers emitted.1 turn e))

    run_live_thread-Blocked :
        (m : ChatMessage) (external : Option Text) (answers : List Answer)
        (u : World S E floats.Float) (turn : CurrentTurn)
        → u.thread.current_turn ≡ some turn
        → Blocked u
            (run_live_thread floats k.outside k.agent_loop k.runtime l tx m external answers u)
    unfolding run_live_thread prepare_thread_runtime
    run_live_thread-Blocked m external answers u turn e =
        let start = reset_variables floats k.outside k.agent_loop k.runtime l tx u in
        let prepared = prepare_thread_runtime k.runtime start in
        let payload = prompt_payload floats k.outside k.agent_loop k.runtime l tx u.thread in
        let id = u.thread.locator.thread_id in
        continue-Blocked prepared.0
          (λ _. emit_hook k.agent_loop.hooks HookKind.user_prompt_submit payload >>= (λ _.
            rounds_to_end floats k.outside k.agent_loop k.runtime l tx id m external answers))
          u prepared.1 refl refl refl
          (λ _. hooked-Blocked id payload m external answers prepared.1 turn e)

  open_fallback-Blocked :
      (m : IncomingMessage) (reply : Text) (u : World S E floats.Float) (turn : CurrentTurn)
      → u.thread.current_turn ≡ some turn
      → Blocked u (open_fallback floats k m reply u)
  unfolding open_fallback
  open_fallback-Blocked m reply u turn e =
      let v : World S E floats.Float = record u { env = (k.outside.new_id u.env).1 } in
      moved-Blocked u v _ refl refl refl (
        failed-Blocked _ _ v
          (begin-Blocked (k.outside.new_id u.env).0 m.external_message_id m.received_at v turn e))

  -- The fallback is another attempt at opening a turn.
  fallback-Blocked :
      (q : AgentRequest) (error : Text) (u : World S E floats.Float) (turn : CurrentTurn)
      → u.thread.current_turn ≡ some turn
      → Blocked u (fallback floats k q error u)
  unfolding fallback
  fallback-Blocked q error u turn e =
      failed-Blocked _ _ u (open_fallback-Blocked q.incoming (failure_reply error) u turn e)

  run_request-Blocked :
      (q : AgentRequest) (answers : List Answer) (u : World S E floats.Float) (turn : CurrentTurn)
      → u.thread.current_turn ≡ some turn
      → Blocked u (run_request floats k q answers u)
  unfolding run_request run_locked_thread conclude
  run_request-Blocked q answers u turn e =
      let tx = from_incoming_and_locator q.incoming u.thread.locator in
      let m = incoming_message q.incoming in
      let ran =
        run_live_thread floats k.outside k.agent_loop k.runtime q.locator tx m
          q.incoming.external_message_id answers u in
      let p =
        run_live_thread-Blocked q.locator tx m q.incoming.external_message_id answers u turn e in
      let held : ran.1.thread.current_turn ≡ some turn = ap (λ t. t.current_turn) p.thread ∙ e in
      let after = fallback-Blocked q p.failure.chain ran.1 turn held in
      rw (p.fails)
        (moved-Blocked u ran.1 _ p.thread p.sender p.sessions (failed-Blocked _ _ ran.1 after))

  -- A thread that has messages is not started again.
  serve-Blocked :
      (q : AgentRequest) (answers : List Answer) (u : World S E floats.Float) (turn : CurrentTurn)
      → u.thread.current_turn ≡ some turn
      → is_empty (messages u.thread) ≡ false
      → Blocked u (serve floats k q answers u)
  unfolding serve initialize_thread persist_initial
  serve-Blocked q answers u turn e n = rw n (run_request-Blocked q answers u turn e)

module _ {S : Type 0} (l : ThreadLocator) where
  -- The cache holds the thread with a turn open, and with messages.
  pub record Stuck (m : Manager S) : Type 0 where
    pub thread : Thread
    pub turn : CurrentTurn
    pub held : cell (session_key l) l.thread_id m ≡ some thread
    pub opened : thread.current_turn ≡ some turn
    pub started : is_empty (messages thread) ≡ false

cell-session :
    {S : Type 0} (key : SessionKey) (id : Uuid) (m : Manager S) (t : Thread)
    → cell key id m ≡ some t
    → (c : CachedSession) × (Dict.get key m.sessions ≡ some c)
unfolding cell
cell-session key id m t e = elim (Option-cases (Dict.get key m.sessions)) [
  | inl n ↦ ground arith
  | inr x ↦ x
]

lock_thread_context-cached :
    {S : Type 0} (u : UuidCrate) (store : SessionStore S) (fresh : Uuid) (l : ThreadLocator)
    (at : Instant) (m : Manager S) (t : Thread)
    → cell (session_key l) l.thread_id m ≡ some t
    → lock_thread_context u store fresh l at m ≡ (ok t, m)
unfolding lock_thread_context ensure_thread_handle cached_thread_handle
lock_thread_context-cached u store fresh l at m t e = rw e refl

module _ {S E : Type 0} (floats : Floats) (k : AgentWorker S E floats.Float) where
  record StaysStuck (l : ThreadLocator) (w w' : World S E floats.Float) : Type 0 where
    stuck : Stuck l w'.sessions
    sender : w'.event_tx ≡ w.event_tx

  served-StaysStuck :
      (l : ThreadLocator) (w : World S E floats.Float) (t : Thread) (turn : CurrentTurn)
      (r : Result Failure (Option LoopOutput) × World S E floats.Float)
      → cell (session_key l) l.thread_id w.sessions ≡ some t
      → t.current_turn ≡ some turn
      → is_empty (messages t) ≡ false
      → (u : World S E floats.Float) → u.thread ≡ t
      → u.sessions ≡ w.sessions
      → u.event_tx ≡ w.event_tx
      → Blocked u r
      → StaysStuck l w (release floats k l r.0 r.1)
  served-StaysStuck l w t turn r h o n u ut us ue p =
      let t' : r.1.thread ≡ t = p.thread ∙ ut in
      let s' : r.1.sessions ≡ w.sessions = p.sessions ∙ us in
      let (c, found) = cell-session (session_key l) l.thread_id w.sessions t h in
      rw (p.fails) (record {
        stuck = record {
          thread = r.1.thread;
          turn = turn;
          held =
              cell-write_cell (session_key l) l.thread_id r.1.thread c r.1.sessions
                (ap (λ m. Dict.get (session_key l) m.sessions) s' ∙ found);
          opened = ap (λ x. x.current_turn) t' ∙ o;
          started = ap (λ x. is_empty (messages x)) t' ∙ n;
        };
        sender = p.sender ∙ ue;
      })

  lock_thread-held :
      (l : ThreadLocator) (at : Instant) (w : World S E floats.Float) (t : Thread)
      → cell (session_key l) l.thread_id w.sessions ≡ some t
      → lock_thread floats k l at w
        ≡ (ok tt, record w { env = (k.outside.new_id w.env).1; thread = t })
  unfolding lock_thread
  lock_thread-held l at w t e =
      rw
        (lock_thread_context-cached k.outside.uuid k.outside.store (k.outside.new_id w.env).0 l at
          w.sessions t e)
        refl

  handle_request-StaysStuck :
      (q : AgentRequest) (answers : List Answer) (w : World S E floats.Float)
      → Stuck q.locator w.sessions
      → ((e : Failure) × ((handle_request floats k q answers w).0 ≡ err e))
        × StaysStuck q.locator w (handle_request floats k q answers w).1
  unfolding handle_request serve_locked
  handle_request-StaysStuck q answers w s =
      let u : World S E floats.Float = record w {
        env = (k.outside.new_id w.env).1;
        thread = s.thread;
      } in
      let p = serve-Blocked floats k q answers u s.turn s.opened s.started in
      rw (lock_thread-held q.locator q.incoming.received_at w s.thread s.held) (
        (p.failure, p.fails),
        served-StaysStuck q.locator w s.thread s.turn (serve floats k q answers u) s.held s.opened
            s.started u refl refl refl p,
      )

  handled-StaysStuck :
      (l : ThreadLocator) (q : AgentRequest) (answers : List Answer) (w : World S E floats.Float)
      → q.locator ≡ l
      → Stuck l w.sessions
      → ((e : Failure) × ((handle_request floats k q answers w).0 ≡ err e))
        × StaysStuck l w (handle_request floats k q answers w).1
  handled-StaysStuck l q answers w e s =
      subst
        (λ x.
          ((e : Failure) × ((handle_request floats k q answers w).0 ≡ err e))
          × StaysStuck x w (handle_request floats k q answers w).1)
        e (handle_request-StaysStuck q answers w (subst (λ x. Stuck x w.sessions) (sym e) s))

-- Once a thread is left with an open turn and some message, no later request on it succeeds: over
-- any sequence of requests on that thread, whatever the model would answer, the worker sends the
-- router nothing, not even that a request is completed, and the thread stays as it is.
pub run_worker-Stuck :
    {S E : Type 0} (floats : Floats) (k : AgentWorker S E floats.Float) (l : ThreadLocator)
    (requests : List (AgentRequest × List Answer)) (w : World S E floats.Float)
    → Stuck l w.sessions
    → All (λ r. r.0.locator ≡ l) requests
    → Stuck l (run_worker floats k requests w).sessions
      × ((run_worker floats k requests w).event_tx ≡ w.event_tx)
unfolding run_worker
run_worker-Stuck floats k l [] w s h = (s, refl)
run_worker-Stuck floats k l ((q, answers) ∷ requests) w s h =
    let ((e, fails), p) = handled-StaysStuck floats k l q answers w h.0 s in
    let rest =
      run_worker-Stuck floats k l requests (handle_request floats k q answers w).1 p.stuck h.1 in
    rw (fails, run_worker) (rest.0, rest.1 ∙ p.sender)
