-- ===== src/Agent/Loop/Calm.antt =====
-- agent/agent_loop.rs: the steps of a round that send nothing to the router, and leave the turn open
-- under its identifier.
use openjarvis.Base.{
  Json, List, [], ◌∷◌, Bool, true, false, ◌≡◌, refl, ◌∙◌, arith, if◌then◌else◌, Result, ok, err,
}
use openjarvis.Context.{ChatMessage, Uuid, Instant}
use openjarvis.Thread.{Thread, ThreadTurnEvent, ThreadError, ThreadToolEvent}
use openjarvis.Thread.Messages.{append_message, replace_messages_after_compaction}
use openjarvis.Thread.Turn.{current_turn_id, buffer_turn_event, record_tool_event}
use openjarvis.Session.{UuidCrate, SessionStore, ThreadLocator, StoreError}
use openjarvis.Session.Cache.{Manager}
use openjarvis.Session.Manager.{
  persist_locked_thread_context, persist_thread_context_snapshot, save_thread_snapshot,
}
use openjarvis.Agent.{Failure, Run, continue, ◌>>=◌, lift}
use openjarvis.Agent.Keeps.{Keeps, intro-Keeps, bind-Keeps, use-Keeps}
use openjarvis.Agent.Hooks.{HookHandler, HookKind, emit}
use openjarvis.Agent.Loop.{
  of_store, in_sessions, Outside, World, in_env, draw, set_thread, change_thread, get_thread,
  emit_hook, buffer_all, persist_locked,
}

-- A change of the thread that leaves its open turn open.
abbrev pub SameTurn : (Thread → Result ThreadError Thread) → Type 0
SameTurn f = (t t' : Thread) → f t ≡ ok t' → current_turn_id t' ≡ current_turn_id t

pub append_message-SameTurn : (m : ChatMessage) → SameTurn (append_message m)
unfolding append_message current_turn_id
append_message-SameTurn m t t' e = ground arith

pub buffer_turn_event-SameTurn : (e : ThreadTurnEvent) → SameTurn (buffer_turn_event e)
unfolding buffer_turn_event current_turn_id
buffer_turn_event-SameTurn e t t' h = ground arith

pub replace_messages_after_compaction-SameTurn :
    (ms : List ChatMessage) (now : Instant) → SameTurn (replace_messages_after_compaction ms now)
unfolding replace_messages_after_compaction current_turn_id
replace_messages_after_compaction-SameTurn ms now t t' e = ground arith

pub record_tool_event-turn :
    (x : ThreadToolEvent) (t : Thread) → current_turn_id (record_tool_event x t) ≡ current_turn_id t
unfolding record_tool_event current_turn_id
record_tool_event-turn x t = ground arith

module _ {S E F : Type 0} where
  -- The turn, the sender, and the mark of the next payload are the same.
  abbrev pub Same : World S E F → World S E F → Type 0
  Same w w' =
      (current_turn_id w'.thread ≡ current_turn_id w.thread)
      × (w'.event_tx ≡ w.event_tx)
      × (w'.reply_to_source ≡ w.reply_to_source)

  pub Same-trans : (u v w : World S E F) → Same u v → Same v w → Same u w
  Same-trans u v w p q = (q.0 ∙ p.0, q.1 ∙ p.1, q.2 ∙ p.2)

module _ {S E F : Type 0} where
  pub if-Same :
      {A : Type 0} (b : Bool) (w : World S E F) (x y : Result Failure A × World S E F)
      → Same w x.1
      → Same w y.1
      → Same w (if b then x else y).1
  if-Same true w x y h k = h
  if-Same false w x y h k = k

module _ (S E F : Type 0) where
  -- Every way through the step leaves them so.
  pub Calm : {A : Type 0} → Run (World S E F) A → Type 0
  Calm m = Keeps Same m

  pub then-Calm :
      {A B : Type 0} (m : Run (World S E F) A) (f : A → Run (World S E F) B)
      → Calm m
      → ((a : A) → Calm (f a))
      → Calm (m >>= f)
  unfolding Calm
  then-Calm m f h k = bind-Keeps Same Same-trans m f h k

  pub step-Calm :
      {A : Type 0} (m : Run (World S E F) A) → ((w : World S E F) → Same w (m w).1) → Calm m
  unfolding Calm
  step-Calm m h = intro-Keeps Same m h

  pub use-Calm :
      {A : Type 0} (m : Run (World S E F) A) → Calm m → (w : World S E F) → Same w (m w).1
  unfolding Calm
  use-Calm m h = use-Keeps Same m h

  pub if-Calm :
      {A : Type 0} (b : Bool) (m n : Run (World S E F) A)
      → Calm m
      → Calm n
      → Calm (if b then m else n)
  if-Calm true m n h k = h
  if-Calm false m n h k = k

  pub lift-Calm : {A : Type 0} (r : Result Failure A) → Calm (lift r)
  lift-Calm r = step-Calm (lift r) (λ w. (refl, refl, refl))

  pub get_thread-Calm : Calm get_thread
  get_thread-Calm = step-Calm get_thread (λ w. (refl, refl, refl))

  pub in_env-Calm : {A : Type 0} (m : Run E A) → Calm (in_env m)
  in_env-Calm m = step-Calm (in_env m) (λ w. (refl, refl, refl))

  pub emit_hook-Calm :
      (hooks : List (HookHandler E)) (kind : HookKind) (payload : Json)
      → Calm (emit_hook hooks kind payload)
  unfolding emit_hook
  emit_hook-Calm hooks kind payload =
      in_env-Calm (emit hooks (record { kind = kind; payload = payload }))

  pub draw-Calm : {A : Type 0} (f : E → A × E) → Calm (draw f)
  draw-Calm f = step-Calm (draw f) (λ w. (refl, refl, refl))

  changed-Same :
      (w : World S E F) (f : Thread → Result ThreadError Thread) (r : Result ThreadError Thread)
      → SameTurn f
      → f w.thread ≡ r
      → Same w (change_thread f w).1
  changed-Same w f (ok t) h e = rw (e, change_thread) (h w.thread t e, refl, refl)
  changed-Same w f (err x) h e = rw (e, change_thread) (refl, refl, refl)

  pub change_thread-Calm :
      (f : Thread → Result ThreadError Thread) → SameTurn f → Calm (change_thread f)
  change_thread-Calm f h = step-Calm (change_thread f) (λ w. changed-Same w f (f w.thread) h refl)

  pub buffer_all-Calm : (es : List ThreadTurnEvent) → Calm (buffer_all es)
  unfolding buffer_all
  buffer_all-Calm [] = lift-Calm (ok tt)
  buffer_all-Calm (e ∷ es) =
      then-Calm _ _ (change_thread-Calm (buffer_turn_event e) (buffer_turn_event-SameTurn e))
        (λ _. buffer_all-Calm es)

persist_locked_thread_context-turn :
    {S : Type 0} (u : UuidCrate) (store : SessionStore S) (fresh : Uuid) (l : ThreadLocator)
    (t : Thread) (at : Instant) (m : Manager S) (t' : Thread)
    → (persist_locked_thread_context u store fresh l t at m).0 ≡ ok t'
    → current_turn_id t' ≡ current_turn_id t
unfolding persist_locked_thread_context persist_thread_context_snapshot save_thread_snapshot
    current_turn_id
persist_locked_thread_context-turn u store fresh l t at m t' e = ground arith

module _ {S E F : Type 0} (o : Outside S E F) (l : ThreadLocator) where
  -- What a save answers is put in the place of the thread.
  stored-Same :
      (w : World S E F) (m : Manager S) (x : Result StoreError Thread)
      → ((t : Thread) → x ≡ ok t → current_turn_id t ≡ current_turn_id w.thread)
      → Same w (continue (of_store o.store_failure x) set_thread (record w { sessions = m })).1
  stored-Same w m (ok t) h = (h t refl, refl, refl)
  stored-Same w m (err x) h = (refl, refl, refl)

  save-Same :
      (fresh : Uuid) (at : Instant)
      → Calm S E F (λ w.
        (in_sessions o.store_failure
              (persist_locked_thread_context o.uuid o.store fresh l w.thread at)
            >>= set_thread)
          w)
  save-Same fresh at = step-Calm S E F _ (λ w.
      let saved = persist_locked_thread_context o.uuid o.store fresh l w.thread at w.sessions in
      stored-Same w saved.1 saved.0
        (persist_locked_thread_context-turn o.uuid o.store fresh l w.thread at w.sessions))

  pub persist_locked-Calm : (at : Instant) → Calm S E F (persist_locked o l at)
  unfolding persist_locked
  persist_locked-Calm at =
      then-Calm S E F _ _ (draw-Calm S E F o.new_id) (λ fresh. save-Same fresh at)
