-- ===== src/Agent/Loop/Commits.antt =====
-- agent/agent_loop.rs: the commit of a message advances the turn.
use openjarvis.Base.{
  Text, List, [], ◌∷◌, ◌++◌, map, Option, none, some, Bool, true, false, ◌≡◌, refl, sym, ap, ◌∙◌,
  arith, ◌⊎◌, inl, inr, All, if◌then◌else◌, Result, ok, err, txt,
}
use mathlib.Core.List.{append-nil}
use openjarvis.Context.{ChatMessage, Uuid}
use openjarvis.Thread.{ThreadTurnEvent}
use openjarvis.Thread.Messages.{append_message}
use openjarvis.Thread.Turn.{current_turn_id}
use openjarvis.Session.{ThreadLocator}
use openjarvis.Router.{CommittedMessage, message_committed, DispatchEvent}
use openjarvis.Agent.{Failure, Run, continue, ◌>>=◌}
use openjarvis.Agent.Keeps.{Keeps, intro-Keeps, bind-Keeps, use-Keeps}
use openjarvis.Agent.Events.{EventSender, prepare_dispatch_event}
use openjarvis.Agent.Loop.{
  Outside, World, dispatch_all, active_turn_id, report_event, persist_locked, on_committed_message,
  commit_message,
}
use openjarvis.Agent.Loop.Advance.{Advance, Advance-trans, quiet, marks, Single, Ours}
use openjarvis.Agent.Loop.Calm.{
  Same, Calm, use-Calm, change_thread-Calm, append_message-SameTurn, buffer_all-Calm,
  persist_locked-Calm,
}

module _ (S E F : Type 0) (l : ThreadLocator) where
  -- Every way through the step advances the turn.
  pub Advances : {A : Type 0} → Run (World S E F) A → Type 0
  Advances m = Keeps (Advance l) m

  pub then-Advances :
      {A B : Type 0} (m : Run (World S E F) A) (f : A → Run (World S E F) B)
      → Advances m
      → ((a : A) → Advances (f a))
      → Advances (m >>= f)
  unfolding Advances
  then-Advances m f h k = bind-Keeps (Advance l) (Advance-trans l) m f h k

  pub step-Advances :
      {A : Type 0} (m : Run (World S E F) A)
      → ((w : World S E F) → Advance l w (m w).1)
      → Advances m
  unfolding Advances
  step-Advances m h = intro-Keeps (Advance l) m h

  pub use-Advances :
      {A : Type 0} (m : Run (World S E F) A) → Advances m → (w : World S E F) → Advance l w (m w).1
  unfolding Advances
  use-Advances m h = use-Keeps (Advance l) m h

  pub if-Advances :
      {A : Type 0} (b : Bool) (m n : Run (World S E F) A)
      → Advances m
      → Advances n
      → Advances (if b then m else n)
  if-Advances true m n h k = h
  if-Advances false m n h k = k

  pub Calm-Advances : {A : Type 0} (m : Run (World S E F) A) → Calm S E F m → Advances m
  Calm-Advances m h =
      step-Advances m
        (λ w. let same = use-Calm S E F m h w in quiet l w (m w).1 (same.0) (same.1) (same.2))

flags : List DispatchEvent → List Bool
flags ds = map (λ d. d.reply_to_source) ds

-- The marks of the payloads of one message.
flagged : Bool → List ThreadTurnEvent → List Bool
flagged b [] = []
flagged b (e ∷ es) = b ∷ flagged false es

flagged-silent : (es : List ThreadTurnEvent) → All (λ g. g ≡ false) (flagged false es)
unfolding flagged
flagged-silent [] = tt
flagged-silent (e ∷ es) = (refl, flagged-silent es)

flagged-Single : (b : Bool) (es : List ThreadTurnEvent) → Single b (flagged b es)
unfolding flagged
flagged-Single b [] = tt
flagged-Single b (e ∷ es) = (ground arith, flagged-silent es)

payloads : EventSender → Bool → List ThreadTurnEvent → List DispatchEvent
payloads tx b [] = []
payloads tx b (e ∷ es) = prepare_dispatch_event tx e b ∷ payloads tx false es

flags-payloads :
    (tx : EventSender) (b : Bool) (es : List ThreadTurnEvent)
    → flags (payloads tx b es) ≡ flagged b es
unfolding flags payloads flagged prepare_dispatch_event
flags-payloads tx b [] = refl
flags-payloads tx b (e ∷ es) = ap (λ fs. b ∷ fs) (flags-payloads tx false es)

abbrev marked_after : Bool → List ThreadTurnEvent → Bool
marked_after b [] = b
marked_after b (e ∷ es) = false

spent_after :
    (b b' : Bool) (es : List ThreadTurnEvent)
    → b' ≡ marked_after b es
    → (b' ≡ false) ⊎ ((b' ≡ b) × (flagged b es ≡ []))
unfolding flagged
spent_after b b' [] e = inr (e, refl)
spent_after b b' (x ∷ es) e = inl e

unsent_mark :
    (b b' : Bool) (fs : List Bool)
    → (b' ≡ false) ⊎ ((b' ≡ b) × (fs ≡ []))
    → (b' ≡ false) ⊎ ((b' ≡ b) × (marks [] ≡ []))
unfolding marks
unsent_mark b b' fs (inl e) = inl e
unsent_mark b b' fs (inr e) = inr (e.0, refl)

module _ {S E F : Type 0} where
  dispatch_all-payloads :
      (tx : EventSender) (es : List ThreadTurnEvent) (w : World S E F)
      → dispatch_all tx es w ≡ (
        ok (payloads tx w.reply_to_source es),
        record w { reply_to_source = marked_after w.reply_to_source es },
      )
  unfolding dispatch_all payloads
  dispatch_all-payloads tx [] w = refl
  dispatch_all-payloads tx (e ∷ []) w = refl
  dispatch_all-payloads tx (e ∷ e' ∷ es) w =
      rw (dispatch_all-payloads tx (e' ∷ es) (record w { reply_to_source = false })) refl

module _ {S E F : Type 0} (l : ThreadLocator) (tx : EventSender) (es : List ThreadTurnEvent) where
  -- The payloads of the events are made, and not sent yet.
  pub record Made (v w : World S E F) : Type 0 where
    pub turn : current_turn_id w.thread ≡ current_turn_id v.thread
    pub sender : w.event_tx ≡ v.event_tx
    pub mark : w.reply_to_source ≡ marked_after v.reply_to_source es

  Made-Same : (v w w' : World S E F) → Made v w → Same w w' → Made v w'
  Made-Same v w w' p q = record {
    turn = q.0 ∙ p.turn;
    sender = q.1 ∙ p.sender;
    mark = q.2 ∙ p.mark;
  }

  -- The message, if it is sent.
  sent-Advance :
      (v w : World S E F) (c : CommittedMessage)
      → w.event_tx.is_open ≡ true
      → Made v w
      → c.dispatch_events ≡ payloads tx v.reply_to_source es
      → Ours l (current_turn_id v.thread) c
      → Advance l v (record w {
        event_tx = record { is_open = true; sent = w.event_tx.sent ++ message_committed c ∷ [] };
      })
  unfolding marks flags
  sent-Advance v w c e p d h =
      let marked : marks (c ∷ []) ≡ flagged v.reply_to_source es =
        append-nil (flags c.dispatch_events)
        ∙ ap flags d
        ∙ flags-payloads tx v.reply_to_source es in
      record {
        sent = c ∷ [];
        turn = p.turn;
        still = sym e ∙ ap (λ s. s.is_open) p.sender;
        events = ap (λ s. s.sent ++ message_committed c ∷ []) p.sender;
        ours = (h, tt);
        single = rw marked (flagged-Single v.reply_to_source es);
        spent = rw marked (spent_after v.reply_to_source w.reply_to_source es p.mark);
      }

  -- The step fails before the message is sent.
  unsent-Advance : (v w : World S E F) → Made v w → Advance l v w
  unfolding marks
  unsent-Advance v w p = record {
    sent = [];
    turn = p.turn;
    still = ap (λ s. s.is_open) p.sender;
    events = ap (λ s. s.sent) p.sender ∙ sym (append-nil v.event_tx.sent);
    ours = tt;
    single = tt;
    spent =
        unsent_mark v.reply_to_source w.reply_to_source (flagged v.reply_to_source es)
          (spent_after v.reply_to_source w.reply_to_source es p.mark);
  }

  report-Advance :
      (v w : World S E F) (c : CommittedMessage) (what reason : Text) (b : Bool)
      → w.event_tx.is_open ≡ b
      → Made v w
      → c.dispatch_events ≡ payloads tx v.reply_to_source es
      → Ours l (current_turn_id v.thread) c
      → Advance l v (report_event what reason (message_committed c) w).1
  report-Advance v w c what reason true e p d h = rw (e, report_event) (sent-Advance v w c e p d h)
  report-Advance v w c what reason false e p d h = rw (e, report_event) (unsent-Advance v w p)

module _ {S E F : Type 0} (o : Outside S E F) (l : ThreadLocator) (tx : EventSender) where
  handled-Advance :
      (es : List ThreadTurnEvent) (v w : World S E F) (c : CommittedMessage)
      (x : Result Failure (Unit {0}))
      → Made l tx es v w
      → c.dispatch_events ≡ payloads tx v.reply_to_source es
      → Ours l (current_turn_id v.thread) c
      → Advance l v
          (continue x
            (λ _.
              report_event
                (txt "failed to report committed message: ")
                o.channel_closed
                (message_committed c))
            w).1
  handled-Advance es v w c (ok u) p d h =
      report-Advance l tx es v w c (txt "failed to report committed message: ") o.channel_closed
        w.event_tx.is_open refl p d h
  handled-Advance es v w c (err e) p d h = unsent-Advance l tx es v w p

  on_committed_message-Advance :
      (es : List ThreadTurnEvent) (id : Uuid) (m : ChatMessage) (v w : World S E F)
      → Made l tx es v w
      → some id ≡ current_turn_id v.thread
      → Advance l v (on_committed_message o l id m (payloads tx v.reply_to_source es) w).1
  unfolding on_committed_message
  on_committed_message-Advance es id m v w p e =
      handled-Advance es v (persist_locked o l m.created_at w).1 _
        (persist_locked o l m.created_at w).0
        (Made-Same l tx es v w (persist_locked o l m.created_at w).1 p (
          use-Calm S E F (persist_locked o l m.created_at) (persist_locked-Calm o l m.created_at)
            w))
        refl (refl, e)

  identified-Advance :
      (es : List ThreadTurnEvent) (m : ChatMessage) (missing : Text) (v : World S E F)
      (x : Option Uuid)
      → current_turn_id v.thread ≡ x
      → Advance l v
          ((active_turn_id missing
              >>= (λ id. on_committed_message o l id m (payloads tx v.reply_to_source es)))
            (record v { reply_to_source = marked_after v.reply_to_source es })).1
  unfolding active_turn_id
  identified-Advance es m missing v (some id) e =
      let made : Made l tx es v (record v { reply_to_source = marked_after v.reply_to_source es }) =
        record { turn = refl; sender = refl; mark = refl } in
      rw (e, active_turn_id)
        (on_committed_message-Advance es id m v
          (record v { reply_to_source = marked_after v.reply_to_source es }) made (sym e))
  identified-Advance es m missing v none e =
      rw (e, active_turn_id)
        (unsent-Advance l tx es v (record v { reply_to_source = marked_after v.reply_to_source es })
          (record { turn = refl; sender = refl; mark = refl }))

  dispatched-Advances :
      (es : List ThreadTurnEvent) (m : ChatMessage) (missing : Text)
      → Advances S E F l (
          dispatch_all tx es
          >>= (λ ds. active_turn_id missing >>= (λ id. on_committed_message o l id m ds)))
  dispatched-Advances es m missing = step-Advances S E F l _ (λ v.
      rw (dispatch_all-payloads tx es v)
        (identified-Advance es m missing v (current_turn_id v.thread) refl))

  pub commit_message-Advances :
      (m : ChatMessage) (es : List ThreadTurnEvent) → Advances S E F l (commit_message o l tx m es)
  unfolding commit_message
  commit_message-Advances m es =
      then-Advances S E F l _ _
        (Calm-Advances S E F l _
          (change_thread-Calm S E F (append_message m) (append_message-SameTurn m)))
        (λ _.
          then-Advances S E F l _ _ (Calm-Advances S E F l _ (buffer_all-Calm S E F es))
            (λ _. dispatched-Advances es m _))
