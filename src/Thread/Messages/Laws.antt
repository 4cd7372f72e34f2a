-- ===== src/Thread/Messages/Laws.antt =====
-- thread.rs: what a rewrite after a compaction keeps, and the start time of a thread.
use openjarvis.Base.{
  List, [], ◌∷◌, ◌++◌, none, some, ◌≡◌, refl, ◌∙◌, ap, arith, ok, retain, retain-append,
  retain_idem, Bool, not, ◌≤◌, ltb, All, if◌then◌else◌, last, subst, sym,
}
use openjarvis.Context.{ChatMessage, Instant}
use openjarvis.Thread.{Thread, CurrentTurn}
use openjarvis.Thread.Turn.{settle}
use openjarvis.Thread.Messages.{append_message, replace_messages_after_compaction, system_message}

abbrev pub chat_message? : ChatMessage → Bool
chat_message? m = not (system_message m)

retain-complement :
    (p : ChatMessage → Bool) (ms : List ChatMessage) → retain (λ m. not (p m)) (retain p ms) ≡ []
retain-complement p [] = refl
retain-complement p (m ∷ ms) = ground (arith, retain-complement p ms)

-- When a rewrite says that the thread was changed.
abbrev pub changed_at : List ChatMessage → Instant → Instant
changed_at compacted now = elim (last compacted) [ none ↦ now | some m ↦ m.created_at ]

-- The thread after its chat history was replaced by `compacted`.
pub record IsCompacted (compacted : List ChatMessage) (now : Instant) (t t' : Thread) : Type 0 where
  pub messages : t'.thread.messages ≡ retain system_message t.thread.messages ++ compacted
  pub systems :
      retain system_message t'.thread.messages
      ≡ retain system_message t.thread.messages ++ retain system_message compacted
  pub chat : retain chat_message? t'.thread.messages ≡ retain chat_message? compacted
  pub updated : t'.thread.updated_at ≡ changed_at compacted now
  pub started : t'.thread.created_at ≡ t.thread.created_at
  pub turn : t'.current_turn ≡ t.current_turn
  pub audit : t'.state ≡ t.state
  pub pending : t'.pending_tool_events ≡ t.pending_tool_events
  pub identity : (t'.locator ≡ t.locator) × (t'.revision ≡ t.revision)

-- In an open turn the rewrite succeeds: the messages are the old system messages, in order, and after
-- them the replacement as it was given; so no other message of before is left, and a system message
-- of after is an old one or comes with the replacement. The time of change is the last replacing message's, or
-- the clock's if there is none; every other field of the thread is untouched.
pub replace_messages_after_compaction_lem :
    (compacted : List ChatMessage) (now : Instant) (t : Thread) (turn : CurrentTurn)
    → t.current_turn ≡ some turn
    → (t' : Thread) × (replace_messages_after_compaction compacted now t ≡ ok t')
      × IsCompacted compacted now t t'
unfolding replace_messages_after_compaction
replace_messages_after_compaction_lem compacted now t turn e =
    let kept = retain system_message t.thread.messages in
    (
      record t {
        thread = record t.thread {
          messages = kept ++ compacted;
          updated_at = changed_at compacted now;
        };
      },
      ground arith,
      record {
        messages = refl;
        systems =
            retain-append system_message kept compacted
            ∙ ap (λ (ms : List ChatMessage). ms ++ retain system_message compacted)
                (retain_idem system_message t.thread.messages);
        chat =
            retain-append chat_message? kept compacted
            ∙ ap (λ (ms : List ChatMessage). ms ++ retain chat_message? compacted)
                (retain-complement system_message t.thread.messages);
        updated = refl;
        started = refl;
        turn = refl;
        audit = refl;
        pending = refl;
        identity = (refl, refl);
      },
    )

-- No stored message is older than the thread's start.
abbrev pub StartsFirst : Thread → Type 0
StartsFirst t = All (λ m. t.thread.created_at ≤ m.created_at) t.thread.messages

All-le-append :
    (b c : Instant) (m : ChatMessage) (ms : List ChatMessage)
    → c ≤ b
    → c ≤ m.created_at
    → All (λ x. b ≤ x.created_at) ms
    → All (λ x. c ≤ x.created_at) (ms ++ m ∷ [])
All-le-append b c m [] le lm h = (lm, tt)
All-le-append b c m (x ∷ ms) le lm h = (omega arith, All-le-append b c m ms le lm h.1)

All-le :
    (b c : Instant) (ms : List ChatMessage)
    → c ≤ b
    → All (λ x. b ≤ x.created_at) ms
    → All (λ x. c ≤ x.created_at) ms
All-le b c [] le h = tt
All-le b c (x ∷ ms) le h = (omega arith, All-le b c ms le h.1)

append_message-StartsFirst :
    (m : ChatMessage) (t t' : Thread) → append_message m t ≡ ok t' → StartsFirst t → StartsFirst t'
unfolding append_message
append_message-StartsFirst m t t' e h =
    let created =
      if ltb m.created_at t.thread.created_at then m.created_at else t.thread.created_at in
    let c : t'.thread.created_at ≡ created = ground arith in
    let ms : t'.thread.messages ≡ t.thread.messages ++ m ∷ [] = ground arith in
    subst (λ l. All (λ x. t'.thread.created_at ≤ x.created_at) l) (sym ms)
      (subst (λ (k : Instant). All (λ x. k ≤ x.created_at) (t.thread.messages ++ m ∷ [])) (sym c)
        (All-le-append t.thread.created_at created m t.thread.messages (ground arith) (ground arith)
          h))

settle-StartsFirst :
    (turn : CurrentTurn) (done : Instant) (t : Thread)
    → StartsFirst t
    → StartsFirst (settle turn done t)
unfolding settle
settle-StartsFirst turn done t h =
    let created =
      if ltb turn.started_at t.thread.created_at then turn.started_at else t.thread.created_at in
    All-le t.thread.created_at created t.thread.messages (ground arith) h

-- Appending and finalizing keep the thread's start no later than each of its messages, and a
-- finalized turn starts no earlier than the thread does.
pub turn-StartsFirst :
    (m : ChatMessage) (turn : CurrentTurn) (done : Instant) (t t' : Thread)
    → StartsFirst t
    → append_message m t ≡ ok t'
    → StartsFirst t'
      × StartsFirst (settle turn done t')
      × ((settle turn done t').thread.created_at ≤ turn.started_at)
unfolding settle
turn-StartsFirst m turn done t t' h e =
    let h' = append_message-StartsFirst m t t' e h in
    (h', settle-StartsFirst turn done t' h', ground arith)
