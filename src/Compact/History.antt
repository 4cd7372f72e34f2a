-- ===== src/Compact/History.antt =====
-- compact/manager.rs with thread.rs: a compaction from the request to the rewritten history.
use openjarvis.Base.{
  ◌+◌, ◌≤◌, List, [], ◌∷◌, ◌++◌, none, some, false, not, ◌≡◌, refl, arith, ok, retain, length,
  is_empty, length-append,
}
use openjarvis.Context.{ChatMessage, Role, Instant, chat_message, is_system}
use openjarvis.Thread.{Thread, CurrentTurn}
use openjarvis.Thread.Messages.{replace_messages_after_compaction, system_message}
use openjarvis.Compact.{
  CompactProvider, CompactionOutcome, compact_messages, build_compacted_messages,
  compacted_assistant_prefix, compacted_user_continue_message,
}

abbrev pub chat_of : List ChatMessage → List ChatMessage
chat_of = retain (λ m. not (is_system m.role))

-- What a compaction that produces an outcome has done.
record Produced (provider : CompactProvider) (ms : List ChatMessage) (at : Instant)
    (o : CompactionOutcome) : Type 0 where
  asked : provider (record { messages = chat_of ms }) ≡ ok o.summary
  counted : o.source_message_count ≡ length (chat_of ms)
  some_chat : is_empty (chat_of ms) ≡ false
  replacement : o.compacted_messages ≡ build_compacted_messages o.summary at

compact_messages-Produced :
    (provider : CompactProvider) (ms : List ChatMessage) (at : Instant) (o : CompactionOutcome)
    → compact_messages provider ms at ≡ ok (some o)
    → Produced provider ms at o
unfolding compact_messages
compact_messages-Produced provider ms at o e = ground arith

length-partition :
    (ms : List ChatMessage) → length (retain system_message ms) + length (chat_of ms) ≡ length ms
length-partition [] = omega arith
length-partition (m ∷ ms) = ground (arith, length-partition ms)

nonempty-length : (ms : List ChatMessage) → is_empty ms ≡ false → 1 ≤ length ms
nonempty-length [] h = absurd (mathlib.Core.Bool.false≢true (mathlib.Core.Path.sym h))
nonempty-length (m ∷ ms) h = omega arith

-- The history of a thread after a compaction at `at`.
pub record IsRewritten (o : CompactionOutcome) (at : Instant) (t t' : Thread) : Type 0 where
  pub history :
      t'.thread.messages
      ≡ retain system_message t.thread.messages
        ++ (chat_message Role.assistant
              (compacted_assistant_prefix ++ o.summary.compacted_assistant)
              at
            ∷ chat_message Role.user compacted_user_continue_message at
            ∷ [])
  pub updated : t'.thread.updated_at ≡ at
  pub kept : (t'.current_turn ≡ t.current_turn) × (t'.state ≡ t.state)
  pub size : length t'.thread.messages ≤ length t.thread.messages + 1

-- If compacting the messages of a thread with an open turn yields an outcome, the provider was asked
-- for a summary of exactly the messages that are not the system's, their number is reported, and
-- writing the outcome back succeeds: the system's messages stay, followed by the summary and the
-- message to go on; the turn and the state stay; and there is at most one message more than before.
pub compaction_rewrites :
    (provider : CompactProvider) (at now : Instant) (t : Thread) (turn : CurrentTurn)
    (o : CompactionOutcome)
    → t.current_turn ≡ some turn
    → compact_messages provider t.thread.messages at ≡ ok (some o)
    → (t' : Thread) × (replace_messages_after_compaction o.compacted_messages now t ≡ ok t')
      × (provider (record { messages = chat_of t.thread.messages }) ≡ ok o.summary)
      × (o.source_message_count ≡ length (chat_of t.thread.messages))
      × IsRewritten o at t t'
unfolding replace_messages_after_compaction build_compacted_messages
compaction_rewrites provider at now t turn o open_ e =
    let p = compact_messages-Produced provider t.thread.messages at o e in
    let kept = retain system_message t.thread.messages in
    let written = kept ++ build_compacted_messages o.summary at in
    (
      record t { thread = record t.thread { messages = written; updated_at = at } },
      ground (arith, p.replacement),
      p.asked,
      p.counted,
      record {
        history = refl;
        updated = refl;
        kept = (refl, refl);
        size = omega (
          arith,
          length-append kept (build_compacted_messages o.summary at),
          length-partition t.thread.messages,
          nonempty-length (chat_of t.thread.messages) p.some_chat,
        );
      },
    )

-- A history with nothing but messages of the system is left alone, whatever the provider would say.
pub compact_messages_nothing :
    (provider : CompactProvider) (ms : List ChatMessage) (at : Instant)
    → chat_of ms ≡ []
    → compact_messages provider ms at ≡ ok none
unfolding compact_messages
compact_messages_nothing provider ms at e = ground arith
