-- ===== src/Thread/Messages.antt =====
-- thread.rs: the formal message sequence, its rewrite after a compaction, and the resets.
pub mod Laws
use openjarvis.Base.{
  List, [], ◌∷◌, ◌++◌, Option, none, some, ltb, if◌then◌else◌, Result, ok, err, retain, last,
  unwrap_or, Bool, not,
}
use openjarvis.Context.{ChatMessage, Instant, is_system}
use openjarvis.Thread.{Thread, ThreadError, default_state, empty_context}
use openjarvis.Thread.Turn.{current_turn_mut}

unfoldable pub messages : Thread → List ChatMessage
messages t = t.thread.messages

unfoldable pub replace_messages : List ChatMessage → Instant → Thread → Thread
replace_messages replacement updated_at t = record t {
  thread = record t.thread { messages = replacement; updated_at = updated_at };
}

unfoldable pub append_message : ChatMessage → Thread → Result ThreadError Thread
unfolding current_turn_mut
append_message m t = elim (current_turn_mut t) [
  | err e ↦ err e
  | ok turn ↦
      let created =
        if ltb m.created_at t.thread.created_at then m.created_at else t.thread.created_at in
      ok (record t {
        thread = record {
          messages = t.thread.messages ++ m ∷ [];
          created_at = created;
          updated_at = m.created_at;
        };
      })
]

abbrev pub system_message : ChatMessage → Bool
system_message m = is_system m.role

-- `now` is what the clock shows if the replacement is empty.
unfoldable pub replace_messages_after_compaction :
    List ChatMessage → Instant → Thread → Result ThreadError Thread
unfolding current_turn_mut replace_messages
replace_messages_after_compaction compacted now t = elim (current_turn_mut t) [
  | err e ↦ err e
  | ok turn ↦
      let kept = retain system_message t.thread.messages in
      let updated_at : Instant = elim (last compacted) [ none ↦ now | some m ↦ m.created_at ] in
      ok (replace_messages (kept ++ compacted) updated_at t)
]

unfoldable pub overwrite_active_history : Thread → Thread → Thread
overwrite_active_history replacement t = record t {
  thread = replacement.thread;
  state = replacement.state;
  pending_tool_events = replacement.pending_tool_events;
  current_turn = replacement.current_turn;
}

unfoldable pub clear_to_initial_state : Instant → Thread → Thread
clear_to_initial_state now t = record t {
  thread = empty_context now;
  state = default_state;
  pending_tool_events = [];
  current_turn = none;
}

unfoldable pub auto_compact_enabled : Bool → Thread → Bool
auto_compact_enabled default t = unwrap_or t.state.features.auto_compact_override default

unfoldable pub set_auto_compact_override : Option Bool → Thread → Thread
set_auto_compact_override enabled t = record t {
  state = record t.state { features = record { auto_compact_override = enabled } };
}
