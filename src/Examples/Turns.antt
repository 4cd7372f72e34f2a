-- ===== src/Examples/Turns.antt =====
-- The theorems on threads, at one turn of one conversation.
use openjarvis.Base.{
  Text, List, [], ◌∷◌, ◌++◌, map, none, some, ◌≡◌, ◌&&◌, not, refl, inl, txt, ok, is_empty,
}
use openjarvis.Base.Str.{trim}
use openjarvis.Base.Sorting.{contains}
use openjarvis.Thread.{Thread, FinalizedTurn, TurnStatus}
use openjarvis.Thread.Turn.{settle}
use openjarvis.Thread.Messages.{replace_messages_after_compaction}
use openjarvis.Thread.Turn.Actions
use openjarvis.Thread.Turn.Actions.{TurnAction}
use openjarvis.Thread.Turn.Lifecycle
use openjarvis.Thread.Turn.Lifecycle.{Ending, run_turn, Commits, run_turn-Commits, closed_rejects}
use openjarvis.Thread.Turn.Audit
use openjarvis.Thread.Turn.Audit.{Call, IsTidy, history, trail, noted, untagged, trail-history}
use openjarvis.Thread.Messages.Laws.{IsCompacted, replace_messages_after_compaction_lem}
use openjarvis.Thread.Toolsets.{load_toolset, loaded_toolsets, replace_loaded_toolsets}
use openjarvis.Thread.Toolsets.Catalog.{
  IsNormal, Loads, load_toolset_lem, replace_loaded_toolsets_lem,
}
use openjarvis.Examples.{fresh_thread, open_thread, turn, greeting, tool_run, output}

abbrev actions : List TurnAction
actions = Actions.appends greeting ∷ Actions.records tool_run ∷ Actions.buffers output ∷ []

run_turn-Commits_example :
    (f : FinalizedTurn) × (t' : Thread) × (run_turn 7
        (some (txt "m1"))
        11
        actions
        (Lifecycle.fails (txt "boom"))
        13
        fresh_thread
      ≡ ok (f, t'))
    × Commits 7 (some (txt "m1")) 11 actions (Lifecycle.fails (txt "boom")) 13 fresh_thread f t'
run_turn-Commits_example =
    run_turn-Commits 7 (some (txt "m1")) 11 actions (Lifecycle.fails (txt "boom")) 13 fresh_thread
      refl

abbrev talking : Thread
talking = record open_thread { current_turn = some (record turn { buffered_events = output ∷ [] }) }

abbrev ended : TurnStatus → Text → FinalizedTurn
ended status reply = record {
  turn_id = 7;
  external_message_id = some (txt "m1");
  started_at = 11;
  completed_at = 13;
  reply = reply;
  status = status;
  events = output ∷ [];
  snapshot = settle (record turn { buffered_events = output ∷ [] }) 13 talking;
}

abbrev calls : List Call
calls =
    Audit.records tool_run
    ∷ Audit.begins 7 none 11
    ∷ Audit.begins 8 none 11
    ∷ Audit.records tool_run
    ∷ Audit.succeeds (txt "done") 13
    ∷ []

trail-history_example :
    IsTidy (history calls fresh_thread)
    × (trail (history calls fresh_thread) ≡ trail fresh_thread ++ map untagged (noted calls))
trail-history_example = trail-history calls fresh_thread (inl refl)

replace_messages_after_compaction_lem_example :
    (t' : Thread) × (replace_messages_after_compaction (greeting ∷ []) 12 open_thread ≡ ok t')
    × IsCompacted (greeting ∷ []) 12 open_thread t'
replace_messages_after_compaction_lem_example =
    replace_messages_after_compaction_lem (greeting ∷ []) 12 open_thread turn refl

no_toolsets : IsNormal (loaded_toolsets fresh_thread)
unfolding loaded_toolsets
no_toolsets = record { ascends = tt; nonempty = refl }

load_toolset_lem_example :
    Loads
      (trim (txt " browser"))
      fresh_thread
      (load_toolset (txt " browser") fresh_thread).1
      (load_toolset (txt " browser") fresh_thread).0
load_toolset_lem_example = load_toolset_lem (txt " browser") fresh_thread no_toolsets

replace_loaded_toolsets_lem_example :
    IsNormal
      (loaded_toolsets (replace_loaded_toolsets (txt "skill" ∷ txt "browser" ∷ []) fresh_thread))
    × ((x : Text)
        → contains x (
            loaded_toolsets
              (replace_loaded_toolsets (txt "skill" ∷ txt "browser" ∷ []) fresh_thread))
          ≡ (contains x (map trim (txt "skill" ∷ txt "browser" ∷ [])) && not (is_empty x)))
replace_loaded_toolsets_lem_example =
    replace_loaded_toolsets_lem (txt "skill" ∷ txt "browser" ∷ []) fresh_thread
