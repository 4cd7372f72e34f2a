-- ===== src/Examples/Sessions.antt =====
-- The theorems on the session manager and its store, at one conversation.
use openjarvis.Base.{List, [], ◌∷◌, none, some, ◌≡◌, refl, txt, Result, ok, err, unwrap_or, arith}
use openjarvis.Base.Dict
use openjarvis.Base.Str.{text_eq}
use openjarvis.Context.{Uuid}
use openjarvis.Thread.{set_revision, rebind_locator, new_thread}
use openjarvis.Session.{
  UuidCrate, SessionKey, session_key_eq, ThreadLocator, revision_conflict, unresolved_session,
  session_key, context_locator, key_of_incoming, thread_key,
}
use openjarvis.Session.Keys.{thread_key_injective, thread_key_collision}
use openjarvis.Session.Memory.{
  MemoryState, new_memory, memory_store, stored_revision, parse_locator, save_parsed,
  save_thread_context, resolve_or_create_session, load_external_message_record, uuid_instance,
  load_thread_context as load_stored,
}
use openjarvis.Session.Memory.Saving.{
  Outcome, save_thread_context-Outcome, second_writer_refused, load_thread_context-save,
}
use openjarvis.Session.Cache.{Manager, cell, with_store}
use openjarvis.Session.Manager.{
  commit_finalized_turn, commit_finalized_turn_locked, load_thread_context, load_or_create_thread,
}
use openjarvis.Session.Manager.Commit.{
  IsCommitted, committed, commit_finalized_turn_lem, commit_finalized_turn_stale,
  commit_finalized_turn_locked_lem,
}
use openjarvis.Session.Manager.Identity.{
  commit_survives_restart, load_or_create_thread_stable, load_or_create_thread_restores, locator_of,
  ManagerStep, resolves, commits, restarts, run_steps, record_of,
}
use openjarvis.Examples.{uuids, locator, fresh_thread, finalized, stale, note, incoming, manager}

abbrev after_commit : Result openjarvis.Session.StoreError Uuid × Manager MemoryState
after_commit = commit_finalized_turn uuids (memory_store uuids) 1 locator finalized manager

-- The store with the session of the conversation.
with_session : MemoryState
unfolding resolve_or_create_session
with_session = (resolve_or_create_session 1 (session_key locator) 10 new_memory).1

commit_finalized_turn_lem_example :
    (after_commit.0 ≡ ok 7)
    × (cell (session_key locator) 2 after_commit.1
        ≡ some (committed uuids 1 locator finalized manager))
    × IsCommitted uuids 1 locator finalized manager after_commit.1
unfolding stored_revision Dict.get
commit_finalized_turn_lem_example = commit_finalized_turn_lem uuids 1 locator finalized manager refl

commit_finalized_turn_stale_example :
    let refused = commit_finalized_turn uuids (memory_store uuids) 1 locator stale manager in
    (refused.0 ≡ err (revision_conflict (2 ∷ []) 3 0))
    × (refused.1.sessions ≡ [])
    × (refused.1.store.threads ≡ [])
    × (refused.1.store.external_messages ≡ [])
unfolding stored_revision Dict.get
commit_finalized_turn_stale_example =
    commit_finalized_turn_stale uuids 1 locator stale manager (λ e. ground (arith, e))

commit_finalized_turn_locked_lem_example :
    let done =
      commit_finalized_turn_locked uuids (memory_store uuids) 1 locator finalized manager in
    (done.0 ≡ ok (7, committed uuids 1 locator finalized manager))
    × IsCommitted uuids 1 locator finalized manager done.1
    × ((key : SessionKey) (id : Uuid) → cell key id done.1 ≡ cell key id manager)
unfolding stored_revision Dict.get
commit_finalized_turn_locked_lem_example =
    commit_finalized_turn_locked_lem uuids 1 locator finalized manager refl

commit_survives_restart_example :
    (load_thread_context uuids (memory_store uuids) locator 20 (with_store after_commit.1.store)).0
    ≡ ok (some (committed uuids 1 locator finalized manager))
unfolding stored_revision Dict.get
commit_survives_restart_example = commit_survives_restart uuids 1 locator finalized 20 manager refl

-- Another user's message is resolved, a turn is committed, and the program is started anew.
abbrev meantime : List ManagerStep
meantime =
    resolves 8 (record incoming { user_id = txt "other" })
    ∷ commits 8 locator finalized
    ∷ restarts
    ∷ []

load_or_create_thread_stable_example :
    let first = load_or_create_thread uuids (memory_store uuids) 1 incoming manager in
    let later = run_steps uuids meantime first.1 in
    (l : ThreadLocator) × (first.0 ≡ ok l)
    × ((load_or_create_thread uuids (memory_store uuids) 9 incoming later).0 ≡ ok l)
load_or_create_thread_stable_example =
    load_or_create_thread_stable uuids 1 9 incoming incoming meantime manager refl refl refl

load_or_create_thread_restores_example :
    let l = locator_of uuids (record_of uuids 1 incoming after_commit.1.store).id incoming in
    cell
      (key_of_incoming incoming)
      l.thread_id
      (load_or_create_thread uuids
        (memory_store uuids)
        1
        incoming
        (with_store after_commit.1.store)).1
    ≡ some (
        unwrap_or
          (mathlib.Core.Option.map
            (rebind_locator (context_locator uuids l))
            (Dict.get l.thread_id after_commit.1.store.threads))
          (new_thread (context_locator uuids l) 10))
load_or_create_thread_restores_example =
    load_or_create_thread_restores uuids 1 incoming after_commit.1.store

save_thread_context-Outcome_example :
    Outcome 1 2 fresh_thread
      (some note)
      with_session
      (save_thread_context uuids fresh_thread 13 (some note) with_session).1
      (save_thread_context uuids fresh_thread 13 (some note) with_session).0
unfolding parse_locator
save_thread_context-Outcome_example =
    save_thread_context-Outcome uuids 1 2 fresh_thread 13 (some note) with_session refl

saves : (save_thread_context uuids fresh_thread 13 (some note) with_session).0 ≡ ok 1
unfolding save_thread_context save_parsed parse_locator with_session resolve_or_create_session
    stored_revision Dict.get Dict.insert Dict.contains_key text_eq session_key_eq
saves = refl

second_writer_refused_example :
    let s' = (save_thread_context uuids fresh_thread 13 (some note) with_session).1 in
    save_thread_context uuids fresh_thread 14 none s' ≡ (err (revision_conflict (2 ∷ []) 0 1), s')
unfolding parse_locator
second_writer_refused_example =
    second_writer_refused uuids 1 1 2 fresh_thread fresh_thread 13 14 (some note) none with_session
      1 refl refl refl refl saves

load_thread_context-save_example :
    let s' = (save_thread_context uuids fresh_thread 13 (some note) with_session).1 in
    (load_stored locator s' ≡ (ok (some (set_revision 1 fresh_thread)), s'))
    × (load_external_message_record locator (txt "m1") s' ≡ (ok (some note), s'))
unfolding parse_locator
load_thread_context-save_example =
    load_thread_context-save uuids 1 fresh_thread 13 note 1 locator with_session refl refl saves

refuses :
    (save_thread_context uuids fresh_thread 13 (some note) new_memory).0
    ≡ err (unresolved_session 1)
unfolding save_thread_context save_parsed parse_locator Dict.get Dict.contains_key
refuses = refl

thread_key_injective_example :
    (key_of_incoming incoming ≡ session_key locator) × (txt "default" ≡ txt "default")
thread_key_injective_example =
    thread_key_injective (key_of_incoming incoming) (session_key locator) (txt "default")
      (txt "default") (ground arith) (ground arith) (ground arith) (ground arith) refl

thread_key_collision_example :
    thread_key (record { channel = txt "feishu"; user_id = txt "ou_1:feishu" }) (txt "a")
    ≡ thread_key (record { channel = txt "feishu"; user_id = txt "ou_1" }) (txt "feishu:a")
thread_key_collision_example = thread_key_collision (txt "ou_1") (txt "feishu") (txt "a")
