-- ===== src/Session/Manager/Snapshot.antt =====
-- session.rs over session/store/memory.rs: saving a snapshot of a thread.
use openjarvis.Base.{◌+◌, Option, ◌≡◌, ◌≢◌, true, ok, err, arith}
use openjarvis.Base.Dict
use openjarvis.Base.Dict.{Dict, get-insert, get-insert_self}
use openjarvis.Context.{Uuid, Instant}
use openjarvis.Thread.{Thread, rebind_locator, set_revision}
use openjarvis.Session.{
  UuidCrate, ThreadLocator, DedupRecord, revision_conflict, session_key_instance, session_key,
  context_locator,
}
use openjarvis.Session.Memory.{
  MemoryState, message_key_instance, uuid_instance, stored_revision, parse_locator, save_parsed,
  save_thread_context, write_thread, resolve_or_create_session, memory_store, entry_or_insert,
}
use openjarvis.Session.Memory.Saving.{stale_save}
use openjarvis.Session.Cache.{Manager}
use openjarvis.Session.Manager.{save_thread_snapshot}

module _ (u : UuidCrate) (fresh : Uuid) (l : ThreadLocator) (at : Instant) where
  -- The store once the session of the locator is resolved.
  unfoldable pub resolved : MemoryState → MemoryState
  resolved s = (resolve_or_create_session fresh (session_key l) at s).1

  pub resolved_keeps :
      (s : MemoryState)
      → (Dict.contains_key (session_key l) (resolved s).sessions ≡ true)
        × ((resolved s).threads ≡ s.threads)
        × ((resolved s).external_messages ≡ s.external_messages)
        × (stored_revision l.thread_id (resolved s) ≡ stored_revision l.thread_id s)
  unfolding resolved resolve_or_create_session Dict.contains_key stored_revision
  resolved_keeps s = ground (
    arith,
    get-insert_self (session_key l)
        (record (entry_or_insert fresh (session_key l) at s) { updated_at = at }) s.sessions,
  )

  unfoldable pub rebound : Thread → Thread
  rebound t = rebind_locator (context_locator u l) t

  parse_rebound : (t : Thread) → parse_locator u (rebound t) ≡ ok (l.session_id, l.thread_id)
  unfolding parse_locator rebound
  parse_rebound t =
      ground (arith, u.parse_str-to_string l.session_id, u.parse_str-to_string l.thread_id)

  save_rebound :
      (t : Thread) (dedup : Option DedupRecord) (s : MemoryState)
      → t.revision ≡ stored_revision l.thread_id s
      → save_thread_context u (rebound t) at dedup (resolved s) ≡ (
        ok (t.revision + 1),
        write_thread l.thread_id (rebound t) (t.revision + 1) at dedup (resolved s),
      )
  unfolding save_thread_context save_parsed rebound
  save_rebound t dedup s e = ground (arith, parse_rebound t, resolved_keeps s)

  save_rebound_stale :
      (t : Thread) (dedup : Option DedupRecord) (s : MemoryState)
      → t.revision ≢ stored_revision l.thread_id s
      → save_thread_context u (rebound t) at dedup (resolved s) ≡ (
        err (
            revision_conflict (u.to_string l.thread_id) t.revision (stored_revision l.thread_id s)),
        resolved s,
      )
  unfolding save_thread_context rebound
  save_rebound_stale t dedup s e = ground (
    arith,
    parse_rebound t,
    stale_save l.session_id l.thread_id (rebound t) at dedup (stored_revision l.thread_id s)
        (resolved s) (resolved_keeps s).0 (resolved_keeps s).3 e,
  )

  -- The snapshot as it is stored, and the manager after it.
  unfoldable pub stored_snapshot : Thread → Thread
  stored_snapshot t = set_revision (t.revision + 1) (rebound t)

  unfoldable pub after_snapshot :
      Thread → Option DedupRecord → Manager MemoryState → Manager MemoryState
  after_snapshot t dedup m = record m {
    store = write_thread l.thread_id (rebound t) (t.revision + 1) at dedup (resolved m.store);
  }

  pub save_thread_snapshot-fresh :
      (t : Thread) (dedup : Option DedupRecord) (m : Manager MemoryState)
      → t.revision ≡ stored_revision l.thread_id m.store
      → save_thread_snapshot u (memory_store u) fresh l t at dedup m
        ≡ (ok (stored_snapshot t), after_snapshot t dedup m)
  unfolding save_thread_snapshot resolved rebound stored_snapshot after_snapshot
      resolve_or_create_session
  save_thread_snapshot-fresh t dedup m e = ground (arith, save_rebound t dedup m.store e)

  pub save_thread_snapshot-stale :
      (t : Thread) (dedup : Option DedupRecord) (m : Manager MemoryState)
      → t.revision ≢ stored_revision l.thread_id m.store
      → save_thread_snapshot u (memory_store u) fresh l t at dedup m ≡ (
        err (
            revision_conflict
              (u.to_string l.thread_id)
              t.revision
              (stored_revision l.thread_id m.store)),
        record m { store = resolved m.store },
      )
  unfolding save_thread_snapshot resolved rebound resolve_or_create_session
  save_thread_snapshot-stale t dedup m e = ground (arith, save_rebound_stale t dedup m.store e)
