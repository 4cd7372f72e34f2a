-- ===== src/Session/Manager/Commit.antt =====
-- session.rs over session/store/memory.rs: committing a finalized turn.
use openjarvis.Base.{
  Text, ◌+◌, Option, none, some, Option-cases, inl, inr, ◌≡◌, ◌≢◌, refl, true, Result, ok, err,
  arith, ap, ◌∙◌,
}
use openjarvis.Base.Dict
use openjarvis.Base.Dict.{Dict, get-insert, get-insert_self}
use openjarvis.Context.{Uuid}
use openjarvis.Thread.{Thread, FinalizedTurn, rebind_locator, set_revision}
use openjarvis.Session.{
  UuidCrate, SessionKey, ThreadLocator, StoreError, revision_conflict, session_key_instance,
  session_key, context_locator,
}
use openjarvis.Session.Memory.{
  MemoryState, message_key_instance, uuid_instance, stored_revision, write_thread, memory_store,
  load_external_message_record,
}
use openjarvis.Session.Memory.Saving.{contains_key-write_thread}
use openjarvis.Session.Cache.Laws.{cell-sync, store-sync, cell-touch, store-touch}
use openjarvis.Session.Cache.{Manager, cell, touch_cached_session, sync_thread_context_to_cache}
use openjarvis.Session.Manager.{
  commit_finalized_turn, commit_finalized_turn_locked, is_external_message_processed, dedup_record,
}
use openjarvis.Session.Manager.Snapshot.{
  resolved, resolved_keeps, rebound, stored_snapshot, after_snapshot, save_thread_snapshot-fresh,
  save_thread_snapshot-stale,
}

module _ (u : UuidCrate) (fresh : Uuid) (l : ThreadLocator) (f : FinalizedTurn)
    (m : Manager MemoryState) where
  -- The thread that a commit of the turn stores.
  abbrev pub committed : Thread
  committed =
      set_revision (f.snapshot.revision + 1) (rebind_locator (context_locator u l) f.snapshot)

  abbrev commit : Result StoreError Uuid × Manager MemoryState
  commit = commit_finalized_turn u (memory_store u) fresh l f m

  abbrev commit_locked : Result StoreError (Uuid × Thread) × Manager MemoryState
  commit_locked = commit_finalized_turn_locked u (memory_store u) fresh l f m

  -- The message, if there is one, counts as processed.
  abbrev pub Processed : Manager MemoryState → Option Text → Type 0
  Processed m' none = Unit {0}
  Processed m' (some e) = (is_external_message_processed u (memory_store u) l e m').0 ≡ ok true

  -- Cache and store after a commit that succeeds.
  pub record IsCommitted (m' : Manager MemoryState) : Type 0 where
    pub stored : Dict.get l.thread_id m'.store.threads ≡ some committed
    pub session : Dict.contains_key (session_key l) m'.store.sessions ≡ true
    pub processed : Processed m' f.external_message_id

  written_IsCommitted :
      (m' : Manager MemoryState)
      → m'.store ≡ (after_snapshot u fresh l f.completed_at f.snapshot (dedup_record l f) m).store
      → IsCommitted m'
  unfolding after_snapshot write_thread rebound is_external_message_processed
      load_external_message_record
  written_IsCommitted m' e =
      let base = resolved u fresh l f.completed_at m.store in
      let t = rebound u fresh l f.completed_at f.snapshot in
      record {
        stored = ground (arith, get-insert_self l.thread_id committed base.threads);
        session = ground (
          arith,
          contains_key-write_thread l.thread_id t (f.snapshot.revision + 1) f.completed_at
              (dedup_record l f) base (resolved_keeps u fresh l f.completed_at m.store).0,
        );
        processed = elim (Option-cases f.external_message_id) [
          | inl h ↦ rw h tt
          | inr (x, h) ↦ rw h (
              ground (
                arith,
                h,
                get-insert_self (record { thread_id = l.thread_id; external_message_id = x })
                    (record {
                      thread_id = l.thread_id;
                      external_message_id = x;
                      turn_id = some f.turn_id;
                      completed_at = f.completed_at;
                    })
                    base.external_messages,
              ))
        ];
      }

  commit-eq :
      f.snapshot.revision ≡ stored_revision l.thread_id m.store
      → commit ≡ (
        ok f.turn_id,
        sync_thread_context_to_cache
            (session_key l)
            l
            committed
            f.completed_at
            (after_snapshot u fresh l f.completed_at f.snapshot (dedup_record l f) m),
      )
  unfolding commit_finalized_turn stored_snapshot rebound
  commit-eq e =
      ground (
        arith,
        save_thread_snapshot-fresh u fresh l f.completed_at f.snapshot (dedup_record l f) m e,
      )

  commit_locked-eq :
      f.snapshot.revision ≡ stored_revision l.thread_id m.store
      → commit_locked ≡ (
        ok (f.turn_id, committed),
        touch_cached_session
            (session_key l)
            l
            f.completed_at
            (after_snapshot u fresh l f.completed_at f.snapshot (dedup_record l f) m),
      )
  unfolding commit_finalized_turn_locked stored_snapshot rebound
  commit_locked-eq e =
      ground (
        arith,
        save_thread_snapshot-fresh u fresh l f.completed_at f.snapshot (dedup_record l f) m e,
      )

  cell-after_snapshot :
      (key : SessionKey) (id : Uuid)
      → cell key id (after_snapshot u fresh l f.completed_at f.snapshot (dedup_record l f) m)
        ≡ cell key id m
  unfolding after_snapshot cell
  cell-after_snapshot key id = refl

  -- A turn whose snapshot has the stored revision commits: the answer is its identifier, cache and
  -- store hold the same thread, the snapshot under the next revision and the locator, the session
  -- is in the store, and the message that the turn answers is processed.
  pub commit_finalized_turn_lem :
      f.snapshot.revision ≡ stored_revision l.thread_id m.store
      → (commit.0 ≡ ok f.turn_id)
        × (cell (session_key l) l.thread_id commit.1 ≡ some committed)
        × IsCommitted commit.1
  commit_finalized_turn_lem e =
      let written = after_snapshot u fresh l f.completed_at f.snapshot (dedup_record l f) m in
      let done = commit-eq e in
      (
        ap (λ (r : Result StoreError Uuid × Manager MemoryState). r.0) done,
        ap
              (λ (r : Result StoreError Uuid × Manager MemoryState).
                cell (session_key l) l.thread_id r.1)
              done
            ∙ cell-sync (session_key l) l committed f.completed_at written,
        written_IsCommitted commit.1 (
            ap (λ (r : Result StoreError Uuid × Manager MemoryState). r.1.store) done
            ∙ store-sync (session_key l) l committed f.completed_at written),
      )

  -- A turn whose snapshot has another revision is refused with both revisions; no cached thread, no
  -- stored thread and no record of a processed message changes.
  pub commit_finalized_turn_stale :
      f.snapshot.revision ≢ stored_revision l.thread_id m.store
      → (commit.0
          ≡ err (
              revision_conflict
                (u.to_string l.thread_id)
                f.snapshot.revision
                (stored_revision l.thread_id m.store)))
        × (commit.1.sessions ≡ m.sessions)
        × (commit.1.store.threads ≡ m.store.threads)
        × (commit.1.store.external_messages ≡ m.store.external_messages)
  unfolding commit_finalized_turn
  commit_finalized_turn_stale e = ground (
    arith,
    save_thread_snapshot-stale u fresh l f.completed_at f.snapshot (dedup_record l f) m e,
    resolved_keeps u fresh l f.completed_at m.store,
  )

  -- For a caller that holds the lock the commit is the same, but that the thread comes back to be
  -- written through the guard.
  pub commit_finalized_turn_locked_lem :
      f.snapshot.revision ≡ stored_revision l.thread_id m.store
      → (commit_locked.0 ≡ ok (f.turn_id, committed))
        × IsCommitted commit_locked.1
        × ((key : SessionKey) (id : Uuid) → cell key id commit_locked.1 ≡ cell key id m)
  commit_finalized_turn_locked_lem e =
      let written = after_snapshot u fresh l f.completed_at f.snapshot (dedup_record l f) m in
      let done = commit_locked-eq e in
      (
        ap (λ (r : Result StoreError (Uuid × Thread) × Manager MemoryState). r.0) done,
        written_IsCommitted commit_locked.1 (
            ap (λ (r : Result StoreError (Uuid × Thread) × Manager MemoryState). r.1.store) done
            ∙ store-touch (session_key l) l f.completed_at written),
        λ key id.
            ap (λ (r : Result StoreError (Uuid × Thread) × Manager MemoryState). cell key id r.1)
              done
            ∙ cell-touch (session_key l) key l f.completed_at id written
            ∙ cell-after_snapshot key id,
      )
