-- ===== src/Session/Manager/Stability.antt =====
-- session.rs over session/store/memory.rs: a session keeps its identifier whatever the manager does.
use openjarvis.Base.{
  ℕ, Text, Option, none, some, ◌+◌, ◌≡◌, refl, subst, sym, arith, Result, ok, err,
}
use openjarvis.Base.Dict
use openjarvis.Base.Dict.{Dict, get-insert}
use mathlib.Core.Option
use openjarvis.Context.{Uuid, Instant}
use openjarvis.Thread.{Thread, FinalizedTurn, rebind_locator, set_revision}
use openjarvis.Session.{
  UuidCrate, SessionKey, ThreadLocator, DedupRecord, StoreError, Exec, StoredSessionRecord,
  session_key_eq_iff, session_key_instance, ◌>>=◌, pure, continue, context_locator, session_key,
}
use openjarvis.Session.Memory.{
  MemoryState, resolve_or_create_session, save_thread_context, save_parsed, write_thread,
  parse_locator, load_session, entry_or_insert, touch, key_of_thread, stored_revision, memory_store,
  load_thread_context as load_stored, save_external_message_record,
}
use openjarvis.Session.Cache.{
  Manager, in_store, cached_thread_handle, cache_thread_handle_if_absent,
  sync_thread_context_to_cache, touch_cached_session, write_cell,
}
use openjarvis.Session.Manager.{
  ensure_thread_handle, fetch_thread_context_from_store_only, commit_finalized_turn,
  commit_finalized_turn_locked, store_thread_context, save_thread_snapshot,
  mark_external_message_processed, lock_thread_context, load_thread_context,
  persist_locked_thread_context, fetch_thread_context_from_store, dedup_record,
  persist_thread_context_snapshot,
}

-- The store has the session under the identifier.
unfoldable pub Holds : SessionKey → Uuid → MemoryState → Type 0
Holds key id s = Option.map (λ r. r.id) (Dict.get key s.sessions) ≡ some id

module _ (key : SessionKey) (id : Uuid) where
  pub resolve-Holds :
      (fresh : Uuid) (other : SessionKey) (now : Instant) (s : MemoryState)
      → Holds key id s
      → Holds key id (resolve_or_create_session fresh other now s).1
  unfolding Holds resolve_or_create_session
  resolve-Holds fresh other now s h =
      let v = record (entry_or_insert fresh other now s) { updated_at = now } in
      ground (arith, get-insert other key v s.sessions, session_key_eq_iff other key)

  touch-Holds :
      (other : SessionKey) (at : Instant) (d : Dict SessionKey StoredSessionRecord)
      → Option.map (λ r. r.id) (Dict.get key d) ≡ some id
      → Option.map (λ r. r.id) (Dict.get key (touch other at d)) ≡ some id
  touch-Holds other at d h = touched (Dict.get other d) refl
    where
      touched :
          (x : Option StoredSessionRecord)
          → Dict.get other d ≡ x
          → Option.map (λ r. r.id) (Dict.get key (touch other at d)) ≡ some id
      touched none e = rw (e, touch) h
      touched (some r) e =
          rw (e, touch)
            (ground (
              arith,
              get-insert other key (record r { updated_at = at }) d,
              session_key_eq_iff other key,
            ))

  write-Holds :
      (thread_id : Uuid) (t : Thread) (n : ℕ) (at : Instant) (dedup : Option DedupRecord)
      (s : MemoryState)
      → Holds key id s
      → Holds key id (write_thread thread_id t n at dedup s)
  unfolding Holds write_thread
  write-Holds thread_id t n at dedup s h = touch-Holds (key_of_thread t) at s.sessions h

  parsed-Holds :
      (session thread_id : Uuid) (t : Thread) (at : Instant) (dedup : Option DedupRecord)
      (s : MemoryState)
      → Holds key id s
      → Holds key id (save_parsed session thread_id t at dedup s).1
  unfolding save_parsed
  parsed-Holds session thread_id t at dedup s h =
      ground (arith, write-Holds thread_id t (stored_revision thread_id s + 1) at dedup s h)

  save-Holds :
      (u : UuidCrate) (t : Thread) (at : Instant) (dedup : Option DedupRecord) (s : MemoryState)
      → Holds key id s
      → Holds key id (save_thread_context u t at dedup s).1
  unfolding save_thread_context
  save-Holds u t at dedup s h = saved (parse_locator u t) refl
    where
      saved :
          (x : Result StoreError (Uuid × Uuid))
          → parse_locator u t ≡ x
          → Holds key id (save_thread_context u t at dedup s).1
      saved (err e) p = rw (p, save_thread_context) h
      saved (ok (session, thread_id)) p =
          rw (p, save_thread_context) (parsed-Holds session thread_id t at dedup s h)

  -- The operation of the manager leaves the session under its identifier.
  unfoldable pub KeepsId : {A : Type 0} → Exec (Manager MemoryState) A → Type 0
  KeepsId op = (m : Manager MemoryState) → Holds key id m.store → Holds key id (op m).1.store

module _ (key : SessionKey) (id : Uuid) where
  continue-KeepsId :
      {A B : Type 0} (x : Result StoreError A) (f : A → Exec (Manager MemoryState) B)
      (m : Manager MemoryState)
      → ((a : A) → KeepsId key id (f a))
      → Holds key id m.store
      → Holds key id (continue x f m).1.store
  unfolding KeepsId
  continue-KeepsId (ok a) f m k h = k a m h
  continue-KeepsId (err e) f m k h = h

  bind-KeepsId :
      {A B : Type 0} (op : Exec (Manager MemoryState) A) (f : A → Exec (Manager MemoryState) B)
      → KeepsId key id op
      → ((a : A) → KeepsId key id (f a))
      → KeepsId key id (op >>= f)
  unfolding KeepsId
  bind-KeepsId op f h k m held = continue-KeepsId (op m).0 f (op m).1 k (h m held)

  in_store-KeepsId :
      {A : Type 0} (op : Exec MemoryState A)
      → ((s : MemoryState) → Holds key id s → Holds key id (op s).1)
      → KeepsId key id (in_store op)
  unfolding KeepsId in_store
  in_store-KeepsId op k m h = k m.store h

  -- What only the cache is told.
  cached-KeepsId :
      {A : Type 0} (a : A) (f : Manager MemoryState → Manager MemoryState)
      → ((m : Manager MemoryState) → (f m).store ≡ m.store)
      → KeepsId key id (λ m. (ok a, f m))
  unfolding KeepsId
  cached-KeepsId a f k m h = subst (Holds key id) (sym (k m)) h

  sync-store :
      (l : ThreadLocator) (t : Thread) (at : Instant) (m : Manager MemoryState)
      → (sync_thread_context_to_cache (session_key l) l t at m).store ≡ m.store
  unfolding sync_thread_context_to_cache touch_cached_session write_cell
  sync-store l t at m = ground arith

  touch-store :
      (l : ThreadLocator) (at : Instant) (m : Manager MemoryState)
      → (touch_cached_session (session_key l) l at m).store ≡ m.store
  unfolding touch_cached_session
  touch-store l at m = refl

  module _ (u : UuidCrate) where
    save_thread_snapshot-KeepsId :
        (fresh : Uuid) (l : ThreadLocator) (t : Thread) (at : Instant) (dedup : Option DedupRecord)
        → KeepsId key id (save_thread_snapshot u (memory_store u) fresh l t at dedup)
    unfolding save_thread_snapshot
    save_thread_snapshot-KeepsId fresh l t at dedup =
        let bound = rebind_locator (context_locator u l) t in
        let resolve = resolve_or_create_session fresh (session_key l) at in
        let save = save_thread_context u bound at dedup in
        let answer : ℕ → Exec (Manager MemoryState) Thread = λ n. pure (set_revision n bound) in
        bind-KeepsId (in_store resolve) (λ _. in_store save >>= answer)
          (in_store-KeepsId resolve (resolve-Holds key id fresh (session_key l) at))
          (λ _.
            bind-KeepsId (in_store save) answer
              (in_store-KeepsId save (save-Holds key id u bound at dedup))
              (λ n. cached-KeepsId (set_revision n bound) (λ m. m) (λ m. refl)))

    pub commit_finalized_turn-KeepsId :
        (fresh : Uuid) (l : ThreadLocator) (f : FinalizedTurn)
        → KeepsId key id (commit_finalized_turn u (memory_store u) fresh l f)
    unfolding commit_finalized_turn
    commit_finalized_turn-KeepsId fresh l f =
        bind-KeepsId _ _
          (save_thread_snapshot-KeepsId fresh l f.snapshot f.completed_at (dedup_record l f))
          (λ t. cached-KeepsId _ _ (sync-store l t f.completed_at))

    pub commit_finalized_turn_locked-KeepsId :
        (fresh : Uuid) (l : ThreadLocator) (f : FinalizedTurn)
        → KeepsId key id (commit_finalized_turn_locked u (memory_store u) fresh l f)
    unfolding commit_finalized_turn_locked
    commit_finalized_turn_locked-KeepsId fresh l f =
        bind-KeepsId _ _
          (save_thread_snapshot-KeepsId fresh l f.snapshot f.completed_at (dedup_record l f))
          (λ t. cached-KeepsId _ _ (touch-store l f.completed_at))

    pub store_thread_context-KeepsId :
        (fresh : Uuid) (l : ThreadLocator) (t : Thread) (at : Instant)
        → KeepsId key id (store_thread_context u (memory_store u) fresh l t at)
    unfolding store_thread_context persist_thread_context_snapshot
    store_thread_context-KeepsId fresh l t at =
        bind-KeepsId _ _ (save_thread_snapshot-KeepsId fresh l t at none)
          (λ t'. cached-KeepsId _ _ (sync-store l t' at))

    pub mark_external_message_processed-KeepsId :
        (l : ThreadLocator) (external : Text) (turn_id : Option Uuid) (at : Instant)
        → KeepsId key id (mark_external_message_processed u (memory_store u) l external turn_id at)
    unfolding mark_external_message_processed
    mark_external_message_processed-KeepsId l external turn_id at =
        in_store-KeepsId _ (λ s h. unfold Holds save_external_message_record in h)

    pub persist_locked_thread_context-KeepsId :
        (fresh : Uuid) (l : ThreadLocator) (t : Thread) (at : Instant)
        → KeepsId key id (persist_locked_thread_context u (memory_store u) fresh l t at)
    unfolding persist_locked_thread_context persist_thread_context_snapshot
    persist_locked_thread_context-KeepsId fresh l t at =
        bind-KeepsId _ _ (save_thread_snapshot-KeepsId fresh l t at none)
          (λ t'. cached-KeepsId _ _ (touch-store l at))

    pub lock_thread_context-KeepsId :
        (fresh : Uuid) (l : ThreadLocator) (now : Instant)
        → KeepsId key id (lock_thread_context u (memory_store u) fresh l now)
    unfolding KeepsId lock_thread_context ensure_thread_handle cached_thread_handle
        fetch_thread_context_from_store_only cache_thread_handle_if_absent in_store load_stored
    lock_thread_context-KeepsId fresh l now m h =
        ground (arith, resolve-Holds key id fresh (session_key l) now m.store h)

    pub load_thread_context-KeepsId :
        (l : ThreadLocator) (now : Instant)
        → KeepsId key id (load_thread_context u (memory_store u) l now)
    unfolding KeepsId load_thread_context fetch_thread_context_from_store cached_thread_handle
        fetch_thread_context_from_store_only cache_thread_handle_if_absent in_store load_stored
        load_session
    load_thread_context-KeepsId l now m h = ground arith
