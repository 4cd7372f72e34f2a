-- ===== src/Session/Manager.antt =====
-- session.rs: the manager's operations. Each is modelled as it runs when no other one interleaves.
pub mod Snapshot
pub mod Commit
pub mod Stability
pub mod Identity
use openjarvis.Base.{
  ℕ, Text, List, [], ◌∷◌, Option, none, some, Bool, true, false, Result, ok, err, if◌then◌else◌,
  unwrap_or, is_some, ltb, max,
}
use openjarvis.Base.Dict
use openjarvis.Base.Dict.{Dict}
use openjarvis.Context.{Uuid, Instant}
use openjarvis.Model.{IncomingMessage, resolved_external_thread_id}
use openjarvis.Thread.{
  Thread, ContextLocator, new_thread, rebind_locator, set_revision, FinalizedTurn,
}
use openjarvis.Session.{
  UuidCrate, SessionKey, ThreadLocator, StoredSessionRecord, DedupRecord, StoreError, Exec,
  SessionStore, session_key_instance, ◌>>=◌, ◌>>◌, pure, session_key, context_locator, new_locator,
  key_of_incoming, derive_thread_id,
}
use openjarvis.Session.Cache.{
  Manager, in_store, write_cell, cached_thread_handle, cache_thread_handle_if_absent,
  touch_cached_session, sync_thread_context_to_cache, from_record, put_session, session_or,
}

-- The record of the message that a finalized turn answers.
abbrev pub dedup_record : ThreadLocator → FinalizedTurn → Option DedupRecord
dedup_record l f = elim f.external_message_id [
  | none ↦ none
  | some id ↦ some (record {
    thread_id = l.thread_id;
    external_message_id = id;
    turn_id = some f.turn_id;
    completed_at = f.completed_at;
  })
]

module _ {S : Type 0} (u : UuidCrate) (store : SessionStore S) where
  unfoldable pub fetch_thread_context_from_store_only :
      ThreadLocator → Exec (Manager S) (Option Thread)
  unfolding in_store
  fetch_thread_context_from_store_only l = do
    found ← in_store (store.load_thread_context l)
    pure (mathlib.Core.Option.map (rebind_locator (context_locator u l)) found)

  pair_up : StoredSessionRecord → Option Thread → Option (StoredSessionRecord × Thread)
  pair_up r none = none
  pair_up r (some t) = some (r, t)

  with_session :
      ThreadLocator
      → Option StoredSessionRecord
      → Exec (Manager S) (Option (StoredSessionRecord × Thread))
  unfolding pair_up
  with_session l none = pure none
  with_session l (some r) = do
    found ← fetch_thread_context_from_store_only l
    pure (pair_up r found)

  unfoldable pub fetch_thread_context_from_store :
      ThreadLocator → Exec (Manager S) (Option (StoredSessionRecord × Thread))
  unfolding in_store with_session
  fetch_thread_context_from_store l = do
    found ← in_store (store.load_session (session_key l))
    with_session l found

  -- `fresh` is the identifier that a new session would take.
  unfoldable pub save_thread_snapshot :
      Uuid → ThreadLocator → Thread → Instant → Option DedupRecord → Exec (Manager S) Thread
  unfolding in_store
  save_thread_snapshot fresh l t updated_at dedup = do
    in_store (store.resolve_or_create_session fresh (session_key l) updated_at)
    let rebound = rebind_locator (context_locator u l) t
    n ← in_store (store.save_thread_context rebound updated_at dedup)
    pure (set_revision n rebound)

  unfoldable pub persist_thread_context_snapshot :
      Uuid → ThreadLocator → Thread → Instant → Exec (Manager S) Thread
  unfolding save_thread_snapshot
  persist_thread_context_snapshot fresh l t updated_at =
      save_thread_snapshot fresh l t updated_at none

  resolve_record :
      Uuid
      → ThreadLocator
      → Option StoredSessionRecord
      → Instant
      → Exec (Manager S) StoredSessionRecord
  unfolding in_store
  resolve_record fresh l none now =
      in_store (store.resolve_or_create_session fresh (session_key l) now)
  resolve_record fresh l (some r) now = pure r

  -- Fills the place of the thread from the store, or with a new thread.
  fill_handle :
      Uuid → ThreadLocator → Option StoredSessionRecord → Instant → Exec (Manager S) Thread
  unfolding resolve_record
  fill_handle fresh l given now = do
    r ← resolve_record fresh l given now
    persisted ← fetch_thread_context_from_store_only l
    let t = unwrap_or persisted (new_thread (context_locator u l) now)
    cache_thread_handle_if_absent (session_key l) r l.thread_id t now

  ensure_cached :
      Option Thread
      → Uuid
      → ThreadLocator
      → Option StoredSessionRecord
      → Instant
      → Exec (Manager S) Thread
  unfolding fill_handle
  ensure_cached (some t) fresh l given now = pure t
  ensure_cached none fresh l given now = fill_handle fresh l given now

  unfoldable pub ensure_thread_handle :
      Uuid → ThreadLocator → Option StoredSessionRecord → Instant → Exec (Manager S) Thread
  unfolding ensure_cached
  ensure_thread_handle fresh l given now = do
    cached ← cached_thread_handle l
    ensure_cached cached fresh l given now

  unfoldable pub load_or_create_thread : Uuid → IncomingMessage → Exec (Manager S) ThreadLocator
  unfolding in_store
  load_or_create_thread fresh m = do
    let key = key_of_incoming m
    let external = resolved_external_thread_id m
    let now = m.received_at
    r ← in_store (store.resolve_or_create_session fresh key now)
    let l = new_locator r.id m external (derive_thread_id u key external)
    ensure_thread_handle fresh l (some r) now
    λ s. (ok l, put_session key (record (session_or (from_record r) key s) { updated_at = now }) s)

  cache_found :
      ThreadLocator
      → Instant
      → Option (StoredSessionRecord × Thread)
      → Exec (Manager S) (Option Thread)
  cache_found l now none = pure none
  cache_found l now (some (r, t)) = do
    held ← cache_thread_handle_if_absent (session_key l) r l.thread_id t now
    pure (some held)

  load_uncached : Option Thread → ThreadLocator → Instant → Exec (Manager S) (Option Thread)
  unfolding cache_found
  load_uncached (some t) l now = pure (some t)
  load_uncached none l now = do found ← fetch_thread_context_from_store l; cache_found l now found

  -- `now` is what the clock shows when a thread of the store enters the cache.
  unfoldable pub load_thread_context : ThreadLocator → Instant → Exec (Manager S) (Option Thread)
  unfolding load_uncached
  load_thread_context l now = do cached ← cached_thread_handle l; load_uncached cached l now

  -- Answers the thread behind the guard.
  unfoldable pub lock_thread_context : Uuid → ThreadLocator → Instant → Exec (Manager S) Thread
  unfolding ensure_thread_handle
  lock_thread_context fresh l now = ensure_thread_handle fresh l none now

  unfoldable pub persist_thread_context :
      Uuid → ThreadLocator → Instant → Exec (Manager S) (Unit {0})
  persist_thread_context fresh l updated_at = do
    snapshot ← ensure_thread_handle fresh l none updated_at
    persisted ← persist_thread_context_snapshot fresh l snapshot updated_at
    λ s. (ok tt, sync_thread_context_to_cache (session_key l) l persisted updated_at s)

  -- What the closure did to the thread stays in the cache, whether it, or the save, fails or not.
  unfoldable pub mutate_thread_context :
      {R : Type 0}
      → Uuid
      → ThreadLocator
      → Instant
      → (Thread → Result StoreError R × Thread)
      → Exec (Manager S) R
  mutate_thread_context fresh l updated_at mutate = do
    t ← lock_thread_context fresh l updated_at
    result ← λ s. ((mutate t).0, write_cell (session_key l) l.thread_id (mutate t).1 s)
    persisted ← persist_thread_context_snapshot fresh l (mutate t).1 updated_at
    λ s. (ok result, write_cell (session_key l) l.thread_id persisted s)

  -- The caller holds the guard: what is answered is what the guarded thread is set to.
  unfoldable pub persist_locked_thread_context :
      Uuid → ThreadLocator → Thread → Instant → Exec (Manager S) Thread
  persist_locked_thread_context fresh l t updated_at = do
    persisted ← persist_thread_context_snapshot fresh l t updated_at
    λ s. (ok persisted, touch_cached_session (session_key l) l updated_at s)

  unfoldable pub is_external_message_processed : ThreadLocator → Text → Exec (Manager S) Bool
  unfolding in_store
  is_external_message_processed l id = do
    found ← in_store (store.load_external_message_record l id)
    pure (is_some found)

  unfoldable pub mark_external_message_processed :
      ThreadLocator → Text → Option Uuid → Instant → Exec (Manager S) (Unit {0})
  unfolding in_store
  mark_external_message_processed l id turn_id completed_at = in_store (
      store.save_external_message_record l (record {
        thread_id = l.thread_id;
        external_message_id = id;
        turn_id = turn_id;
        completed_at = completed_at;
      }))

  unfoldable pub commit_finalized_turn :
      Uuid → ThreadLocator → FinalizedTurn → Exec (Manager S) Uuid
  commit_finalized_turn fresh l f = do
    persisted ← save_thread_snapshot fresh l f.snapshot f.completed_at (dedup_record l f)
    λ s. (ok f.turn_id, sync_thread_context_to_cache (session_key l) l persisted f.completed_at s)

  -- As above for a caller that holds the guard: also answers what the guarded thread is set to.
  unfoldable pub commit_finalized_turn_locked :
      Uuid → ThreadLocator → FinalizedTurn → Exec (Manager S) (Uuid × Thread)
  commit_finalized_turn_locked fresh l f = do
    persisted ← save_thread_snapshot fresh l f.snapshot f.completed_at (dedup_record l f)
    λ s. (ok (f.turn_id, persisted), touch_cached_session (session_key l) l f.completed_at s)

  unfoldable pub store_thread_context :
      Uuid → ThreadLocator → Thread → Instant → Exec (Manager S) (Unit {0})
  store_thread_context fresh l t updated_at = do
    persisted ← persist_thread_context_snapshot fresh l t updated_at
    λ s. (ok tt, sync_thread_context_to_cache (session_key l) l persisted updated_at s)
