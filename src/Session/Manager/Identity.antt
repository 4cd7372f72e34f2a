-- ===== src/Session/Manager/Identity.antt =====
-- session.rs over session/store/memory.rs: a conversation keeps its identity and its content.
use openjarvis.Base.{
  Text, List, Option, subst, sym, [], ◌∷◌, some, ◌≡◌, true, Result, ok, arith, ◌∙◌, unwrap_or,
}
use openjarvis.Base.Dict
use openjarvis.Base.Dict.{Dict, get-insert, get-insert_self}
use openjarvis.Context.{Uuid, Instant}
use openjarvis.Model.{IncomingMessage, resolved_external_thread_id}
use openjarvis.Thread.{Thread, FinalizedTurn, rebind_locator, new_thread}
use openjarvis.Session.{
  UuidCrate, SessionKey, ThreadLocator, StoreError, session_key_instance, session_key,
  context_locator, StoredSessionRecord, key_of_incoming, derive_thread_id, new_locator,
}
use openjarvis.Session.Memory.{
  MemoryState, uuid_instance, stored_revision, resolve_or_create_session, memory_store,
  load_session, load_thread_context as load_stored, entry_or_insert,
}
use openjarvis.Session.Cache.{
  Manager, cell, with_store, cache_thread_handle_if_absent, cached_thread_handle, from_record,
}
use openjarvis.Session.Manager.{
  fetch_thread_context_from_store, fetch_thread_context_from_store_only, load_thread_context,
  load_or_create_thread, ensure_thread_handle,
}
use openjarvis.Session.Manager.Commit.{committed, commit_finalized_turn_lem}
use openjarvis.Session.Manager.{
  commit_finalized_turn, commit_finalized_turn_locked, store_thread_context,
  mark_external_message_processed, lock_thread_context, persist_locked_thread_context,
}
use openjarvis.Session.Manager.Stability.{
  Holds, KeepsId, resolve-Holds, commit_finalized_turn-KeepsId,
  commit_finalized_turn_locked-KeepsId, store_thread_context-KeepsId,
  mark_external_message_processed-KeepsId, lock_thread_context-KeepsId, load_thread_context-KeepsId,
  persist_locked_thread_context-KeepsId,
}

load_after_restart :
    (u : UuidCrate) (l : ThreadLocator) (now : Instant) (t : Thread) (s : MemoryState)
    → Dict.contains_key (session_key l) s.sessions ≡ true
    → Dict.get l.thread_id s.threads ≡ some t
    → (load_thread_context u (memory_store u) l now (with_store s)).0
      ≡ ok (some (rebind_locator (context_locator u l) t))
unfolding load_thread_context cached_thread_handle fetch_thread_context_from_store
    fetch_thread_context_from_store_only load_session load_stored cache_thread_handle_if_absent
    Dict.contains_key Dict.get
load_after_restart u l now t s h e = ground arith

-- A committed turn survives a restart: a manager that begins with the store alone loads the very
-- thread that was committed.
pub commit_survives_restart :
    (u : UuidCrate) (fresh : Uuid) (l : ThreadLocator) (f : FinalizedTurn) (now : Instant)
    (m : Manager MemoryState)
    → f.snapshot.revision ≡ stored_revision l.thread_id m.store
    → (load_thread_context u
        (memory_store u)
        l
        now
        (with_store (commit_finalized_turn u (memory_store u) fresh l f m).1.store)).0
      ≡ ok (some (committed u fresh l f m))
commit_survives_restart u fresh l f now m e =
    let done = (commit_finalized_turn_lem u fresh l f m e).2 in
    load_after_restart u l now (committed u fresh l f m)
      (commit_finalized_turn u (memory_store u) fresh l f m).1.store done.session done.stored

module _ (u : UuidCrate) where
  -- The record that a message's session has once it is resolved.
  pub record_of : Uuid → IncomingMessage → MemoryState → StoredSessionRecord
  record_of fresh msg s = record (entry_or_insert fresh (key_of_incoming msg) msg.received_at s) {
    updated_at = msg.received_at;
  }

  pub locator_of : Uuid → IncomingMessage → ThreadLocator
  locator_of id msg =
      let external = resolved_external_thread_id msg in
      new_locator id msg external (derive_thread_id u (key_of_incoming msg) external)

  abbrev load :
      Uuid
      → IncomingMessage
      → Manager MemoryState
      → Result StoreError ThreadLocator × Manager MemoryState
  load fresh msg m = load_or_create_thread u (memory_store u) fresh msg m

  load-record :
      (fresh : Uuid) (msg : IncomingMessage) (m : Manager MemoryState)
      → ((load fresh msg m).0 ≡ ok (locator_of (record_of fresh msg m.store).id msg))
        × ((load fresh msg m).1.store ≡ record m.store {
          sessions =
              Dict.insert (key_of_incoming msg) (record_of fresh msg m.store) m.store.sessions;
        })
  unfolding load_or_create_thread ensure_thread_handle resolve_or_create_session load_stored
      cached_thread_handle fetch_thread_context_from_store_only cache_thread_handle_if_absent
      record_of locator_of
  load-record fresh msg m = ground arith

  load-Holds :
      (fresh : Uuid) (msg : IncomingMessage) (m : Manager MemoryState)
      → Holds (key_of_incoming msg) (record_of fresh msg m.store).id (load fresh msg m).1.store
  unfolding Holds record_of
  load-Holds fresh msg m =
      let r = record_of fresh msg m.store in
      ground
        (arith, load-record fresh msg m, get-insert_self (key_of_incoming msg) r m.store.sessions)

  load-KeepsId :
      (key : SessionKey) (id : Uuid) (fresh : Uuid) (msg : IncomingMessage)
      → KeepsId key id (load fresh msg)
  unfolding KeepsId record_of resolve_or_create_session
  load-KeepsId key id fresh msg m h =
      subst (Holds key id) (sym (load-record fresh msg m).1)
        (resolve-Holds key id fresh (key_of_incoming msg) msg.received_at m.store h)

  record_of-Holds :
      (id fresh : Uuid) (msg : IncomingMessage) (s : MemoryState)
      → Holds (key_of_incoming msg) id s
      → (record_of fresh msg s).id ≡ id
  unfolding Holds record_of
  record_of-Holds id fresh msg s h = ground arith

-- What may happen to a manager between two messages.
pub data ManagerStep : Type 0 where
  resolves : Uuid → IncomingMessage → ManagerStep
  commits : Uuid → ThreadLocator → FinalizedTurn → ManagerStep
  commits_locked : Uuid → ThreadLocator → FinalizedTurn → ManagerStep
  stores : Uuid → ThreadLocator → Thread → Instant → ManagerStep
  marks : ThreadLocator → Text → Option Uuid → Instant → ManagerStep
  locks : Uuid → ThreadLocator → Instant → ManagerStep
  loads : ThreadLocator → Instant → ManagerStep
  persists_locked : Uuid → ThreadLocator → Thread → Instant → ManagerStep
  restarts : ManagerStep

module _ (u : UuidCrate) where
  abbrev pub step : ManagerStep → Manager MemoryState → Manager MemoryState
  step (resolves fresh msg) m = (load_or_create_thread u (memory_store u) fresh msg m).1
  step (commits fresh l f) m = (commit_finalized_turn u (memory_store u) fresh l f m).1
  step (commits_locked fresh l f) m =
      (commit_finalized_turn_locked u (memory_store u) fresh l f m).1
  step (stores fresh l t at) m = (store_thread_context u (memory_store u) fresh l t at m).1
  step (marks l id turn_id at) m =
      (mark_external_message_processed u (memory_store u) l id turn_id at m).1
  step (locks fresh l now) m = (lock_thread_context u (memory_store u) fresh l now m).1
  step (loads l now) m = (load_thread_context u (memory_store u) l now m).1
  step (persists_locked fresh l t at) m =
      (persist_locked_thread_context u (memory_store u) fresh l t at m).1
  step restarts m = with_store m.store

  abbrev pub run_steps : List ManagerStep → Manager MemoryState → Manager MemoryState
  run_steps [] m = m
  run_steps (x ∷ xs) m = run_steps xs (step x m)

  step-Holds :
      (key : SessionKey) (id : Uuid) (x : ManagerStep) (m : Manager MemoryState)
      → Holds key id m.store
      → Holds key id (step x m).store
  unfolding KeepsId
  step-Holds key id (resolves fresh msg) m h = load-KeepsId u key id fresh msg m h
  step-Holds key id (commits fresh l f) m h = commit_finalized_turn-KeepsId key id u fresh l f m h
  step-Holds key id (commits_locked fresh l f) m h =
      commit_finalized_turn_locked-KeepsId key id u fresh l f m h
  step-Holds key id (stores fresh l t at) m h =
      store_thread_context-KeepsId key id u fresh l t at m h
  step-Holds key id (marks l external turn_id at) m h =
      mark_external_message_processed-KeepsId key id u l external turn_id at m h
  step-Holds key id (locks fresh l now) m h = lock_thread_context-KeepsId key id u fresh l now m h
  step-Holds key id (loads l now) m h = load_thread_context-KeepsId key id u l now m h
  step-Holds key id (persists_locked fresh l t at) m h =
      persist_locked_thread_context-KeepsId key id u fresh l t at m h
  step-Holds key id restarts m h = h

  run_steps-Holds :
      (key : SessionKey) (id : Uuid) (xs : List ManagerStep) (m : Manager MemoryState)
      → Holds key id m.store
      → Holds key id (run_steps xs m).store
  run_steps-Holds key id [] m h = h
  run_steps-Holds key id (x ∷ xs) m h =
      run_steps-Holds key id xs (step x m) (step-Holds key id x m h)

  -- Two messages of one user on one channel with the same resolved external thread get the same
  -- locator, whatever is resolved, locked, loaded, committed, stored or marked for any threads of
  -- any users in between, failing or not, and also over restarts that leave only the store; resolving never fails
  -- on this store.
  pub load_or_create_thread_stable :
      (fresh fresh' : Uuid) (msg msg' : IncomingMessage) (xs : List ManagerStep)
      (m : Manager MemoryState)
      → msg'.channel ≡ msg.channel
      → msg'.user_id ≡ msg.user_id
      → resolved_external_thread_id msg' ≡ resolved_external_thread_id msg
      → let first = load_or_create_thread u (memory_store u) fresh msg m in
        let later = run_steps xs first.1 in
        (l : ThreadLocator) × (first.0 ≡ ok l)
        × ((load_or_create_thread u (memory_store u) fresh' msg' later).0 ≡ ok l)
  unfolding locator_of
  load_or_create_thread_stable fresh fresh' msg msg' xs m c w x =
      let first = load-record u fresh msg m in
      let later = run_steps xs (load_or_create_thread u (memory_store u) fresh msg m).1 in
      let second = load-record u fresh' msg' later in
      let key : key_of_incoming msg' ≡ key_of_incoming msg = ground arith in
      let id = (record_of u fresh msg m.store).id in
      let held =
        run_steps-Holds (key_of_incoming msg) id xs
          (load_or_create_thread u (memory_store u) fresh msg m).1 (load-Holds u fresh msg m) in
      let same =
        record_of-Holds u id fresh' msg' later.store
          (subst (λ k. Holds k id later.store) (sym key) held) in
      (locator_of u id msg, first.0, second.0 ∙ ground (arith, same, key))

module _ (u : UuidCrate) where
  -- Resolving the message of a thread that is not cached yet restores the stored thread under the
  -- message's locator, or begins a new one if none is stored.
  pub load_or_create_thread_restores :
      (fresh : Uuid) (msg : IncomingMessage) (s : MemoryState)
      → let l = locator_of u (record_of u fresh msg s).id msg in
        cell
          (key_of_incoming msg)
          l.thread_id
          (load_or_create_thread u (memory_store u) fresh msg (with_store s)).1
        ≡ some (
            unwrap_or
              (mathlib.Core.Option.map
                (rebind_locator (context_locator u l))
                (Dict.get l.thread_id s.threads))
              (new_thread (context_locator u l) msg.received_at))
  unfolding load_or_create_thread ensure_thread_handle resolve_or_create_session load_stored
      cached_thread_handle fetch_thread_context_from_store_only cache_thread_handle_if_absent
      record_of locator_of cell Dict.get Dict.insert
  load_or_create_thread_restores fresh msg s =
      let key = key_of_incoming msg in
      let r = record_of u fresh msg s in
      let l = locator_of u r.id msg in
      let t =
        unwrap_or
          (mathlib.Core.Option.map (rebind_locator (context_locator u l))
            (Dict.get l.thread_id s.threads))
          (new_thread (context_locator u l) msg.received_at) in
      let c = record (from_record r) {
        threads = (l.thread_id, t) ∷ [];
        updated_at = msg.received_at;
      } in
      ground (
        arith,
        get-insert_self key c [],
        get-insert_self key c (Dict.insert key c []),
        get-insert_self l.thread_id t [],
      )
