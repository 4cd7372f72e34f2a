-- ===== src/Session/Cache.antt =====
-- session.rs: the manager's cache in front of a store. A handle to a cached thread is the place of
-- the thread in the cache, which stays for good once it is there; a lock on it reads and writes
-- that place.
pub mod Laws
use openjarvis.Base.{
  ℕ, Text, List, [], ◌∷◌, Option, none, some, Bool, true, false, Result, ok, err, if◌then◌else◌,
  unwrap_or, is_some, ltb, max,
}
use openjarvis.Base.Dict
use openjarvis.Base.Dict.{Dict}
use openjarvis.Context.{Uuid, Instant}
use openjarvis.Model.{IncomingMessage, resolved_external_thread_id}
use openjarvis.Thread.{
  Thread, ContextLocator, new_thread, rebind_locator, set_revision, FinalizedTurn,
}
use openjarvis.Session.{
  UuidCrate, SessionKey, ThreadLocator, StoredSessionRecord, DedupRecord, StoreError, Exec,
  SessionStore, session_key_instance, ◌>>=◌, ◌>>◌, pure, session_key, context_locator, new_locator,
  key_of_incoming, derive_thread_id,
}
use openjarvis.Session.Memory.{uuid_instance}

pub record CachedSession : Type 0 where
  pub id : Uuid
  pub key : SessionKey
  pub threads : Dict Uuid Thread
  pub created_at : Instant
  pub updated_at : Instant

-- `CachedSession::from_record`
abbrev pub from_record : StoredSessionRecord → CachedSession
from_record r = record {
  id = r.id;
  key = r.key;
  threads = [];
  created_at = r.created_at;
  updated_at = r.updated_at;
}

-- The session that `sync_thread_context_to_cache` and `touch_cached_session` begin with.
abbrev pub bare_session : SessionKey → ThreadLocator → Instant → CachedSession
bare_session key l updated_at = record {
  id = l.session_id;
  key = key;
  threads = [];
  created_at = updated_at;
  updated_at = updated_at;
}

pub record Manager (S : Type 0) : Type 0 where
  pub sessions : Dict SessionKey CachedSession
  pub store : S

module _ {S : Type 0} where
  -- `SessionManager::with_store`
  abbrev pub with_store : S → Manager S
  with_store s = record { sessions = []; store = s }

  -- The content of the handle for a thread of a session.
  unfoldable pub cell : SessionKey → Uuid → Manager S → Option Thread
  cell key id m = elim (Dict.get key m.sessions) [
    | none ↦ none
    | some session ↦ Dict.get id session.threads
  ]

  -- The session of the cache, or the one to begin it with.
  abbrev pub session_or : CachedSession → SessionKey → Manager S → CachedSession
  session_or fresh key m = unwrap_or (Dict.get key m.sessions) fresh

  abbrev pub put_session : SessionKey → CachedSession → Manager S → Manager S
  put_session key session m = record m { sessions = Dict.insert key session m.sessions }

  unfoldable pub write_cell : SessionKey → Uuid → Thread → Manager S → Manager S
  write_cell key id t m = elim (Dict.get key m.sessions) [
    | none ↦ m
    | some session ↦
        put_session key (record session { threads = Dict.insert id t session.threads }) m
  ]

  unfoldable pub in_store : {A : Type 0} → Exec S A → Exec (Manager S) A
  in_store op m = ((op m.store).0, record m { store = (op m.store).1 })

  unfoldable pub cached_thread_handle : ThreadLocator → Exec (Manager S) (Option Thread)
  unfolding cell
  cached_thread_handle l m = (ok (cell (session_key l) l.thread_id m), m)

  -- Answers the thread behind the handle that the cache holds afterwards.
  unfoldable pub cache_thread_handle_if_absent :
      SessionKey → StoredSessionRecord → Uuid → Thread → Instant → Exec (Manager S) Thread
  cache_thread_handle_if_absent key r id t updated_at m =
      let session = session_or (from_record r) key m in
      let held = unwrap_or (Dict.get id session.threads) t in
      let session' = record session {
        threads = Dict.insert id held session.threads;
        updated_at = updated_at;
      } in
      (ok held, put_session key session' m)

  unfoldable pub touch_cached_session : SessionKey → ThreadLocator → Instant → Manager S → Manager S
  touch_cached_session key l updated_at m =
      let session = session_or (bare_session key l updated_at) key m in
      put_session key (record session { updated_at = updated_at }) m

  -- Both branches leave the thread in its place: written there, or entered.
  unfoldable pub sync_thread_context_to_cache :
      SessionKey → ThreadLocator → Thread → Instant → Manager S → Manager S
  unfolding touch_cached_session write_cell
  sync_thread_context_to_cache key l t updated_at m =
      write_cell key l.thread_id t (touch_cached_session key l updated_at m)

-- `Session`, the exported view of a cached session.
pub record Session : Type 0 where
  pub id : Uuid
  pub key : SessionKey
  pub threads : Dict Uuid Thread
  pub created_at : Instant
  pub updated_at : Instant

module _ {S : Type 0} where
  unfoldable pub get_session : SessionKey → Manager S → Option Session
  get_session key m = elim (Dict.get key m.sessions) [
    | none ↦ none
    | some c ↦ some (record {
      id = c.id;
      key = c.key;
      threads = c.threads;
      created_at = c.created_at;
      updated_at = max c.updated_at c.created_at;
    })
  ]
