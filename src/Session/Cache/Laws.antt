-- ===== src/Session/Cache/Laws.antt =====
-- session.rs: what a write to the cache reads back as.
use openjarvis.Base.{◌≡◌, refl, some, arith}
use openjarvis.Base.Dict
use openjarvis.Base.Dict.{get-insert, get-insert_self}
use openjarvis.Context.{Uuid, Instant}
use openjarvis.Thread.{Thread}
use openjarvis.Session.{SessionKey, ThreadLocator, session_key_instance}
use openjarvis.Session.Memory.{uuid_instance}
use openjarvis.Session.Cache.{
  Manager, CachedSession, cell, write_cell, session_or, bare_session, touch_cached_session,
  sync_thread_context_to_cache,
}

module _ {S : Type 0} where
  pub cell-write_cell :
      (key : SessionKey) (id : Uuid) (t : Thread) (c : CachedSession) (m : Manager S)
      → Dict.get key m.sessions ≡ some c
      → cell key id (write_cell key id t m) ≡ some t
  unfolding cell write_cell
  cell-write_cell key id t c m e = ground (
    arith,
    get-insert_self key (record c { threads = Dict.insert id t c.threads }) m.sessions,
    get-insert_self id t c.threads,
  )

  touched :
      (key : SessionKey) (l : ThreadLocator) (at : Instant) (m : Manager S)
      → Dict.get key (touch_cached_session key l at m).sessions
        ≡ some (record (session_or (bare_session key l at) key m) { updated_at = at })
  unfolding touch_cached_session
  touched key l at m =
      get-insert_self key (record (session_or (bare_session key l at) key m) { updated_at = at })
        m.sessions

  -- A thread that was synchronized is the one that the cache holds.
  pub cell-sync :
      (key : SessionKey) (l : ThreadLocator) (t : Thread) (at : Instant) (m : Manager S)
      → cell key l.thread_id (sync_thread_context_to_cache key l t at m) ≡ some t
  unfolding sync_thread_context_to_cache
  cell-sync key l t at m =
      cell-write_cell key l.thread_id t
        (record (session_or (bare_session key l at) key m) { updated_at = at })
        (touch_cached_session key l at m) (touched key l at m)

  -- Touching a session moves no thread of the cache.
  pub cell-touch :
      (key k : SessionKey) (l : ThreadLocator) (at : Instant) (id : Uuid) (m : Manager S)
      → cell k id (touch_cached_session key l at m) ≡ cell k id m
  unfolding cell touch_cached_session Dict.get
  cell-touch key k l at id m = ground (
    arith,
    get-insert key k (record (session_or (bare_session key l at) key m) { updated_at = at })
        m.sessions,
    session_key_instance.beq_iff key k,
  )

  -- Synchronizing a thread leaves the store alone.
  pub store-sync :
      (key : SessionKey) (l : ThreadLocator) (t : Thread) (at : Instant) (m : Manager S)
      → (sync_thread_context_to_cache key l t at m).store ≡ m.store
  unfolding sync_thread_context_to_cache touch_cached_session write_cell
  store-sync key l t at m = ground arith

  pub store-touch :
      (key : SessionKey) (l : ThreadLocator) (at : Instant) (m : Manager S)
      → (touch_cached_session key l at m).store ≡ m.store
  unfolding touch_cached_session
  store-touch key l at m = refl
