-- ===== src/Session/Memory.antt =====
-- session/store/memory.rs: the in-memory backend. Its mutex is held for a whole operation, so each
-- operation is one step on the state.
pub mod Saving
use openjarvis.Base.{
  ℕ, Text, ◌+◌, ◌==◌, ==_iff, List, [], ◌∷◌, Option, none, some, ◌≡◌, ◌↔◌, Bool, true, false, ◌&&◌,
  Result, ok, err, ok_or, Eq, text_eq, text_eq_iff, arith, if◌then◌else◌, unwrap_or,
  ◌>>=◌ as bind_result, not,
}
use openjarvis.Base.Dict
use openjarvis.Base.Dict.{Dict}
use mathlib.Core.Option
use openjarvis.Context.{Uuid, Instant}
use openjarvis.Thread.{Thread, set_revision}
use openjarvis.Session.{
  UuidCrate, SessionKey, ThreadLocator, StoredSessionRecord, DedupRecord, StoreError,
  revision_conflict, missing_session_id, invalid_session_id, invalid_thread_id, unresolved_session,
  Exec, SessionStore, session_key_instance,
}

-- The key of `external_messages`.
pub record MessageKey : Type 0 where
  pub thread_id : Uuid
  pub external_message_id : Text

unfoldable pub message_key_eq : MessageKey → MessageKey → Bool
message_key_eq a b =
    a.thread_id == b.thread_id && text_eq a.external_message_id b.external_message_id

pub message_key_eq_iff : (a b : MessageKey) → (message_key_eq a b ≡ true) ↔ (a ≡ b)
unfolding message_key_eq
message_key_eq_iff a b = ground (arith, text_eq_iff a.external_message_id b.external_message_id)

instance abbrev pub message_key_instance : Eq MessageKey
message_key_instance = record { beq = message_key_eq; beq_iff = message_key_eq_iff }

instance abbrev pub uuid_instance : Eq Uuid
uuid_instance = record { beq = ◌==◌; beq_iff = ==_iff }

-- `MemoryStoreState`
pub record MemoryState : Type 0 where
  pub sessions : Dict SessionKey StoredSessionRecord
  pub threads : Dict Uuid Thread
  pub external_messages : Dict MessageKey DedupRecord

abbrev pub new_memory : MemoryState
new_memory = record { sessions = []; threads = []; external_messages = [] }

unfoldable pub load_session : SessionKey → Exec MemoryState (Option StoredSessionRecord)
load_session key s = (ok (Dict.get key s.sessions), s)

-- The record of the session, new if there is none.
abbrev pub entry_or_insert : Uuid → SessionKey → Instant → MemoryState → StoredSessionRecord
entry_or_insert fresh key now s =
    unwrap_or (Dict.get key s.sessions)
      (record { id = fresh; key = key; created_at = now; updated_at = now })

unfoldable pub resolve_or_create_session :
    Uuid → SessionKey → Instant → Exec MemoryState StoredSessionRecord
resolve_or_create_session fresh key now s =
    let found = entry_or_insert fresh key now s in
    let touched = record found { updated_at = now } in
    (ok touched, record s { sessions = Dict.insert key touched s.sessions })

unfoldable pub load_thread_context : ThreadLocator → Exec MemoryState (Option Thread)
load_thread_context l s = (ok (Dict.get l.thread_id s.threads), s)

-- The revision stored for a thread, 0 if none is.
unfoldable pub stored_revision : Uuid → MemoryState → ℕ
stored_revision id s = elim (Dict.get id s.threads) [ none ↦ 0 | some t ↦ t.revision ]

abbrev pub key_of_thread : Thread → SessionKey
key_of_thread t = record { channel = t.locator.channel; user_id = t.locator.user_id }

-- The identifiers that a save parses out of the thread's locator.
unfoldable pub parse_locator : UuidCrate → Thread → Result StoreError (Uuid × Uuid)
parse_locator u t = bind_result (ok_or t.locator.session_id missing_session_id) (λ session.
    bind_result (ok_or (u.parse_str session) (invalid_session_id session)) (λ session_id.
      bind_result (ok_or (u.parse_str t.locator.thread_id) (invalid_thread_id t.locator.thread_id))
        (λ thread_id. ok (session_id, thread_id))))

abbrev note_message : Option DedupRecord → Dict MessageKey DedupRecord → Dict MessageKey DedupRecord
note_message none d = d
note_message (some r) d =
    Dict.insert (record { thread_id = r.thread_id; external_message_id = r.external_message_id }) r
      d

abbrev pub touch :
    SessionKey → Instant → Dict SessionKey StoredSessionRecord → Dict SessionKey StoredSessionRecord
touch key at d = elim (Dict.get key d) [
  | none ↦ d
  | some r ↦ Dict.insert key (record r { updated_at = at }) d
]

-- What a save that passes its checks writes.
unfoldable pub write_thread :
    Uuid → Thread → ℕ → Instant → Option DedupRecord → MemoryState → MemoryState
write_thread thread_id t new_revision updated_at dedup s = record {
  threads = Dict.insert thread_id (set_revision new_revision t) s.threads;
  sessions = touch (key_of_thread t) updated_at s.sessions;
  external_messages = note_message dedup s.external_messages;
}

-- The part of a save under the lock.
unfoldable pub save_parsed :
    Uuid → Uuid → Thread → Instant → Option DedupRecord → Exec MemoryState ℕ
unfolding stored_revision write_thread
save_parsed session_id thread_id t updated_at dedup s =
    let actual = stored_revision thread_id s in
    if not (Dict.contains_key (key_of_thread t) s.sessions)
    then (err (unresolved_session session_id), s)
    else if not (t.revision == actual)
    then (err (revision_conflict t.locator.thread_id t.revision actual), s)
    else (ok (actual + 1), write_thread thread_id t (actual + 1) updated_at dedup s)

unfoldable pub save_thread_context :
    UuidCrate → Thread → Instant → Option DedupRecord → Exec MemoryState ℕ
unfolding parse_locator save_parsed
save_thread_context u t updated_at dedup s = elim (parse_locator u t) [
  | err e ↦ (err e, s)
  | ok (session_id, thread_id) ↦ save_parsed session_id thread_id t updated_at dedup s
]

unfoldable pub load_external_message_record :
    ThreadLocator → Text → Exec MemoryState (Option DedupRecord)
load_external_message_record l id s = (
  ok (Dict.get (record { thread_id = l.thread_id; external_message_id = id }) s.external_messages),
  s,
)

unfoldable pub save_external_message_record :
    ThreadLocator → DedupRecord → Exec MemoryState (Unit {0})
save_external_message_record l r s =
    let key : MessageKey = record {
      thread_id = l.thread_id;
      external_message_id = r.external_message_id;
    } in
    (ok tt, record s { external_messages = Dict.insert key r s.external_messages })

-- `impl SessionStore for MemorySessionStore`
abbrev pub memory_store : UuidCrate → SessionStore MemoryState
memory_store u = record {
  load_session = load_session;
  resolve_or_create_session = resolve_or_create_session;
  load_thread_context = load_thread_context;
  save_thread_context = save_thread_context u;
  load_external_message_record = load_external_message_record;
  save_external_message_record = save_external_message_record;
}
