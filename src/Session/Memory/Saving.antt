-- ===== src/Session/Memory/Saving.antt =====
-- session/store/memory.rs: saving under optimistic concurrency control.
use openjarvis.Base.{
  ℕ, ◌+◌, ◌==◌, Option, none, some, ◌≡◌, ◌≢◌, refl, true, false, Result, ok, err, arith, Bool-cases,
  inl, inr, Option-cases, subst, if◌then◌else◌,
}
use openjarvis.Base.Dict
use openjarvis.Base.Dict.{Dict, get-insert, get-insert_self}
use openjarvis.Context.{Uuid, Instant}
use openjarvis.Thread.{Thread, set_revision}
use openjarvis.Session.{
  UuidCrate, SessionKey, ThreadLocator, DedupRecord, StoreError, revision_conflict,
  unresolved_session, session_key_instance,
}
use openjarvis.Session.Memory.{
  MemoryState, MessageKey, message_key_eq, message_key_instance, uuid_instance, stored_revision,
  parse_locator, save_parsed, save_thread_context, load_thread_context,
  load_external_message_record, key_of_thread, write_thread,
}

-- The record of a processed message, once a save has noted one, and before.
abbrev pub noted_record : Option DedupRecord → MessageKey → Option DedupRecord → Option DedupRecord
noted_record none k before = before
noted_record (some r) k before =
    if message_key_eq
      (record { thread_id = r.thread_id; external_message_id = r.external_message_id }) k
    then some r
    else before

-- A save that succeeded in giving the thread a new revision.
pub record Saved (id : Uuid) (t : Thread) (dedup : Option DedupRecord) (n : ℕ) (s s' : MemoryState)
    : Type 0 where
  pub next : (n ≡ t.revision + 1) × (t.revision ≡ stored_revision id s)
  pub threads :
      (j : Uuid)
      → Dict.get j s'.threads ≡ (if id == j then some (set_revision n t) else Dict.get j s.threads)
  pub noted :
      (k : MessageKey)
      → Dict.get k s'.external_messages ≡ noted_record dedup k (Dict.get k s.external_messages)

get-write_thread :
    (id : Uuid) (t : Thread) (at : Instant) (dedup : Option DedupRecord) (n : ℕ) (s : MemoryState)
    (k : MessageKey)
    → Dict.get k (write_thread id t n at dedup s).external_messages
      ≡ noted_record dedup k (Dict.get k s.external_messages)
unfolding write_thread
get-write_thread id t at none n s k = refl
get-write_thread id t at (some r) n s k =
    get-insert (record { thread_id = r.thread_id; external_message_id = r.external_message_id }) k r
      s.external_messages

write_thread-Saved :
    (id : Uuid) (t : Thread) (at : Instant) (dedup : Option DedupRecord) (n : ℕ) (s : MemoryState)
    → (n ≡ t.revision + 1) × (t.revision ≡ stored_revision id s)
    → Saved id t dedup n s (write_thread id t n at dedup s)
unfolding write_thread
write_thread-Saved id t at dedup n s h = record {
  next = h;
  threads = λ j. get-insert id j (set_revision n t) s.threads;
  noted = get-write_thread id t at dedup n s;
}

-- The three outcomes of a save whose identifiers parse, and when each occurs.
pub data Outcome (session id : Uuid) (t : Thread) (dedup : Option DedupRecord) (s s' : MemoryState)
    : Result StoreError ℕ → Type 0 where
  unresolved :
      Dict.contains_key (key_of_thread t) s.sessions ≡ false
      → s' ≡ s
      → Outcome session id t dedup s s' (err (unresolved_session session))
  conflict :
      Dict.contains_key (key_of_thread t) s.sessions ≡ true
      → t.revision ≢ stored_revision id s
      → s' ≡ s
      → Outcome session id t dedup s s'
          (err (revision_conflict t.locator.thread_id t.revision (stored_revision id s)))
  saved :
      (n : ℕ)
      → Dict.contains_key (key_of_thread t) s.sessions ≡ true
      → Saved id t dedup n s s'
      → Outcome session id t dedup s s' (ok n)

save_parsed-Outcome :
    (session id : Uuid) (t : Thread) (at : Instant) (dedup : Option DedupRecord) (s : MemoryState)
    → Outcome session id t dedup s
        (save_parsed session id t at dedup s).1
        (save_parsed session id t at dedup s).0
unfolding save_parsed
save_parsed-Outcome session id t at dedup s =
    let actual = stored_revision id s in
    elim (Bool-cases (Dict.contains_key (key_of_thread t) s.sessions)) [
      | inr e ↦ rw (e, save_parsed) (unresolved e refl)
      | inl e ↦ elim (Bool-cases (t.revision == actual)) [
        | inr f ↦ rw (e, f, save_parsed) (conflict e (ground arith) refl)
        | inl f ↦
            rw (e, f, save_parsed)
              (saved (actual + 1) e
                (write_thread-Saved id t at dedup (actual + 1) s (ground arith, ground arith)))
      ]
    ]

-- A save whose identifiers parse has one of three outcomes, decided by the resolved session and the
-- stored revision. If the session is not resolved, or the thread's revision is not the stored one,
-- it reports that and changes nothing. Otherwise it answers the next revision, stores the thread
-- under it, leaves every other thread alone, and notes the processed message if one is given.
pub save_thread_context-Outcome :
    (u : UuidCrate) (session id : Uuid) (t : Thread) (at : Instant) (dedup : Option DedupRecord)
    (s : MemoryState)
    → parse_locator u t ≡ ok (session, id)
    → Outcome session id t dedup s
        (save_thread_context u t at dedup s).1
        (save_thread_context u t at dedup s).0
unfolding save_thread_context
save_thread_context-Outcome u session id t at dedup s e =
    rw (e, save_thread_context) (save_parsed-Outcome session id t at dedup s)

-- Every save that fails, for whatever reason, changes nothing.
pub save_thread_context_atomic :
    (u : UuidCrate) (t : Thread) (at : Instant) (dedup : Option DedupRecord) (s : MemoryState)
    (e : StoreError)
    → (save_thread_context u t at dedup s).0 ≡ err e
    → (save_thread_context u t at dedup s).1 ≡ s
unfolding save_thread_context save_parsed
save_thread_context_atomic u t at dedup s e h = ground arith

save_parsed-ok :
    (session id : Uuid) (t : Thread) (at : Instant) (dedup : Option DedupRecord) (n : ℕ)
    (s : MemoryState)
    → (save_parsed session id t at dedup s).0 ≡ ok n
    → (Dict.contains_key (key_of_thread t) s.sessions ≡ true)
      × (n ≡ t.revision + 1)
      × ((save_parsed session id t at dedup s).1 ≡ write_thread id t n at dedup s)
unfolding save_parsed
save_parsed-ok session id t at dedup n s h = ground arith

pub contains_key-write_thread :
    (id : Uuid) (t : Thread) (n : ℕ) (at : Instant) (dedup : Option DedupRecord) (s : MemoryState)
    → Dict.contains_key (key_of_thread t) s.sessions ≡ true
    → Dict.contains_key (key_of_thread t) (write_thread id t n at dedup s).sessions ≡ true
unfolding write_thread Dict.contains_key
contains_key-write_thread id t n at dedup s h =
    elim (Option-cases (Dict.get (key_of_thread t) s.sessions)) [
      | inl e ↦ ground arith
      | inr (r, e) ↦
          ground
            (arith, get-insert_self (key_of_thread t) (record r { updated_at = at }) s.sessions)
    ]

stored_revision-write_thread :
    (id : Uuid) (t : Thread) (n : ℕ) (at : Instant) (dedup : Option DedupRecord) (s : MemoryState)
    → stored_revision id (write_thread id t n at dedup s) ≡ n
unfolding write_thread stored_revision
stored_revision-write_thread id t n at dedup s =
    ground (arith, get-insert_self id (set_revision n t) s.threads)

pub stale_save :
    (session id : Uuid) (t : Thread) (at : Instant) (dedup : Option DedupRecord) (n : ℕ)
    (s : MemoryState)
    → Dict.contains_key (key_of_thread t) s.sessions ≡ true
    → stored_revision id s ≡ n
    → t.revision ≢ n
    → save_parsed session id t at dedup s
      ≡ (err (revision_conflict t.locator.thread_id t.revision n), s)
unfolding save_parsed
stale_save session id t at dedup n s c r ne = ground arith

-- Of two writers that read the same revision, the second to save is refused with the two revisions,
-- and the first one's thread stays.
pub second_writer_refused :
    (u : UuidCrate) (session session' id : Uuid) (t t' : Thread) (at at' : Instant)
    (dedup dedup' : Option DedupRecord) (s : MemoryState) (n : ℕ)
    → parse_locator u t ≡ ok (session, id)
    → parse_locator u t' ≡ ok (session', id)
    → t'.locator ≡ t.locator
    → t'.revision ≡ t.revision
    → (save_thread_context u t at dedup s).0 ≡ ok n
    → let s' = (save_thread_context u t at dedup s).1 in
      save_thread_context u t' at' dedup' s'
      ≡ (err (revision_conflict t.locator.thread_id t.revision (t.revision + 1)), s')
unfolding save_thread_context
second_writer_refused u session session' id t t' at at' dedup dedup' s n p p' l v h =
    let first : (save_parsed session id t at dedup s).0 ≡ ok n = ground arith in
    let (c, next, wrote) = save_parsed-ok session id t at dedup n s first in
    ground (
      arith,
      wrote,
      stale_save session' id t' at' dedup' n (write_thread id t n at dedup s)
          (subst
            (λ (k : SessionKey).
              Dict.contains_key k (write_thread id t n at dedup s).sessions ≡ true)
            (ground arith) (contains_key-write_thread id t n at dedup s c))
          (stored_revision-write_thread id t n at dedup s) (omega arith),
    )

-- What is saved is loaded: the thread under its new revision, at the locator's identifier; and the
-- noted message is found as processed.
pub load_thread_context-save :
    (u : UuidCrate) (session : Uuid) (t : Thread) (at : Instant) (r : DedupRecord) (n : ℕ)
    (l : ThreadLocator) (s : MemoryState)
    → parse_locator u t ≡ ok (session, l.thread_id)
    → r.thread_id ≡ l.thread_id
    → (save_thread_context u t at (some r) s).0 ≡ ok n
    → let s' = (save_thread_context u t at (some r) s).1 in
      (load_thread_context l s' ≡ (ok (some (set_revision n t)), s'))
      × (load_external_message_record l r.external_message_id s' ≡ (ok (some r), s'))
unfolding save_thread_context load_thread_context load_external_message_record write_thread
load_thread_context-save u session t at r n l s p q h =
    let first : (save_parsed session l.thread_id t at (some r) s).0 ≡ ok n = ground arith in
    let (c, next, wrote) = save_parsed-ok session l.thread_id t at (some r) n s first in
    ground (
      arith,
      wrote,
      get-insert_self l.thread_id (set_revision n t) s.threads,
      get-insert_self
          (record { thread_id = r.thread_id; external_message_id = r.external_message_id }) r
          s.external_messages,
    )
