-- ===== src/Session.antt =====
-- session.rs and session/store/mod.rs: keys, locators, the records of the store and its contract.
-- The `uuid` crate is the parameter `UuidCrate`.
pub mod Keys
pub mod Memory
pub mod Cache
pub mod Manager
use openjarvis.Base.{
  ℕ, Text, List, [], ◌∷◌, ◌++◌, Option, none, some, ◌≡◌, ◌↔◌, Bool, true, false, ◌&&◌, txt, Result,
  ok, err, Eq, text_eq, text_eq_iff, ◌==◌, ==_iff, arith,
}
use openjarvis.Context.{Uuid, Instant}
use openjarvis.Model.{IncomingMessage}
use openjarvis.Thread.{Thread, ContextLocator}

-- What the program uses of the `uuid` crate. `new_v5` is taken in the program's own namespace.
pub record UuidCrate : Type 0 where
  pub parse_str : Text → Option Uuid
  pub to_string : Uuid → Text
  pub new_v5 : Text → Uuid
  pub parse_str-to_string : (u : Uuid) → parse_str (to_string u) ≡ some u

pub record SessionKey : Type 0 where
  pub channel : Text
  pub user_id : Text

unfoldable pub session_key_eq : SessionKey → SessionKey → Bool
session_key_eq a b = text_eq a.channel b.channel && text_eq a.user_id b.user_id

pub session_key_eq_iff : (a b : SessionKey) → (session_key_eq a b ≡ true) ↔ (a ≡ b)
unfolding session_key_eq
session_key_eq_iff a b =
    ground (arith, text_eq_iff a.channel b.channel, text_eq_iff a.user_id b.user_id)

instance abbrev pub session_key_instance : Eq SessionKey
session_key_instance = record { beq = session_key_eq; beq_iff = session_key_eq_iff }

-- `SessionKey::from_incoming`
abbrev pub key_of_incoming : IncomingMessage → SessionKey
key_of_incoming m = record { channel = m.channel; user_id = m.user_id }

-- `SessionKey::thread_key`
unfoldable pub thread_key : SessionKey → Text → Text
thread_key k external_thread_id =
    k.user_id ++ (txt ":" ++ (k.channel ++ (txt ":" ++ external_thread_id)))

-- `SessionKey::derive_thread_id`
unfoldable pub derive_thread_id : UuidCrate → SessionKey → Text → Uuid
unfolding thread_key
derive_thread_id u k external_thread_id = u.new_v5 (thread_key k external_thread_id)

pub record ThreadLocator : Type 0 where
  pub session_id : Uuid
  pub channel : Text
  pub user_id : Text
  pub external_thread_id : Text
  pub thread_id : Uuid

unfoldable pub locator_eq : ThreadLocator → ThreadLocator → Bool
locator_eq a b =
    a.session_id == b.session_id
    && text_eq a.channel b.channel
    && text_eq a.user_id b.user_id
    && text_eq a.external_thread_id b.external_thread_id
    && a.thread_id == b.thread_id

pub locator_eq_iff : (a b : ThreadLocator) → (locator_eq a b ≡ true) ↔ (a ≡ b)
unfolding locator_eq
locator_eq_iff a b = ground (
  arith,
  text_eq_iff a.channel b.channel,
  text_eq_iff a.user_id b.user_id,
  text_eq_iff a.external_thread_id b.external_thread_id,
)

instance abbrev pub locator_instance : Eq ThreadLocator
locator_instance = record { beq = locator_eq; beq_iff = locator_eq_iff }

-- `ThreadLocator::new`
abbrev pub new_locator : Uuid → IncomingMessage → Text → Uuid → ThreadLocator
new_locator session_id m external_thread_id thread_id = record {
  session_id = session_id;
  channel = m.channel;
  user_id = m.user_id;
  external_thread_id = external_thread_id;
  thread_id = thread_id;
}

abbrev pub session_key : ThreadLocator → SessionKey
session_key l = record { channel = l.channel; user_id = l.user_id }

-- `ThreadContextLocator::from`
abbrev pub context_locator : UuidCrate → ThreadLocator → ContextLocator
context_locator u l = record {
  session_id = some (u.to_string l.session_id);
  channel = l.channel;
  user_id = l.user_id;
  external_thread_id = l.external_thread_id;
  thread_id = u.to_string l.thread_id;
}

pub record StoredSessionRecord : Type 0 where
  pub id : Uuid
  pub key : SessionKey
  pub created_at : Instant
  pub updated_at : Instant

-- `ExternalMessageDedupRecord`
pub record DedupRecord : Type 0 where
  pub thread_id : Uuid
  pub external_message_id : Text
  pub turn_id : Option Uuid
  pub completed_at : Instant

-- `SessionStoreError`: the conflict, and the other failures by their cause.
pub data StoreError : Type 0 where
  revision_conflict : Text → ℕ → ℕ → StoreError
  missing_session_id : StoreError
  invalid_session_id : Text → StoreError
  invalid_thread_id : Text → StoreError
  unresolved_session : Uuid → StoreError
  backend : Text → StoreError

-- An operation on a state, whose effects stay where it fails.
abbrev pub Exec : Type 0 → Type 0 → Type 0
Exec S A = S → Result StoreError A × S

module _ {S A B : Type 0} where
  abbrev pub continue : Result StoreError A → (A → Exec S B) → Exec S B
  continue (ok a) f s = f a s
  continue (err e) f s = (err e, s)

  infixl 5 ◌>>=◌ ◌>>◌
  abbrev pub ◌>>=◌ : Exec S A → (A → Exec S B) → Exec S B
  ◌>>=◌ m f s = continue (m s).0 f (m s).1

  abbrev pub ◌>>◌ : Exec S A → Exec S B → Exec S B
  m >> n = m >>= λ _. n

module _ {S A : Type 0} where
  abbrev pub pure : A → Exec S A
  pure a s = (ok a, s)

-- The trait `SessionStore` over the state of a backend. A new session takes the identifier that
-- the backend draws as an argument.
pub record SessionStore (S : Type 0) : Type 0 where
  pub load_session : SessionKey → Exec S (Option StoredSessionRecord)
  pub resolve_or_create_session : Uuid → SessionKey → Instant → Exec S StoredSessionRecord
  pub load_thread_context : ThreadLocator → Exec S (Option Thread)
  pub save_thread_context : Thread → Instant → Option DedupRecord → Exec S ℕ
  pub load_external_message_record : ThreadLocator → Text → Exec S (Option DedupRecord)
  pub save_external_message_record : ThreadLocator → DedupRecord → Exec S (Unit {0})
