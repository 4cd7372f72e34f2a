-- ===== src/Router/Outgoing.antt =====
-- router.rs: what goes out to the channels.
use openjarvis.Base.{
  ℕ, suc, Text, Json, List, [], ◌∷◌, Option, none, some, if◌then◌else◌, txt, ok, err,
}
use openjarvis.Base.Str.{text_eq_instance}
use openjarvis.Base.Dict
use openjarvis.Base.Dict.{Dict}
use openjarvis.Model.{IncomingMessage, OutgoingMessage}
use openjarvis.Base.Value.{obj, field, str, null, end}
use openjarvis.Context.{Uuid}
use openjarvis.Thread.{TurnEventKind}
use openjarvis.Command.{CommandReply, formatted_content}
use openjarvis.Attachment.{parse_message}
use openjarvis.Router.{
  Exec, ◌>>=◌, pure, send, DispatchEvent, CommittedMessage, Draws, no_channel, outgoing_closed,
}

abbrev str_or_null : Option Text → Json
str_or_null none = null
str_or_null (some s) = str s

abbrev kind_name : TurnEventKind → Text
kind_name TurnEventKind.text_output = txt "TextOutput"
kind_name TurnEventKind.tool_call = txt "ToolCall"
kind_name TurnEventKind.tool_result = txt "ToolResult"
kind_name TurnEventKind.compact = txt "Compact"

event_metadata : DispatchEvent → Json
event_metadata e = obj (
    field (txt "source_message_id") (str_or_null e.source_message_id) (
      field (txt "session_id") (str e.session_id) (
        field (txt "session_channel") (str e.session_channel) (
          field (txt "session_user_id") (str e.session_user_id) (
            field (txt "session_external_thread_id") (str e.session_external_thread_id) (
              field (txt "session_thread_id") (str e.session_thread_id) (
                field (txt "event_kind") (str (kind_name e.kind))
                  (field (txt "event_metadata") e.metadata end))))))))

outgoing_of_event : Uuid → DispatchEvent → OutgoingMessage
unfolding event_metadata
outgoing_of_event id e = record {
  id = id;
  channel = e.channel;
  content = e.content;
  external_thread_id = e.external_thread_id;
  metadata = event_metadata e;
  reply_to_message_id = if e.reply_to_source then e.source_message_id else none;
  attachments = [];
  target = e.target;
}

reply_metadata : CommandReply → Json
reply_metadata r = obj (
    field (txt "event_kind") (str (txt "Command")) (
      field (txt "command_name") (str r.name) (
        field (txt "command_status") (str (if r.success then txt "SUCCESS" else txt "FAILED"))
          end)))

outgoing_of_reply : Uuid → IncomingMessage → CommandReply → OutgoingMessage
unfolding reply_metadata
outgoing_of_reply id m reply = record {
  id = id;
  channel = m.channel;
  content = formatted_content reply;
  external_thread_id = m.external_thread_id;
  metadata = reply_metadata reply;
  reply_to_message_id = m.external_message_id;
  attachments = [];
  target = m.reply_target;
}

module _ {S : Type 0} where
  unfoldable pub dispatch_outgoing : OutgoingMessage → Exec S (Unit {0})
  dispatch_outgoing outgoing r =
      let m = parse_message outgoing in
      elim (Dict.get m.channel r.channels) [
        | none ↦ (err (no_channel m.channel), r)
        | some tx ↦ elim (send m tx) [
          | none ↦ (err outgoing_closed, r)
          | some tx' ↦ (ok tt, record r { channels = Dict.insert m.channel tx' r.channels })
        ]
      ]

  unfoldable pub process_agent_dispatch_event : Uuid → DispatchEvent → Exec S (Unit {0})
  unfolding dispatch_outgoing outgoing_of_event
  process_agent_dispatch_event id e = dispatch_outgoing (outgoing_of_event id e)

  unfoldable pub dispatch_command_reply : Uuid → IncomingMessage → CommandReply → Exec S (Unit {0})
  unfolding dispatch_outgoing outgoing_of_reply
  dispatch_command_reply id m reply = dispatch_outgoing (outgoing_of_reply id m reply)

  -- The events in order, up to the first that fails; the n-th takes the n-th identifier.
  unfoldable pub dispatch_events : (ℕ → Uuid) → ℕ → List DispatchEvent → Exec S (Unit {0})
  unfolding process_agent_dispatch_event
  dispatch_events ids n [] = pure tt
  dispatch_events ids n (e ∷ es) =
      process_agent_dispatch_event (ids n) e >>= (λ _. dispatch_events ids (suc n) es)

  unfoldable pub dispatch_committed_message : Draws → CommittedMessage → Exec S (Unit {0})
  unfolding dispatch_events
  dispatch_committed_message d c = dispatch_events d.message_id 0 c.dispatch_events
