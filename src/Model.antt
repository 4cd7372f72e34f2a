-- ===== src/Model.antt =====
-- model.rs: the messages that channels and the router exchange.
use openjarvis.Base.{Text, Json, List, Option, none, some, is_empty, if◌then◌else◌, txt, unwrap_or}
use openjarvis.Base.Str.{trim}
use openjarvis.Context.{Uuid, Instant}

pub record IncomingAttachment : Type 0 where
  pub name : Text
  pub url : Option Text
  pub mime_type : Option Text

pub data AttachmentKind : Type 0 where
  image : AttachmentKind

pub record OutgoingAttachment : Type 0 where
  pub kind : AttachmentKind
  pub path : Text
  pub mime_type : Option Text

pub record ReplyTarget : Type 0 where
  pub receive_id : Text
  pub receive_id_type : Text

pub record IncomingMessage : Type 0 where
  pub id : Uuid
  pub external_message_id : Option Text
  pub channel : Text
  pub user_id : Text
  pub user_name : Option Text
  pub content : Text
  pub external_thread_id : Option Text
  pub received_at : Instant
  pub metadata : Json
  pub attachments : List IncomingAttachment
  pub reply_target : ReplyTarget

-- The filter of a thread identifier that is blank.
abbrev not_blank : Option Text → Option Text
not_blank none = none
not_blank (some s) = if is_empty (trim s) then none else some s

unfoldable pub resolved_external_thread_id : IncomingMessage → Text
resolved_external_thread_id m = unwrap_or (not_blank m.external_thread_id) (txt "default")

pub record OutgoingMessage : Type 0 where
  pub id : Uuid
  pub channel : Text
  pub content : Text
  pub external_thread_id : Option Text
  pub metadata : Json
  pub reply_to_message_id : Option Text
  pub attachments : List OutgoingAttachment
  pub target : ReplyTarget
