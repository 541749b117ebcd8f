-- ===== src/Desk.antt =====
-- The rows of apps/api/prisma/schema.prisma that the API's own code reads and writes, and the state
-- that its operations pass on: those tables, the jobs that were sent and the events that were
-- published, each in the order in which it happened. A user's id is the native number of its place
-- in the id column's order; articles stand in the order of their ids; a time is in milliseconds.
pub mod Table
pub mod Write
pub mod Age
pub mod Sound
use ticket_manager_system.Common.{
  ℕ, ◌+◌, String, Bool, true, false, ◌&&◌, ◌||◌, Option, none, some, List, [], ◌∷◌, ltb, ◌==◌,
  if◌then◌else◌,
}
use ticket_manager_system.Shared.{
  TicketStatus, TicketCategory, MessageDirection, ActorKind, ActivityAction, AutoReplyDecline,
  EventField, HandoffTarget, Role, EmailStatus, EmailKind,
}

pub record Ticket : Type 0 where
  pub id : ℕ
  pub subject : String
  pub status : TicketStatus
  pub category : Option TicketCategory
  pub classified_at : Option ℕ
  pub classifier_category : Option TicketCategory
  pub auto_resolved_at : Option ℕ
  pub auto_reply_decline : Option AutoReplyDecline
  pub auto_reply_declined_at : Option ℕ
  pub auto_reply_offered_at : Option ℕ
  pub customer_email : String
  pub customer_name : String
  pub last_message_at : ℕ
  pub created_at : ℕ
  pub updated_at : ℕ
  pub assigned_to_id : Option ℕ
  pub assignment_seen_at : Option ℕ

pub record Message : Type 0 where
  pub id : ℕ
  pub ticket_id : ℕ
  pub message_id : String
  pub in_reply_to : Option String
  pub sender_email : String
  pub sender_name : String
  pub text_body : Option String
  pub html_body : Option String
  pub direction : MessageDirection
  pub author_id : Option ℕ
  pub automated : Bool
  pub cited_article_ids : List String
  pub polished_draft : Option String
  pub created_at : ℕ

pub record User : Type 0 where
  pub id : ℕ
  pub name : String
  pub email : String
  pub role : Role
  pub automated : Bool
  pub is_anonymous : Bool
  pub deleted_at : Option ℕ
  pub created_at : ℕ

pub record TicketActor : Type 0 where
  pub actor_kind : ActorKind
  pub actor_id : Option ℕ
  pub actor_name : String
  pub actor_email : Option String

pub record ActivityEntry : Type 0 where
  pub action : ActivityAction
  pub from_value : Option String
  pub to_value : Option String

pub record Activity : Type 0 where
  pub ticket_id : ℕ
  pub entry : ActivityEntry
  pub actor : TicketActor
  pub created_at : ℕ

pub record OutboundEmail : Type 0 where
  pub id : ℕ
  pub kind : EmailKind
  pub message_id : Option ℕ
  pub to_email : String
  pub to_name : Option String
  pub subject : String
  pub text_body : String
  pub email_message_id : Option String
  pub in_reply_to : Option String
  pub references : List String
  pub status : EmailStatus
  pub attempts : ℕ
  pub provider_message_id : Option String
  pub last_error : Option String
  pub created_at : ℕ
  pub sent_at : Option ℕ

pub record Article : Type 0 where
  pub id : String
  pub title : String
  pub body : String
  pub archived : Bool
  pub auto_reply : Bool

pub record HandoffRow : Type 0 where
  pub target : HandoffTarget
  pub handoff_user_id : Option ℕ
  pub updated_at : ℕ
  pub updated_by_name : Option String

pub data Job : Type 0 where
  classify_ticket auto_reply_ticket send_email : ℕ → Job

pub data TicketEvent : Type 0 where
  ticket_created ticket_message pipeline_changed eval_run_changed : (subject at : ℕ) → TicketEvent
  ticket_updated : (subject at : ℕ) → List EventField → TicketEvent

-- What the environment of the process settles.
pub record Config : Type 0 where
  pub ai_configured : Bool
  pub auto_reply_on : Bool
  pub mail_configured : Bool

pub record Desk : Type 0 where
  pub tickets : List Ticket
  pub messages : List Message
  pub users : List User
  pub activity : List Activity
  pub outbox : List OutboundEmail
  pub articles : List Article
  pub settings : Option HandoffRow
  pub jobs : List Job
  pub events : List TicketEvent
  pub next_ticket : ℕ
  pub next_message : ℕ
  pub next_email : ℕ

abbrev pub empty : Desk
empty = record {
  tickets = [];
  messages = [];
  users = [];
  activity = [];
  outbox = [];
  articles = [];
  settings = none;
  jobs = [];
  events = [];
  next_ticket = 1;
  next_message = 1;
  next_email = 1;
}
