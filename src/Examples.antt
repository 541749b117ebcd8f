-- ===== src/Examples.antt =====
-- Concrete desks that the theorems are tried on.
pub mod Accounts
pub mod Spending
pub mod Jobs
pub mod Mail
pub mod Rules
pub mod Streams
pub mod Screens
pub mod Review
pub mod Sweeps
pub mod Drafts
pub mod Measures
use ticket_manager_system.Common.{ℕ, true, false, none, some, [], ◌∷◌}
use ticket_manager_system.Shared.{
  TicketStatus, TicketCategory, MessageDirection, HandoffTarget, Role, EmailStatus, EmailKind,
}
use ticket_manager_system.Desk.{
  Ticket, Message, User, OutboundEmail, Article, HandoffRow, Config, Desk, empty,
}
use ticket_manager_system.Ingest.{InboundEmail}

abbrev pub config : Config
config = record { ai_configured = true; auto_reply_on = true; mail_configured = true }

abbrev pub unfiled_ticket : Ticket
unfiled_ticket = record {
  id = 1;
  subject = "Login fails";
  status = TicketStatus.new;
  category = none;
  classified_at = none;
  classifier_category = none;
  auto_resolved_at = none;
  auto_reply_decline = none;
  auto_reply_declined_at = none;
  auto_reply_offered_at = none;
  customer_email = "ann@example.com";
  customer_name = "Ann";
  last_message_at = 1000;
  created_at = 1000;
  updated_at = 1000;
  assigned_to_id = none;
  assignment_seen_at = none;
}

abbrev pub filed_ticket : Ticket
filed_ticket = record unfiled_ticket {
  category = some TicketCategory.technical;
  classified_at = some 2000;
}

abbrev pub first_message : Message
first_message = record {
  id = 1;
  ticket_id = 1;
  message_id = "m1";
  in_reply_to = none;
  sender_email = "ann@example.com";
  sender_name = "Ann";
  text_body = some "I cannot log in";
  html_body = none;
  direction = MessageDirection.inbound;
  author_id = none;
  automated = false;
  cited_article_ids = [];
  polished_draft = none;
  created_at = 1000;
}

abbrev pub admin : User
admin = record {
  id = 1;
  name = "Ada";
  email = "ada@example.com";
  role = Role.admin;
  automated = false;
  is_anonymous = false;
  deleted_at = none;
  created_at = 10;
}

abbrev pub bot : User
bot = record admin {
  id = 2;
  name = "AI Assistant";
  email = "bot@example.com";
  role = Role.agent;
  automated = true;
}

abbrev pub article : Article
article = record {
  id = "a1";
  title = "Logging in";
  body = "Reset the password.";
  archived = false;
  auto_reply = true;
}

-- One ticket with its email, an admin and the assistant.
abbrev pub desk_with : Ticket → Desk
desk_with t = record empty {
  tickets = t ∷ [];
  messages = first_message ∷ [];
  users = admin ∷ bot ∷ [];
  articles = article ∷ [];
  next_ticket = 2;
  next_message = 2;
}

abbrev pub inbound_email : InboundEmail
inbound_email = record {
  message_id = "<m2>";
  subject = "Printer";
  sender_email = "ann@example.com";
  sender_name = "Ann";
  text_body = some "It smokes";
  html_body = none;
  in_reply_to = none;
  references = [];
}

abbrev pub answer_email : InboundEmail
answer_email = record inbound_email { message_id = "<m3>"; in_reply_to = some "<r1>" }

abbrev pub queued_email : OutboundEmail
queued_email = record {
  id = 1;
  kind = EmailKind.reply;
  message_id = some 1;
  to_email = "ann@example.com";
  to_name = some "Ann";
  subject = "Re: Login fails";
  text_body = "Please try again";
  email_message_id = some "r1";
  in_reply_to = some "m1";
  references = "m1" ∷ [];
  status = EmailStatus.queued;
  attempts = 0;
  provider_message_id = none;
  last_error = none;
  created_at = 3000;
  sent_at = none;
}

abbrev pub outbox_of : OutboundEmail → Desk
outbox_of e = record (desk_with filed_ticket) { outbox = e ∷ []; next_email = 2 }
