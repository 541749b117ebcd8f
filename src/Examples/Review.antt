-- ===== src/Examples/Review.antt =====
-- The review of the knowledge base, tried on one article and the proposal to change it.
use ticket_manager_system.Common.{true, false, none, some, List, [], ◌∷◌}
use ticket_manager_system.Shared.{TicketCategory}
use ticket_manager_system.Knowledge.{
  RevisionAction, RevisionStatus, Content, KbRow, Editor, Revision, KnowledgeBase, ArticleBody,
  KbCall, creates, approves,
}
use ticket_manager_system.Knowledge.Trail.{Later, Later-refl}
use ticket_manager_system.Knowledge.Trail.Requests.{kb_calls, kb_calls-Later}

abbrev old_text : Content
old_text = record {
  title = "Logging in";
  category = TicketCategory.technical;
  body = "Reset the password.";
  internal_note = none;
  auto_reply = true;
}

abbrev new_text : Content
new_text = record old_text { body = "Use the sign-in link." }

abbrev author : Editor
author = record { id = 1; name = "Ada"; email = "ada@example.com" }

abbrev reviewer : Editor
reviewer = record { id = 2; name = "Bea"; email = "bea@example.com" }

abbrev article_row : KbRow
article_row = record {
  id = 1;
  content = old_text;
  is_archived = false;
  created_at = 1000;
  updated_at = 1000;
}

abbrev proposal : Revision
proposal = record {
  id = 7;
  article_id = 1;
  action = RevisionAction.updated;
  content = new_text;
  is_archived = false;
  editor_id = some 1;
  editor_name = "Ada";
  editor_email = some "ada@example.com";
  status = RevisionStatus.pending;
  approved_by_id = none;
  approved_by_name = none;
  approved_at = none;
  created_at = 2000;
}

abbrev proposed : KnowledgeBase
proposed = record { rows = article_row ∷ []; revisions = proposal ∷ []; next_revision = 8 }

abbrev article_body : ArticleBody
article_body = record {
  title = "Invoices";
  category = some TicketCategory.general;
  body = "They are under Billing.";
  internal_note = "";
  auto_reply = true;
}

-- An article is created, and the pending proposal for another is approved.
abbrev two_requests : List KbCall
two_requests = creates (λ d. d) 2500 author article_body ∷ approves (λ d. d) 3000 reviewer 1 7 ∷ []

kb_calls-Later_example : Later proposed (kb_calls two_requests proposed)
kb_calls-Later_example = kb_calls-Later two_requests proposed (Later-refl, (Later-refl, tt))
