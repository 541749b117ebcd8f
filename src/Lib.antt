-- ===== src/Lib.antt =====
-- The ticket manager's automation, from apps/api/src: an email comes in and opens a ticket or
-- lands on a thread, a job files the ticket under a category, a second job answers it from the
-- knowledge base where the gates allow it or hands it to a person, and whatever is written to a
-- customer goes through an outbox that a third job empties.
--
-- Shared holds the value sets of packages/shared/src and the failures of
-- apps/api/src/ai/provider.ts; a constructor is the source's value in snake case. Desk is the
-- state: the tables of apps/api/prisma/schema.prisma that these parts touch, the jobs that were
-- sent and the events that were published, each a list in the order of insertion. Desk.Table is
-- a table with a primary key, read as `findUnique` and written as `updateMany` by the key and a
-- condition, whose `count` is `fits_some`; Desk.Write has the single writes, and Desk.Age the
-- order and the batch of a sweep. Desk.Sound states the keys of tickets and messages and the
-- unique column of messages as a predicate on the desk.
--
-- Ingest is apps/api/src/ingest.ts (`ingest` is `ingestInboundEmail`, `thread_onto` and
-- `open_ticket` its two arms), Text the string work of it and of replies. Classify is
-- apps/api/src/jobs/classify-ticket.ts. AutoReply is apps/api/src/jobs/auto-reply-ticket.ts,
-- its handler in AutoReply.Worker (`handle`, cut at its early returns into `attempt`, `settle`,
-- `resolve`, `discard` and `conclude`), behind Gates, which is
-- apps/api/src/ai/auto-reply-gates.ts. Outbound is `sendReply` of apps/api/src/outbound.ts with
-- the enqueueing half of apps/api/src/jobs/send-email.ts, and Outbox the worker half, with
-- apps/api/src/mail/transport.ts and the retry of apps/api/src/routes/outbox.ts. Automation is
-- apps/api/src/automation.ts, Activity the trail of apps/api/src/ticket-activity.ts,
-- apps/api/src/activity-diff.ts and apps/api/src/events/ticket-events.ts. SlidingWindow is
-- apps/api/src/sliding-window.ts. Common has the tests on numbers, texts and lists, Examples
-- the desks that the theorems are tried on. Tickets is `updateTicket` and the PATCH routes of
-- apps/api/src/routes/tickets.ts, with the bodies of packages/core/src/schemas/tickets.ts.
-- Pipeline is `toRun` and `pipelineCounts` of apps/api/src/routes/pipeline.ts over
-- apps/api/src/assistant-decisions.ts and packages/shared/src/pipeline.ts. Events is
-- apps/api/src/events/hub.ts: `run_hub` is any sequence of `subscribe`, its unsubscribe,
-- `publish` and `closeAll`; Events.Streams follows one stream through it and Events.Audience
-- says who hears what. Prompt is the text work of apps/api/src/ai/provider.ts, and
-- AutoReply.Drafting `autoReply` of apps/api/src/ai/auto-reply.ts, whose answers
-- AutoReply.Unattended follows through the handler. The composing of a reply (`compose_reply`),
-- the matches of its expressions for links and addresses (`references_in`) and JavaScript's
-- case mappings are arguments there.
--
-- Knowledge is apps/api/src/routes/knowledge.ts on a state of its own, the articles with their
-- revisions; Knowledge.Corpus says what the model may be given of it, with every request as a
-- `KbCall`, and Knowledge.Trail that each text of it is on the trail of its revisions.
-- Effectiveness is apps/api/src/routes/ticket-effectiveness-edit-distance.ts:
-- Effectiveness.Levenshtein has the distance that the code is held against, Effectiveness.Band
-- the cells near the diagonal, Effectiveness.Table the rows that the loops fill and
-- Effectiveness.Exact the widening of the band. Evals is the measurement of a case, from
-- apps/api/src/evals/runner.ts and packages/core/src/cases/case-match.ts; Evals.Runs is
-- apps/api/src/jobs/eval-run.ts on the runs and their rows, with Evals.Resume on its
-- deliveries, and Evals.Plans is apps/api/src/jobs/eval-planned-run.ts with the planned runs of
-- apps/api/src/routes/eval-schedule.ts, whose requests and deliveries in any order Evals.Once
-- follows. Retention is the sweeps of apps/api/src/jobs/prune-outbox.ts and
-- prune-activity-trails.ts, over tables of any row; Retention.Exact holds their batches against
-- one delete, and Retention.Outbox and Retention.Trails say what they spare. Users is the trail
-- and the values of apps/api/src/routes/users.ts and admin-activity.ts, with the sign-in
-- library's calls as a record `SignIn`; Users.Routes is the handlers, Users.Removal what a
-- deletion leaves, and Users.Admins the requests one after another, under laws of the library
-- that are named there. The session of a request is the library's answer to its cookie, which
-- by the setting of apps/api/src/auth.ts may be a copy of up to a minute ago. Demo is the
-- budget of apps/api/src/demo/ai-budget.ts, with the requests of apps/api/src/routes/ai.ts that
-- ask it and the calls that come back as the steps of a run; Demo.Budget bounds a day's total
-- and Demo.Reset the wait that a refusal names.
--
-- A handler is a function of the desk. What other processes do while it waits for a model, a
-- provider or a row is a function on the desk too (`meanwhile`, `between`), and nothing is
-- assumed of it. The model's answer and the provider's are functions of what the handler hands
-- them. Whether a job ends or is thrown back is its `Exit`; an exception that the job runner
-- sees is `retry`, and a transaction that throws leaves the desk as it was. The clock is an
-- argument, in milliseconds; where the source subtracts a span from it, the span is added to
-- the other side. A user's id is the number of its place in the order of the id column.
-- Articles stand in the order of their ids. `fresh_id` stands for the message id that a reply
-- is given.
--
-- The loop that widens the band of an edit distance has a round for each radius as its fuel,
-- one more than the length of the longer text, and the theorem on it says that this is enough.
-- All other loops run over lists, or as many times as they are told, and the recovery sweeps
-- take at most fifty rows. Money is counted in billionths of a dollar, in which the prices of a
-- token are whole.
--
-- Not modelled: the failure of a single database call, the columns of sessions and accounts,
-- the prompts, the layout of a reply, the set of evaluation cases, which is data, the HTTP
-- layer, and the web client.
pub mod Common
pub mod Shared
pub mod Desk
pub mod Automation
pub mod Gates
pub mod Activity
pub mod Outbound
pub mod AutoReply
pub mod Classify
pub mod Outbox
pub mod Ingest
pub mod Events
pub mod Tickets
pub mod Pipeline
pub mod Effectiveness
pub mod Knowledge
pub mod Prompt
pub mod Retention
pub mod Evals
pub mod Text
pub mod Demo
pub mod Users
pub mod SlidingWindow
pub mod Examples
