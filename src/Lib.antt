-- ===== src/Lib.antt =====
-- WhatsAppPoke: an assistant on WhatsApp. Twilio delivers a person's messages to a web API, an
-- interaction agent answers them, detached execution runs work on goals, and a worker takes jobs
-- from a queue in Postgres: due reminders, due automations, and notices of connected accounts. A
-- write in a person's name (an e-mail, a calendar event) is staged first and carried out only when
-- the person confirms it in a later message.
--
-- This library models the part that decides: the statements on each table, and the handlers that
-- put them together.
--
--   Prelude, Table     shared names; a table as the list of its rows, with the statements
--                      (update_where, update_by_id, find, select, count, least, greatest, get)
--                      and their lemmas
--   Payload            JSON payloads; `payload_str` of app/worker/_helpers.py
--   Jobs               the job queue: app/db/jobs.py, the enqueuing insert of app/db/reminders.py,
--                      `_mark_failed` and `_dead_letter` of app/worker/loop.py
--   Worker             one job of the worker: `process_job` of app/worker/loop.py
--   Runs               execution runs and their events: app/db/executions.py
--   Actions            staged actions: app/db/integrations.py, from `create_pending_action` on
--   Integrations       connected accounts: `list_active_integrations` and `upsert_integration` of
--                      app/db/integrations.py
--   Links              one-time connect links: the first part of app/db/integrations.py
--   Confirm            the confirmed send of an e-mail: app/services/email_confirmation.py and
--                      `send_draft_request` of app/integrations/gmail.py
--   Messages           messages, their history and the reserved outbounds: app/db/messages.py and
--                      the end of app/db/executions.py
--   Reminders          app/db/reminders.py and the handler app/worker/handlers/reminder_due.py
--   Automations        app/db/automations.py
--   Execution          the execution service: app/services/execution.py, and the guard
--                      `goal_implies_email_send` of app/agent/gmail_tools.py; Scope, Run and
--                      Dispatch hold its functions, Ledger the view that it refines
--   Firing             how a due automation fires: app/services/automation.py
--   Transport          the wire format of Twilio: `_digits_phone`, `_whatsapp_address` and
--                      `parse_inbound` of app/transport/twilio_wa.py
--   Interaction        one event of the interaction with a person: app/agent/interaction.py; Texts
--                      holds the texts that the code words, Event the attempts of the agent
--   Notify             the notice of a connected account: app/worker/handlers/integration_notify.py,
--                      with the notices of app/integrations/providers.py
--
-- Each part has a record for a row (app/database/models), an enumeration for a status, and one
-- function for each function of the source, under its name. In the child modules, Rows says how a
-- statement may change one row, Lifecycle what holds of every sequence of statements, and Tests
-- runs the definitions on concrete rows.
--
-- Modelling choices. One session block is one atomic step, which Postgres guarantees for a
-- single UPDATE and which the advisory lock on the contact guarantees for the handlers;
-- interleavings are sequences of such steps. The two statements of create_pending_action take no
-- lock that keeps others away between them, so they are steps of their own. Where a function
-- spans several sessions, what others commit in between is an argument (`meanwhile` in Confirm
-- and Actions, `others` in Automations, `between` and the fields of Attempt in Execution); the
-- rows of the automations are not changed by others while one fires. The re-entry of the
-- interaction, a task of its own, is put right after the event that it reports. Ids are drawn by
-- the database and so are arguments (`new_id`). Instants are microseconds in ℕ; `now` is the
-- database's clock and `clock` the application's. SKIP LOCKED is a predicate, `locked`. A unique
-- index is written out where the source relies on it to refuse a write; the index on the pending
-- wake-ups is not part of the statements of Jobs; Worker writes out where it refuses a retry,
-- and Automations.Conflict says why. A send of Twilio that raises may have been taken all the
-- same (`Answer` in Reminders). An exception is a `none`, or a flag in the result. A loop runs
-- on the list it works off or on its number of attempts, so no fuel can run out. Parameters
-- stand for what is not in the repository: SHA-256 of a canonical payload (`hash`), Twilio
-- (`send`), the provider behind its adapter (`execute`), Python's `str.strip`, SQL's `trim`,
-- `uuid.UUID`, the printing of instants, and the order of texts in the database. The record
-- Texts of Execution and the record Clock of Firing hold such parameters; the agent is one too:
-- an Attempt says how it ends and what is committed meanwhile. In Interaction the agent is the
-- calls that it makes of the tools, one after the other, and how it ends.
--
-- Not modelled: the other texts for the person and the prompts and results for the language model,
-- logs and traces, the web pages and routes, the tools of the agents but for the visible send and
-- the dispatch, the calendar confirmation, recurrence rules, and the listings that only sort rows
-- for display.
pub mod Prelude
pub mod Table
pub mod Payload
pub mod Jobs
pub mod Runs
pub mod Actions
pub mod Integrations
pub mod Confirm
pub mod Messages
pub mod Reminders
pub mod Links
pub mod Automations
pub mod Notify
pub mod Worker
pub mod Execution
pub mod Firing
pub mod Interaction
pub mod Transport
