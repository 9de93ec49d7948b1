-- ===== src/Timeline/Tables.antt =====
-- The translation keys of timeline events, values and fields. A table is looked up by its own keys
-- only.
-- (frontend/src/features/companies/components/CompanyTimelineFormatters.ts)
use Prim.Native.Char.{code}
use Prim.Native.String
use bubllio_crm.Prelude.{String, Option, none, some, List, [], ◌∷◌, ◌==◌, if◌then◌else◌, nat_eq}

-- value.replaceAll('_', ' ')
unfoldable pub humanize : String → String
humanize String.[] = ""
humanize (String.◌∷◌ c s) =
    let rest = humanize s in if nat_eq (code c) 95 then String.◌++◌ " " rest else String.◌∷◌ c rest

abbrev pub table_get : String → List (String × String) → Option String
table_get key [] = none
table_get key ((k, v) ∷ more) = let rest = table_get key more in if k == key then some v else rest

abbrev pub value_keys : List (String × String)
value_keys =
    ("lead", "lead")
    ∷ ("qualified", "qualified")
    ∷ ("proposal", "proposal")
    ∷ ("negotiation", "negotiation")
    ∷ ("won", "won")
    ∷ ("lost", "lost")
    ∷ ("todo", "todo")
    ∷ ("in_progress", "inProgress")
    ∷ ("waiting", "waiting")
    ∷ ("completed", "completed")
    ∷ ("active", "active")
    ∷ ("paused", "paused")
    ∷ ("cancelling", "cancelling")
    ∷ ("cancelled", "cancelled")
    ∷ ("expired", "expired")
    ∷ []

abbrev pub field_keys : List (String × String)
field_keys =
    ("name", "form.name")
    ∷ ("tax_id", "profileContent.taxId")
    ∷ ("industry", "profileContent.industry")
    ∷ ("email", "profileContent.email")
    ∷ ("phone_number", "profileContent.phone")
    ∷ ("website", "profileContent.website")
    ∷ ("address_line_1", "profileContent.address")
    ∷ ("address_line_2", "form.addressLine2")
    ∷ ("city", "form.city")
    ∷ ("postal_code", "form.postalCode")
    ∷ ("country", "form.country")
    ∷ ("notes", "profileContent.internalNotes")
    ∷ ("lifecycle_stage", "form.stage")
    ∷ ("assigned_to", "profileContent.accountOwner")
    ∷ []

-- contactEventKeys, dealEventKeys and taskEventKeys, below `crm.companies.timeline.events.`
abbrev pub contact_event_keys : List (String × String)
contact_event_keys =
    ("contact.created", "contactAdded")
    ∷ ("contact.updated", "contactUpdated")
    ∷ ("contact.assigned", "contactOwnerChanged")
    ∷ ("contact.archived", "contactArchived")
    ∷ ("contact.restored", "contactRestored")
    ∷ []

abbrev pub deal_event_keys : List (String × String)
deal_event_keys =
    ("deal.created", "dealAdded")
    ∷ ("deal.updated", "dealUpdated")
    ∷ ("deal.archived", "dealArchived")
    ∷ ("deal.restored", "dealRestored")
    ∷ []

abbrev pub task_event_keys : List (String × String)
task_event_keys =
    ("task.created", "taskAdded")
    ∷ ("task.updated", "taskUpdated")
    ∷ ("task.completed", "taskCompleted")
    ∷ ("task.reopened", "taskReopened")
    ∷ []

abbrev pub service_event_keys : List (String × String)
service_event_keys =
    ("service.created", "serviceStarted") ∷ ("service.updated", "serviceUpdated") ∷ []

-- Events of a company, and a note, have a title and no name.
abbrev pub plain_event_keys : List (String × String)
plain_event_keys =
    ("company.created", "companyAdded")
    ∷ ("company.assigned", "ownerChanged")
    ∷ ("company.archived", "companyArchived")
    ∷ ("company.restored", "companyRestored")
    ∷ ("note.added", "noteAdded")
    ∷ []

abbrev pub kind_keys : List (String × String)
kind_keys = ("call", "call") ∷ ("email", "email") ∷ ("meeting", "meeting") ∷ []

abbrev pub timeline_key : String → String
timeline_key key = String.◌++◌ "crm.companies.timeline." key

abbrev pub event_key : String → String
event_key key = timeline_key (String.◌++◌ "events." key)
