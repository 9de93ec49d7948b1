-- ===== src/Timeline/Copy.antt =====
-- The texts of an event. The translator `t` of i18next and the formatting of an amount are
-- parameters. The tables are looked up by their own keys only.
-- (frontend/src/features/companies/components/CompanyTimelineFormatters.ts)
use Prim.Native.String
use bubllio_crm.Prelude.{
  String, Option, none, some, List, [], ◌∷◌, ◌==◌, if◌then◌else◌, ◌≡◌, refl, map,
}
use bubllio_crm.Js.Text.{truthy, join}
use bubllio_crm.Js.Patch.{option_or}
use bubllio_crm.Types.Deal.{DealStage, stage_name}
use bubllio_crm.Timeline.Tables.{
  humanize, table_get, value_keys, field_keys, contact_event_keys, deal_event_keys, task_event_keys,
  service_event_keys, plain_event_keys, kind_keys, timeline_key, event_key,
}
use bubllio_crm.Timeline.Event.{CompanyTimelineEvent, EventDetails}

pub record EventCopy : Type 0 where
  pub title : String
  pub detail : Option String

-- `t` takes a key and named values. `format_amount` gives the text of an amount in a currency,
-- and `none` where `Number(amount)` is not finite.
module _ (t : String → List (String × String) → String)
    (format_amount : Option String → String → Option String) where
  abbrev translated : String → (String → String) → List (String × String) → String
  translated key full keys = elim (table_get key keys) [
    | none ↦ humanize key
    | some name ↦ t (full name) []
  ]

  unfoldable pub translate_timeline_value : Option String → String
  translate_timeline_value value =
      translated (option_or value "") (λ key. timeline_key (String.◌++◌ "values." key)) value_keys

  unfoldable pub translate_timeline_field : String → String
  translate_timeline_field field =
      translated field (λ key. String.◌++◌ "crm.companies." key) field_keys

  abbrev named : String → Option String → String → String
  named key name fallback = t (event_key key) (("name", option_or name (t fallback [])) ∷ [])

  abbrev pub transition : Option String → Option String → String
  transition from to =
      t (timeline_key "transition")
        (("from", translate_timeline_value from) ∷ ("to", translate_timeline_value to) ∷ [])

  abbrev field_names : Option (List String) → Option String
  field_names none = none
  field_names (some fields) = some (join ", " (map translate_timeline_field fields))

  -- Number.isFinite(amount) ? amount.toLocaleString(…) : details.amount
  abbrev formatted_amount : EventDetails → Option String
  formatted_amount d = elim (format_amount d.amount (option_or d.currency "EUR")) [
    | none ↦ d.amount
    | some text ↦ some text
  ]

  abbrev payment_title : Option String → String
  payment_title none = t (event_key "paymentRecordedNoAmount") []
  payment_title (some amount) =
      if truthy amount
      then t (event_key "paymentRecorded") (("amount", amount) ∷ [])
      else t (event_key "paymentRecordedNoAmount") []

  -- { kind, outcome }, where a missing outcome is not passed on
  abbrev communication_values : EventDetails → List (String × String)
  communication_values d =
      (
        "kind",
        translated (option_or d.kind "call")
            (λ key. timeline_key (String.◌++◌ "communication." key)) kind_keys,
      )
      ∷ elim d.outcome [ none ↦ [] | some outcome ↦ ("outcome", outcome) ∷ [] ]

  -- The cases that have a branch of their own.
  abbrev special : String → EventDetails → EventCopy
  special type d =
      if type == "company.updated"
      then record { title = t (event_key "companyUpdated") []; detail = field_names d.fields }
      else (if type == "deal.stage_changed"
          then record {
            title = named "dealMoved" d.deal_title (timeline_key "dealFallback");
            detail = some (transition d.from_stage d.to_stage);
          }
          else (if type == "task.status_changed"
              then record {
                title = named "taskStatusChanged" d.task_title (timeline_key "taskFallback");
                detail = some (transition d.from_status d.to_status);
              }
              else (if type == "service.status_changed"
                  then record {
                    title =
                        named "serviceStatusChanged" d.subscription_name
                          (timeline_key "serviceFallback");
                    detail = some (translate_timeline_value d.to_status);
                  }
                  else (if type == "payment.recorded"
                      then record {
                        title = payment_title (formatted_amount d);
                        detail = d.subscription_name;
                      }
                      else (if type == "communication.logged"
                          then record {
                            title = t (event_key "communicationLogged") (communication_values d);
                            detail = d.contact_name;
                          }
                          else record { title = t (event_key "unknown") []; detail = none })))))

  -- The title of a table's event, or else the rest of the `switch`.
  abbrev from_table : Option String → (String → String) → EventCopy → EventCopy
  from_table none title rest = rest
  from_table (some key) title rest = record { title = title key; detail = none }

  unfoldable pub get_timeline_event_copy : CompanyTimelineEvent → EventCopy
  get_timeline_event_copy event =
      let type = event.event_type in
      let d = event.details in
      from_table (table_get type plain_event_keys) (λ key. t (event_key key) [])
        (from_table (table_get type contact_event_keys)
          (λ key. named key d.contact_name "crm.companies.detail.contactFallback")
          (from_table (table_get type deal_event_keys)
            (λ key. named key d.deal_title (timeline_key "dealFallback"))
            (from_table (table_get type task_event_keys)
              (λ key. named key d.task_title (timeline_key "taskFallback"))
              (from_table (table_get type service_event_keys)
                (λ key. named key d.subscription_name (timeline_key "serviceFallback"))
                (special type d)))))

  translate_timeline_value-stage_name :
      (stage : DealStage)
      → translate_timeline_value (some (stage_name stage))
        ≡ t (timeline_key (String.◌++◌ "values." (stage_name stage))) []
  unfolding translate_timeline_value
  translate_timeline_value-stage_name DealStage.lead = refl
  translate_timeline_value-stage_name DealStage.qualified = refl
  translate_timeline_value-stage_name DealStage.proposal = refl
  translate_timeline_value-stage_name DealStage.negotiation = refl
  translate_timeline_value-stage_name DealStage.won = refl
  translate_timeline_value-stage_name DealStage.lost = refl

  -- The event of a deal that moves between two stages names both in translation, whichever of the
  -- stages of a deal they are: the text of a stage is never shown as it is stored.
  pub get_timeline_event_copy-moved :
      (event : CompanyTimelineEvent) (before after : DealStage)
      → event.event_type ≡ "deal.stage_changed"
      → event.details.from_stage ≡ some (stage_name before)
      → event.details.to_stage ≡ some (stage_name after)
      → (get_timeline_event_copy event).detail
        ≡ some (
            t "crm.companies.timeline.transition" (
              ("from", t (timeline_key (String.◌++◌ "values." (stage_name before))) [])
              ∷ ("to", t (timeline_key (String.◌++◌ "values." (stage_name after))) [])
              ∷ []))
  unfolding get_timeline_event_copy
  get_timeline_event_copy-moved event before after type from to = rw type (
      rw from (
        rw to (
          rw (translate_timeline_value-stage_name before)
            (rw (translate_timeline_value-stage_name after) refl))))
