-- ===== src/Timeline/Days.antt =====
-- Events grouped by day, in the order in which they come.
-- (frontend/src/features/companies/components/CompanyTimelineFormatters.ts)
use Prim.Native.String
use bubllio_crm.Prelude.{
  String, false, List, [], ◌∷◌, ◌++◌, ◌==◌, if◌then◌else◌, ◌≡◌, refl, sym, ap, ◌∙◌, is_empty,
  is_empty-append, append_assoc, append-nil, All-append, eq_iff, All, Bool-cases, inl, inr,
}
use bubllio_crm.Timeline.Event.{CompanyTimelineEvent}

-- `Date` in the local time zone and its parts as the code prints them, for texts that are dates: for
-- another, the formatter of `long_date` throws, and no group is made.
pub record Calendar : Type 1 where
  pub Date : Type 0
  -- new Date(text)
  pub date_of : String → Date
  pub full_year : Date → String
  pub month : Date → String
  pub day_of_month : Date → String
  -- the date with `setDate(getDate() - 1)`
  pub day_before : Date → Date
  -- new Intl.DateTimeFormat(locale, { dateStyle: 'long' }).format(date)
  pub long_date : String → Date → String

pub record TimelineDayGroup : Type 0 where
  pub key : String
  pub label : String
  pub events : List CompanyTimelineEvent

module _ (calendar : Calendar) (t : String → String) (locale : String) (now : calendar.Date) where
  open calendar use {Date, date_of, full_year, month, day_of_month, day_before, long_date}

  unfoldable pub get_timeline_day_key : Date → String
  get_timeline_day_key d =
      String.◌++◌ (full_year d)
        (String.◌++◌ "-" (String.◌++◌ (month d) (String.◌++◌ "-" (day_of_month d))))

  unfoldable pub get_timeline_day_label : String → String
  get_timeline_day_label value =
      if get_timeline_day_key (date_of value) == get_timeline_day_key now
      then t "crm.companies.timeline.today"
      else (if get_timeline_day_key (date_of value) == get_timeline_day_key (day_before now)
          then t "crm.companies.timeline.yesterday"
          else long_date locale (date_of value))

  abbrev pub event_key : CompanyTimelineEvent → String
  event_key e = get_timeline_day_key (date_of e.occurred_at)

  abbrev new_group : CompanyTimelineEvent → TimelineDayGroup
  new_group e = record {
    key = event_key e;
    label = get_timeline_day_label e.occurred_at;
    events = e ∷ [];
  }

  -- One call of the reducer: the last group takes the event, or a new one follows it.
  abbrev pub add_event : List TimelineDayGroup → CompanyTimelineEvent → List TimelineDayGroup
  add_event [] e = new_group e ∷ []
  add_event (g ∷ []) e =
      if g.key == event_key e
      then record g { events = g.events ++ (e ∷ []) } ∷ []
      else g ∷ new_group e ∷ []
  add_event (g ∷ h ∷ groups) e = g ∷ add_event (h ∷ groups) e

  add_events : List TimelineDayGroup → List CompanyTimelineEvent → List TimelineDayGroup
  add_events groups [] = groups
  add_events groups (e ∷ events) = add_events (add_event groups e) events

  unfoldable pub group_timeline_events : List CompanyTimelineEvent → List TimelineDayGroup
  unfolding add_events
  group_timeline_events events = add_events [] events

  -- The events that the groups show, from the first group to the last.
  abbrev pub shown : List TimelineDayGroup → List CompanyTimelineEvent
  shown [] = []
  shown (g ∷ groups) = g.events ++ shown groups

  abbrev OfDay : String → CompanyTimelineEvent → Type 0
  OfDay key e = event_key e ≡ key

  -- A group has events, all of its day, and the label of its first event.
  abbrev pub IsDayGroup : TimelineDayGroup → Type 0
  IsDayGroup g = (is_empty g.events ≡ false) × All (OfDay g.key) g.events

  -- Neighbouring groups are of different days.
  abbrev pub IsSplit : List TimelineDayGroup → Type 0
  IsSplit [] = Unit
  IsSplit (g ∷ []) = Unit
  IsSplit (g ∷ h ∷ groups) = ((g.key == h.key) ≡ false) × IsSplit (h ∷ groups)

  shown-add_event :
      (groups : List TimelineDayGroup) (e : CompanyTimelineEvent)
      → shown (add_event groups e) ≡ shown groups ++ (e ∷ [])
  shown-add_event [] e = refl
  shown-add_event (g ∷ []) e = elim (Bool-cases (g.key == event_key e)) [
    | inl same ↦ rw same (simp (append_assoc, append-nil))
    | inr other ↦ rw other (simp (append-nil))
  ]
  shown-add_event (g ∷ h ∷ groups) e =
      ap (λ es. g.events ++ es) (shown-add_event (h ∷ groups) e) ∙ simp (append_assoc)

  day_groups-add_event :
      (groups : List TimelineDayGroup) (e : CompanyTimelineEvent)
      → All IsDayGroup groups
      → All IsDayGroup (add_event groups e)
  day_groups-add_event [] e h = ((refl, (refl, tt)), tt)
  day_groups-add_event (g ∷ []) e h = elim (Bool-cases (g.key == event_key e)) [
    | inl same ↦ rw same (
      (
        is_empty-append g.events e,
        All-append (OfDay g.key) g.events (e ∷ []) h.0.1
            (sym ((eq_iff g.key (event_key e)).0 same), tt),
      ),
      tt,
    )
    | inr other ↦ rw other (h.0, ((refl, (refl, tt)), tt))
  ]
  day_groups-add_event (g ∷ k ∷ groups) e h = (h.0, day_groups-add_event (k ∷ groups) e h.1)

  IsSplit-add_event :
      (groups : List TimelineDayGroup) (e : CompanyTimelineEvent)
      → IsSplit groups
      → IsSplit (add_event groups e)
  IsSplit-add_event [] e h = tt
  IsSplit-add_event (g ∷ []) e h = elim (Bool-cases (g.key == event_key e)) [
    | inl same ↦ rw same tt
    | inr other ↦ rw other (other, tt)
  ]
  IsSplit-add_event (g ∷ k ∷ []) e h = elim (Bool-cases (k.key == event_key e)) [
    | inl same ↦ rw same (h.0, tt)
    | inr other ↦ rw other (h.0, (other, tt))
  ]
  IsSplit-add_event (g ∷ k ∷ l ∷ groups) e h = (h.0, IsSplit-add_event (k ∷ l ∷ groups) e h.1)

  add_events_lem :
      (groups : List TimelineDayGroup) (events : List CompanyTimelineEvent)
      → All IsDayGroup groups
      → IsSplit groups
      → (shown (add_events groups events) ≡ shown groups ++ events)
        × All IsDayGroup (add_events groups events)
        × IsSplit (add_events groups events)
  unfolding add_events
  add_events_lem groups [] h s = (simp (append-nil), h, s)
  add_events_lem groups (e ∷ events) h s =
      let (kept, days, split) =
        add_events_lem (add_event groups e) events (day_groups-add_event groups e h)
          (IsSplit-add_event groups e s) in
      (kept ∙ ap (λ es. es ++ events) (shown-add_event groups e) ∙ simp (append_assoc), days, split)

  -- Grouping shows all events in their order, in groups that each hold events of one day, and
  -- neighbouring groups are of different days.
  pub group_timeline_events_lem :
      (events : List CompanyTimelineEvent)
      → (shown (group_timeline_events events) ≡ events)
        × All IsDayGroup (group_timeline_events events)
        × IsSplit (group_timeline_events events)
  unfolding group_timeline_events
  group_timeline_events_lem events = add_events_lem [] events tt tt
