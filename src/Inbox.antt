-- ===== src/Inbox.antt =====
-- The inbox of a workspace (frontend/src/pages/Inbox/InboxPage.tsx and
-- frontend/src/components/layout/ActivityInboxIndicator.tsx).
use bubllio_crm.Prelude.{
  ℕ, ◌+◌, String, Bool, true, false, not, ◌&&◌, ◌||◌, Option, none, some, List, [], ◌∷◌, ◌==◌, ◌≡◌,
  refl, arith, filter, count, is_empty, ap, ◌∙◌, if◌then◌else◌,
}
use bubllio_crm.Js.Text.{truthy}

pub data ActivityInboxKind : Type 0 where
  overdue_task task_due_today deal_without_next_action : ActivityInboxKind
  company_without_follow_up overdue_charges renewals_due pending_invitations : ActivityInboxKind

pub data ActivityInboxSeverity : Type 0 where
  critical warning info : ActivityInboxSeverity

pub data EntityType : Type 0 where
  task deal company billing members : EntityType

pub record ActivityInboxItem : Type 0 where
  pub id : String
  pub kind : ActivityInboxKind
  pub severity : ActivityInboxSeverity
  pub title : String
  pub description : String
  pub entity_type : EntityType
  pub entity_id : Option String
  pub due_at : Option String
  pub path : String

pub data Source : Type 0 where
  all tasks sales customers billing team : Source

abbrev pub sources : List Source
sources = all ∷ tasks ∷ sales ∷ customers ∷ Source.billing ∷ team ∷ []

abbrev pub source_by_kind : ActivityInboxKind → Source
source_by_kind overdue_task = tasks
source_by_kind task_due_today = tasks
source_by_kind deal_without_next_action = sales
source_by_kind company_without_follow_up = customers
source_by_kind overdue_charges = Source.billing
source_by_kind renewals_due = Source.billing
source_by_kind pending_invitations = team

abbrev source_name : Source → String
source_name all = "all"
source_name tasks = "tasks"
source_name sales = "sales"
source_name customers = "customers"
source_name Source.billing = "billing"
source_name team = "team"

abbrev pub is_shown : Source → ActivityInboxItem → Bool
is_shown source item =
    source_name source == "all" || source_name (source_by_kind item.kind) == source_name source

unfoldable pub shown_items : Source → List ActivityInboxItem → List ActivityInboxItem
shown_items source items = filter (is_shown source) items

-- The search of the tasks page that an item opens: `owner`, `view` and `q`.
pub data Target : Type 0 where
  company_page deal_page : (id : String) → Target
  tasks_page : (owner : String) → (view : String) → (q : String) → Target
  members_page customer_services_page billing_page : Target

abbrev is_renewal : ActivityInboxKind → Bool
is_renewal renewals_due = true
is_renewal overdue_task = false
is_renewal _ = false

abbrev pub services_page : ActivityInboxItem → Target
services_page item = if is_renewal item.kind then customer_services_page else billing_page

abbrev page_of : EntityType → Option String → ActivityInboxItem → Target
page_of company none item = services_page item
page_of company (some id) item = if truthy id then company_page id else services_page item
page_of deal none item = services_page item
page_of deal (some id) item = if truthy id then deal_page id else services_page item
page_of task id item = tasks_page "me" "focus" item.title
page_of members id item = members_page
page_of EntityType.billing id item = services_page item

-- Where `openItem` navigates to.
unfoldable pub open_item : ActivityInboxItem → Target
open_item item = page_of item.entity_type item.entity_id item

abbrev is_task : EntityType → Bool
is_task task = true
is_task deal = false
is_task _ = false

abbrev has_id : Option String → Bool
has_id none = false
has_id (some id) = truthy id

-- The button that completes an item's task is shown.
unfoldable pub shows_complete : Bool → ActivityInboxItem → Bool
shows_complete can_manage item = can_manage && (is_task item.entity_type && has_id item.entity_id)

abbrev is_critical : ActivityInboxSeverity → Bool
is_critical critical = true
is_critical warning = false
is_critical info = false

-- hasOnlyCriticalItems of ActivityInboxIndicator
unfoldable pub has_only_critical_items : List ActivityInboxItem → Bool
has_only_critical_items items =
    not (is_empty items)
    && is_empty (filter (λ (i : ActivityInboxItem). not (is_critical i.severity)) items)

abbrev put : Bool → ℕ → ℕ → ℕ
put true w n = w + n
put false w n = n

count-put :
    (p : ActivityInboxItem → Bool) (b : Bool) (i : ActivityInboxItem)
    (items : List ActivityInboxItem)
    → count p (if b then i ∷ items else items) ≡ put b (if p i then 1 else 0) (count p items)
count-put p true i items = refl
count-put p false i items = refl

-- An item is put to one of five counts.
put_once :
    (kind : ActivityInboxKind) (w a b c d e : ℕ)
    → put (source_name (source_by_kind kind) == "tasks") w a
        + put (source_name (source_by_kind kind) == "sales") w b
        + put (source_name (source_by_kind kind) == "customers") w c
        + put (source_name (source_by_kind kind) == "billing") w d
        + put (source_name (source_by_kind kind) == "team") w e
      ≡ w + (a + b + c + d + e)
put_once overdue_task w a b c d e = omega arith
put_once task_due_today w a b c d e = omega arith
put_once deal_without_next_action w a b c d e = omega arith
put_once company_without_follow_up w a b c d e = omega arith
put_once overdue_charges w a b c d e = omega arith
put_once renewals_due w a b c d e = omega arith
put_once pending_invitations w a b c d e = omega arith

-- Each item is shown among all and in exactly one of the other five sources: the counts of the five add
-- up to the number of items, and `all` shows every item.
pub shown_items_lem :
    (p : ActivityInboxItem → Bool) (items : List ActivityInboxItem)
    → (count p (shown_items tasks items)
          + count p (shown_items sales items)
          + count p (shown_items customers items)
          + count p (shown_items Source.billing items)
          + count p (shown_items team items)
        ≡ count p items)
      × (shown_items all items ≡ items)
unfolding shown_items
shown_items_lem p [] = (refl, refl)
shown_items_lem p (i ∷ is) =
    let (counted, every) = shown_items_lem p is in
    (
      simp count-put (
          put_once i.kind (if p i then 1 else 0) (count p (filter (is_shown tasks) is))
            (count p (filter (is_shown sales) is)) (count p (filter (is_shown customers) is))
            (count p (filter (is_shown Source.billing) is)) (count p (filter (is_shown team) is))
          ∙ ap (λ n. (if p i then 1 else 0) + n) counted),
      ap (λ l. i ∷ l) every,
    )
