-- ===== src/Tests/Data.antt =====
-- Sample data: deals, tasks, and simple instances of what the model takes as parameters.
use bubllio_crm.Prelude.{
  ℕ, zero, suc, String, Bool, true, false, Option, none, some, List, [], ◌∷◌, ◌≡◌, refl, leb, ap,
  ltb, ◌+◌, ◌*◌, ◌/◌,
}
use bubllio_crm.Js.Numbers.{Numbers}
use bubllio_crm.Types.Deal.{Deal, DealStage, lead, qualified}
use bubllio_crm.Types.Task.{CrmTask, TaskKind, TaskPriority, TaskStatus, TaskWorkflowStatus}
use bubllio_crm.Deals.Move.{QueryCache}
use bubllio_crm.Deals.Search.{DealSearch}
use bubllio_crm.Deals.Board.{BoardProps}
use bubllio_crm.Tasks.Clock.{Clock}

abbrev pub deal_at : String → DealStage → ℕ → Deal
deal_at id stage sort_order = record {
  id = id;
  organization = "o";
  company = "k";
  company_name = "Kafe";
  contact = none;
  contact_name = "";
  assigned_to = none;
  assigned_to_name = "";
  title = "Coffee";
  value = "100";
  currency = "EUR";
  tax_rate = "24";
  amount_includes_tax = false;
  net_value = "100";
  tax_value = "24";
  gross_value = "124";
  probability = 50;
  stage = stage;
  sort_order = sort_order;
  expected_close_date = none;
  lost_reason = "";
  notes = "";
  archived_at = none;
  created_at = "";
  updated_at = "";
}

abbrev pub deal_a : Deal
deal_a = deal_at "a" lead 0

abbrev pub deal_b : Deal
deal_b = deal_at "b" qualified 0

abbrev pub deal_c : Deal
deal_c = deal_at "c" qualified 1

abbrev pub deals : List Deal
deals = deal_a ∷ deal_b ∷ deal_c ∷ []

abbrev pub task_at : String → TaskWorkflowStatus → CrmTask
task_at due_at status = record {
  id = "t";
  organization = "o";
  company = "k";
  company_name = "Kafe";
  contact = none;
  contact_name = "";
  deal = some "a";
  deal_title = "Coffee";
  assigned_to = none;
  assigned_to_name = "";
  created_by_name = "";
  completed_by_name = "";
  title = "Call";
  kind = TaskKind.call;
  priority = TaskPriority.normal;
  workflow_status = status;
  due_at = due_at;
  reminder_at = none;
  notes = "";
  effective_status = TaskStatus.open_task;
  completed_at = none;
  created_at = "";
  updated_at = "";
}

abbrev pub tasks : List CrmTask
tasks =
    task_at "1" TaskWorkflowStatus.todo
    ∷ task_at "1111" TaskWorkflowStatus.waiting
    ∷ task_at "11" TaskWorkflowStatus.completed
    ∷ []

-- Numbers in unary, with `none` for NaN.
abbrev pub ones : ℕ → String
ones zero = ""
ones (suc n) = String.◌∷◌ "1" (ones n)

abbrev pub count_ones : String → ℕ
count_ones String.[] = 0
count_ones (String.◌∷◌ c s) = suc (count_ones s)

abbrev pub text_of_number : Option ℕ → String
text_of_number none = ""
text_of_number (some n) = ones n

abbrev pub number_of_text : String → Option ℕ
number_of_text s = some (count_ones s)

abbrev pub both : (ℕ → ℕ → ℕ) → Option ℕ → Option ℕ → Option ℕ
both f none b = none
both f (some a) none = none
both f (some a) (some b) = some (f a b)

abbrev pub is_positive : Option ℕ → Bool
is_positive none = false
is_positive (some n) = leb 1 n

abbrev pub unary : Numbers
unary = record {
  Num = Option ℕ;
  of_nat = λ n. some n;
  of_text = number_of_text;
  to_text = text_of_number;
  nan = none;
  add = both (λ a b. a + b);
  mul = both (λ a b. a * b);
  div = both (λ a b. a / b);
  is_positive_integer = is_positive;
}

count_ones-ones : (n : ℕ) → count_ones (ones n) ≡ n
count_ones-ones zero = refl
count_ones-ones (suc n) = ap suc (count_ones-ones n)

pub number_of_text-text_of_number :
    (n : Option ℕ) → is_positive n ≡ true → number_of_text (text_of_number n) ≡ n
number_of_text-text_of_number none h = absurd (cc h)
number_of_text-text_of_number (some n) h = ap some (count_ones-ones n)

-- Times are numbers, written in unary; a day has ten hours.
abbrev pub clock : Clock
clock = record { Time = ℕ; parse = count_ones; before = ltb; end_of_day = λ t. t / 10 * 10 + 10 }

abbrev pub written : Option (List Deal) → Option (List Deal) → Option (List Deal)
written s none = s
written s (some rows) = some rows

-- A cache of one list.
abbrev pub one_list : QueryCache
one_list = record {
  State = Option (List Deal);
  read = λ s. s;
  write = written;
  read-write = λ s rows. refl;
  write-none = λ s. refl;
}

abbrev pub no_search : DealSearch
no_search = record { deal = none; create = false; q = none; view = none; stage = none }

abbrev pub board : BoardProps
board = record { rows = deals; can_manage = true; route_search = no_search }
