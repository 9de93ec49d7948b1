-- ===== src/Contacts.antt =====
-- The list of contacts: its URL parameters (frontend/src/features/contacts/contactListConfig.ts) and
-- the changes of them (frontend/src/features/contacts/hooks/useContactListController.ts).
use bubllio_crm.Prelude.{
  String, Bool, false, not, ◌||◌, Option, none, some, List, [], ◌∷◌, ◌==◌, if◌then◌else◌, ◌≡◌, refl,
  arith, Bool-cases, inl, inr,
}
use bubllio_crm.Js.Value.{
  Value, undefined, num, str, Fields, end, get, as_string, is_true, one_of, spelled,
}
use bubllio_crm.Js.Text.{truthy}
use bubllio_crm.Js.Numbers.{Numbers, to_number}
use bubllio_crm.Js.Array.{find}
use bubllio_crm.Js.Patch.{
  present, non_blank, flag, get-present, get-flag, one_of-shown, as_string-shown, is_true-if,
  non_blank_idempotent, shown, option_or,
}

pub data ContactView : Type 0 where
  active all archived : ContactView

abbrev pub view_name : ContactView → String
view_name active = "active"
view_name all = "all"
view_name archived = "archived"

-- CONTACT_VIEWS
abbrev pub contact_views : List ContactView
contact_views = active ∷ all ∷ archived ∷ []

pub record ContactSearch (N : Type 0) : Type 0 where
  pub q : Option String
  pub view : Option ContactView
  pub company : Option String
  pub page : Option N
  pub contact : Option String
  pub create : Bool

-- typeof text === 'string' && text ? text : undefined
abbrev non_empty : Option String → Option String
non_empty none = none
non_empty (some s) = if truthy s then some s else none

non_empty_idempotent : (o : Option String) → non_empty (non_empty o) ≡ non_empty o
non_empty_idempotent none = refl
non_empty_idempotent (some s) = ground arith

spelled-view_name : (v : ContactView) → spelled view_name contact_views (view_name v) ≡ some v
spelled-view_name active = refl
spelled-view_name all = refl
spelled-view_name archived = refl

module _ (numbers : Numbers) where
  open numbers use {Num, nan, is_positive_integer}

  abbrev page_of : Value Num → Option Num
  page_of v = if is_positive_integer (to_number numbers v) then some (to_number numbers v) else none

  unfoldable pub parse_contact_search : Fields Num → ContactSearch Num
  parse_contact_search search = record {
    q = non_blank (as_string (get "q" search));
    view = one_of view_name contact_views (get "view" search);
    company = non_empty (as_string (get "company" search));
    page = page_of (get "page" search);
    contact = as_string (get "contact" search);
    create = is_true (get "create" search);
  }

  -- The object that the parser returns, as the router sees it again.
  unfoldable pub contact_search_fields : ContactSearch Num → Fields Num
  contact_search_fields s =
      present "contact" (λ t. str t) s.contact
        (flag "create" s.create (
          present "q" (λ t. str t) s.q
            (present "view" (λ v. str (view_name v)) s.view
              (present "company" (λ t. str t) s.company (present "page" (λ n. num n) s.page end)))))

  page-shown :
      (v : Value Num)
      → is_positive_integer nan ≡ false
      → page_of (shown (λ n. num n) (page_of v) undefined) ≡ page_of v
  page-shown v h = elim (Bool-cases (is_positive_integer (to_number numbers v))) [
    | inl positive ↦ rw positive (rw positive refl)
    | inr other ↦ rw other (rw h refl)
  ]

  -- Parsing the URL parameters that parsing gave changes nothing, as long as NaN is no positive
  -- integer.
  pub parse_contact_search_idempotent :
      (search : Fields Num)
      → is_positive_integer nan ≡ false
      → parse_contact_search (contact_search_fields (parse_contact_search search))
        ≡ parse_contact_search search
  unfolding parse_contact_search contact_search_fields
  parse_contact_search_idempotent search h = simp (
    get-present,
    get-flag,
    as_string-shown Num,
    is_true-if Num,
    non_blank_idempotent (as_string (get "q" search)),
    non_empty_idempotent (as_string (get "company" search)),
    one_of-shown Num view_name contact_views spelled-view_name,
    page-shown (get "page" search) h,
  )

abbrev pub is_view : ContactView → ContactView → Bool
is_view a b = view_name a == view_name b

abbrev has_text : Option String → Bool
has_text none = false
has_text (some t) = truthy t

abbrev name_of : Option (String × String) → String → String
name_of none company = company
name_of (some (id, name)) company = name

selected :
    (next : ContactView) → option_or (if is_view next active then none else some next) active ≡ next
selected active = refl
selected all = refl
selected archived = refl

module _ {N : Type 0} where
  abbrev pub current_view : ContactSearch N → ContactView
  current_view s = option_or s.view active

  unfoldable pub has_filters : ContactSearch N → Bool
  has_filters s = has_text s.q || (has_text s.company || not (is_view (current_view s) active))

  unfoldable pub clear_filters : ContactSearch N → ContactSearch N
  clear_filters s = record s { q = none; view = none; company = none; page = none }

  unfoldable pub select_view : ContactView → ContactSearch N → ContactSearch N
  select_view next s = record s {
    view = if is_view next active then none else some next;
    page = none;
  }

  unfoldable pub close_create : ContactSearch N → ContactSearch N
  close_create s = record s { create = false }

  -- companies.data?.find((item) => item.id === company)?.name ?? company, of ids and names
  abbrev pub company_name : List (String × String) → ContactSearch N → String
  company_name companies s =
      name_of (find (λ (c : String × String). c.0 == option_or s.company "") companies)
        (option_or s.company "")

  -- Whatever was selected, clearing leaves no filter, and selecting a view shows it from its first
  -- page; neither closes the opened contact or the create dialog.
  pub select_view-clear_filters :
      (next : ContactView) (s : ContactSearch N)
      → (has_filters (clear_filters s) ≡ false)
        × (current_view (select_view next s) ≡ next)
        × ((select_view next s).page ≡ none)
        × ((select_view next (clear_filters s)).contact ≡ s.contact)
        × ((select_view next (clear_filters s)).create ≡ s.create)
  unfolding has_filters clear_filters select_view
  select_view-clear_filters next s = (refl, selected next, refl, refl, refl)
