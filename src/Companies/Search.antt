-- ===== src/Companies/Search.antt =====
-- The URL parameters of the company list (frontend/src/features/companies/companyListConfig.ts).
use bubllio_crm.Prelude.{
  ◌≢◌, String, Bool, true, false, ◌||◌, Option, none, some, List, [], ◌∷◌, ◌==◌, if◌then◌else◌, ◌≡◌,
  refl, arith, Bool-cases, inl, inr,
}
use bubllio_crm.Js.Value.{
  Value, undefined, null, bool, num, str, obj, Fields, end, get, as_string, is_true, one_of,
  spelled,
}
use bubllio_crm.Js.Numbers.{Numbers, to_number, to_string}
use bubllio_crm.Js.Patch.{
  present, non_blank, flag, get-present, get-flag, one_of-shown, as_string-shown, is_true-if,
  non_blank_idempotent, shown,
}

pub data CompanyView : Type 0 where
  active mine unassigned archived : CompanyView

abbrev pub view_name : CompanyView → String
view_name active = "active"
view_name mine = "mine"
view_name unassigned = "unassigned"
view_name archived = "archived"

-- COMPANY_VIEWS
abbrev pub company_views : List CompanyView
company_views = active ∷ mine ∷ unassigned ∷ archived ∷ []

pub data CompanyStage : Type 0 where
  lead prospect customer inactive : CompanyStage

abbrev pub stage_name : CompanyStage → String
stage_name lead = "lead"
stage_name prospect = "prospect"
stage_name customer = "customer"
stage_name inactive = "inactive"

-- COMPANY_STAGES
abbrev pub company_stages : List CompanyStage
company_stages = lead ∷ prospect ∷ customer ∷ inactive ∷ []

pub data CompanySort : Type 0 where
  updated_desc updated_asc name_asc created_desc : CompanySort

abbrev pub sort_name : CompanySort → String
sort_name updated_desc = "-updated_at"
sort_name updated_asc = "updated_at"
sort_name name_asc = "name"
sort_name created_desc = "-created_at"

-- COMPANY_SORTS
abbrev pub company_sorts : List CompanySort
company_sorts = updated_desc ∷ updated_asc ∷ name_asc ∷ created_desc ∷ []

-- COMPANY_SORT_TRANSLATION_KEYS
abbrev pub sort_translation_key : CompanySort → String
sort_translation_key updated_desc = "crm.companies.sortUpdatedDesc"
sort_translation_key updated_asc = "crm.companies.sortUpdatedAsc"
sort_translation_key name_asc = "crm.companies.sortNameAsc"
sort_translation_key created_desc = "crm.companies.sortCreatedDesc"

pub record CompanySearch (N : Type 0) : Type 0 where
  pub q : Option String
  pub view : Option CompanyView
  pub stage : Option CompanyStage
  pub owner : Option String
  pub sort : Option CompanySort
  pub page : Option N
  pub company : Option String
  pub create : Bool

spelled-view_name : (v : CompanyView) → spelled view_name company_views (view_name v) ≡ some v
spelled-view_name active = refl
spelled-view_name mine = refl
spelled-view_name unassigned = refl
spelled-view_name archived = refl

spelled-stage_name : (v : CompanyStage) → spelled stage_name company_stages (stage_name v) ≡ some v
spelled-stage_name lead = refl
spelled-stage_name prospect = refl
spelled-stage_name customer = refl
spelled-stage_name inactive = refl

spelled-sort_name : (v : CompanySort) → spelled sort_name company_sorts (sort_name v) ≡ some v
spelled-sort_name updated_desc = refl
spelled-sort_name updated_asc = refl
spelled-sort_name name_asc = refl
spelled-sort_name created_desc = refl

-- search.owner === 'unassigned'
abbrev is_unassigned : {N : Type 0} → Value N → Bool
is_unassigned (str s) = s == "unassigned"
is_unassigned undefined = false
is_unassigned _ = false

module _ (numbers : Numbers) where
  open numbers use {Num, of_nat, of_text, to_text, nan, is_positive_integer}

  -- A positive integer is never falsy.
  unfoldable pub positive_integer : Value Num → Option Num
  positive_integer v =
      if is_positive_integer (to_number numbers v) then some (to_number numbers v) else none

  abbrev pub owner_of : Value Num → Option String
  owner_of v =
      if is_unassigned v || is_positive_integer (to_number numbers v)
      then some (to_string numbers v)
      else none

  unfoldable pub parse_company_search : Fields Num → CompanySearch Num
  unfolding positive_integer
  parse_company_search search = record {
    q = non_blank (as_string (get "q" search));
    view = one_of view_name company_views (get "view" search);
    stage = one_of stage_name company_stages (get "stage" search);
    owner = owner_of (get "owner" search);
    sort = one_of sort_name company_sorts (get "sort" search);
    page = positive_integer (get "page" search);
    company = as_string (get "company" search);
    create = is_true (get "create" search);
  }

  -- The object that the parser returns, as the router sees it again.
  unfoldable pub company_search_fields : CompanySearch Num → Fields Num
  company_search_fields s =
      present "company" (λ t. str t) s.company
        (flag "create" s.create (
          present "q" (λ t. str t) s.q
            (present "view" (λ v. str (view_name v)) s.view
              (present "stage" (λ v. str (stage_name v)) s.stage
                (present "owner" (λ t. str t) s.owner
                  (present "sort" (λ v. str (sort_name v)) s.sort
                    (present "page" (λ n. num n) s.page end)))))))

  module _ (nan-not_positive : is_positive_integer nan ≡ false)
      (zero-not_positive : is_positive_integer (of_nat 0) ≡ false)
      (of_text-to_text : (n : Num) → is_positive_integer n ≡ true → of_text (to_text n) ≡ n) where
    nothing-shown : owner_of undefined ≡ none
    nothing-shown = rw nan-not_positive refl

    text-shown :
        (s : String)
        → ((s == "unassigned") || is_positive_integer (of_text s)) ≡ true
        → owner_of (str s) ≡ some s
    text-shown s h = rw h refl

    owner_of-shown :
        (v : Value Num)
        → ((b : Bool) → v ≢ bool b)
        → owner_of (shown (λ t. str t) (owner_of v) undefined) ≡ owner_of v
    owner_of-shown undefined h = rw nan-not_positive (rw nan-not_positive refl)
    owner_of-shown null h = rw zero-not_positive nothing-shown
    owner_of-shown (bool b) h = absurd (h b refl)
    owner_of-shown (num n) h = elim (Bool-cases (is_positive_integer n)) [
      | inl positive ↦
          rw positive
            (text-shown (to_text n) (rw (of_text-to_text n positive) (rw positive (ground arith))))
      | inr other ↦ rw other nothing-shown
    ]
    owner_of-shown (str s) h =
        elim (Bool-cases ((s == "unassigned") || is_positive_integer (of_text s))) [
          | inl kept ↦ rw kept (text-shown s kept)
          | inr other ↦ rw other nothing-shown
        ]
    owner_of-shown (obj text fields) h = elim (Bool-cases (is_positive_integer (of_text text))) [
      | inl positive ↦ rw positive (text-shown text (rw positive (ground arith)))
      | inr other ↦ rw other nothing-shown
    ]

    page-shown :
        (v : Value Num)
        → positive_integer (shown (λ n. num n) (positive_integer v) undefined) ≡ positive_integer v
    unfolding positive_integer
    page-shown v = elim (Bool-cases (is_positive_integer (to_number numbers v))) [
      | inl positive ↦ rw positive (rw positive refl)
      | inr other ↦ rw other (rw nan-not_positive refl)
    ]

    -- Where NaN and 0 are no positive integers and the text of a positive integer is read as it
    -- again, parsing the URL parameters that parsing gave changes nothing, except where the owner
    -- is given as a Boolean: `owner=true` becomes the text "true".
    pub parse_company_search_idempotent :
        (search : Fields Num)
        → ((b : Bool) → get "owner" search ≢ bool b)
        → parse_company_search (company_search_fields (parse_company_search search))
          ≡ parse_company_search search
    unfolding parse_company_search company_search_fields
    parse_company_search_idempotent search h = simp (
      get-present,
      get-flag,
      as_string-shown Num,
      is_true-if Num,
      non_blank_idempotent (as_string (get "q" search)),
      one_of-shown Num view_name company_views spelled-view_name,
      one_of-shown Num stage_name company_stages spelled-stage_name,
      one_of-shown Num sort_name company_sorts spelled-sort_name,
      owner_of-shown (get "owner" search) h,
      page-shown (get "page" search),
    )
