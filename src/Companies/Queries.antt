-- ===== src/Companies/Queries.antt =====
-- The queries of companies and what their mutations invalidate
-- (frontend/src/features/companies/hooks/useCompanies.ts). Whether an invalidated key reaches a
-- query's key is TanStack Query's and a parameter.
use bubllio_crm.Prelude.{ℕ, String, Bool, true, Option, List, [], ◌∷◌, ◌++◌, ◌≡◌}
use bubllio_crm.Js.Patch.{option_or}
use bubllio_crm.Queries.{
  KeyPart, text, number, filters, reaches, first-reaches, self-reaches, or_later,
}

-- The queries of companies that the code makes.
pub data CompanyQuery (F : Type 0) : Type 0 where
  list_query : F → CompanyQuery F
  page_query : F → ℕ → CompanyQuery F
  detail_query activity_query : (company : String) → CompanyQuery F
  timeline_query : (company : String) → (category : Option String) → CompanyQuery F
  attention_query assignees_query : CompanyQuery F

pub data CompanyMutation : Type 0 where
  create update quick_update delete archive restore : CompanyMutation
  add_timeline_note add_communication : (company : String) → CompanyMutation

module _ {F : Type 0} where
  unfoldable pub by_organization : String → List (KeyPart F)
  by_organization org = text "organizations" ∷ text org ∷ text "companies" ∷ []

  unfoldable pub list : String → F → List (KeyPart F)
  list org f = by_organization org ++ (filters f ∷ [])

  unfoldable pub page : String → F → ℕ → List (KeyPart F)
  page org f n = list org f ++ (text "page" ∷ number n ∷ [])

  unfoldable pub detail : String → String → List (KeyPart F)
  detail org company = by_organization org ++ (text company ∷ [])

  unfoldable pub activity : String → String → List (KeyPart F)
  activity org company = detail org company ++ (text "activity" ∷ [])

  unfoldable pub timeline : String → String → List (KeyPart F)
  timeline org company = detail org company ++ (text "timeline" ∷ [])

  unfoldable pub attention : String → List (KeyPart F)
  attention org = by_organization org ++ (text "attention" ∷ [])

  unfoldable pub timeline_list : String → String → Option String → List (KeyPart F)
  timeline_list org company category =
      timeline org company ++ (text (option_or category "all") ∷ [])

  unfoldable pub assignees : String → List (KeyPart F)
  assignees org = by_organization org ++ (text "assignees" ∷ [])

  abbrev pub key_of : String → CompanyQuery F → List (KeyPart F)
  key_of org (list_query f) = list org f
  key_of org (page_query f n) = page org f n
  key_of org (detail_query company) = detail org company
  key_of org (activity_query company) = activity org company
  key_of org (timeline_query company category) = timeline_list org company category
  key_of org attention_query = attention org
  key_of org assignees_query = assignees org

  -- The keys below `companies` that a mutation invalidates when it succeeds.
  unfoldable pub invalidated : String → CompanyMutation → List (List (KeyPart F))
  invalidated org (add_timeline_note company) = timeline org company ∷ []
  invalidated org (add_communication company) = timeline org company ∷ attention org ∷ []
  invalidated org create = by_organization org ∷ []
  invalidated org update = by_organization org ∷ []
  invalidated org quick_update = by_organization org ∷ []
  invalidated org delete = by_organization org ∷ []
  invalidated org archive = by_organization org ∷ []
  invalidated org restore = by_organization org ∷ []

  -- `matches key query`: invalidating `key` reaches the query.
  module _ (matches : List (KeyPart F) → List (KeyPart F) → Bool) where
    module _
        (matches-append : (key rest : List (KeyPart F)) → matches key (key ++ rest) ≡ true) where
      company_key :
          (o : String) (q : CompanyQuery F)
          → reaches matches (by_organization o ∷ []) (key_of o q) ≡ true
      unfolding by_organization list page detail activity timeline attention timeline_list assignees
      company_key o (list_query f) = first-reaches matches matches-append [] (by_organization o) _
      company_key o (page_query f n) =
          first-reaches matches matches-append [] (by_organization o)
            (filters f ∷ text "page" ∷ number n ∷ [])
      company_key o (detail_query c) = first-reaches matches matches-append [] (by_organization o) _
      company_key o (activity_query c) =
          first-reaches matches matches-append [] (by_organization o)
            (text c ∷ text "activity" ∷ [])
      company_key o (timeline_query c k) =
          first-reaches matches matches-append [] (by_organization o)
            (text c ∷ text "timeline" ∷ text (option_or k "all") ∷ [])
      company_key o attention_query = first-reaches matches matches-append [] (by_organization o) _
      company_key o assignees_query = first-reaches matches matches-append [] (by_organization o) _

      -- Where an invalidated key reaches every query whose key starts with it: creating, changing,
      -- archiving, restoring or deleting a company refreshes every query of the
      -- organization's companies; a note and a communication refresh the company's timeline in every
      -- category, and a communication the list of companies that need attention too.
      pub invalidated-reaches :
          (org company : String) (category : Option String) (q : CompanyQuery F)
          → (reaches matches (invalidated org create) (key_of org q) ≡ true)
            × (reaches matches (invalidated org update) (key_of org q) ≡ true)
            × (reaches matches (invalidated org quick_update) (key_of org q) ≡ true)
            × (reaches matches (invalidated org delete) (key_of org q) ≡ true)
            × (reaches matches (invalidated org archive) (key_of org q) ≡ true)
            × (reaches matches (invalidated org restore) (key_of org q) ≡ true)
            × (reaches matches
                  (invalidated org (add_timeline_note company))
                  (timeline_list org company category)
                ≡ true)
            × (reaches matches
                  (invalidated org (add_communication company))
                  (timeline_list org company category)
                ≡ true)
            × (reaches matches (invalidated org (add_communication company)) (attention org) ≡ true)
      unfolding invalidated timeline_list
      invalidated-reaches org company category q =
          let every = company_key org q in
          let own =
            first-reaches matches matches-append [] (timeline org company)
              (text (option_or category "all") ∷ []) in
          (
            every,
            every,
            every,
            every,
            every,
            every,
            own,
            first-reaches matches matches-append (attention org ∷ []) (timeline org company)
                (text (option_or category "all") ∷ []),
            or_later matches (timeline org company) (attention org) (attention org ∷ [])
                (self-reaches matches matches-append (attention org)),
          )
