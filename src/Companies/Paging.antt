-- ===== src/Companies/Paging.antt =====
-- Loading a timeline page by page (`getNextPageParam` of
-- frontend/src/features/companies/hooks/useCompanies.ts).
use bubllio_crm.Prelude.{
  ℕ, zero, suc, ◌+◌, ◌≤◌, ◌<◌, ltb, Option, none, some, List, [], ◌∷◌, ◌++◌, if◌then◌else◌, ◌≡◌,
  arith, refl, sym, ap, ◌∙◌, append_assoc, append-nil, length-append, length, Bool-cases, inl, inr,
}

module _ {E : Type 0} where
  -- pages.reduce((total, page) => total + page.results.length, 0)
  abbrev pub loaded : List (List E) → ℕ
  loaded [] = 0
  loaded (p ∷ pages) = length p + loaded pages

  -- `none` is `undefined`: nothing more to load. `count` is that of the last page.
  unfoldable pub get_next_page_param : ℕ → List (List E) → Option ℕ
  get_next_page_param count pages =
      if ltb (loaded pages) count then some (length pages + 1) else none

  -- The events that are shown: those of the pages, in order.
  abbrev pub all_of : List (List E) → List E
  all_of [] = []
  all_of (p ∷ pages) = p ++ all_of pages

  all_of-append :
      (pages : List (List E)) (p : List E) → all_of (pages ++ (p ∷ [])) ≡ all_of pages ++ p
  all_of-append [] p = append-nil p
  all_of-append (q ∷ pages) p =
      ap (λ es. q ++ es) (all_of-append pages p) ∙ sym (append_assoc q (all_of pages) p)

  length-all_of : (pages : List (List E)) → length (all_of pages) ≡ loaded pages
  length-all_of [] = refl
  length-all_of (p ∷ pages) = omega (arith, length-append p (all_of pages), length-all_of pages)

  empty_of : (es : List E) → length es ≡ 0 → es ≡ []
  empty_of [] h = refl
  empty_of (e ∷ es) h = absurd (omega (arith, h))

  -- The user loads more as long as there is more. The server's answer for a page is `server`, and
  -- its count stays the same.
  module _ (server : ℕ → List E) (count : ℕ) where
    abbrev pub load_more : Option ℕ → List (List E) → List (List E)
    load_more none pages = pages
    load_more (some n) pages = pages ++ (server n ∷ [])

    abbrev pub load : ℕ → List (List E) → List (List E)
    load zero pages = pages
    load (suc fuel) pages = load fuel (load_more (get_next_page_param count pages) pages)

  -- The server cuts its events into pages: `rest n` is what is left after n of them. No page is empty
  -- before the end.
  module _ (server rest : ℕ → List E) (cuts : (n : ℕ) → rest n ≡ server (n + 1) ++ rest (n + 1))
      (fills : (n : ℕ) → 1 ≤ length (rest n) → 1 ≤ length (server (n + 1))) where
    -- The pages that are loaded are the first ones.
    abbrev IsStart : List (List E) → Type 0
    IsStart pages = all_of pages ++ rest (length pages) ≡ rest 0

    counted :
        (pages : List (List E))
        → IsStart pages
        → loaded pages + length (rest (length pages)) ≡ length (rest 0)
    counted pages h = omega (
      arith,
      ap (λ es. length es) h,
      length-append (all_of pages) (rest (length pages)),
      length-all_of pages,
    )

    next-IsStart :
        (pages : List (List E))
        → IsStart pages
        → IsStart (pages ++ (server (length pages + 1) ∷ []))
    next-IsStart pages h =
        let n = length pages in
        let one_more : length (pages ++ (server (n + 1) ∷ [])) ≡ n + 1 =
          omega (arith, length-append pages (server (n + 1) ∷ [])) in
        rw
          (
            one_more,
            all_of-append pages (server (n + 1)),
            append_assoc (all_of pages) (server (n + 1)) (rest (n + 1)),
          )
          (ap (λ es. all_of pages ++ es) (sym (cuts n)) ∙ h)

    all_loaded :
        (pages : List (List E))
        → IsStart pages
        → length (rest 0) ≤ loaded pages
        → all_of pages ≡ rest 0
    all_loaded pages h enough =
        let nothing = empty_of (rest (length pages)) (omega (arith, counted pages h)) in
        sym (append-nil (all_of pages)) ∙ ap (λ es. all_of pages ++ es) (sym nothing) ∙ h

    -- Where more is left, the next page brings more.
    page_grows :
        (pages : List (List E))
        → IsStart pages
        → loaded pages < length (rest 0)
        → loaded pages + 1 ≤ loaded (pages ++ (server (length pages + 1) ∷ []))
    page_grows pages h more =
        let n = length pages in
        let new_page = fills n (omega (arith, counted pages h)) in
        omega (
          arith,
          new_page,
          length-all_of pages,
          length-all_of (pages ++ (server (n + 1) ∷ [])),
          ap (λ es. length es) (all_of-append pages (server (n + 1))),
          length-append (all_of pages) (server (n + 1)),
        )

    loads_all :
        (fuel : ℕ) (pages : List (List E))
        → IsStart pages
        → length (rest 0) ≤ fuel + loaded pages
        → all_of (load server (length (rest 0)) fuel pages) ≡ rest 0
    unfolding get_next_page_param
    loads_all zero pages h enough = all_loaded pages h (omega arith)
    loads_all (suc fuel) pages h enough = elim (Bool-cases (ltb (loaded pages) (length (rest 0)))) [
      | inl more ↦ rw more (
          let n = length pages in
          loads_all fuel (pages ++ (server (n + 1) ∷ [])) (next-IsStart pages h)
            (omega (arith, enough, page_grows pages h (ground arith))))
      | inr done ↦ rw done (loads_all fuel pages h (ground arith))
    ]

    -- Where no page that the server cuts its events into is empty before the end: starting with the
    -- first page, and loading the next one at most as often as there are events, shows all the events,
    -- each once and in the server's order; and then no further page is asked for.
    pub load-get_next_page_param :
        (all_of (load server (length (rest 0)) (length (rest 0)) (server 1 ∷ [])) ≡ rest 0)
        × (get_next_page_param
              (length (rest 0))
              (load server (length (rest 0)) (length (rest 0)) (server 1 ∷ []))
            ≡ none)
    unfolding get_next_page_param
    load-get_next_page_param =
        let first : IsStart (server 1 ∷ []) = rw (append-nil (server 1)) (sym (cuts 0)) in
        let all = loads_all (length (rest 0)) (server 1 ∷ []) first (omega arith) in
        let pages = load server (length (rest 0)) (length (rest 0)) (server 1 ∷ []) in
        let same : loaded pages ≡ length (rest 0) =
          sym (length-all_of pages) ∙ ap (λ es. length es) all in
        (all, ground (arith, same))
