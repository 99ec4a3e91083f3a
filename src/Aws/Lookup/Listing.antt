-- ===== src/Aws/Lookup/Listing.antt =====
-- getAllTargetGroups of aws/elb.go answers with groups that AWS lists.
use registrator.Common.{
  ℕ, zero, suc, ◌≡◌, inl, inr, String, Option, none, some, List, [], ◌∷◌, ◌++◌, All, Option-cases,
}
use registrator.Common.Lists.{All-append}
use registrator.Aws.Api.{TargetGroup, Cached, target_groups}
use registrator.Aws.Groups.{
  Paging, pages, page_error, nil_page, unfinished, more_pages, get_all_target_groups,
}

module _ (page : Option String → Option (List TargetGroup × Option String))
    (Listed : TargetGroup → Type 0)
    (lists : (mark : Option String) (tgs : List TargetGroup) (next : Option String)
      → page mark ≡ some (tgs, next)
      → All Listed tgs) where
  -- Where the pages are a list, AWS lists the groups on them.
  abbrev pub AllListed : Paging → Type 0
  AllListed (pages ps) = All (All Listed) ps
  AllListed page_error = Unit
  AllListed nil_page = Unit
  AllListed unfinished = Unit

  more_pages-AllListed :
      (n : ℕ) (mark : Option String) (ps : List (List TargetGroup))
      → All (All Listed) ps
      → AllListed (more_pages page n mark ps)
  unfolding more_pages
  more_pages-AllListed n none ps h = h
  more_pages-AllListed zero (some mark) ps h = tt
  more_pages-AllListed (suc n) (some mark) ps h = elim (Option-cases (page (some mark))) [
    | inl e ↦ rw (e, more_pages) tt
    | inr ((tgs, next), e) ↦
        rw (e, more_pages)
          (more_pages-AllListed n next (ps ++ tgs ∷ [])
            (All-append (All Listed) ps (tgs ∷ []) h (lists (some mark) tgs next e, tt)))
  ]

  pub get_all-AllListed : (n : ℕ) → AllListed (get_all_target_groups page n)
  unfolding get_all_target_groups
  get_all-AllListed n = elim (Option-cases (page none)) [
    | inl e ↦ rw (e, get_all_target_groups) tt
    | inr ((tgs, next), e) ↦
        rw (e, get_all_target_groups)
          (more_pages-AllListed n next (tgs ∷ []) (lists none tgs next e, tt))
  ]

  -- The same of the pages in the cache.
  abbrev pub ListedIn : Cached → Type 0
  ListedIn (target_groups ps) = All (All Listed) ps
  ListedIn _ = Unit
