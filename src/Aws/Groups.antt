-- ===== src/Aws/Groups.antt =====
-- getAllTargetGroups of aws/elb.go: the pages of the target groups.
use registrator.Common.{
  ℕ, zero, suc, ◌<◌, ◌≤◌, ◌≡◌, refl, ◌∙◌, ap, String, Option, none, some, List, [], ◌∷◌, ◌++◌,
  append_assoc, append-nil, length, arith,
}
use registrator.Aws.Api.{TargetGroup}

-- All pages, the error of the first one, the nil dereference at a later one that fails, or a service
-- that has gone on for longer than the fuel.
pub data Paging : Type 0 where
  pages : List (List TargetGroup) → Paging
  page_error : Paging
  nil_page : Paging
  unfinished : Paging

module _ (page : Option String → Option (List TargetGroup × Option String)) where
  abbrev none_page : Option (List TargetGroup × Option String) → Paging → Paging
  none_page none x = nil_page
  none_page (some p) x = x

  -- The loop `for mark != nil`, with the pages so far. The error of a page is looked at after the
  -- page's marker has been read.
  unfoldable pub more_pages : ℕ → Option String → List (List TargetGroup) → Paging
  more_pages fuel none tgs = pages tgs
  more_pages zero (some mark) tgs = unfinished
  more_pages (suc fuel) (some mark) tgs = elim (page (some mark)) [
    | none ↦ nil_page
    | some (tg, next) ↦ more_pages fuel next (tgs ++ tg ∷ [])
  ]

  unfoldable pub get_all_target_groups : ℕ → Paging
  unfolding more_pages
  get_all_target_groups fuel = elim (page none) [
    | none ↦ page_error
    | some (tg, next) ↦ more_pages fuel next (tg ∷ [])
  ]

  -- The service's pages from a marker on: those that it answers with, and the marker that is left.
  abbrev Pages : Option String → List (List TargetGroup) → Option String → Type 0
  Pages mark [] last = mark ≡ last
  Pages mark (p ∷ ps) last =
      (m : String) × (next : Option String) × (mark ≡ some m)
      × (page (some m) ≡ some (p, next))
      × Pages next ps last

  more_pages-all :
      (fuel : ℕ) (mark : Option String) (ps tgs : List (List TargetGroup))
      → length ps ≤ fuel
      → Pages mark ps none
      → more_pages fuel mark tgs ≡ pages (tgs ++ ps)
  unfolding more_pages
  more_pages-all fuel mark [] tgs h e = rw (e, append-nil tgs) refl
  more_pages-all zero mark (p ∷ ps) tgs h c = absurd (omega arith)
  more_pages-all (suc fuel) mark (p ∷ ps) tgs h (m, next, e, e', c) =
      rw (e, more_pages)
        (rw e' (
          more_pages-all fuel next ps (tgs ++ p ∷ []) (omega arith) c
          ∙ ap pages (append_assoc tgs (p ∷ []) ps)))

  more_pages-nil :
      (fuel : ℕ) (mark : Option String) (ps tgs : List (List TargetGroup)) (last : String)
      → length ps < fuel
      → Pages mark ps (some last)
      → page (some last) ≡ none
      → more_pages fuel mark tgs ≡ nil_page
  unfolding more_pages
  more_pages-nil zero mark ps tgs last h c e = absurd (omega arith)
  more_pages-nil (suc fuel) mark [] tgs last h c e = rw (c, more_pages) (rw e refl)
  more_pages-nil (suc fuel) mark (p ∷ ps) tgs last h (m, next, e, e', c) e'' =
      rw (e, more_pages)
        (rw e' (more_pages-nil fuel next ps (tgs ++ p ∷ []) last (omega arith) c e''))

  -- Where the markers come to an end: there is none any more, or its page is an error.
  abbrev Stops : Option String → Type 0
  Stops none = Unit
  Stops (some m) = page (some m) ≡ none

  abbrev stopped : List (List TargetGroup) → Option String → Paging
  stopped ps none = pages ps
  stopped ps (some m) = nil_page

  -- The first page is there, and the markers lead through some more of them to a last marker: all
  -- pages in order are the result if there is none, and if its page is an error, then the code
  -- dereferences nil instead of returning the error. The fuel is more than the pages.
  pub get_all_target_groups_lem :
      (fuel : ℕ) (p : List TargetGroup) (ps : List (List TargetGroup)) (next last : Option String)
      → length ps < fuel
      → page none ≡ some (p, next)
      → Pages next ps last
      → Stops last
      → get_all_target_groups fuel ≡ stopped (p ∷ ps) last
  unfolding get_all_target_groups
  get_all_target_groups_lem fuel p ps next none h e c s =
      rw (e, get_all_target_groups) (more_pages-all fuel next ps (p ∷ []) (omega arith) c)
  get_all_target_groups_lem fuel p ps next (some m) h e c s =
      rw (e, get_all_target_groups) (more_pages-nil fuel next ps (p ∷ []) m h c s)
