-- ===== src/Cpu/Pages.antt =====
-- go/models/cpu/page.go: a list of pages and its binary search.
use usercorn.Base.{
  ℕ, zero, suc, ◌+◌, ◌-◌, ◌/◌, List, Option, none, some, length, get_elem?, ltb, leb, if◌then◌else◌,
}
use usercorn.Cpu.Page.{Page, page_end}

-- What the search makes of the page in the middle; `lower` and `upper` are its next rounds.
abbrev pub probe : ℕ → ℕ → Option Page → Option ℕ → Option ℕ → Option ℕ
probe a mid none lower upper = none
probe a mid (some e) lower upper =
    if leb e.addr a then (if ltb a (page_end e) then some mid else upper) else lower

-- `hi` is the source's r + 1, so that -1 is 0; -1 as a result is `none`. A round takes at least one
-- page off the range, so that as many rounds as there are pages are enough.
unfoldable pub bsearch_loop : ℕ → List Page → ℕ → ℕ → ℕ → Option ℕ
bsearch_loop zero ps a l hi = none
bsearch_loop (suc fuel) ps a l hi =
    let mid = (l + (hi - 1)) / 2 in
    let lower = bsearch_loop fuel ps a l mid in
    let upper = bsearch_loop fuel ps a (mid + 1) hi in
    if ltb l hi then probe a mid (get_elem? ps mid) lower upper else none

unfoldable pub bsearch : List Page → ℕ → Option ℕ
bsearch ps a = bsearch_loop (length ps) ps a 0 (length ps)

abbrev at_index : List Page → Option ℕ → Option Page
at_index ps none = none
at_index ps (some i) = get_elem? ps i

unfoldable pub find : List Page → ℕ → Option Page
find ps a = at_index ps (bsearch ps a)
