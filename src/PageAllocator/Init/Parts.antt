-- ===== src/PageAllocator/Init/Parts.antt =====
-- What `init` does with the group of a region: all of it free, the rest behind the reserved pages free,
-- or all of it reserved.
use mathlib.Core.Path.{subst}
use native.Mathlib.Decide.{dec_lt}
use liballocator.PageAllocator.Blocks.Together.{Together}
use liballocator.Base.{
  ℕ, suc, ◌≤◌, inl, inr, Bool, false, ◌+◌, ◌-◌, ◌^◌, ◌<◌, ◌≡◌, refl, sym, ap, ◌∙◌, true, List, [],
  ◌∷◌, ◌++◌, append_assoc, arith,
}
use liballocator.Store.{Ptr, Store}
use liballocator.Page.{page_at}
use liballocator.Group.{init_group, split_group}
use liballocator.Group.Sizes.{group_size-init_group, split_group-used, split_group-IsSplit}
use liballocator.PageAllocator.{PageAllocator, set_used_loop, add_group}
use liballocator.PageAllocator.Blocks.{Block}
use liballocator.PageAllocator.Split.{used_block, split_group-Inv}
use liballocator.PageAllocator.Add.{add_group-Inv, listed}
use liballocator.PageAllocator.Remove.{marked}
use liballocator.PageAllocator.Invariant.{Inv}
use liballocator.PageAllocator.Init.Overwrite.{
  flagged, add_group-flagged, split_group-flagged, set_used_loop-flags,
}
use liballocator.PageAllocator.Init.Pages.{Started}
use liballocator.PageAllocator.Init.Extend.{upto, Extended, extend-Inv}
use liballocator.PageAllocator.Init.Fresh.{
  used_group, used_group-Fresh, used_group-size, set_used_loop-off, set_used_loop-append,
}

add_group-upto : (a : PageAllocator) (g n : ℕ) → add_group (upto a n) g ≡ upto (add_group a g) n
unfolding add_group
add_group-upto a g n = refl

module _ (a : PageAllocator) (s1 : Store) (m c addr : ℕ) (bs : List Block) (ls : ℕ → List Ptr)
    (v : Inv (upto a m) bs ls) (pos : 0 < c) (few : m + c < 2 ^ 21)
    (high : page_at a.pages_head (m + c) < 2 ^ 64)
    (w : Started a.store s1 (page_at a.pages_head m) c addr a.page_size) where
  page : Ptr
  page = page_at a.pages_head m

  s2 : Store
  unfolding page
  s2 = init_group s1 page c

  used_Inv :
      Inv
        (upto (record a { store = used_group s1 (page_at a.pages_head m) c }) (m + c))
        (bs ++ used_block (page_at a.pages_head m) c ∷ [])
        ls
  used_Inv = extend-Inv a _ m c bs ls v pos few high (
      used_group-Fresh a.store s1 (page_at a.pages_head m) c addr a.page_size pos (omega arith)
        (omega arith) w)

  -- Two neighbouring pages of the region are in its group.
  one_block :
      (f : Bool) (k : ℕ)
      → m ≤ k
      → suc k < m + c
      → Together a.pages_head (record { ptr = page_at a.pages_head m; size = c; free = f } ∷ []) k
  one_block f k low up = inl (inl (omega arith, omega arith))

  -- All of it reserved.
  pub reserved-Extended :
      Extended
        (upto (record a { store = used_group s1 (page_at a.pages_head m) c }) (m + c))
        a.pages_head
        m
        c
        bs
  reserved-Extended = (_, ls, used_Inv, one_block false)

  -- All of it free.
  pub free-Extended :
      Extended
        (upto
          (add_group
            (record a { store = init_group s1 (page_at a.pages_head m) c })
            (page_at a.pages_head m))
          (m + c))
        a.pages_head
        m
        c
        bs
  unfolding page s2
  free-Extended =
      let s3 = used_group s1 page c in
      let b = record a { store = s2 } in
      let size : s2.group_size page ≡ c =
        ground (arith, group_size-init_group s1 page c pos (omega arith) (omega arith) page) in
      let same : add_group (record a { store = s3 }) page ≡ add_group b page =
        ap (λ s. add_group (record a { store = s }) page) (set_used_loop-flags page true c s2 0)
        ∙ add_group-flagged b page s3.used
            λ x off. set_used_loop-off page true c s2 0 x λ k h l. off k h (omega (arith, size)) in
      subst (λ t. Extended t a.pages_head m c bs)
        (add_group-upto (record a { store = s3 }) page (m + c) ∙ ap (λ t. upto t (m + c)) same)
        (
          _,
          _,
          add_group-Inv (upto (record a { store = s3 }) (m + c)) bs [] (used_block page c) ls
              used_Inv refl,
          one_block true,
        )

  -- The rest behind the first `r` pages free.
  module _ (r d : ℕ) (posr : 0 < r) (posd : 0 < d) (cut : c ≡ r + d) where
    marks : Store
    unfolding s2
    marks = set_used_loop r s2 page 0 true

    parts : Store
    unfolding page marks
    parts = (split_group marks page r).0

    size_page : marks.group_size page ≡ r + d
    unfolding marks s2 page
    size_page = used_group-size s1 page c r pos (omega arith) (omega arith) ∙ cut

    size_rest : parts.group_size (page_at page r) ≡ d
    unfolding parts page marks
    size_rest =
        (split_group-IsSplit marks page r d posr posd (omega arith) (omega arith) size_page).second

    flags_behind :
        (split_group (used_group s1 page c) page r).0
        ≡ flagged parts (set_used_loop d marks page (0 + r) true).used
    unfolding parts marks s2 page
    flags_behind =
        ap (λ s. (split_group s page r).0)
          (set_used_loop-append page true r d c s2 0 cut
            ∙ set_used_loop-flags page true d marks (0 + r))
        ∙ split_group-flagged marks page r (set_used_loop d marks page (0 + r) true).used

    rest_added :
        add_group
          (record a { store = (split_group (used_group s1 page c) page r).0 })
          (page_at page r)
        ≡ add_group (record a { store = parts }) (page_at page r)
    unfolding parts marks s2 page
    rest_added =
        ap (λ s. add_group (record a { store = s }) (page_at page r)) flags_behind
        ∙ add_group-flagged (record a { store = parts }) (page_at page r) _
            λ x off.
              set_used_loop-off page true d marks (0 + r) x
                (λ k h l e. off (k - r) (omega arith) (omega (arith, size_rest)) (omega (arith, e)))
              ∙ sym (ap (λ f. f x) ((split_group-used marks page r).0))

    split_Inv :
        Inv
          (upto (record a { store = (split_group (used_group s1 page c) page r).0 }) (m + c))
          ((bs ++ used_block page r ∷ []) ++ used_block (page_at page r) d ∷ [])
          ls
    unfolding page
    split_Inv =
        let whole =
          subst
            (λ t.
              Inv (upto (record a { store = used_group s1 page c }) (m + c))
                (bs ++ used_block page t ∷ []) ls)
            cut used_Inv in
        let halves =
          split_group-Inv (upto (record a { store = used_group s1 page c }) (m + c)) bs [] page r d
            ls posr posd whole in
        subst
          (λ t.
            Inv (upto (record a { store = (split_group (used_group s1 page c) page r).0 }) (m + c))
              t ls)
          (sym (append_assoc bs (used_block page r ∷ []) (used_block (page_at page r) d ∷ [])))
          halves

    pub rest-Extended :
        Extended
          (upto
            (add_group
              (record a {
                store =
                    (split_group
                      (set_used_loop r
                        (init_group s1 (page_at a.pages_head m) c)
                        (page_at a.pages_head m)
                        0
                        true)
                      (page_at a.pages_head m)
                      r).0;
              })
              (page_at (page_at a.pages_head m) r))
            (m + c))
          a.pages_head
          m
          c
          bs
    unfolding page s2 marks parts
    rest-Extended =
        let b = record a { store = (split_group (used_group s1 page c) page r).0 } in
        let rest = used_block (page_at page r) d in
        subst (λ t. Extended t a.pages_head m c bs)
          (add_group-upto b (page_at page r) (m + c) ∙ ap (λ t. upto t (m + c)) rest_added)
          (
            _,
            _,
            subst (λ t. Inv (add_group (upto b (m + c)) (page_at page r)) t (listed ls rest))
                (append_assoc bs (used_block page r ∷ []) (marked rest true ∷ []))
                (add_group-Inv (upto b (m + c)) (bs ++ used_block page r ∷ []) [] rest ls split_Inv
                  refl),
            λ k low up. elim (dec_lt k (m + r)) [
              | yes front ↦ inr (inl (refl, omega arith, omega arith))
              | no from ↦ inl (inr (inl (omega arith, omega arith)))
            ],
          )
