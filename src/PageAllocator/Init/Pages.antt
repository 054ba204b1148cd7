-- ===== src/PageAllocator/Init/Pages.antt =====
-- The loop of `init` over the pages of a region.
use native.Mathlib.Decide.{ℕ_discrete as dec_eq}
use liballocator.Base.{
  ℕ, zero, suc, ◌+◌, ◌-◌, ◌*◌, ◌^◌, ◌≤◌, ◌<◌, ◌≡◌, ◌≢◌, refl, ap, ◌∙◌, ◌⊎◌, true, false, some,
  arith, ◌==◌,
}
use liballocator.Store.{Ptr, null, Store}
use liballocator.Word.{add}
use liballocator.ListNode.{init_list_node}
use liballocator.ListNode.Add.{IsIdle}
use liballocator.Page.{page_at, next_sibling, set_address}
use liballocator.Page
use liballocator.PageAllocator.Init.{init_pages}

-- Every field of the descriptor at `x` is as it was.
pub record SameAt (s s' : Store) (x : Ptr) : Type 0 where
  pub next : s'.links.next x ≡ s.links.next x
  pub prev : s'.links.prev x ≡ s.links.prev x
  pub address : s'.address x ≡ s.address x
  pub size : s'.group_size x ≡ s.group_size x
  pub flag : s'.used x ≡ s.used x

-- The `c` descriptors from `page` on have no links, and the addresses of pages from `addr` on. No other
-- descriptor has changed.
pub record Started (s s' : Store) (page : Ptr) (c addr page_size : ℕ) : Type 0 where
  pub outside : (x : Ptr) → (x < page) ⊎ (page_at page c ≤ x) → SameAt s s' x
  pub idle : (j : ℕ) → j < c → IsIdle s'.links (page_at page j)
  pub address : (j : ℕ) → j < c → s'.address (page_at page j) ≡ addr + j * page_size

start_page-here :
    (s : Store) (page addr : ℕ)
    → IsIdle (set_address (Page.init s page) page addr).links page
      × ((set_address (Page.init s page) page addr).address page ≡ addr)
unfolding set_address Page.init init_list_node
start_page-here s page addr = ground arith

start_page-other :
    (s : Store) (page addr x : ℕ) → x ≢ page → SameAt s (set_address (Page.init s page) page addr) x
unfolding set_address Page.init init_list_node
start_page-other s page addr x ne = record {
  next = ground arith;
  prev = ground arith;
  address = ground arith;
  size = ground arith;
  flag = ground arith;
}

SameAt-trans : (s t u : Store) (x : Ptr) → SameAt s t x → SameAt t u x → SameAt s u x
SameAt-trans s t u x p q = record {
  next = q.next ∙ p.next;
  prev = q.prev ∙ p.prev;
  address = q.address ∙ p.address;
  size = q.size ∙ p.size;
  flag = q.flag ∙ p.flag;
}

init_pages-next :
    (fuel addr end page_size : ℕ) (page : Ptr) (s : Store)
    → (addr == end) ≡ false
    → (page == null) ≡ false
    → init_pages (suc fuel) addr end page_size page s
      ≡ init_pages fuel
          (add addr page_size)
          end
          page_size
          (next_sibling page)
          (set_address (Page.init s page) page addr)
unfolding init_pages
init_pages-next fuel addr end page_size page s more there = rw (more, there) refl

-- For a region of `c` pages the loop ends with the descriptor behind those of the region.
pub init_pages-Started :
    (c fuel addr end page_size : ℕ) (page : Ptr) (s : Store)
    → c < fuel
    → end ≡ addr + c * page_size
    → end < 2 ^ 64
    → 0 < page_size
    → 0 < page
    → (s' : Store) × (init_pages fuel addr end page_size page s ≡ some (s', page_at page c))
      × Started s s' page c addr page_size
unfolding init_pages
init_pages-Started c zero addr end page_size page s h e small pos low = absurd (omega arith)
init_pages-Started zero (suc fuel) addr end page_size page s h e small pos low =
    let done : (addr == end) ≡ true = ground arith in
    let here : page ≡ page_at page 0 = omega arith in
    (
      s,
      rw done (ap (λ t. some (s, t)) here),
      record {
        outside =
            λ x out. record { next = refl; prev = refl; address = refl; size = refl; flag = refl };
        idle = λ j lt. absurd (omega arith);
        address = λ j lt. absurd (omega arith);
      },
    )
init_pages-Started (suc c) (suc fuel) addr end page_size page s h e small pos low =
    let more : (addr == end) ≡ false = ground arith in
    let s1 = set_address (Page.init s page) page addr in
    let whole : add addr page_size ≡ addr + page_size = omega arith in
    let (s', run, w) =
      init_pages-Started c fuel (addr + page_size) end page_size (next_sibling page) s1
        (omega arith) (omega arith) small pos (omega arith) in
    let (idle, at) = start_page-here s page addr in
    let behind : page_at (next_sibling page) c ≡ page_at page (suc c) = omega arith in
    let kept = w.outside page (omega arith) in
    (
      s',
      init_pages-next fuel addr end page_size page s more (ground arith)
          ∙ (ap (λ t. init_pages fuel t end page_size (next_sibling page) s1) whole
              ∙ (run ∙ ap (λ t. some (s', t)) behind)),
      record {
        outside = λ x out.
            SameAt-trans s s1 s' x (start_page-other s page addr x (omega arith))
              (w.outside x (omega arith));
        idle = λ j lt. elim (dec_eq j 0) [
          | yes first ↦
              let here : page_at page j ≡ page = omega arith in
              rw here (kept.next ∙ idle.0, kept.prev ∙ idle.1)
          | no later ↦
              let there : page_at page j ≡ page_at (next_sibling page) (j - 1) = omega arith in
              rw there (w.idle (j - 1) (omega arith))
        ];
        address = λ j lt. elim (dec_eq j 0) [
          | yes first ↦
              let here : page_at page j ≡ page = omega arith in
              omega (arith, ap s'.address here, kept.address, at, ap (λ t. t * page_size) first)
          | no later ↦
              let there : page_at page j ≡ page_at (next_sibling page) (j - 1) = omega arith in
              let back : j ≡ suc (j - 1) = omega arith in
              omega (
                arith,
                ap s'.address there,
                w.address (j - 1) (omega arith),
                ap (λ t. t * page_size) back,
              )
        ];
      },
    )
