-- ===== src/PageAllocator/Init/Fresh.antt =====
-- The descriptors of a region behind `initGroup`, with the flags of used pages.
use liballocator.Base.{
  ℕ, zero, suc, ◌+◌, ◌-◌, ◌*◌, ◌^◌, ◌≤◌, ◌<◌, ◌≡◌, ◌≢◌, refl, ap, ◌∙◌, Bool, true, arith,
}
use liballocator.Store.{Ptr, Store}
use liballocator.Page.{page_at, set_used}
use liballocator.Group.{init_group}
use liballocator.Group.Sizes.{group_size-init_group}
use liballocator.PageAllocator.{set_used_loop}
use liballocator.PageAllocator.Flags.{
  set_used_loop-group_size, set_used_loop-links, set_used_loop-outside, set_used_loop-inside,
}
use liballocator.PageAllocator.Init.Pages.{Started}
use liballocator.PageAllocator.Init.Extend.{Fresh}

-- The group of `c` pages from `page` on with the flags of used pages.
abbrev pub used_group : Store → Ptr → ℕ → Store
used_group s page c = set_used_loop c (init_group s page c) page 0 true

-- What the loop over flags does to a page that is none of those that it reaches.
pub set_used_loop-off :
    (g : Ptr) (v : Bool) (n : ℕ) (s : Store) (i x : ℕ)
    → ((k : ℕ) → i ≤ k → k < i + n → x ≢ page_at g k)
    → (set_used_loop n s g i v).used x ≡ s.used x
unfolding set_used_loop set_used
set_used_loop-off g v zero s i x off = refl
set_used_loop-off g v (suc n) s i x off =
    set_used_loop-off g v n (set_used s (page_at g i) v) (i + 1) x
      (λ k h l. off k (omega arith) (omega arith))
    ∙ ground (arith, off i (omega arith) (omega arith))

-- The loop over the flags of `n + m` pages is one over `n` and one over the `m` behind them.
pub set_used_loop-append :
    (g : Ptr) (v : Bool) (n m t : ℕ) (s : Store) (i : ℕ)
    → t ≡ n + m
    → set_used_loop t s g i v ≡ set_used_loop m (set_used_loop n s g i v) g (i + n) v
unfolding set_used_loop
set_used_loop-append g v zero m t s i e =
    let all : t ≡ m = omega arith in
    let here : i ≡ i + 0 = omega arith in
    ap (λ k. set_used_loop k s g i v) all ∙ ap (λ k. set_used_loop m s g k v) here
set_used_loop-append g v (suc n) m zero s i e = absurd (omega arith)
set_used_loop-append g v (suc n) m (suc t) s i e =
    let there : i + 1 + n ≡ i + suc n = omega arith in
    set_used_loop-append g v n m t (set_used s (page_at g i) v) (i + 1) (omega arith)
    ∙ ap (λ k. set_used_loop m (set_used_loop n (set_used s (page_at g i) v) g (i + 1) v) g k v)
        there

init_group-links : (s : Store) (g : Ptr) (n : ℕ) → (init_group s g n).links ≡ s.links
unfolding init_group
init_group-links s g n = refl

init_group-flags : (s : Store) (g : Ptr) (n : ℕ) → (init_group s g n).used ≡ s.used
unfolding init_group
init_group-flags s g n = refl

module _ (s s1 : Store) (page : Ptr) (c addr page_size : ℕ) (pos : 0 < c) (small : c < 2 ^ 21)
    (high : page_at page c < 2 ^ 64) (w : Started s s1 page c addr page_size) where
  links : (used_group s1 page c).links ≡ s1.links
  links = set_used_loop-links page true c (init_group s1 page c) 0 ∙ init_group-links s1 page c

  size_at : (x : Ptr) → (used_group s1 page c).group_size x ≡ (init_group s1 page c).group_size x
  size_at x = ap (λ f. f x) (set_used_loop-group_size page true c (init_group s1 page c) 0)

  pub used_group-Fresh : Fresh s (used_group s1 page c) page c
  used_group-Fresh = record {
    next = λ x out. ap (λ l. l.next x) links ∙ (w.outside x out).next;
    prev = λ x out. ap (λ l. l.prev x) links ∙ (w.outside x out).prev;
    sizes = λ x out.
        size_at x
        ∙ ground (arith, group_size-init_group s1 page c pos small high x, (w.outside x out).size);
    flags = λ x out.
        set_used_loop-outside page true c (init_group s1 page c) 0 x (omega arith)
        ∙ (ap (λ f. f x) (init_group-flags s1 page c) ∙ (w.outside x out).flag);
    idle = λ j lt. rw links (w.idle j lt);
    first = size_at page ∙ ground (arith, group_size-init_group s1 page c pos small high page);
    last =
        size_at (page + 32 * c - 32)
        ∙ ground (arith, group_size-init_group s1 page c pos small high (page + 32 * c - 32));
    used = λ j lt.
        set_used_loop-inside page true c (init_group s1 page c) 0 j (omega arith) (omega arith);
  }

-- The flags are no sizes.
pub used_group-size :
    (s : Store) (g : Ptr) (c r : ℕ)
    → 0 < c
    → c < 2 ^ 21
    → page_at g c < 2 ^ 64
    → (set_used_loop r (init_group s g c) g 0 true).group_size g ≡ c
used_group-size s g c r pos small high =
    ap (λ f. f g) (set_used_loop-group_size g true r (init_group s g c) 0)
    ∙ ground (arith, group_size-init_group s g c pos small high g)
