-- ===== src/PageAllocator/Init/Overwrite.antt =====
-- `addGroup` writes the flags of all pages of the group, so it does not matter what they were.
use native.Mathlib.Decide.{ℕ_discrete as dec_eq}
use liballocator.Base.{
  ℕ, zero, suc, ◌+◌, ◌≤◌, ◌<◌, ◌≡◌, ◌≢◌, refl, ap, inl, inr, Bool, false, arith, ◌==◌, update,
  Bool-cases,
}
use liballocator.Store.{Ptr, Store}
use liballocator.Page.{page_at, set_used}
use liballocator.ListNode.{add_to_list}
use liballocator.Word.{add}
use liballocator.Group.{group_idx, split_group}
use liballocator.PageAllocator.{PageAllocator, set_used_loop, add_group}
use liballocator.PageAllocator.Flags.{
  set_used_loop-group_size, set_used_loop-links, set_used_loop-address,
}

-- The memory with other flags.
abbrev pub flagged : Store → (Ptr → Bool) → Store
flagged s u = record s { used = u }

-- The flags agree away from `n` pages of a group.
abbrev pub AgreeOff : Ptr → ℕ → ℕ → (Ptr → Bool) → (Ptr → Bool) → Type 0
AgreeOff g i n u w = (x : Ptr) → ((k : ℕ) → i ≤ k → k < i + n → x ≢ page_at g k) → u x ≡ w x

-- The flags that the loop writes do not depend on what they were.
pub set_used_loop-flagged :
    (g : Ptr) (v : Bool) (n i : ℕ) (s : Store) (u : Ptr → Bool)
    → AgreeOff g i n u s.used
    → set_used_loop n (flagged s u) g i v ≡ set_used_loop n s g i v
unfolding set_used_loop set_used
set_used_loop-flagged g v zero i s u agree =
    let same : u ≡ s.used = λ j x. agree x (λ k h l. absurd (omega arith)) j in ap (flagged s) same
set_used_loop-flagged g v (suc n) i s u agree =
    set_used_loop-flagged g v n (i + 1) (set_used s (page_at g i) v) (update u (page_at g i) v)
      λ x off. elim (dec_eq x (page_at g i)) [
        | yes here ↦ ground arith
        | no other ↦ ground (
          arith,
          agree x (λ k h l. elim (dec_eq k i) [
            | yes e ↦ λ at. other (omega arith)
            | no later ↦ off k (omega arith) (omega arith)
          ]),
        )
      ]

-- `splitGroup` does not look at the flags.
pub split_group-flagged :
    (s : Store) (g : Ptr) (n : ℕ) (u : Ptr → Bool)
    → (split_group (flagged s u) g n).0 ≡ flagged (split_group s g n).0 u
unfolding split_group
split_group-flagged s g n u = elim (Bool-cases (n == s.group_size g)) [
  | inl whole ↦ rw whole refl
  | inr part ↦ rw part refl
]

pub add_group-flagged :
    (a : PageAllocator) (g : Ptr) (u : Ptr → Bool)
    → AgreeOff g 0 (a.store.group_size g) u a.store.used
    → add_group (record a { store = flagged a.store u }) g ≡ add_group a g
unfolding add_group
add_group-flagged a g u agree =
    let size = a.store.group_size g in
    let idx = group_idx size in
    let (links, head) = add_to_list a.store.links g (a.free_group_lists idx) in
    ap
      (λ (s : Store). record a {
        free_group_lists = update a.free_group_lists idx head;
        free_pages_count = add a.free_pages_count size;
        store = s;
      })
      (set_used_loop-flagged g false size 0 (record (a.store) { links = links }) u agree)

-- The loop writes nothing but flags.
pub set_used_loop-flags :
    (g : Ptr) (v : Bool) (n : ℕ) (s : Store) (i : ℕ)
    → set_used_loop n s g i v ≡ flagged s (set_used_loop n s g i v).used
set_used_loop-flags g v n s i = λ j. record {
  links = set_used_loop-links g v n s i j;
  address = set_used_loop-address g v n s i j;
  group_size = set_used_loop-group_size g v n s i j;
  used = (set_used_loop n s g i v).used;
}
