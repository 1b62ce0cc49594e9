-- ===== src/Leaflink.antt =====
-- btree_leaflink.hh: the doubly linked list of the leaves of a layer. The `next_` and `prev_`
-- fields of all leaves are two stores under the leaves' addresses, which are even; 0 is null. The
-- lock-free operations mark a `next_` pointer by its lowest bit. Each loop round that another
-- thread makes fail is `none`; no other thread runs in between the steps of an operation.
pub mod Chain
pub mod Refines
pub mod Concurrent
pub mod Examples
use incll.Base.{ℕ, ◌+◌, ◌%◌, Bool, true, false, not, ◌&&◌, ◌==◌, if◌then◌else◌, Option, none, some}

pub record Links : Type 0 where
  pub next : ℕ → ℕ
  pub prev : ℕ → ℕ

unfoldable pub set_next : ℕ → ℕ → Links → Links
set_next n v h = record h { next = λ a. if a == n then v else h.next a }

unfoldable pub set_prev : ℕ → ℕ → Links → Links
set_prev n v h = record h { prev = λ a. if a == n then v else h.prev a }

-- The single-threaded `link_split` and `unlink`
unfoldable pub link_split : ℕ → ℕ → Links → Links
unfolding set_next set_prev
link_split n nr h0 =
    let h1 : Links = set_prev nr n h0 in
    let h2 : Links = set_next nr (h1.next n) h1 in
    let h3 : Links = set_next n nr h2 in if h3.next nr == 0 then h3 else set_prev (h3.next nr) nr h3

unfoldable pub unlink : ℕ → Links → Links
unfolding set_next set_prev
unlink n h0 =
    let h1 : Links = if h0.next n == 0 then h0 else set_prev (h0.next n) (h0.prev n) h0 in
    set_next (h1.prev n) (h1.next n) h1

-- The lock-free ones
unfoldable pub mark : ℕ → ℕ
mark n = n + 1

unfoldable pub is_marked : ℕ → Bool
is_marked n = n % 2 == 1

-- One round of `lock_next`: the pointer, and the store with the pointer marked.
unfoldable pub lock_next : ℕ → Links → Option (ℕ × Links)
unfolding set_next mark is_marked
lock_next n h =
    let next : ℕ = h.next n in
    if next == 0
    then some (next, h)
    else if not (is_marked next)
    then some (next, set_next n (mark next) h)
    else none

unfoldable pub link_locked : ℕ → ℕ → ℕ → Links → Links
unfolding set_next set_prev
link_locked n nr next h1 =
    let h2 : Links = set_next nr next h1 in
    let h3 : Links = if next == 0 then h2 else set_prev next nr h2 in set_next n nr h3

-- What follows a round of `lock_next`.
unfoldable pub and_then : Option (ℕ × Links) → (ℕ → Links → Option Links) → Option Links
and_then none k = none
and_then (some locked) k = k locked.0 locked.1

unfoldable pub link_split_concurrent : ℕ → ℕ → Links → Option Links
unfolding set_prev
link_split_concurrent n nr h0 =
    and_then (lock_next n (set_prev nr n h0)) (λ next h1. some (link_locked n nr next h1))

-- `unlink` once the next pointer is locked: one round of its loop, and what follows.
unfoldable pub unlink_locked : ℕ → ℕ → Links → Option Links
unfolding set_next set_prev mark
unlink_locked n next h1 =
    let prev : ℕ = h1.prev n in
    if h1.next prev == n
    then (let h2 : Links = set_next prev (mark n) h1 in
        let h3 : Links = if next == 0 then h2 else set_prev next prev h2 in
        some (set_next prev next h3))
    else none

unfoldable pub unlink_concurrent : ℕ → Links → Option Links
unlink_concurrent n h0 = and_then (lock_next n h0) (λ next h1. unlink_locked n next h1)
