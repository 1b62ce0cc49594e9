-- ===== src/Leaflink/Concurrent.antt =====
-- The lock-free operations, run without interference, against the single-threaded ones.
use mathlib.Core.Path.{fun_ext}
use incll.Base.{
  ℕ, ◌≡◌, ◌≢◌, refl, ap, arith, true, false, not, ◌||◌, ◌==◌, ==_iff, ==_ne, if◌then◌else◌, none,
  some, Bool-cases, inl, inr,
}
use incll.Leaflink.{
  Links, set_next, set_prev, mark, is_marked, lock_next, link_split, unlink, link_split_concurrent,
  unlink_concurrent, unlink_locked, link_locked, and_then,
}

Links-ext :
    (h k : Links) → ((a : ℕ) → h.next a ≡ k.next a) → ((a : ℕ) → h.prev a ≡ k.prev a) → h ≡ k
Links-ext h k e f = λ i. record { next = fun_ext e i; prev = fun_ext f i }

lock_null : (q : ℕ) (h : Links) → h.next q ≡ 0 → lock_next q h ≡ some (h.next q, h)
unfolding lock_next
lock_null q h e = rw ((==_iff _ _).1 e) refl

lock_open :
    (q : ℕ) (h : Links)
    → (h.next q == 0) ≡ false
    → is_marked (h.next q) ≡ false
    → lock_next q h ≡ some (h.next q, set_next q (mark (h.next q)) h)
unfolding lock_next is_marked
lock_open q h e m = rw (e, m) refl

lock_spins : (q : ℕ) (h : Links) → is_marked (h.next q) ≡ true → lock_next q h ≡ none
unfolding lock_next is_marked
lock_spins q h m = let e : (h.next q == 0) ≡ false = ground arith in rw (e, m) refl

null-is_marked : (a : ℕ) → a ≡ 0 → is_marked a ≡ false
unfolding is_marked
null-is_marked a e = ground arith

-- The lock-free `link_split` spins while the next pointer of the leaf is marked, and stores what
-- the single-threaded one does otherwise.
pub link_split_concurrent_lem :
    (q nr : ℕ) (h : Links)
    → nr ≢ q
    → link_split_concurrent q nr h
      ≡ (if is_marked (h.next q) then none else some (link_split q nr h))
unfolding link_split_concurrent link_split and_then link_locked
link_split_concurrent_lem q nr h new =
    let k : Links = set_prev nr q h in
    elim (Bool-cases (is_marked (h.next q))) [
      | inl m ↦ rw (m, lock_spins q k m) refl
      | inr m ↦ elim (Bool-cases (h.next q == 0)) [
        | inl z ↦
            rw (m, lock_null q k ((==_iff _ _).0 z))
              (ap some (Links-ext _ _ (λ a. ground (arith, new)) (λ a. ground (arith, new, z))))
        | inr z ↦
            rw (m, lock_open q k z m)
              (ap some (Links-ext _ _ (λ a. ground (arith, new)) (λ a. ground (arith, new, z))))
      ]
    ]

-- The lock-free `unlink` spins while the next pointer of the leaf is marked, or while the leaf
-- before it does not point to it; otherwise it stores what the single-threaded one does, but that
-- the next pointer of the leaf taken out stays marked.
pub unlink_concurrent_lem :
    (q : ℕ) (h : Links)
    → h.prev q ≢ q
    → h.next q ≢ q
    → unlink_concurrent q h ≡ (
        if is_marked (h.next q) || not (h.next (h.prev q) == q)
        then none
        else some (if h.next q == 0 then unlink q h else set_next q (mark (h.next q)) (unlink q h)))
unfolding unlink_concurrent unlink and_then unlink_locked
unlink_concurrent_lem q h other ahead = elim (Bool-cases (is_marked (h.next q))) [
  | inl m ↦ rw (m, lock_spins q h m) refl
  | inr m ↦
      let apart = ==_ne (h.prev q) q other in
      elim (Bool-cases (h.next (h.prev q) == q)) [
        | inr b ↦ elim (Bool-cases (h.next q == 0)) [
          | inl z ↦ rw (m, lock_null q h ((==_iff _ _).0 z), b) refl
          | inr z ↦ rw (m, lock_open q h z m, apart, b) refl
        ]
        | inl b ↦ elim (Bool-cases (h.next q == 0)) [
          | inl z ↦
              rw (m, lock_null q h ((==_iff _ _).0 z), b, z)
                (ap some
                  (Links-ext _ _ (λ a. ground (arith, other)) (λ a. ground (arith, other, z))))
          | inr z ↦
              rw (m, lock_open q h z m, apart, b, z)
                (ap some (
                  Links-ext _ _ (λ a. ground (arith, other, ahead))
                    (λ a. ground (arith, other, ahead))))
        ]
      ]
]
