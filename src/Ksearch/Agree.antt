-- ===== src/Ksearch/Agree.antt =====
-- The searches as wholes.
use incll.Base.{ℕ, ◌≡◌, arith}
use incll.Ksearch.{
  Sign, key_upper_bound_by, key_lower_bound_by, key_find_upper_bound_by, key_find_lower_bound_by,
}
use incll.Ksearch.Bounds.{IsSorted, IsUpper, IsLower, IsUpper-unique, IsLower-unique}
use incll.Ksearch.Loops.{
  upper_loop-IsUpper, lower_loop-IsLower, find_upper_loop-IsUpper, find_lower_loop-IsLower,
}

module _ (perm : ℕ → ℕ) (comparator : ℕ → Sign) (size : ℕ)
    (sorted : IsSorted perm comparator size) where
  -- Among strictly increasing keys, the binary search ends with the first position whose key is
  -- above the wanted one, and the linear search with the same.
  pub key_upper_bound_by_lem :
      IsUpper perm comparator size (key_upper_bound_by perm comparator size)
      × (key_upper_bound_by perm comparator size ≡ key_find_upper_bound_by perm comparator size)
  unfolding key_upper_bound_by key_find_upper_bound_by
  key_upper_bound_by_lem =
      let u =
        upper_loop-IsUpper perm comparator size sorted size 0 size (omega arith) (omega arith)
          (omega arith) (λ j h. absurd (omega arith)) (λ j h k. absurd (omega arith)) in
      (
        u,
        IsUpper-unique perm comparator size sorted _ _ u (
            find_upper_loop-IsUpper perm comparator size sorted size 0 (omega arith) (omega arith)
              (λ j h. absurd (omega arith))),
      )

  -- Among strictly increasing keys, the binary search ends at the wanted key with its slot, or with
  -- no slot at the first greater key, and the linear search with the same.
  pub key_lower_bound_by_lem :
      IsLower perm comparator size (key_lower_bound_by perm comparator size)
      × (key_lower_bound_by perm comparator size ≡ key_find_lower_bound_by perm comparator size)
  unfolding key_lower_bound_by key_find_lower_bound_by
  key_lower_bound_by_lem =
      let u =
        lower_loop-IsLower perm comparator size sorted size 0 size (omega arith) (omega arith)
          (omega arith) (λ j h. absurd (omega arith)) (λ j h k. absurd (omega arith)) in
      (
        u,
        IsLower-unique perm comparator size sorted _ _ u (
            find_lower_loop-IsLower perm comparator size sorted size 0 (omega arith) (omega arith)
              (λ j h. absurd (omega arith))),
      )
