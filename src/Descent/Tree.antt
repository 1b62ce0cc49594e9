-- ===== src/Descent/Tree.antt =====
-- What it is for a store to hold the B+-tree of a layer.
use incll.Base.{ℕ, zero, suc, ◌-◌, ◌≤◌, ◌<◌, ◌≡◌, ◌≢◌, ◌⊎◌, true, false, ◌==◌, if◌then◌else◌}
use incll.Nodeversion
use incll.Descent.{Store}

abbrev pub IsClean : ℕ → Type 0
IsClean v = Nodeversion.has v Nodeversion.dirty_mask ≡ false

module _ (s : Store) where
  -- The least slice that child `j` of the node `a` may hold, where `a` may hold those from `lo` on
  abbrev pub lower : ℕ → ℕ → ℕ → ℕ
  lower a lo j = if j == 0 then lo else (s.inner a).ikey0 (j - 1)

  -- The least slice above those that child `j` may hold
  abbrev pub above : ℕ → ℕ → ℕ → ℕ
  above a hi j = if j == (s.inner a).nkeys then hi else (s.inner a).ikey0 j

  pub record IsInner (a : ℕ) : Type 0 where
    pub clean : IsClean (s.version a)
    pub kind : Nodeversion.isleaf (s.version a) ≡ false
    pub increasing :
        (i j : ℕ) → i < j → j < (s.inner a).nkeys → (s.inner a).ikey0 i < (s.inner a).ikey0 j
    pub children : (j : ℕ) → j ≤ (s.inner a).nkeys → (s.inner a).child j ≢ 0

  module _ (Tip : ℕ → ℕ → ℕ → Type 0) where
    pub record IsTip (a lo hi : ℕ) : Type 0 where
      pub clean : IsClean (s.version a)
      pub kind : Nodeversion.isleaf (s.version a) ≡ true
      pub content : Tip a lo hi

    -- The node at `a` and those below it, at most `h` levels of internodes, hold the slices from
    -- `lo` on that are less than `hi`, each in the leaf that the keys above tell.
    abbrev pub IsTree : ℕ → ℕ → ℕ → ℕ → Type 0
    IsTree zero a lo hi = IsTip a lo hi
    IsTree (suc h) a lo hi =
        IsTip a lo hi
        ⊎ (IsInner a
            × ((j : ℕ)
                → j ≤ (s.inner a).nkeys
                → IsTree h ((s.inner a).child j) (lower a lo j) (above a hi j)))

    -- The root of the layer is `n` parents up from `a`.
    abbrev pub IsBelow : ℕ → ℕ → ℕ → Type 0
    IsBelow zero a root =
        (a ≡ root) × IsClean (s.version a) × (Nodeversion.is_root (s.version a) ≡ true)
    IsBelow (suc n) a root =
        IsClean (s.version a)
        × (Nodeversion.is_root (s.version a) ≡ false)
        × (s.parent a ≢ 0)
        × IsBelow n (s.parent a) root
