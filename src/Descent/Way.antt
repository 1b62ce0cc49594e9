-- ===== src/Descent/Way.antt =====
-- `node_base<P>::reach_leaf`: the reads of the shared memory by which a search comes to a node.
use incll.Base.{ℕ, ◌-◌, ◌≤◌, ◌<◌, ◌≡◌, ◌≢◌, true, false}
use incll.Nodeversion
use incll.Ksearch.{Sign}
use incll.Ksearch.Bounds.{rank}
use incll.Descent.{Store, compare_key, upper}
use incll.Descent.Tree.{IsClean}

-- The reads at the times from `from` on and before `until`
module _ (mem : ℕ → Store) (from until ikey : ℕ) where
  -- At the time `u` the node `n` had the clean version `v`.
  pub record IsRead (n v u : ℕ) : Type 0 where
    pub start : from ≤ u
    pub version : (mem u).version n ≡ v
    pub clean : IsClean v

  -- The slice `ikey`, compared with the last key that `n` had at the time `u`
  abbrev pub last_compare : ℕ → ℕ → Sign
  last_compare n u = compare_key ikey ((mem u).inner n) (((mem u).inner n).nkeys - 1)

  -- A way to the node `n`, of which the version `v` is read at the time `u`:
  -- `top`: the node is the root of the layer.
  -- `down`: the way leads to the internode `p`, with the version `vp`. After that is read, the keys
  --   of `p` are searched, then the child of that index is read, which is not null, then its
  --   version, and the version of `p` that is read after it has not changed.
  -- `again`: the version is read again, and the node has not split between the two.
  -- `within`: the version is read again. From then on there is a version such that the slice is not
  --   above the last key of the node that is read after it, and the version that is read after that
  --   key has not changed.
  pub data Way : ℕ → ℕ → ℕ → Type 0 where
    top : (n v u : ℕ) → IsRead n v u → Nodeversion.is_root v ≡ true → Way n v u
    down :
        (p vp u0 kp u1 c u2 w u3 u4 : ℕ)
        → Way p vp u0
        → Nodeversion.isleaf vp ≡ false
        → u0 < u1
        → kp ≡ upper ikey ((mem u1).inner p)
        → u1 < u2
        → c ≡ ((mem u2).inner p).child kp
        → c ≢ 0
        → u2 < u3
        → IsRead c w u3
        → u3 < u4
        → u4 < until
        → Nodeversion.has_changed ((mem u4).version p) vp ≡ false
        → Way c w u3
    again :
        (n old u0 v u : ℕ)
        → Way n old u0
        → u0 < u
        → IsRead n v u
        → Nodeversion.has_split old v ≡ false
        → Way n v u
    within :
        (n old u0 v u w u1 u2 u3 : ℕ)
        → Way n old u0
        → u0 < u
        → IsRead n v u
        → u ≤ u1
        → IsRead n w u1
        → u1 < u2
        → rank (last_compare n u2) ≤ 1
        → u2 < u3
        → u3 < until
        → Nodeversion.has_changed ((mem u3).version n) w ≡ false
        → Way n v u

  -- What a search has read when it is at a position
  pub record Seen (n v : ℕ) : Type 0 where
    pub at : ℕ
    pub read : IsRead n v at
    pub way : Way n v at

  pub record Searched (n v kp : ℕ) : Type 0 where
    pub seen : Seen n v
    pub inner : Nodeversion.isleaf v ≡ false
    pub at : ℕ
    pub after : seen.at < at
    pub search : kp ≡ upper ikey ((mem at).inner n)

  pub record Fetched (n v c : ℕ) : Type 0 where
    pub kp : ℕ
    pub searched : Searched n v kp
    pub at : ℕ
    pub after : searched.at < at
    pub child : c ≡ ((mem at).inner n).child kp
    pub there : c ≢ 0

  pub record Entered (n v c w : ℕ) : Type 0 where
    pub fetched : Fetched n v c
    pub at : ℕ
    pub after : fetched.at < at
    pub read : IsRead c w at

  pub record Reread (n v : ℕ) : Type 0 where
    pub old : ℕ
    pub seen : Seen n old
    pub at : ℕ
    pub after : seen.at < at
    pub read : IsRead n v at

  pub record Settled (n v w : ℕ) : Type 0 where
    pub reread : Reread n v
    pub at : ℕ
    pub after : reread.at ≤ at
    pub read : IsRead n w at

  pub record Weighed (n v w : ℕ) (cmp : Sign) : Type 0 where
    pub settled : Settled n v w
    pub at : ℕ
    pub after : settled.at < at
    pub sign : last_compare n at ≡ cmp
