-- ===== src/Cursor/Phase.antt =====
-- Where a leaf stands within an epoch, and what one operation does to that.
use incll.Base.{ℕ, ◌≡◌, refl, ◌∙◌, arith, true, false, ◌==◌, [], ◌∷◌, ==_ne, ==_iff}
use incll.Leaf.{Leaf, State, record_node, save_cl0_insert, save_cl1_2_update}
use incll.Leaf.Content.{SameContent, IsCommitted}
use incll.Leaf.Undoes.{Undoes, unchanged, Undoes-status}

-- Changed in this epoch: under an in-cache-line log, or recorded in the external log.
pub data Touched (globalepoch : ℕ) (n0 : Leaf) (s : State) : Type 0 where
  in_line :
      s.node.loggedepoch ≡ globalepoch
      → s.node.not_logged ≡ true
      → s.log ≡ []
      → Undoes globalepoch n0 s.node
      → Touched globalepoch n0 s
  recorded :
      s.node.loggedepoch ≡ globalepoch
      → s.node.not_logged ≡ false
      → (r : Leaf) → s.log ≡ r ∷ []
      → Undoes globalepoch n0 r
      → Touched globalepoch n0 s

-- The leaf with another version and state, before and within the epoch.
abbrev pub restated : Leaf → ℕ → ℕ → Leaf
restated n v m = record n { version = v; modstate = m }

-- Before the first log of the epoch only the version and the state may have changed.
pub data Phase (globalepoch : ℕ) (n0 : Leaf) (s : State) : Type 0 where
  untouched : (v m : ℕ) → s.node ≡ restated n0 v m → s.log ≡ [] → Phase globalepoch n0 s
  touched : Touched globalepoch n0 s → Phase globalepoch n0 s

-- Once the leaf is recorded, no change to it matters that keeps its epoch and its flag.
pub record IsRecorded (globalepoch : ℕ) (n0 : Leaf) (s : State) : Type 0 where
  pub epoch : s.node.loggedepoch ≡ globalepoch
  pub flag : s.node.not_logged ≡ false
  pub copy : Leaf
  pub kept : s.log ≡ copy ∷ []
  pub undoes : Undoes globalepoch n0 copy

pub IsRecorded-store :
    {ge : ℕ} {n0 : Leaf} {s : State} (n : Leaf)
    → n.loggedepoch ≡ s.node.loggedepoch
    → n.not_logged ≡ s.node.not_logged
    → IsRecorded ge n0 s
    → IsRecorded ge n0 (record s { node = n })
IsRecorded-store n e f r = record {
  epoch = e ∙ r.epoch;
  flag = f ∙ r.flag;
  copy = r.copy;
  kept = r.kept;
  undoes = r.undoes;
}

pub IsRecorded-Touched : {ge : ℕ} {n0 : Leaf} {s : State} → IsRecorded ge n0 s → Touched ge n0 s
IsRecorded-Touched r = recorded r.epoch r.flag r.copy r.kept r.undoes

-- A store to the version or the state.
pub Touched-restated :
    {ge : ℕ} {n0 : Leaf} {s : State} (v m : ℕ)
    → Touched ge n0 s
    → Touched ge n0 (record s { node = restated (s.node) v m })
Touched-restated {s = s} v m (in_line e f l u) =
    in_line e f l (Undoes-status s.node.not_logged v m u)
Touched-restated v m (recorded e f r l u) = recorded e f r l u

module _ (ge : ℕ) (n0 : Leaf) (c : IsCommitted ge n0) where
  pub SameContent-refl : SameContent n0 n0
  SameContent-refl = record {
    order = refl;
    slots = λ j h. record { key = refl; keylen = refl; value = refl };
  }

  pub epoch_test : (s : State) → s.node.loggedepoch ≡ ge → (s.node.loggedepoch == ge) ≡ true
  epoch_test s e = (==_iff _ _).1 e

  -- The first record of the epoch.
  pub record_node-first :
      (v m : ℕ) → IsRecorded ge n0 (record_node ge (record { node = restated n0 v m; log = [] }))
  unfolding record_node
  record_node-first v m = rw (==_ne n0.loggedepoch ge (omega (arith, c.old))) (record {
    epoch = refl;
    flag = refl;
    copy = record n0 { version = v; modstate = m; not_logged = false };
    kept = refl;
    undoes = Undoes-status false v m (unchanged c.clean SameContent-refl);
  })

  -- A record over an in-cache-line log.
  pub record_node-in_line :
      (s : State) (v m : ℕ)
      → Touched ge n0 s
      → IsRecorded ge n0 (record_node ge (record s { node = restated (s.node) v m }))
  unfolding record_node
  record_node-in_line s v m (in_line e f l u) =
      rw (epoch_test s e, f, l)
        (record {
          epoch = refl;
          flag = refl;
          copy = record (s.node) { version = v; modstate = m; not_logged = false };
          kept = refl;
          undoes = Undoes-status false v m u;
        })
  record_node-in_line s v m (recorded e f r l u) =
      rw (epoch_test s e, f) (record { epoch = e; flag = refl; copy = r; kept = l; undoes = u })

  -- An insertion into a leaf changed earlier in the epoch finds or makes it recorded.
  pub save_cl0_insert-second :
      (s : State) (v m : ℕ)
      → Touched ge n0 s
      → IsRecorded ge n0 (save_cl0_insert ge (record s { node = restated (s.node) v m }))
  unfolding save_cl0_insert
  save_cl0_insert-second s v m (in_line e f l u) =
      rw (epoch_test s e, f, l)
        (record {
          epoch = e;
          flag = refl;
          copy = record (s.node) { version = v; modstate = m; not_logged = false };
          kept = refl;
          undoes = Undoes-status false v m u;
        })
  save_cl0_insert-second s v m (recorded e f r l u) =
      rw (epoch_test s e, f) (record { epoch = e; flag = refl; copy = r; kept = l; undoes = u })

  pub save_cl1_2_update-second :
      (s : State) (p : ℕ) → Touched ge n0 s → IsRecorded ge n0 (save_cl1_2_update ge p s)
  unfolding save_cl1_2_update
  save_cl1_2_update-second s p (in_line e f l u) =
      rw (epoch_test s e, f, l)
        (record {
          epoch = e;
          flag = refl;
          copy = record (s.node) { not_logged = false };
          kept = refl;
          undoes = Undoes-status false s.node.version s.node.modstate u;
        })
  save_cl1_2_update-second s p (recorded e f r l u) =
      rw (epoch_test s e, f) (record { epoch = e; flag = refl; copy = r; kept = l; undoes = u })
