-- ===== src/Cursor/Safety.antt =====
-- Sequences of operations within an epoch, and a restart from each of their states.
use mathlib.Core.Path.{subst}
use incll.Base.{All, All-map, ℕ, ◌≤◌, ◌<◌, refl, sym, arith, length, List, [], ◌∷◌}
use incll.Leaf.{Leaf, State, restart, fix_all}
use incll.Leaf.Content.{SameContent, IsCommitted}
use incll.Leaf.Undoes.{unchanged, Undoes-status, lazy_recovery-SameContent}
use incll.Cursor.{Op, op_states, run}
use incll.Cursor.Stores.{last-All}
use incll.Cursor.Phase.{
  Touched, in_line, recorded, Phase, untouched, touched, restated, SameContent-refl,
}
use incll.Cursor.Ops.{IsValid, begin, op_states-first, op_states-second}

-- Recovery restores the content from every state within the epoch.
pub Touched-restart :
    (globalepoch fe : ℕ) (n0 : Leaf) (s : State)
    → Touched fe n0 s
    → SameContent n0 (restart globalepoch fe s)
unfolding restart fix_all
Touched-restart globalepoch fe n0 s (in_line e f l u) =
    rw l (lazy_recovery-SameContent globalepoch fe n0 s.node u)
Touched-restart globalepoch fe n0 s (recorded e f r l u) =
    rw l
      (lazy_recovery-SameContent globalepoch fe n0 (fix_all r) (Undoes-status r.not_logged _ _ u))

module _ (ge : ℕ) (n0 : Leaf) (c : IsCommitted ge n0) (small : ge < 128) where
  op_states-Phase :
      (op : Op) (s : State) → IsValid op → Phase ge n0 s → All (Phase ge n0) (op_states ge op s)
  op_states-Phase op s h (untouched w m e l) =
      subst (λ t. All (Phase ge n0) (op_states ge op t))
        (λ i. record { node = sym e i; log = sym l i }) (op_states-first ge n0 c small w m op h)
  op_states-Phase op s h (touched t) = op_states-second ge n0 c small op s h t

  run-Phase :
      (ops : List Op) (s : State) → All IsValid ops → Phase ge n0 s → Phase ge n0 (run ge ops s)
  unfolding run
  run-Phase [] s h p = p
  run-Phase (op ∷ ops) s h p =
      run-Phase ops _ h.1 (last-All (Phase ge n0) s _ p (op_states-Phase op s h.0 p))

  Phase-restart : (now : ℕ) (s : State) → Phase ge n0 s → SameContent n0 (restart now ge s)
  unfolding restart
  Phase-restart now s (untouched w m e l) =
      rw (e, l)
        (lazy_recovery-SameContent now ge n0 (restated n0 w m)
          (Undoes-status n0.not_logged w m (unchanged c.clean (SameContent-refl ge n0 c))))
  Phase-restart now s (touched t) = Touched-restart now ge n0 s t

  start : Phase ge n0 (begin n0)
  start = untouched n0.version n0.modstate refl refl

  -- Take a leaf committed before epoch `ge`: its in-cache-line logs are unused, its permutation is
  -- valid, its values are aligned and of 56 bits; and let `ge` be below 128. Run any operations in
  -- epoch `ge`, with updates of slots below the width and split bodies that keep the leaf's epoch and
  -- flag, and then one more such operation; fail before it or after any of its stores, where a
  -- function that logs and a split body each count as one, and restart. Then the permutation, and
  -- key, key length and value of each slot in use, are those from before.
  pub crash_safe :
      (now : ℕ) (ops : List Op) (op : Op)
      → All IsValid ops
      → IsValid op
      → All
          (λ s. SameContent n0 (restart now ge s))
          (run ge ops (begin n0) ∷ op_states ge op (run ge ops (begin n0)))
  crash_safe now ops op hs h =
      let p = run-Phase ops (begin n0) hs start in
      (
        Phase-restart now _ p,
        All-map (Phase ge n0) (λ s. SameContent n0 (restart now ge s)) _ (Phase-restart now)
            (op_states-Phase op _ h p),
      )

  -- From a committed leaf, with unused in-cache-line logs, a valid permutation and aligned values,
  -- such operations within one epoch below 128 record the leaf in the external log once at most.
  pub logged_once : (ops : List Op) → All IsValid ops → length ((run ge ops (begin n0)).log) ≤ 1
  logged_once ops hs = elim (run-Phase ops (begin n0) hs start) [
    | untouched w m e l ↦ rw l (omega arith)
    | touched t ↦ elim t [
      | in_line e f l u ↦ rw l (omega arith)
      | recorded e f r l u ↦ rw l (omega arith)
    ]
  ]
