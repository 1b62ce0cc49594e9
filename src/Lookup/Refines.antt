-- ===== src/Lookup/Refines.antt =====
-- A search finds what the map has that the store holds.
use mathlib.Core.Path.{subst}
use incll.Base.{
  ℕ, zero, suc, ◌+◌, ◌-◌, ◌*◌, ◌^◌, ◌≤◌, ◌<◌, ◌≡◌, inl, inr, refl, sym, ap, ◌∙◌, arith, Option,
  none, some, List,
}
use incll.Slice.{load, make_comparable, make_comparable_sloppy}
use incll.Slice.Sloppy.{make_comparable_sloppy-make_comparable}
use incll.Slice.Words.{make_comparable-pad}
use incll.Key.{Key, key, shift_by}
use incll.Key.Compare.{drop-load}
use incll.Descent.{Store, climbing}
use incll.Descent.Quiet.{run-IsTree}
use incll.Lookup.{Str, Label, retry, done, look, visit, steps, ended, find_unlocked, get}
use incll.Lookup.Layer.{slice, view, IsContent, IsLayer}
use incll.Lookup.Suffix.{look-IsRound}
use incll.Lookup.Round.{run-view, view-visit, steps_done, round, slice-lt}

module _ (mem : ℕ → ℕ) (valid : (x : ℕ) → mem x < 256) (ksuf : ℕ → ℕ → Str) (ge fe count : ℕ) where
  -- A search from the root of a layer ends within two steps for each layer. It finds what the map
  -- has for the string.
  abbrev Finds : ℕ → Store → Key → ℕ → Option ℕ → Type 0
  Finds fuel s k root r =
      (s' : Store) × (steps mem ksuf ge fe count fuel s (retry k root) ≡ some (s', done r))
      × (view mem ksuf ge fe count s' ≡ view mem ksuf ge fe count s)

  pub finds :
      (d fuel : ℕ) (s : Store) (k : Key) (root : ℕ) (content : List ℕ → Option ℕ)
      → IsLayer mem ksuf ge fe count (view mem ksuf ge fe count s) d root content
      → k.ikey0 ≡ make_comparable mem k.s k.len
      → 2 * d ≤ fuel
      → Finds fuel s k root (content (load mem k.s k.len))
  unfolding shift_by make_comparable_sloppy
  finds zero fuel s k root content layer known le = absurd layer
  finds (suc d) zero s k root content layer known le = absurd (omega (arith, le))
  finds (suc d) (suc zero) s k root content layer known le = absurd (omega (arith, le))
  finds (suc d) (suc (suc fuel)) s k root content (n, top, h, enough, below, tree) known le =
      let v : Store = view mem ksuf ge fe count s in
      let now : k.ikey0 ≡ slice (load mem k.s k.len) =
        known ∙ make_comparable-pad mem k.s k.len valid in
      let small : k.ikey0 < 2 ^ 64 =
        omega (arith, now, slice-lt mem valid ksuf ge fe count k.s k.len) in
      let r =
        run-IsTree v (IsContent mem ksuf ge fe count v (IsLayer mem ksuf ge fe count v d) content)
          root k.ikey0 n root top h count 0 below tree small enough in
      let a : ℕ = r.0 in
      let tip = r.4 in
      let next : Store = visit mem ksuf ge fe count a s in
      let two =
        round mem valid ksuf ge fe count fuel s k root a
          (sym (run-view mem valid ksuf ge fe count root k.ikey0 s count 0 (climbing root)) ∙ r.3)
          tip.content.alive in
      let seen : view mem ksuf ge fe count next ≡ v =
        view-visit mem valid ksuf ge fe count s a tip.content.settled in
      let l =
        look-IsRound mem valid ksuf ge fe count v (IsLayer mem ksuf ge fe count v d) content a r.1
          r.2 k tip.content (sym now) r.5 r.6 in
      elim l [
        | inl e ↦ (
          next,
          two
              ∙ ap (steps mem ksuf ge fe count fuel next) e
              ∙ steps_done mem valid ksuf ge fe count fuel next (content (load mem k.s k.len)),
          seen,
        )
        | inr (rest, inside, e, same, long) ↦
            let deeper : Key = shift_by mem 8 k in
            let word : ℕ = (look mem ksuf a (v.leaf a) k).1 in
            let f =
              finds d fuel next deeper word rest
                (subst (λ x. IsLayer mem ksuf ge fe count x d word rest) (sym seen) inside)
                (make_comparable_sloppy-make_comparable mem (k.s + 8) (k.len - 8) valid
                  (omega arith))
                (omega (arith, le)) in
            (
              f.0,
              two
                  ∙ ap (steps mem ksuf ge fe count fuel next) e
                  ∙ f.1
                  ∙ ap (λ x. some (f.0, done x))
                      (ap rest (sym (drop-load mem 8 k.s k.len)) ∙ sym same),
              f.2 ∙ seen,
            )
      ]

  -- With bytes in memory, let the store, each leaf as the first visit after a failure recovers it,
  -- hold a map in at most `d` layers, in which no way to a leaf is longer than `count` steps. Then
  -- `get` of a string ends within `2 d` steps and finds what the map has for the string, its value
  -- or none, and the store holds the same map afterwards.
  pub get_lem :
      (d fuel : ℕ) (s : Store) (root a len : ℕ) (content : List ℕ → Option ℕ)
      → IsLayer mem ksuf ge fe count (view mem ksuf ge fe count s) d root content
      → 2 * d ≤ fuel
      → (s' : Store) × (get mem ksuf ge fe count fuel s root a len
          ≡ some (s', content (load mem a len)))
        × IsLayer mem ksuf ge fe count (view mem ksuf ge fe count s') d root content
  unfolding get find_unlocked key ended
  get_lem d fuel s root a len content layer le =
      let f = finds d fuel s (key mem a len) root content layer refl le in
      (
        f.0,
        ap end (f.1),
        subst (λ x. IsLayer mem ksuf ge fe count x d root content) (sym (f.2)) layer,
      )
    where
      end : Option (Store × Label) → Option (Store × Option ℕ)
      end none = none
      end (some r) = ended (r.0) (r.1)
