-- ===== src/Extlog/Roundtrip.antt =====
-- Recording after a checkpoint, and undoing the log.
use incll.Base.{
  ℕ, zero, suc, ◌+◌, ◌-◌, ◌/◌, ◌%◌, ◌^◌, ◌≤◌, ◌<◌, ◌≡◌, refl, ◌∙◌, arith, List, [], ◌∷◌, length,
  ==_ne, ==_iff, le→ltb_false, if◌then◌else◌, ◌==◌,
}
use incll.Extlog.{Node, Logger, write, record_entry, undo_entry, undo, copy_to, checkpoint}
use incll.Extlog.Buffer.{
  entry_length, total, IsEntry, Stored, IsEntry-agree, write-IsEntry, write-below,
}

abbrev pub record_all : List Node → Logger → Logger
record_all [] l = l
record_all (n ∷ ns) l = record_all ns (record_entry n l)

-- The nodes as they are once the copies are back, one after the other.
abbrev pub restored : (List ℕ → List ℕ) → List Node → (ℕ → List ℕ) → ℕ → List ℕ
restored fix [] mem = mem
restored fix (n ∷ ns) mem =
    restored fix ns (λ a. if a == n.addr then fix (copy_to n.content (mem a)) else mem a)

abbrev pub Fits : Logger → List Node → Type 0
Fits l ns = (l.curr + total ns ≤ l.buf_size) × (l.buf_size < 2 ^ 64)

record_entry_fits :
    (n : Node) (l : Logger)
    → l.curr + entry_length n ≤ l.buf_size
    → l.buf_size < 2 ^ 64
    → record_entry n l ≡ record l {
      buf = write l.buf l.curr (entry_length n ∷ n.addr ∷ 18 ∷ n.content);
      curr = l.curr + entry_length n;
    }
unfolding record_entry
record_entry_fits n l h b =
    let small : (l.curr + entry_length n) % 2 ^ 64 ≡ l.curr + entry_length n = omega arith in
    rw (small, le→ltb_false l.buf_size (l.curr + entry_length n) h) refl

-- After recording, the entries stand in the buffer, and what was before them still does.
pub record Recorded (ns : List Node) (l m : Logger) : Type 0 where
  pub entries : Stored m.buf l.curr ns
  pub front : m.curr ≡ l.curr + total ns
  pub flush : m.last_flush ≡ l.last_flush
  pub bound : m.buf_size ≡ l.buf_size
  pub below : (k : ℕ) → k < l.curr → m.buf k ≡ l.buf k

record_all-Recorded : (ns : List Node) (l : Logger) → Fits l ns → Recorded ns l (record_all ns l)
record_all-Recorded [] l f = record {
  entries = tt;
  front = omega arith;
  flush = refl;
  bound = refl;
  below = λ k h. refl;
}
record_all-Recorded (n ∷ ns) l f = rw (record_entry_fits n l (omega (arith, f.0)) f.1) (
    let m : Logger = record l {
      buf = write l.buf l.curr (entry_length n ∷ n.addr ∷ 18 ∷ n.content);
      curr = l.curr + entry_length n;
    } in
    let r : Recorded ns m (record_all ns m) = record_all-Recorded ns m (omega (arith, f.0), f.1) in
    record {
      entries = (IsEntry-agree r.below (write-IsEntry n l.buf l.curr), r.entries);
      front = omega (arith, r.front);
      flush = r.flush;
      bound = r.bound;
      below = λ k h.
          r.below k (omega arith)
          ∙ write-below (entry_length n ∷ n.addr ∷ 18 ∷ n.content) l.buf l.curr k h;
    })

module _ (fix : List ℕ → List ℕ) where
  undo_entry_fits :
      (n : Node) (l : Logger) (mem : ℕ → List ℕ)
      → IsEntry l.buf l.last_flush n
      → l.last_flush + entry_length n ≤ l.buf_size
      → l.buf_size < 2 ^ 64
      → undo_entry fix l mem ≡ (
        record l { last_flush = l.last_flush + entry_length n },
        λ a. if a == n.addr then fix (copy_to n.content (mem a)) else mem a,
      )
  unfolding undo_entry
  undo_entry_fits n l mem e h b =
      let len : ℕ = length n.content in
      let front : (l.last_flush + entry_length n) % 2 ^ 64 ≡ l.last_flush + entry_length n =
        omega arith in
      let count : (entry_length n + 2 ^ 64 - 24) % 2 ^ 64 / 8 ≡ len = omega arith in
      rw
        (
          e.mark,
          e.sized,
          front,
          le→ltb_false l.buf_size (l.last_flush + entry_length n) h,
          count,
          e.address,
          e.words,
        )
        refl

  undo_done :
      (l : Logger) (mem : ℕ → List ℕ)
      → l.last_flush ≡ l.curr
      → ◌≡◌ {A = Logger × (ℕ → List ℕ)} (l, mem) (record l { last_flush = l.curr }, mem)
  undo_done l mem e = λ z. (record l { last_flush = e z }, mem)

  undo-Stored :
      (ns : List Node) (l : Logger) (mem : ℕ → List ℕ) (fuel : ℕ)
      → Stored l.buf l.last_flush ns
      → l.curr ≡ l.last_flush + total ns
      → l.curr ≤ l.buf_size
      → l.buf_size < 2 ^ 64
      → length ns ≤ fuel
      → undo fix fuel l mem ≡ (record l { last_flush = l.curr }, restored fix ns mem)
  unfolding undo
  undo-Stored [] l mem zero s c h b f = undo_done l mem (omega (arith, c))
  undo-Stored [] l mem (suc fuel) s c h b f =
      rw ((==_iff l.last_flush l.curr).1 (omega (arith, c))) (undo_done l mem (omega (arith, c)))
  undo-Stored (n ∷ ns) l mem zero s c h b f = absurd (omega arith)
  undo-Stored (n ∷ ns) l mem (suc fuel) s c h b f =
      rw
        (
          ==_ne l.last_flush l.curr (omega (arith, c)),
          undo_entry_fits n l mem s.0 (omega (arith, c)) b,
        )
        (undo-Stored ns _ _ fuel s.1 (omega (arith, c)) h b (omega arith))

  -- Nodes recorded after a checkpoint, as long as the buffer has room behind it, are copied back
  -- by `undo` one after the other and fixed, and the log is then empty; a round for each of them
  -- is enough.
  pub undo-record_entry :
      (ns : List Node) (l : Logger) (mem : ℕ → List ℕ) (root fuel : ℕ)
      → Fits l ns
      → length ns ≤ fuel
      → let m = record_all ns (checkpoint root l) in
        undo fix fuel m mem ≡ (record m { last_flush = m.curr }, restored fix ns mem)
  unfolding checkpoint
  undo-record_entry ns l mem root fuel f enough =
      let start : Logger = record l { root = root; last_flush = l.curr } in
      let r = record_all-Recorded ns start (f.0, f.1) in
      undo-Stored ns (record_all ns start) mem fuel (rw r.flush r.entries)
        (omega (arith, r.front, r.flush)) (omega (arith, r.front, r.bound, f.0))
        (omega (arith, r.bound, f.1)) enough
