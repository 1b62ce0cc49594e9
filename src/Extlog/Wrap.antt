-- ===== src/Extlog/Wrap.antt =====
-- What becomes of an entry that is written at the start of the buffer again.
use incll.Base.{
  ℕ, zero, suc, ◌+◌, ◌-◌, ◌*◌, ◌/◌, ◌%◌, ◌^◌, ◌≤◌, ◌<◌, ◌≡◌, refl, ap₂, arith, List, [], ◌∷◌,
  length, take, ==_refl, lt→ltb, le→ltb_false,
}
use incll.Extlog.{Node, Logger, write, put, read, record_entry, undo_entry, copy_to}
use incll.Extlog.Buffer.{entry_length, write-head}

read-write-take :
    (ws : List ℕ) (buf : ℕ → ℕ) (a k : ℕ) → k ≤ length ws → read (write buf a ws) a k ≡ take k ws
unfolding read write
read-write-take ws buf a zero h = refl
read-write-take [] buf a (suc k) h = absurd (omega arith)
read-write-take (w ∷ ws) buf a (suc k) h =
    ap₂ ◌∷◌ (write-head w ws buf a) (read-write-take ws (put buf a w) (a + 8) k (omega arith))

-- An entry of any size word, and the words of its copy.
module _ (buf : ℕ → ℕ) (size addr : ℕ) (content : List ℕ) where
  abbrev entry : ℕ → ℕ
  entry = write buf 0 (size ∷ addr ∷ 18 ∷ content)

  entry-size : entry 0 ≡ size
  entry-size = write-head size (addr ∷ 18 ∷ content) buf 0

  entry-address : entry 8 ≡ addr
  unfolding write
  entry-address = write-head addr (18 ∷ content) (put buf 0 size) 8

  entry-mark : entry 16 ≡ 18
  unfolding write
  entry-mark = write-head 18 content (put (put buf 0 size) 8 addr) 16

  entry-words : (k : ℕ) → k ≤ length content → read entry 24 k ≡ take k content
  unfolding write
  entry-words k h = read-write-take content (put (put (put buf 0 size) 8 addr) 16 18) 24 k h

-- A record that does not fit behind the others goes to the start of the buffer, but with the size
-- word that it finds there. Where that is the size of an entry of `k` words, at most those of the
-- node, the log goes on after `k` words, and undoing the entry copies only `k` words back.
pub record_entry-wrap :
    (fix : List ℕ → List ℕ) (n : Node) (l : Logger) (mem : ℕ → List ℕ) (k : ℕ)
    → l.curr + entry_length n < 2 ^ 64
    → l.buf_size < l.curr + entry_length n
    → l.buf 0 ≡ 24 + 8 * k
    → k ≤ length n.content
    → 24 + 8 * k ≤ l.buf_size
    → let m = record_entry n l in
      (m.curr ≡ 24 + 8 * k)
      × ((undo_entry fix (record m { last_flush = 0 }) mem).1 n.addr
          ≡ fix (copy_to (take k n.content) (mem n.addr)))
unfolding record_entry undo_entry
record_entry-wrap fix n l mem k word full stale short room =
    let over : (l.curr + entry_length n) % 2 ^ 64 ≡ l.curr + entry_length n = omega arith in
    let front : (0 + (24 + 8 * k)) % 2 ^ 64 ≡ 24 + 8 * k = omega arith in
    let count : (24 + 8 * k + 2 ^ 64 - 24) % 2 ^ 64 / 8 ≡ k = omega arith in
    rw (over, lt→ltb l.buf_size (l.curr + entry_length n) full, stale)
      (
        front,
        rw
            (
              entry-mark l.buf (24 + 8 * k) n.addr n.content,
              entry-size l.buf (24 + 8 * k) n.addr n.content,
              front,
              le→ltb_false l.buf_size (24 + 8 * k) room,
              count,
              entry-address l.buf (24 + 8 * k) n.addr n.content,
              entry-words l.buf (24 + 8 * k) n.addr n.content k short,
              ==_refl n.addr,
            )
            refl,
      )
