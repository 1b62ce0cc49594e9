-- ===== src/Extlog.antt =====
-- incll_pextlog.hh, `PExtNodeLogger`: the buffer that holds copies of nodes. Memory is read and
-- written in words of 8 bytes, and a word stands under the offset of its first byte. An entry is
-- its size, the address of the node, the mark of a valid entry, and the copy. The nodes of the
-- tree are a map from addresses to their words; `fix` stands for `fix_all` and `fix_lock`.

pub mod Buffer
pub mod Roundtrip
pub mod Wrap
pub mod Examples
use incll.Base.{
  ℕ, zero, suc, ◌+◌, ◌*◌, ◌/◌, add64, sub64, Bool, not, ◌||◌, ltb, ◌==◌, if◌then◌else◌, List, [],
  ◌∷◌, ◌++◌, length, drop,
}

abbrev pub entry_valid_magic : ℕ
entry_valid_magic = 18

-- `sizeof(logrec_node)`
abbrev pub entry_meta_size : ℕ
entry_meta_size = 24

pub record Logger : Type 0 where
  pub curr : ℕ
  pub last_flush : ℕ
  pub buf_size : ℕ
  pub root : ℕ
  pub buf : ℕ → ℕ

-- A node that is to be recorded: its address and its `allocated_size` bytes.
pub record Node : Type 0 where
  pub addr : ℕ
  pub content : List ℕ

unfoldable pub put : (ℕ → ℕ) → ℕ → ℕ → ℕ → ℕ
put buf a w k = if k == a then w else buf k

unfoldable pub write : (ℕ → ℕ) → ℕ → List ℕ → ℕ → ℕ
unfolding put
write buf a [] = buf
write buf a (w ∷ ws) = write (put buf a w) (a + 8) ws

unfoldable pub read : (ℕ → ℕ) → ℕ → ℕ → List ℕ
read buf a zero = []
read buf a (suc n) = buf a ∷ read buf (a + 8) n

unfoldable pub get_entry_size : ℕ → ℕ
get_entry_size size = entry_meta_size + size

-- Without what the memory held before, and for a buffer of `pbuf_size` bytes with its head.
unfoldable pub init : ℕ → Logger → Logger
init pbuf_size l = record l { curr = 0; last_flush = 0; buf_size = sub64 pbuf_size 32 }

unfoldable pub checkpoint : ℕ → Logger → Logger
checkpoint global_masstree_root l = record l { root = global_masstree_root; last_flush = l.curr }

unfoldable pub record_at : ℕ → ℕ → Node → Logger → Logger
unfolding write
record_at at entry_size node l = record l {
  buf = write l.buf at (entry_size ∷ node.addr ∷ entry_valid_magic ∷ node.content);
  curr = add64 at entry_size;
}

unfoldable pub record_entry : Node → Logger → Logger
unfolding record_at get_entry_size
record_entry node l =
    let entry_size : ℕ = get_entry_size (8 * length node.content) in
    if ltb l.buf_size (add64 l.curr entry_size)
    then record_at 0 (l.buf 0) node l
    else record_at l.curr entry_size node l

-- `memcpy` to the start of a node.
unfoldable pub copy_to : List ℕ → List ℕ → List ℕ
copy_to words old = words ++ drop (length words) old

module _ (fix : List ℕ → List ℕ) where
  -- The entry at `at` is copied back, and the log goes on behind it.
  unfoldable pub undo_at : ℕ → Logger → (ℕ → List ℕ) → Logger × (ℕ → List ℕ)
  unfolding read copy_to
  undo_at at l mem =
      let entry_size : ℕ = l.buf at in
      let words : List ℕ = read l.buf (at + 24) (sub64 entry_size entry_meta_size / 8) in
      (
        record l { last_flush = add64 at entry_size },
        λ a. if a == l.buf (at + 8) then fix (copy_to words (mem a)) else mem a,
      )

  unfoldable pub undo_entry : Logger → (ℕ → List ℕ) → Logger × (ℕ → List ℕ)
  unfolding undo_at
  undo_entry l mem =
      if not (l.buf (l.last_flush + 16) == entry_valid_magic)
        || ltb l.buf_size (add64 l.last_flush (l.buf l.last_flush))
      then undo_at 0 l mem
      else undo_at l.last_flush l mem

  unfoldable pub undo : ℕ → Logger → (ℕ → List ℕ) → Logger × (ℕ → List ℕ)
  unfolding undo_entry
  undo zero l mem = (l, mem)
  undo (suc fuel) l mem =
      let next = undo_entry l mem in
      let rest = undo fuel next.0 next.1 in if l.last_flush == l.curr then (l, mem) else rest
