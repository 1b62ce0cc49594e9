-- ===== src/Extlog/Examples.antt =====
-- Logs of two nodes, of three words and of one word.
use incll.Base.{ℕ, ◌+◌, ◌*◌, ◌≡◌, refl, arith, List, [], ◌∷◌, take}
use incll.Extlog.{Node, Logger, checkpoint, record_entry, undo, undo_entry, copy_to}
use incll.Extlog.Roundtrip.{record_all, restored, undo-record_entry}
use incll.Extlog.Wrap.{record_entry-wrap}

abbrev two_nodes : List Node
two_nodes =
    record { addr = 4096; content = 5 ∷ 6 ∷ 7 ∷ [] } ∷ record { addr = 8192; content = 9 ∷ [] } ∷ []

abbrev empty_log : Logger
empty_log = record { curr = 64; last_flush = 0; buf_size = 4000; root = 0; buf = λ k. 0 }

abbrev changed : ℕ → List ℕ
changed a = 1 ∷ 1 ∷ 1 ∷ []

-- What `fix` does to a node in the examples: it clears the first word.
abbrev clear_first : List ℕ → List ℕ
clear_first [] = []
clear_first (w ∷ ws) = 0 ∷ ws

undo-record_entry_example :
    let m = record_all two_nodes (checkpoint 77 empty_log) in
    undo clear_first 2 m changed
    ≡ (record m { last_flush = m.curr }, restored clear_first two_nodes changed)
undo-record_entry_example =
    undo-record_entry clear_first two_nodes empty_log changed 77 2 (omega arith, omega arith)
      (omega arith)

-- A log at its end, whose buffer starts with an entry of one word.
abbrev full_log : Logger
full_log = record { curr = 3980; last_flush = 3980; buf_size = 4000; root = 0; buf = λ k. 32 }

abbrev three_words : Node
three_words = record { addr = 4096; content = 5 ∷ 6 ∷ 7 ∷ [] }

record_entry-wrap_example :
    let m = record_entry three_words full_log in
    (m.curr ≡ 24 + 8 * 1)
    × ((undo_entry clear_first (record m { last_flush = 0 }) changed).1 4096
        ≡ clear_first (copy_to (take 1 (5 ∷ 6 ∷ 7 ∷ [])) (1 ∷ 1 ∷ 1 ∷ [])))
record_entry-wrap_example =
    record_entry-wrap clear_first three_words full_log changed 1 (omega arith) (omega arith) refl
      (omega arith) (omega arith)
