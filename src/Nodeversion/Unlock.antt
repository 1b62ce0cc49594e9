-- ===== src/Nodeversion/Unlock.antt =====
-- What `unlock` stores, and what readers then see of it.
use incll.Base.{ℕ, ◌+◌, ◌-◌, ◌*◌, ◌/◌, ◌%◌, ◌^◌, ◌<◌, bit_or, ◌≡◌, ◌≢◌, arith, ◌∙◌, true, false}
use incll.Bits.Flags.{and_bit, or_bit}
use incll.Bits.Xor.{le-bit_xor, bit_xor-lt_of_eq}
use incll.Nodeversion.{
  mark_insert, mark_split, unlock, has_changed, has_split, is_root, isleaf, deleted, lock_bit,
}
use incll.Nodeversion.Fields.{
  mark_insert-sum, mark_split-sum, unlock_mask-sum, split_unlock_mask-sum, has_bit,
}

-- Without a split, `unlock` drops the low three bits and the unused one, and counts an insertion.
unlock_plain :
    (x : ℕ)
    → x < 2 ^ 32
    → x / 4 % 2 ≡ 0
    → unlock x ≡ (let y = (x + x / 2 % 2 * 8) % 2 ^ 32 in y / 2 ^ 29 * 2 ^ 29 + y % 2 ^ 28 / 8 * 8)
unfolding unlock
unlock_plain x h plain =
    ground (
      arith,
      has_bit 2 x,
      and_bit 1 x,
      unlock_mask-sum ((x + x / 2 % 2 * 8) % 2 ^ 32) (omega arith),
    )

-- A split is counted instead, and the root flag goes.
unlock_split :
    (x : ℕ)
    → x < 2 ^ 32
    → x / 4 % 2 ≡ 1
    → unlock x ≡ (
        let y = (x + 2 ^ 9) % 2 ^ 32 in
        y / 2 ^ 31 * 2 ^ 31 + y / 2 ^ 29 % 2 * 2 ^ 29 + y % 2 ^ 28 / 2 ^ 9 * 2 ^ 9)
unfolding unlock
unlock_split x h split =
    ground (arith, has_bit 2 x, split_unlock_mask-sum ((x + 2 ^ 9) % 2 ^ 32) (omega arith))

-- A version that a reader may have: unlocked, not dirty, and the unused bit clear.
pub record IsStable (v : ℕ) : Type 0 where
  pub word : v < 2 ^ 32
  pub quiet : v % 8 ≡ 0
  pub unused : v / 2 ^ 28 % 2 ≡ 0

lock-sum : (v : ℕ) → bit_or v lock_bit ≡ v + (1 - v % 2)
lock-sum v = or_bit 0 v ∙ omega arith

has_changed_of : (v w : ℕ) → v / 2 ≢ w / 2 → has_changed w v ≡ true
unfolding has_changed
has_changed_of v w h = ground (arith, le-bit_xor 1 v w h)

-- Locking a stable version and unlocking it with no mark gives the version back, and a reader of
-- it sees no change under the lock.
pub lock_unlock :
    (v : ℕ)
    → IsStable v
    → (unlock (bit_or v lock_bit) ≡ v) × (has_changed (bit_or v lock_bit) v ≡ false)
unfolding has_changed
lock_unlock v s = (
  rw (lock-sum v) (unlock_plain (v + (1 - v % 2)) (omega arith) (omega arith) ∙ omega arith),
  ground (arith, lock-sum v, bit_xor-lt_of_eq 1 v (bit_or v lock_bit)),
)

-- A change of a stable version under the lock with `mark_insert` ends in a stable version; a reader
-- of the old one sees a change from the mark on and after the unlock; the flags stay.
pub mark_insert_seen :
    (v : ℕ)
    → IsStable v
    → let m = mark_insert (bit_or v lock_bit) in
      IsStable (unlock m)
      × (has_changed m v ≡ true)
      × (has_changed (unlock m) v ≡ true)
      × (unlock m / 2 ^ 29 ≡ v / 2 ^ 29)
mark_insert_seen v s = (
  omega (arith, after),
  has_changed_of v m (omega (arith, before)),
  has_changed_of v (unlock m) (omega (arith, after)),
  omega (arith, after),
)
  where
    m : ℕ
    m = mark_insert (bit_or v lock_bit)

    before : m ≡ v + 3
    before = omega (arith, mark_insert-sum (bit_or v lock_bit), lock-sum v)

    after : unlock m ≡ (v + 11) / 2 ^ 29 * 2 ^ 29 + (v + 11) % 2 ^ 28 / 8 * 8
    after = unlock_plain m (omega (arith, before)) (omega (arith, before)) ∙ omega (arith, before)

-- A split of a stable version under the lock ends in a stable version that is no root and that a
-- reader of the old one sees as split; the leaf flag and the deleted flag stay.
pub mark_split_seen :
    (v : ℕ)
    → IsStable v
    → let m = mark_split (bit_or v lock_bit) in
      IsStable (unlock m)
      × (has_split (unlock m) v ≡ true)
      × (is_root (unlock m) ≡ false)
      × (isleaf (unlock m) ≡ isleaf v)
      × (deleted (unlock m) ≡ deleted v)
unfolding has_split is_root isleaf deleted
mark_split_seen v s = (
  omega (arith, after),
  ground (arith, le-bit_xor 9 v (unlock m), after),
  ground (arith, has_bit 30 (unlock m), after),
  ground (arith, has_bit 31 (unlock m), has_bit 31 v, after),
  ground (arith, has_bit 29 (unlock m), has_bit 29 v, after),
)
  where
    m : ℕ
    m = mark_split (bit_or v lock_bit)

    before : m ≡ v + 5
    before = omega (arith, mark_split-sum (bit_or v lock_bit), lock-sum v)

    after :
        unlock m
        ≡ (v + 517) / 2 ^ 31 * 2 ^ 31
          + (v + 517) / 2 ^ 29 % 2 * 2 ^ 29
          + (v + 517) % 2 ^ 28 / 2 ^ 9 * 2 ^ 9
    after = unlock_split m (omega (arith, before)) (omega (arith, before)) ∙ omega (arith, before)
