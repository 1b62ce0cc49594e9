-- ===== src/Bits.antt =====
-- Laws of the bit operations at every width.
pub mod Step
pub mod Split
pub mod Zero
pub mod Nibble
pub mod Flags
pub mod Xor
