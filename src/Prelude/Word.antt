-- ===== src/Prelude/Word.antt =====
-- Fixed-width unsigned arithmetic, with its wrap-around, as in a release build.
use Prim.Native.Nat.{ℕ, ◌%◌, ◌^◌}

abbrev pub u16 : ℕ → ℕ
u16 n = n % 2 ^ 16

abbrev pub u32 : ℕ → ℕ
u32 n = n % 2 ^ 32

-- u64, and usize on the 64-bit targets that the program runs on.
abbrev pub u64 : ℕ → ℕ
u64 n = n % 2 ^ 64
