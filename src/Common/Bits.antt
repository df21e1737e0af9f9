-- ===== src/Common/Bits.antt =====
-- A `uint8` that the program uses as a set of bits, kept as its eight bits, with C's bit operations.
-- Masks come first, so that an operation with a constant mask computes bit by bit.
use Prim.Native.Nat.{ℕ, ◌+◌, ◌*◌}
use mathlib.Core.Bool.{Bool, true, false, not, ◌&&◌, ◌||◌}
use plug_and_play_autosar.Common.Tests.{if◌then◌else◌}

pub record Byte : Type 0 where
  pub b0 : Bool
  pub b1 : Bool
  pub b2 : Bool
  pub b3 : Bool
  pub b4 : Bool
  pub b5 : Bool
  pub b6 : Bool
  pub b7 : Bool

abbrev pub byte : Bool → Bool → Bool → Bool → Bool → Bool → Bool → Bool → Byte
byte a b c d e f g h = record { b0 = a; b1 = b; b2 = c; b3 = d; b4 = e; b5 = f; b6 = g; b7 = h }

abbrev pub zero_byte : Byte
zero_byte = byte false false false false false false false false

abbrev pub ones_byte : Byte
ones_byte = byte true true true true true true true true

abbrev pub band : Byte → Byte → Byte
band m x =
    byte (m.b0 && x.b0) (m.b1 && x.b1) (m.b2 && x.b2) (m.b3 && x.b3) (m.b4 && x.b4) (m.b5 && x.b5)
      (m.b6 && x.b6) (m.b7 && x.b7)

abbrev pub bor : Byte → Byte → Byte
bor m x =
    byte (m.b0 || x.b0) (m.b1 || x.b1) (m.b2 || x.b2) (m.b3 || x.b3) (m.b4 || x.b4) (m.b5 || x.b5)
      (m.b6 || x.b6) (m.b7 || x.b7)

abbrev pub bnot : Byte → Byte
bnot x =
    byte (not x.b0) (not x.b1) (not x.b2) (not x.b3) (not x.b4) (not x.b5) (not x.b6) (not x.b7)

-- `0 != x`
abbrev pub non_zero : Byte → Bool
non_zero x = x.b0 || (x.b1 || (x.b2 || (x.b3 || (x.b4 || (x.b5 || (x.b6 || x.b7))))))

abbrev eq_bit : Bool → Bool → Bool
eq_bit true y = y
eq_bit false y = not y

abbrev pub eq_byte : Byte → Byte → Bool
eq_byte x y =
    eq_bit x.b0 y.b0
    && (eq_bit x.b1 y.b1
        && (eq_bit x.b2 y.b2
            && (eq_bit x.b3 y.b3
                && (eq_bit x.b4 y.b4
                    && (eq_bit x.b5 y.b5 && (eq_bit x.b6 y.b6 && eq_bit x.b7 y.b7))))))

abbrev bit : Bool → ℕ
bit b = if b then 1 else 0

-- The number that the bits stand for.
abbrev pub to_ℕ : Byte → ℕ
to_ℕ x =
    bit x.b0
    + 2 * bit x.b1
    + 4 * bit x.b2
    + 8 * bit x.b3
    + 16 * bit x.b4
    + 32 * bit x.b5
    + 64 * bit x.b6
    + 128 * bit x.b7
