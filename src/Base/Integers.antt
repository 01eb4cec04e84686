-- ===== src/Base/Integers.antt =====
-- Signed integers over the native numbers, as far as they are compared.
use Prim.Native.Nat.{ℕ}
use mathlib.Core.Path.{◌≡◌, refl}
use mathlib.Core.Logic.{◌↔◌}
use mathlib.Core.Bool.{Bool, true, false}
use native.Mathlib.Omega.{arith}
use beave_rs.Base.Tests.{nat_beq, leb}

-- `negsuc n` is `-(n + 1)`.
pub data ℤ : Type 0 where
  pos negsuc : ℕ → ℤ

unfoldable pub int_beq : ℤ → ℤ → Bool
int_beq (pos m) (pos n) = nat_beq m n
int_beq (negsuc m) (negsuc n) = nat_beq m n
int_beq (pos m) (negsuc n) = false
int_beq (negsuc m) (pos n) = false

unfoldable pub int_leb : ℤ → ℤ → Bool
int_leb (pos m) (pos n) = leb m n
int_leb (negsuc m) (negsuc n) = leb n m
int_leb (pos m) (negsuc n) = false
int_leb (negsuc m) (pos n) = true

pub int_beq_iff : (i j : ℤ) → (int_beq i j ≡ true) ↔ (i ≡ j)
unfolding int_beq
int_beq_iff (pos m) (pos n) = ground arith
int_beq_iff (negsuc m) (negsuc n) = ground arith
int_beq_iff (pos m) (negsuc n) = ground arith
int_beq_iff (negsuc m) (pos n) = ground arith

pub int_leb_refl : (i : ℤ) → int_leb i i ≡ true
unfolding int_leb
int_leb_refl (pos m) = ground arith
int_leb_refl (negsuc m) = ground arith

pub int_leb_trans : (i j k : ℤ) → int_leb i j ≡ true → int_leb j k ≡ true → int_leb i k ≡ true
unfolding int_leb
int_leb_trans (pos a) (pos b) (pos c) h g = ground arith
int_leb_trans (pos a) (pos b) (negsuc c) h g = ground arith
int_leb_trans (pos a) (negsuc b) (pos c) h g = ground arith
int_leb_trans (pos a) (negsuc b) (negsuc c) h g = ground arith
int_leb_trans (negsuc a) (pos b) (pos c) h g = refl
int_leb_trans (negsuc a) (pos b) (negsuc c) h g = ground arith
int_leb_trans (negsuc a) (negsuc b) (pos c) h g = refl
int_leb_trans (negsuc a) (negsuc b) (negsuc c) h g = ground arith
