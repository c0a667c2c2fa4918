-- ===== src/Fs/Bits.antt =====
-- Setting and clearing one bit of a byte, as the bitmap of Xv6-Threads/src/fs.c does.
use os_wsl.Prelude.{ℕ, zero, suc, ◌+◌, ◌*◌, ◌/◌, ◌%◌, ◌≡◌, ◌≢◌, ap, ◌∙◌, true, false, arith}
use os_wsl.Fs.{bit, with_bit, without_bit}

half : (x d : ℕ) → (x * 2 + d % 2) / 2 ≡ x
half x d = omega arith

pub bit-with_self : (i d : ℕ) → bit i (with_bit i d) ≡ true
unfolding bit with_bit
bit-with_self zero d = ground arith
bit-with_self (suc i) d = ap (bit i) (half (with_bit i (d / 2)) d) ∙ bit-with_self i (d / 2)

pub bit-with_ne : (i j d : ℕ) → i ≢ j → bit j (with_bit i d) ≡ bit j d
unfolding bit with_bit
bit-with_ne zero zero d h = absurd (omega arith)
bit-with_ne zero (suc j) d h = ap (bit j) (omega arith)
bit-with_ne (suc i) zero d h = ground arith
bit-with_ne (suc i) (suc j) d h =
    ap (bit j) (half (with_bit i (d / 2)) d) ∙ bit-with_ne i j (d / 2) (λ e. h (ap suc e))

pub bit-without_self : (i d : ℕ) → bit i (without_bit i d) ≡ false
unfolding bit without_bit
bit-without_self zero d = ground arith
bit-without_self (suc i) d =
    ap (bit i) (half (without_bit i (d / 2)) d) ∙ bit-without_self i (d / 2)

pub bit-without_ne : (i j d : ℕ) → i ≢ j → bit j (without_bit i d) ≡ bit j d
unfolding bit without_bit
bit-without_ne zero zero d h = absurd (omega arith)
bit-without_ne zero (suc j) d h = ap (bit j) (omega arith)
bit-without_ne (suc i) zero d h = ground arith
bit-without_ne (suc i) (suc j) d h =
    ap (bit j) (half (without_bit i (d / 2)) d) ∙ bit-without_ne i j (d / 2) (λ e. h (ap suc e))
