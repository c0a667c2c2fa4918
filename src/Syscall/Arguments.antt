-- ===== src/Syscall/Arguments.antt =====
-- What the checks of Xv6-Threads/src/syscall.c guarantee, for a process that ends below KERNBASE: the
-- 32-bit sums in them do not wrap where it matters.
use os_wsl.Prelude.{
  ℕ, zero, suc, ◌+◌, ◌-◌, ◌≤◌, ◌<◌, ◌≡◌, ◌&&◌, none, some, arith, int_min, ltb, leb, if◌then◌else◌,
}
use os_wsl.String.{Mem}
use os_wsl.String.Copying.{text_length}
use os_wsl.Syscall.{kernbase, word_at, fetchint, find_zero, fetchstr, check_ptr}

-- `fetchint` gives the word if its four bytes lie in the process, and fails otherwise.
pub fetchint_lem :
    (sz a : ℕ) (m : Mem)
    → sz ≤ kernbase
    → a < 4294967296
    → fetchint sz m a ≡ (if leb (a + 4) sz then some (word_at m a) else none)
unfolding fetchint
fetchint_lem sz a m h w = ground arith

-- A pointer that the check lets pass begins in the process, and its block ends there; a size that is
-- negative does not pass.
pub check_ptr_lem :
    (sz size i : ℕ)
    → sz ≤ kernbase
    → size < 4294967296
    → i < 4294967296
    → check_ptr sz size i
      ≡ (if ltb size int_min && (ltb i sz && leb (i + size) sz) then some i else none)
unfolding check_ptr
check_ptr_lem sz size i h ws wi = ground arith

find_zero_lem :
    (n s : ℕ) (m : Mem)
    → find_zero n m s ≡ (if ltb (text_length s n m) n then some (text_length s n m) else none)
unfolding find_zero
find_zero_lem zero s m = ground arith
find_zero_lem (suc n) s m = ground (arith, find_zero_lem n (s + 1) m)

-- `fetchstr` gives the length of a string whose terminating zero lies in the process, and fails if
-- there is no zero between the address and the end of the process.
pub fetchstr_lem :
    (sz a : ℕ) (m : Mem)
    → fetchstr sz m a
      ≡ (if ltb (text_length a (sz - a) m) (sz - a) then some (text_length a (sz - a) m) else none)
unfolding fetchstr
fetchstr_lem sz a m = ground (arith, find_zero_lem (sz - a) a m)
