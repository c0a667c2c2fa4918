-- ===== src/Fs/Inode/Layout.antt =====
-- What Xv6-Threads/src/fs.c keeps in the bytes of a block: the words of an indirect block, and the
-- fields of an inode.
use os_wsl.Prelude.{
  ℕ, ◌+◌, ◌*◌, ◌/◌, ◌%◌, ◌<◌, ◌≡◌, ◌≢◌, refl, ap, ◌∙◌, true, false, ◌&&◌, arith, ◌==◌,
}
use os_wsl.Fs.{Bytes, put}
use os_wsl.Fs.Inode.{word_byte, get_word, put_word}

put-here : (b i v : ℕ) (st : Bytes) → put b i v st b i ≡ v
put-here b i v st = let here : (b == b && i == i) ≡ true = ground arith in rw here refl

pub put-byte : (b i v c j : ℕ) (st : Bytes) → j ≢ i → put b i v st c j ≡ st c j
put-byte b i v c j st h = let apart : (c == b && j == i) ≡ false = ground arith in rw apart refl

pub put_word-ne :
    (b i v c j : ℕ) (st : Bytes) → (c == b && j / 4 == i) ≡ false → put_word b i v st c j ≡ st c j
unfolding put_word
put_word-ne b i v c j st h = rw h refl

put_word-byte : (b i k v : ℕ) (st : Bytes) → k < 4 → put_word b i v st b (4 * i + k) ≡ word_byte k v
unfolding put_word
put_word-byte b i k v st h =
    let here : (b == b && (4 * i + k) / 4 == i) ≡ true = ground arith in
    let low : (4 * i + k) % 4 ≡ k = omega arith in rw here (rw low refl)

abbrev uint_of : ℕ → ℕ → ℕ → ℕ → ℕ
uint_of a b c d = a + 256 * b + 65536 * c + 16777216 * d

uint_of-eq :
    {a b c d a' b' c' d' : ℕ}
    → a ≡ a'
    → b ≡ b'
    → c ≡ c'
    → d ≡ d'
    → uint_of a b c d ≡ uint_of a' b' c' d'
uint_of-eq p q r s = omega arith

pub get_word-put_self :
    (b i v : ℕ) (st : Bytes) → v < 4294967296 → get_word (put_word b i v st) b i ≡ v
unfolding get_word
get_word-put_self b i v st h =
    uint_of-eq (ap (put_word b i v st b) (omega arith) ∙ put_word-byte b i 0 v st (omega arith))
      (put_word-byte b i 1 v st (omega arith)) (put_word-byte b i 2 v st (omega arith))
      (put_word-byte b i 3 v st (omega arith))
    ∙ omega arith

pub get_word-same :
    (st st' : Bytes) (b i : ℕ)
    → ((j : ℕ) → j / 4 ≡ i → st b j ≡ st' b j)
    → get_word st b i ≡ get_word st' b i
unfolding get_word
get_word-same st st' b i h =
    uint_of-eq (h (4 * i) (omega arith)) (h (4 * i + 1) (omega arith)) (h (4 * i + 2) (omega arith))
      (h (4 * i + 3) (omega arith))

pub get_word-put_ne :
    (b i k v c : ℕ) (st : Bytes) → k ≢ i → get_word (put_word b i v st) c k ≡ get_word st c k
get_word-put_ne b i k v c st h =
    get_word-same (put_word b i v st) st c k (λ j e. put_word-ne b i v c j st (ground arith))
