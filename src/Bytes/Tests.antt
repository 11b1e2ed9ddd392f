-- ===== src/Bytes/Tests.antt =====
-- The functions of string.c on a small memory.
use microkernel_book.Base.{ℕ, ◌+◌, ◌<◌, ◌≡◌, inr, refl, some, ◌==◌, leb, min, if◌then◌else◌, arith}
use microkernel_book.Bytes.{Bytes, memmove}
use microkernel_book.Bytes.Copy.{copied, memmove-copied}
use microkernel_book.Bytes.Strings.{strcmp, strcpy_safe, atoi}
use microkernel_book.Bytes.Text.{IsText, with_text, strcpy_safe-with_text}

-- 10 to 13 hold 1, the rest 7.
abbrev bytes : Bytes
bytes a = if leb 10 a then if leb 14 a then 7 else 1 else 7

bytes-small : (a : ℕ) → bytes a < 256
bytes-small a = ground arith

memmove-copied_example :
    memmove bytes 12 10 4 13
    ≡ (if leb 12 10 then copied bytes 12 10 4 13 else copied bytes (12 + 1) (10 + 1) 4 13)
memmove-copied_example = memmove-copied 4 bytes 12 10 13

-- The text "42" at 20, and NULs around.
abbrev texts : Bytes
texts a = if a == 20 then 52 else (if a == 21 then 50 else 0)

first-IsText : IsText texts 20 2
first-IsText = record { ending = refl; characters = λ i l e. ground (arith, l, e) }

strcpy_safe-with_text_example :
    (m' : Bytes) × (strcpy_safe texts 40 2 20 ≡ some m')
    × ((a : ℕ) → m' a ≡ with_text texts 40 20 (min 2 1) a)
strcpy_safe-with_text_example =
    strcpy_safe-with_text 1 2 texts 40 20 first-IsText (inr (omega arith))

compared : strcmp 3 texts 20 21 ≡ some 2
unfolding strcmp
compared = refl

parsed : atoi 3 texts 20 0 ≡ some 42
unfolding atoi
parsed = refl
