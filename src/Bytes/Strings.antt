-- ===== src/Bytes/Strings.antt =====
-- libs/common/string.c: strings, which end with a NUL. A loop that runs to the NUL takes fuel, and
-- `none` says that the fuel ran out. A `char` is a byte, as on riscv32, and an `int` a 32-bit pattern.
use microkernel_book.Base.{
  ℕ, zero, suc, ◌+◌, ◌-◌, ◌*◌, ◌%◌, ◌^◌, not, ◌&&◌, Option, none, some, ◌==◌, leb, if◌then◌else◌,
  update,
}
use microkernel_book.Bytes.{Bytes}

unfoldable pub strlen : ℕ → Bytes → ℕ → ℕ → Option ℕ
strlen zero m s len = none
strlen (suc fuel) m s len =
    let rest = strlen fuel m (s + 1) (len + 1) in if m s == 0 then some len else rest

-- The difference of two bytes.
abbrev pub difference : ℕ → ℕ → ℕ
difference a b = (a + 2 ^ 32 - b) % 2 ^ 32

unfoldable pub strcmp : ℕ → Bytes → ℕ → ℕ → Option ℕ
strcmp zero m s1 s2 = none
strcmp (suc fuel) m s1 s2 =
    let rest = strcmp fuel m (s1 + 1) (s2 + 1) in
    if not (m s1 == m s2)
    then some (difference (m s1) (m s2))
    else (if m s1 == 0 then some 0 else rest)

unfoldable pub strncmp : Bytes → ℕ → ℕ → ℕ → ℕ
strncmp m s1 s2 zero = 0
strncmp m s1 s2 (suc len) =
    let rest = strncmp m (s1 + 1) (s2 + 1) len in
    if not (m s1 == m s2) then difference (m s1) (m s2) else (if m s1 == 0 then 0 else rest)

-- The loop of `strcpy_safe` with `room` bytes left for characters, and the NUL behind it.
unfoldable pub copy_string : ℕ → Bytes → ℕ → ℕ → Bytes
copy_string zero m dst src = update m dst 0
copy_string (suc room) m dst src =
    let rest = copy_string room (update m dst (m src)) (dst + 1) (src + 1) in
    if m src == 0 then update m dst 0 else rest

-- A `dst_len` of 0 fails an assertion.
unfoldable pub strcpy_safe : Bytes → ℕ → ℕ → ℕ → Option Bytes
unfolding copy_string
strcpy_safe m dst zero src = none
strcpy_safe m dst (suc room) src = some (copy_string room m dst src)

-- The address of the character, or `some none` for NULL.
unfoldable pub strchr : ℕ → Bytes → ℕ → ℕ → Option (Option ℕ)
strchr zero m s c = none
strchr (suc fuel) m s c =
    let rest = strchr fuel m (s + 1) c in
    if m s == 0 then some none else (if m s == c then some (some s) else rest)

-- The loop of `strstr` for a needle of `len` characters.
unfoldable pub strstr_loop : ℕ → Bytes → ℕ → ℕ → ℕ → Option (Option ℕ)
unfolding strncmp
strstr_loop zero m s needle len = none
strstr_loop (suc fuel) m s needle len =
    let rest = strstr_loop fuel m (s + 1) needle len in
    if m s == 0 then some none else (if strncmp m s needle len == 0 then some (some s) else rest)

abbrev pub with_length : Option ℕ → (ℕ → Option (Option ℕ)) → Option (Option ℕ)
with_length none f = none
with_length (some len) f = f len

unfoldable pub strstr : ℕ → Bytes → ℕ → ℕ → Option (Option ℕ)
unfolding strlen strstr_loop
strstr fuel m haystack needle =
    with_length (strlen fuel m needle 0) λ len. strstr_loop fuel m haystack needle len

unfoldable pub atoi : ℕ → Bytes → ℕ → ℕ → Option ℕ
atoi zero m s x = none
atoi (suc fuel) m s x =
    let rest = atoi fuel m (s + 1) ((x * 10 + (m s - 48)) % 2 ^ 32) in
    if leb 48 (m s) && leb (m s) 57 then rest else some x
