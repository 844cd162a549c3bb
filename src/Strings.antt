-- ===== src/Strings.antt =====
-- kernel/src/std/memory.c and kernel/src/std/string.c: the memory is a function from addresses to
-- bytes, and a pointer an address. A string function runs on fuel, and reads until it finds the
-- terminating zero.
pub mod Blocks
pub mod Text
mod Tests
use munk_os.Prelude.{
  ℕ, zero, suc, ◌+◌, ◌-◌, ◌%◌, ◌^◌, Bool, true, false, ◌&&◌, ◌||◌, not, Option, none, some, Outcome,
  ok, out_of_fuel, ◌>>=◌, update, ltb, ◌==◌, if◌then◌else◌,
}

-- The loop of `memcpy`, and that of `memmove` to a lower address: `n` bytes, the first one first.
unfoldable pub copy_up : ℕ → ℕ → ℕ → (ℕ → ℕ) → ℕ → ℕ
copy_up zero dest src m = m
copy_up (suc n) dest src m = copy_up n (dest + 1) (src + 1) (update m dest (m src))

-- The loop of `memmove` to a higher address: `n` bytes, the last one first.
unfoldable pub copy_down : ℕ → ℕ → ℕ → (ℕ → ℕ) → ℕ → ℕ
copy_down zero dest src m = m
copy_down (suc n) dest src m = copy_down n dest src (update m (dest + n) (m (src + n)))

unfoldable pub memcpy : ℕ → ℕ → ℕ → (ℕ → ℕ) → ℕ → ℕ
memcpy dest src n m = copy_up n dest src m

unfoldable pub memmove : ℕ → ℕ → ℕ → (ℕ → ℕ) → ℕ → ℕ
memmove dest src n m =
    if ltb dest src
    then copy_up n dest src m
    else if ltb src dest
    then copy_down n dest src m
    else m

unfoldable pub memset : ℕ → ℕ → ℕ → (ℕ → ℕ) → ℕ → ℕ
memset s c zero m = m
memset s c (suc n) m = memset (s + 1) c n (update m s (c % 2 ^ 8))

-- The results -1, 0 and 1.
pub data Sign : Type 0 where
  below same above : Sign

unfoldable pub memcmp : ℕ → ℕ → ℕ → (ℕ → ℕ) → Sign
memcmp s1 s2 zero m = same
memcmp s1 s2 (suc n) m =
    let rest = memcmp (s1 + 1) (s2 + 1) n m in
    if m s1 == m s2 then rest else if ltb (m s1) (m s2) then below else above

unfoldable pub strlen : ℕ → ℕ → (ℕ → ℕ) → Outcome ℕ
strlen zero s m = out_of_fuel
strlen (suc fuel) s m = if m s == 0 then ok 0 else do n ← strlen fuel (s + 1) m; ok (n + 1)

unfoldable pub strcpy : ℕ → ℕ → ℕ → (ℕ → ℕ) → Outcome (ℕ → ℕ)
strcpy zero dest src m = out_of_fuel
strcpy (suc fuel) dest src m =
    let rest = strcpy fuel (dest + 1) (src + 1) (update m dest (m src)) in
    if m src == 0 then ok (update m dest 0) else rest

-- The first loop of `strncpy`, and where it stops its second one.
unfoldable pub strncpy : ℕ → ℕ → ℕ → (ℕ → ℕ) → ℕ → ℕ
unfolding memset
strncpy dest src zero m = m
strncpy dest src (suc n) m =
    let rest = strncpy (dest + 1) (src + 1) n (update m dest (m src)) in
    if m src == 0 then memset dest 0 (suc n) m else rest

unfoldable pub strcat : ℕ → ℕ → ℕ → (ℕ → ℕ) → Outcome (ℕ → ℕ)
strcat fuel dest src m = do n ← strlen fuel dest m; strcpy fuel (dest + n) src m

-- A pointer, or `none` for NULL. The characters compared are bytes from 0 to 127, which `char` and
-- `unsigned char` read alike.
unfoldable pub strchr : ℕ → ℕ → ℕ → (ℕ → ℕ) → Outcome (Option ℕ)
strchr zero s c m = out_of_fuel
strchr (suc fuel) s c m =
    let rest = strchr fuel (s + 1) c m in
    if m s == 0
    then (if c == 0 then ok (some s) else ok none)
    else if m s == c
    then ok (some s)
    else rest

-- The bytes at the first difference, or at the end: `strcmp` returns the first less the second.
unfoldable pub strcmp : ℕ → ℕ → ℕ → (ℕ → ℕ) → Outcome (ℕ × ℕ)
strcmp zero s1 s2 m = out_of_fuel
strcmp (suc fuel) s1 s2 m =
    let rest = strcmp fuel (s1 + 1) (s2 + 1) m in
    if not (m s1 == 0) && (m s1 == m s2) then rest else ok (m s1, m s2)
