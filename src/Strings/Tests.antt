-- ===== src/Strings/Tests.antt =====
-- Runs of the string functions, and the theorems at concrete memories.
use munk_os.Prelude.{ℕ, ◌≡◌, refl, arith, update, [], ◌∷◌, ok}
use munk_os.Strings.{copy_down, memmove, strlen}
use munk_os.Strings.Blocks.{moved, memmove-moved}
use munk_os.Strings.Text.{IsText, strlen-length}

-- "ab" at 10 and "ac" at 20.
abbrev memory : ℕ → ℕ
memory = update (update (update (update (λ a. 0) 10 97) 11 98) 20 97) 21 99

ab : IsText memory 10 (97 ∷ 98 ∷ [])
ab = (refl, refl, (refl, refl, refl))

ac : IsText memory 20 (97 ∷ 99 ∷ [])
ac = (refl, refl, (refl, refl, refl))

-- Three bytes moved up by one, over themselves.
overlaps : memmove 11 10 3 memory 12 ≡ 98
unfolding memmove copy_down
overlaps = refl

memmove-moved_example : memmove 11 10 3 memory 12 ≡ moved 11 10 3 memory 12
memmove-moved_example = memmove-moved 3 11 10 memory 12

strlen-length_example : strlen 3 10 memory ≡ ok 2
strlen-length_example = strlen-length 3 10 memory (97 ∷ 98 ∷ []) (omega arith) ab
