-- ===== src/Fs/Fat16/Names.antt =====
-- fs/fat16.c: names of files as 11 bytes. A name that a caller gives is the list of its characters;
-- to read at the end of the list is to read the NUL.
use black_hole_os.Prelude.{
  ℕ, zero, suc, ◌-◌, Bool, true, false, not, ◌&&◌, List, [], ◌∷◌, ◌++◌, get_or, set, drop,
  replicate, ltb, leb, ◌==◌, if◌then◌else◌,
}

-- `if (c >= 'a' && c <= 'z') c -= 32`
abbrev pub upper : ℕ → ℕ
upper c = if leb b'a' c && leb c b'z' then c - 32 else c

-- The first loop of `to_fat_name`: the rest of the input, and the name.
unfoldable pub base_loop : List ℕ → ℕ → List ℕ → List ℕ × List ℕ
base_loop [] j fat_name = ([], fat_name)
base_loop (c ∷ input) j fat_name =
    let next = base_loop input (suc j) (set fat_name j (upper c)) in
    if not (c == 0) && not (c == b'.') && ltb j 8 then next else (c ∷ input, fat_name)

-- The second loop.
unfoldable pub extension_loop : List ℕ → ℕ → List ℕ → List ℕ
extension_loop [] j fat_name = fat_name
extension_loop (c ∷ input) j fat_name =
    let next = extension_loop input (suc j) (set fat_name j (upper c)) in
    if not (c == 0) && ltb j 11 then next else fat_name

-- The test between the two.
abbrev pub extension : List ℕ × List ℕ → List ℕ
extension ([], fat_name) = fat_name
extension (c ∷ input, fat_name) = if c == b'.' then extension_loop input 8 fat_name else fat_name

-- What the pointer `fat_name` points to has 11 bytes at least.
unfoldable pub to_fat_name : List ℕ → List ℕ → List ℕ
to_fat_name input fat_name = extension (base_loop input 0 (replicate 11 b' ' ++ drop 11 fat_name))

-- The loop of `fat_name_match`, with how many bytes are left.
unfoldable pub match_loop : List ℕ → List ℕ → ℕ → ℕ → Bool
match_loop fat_name dir_name i zero = true
match_loop fat_name dir_name i (suc n) =
    let next = match_loop fat_name dir_name (suc i) n in
    if get_or fat_name i 0 == get_or dir_name i 0 then next else false

unfoldable pub fat_name_match : List ℕ → List ℕ → Bool
fat_name_match input dir_name = match_loop (to_fat_name input (replicate 11 0)) dir_name 0 11
