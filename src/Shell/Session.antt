-- ===== src/Shell/Session.antt =====
-- `write` and then `cat` of shell/shell.c.
use black_hole_os.Prelude.{
  ℕ, zero, suc, ◌+◌, ◌%◌, ◌^◌, ◌<◌, ◌≤◌, ◌≡◌, ◌≢◌, refl, ◌∙◌, ap, ap₂, arith, not, ◌&&◌, true,
  false, some, none, List, [], ◌∷◌, ◌++◌, All, length, length-append, replicate, set, take, drop,
  ltb, ◌==◌,
}
use black_hole_os.Prelude.Int.{ℤ, pos}
use black_hole_os.Drivers.Vga.{Screen, vga_print, vga_set_color, vga_black}
use black_hole_os.Drivers.Ata.Disk.{Disk}
use black_hole_os.Libc.Strings.{strcmp, strncmp}
use black_hole_os.Libc.Strings.CString.{NulFree, strlen_lem}
use black_hole_os.Libc.Stdio.{word, string, printf, c_text}
use black_hole_os.Libc.Stdio.Promises.{promise, unsigned_text}
use black_hole_os.Libc.Stdio.Printf.{render, printf-render}
use black_hole_os.Fs.Fat16.Root.{find_in_root, free_in_root}
use black_hole_os.Fs.Fat16.Sectors.{Sized}
use black_hole_os.Fs.Fat16.Contents.{take-exact}
use black_hole_os.Fs.Fat16.Files.{
  clusters_needed, fat16_read_file, fat16_write_file, fat16_delete_file,
}
use black_hole_os.Fs.Fat16.Regions.{IsRoomy}
use black_hole_os.Fs.Fat16.RoundTrip.{IsStorable}
use black_hole_os.Fs.Fat16.Space.{free_clusters, fat16_read_file-written}
use black_hole_os.Shell.{
  System, execute_command, execute, cmd_write, cmd_cat, name_loop, set_color, vga_light_green,
  vga_white,
}
use black_hole_os.Shell.Commands.{command_of, cat, write}
use black_hole_os.Shell.Texts

-- A name that `cmd_write` takes whole.
abbrev pub IsWord : List ℕ → Type 0
IsWord = All (λ c. (c ≢ 0) × (c ≢ b' '))

c_text_lem : (text rest : List ℕ) → NulFree text → c_text (text ++ 0 ∷ rest) ≡ some text
unfolding c_text
c_text_lem [] rest h = refl
c_text_lem (c ∷ text) rest (hc, h) =
    let more : (c == 0) ≡ false = ground arith in rw (more, c_text_lem text rest h) refl

IsWord-NulFree : (name : List ℕ) → IsWord name → NulFree name
IsWord-NulFree [] h = tt
IsWord-NulFree (c ∷ name) (hc, h) = (hc.0, IsWord-NulFree name h)

name_loop_lem :
    (name rest : List ℕ) (i : ℕ)
    → IsWord name
    → i + length name ≤ 31
    → name_loop (name ++ b' ' ∷ rest) i ≡ some (name, b' ' ∷ rest)
unfolding name_loop
name_loop_lem [] rest i h short = refl
name_loop_lem (c ∷ name) rest i (hc, h) short =
    let more : (not (c == 0) && not (c == b' ') && ltb i 31) ≡ true = ground (arith, hc.0, hc.1) in
    rw (more, name_loop_lem name rest (suc i) h (omega arith)) refl

command_of-write :
    (args : List ℕ)
    → command_of (b'w' ∷ b'r' ∷ b'i' ∷ b't' ∷ b'e' ∷ b' ' ∷ args) ≡ some (write args)
unfolding command_of strcmp strncmp
command_of-write args = refl

command_of-cat : (name : List ℕ) → command_of (b'c' ∷ b'a' ∷ b't' ∷ b' ' ∷ name) ≡ some (cat name)
unfolding command_of strcmp strncmp
command_of-cat name = refl

render-line :
    (str text : List ℕ)
    → c_text str ≡ some text
    → render Texts.line_text (string str ∷ []) ≡ some (text ++ 10 ∷ [])
unfolding render promise
render-line str text e = rw e refl

-- The message about a file that was written.
abbrev pub wrote : ℕ → List ℕ → List ℕ
wrote len name =
    b'W'
    ∷ b'r'
    ∷ b'o'
    ∷ b't'
    ∷ b'e'
    ∷ b' '
    ∷ (unsigned_text (len % 2 ^ 32)
        ++ (b' '
            ∷ b'b'
            ∷ b'y'
            ∷ b't'
            ∷ b'e'
            ∷ b's'
            ∷ b' '
            ∷ b't'
            ∷ b'o'
            ∷ b' '
            ∷ 39
            ∷ (name ++ (39 ∷ b'.' ∷ 10 ∷ []))))

render-wrote :
    (len : ℕ) (str name : List ℕ)
    → c_text str ≡ some name
    → render Texts.wrote_text (word len ∷ string str ∷ []) ≡ some (wrote len name)
unfolding render promise
render-wrote len str name e = rw e refl

module _ (buf : List ℕ) (size : length buf ≡ 32) where
  line_shown :
      (str text : List ℕ) (s : Screen)
      → c_text str ≡ some text
      → printf buf Texts.line_text (string str ∷ []) s
        ≡ some (length (text ++ 10 ∷ []), vga_print s (text ++ 10 ∷ []))
  line_shown str text s is_text =
      printf-render buf size Texts.line_text (string str ∷ []) s (text ++ 10 ∷ [])
        (render-line str text is_text)

  wrote_shown :
      (len : ℕ) (str name : List ℕ) (s : Screen)
      → c_text str ≡ some name
      → printf buf Texts.wrote_text (word len ∷ string str ∷ []) s
        ≡ some (length (wrote len name), vga_print s (wrote len name))
  wrote_shown len str name s is_name =
      printf-render buf size Texts.wrote_text (word len ∷ string str ∷ []) s (wrote len name)
        (render-wrote len str name is_name)

  set-end : (text rest : List ℕ) (x : ℕ) → set (text ++ x ∷ rest) (length text) 0 ≡ text ++ 0 ∷ rest
  set-end [] rest x = refl
  set-end (c ∷ text) rest x = ap (λ (l : List ℕ). c ∷ l) (set-end text rest x)

  drop-zeros : (n k : ℕ) → n < k → (rest : List ℕ) × (drop n (replicate k 0) ≡ 0 ∷ rest)
  drop-zeros n zero less = absurd (omega arith)
  drop-zeros zero (suc k) less = (replicate k 0, refl)
  drop-zeros (suc n) (suc k) less = drop-zeros n k (omega arith)

  module _ (fuel : ℕ) (y : System) (name text : List ℕ) (is_word : IsWord name)
      (few : length name ≤ 31) (no_nul : NulFree text) where
    abbrev after_message : Disk → System
    after_message disk =
        set_color vga_white (record (set_color vga_light_green (record y { disk = disk })) {
          screen =
              vga_print (vga_set_color y.screen vga_light_green vga_black)
                (wrote (length text) name);
        })

    cmd_write-run :
        (rest : List ℕ) (after : Disk)
        → fat16_write_file y.volume fuel buf name (text ++ 0 ∷ rest) (length text) y.disk y.screen
          ≡ some (pos 0, after, y.screen)
        → cmd_write buf fuel (name ++ b' ' ∷ (text ++ 0 ∷ rest)) y ≡ some (after_message after)
    unfolding cmd_write
    cmd_write-run rest after written =
        let parsed = name_loop_lem name (text ++ 0 ∷ rest) 0 is_word (omega arith) in
        let counted = strlen_lem text rest no_nul in
        let shown =
          wrote_shown (length text) (name ++ 0 ∷ []) name
            (vga_set_color y.screen vga_light_green vga_black)
            (c_text_lem name [] (IsWord-NulFree name is_word)) in
        rw (parsed, counted, written, shown) refl

    cmd_cat-run :
        (rest filler : List ℕ) (x : ℕ) (z : System)
        → fat16_read_file z.volume fuel name (replicate 2048 0) 2047 z.disk
          ≡ some (pos (length text), text ++ x ∷ filler)
        → cmd_cat buf fuel (name ++ 0 ∷ rest) z
          ≡ some (record z { screen = vga_print z.screen (text ++ 10 ∷ []) })
    unfolding cmd_cat
    cmd_cat-run rest filler x z read =
        let named = c_text_lem name rest (IsWord-NulFree name is_word) in
        let ended = set-end text filler x in
        let shown = line_shown (text ++ 0 ∷ filler) text z.screen (c_text_lem text filler no_nul) in
        rw (named, read, ended, shown) refl

    -- A text that is written to a file is what `cat` prints. Let the name have no space and no NUL,
    -- and 31 characters at most, and let its first byte in the directory be neither 0 nor 0xE5, the
    -- marks of a free slot; let the text have no NUL and 2047 characters at most; let the volume
    -- have room for the clusters that the allocation looks at, and the deletion that the write
    -- begins with leave a disk where the name is missing and where there are a free slot and enough
    -- free clusters, and let there be fuel for one step more than the file has clusters. Then the
    -- command `write` comes back, and after it the command `cat` prints the text and a newline, and
    -- changes nothing else.
    pub cat-write :
        (deleted : Disk) (ret : ℤ) (t i : ℕ) (rest rest' : List ℕ)
        → length text ≤ 2047
        → IsRoomy y.volume
        → IsStorable name
        → Sized deleted
        → fat16_delete_file y.volume fuel name y.disk ≡ some (ret, deleted)
        → find_in_root y.volume name 0 y.volume.root_dir_sectors deleted ≡ none
        → free_in_root y.volume 0 y.volume.root_dir_sectors deleted ≡ some (t, i)
        → clusters_needed y.volume (length text) ≤ free_clusters y.volume deleted
        → clusters_needed y.volume (length text) < fuel
        → (z : System) × (execute_command buf fuel
              (b'w' ∷ b'r' ∷ b'i' ∷ b't' ∷ b'e' ∷ b' ' ∷ (name ++ b' ' ∷ (text ++ 0 ∷ rest)))
              y
            ≡ some z)
          × (execute_command buf fuel (b'c' ∷ b'a' ∷ b't' ∷ b' ' ∷ (name ++ 0 ∷ rest')) z
              ≡ some (record z { screen = vga_print z.screen (text ++ 10 ∷ []) }))
    unfolding execute_command execute
    cat-write deleted ret t i rest rest' short roomy storable sized gone missing slot space rounds =
        let content = text ++ 0 ∷ rest in
        let (after, written, read) =
          fat16_read_file-written y.volume fuel fuel buf name content (replicate 2048 0)
            (length text) 2047 t i y.disk deleted ret y.screen roomy storable (omega arith)
            (omega (arith, length-append text (0 ∷ rest))) sized gone missing slot space rounds
            short (omega arith) in
        let (filler, tail) = drop-zeros (length text) 2048 (omega arith) in
        let bytes : take (length text) content ++ drop (length text) (replicate 2048 0)
            ≡ text ++ 0 ∷ filler =
          ap₂ (λ (l r : List ℕ). l ++ r) (take-exact (length text) text (0 ∷ rest) refl) tail in
        let wrote_it = cmd_write-run rest after written in
        let read_it =
          cmd_cat-run rest' filler 0 (after_message after)
            (read ∙ ap (λ (l : List ℕ). some (pos (length text), l)) bytes) in
        (
          after_message after,
          rw (command_of-write (name ++ b' ' ∷ content)) wrote_it,
          rw (command_of-cat (name ++ 0 ∷ rest')) read_it,
        )
