-- ===== src/Shell/Commands.antt =====
-- shell/shell.c: which command a line is. A line is the bytes of the buffer, up to its end.
use black_hole_os.Prelude.{
  ℕ, zero, suc, Bool, true, false, Option, some, none, List, [], ◌∷◌, drop, ◌==◌, if◌then◌else◌,
}
use black_hole_os.Prelude.Int.{ℤ, pos, negsuc}
use black_hole_os.Libc.Strings.{strcmp, strncmp}
use black_hole_os.Shell.Texts.{
  help_word, clear_word, echo_word, alloc_word, uptime_word, sleep_word, pagefault_word,
  diskwrite_word, diskread_word, ls_word, cat_word, write_word, rm_word,
}

-- The branches of `execute_command`, with the rest of the line where one uses it.
pub data Command : Type 0 where
  nothing : Command
  help : Command
  clear : Command
  echo : List ℕ → Command
  alloc : Command
  uptime : Command
  sleeping : Command
  pagefault : Command
  diskwrite : Command
  diskread : Command
  ls : Command
  cat : List ℕ → Command
  write : List ℕ → Command
  rm : List ℕ → Command
  unknown : List ℕ → Command

-- `== 0`
abbrev pub is_zero_int : ℤ → Bool
is_zero_int (pos zero) = true
is_zero_int (pos (suc n)) = false
is_zero_int (negsuc n) = false

-- A branch whose test is on a string: `none` is a read past the end of the line.
abbrev pub branch : Option ℤ → Command → Option Command → Option Command
branch none taken otherwise = none
branch (some order) taken otherwise = if is_zero_int order then some taken else otherwise

-- The tests of `execute_command`, in their order.
unfoldable pub command_of : List ℕ → Option Command
command_of [] = none
command_of (c ∷ line) =
    let cmd = c ∷ line in
    if c == 0
    then some nothing
    else branch (strcmp cmd help_word) help (
        branch (strcmp cmd clear_word) clear (
          branch (strncmp cmd echo_word 5) (echo (drop 5 cmd)) (
            branch (strcmp cmd alloc_word) alloc (
              branch (strcmp cmd uptime_word) uptime (
                branch (strcmp cmd sleep_word) sleeping (
                  branch (strcmp cmd pagefault_word) pagefault (
                    branch (strcmp cmd diskwrite_word) diskwrite (
                      branch (strcmp cmd diskread_word) diskread (
                        branch (strcmp cmd ls_word) ls (
                          branch (strncmp cmd cat_word 4) (cat (drop 4 cmd)) (
                            branch (strncmp cmd write_word 6) (write (drop 6 cmd)) (
                              branch (strncmp cmd rm_word 3) (rm (drop 3 cmd))
                                (some (unknown cmd))))))))))))))
