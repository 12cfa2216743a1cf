-- ===== src/Shell.antt =====
-- shell/shell.c: the commands, over the drivers, the filesystem, the heap and the timer. `none` is
-- a run that does not come back: a fault, the page fault that `pagefault` makes, a wait for more
-- interrupts or keys than there are, or a lack of fuel.
pub mod Texts
pub mod Commands
pub mod Session
mod Tests
use mathlib.Core.Option
use black_hole_os.Prelude.{
  ℕ, zero, suc, ◌+◌, ◌-◌, ◌*◌, ◌%◌, ◌^◌, Bool, not, ◌&&◌, ◌>>=◌, Option, some, none, List, [], ◌∷◌,
  ◌++◌, replicate, set, take, ltb, ◌==◌, if◌then◌else◌,
}
use black_hole_os.Prelude.Int.{ℤ, pos, negsuc}
use black_hole_os.Kernel.Memory.{Mem, memory_alloc, memory_free}
use black_hole_os.Drivers.Vga.{
  Screen, Buffer, poke, vga_black, vga_light_green, vga_set_color, vga_clear,
}
use black_hole_os.Drivers.Timer.{Timer, Outcome, returned, waiting, fault, sleep, timer_get_ticks}
use black_hole_os.Drivers.Keyboard.{keyboard_readline}
use black_hole_os.Drivers.Ata.Disk.{Disk, read_sector, write_sector}
use black_hole_os.Libc.Strings.{memset, strcpy, strlen, uitoa}
use black_hole_os.Libc.Stdio.{Arg, word, string, printf, c_text}
use black_hole_os.Fs.Fat16.Volume.{Volume}
use black_hole_os.Fs.Fat16.Root.{fat16_list_root}
use black_hole_os.Fs.Fat16.Files.{fat16_read_file, fat16_write_file, fat16_delete_file}
use black_hole_os.Shell.Commands.{
  Command, command_of, nothing, help, clear, echo, alloc, uptime, sleeping, pagefault, diskwrite,
  diskread, ls, cat, write, rm, unknown,
}
use black_hole_os.Shell.Texts

abbrev pub max_cmd_len : ℕ
max_cmd_len = 128

abbrev pub vga_light_blue : ℕ
vga_light_blue = 9

abbrev pub vga_light_cyan : ℕ
vga_light_cyan = 11

abbrev pub vga_light_red : ℕ
vga_light_red = 12

abbrev pub vga_yellow : ℕ
vga_yellow = 14

abbrev pub vga_white : ℕ
vga_white = 15

-- What the commands work on. `interrupts` are those to come, as for `sleep`, and `keys` what the
-- keyboard will give.
pub record System : Type 0 where
  pub screen : Screen
  pub mem : Mem
  pub timer : Timer
  pub interrupts : List Bool
  pub keys : List ℕ
  pub volume : Volume
  pub disk : Disk

abbrev pub set_color : ℕ → System → System
set_color fg y = record y { screen = vga_set_color y.screen fg vga_black }

-- The loop of `cmd_write` at `i`: the bytes of the name, and the pointer behind them.
unfoldable pub name_loop : List ℕ → ℕ → Option (List ℕ × List ℕ)
name_loop [] i = none
name_loop (c ∷ args) i =
    let next = name_loop args (suc i) in
    if not (c == 0) && not (c == b' ') && ltb i 31
    then Option.map (λ out. (c ∷ out.0, out.1)) next
    else some ([], c ∷ args)

-- `if (args[i] == ' ') i++`
abbrev pub skip_space : List ℕ → List ℕ
skip_space [] = []
skip_space (c ∷ args) = if c == b' ' then args else c ∷ args

-- `buf` is the buffer of `printf`, and `fuel` that of the filesystem.
module _ (buf : List ℕ) (fuel : ℕ) where
  abbrev pub say_with : List ℕ → List Arg → System → Option System
  say_with text args y =
      Option.map (λ out. record y { screen = out.1 }) (printf buf text args y.screen)

  abbrev pub say : List ℕ → System → Option System
  say text y = say_with text [] y

  unfoldable pub say_lines : List (List ℕ) → System → Option System
  say_lines [] y = some y
  say_lines (line ∷ lines) y = do y ← say line y; say_lines lines y

  -- A message in red, and white again.
  abbrev pub complain : List ℕ → List Arg → System → Option System
  complain text args y = do
    y ← say_with text args (set_color vga_light_red y)
    some (set_color vga_white y)

  unfoldable pub shell_init : System → Option System
  shell_init y = do
    y ← say Texts.rule_text (set_color vga_light_cyan y)
    y ← say Texts.welcome_text y
    y ← say Texts.rule_end_text y
    say Texts.type_help_text (set_color vga_white y)

  abbrev pub cmd_help : System → Option System
  cmd_help y = do
    y ← say Texts.help_title (set_color vga_light_blue y)
    say_lines Texts.help_lines (set_color vga_white y)

  abbrev pub report_alloc : ℕ × Mem → System → Option System
  report_alloc (ptr, mem) y =
      let y = record y { mem = mem } in
      let served : Option System = (do
        y ← say Texts.success_text (set_color vga_light_green y)
        mem ← memory_free y.mem ptr
        say Texts.freed_text (record (set_color vga_white y) { mem = mem })) in
      if ptr == 0 then complain Texts.failed_text [] y else served

  unfoldable pub cmd_alloc : System → Option System
  cmd_alloc y = do y ← say Texts.allocating_text y; out ← memory_alloc y.mem 64; report_alloc out y

  abbrev pub after_sleep : Outcome (Timer × List Bool) → System → Option System
  after_sleep (returned (timer, interrupts)) y =
      say Texts.done_text (record y { timer = timer; interrupts = interrupts })
  after_sleep waiting y = none
  after_sleep fault y = none

  unfoldable pub cmd_sleep : System → Option System
  cmd_sleep y = do y ← say Texts.sleeping_text y; after_sleep (sleep 1000 y.interrupts y.timer) y

  unfoldable pub cmd_diskwrite : System → Option System
  cmd_diskwrite y = do
    zeroed ← memset (replicate 512 0) 0 512
    buffer ← strcpy zeroed Texts.hello_text
    y ← say Texts.writing_text y
    say Texts.complete_text (record y { disk = write_sector 10 buffer y.disk })

  unfoldable pub cmd_diskread : System → Option System
  cmd_diskread y = do
    y ← say Texts.reading_text y
    say_with Texts.data_text (string (read_sector 10 y.disk) ∷ []) y

  unfoldable pub cmd_ls : System → Option System
  cmd_ls y = do
    y ← say Texts.root_text y
    Option.map (λ s. record y { screen = s }) (fat16_list_root buf y.volume y.disk y.screen)

  abbrev pub show_file : List ℕ → ℤ × List ℕ → System → Option System
  show_file filename (pos bytes, contents) y =
      say_with Texts.line_text (string (set contents bytes 0) ∷ []) y
  show_file filename (negsuc n, contents) y = complain Texts.not_found_text (string filename ∷ []) y

  unfoldable pub cmd_cat : List ℕ → System → Option System
  cmd_cat filename y = do
    name ← c_text filename
    out ← fat16_read_file y.volume fuel name (replicate 2048 0) (2048 - 1) y.disk
    show_file filename out y

  abbrev pub report_write : ℕ → List ℕ → ℤ × Disk × Screen → System → Option System
  report_write len filename (negsuc n, disk, s) y = some (record y { disk = disk; screen = s })
  report_write len filename (pos (suc n), disk, s) y = some (record y { disk = disk; screen = s })
  report_write len filename (pos zero, disk, s) y = do
    y ←
        say_with Texts.wrote_text (word len ∷ string (filename ++ 0 ∷ []) ∷ [])
          (set_color vga_light_green (record y { disk = disk; screen = s }))
    some (set_color vga_white y)

  unfoldable pub cmd_write : List ℕ → System → Option System
  cmd_write args y = do
    parsed ← name_loop args 0
    let content = skip_space parsed.1
    len ← strlen content
    out ← fat16_write_file y.volume fuel buf parsed.0 content len y.disk y.screen
    report_write len parsed.0 out y

  abbrev pub report_rm : List ℕ → ℤ × Disk → System → Option System
  report_rm filename (pos zero, disk) y =
      say_with Texts.deleted_text (string filename ∷ []) (record y { disk = disk })
  report_rm filename (pos (suc n), disk) y =
      complain Texts.not_found_text (string filename ∷ []) (record y { disk = disk })
  report_rm filename (negsuc n, disk) y =
      complain Texts.not_found_text (string filename ∷ []) (record y { disk = disk })

  unfoldable pub cmd_rm : List ℕ → System → Option System
  cmd_rm filename y = do
    name ← c_text filename
    out ← fat16_delete_file y.volume fuel name y.disk
    report_rm filename out y

  -- The store of `pagefault` goes to an address that is not mapped.
  unfoldable pub execute : Command → System → Option System
  execute nothing y = some y
  execute help y = cmd_help y
  execute clear y = some (record y { screen = vga_clear y.screen })
  execute (echo text) y = say_with Texts.line_text (string text ∷ []) y
  execute alloc y = cmd_alloc y
  execute uptime y = say_with Texts.uptime_text (word (timer_get_ticks y.timer) ∷ []) y
  execute sleeping y = cmd_sleep y
  execute pagefault y = do y ← say Texts.pagefault_text y; none
  execute diskwrite y = cmd_diskwrite y
  execute diskread y = cmd_diskread y
  execute ls y = cmd_ls y
  execute (cat filename) y = cmd_cat filename y
  execute (write args) y = cmd_write args y
  execute (rm filename) y = cmd_rm filename y
  execute (unknown cmd) y = complain Texts.unknown_command_text (string cmd ∷ []) y

  unfoldable pub execute_command : List ℕ → System → Option System
  execute_command cmd y = do command ← command_of cmd; execute command y

  -- One round of the loop of `shell_loop`: the line that it reads, and the system.
  unfoldable pub shell_round : List ℕ → System → Option (List ℕ × System)
  shell_round cmd_buffer y = do
    y ← say Texts.prompt_text (set_color vga_yellow y)
    line ← keyboard_readline max_cmd_len y.keys cmd_buffer (set_color vga_white y).screen
    y ← execute_command line.0 (record y { keys = line.2; screen = line.1 })
    some (line.0, y)

-- The loop of `background_task` that shows a numeral in the first row from column `i` on: the low
-- bytes of the cells.
unfoldable pub show_loop : List ℕ → ℕ → Buffer → Option Buffer
show_loop [] i m = none
show_loop (c ∷ text) i m =
    let next = show_loop text (suc i) (poke m (i * 2) c) in if c == 0 then some m else next

-- One round of `background_task`, with the value of `count` and the bytes of `buffer`, up to the
-- call of `sleep`.
unfoldable pub background_round : ℕ → List ℕ → Screen → Option (ℕ × List ℕ × Screen)
background_round count buffer s = do
  text ← uitoa count buffer 10
  m ← show_loop text 70 s.vga_buffer
  some ((count + 1) % 2 ^ 32, text, record s { vga_buffer = m })
