-- ===== src/Drivers/Keyboard.antt =====
-- drivers/keyboard.c: scancodes to characters, the ring buffer of keys, and line input. The static
-- variables of the driver are a record. The screen that `keyboard_readline` echoes to is the one of
-- drivers/vga.c.
pub mod Ring
pub mod Handler
pub mod Session
pub mod Read
pub mod Readline
mod Tests
use black_hole_os.Prelude.{
  ℕ, ◌+◌, ◌-◌, ◌%◌, ◌>>=◌, Bool, true, false, not, ◌||◌, Option, none, some, List, [], ◌∷◌, ltb,
  ◌==◌, if◌then◌else◌, bit_and, get_or, set,
}
use black_hole_os.Libc.Strings.{put}
use black_hole_os.Drivers.Vga.{Screen, vga_putchar, vga_print}

-- The tables without the zeros that end them; an entry that is not given is 0.
abbrev pub scancode_to_ascii : List ℕ
scancode_to_ascii =
    0 ∷ 27 ∷ b'1' ∷ b'2' ∷ b'3' ∷ b'4' ∷ b'5' ∷ b'6' ∷ b'7' ∷ b'8' ∷ b'9' ∷ b'0' ∷ b'-' ∷ b'=' ∷ 8
    ∷ 9 ∷ b'q' ∷ b'w' ∷ b'e' ∷ b'r' ∷ b't' ∷ b'y' ∷ b'u' ∷ b'i' ∷ b'o' ∷ b'p' ∷ b'[' ∷ b']' ∷ 10 ∷ 0
    ∷ b'a' ∷ b's' ∷ b'd' ∷ b'f' ∷ b'g' ∷ b'h' ∷ b'j' ∷ b'k' ∷ b'l' ∷ b';' ∷ 39 ∷ b'`' ∷ 0 ∷ 92
    ∷ b'z' ∷ b'x' ∷ b'c' ∷ b'v' ∷ b'b' ∷ b'n' ∷ b'm' ∷ b',' ∷ b'.' ∷ b'/' ∷ 0 ∷ b'*' ∷ 0 ∷ 32 ∷ 0
    ∷ 0 ∷ 0 ∷ 0 ∷ 0 ∷ 0 ∷ 0 ∷ 0 ∷ 0 ∷ 0 ∷ 0 ∷ 0 ∷ 0 ∷ 0 ∷ 0 ∷ 0 ∷ b'-' ∷ 0 ∷ 0 ∷ 0 ∷ b'+' ∷ []

abbrev pub scancode_to_ascii_shift : List ℕ
scancode_to_ascii_shift =
    0 ∷ 27 ∷ b'!' ∷ b'@' ∷ b'#' ∷ b'$' ∷ b'%' ∷ b'^' ∷ b'&' ∷ b'*' ∷ b'(' ∷ b')' ∷ b'_' ∷ b'+' ∷ 8
    ∷ 9 ∷ b'Q' ∷ b'W' ∷ b'E' ∷ b'R' ∷ b'T' ∷ b'Y' ∷ b'U' ∷ b'I' ∷ b'O' ∷ b'P' ∷ b'{' ∷ b'}' ∷ 10 ∷ 0
    ∷ b'A' ∷ b'S' ∷ b'D' ∷ b'F' ∷ b'G' ∷ b'H' ∷ b'J' ∷ b'K' ∷ b'L' ∷ b':' ∷ 34 ∷ b'~' ∷ 0 ∷ b'|'
    ∷ b'Z' ∷ b'X' ∷ b'C' ∷ b'V' ∷ b'B' ∷ b'N' ∷ b'M' ∷ b'<' ∷ b'>' ∷ b'?' ∷ 0 ∷ b'*' ∷ 0 ∷ 32 ∷ 0
    ∷ 0 ∷ 0 ∷ 0 ∷ 0 ∷ 0 ∷ 0 ∷ 0 ∷ 0 ∷ 0 ∷ 0 ∷ 0 ∷ 0 ∷ 0 ∷ 0 ∷ 0 ∷ b'-' ∷ 0 ∷ 0 ∷ 0 ∷ b'+' ∷ []

abbrev pub key_buf_size : ℕ
key_buf_size = 256

pub record Keyboard : Type 0 where
  pub key_buffer : List ℕ
  pub buf_head : ℕ
  pub buf_tail : ℕ
  pub shift_held : Bool

-- A key is dropped if the buffer is full.
unfoldable pub buf_push : Keyboard → ℕ → Keyboard
buf_push k c =
    let next = (k.buf_head + 1) % key_buf_size in
    if next == k.buf_tail
    then k
    else record k { key_buffer = set k.key_buffer k.buf_head c; buf_head = next }

abbrev pub buf_empty : Keyboard → Bool
buf_empty k = k.buf_tail == k.buf_head

unfoldable pub buf_pop : Keyboard → ℕ × Keyboard
buf_pop k =
    if k.buf_tail == k.buf_head
    then (0, k)
    else (get_or k.key_buffer k.buf_tail 0, record k { buf_tail = (k.buf_tail + 1) % key_buf_size })

unfoldable pub keyboard_init : Keyboard → Keyboard
keyboard_init k = record k { buf_head = 0; buf_tail = 0; shift_held = false }

-- The character of a key that goes down, or 0.
unfoldable pub translate : Bool → ℕ → ℕ
translate shift scancode =
    if shift then get_or scancode_to_ascii_shift scancode 0 else get_or scancode_to_ascii scancode 0

-- A scancode is an `unsigned char`.
unfoldable pub keyboard_handle_scancode : Keyboard → ℕ → Keyboard
keyboard_handle_scancode k scancode =
    if not (bit_and scancode 0x80 == 0)
    then (let released = bit_and scancode 0x7f in
        if released == 0x2a || released == 0x36 then record k { shift_held = false } else k)
    else if scancode == 0x2a || scancode == 0x36
    then record k { shift_held = true }
    else (let c = translate k.shift_held scancode in if c == 0 then k else buf_push k c)

-- The driver after a series of keyboard interrupts.
unfoldable pub handle_all : Keyboard → List ℕ → Keyboard
handle_all k [] = k
handle_all k (scancode ∷ later) = handle_all (keyboard_handle_scancode k scancode) later

-- A round of the loop of `keyboard_read`: the scancodes of the keyboard interrupts that come
-- between the test and `hlt`, and, if an interrupt ends the `hlt`, of those from then to the next
-- test; of which there are none if it was another interrupt. An interrupt between the last test and
-- the `buf_pop` does the same before that test.
pub data Round : Type 0 where
  woken : List ℕ → List ℕ → Round
  sleeps_on : List ℕ → Round

-- A read returns a key, with the driver and the rounds that did not take place, or it sleeps on.
pub data Reading : Type 0 where
  returns : ℕ → Keyboard → List Round → Reading
  asleep : Keyboard → Reading

abbrev pub read_now : Keyboard → List Round → Reading
read_now k rounds = let (c, k') = buf_pop k in returns c k' rounds

unfoldable pub keyboard_read : List Round → Keyboard → Reading
keyboard_read [] k = if buf_empty k then asleep k else read_now k []
keyboard_read (woken between behind ∷ rounds) k =
    let next = keyboard_read rounds (handle_all (handle_all k between) behind) in
    if buf_empty k then next else read_now k (woken between behind ∷ rounds)
keyboard_read (sleeps_on between ∷ rounds) k =
    if buf_empty k then asleep (handle_all k between) else read_now k (sleeps_on between ∷ rounds)

-- What `keyboard_readline` leaves: the buffer, the screen, and the keys that it did not read.
abbrev pub Line : Type 0
Line = List ℕ × Screen × List ℕ

-- `buf[i] = '\0'`
abbrev pub end_line : List ℕ → ℕ → Screen → List ℕ → Option Line
end_line buf i s keys = do buf ← put buf i 0; some (buf, s, keys)

-- The loop of `keyboard_readline` at `i`, and the NUL behind it; the list holds what the calls of
-- `keyboard_read` return, and `none` means that one of them sleeps on, or that a write goes past
-- the end of the buffer.
unfoldable pub readline_loop : ℕ → List ℕ → ℕ → List ℕ → Screen → Option Line
readline_loop max [] i buf s = if ltb i (max - 1) then none else end_line buf i s []
readline_loop max (c ∷ keys) i buf s =
    let erased = readline_loop max keys (i - 1) buf (vga_print s (8 ∷ b' ' ∷ 8 ∷ [])) in
    let ignored = readline_loop max keys i buf s in
    let stored : Option Line = (do
      buf ← put buf i c
      readline_loop max keys (i + 1) buf (vga_putchar s c)) in
    if not (ltb i (max - 1))
    then end_line buf i s (c ∷ keys)
    else if c == 10
    then end_line buf i (vga_putchar s 10) keys
    else if c == 8
    then (if ltb 0 i then erased else ignored)
    else stored

unfoldable pub keyboard_readline : ℕ → List ℕ → List ℕ → Screen → Option Line
keyboard_readline max keys buf s = readline_loop max keys 0 buf s
