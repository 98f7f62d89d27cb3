-- ===== src/Keyboard.antt =====
-- The keyboard of kernel/src/drivers/PS-2/kbd/ps2-kbd.c: from scan codes to characters, and the buffer
-- between the interrupt and the reader.
--
-- What the two ports give is an argument: `none` where the status has no byte. The keys on which the
-- handler also writes to the log, and the end of the interrupt, are not in the model.
pub mod Keymaps
pub mod Queue
pub mod Runs
mod Examples
use creeper_os_v.Prelude.{
  ℕ, zero, suc, ◌+◌, ◌-◌, ◌%◌, Bool, true, false, not, ◌&&◌, ◌||◌, if◌then◌else◌, ◌==◌, leb, Option,
  none, some, List, [], ◌∷◌,
}
use creeper_os_v.Keyboard.Keymaps.{
  KeyboardLayout, KeyModifier, mod_normal, mod_shift, mod_altgr, keymaps,
}

-- `kbd_mod_keys` by flags, `extended` and `current_language`.
pub record Decoder : Type 0 where
  pub alt : Bool
  pub altgr : Bool
  pub ctrl : Bool
  pub shift : Bool
  pub capslock : Bool
  pub extended : Bool
  pub current_language : KeyboardLayout

-- input_char_buffer with buf_head and buf_tail.
pub record Buffer : Type 0 where
  pub chars : ℕ → ℕ
  pub buf_head : ℕ
  pub buf_tail : ℕ

pub record Keyboard : Type 0 where
  pub decoder : Decoder
  pub buffer : Buffer

-- INPUT_CHAR_BUFFER_SIZE
abbrev pub input_char_buffer_size : ℕ
input_char_buffer_size = 256

-- After the code 0xE0. Key codes are below 128.
unfoldable pub extended_key : (keycode : ℕ) → (released : Bool) → Decoder → ℕ × Decoder
extended_key keycode released d =
    let plain = record d { extended = false } in
    if released
    then (
      0,
      if keycode == 0x1D
          then record plain { ctrl = false }
          else if keycode == 0x38
          then record plain { altgr = false }
          else plain,
    )
    else if keycode == 0x48
    then (0x80, plain)
    else if keycode == 0x50
    then (0x81, plain)
    else if keycode == 0x4B
    then (0x82, plain)
    else if keycode == 0x4D
    then (0x83, plain)
    else if keycode == 0x47
    then (0x84, plain)
    else if keycode == 0x1D
    then (0, record plain { ctrl = true })
    else if keycode == 0x38
    then (0, record plain { altgr = true })
    else (0, plain)

-- The character of a key that is pressed, as an unsigned char.
unfoldable pub key_char : (keycode : ℕ) → Decoder → ℕ
unfolding keymaps
key_char keycode d =
    let shifted = if d.shift then not d.capslock else d.capslock in
    let modifier = if d.altgr then mod_altgr else if shifted then mod_shift else mod_normal in
    let base = keymaps d.current_language modifier keycode in
    let letter = (leb 65 base && leb base 90) || (leb 97 base && leb base 122) in
    if d.ctrl && letter && not d.altgr then (base - 65 + 159) % 256 else base

unfoldable pub plain_key : (keycode : ℕ) → (released : Bool) → Decoder → ℕ × Decoder
unfolding key_char
plain_key keycode released d =
    if (keycode == 0x2A) || (keycode == 0x36)
    then (0, record d { shift = not released })
    else if keycode == 0x3A
    then (0, if released then d else record d { capslock = not d.capslock })
    else if keycode == 0x1D
    then (0, record d { ctrl = not released })
    else if keycode == 0x38
    then (0, record d { alt = not released })
    else if released
    then (0, d)
    else (key_char keycode d, d)

unfoldable pub get_input_char_non_blocking : Option ℕ → Decoder → ℕ × Decoder
unfolding extended_key plain_key
get_input_char_non_blocking none d = (0, record d { extended = false })
get_input_char_non_blocking (some scancode) d =
    let released = leb 0x80 scancode in
    let keycode = scancode % 0x80 in
    if scancode == 0xE0
    then (0, record d { extended = true })
    else if d.extended
    then extended_key keycode released d
    else plain_key keycode released d

-- The handler's part with the buffer.
unfoldable pub put_char : (ch : ℕ) → Buffer → Buffer
put_char ch b =
    let next_tail = (b.buf_tail + 1) % input_char_buffer_size in
    if ch == 0
    then b
    else if next_tail == b.buf_head
    then b
    else record b { chars = λ i. if i == b.buf_tail then ch else b.chars i; buf_tail = next_tail }

unfoldable pub ps2_keyboard_handler : (port : Option ℕ) → Keyboard → Keyboard
unfolding get_input_char_non_blocking put_char
ps2_keyboard_handler port k =
    let (ch, decoder) = get_input_char_non_blocking port k.decoder in
    record { decoder = decoder; buffer = put_char ch k.buffer }

-- One round of the inner loop of ps2_kbd_read; the character is 0 where the buffer is empty.
unfoldable pub take_char : Buffer → ℕ × Buffer
take_char b =
    if b.buf_head == b.buf_tail
    then (0, b)
    else (b.chars b.buf_head, record b { buf_head = (b.buf_head + 1) % input_char_buffer_size })

-- The loops of ps2_kbd_read for `rounds` rounds of the inner one: the characters so far.
unfoldable pub ps2_kbd_read : (rounds count : ℕ) → Buffer → List ℕ × Buffer
unfolding take_char
ps2_kbd_read zero count b = ([], b)
ps2_kbd_read (suc rounds) zero b = ([], b)
ps2_kbd_read (suc rounds) (suc count) b =
    let (ch, c) = take_char b in
    let waited = ps2_kbd_read rounds (suc count) c in
    let (more, e) = ps2_kbd_read rounds count c in if ch == 0 then waited else (ch ∷ more, e)
