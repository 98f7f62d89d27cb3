-- ===== src/Keyboard/Examples.antt =====
-- The keyboard of kernel/src/drivers/PS-2/kbd/ps2-kbd.c at concrete events.
use creeper_os_v.Prelude.{◌≡◌, refl, false, some, List, [], ◌∷◌, arith}
use creeper_os_v.Keyboard.{
  Keyboard, get_input_char_non_blocking, extended_key, plain_key, key_char, put_char,
  ps2_keyboard_handler, take_char, ps2_kbd_read,
}
use creeper_os_v.Keyboard.Keymaps.{azerty, keymaps}
use creeper_os_v.Keyboard.Queue.{queue_of, round_from}
use creeper_os_v.Keyboard.Runs.{Event, interrupt, reads, run, run_queue, NoZero, run-run_queue}

abbrev at_boot : Keyboard
at_boot = record {
  decoder = record {
    alt = false;
    altgr = false;
    ctrl = false;
    shift = false;
    capslock = false;
    extended = false;
    current_language = azerty;
  };
  buffer = record { chars = λ i. 0; buf_head = 255; buf_tail = 255 };
}

-- An a, an A with the shift key held, a read of two, and the key up.
abbrev events : List Event
events =
    interrupt (some 0x10)
    ∷ interrupt (some 0x2A)
    ∷ interrupt (some 0x10)
    ∷ reads 5 2
    ∷ interrupt (some 0xE0)
    ∷ interrupt (some 0x48)
    ∷ []

two_letters : (run events at_boot).0 ≡ 97 ∷ 65 ∷ []
unfolding run ps2_keyboard_handler get_input_char_non_blocking extended_key plain_key key_char
    keymaps put_char ps2_kbd_read take_char
two_letters = refl

one_waits : queue_of (run events at_boot).1.buffer ≡ 0x80 ∷ []
unfolding run ps2_keyboard_handler get_input_char_non_blocking extended_key plain_key key_char
    keymaps put_char ps2_kbd_read take_char queue_of round_from
one_waits = refl

none_wait : NoZero (queue_of at_boot.buffer)
unfolding queue_of round_from
none_wait = tt

run_example :
    ((run events at_boot).0, (run events at_boot).1.decoder, queue_of (run events at_boot).1.buffer)
    ≡ run_queue events at_boot.decoder (queue_of at_boot.buffer)
run_example =
    run-run_queue events at_boot (record { head = omega arith; tail = omega arith }) none_wait
