-- ===== src/Keyboard/Runs.antt =====
-- Interrupts and readers of the keyboard in any order: kernel/src/drivers/PS-2/kbd/ps2-kbd.c.
use creeper_os_v.Prelude.{
  ℕ, zero, suc, ◌≡◌, ◌≢◌, refl, sym, ap, ◌∙◌, subst, inl, inr, false, ◌==◌, Option, List, [], ◌∷◌,
  ◌++◌, length, arith, Bool-cases,
}
use creeper_os_v.Keyboard.{
  Decoder, Buffer, Keyboard, get_input_char_non_blocking, ps2_keyboard_handler, take_char,
  ps2_kbd_read,
}
use creeper_os_v.Keyboard.Queue.{queue_of, IsBuffer, push, put_char-push, take_char-queue}

-- All characters that wait are other than 0.
abbrev pub NoZero : List ℕ → Type 0
NoZero [] = Unit {0}
NoZero (x ∷ xs) = (x ≢ 0) × NoZero xs

NoZero-++ : (xs : List ℕ) (ch : ℕ) → NoZero xs → ch ≢ 0 → NoZero (xs ++ (ch ∷ []))
NoZero-++ [] ch n ne = (ne, tt)
NoZero-++ (x ∷ xs) ch (other, n) ne = (other, NoZero-++ xs ch n ne)

push-NoZero : (ch : ℕ) (q : List ℕ) → NoZero q → NoZero (push ch q)
unfolding push
push-NoZero ch q n = elim (Bool-cases (ch == 0)) [
  | inl none_typed ↦ rw none_typed n
  | inr typed ↦ elim (Bool-cases (length q == 255)) [
    | inl full ↦ rw (typed, full) n
    | inr room ↦
        let ne : ch ≢ 0 = λ e. ground (arith, typed) in rw (typed, room) (NoZero-++ q ch n ne)
  ]
]

-- What a reader gets from a queue: characters from its front, and the queue that is left.
unfoldable pub read_queue : (rounds count : ℕ) → List ℕ → List ℕ × List ℕ
read_queue zero count q = ([], q)
read_queue (suc rounds) zero q = ([], q)
read_queue (suc rounds) (suc count) [] = ([], [])
read_queue (suc rounds) (suc count) (x ∷ q) =
    let (more, left) = read_queue rounds count q in (x ∷ more, left)

read_queue-empty : (rounds count : ℕ) → read_queue rounds count [] ≡ ([], [])
unfolding read_queue
read_queue-empty zero count = refl
read_queue-empty (suc rounds) zero = refl
read_queue-empty (suc rounds) (suc count) = refl

-- The characters that a read gave and the buffer that it left are those of a read from the queue.
abbrev Reads : (rounds count : ℕ) (q : List ℕ) → List ℕ × Buffer → Type 0
Reads rounds count q r =
    IsBuffer r.1 × NoZero (queue_of r.1) × ((r.0, queue_of r.1) ≡ read_queue rounds count q)

read_waits :
    (rounds count : ℕ) (b c : Buffer)
    → take_char b ≡ (0, c)
    → ps2_kbd_read (suc rounds) (suc count) b ≡ ps2_kbd_read rounds (suc count) c
unfolding ps2_kbd_read
read_waits rounds count b c e = rw (ps2_kbd_read, e) refl

read_gets :
    (rounds count ch : ℕ) (b c : Buffer)
    → take_char b ≡ (ch, c)
    → ch ≢ 0
    → ps2_kbd_read (suc rounds) (suc count) b
      ≡ (ch ∷ (ps2_kbd_read rounds count c).0, (ps2_kbd_read rounds count c).1)
unfolding ps2_kbd_read
read_gets rounds count ch b c e ne =
    let typed : (ch == 0) ≡ false = ground (arith, ne) in rw (ps2_kbd_read, e, typed) refl

read-Reads :
    (rounds count : ℕ) (b : Buffer)
    → IsBuffer b
    → NoZero (queue_of b)
    → Reads rounds count (queue_of b) (ps2_kbd_read rounds count b)
unfolding ps2_kbd_read read_queue
read-Reads zero count b v n = (v, n, refl)
read-Reads (suc rounds) zero b v n = (v, n, refl)
read-Reads (suc rounds) (suc count) b v n = elim (take_char-queue b v) [
  | inl (waits, empty) ↦
      let (v', n', e) = read-Reads rounds (suc count) b v n in
      subst (Reads (suc rounds) (suc count) (queue_of b)) (sym (read_waits rounds count b b waits))
        (
          v',
          n',
          e
              ∙ ap (read_queue rounds (suc count)) empty
              ∙ read_queue-empty rounds (suc count)
              ∙ sym (read_queue-empty (suc rounds) (suc count))
              ∙ ap (read_queue (suc rounds) (suc count)) (sym empty),
        )
  | inr (ch, c, takes, w, front) ↦
      let (ne, m) : NoZero (ch ∷ queue_of c) = subst NoZero front n in
      let (v', n', e) = read-Reads rounds count c w m in
      subst (Reads (suc rounds) (suc count) (queue_of b))
        (sym (read_gets rounds count ch b c takes ne))
        (v', n', ap (λ r. (ch ∷ r.0, r.1)) e ∙ ap (read_queue (suc rounds) (suc count)) (sym front))
]

-- An interrupt, with what the ports give, or a reader's rounds.
pub data Event : Type 0 where
  interrupt : Option ℕ → Event
  reads : (rounds count : ℕ) → Event

-- The characters that readers got, and the state after all events.
unfoldable pub run : List Event → Keyboard → List ℕ × Keyboard
unfolding ps2_keyboard_handler ps2_kbd_read
run [] k = ([], k)
run (interrupt port ∷ es) k = run es (ps2_keyboard_handler port k)
run (reads rounds count ∷ es) k =
    let (got, buffer) = ps2_kbd_read rounds count k.buffer in
    let (more, last) = run es (record k { buffer = buffer }) in (got ++ more, last)

-- The same with a queue.
unfoldable pub run_queue : List Event → Decoder → List ℕ → List ℕ × Decoder × List ℕ
unfolding push read_queue get_input_char_non_blocking
run_queue [] d q = ([], d, q)
run_queue (interrupt port ∷ es) d q =
    let (ch, e) = get_input_char_non_blocking port d in run_queue es e (push ch q)
run_queue (reads rounds count ∷ es) d q =
    let (got, left) = read_queue rounds count q in
    let (more, last, rest) = run_queue es d left in (got ++ more, last, rest)

-- From a buffer whose indices are in range and in which all characters that wait are other than 0, any
-- sequence of interrupts and reads gives the readers the characters that a queue of at most 255 gives, in
-- which each interrupt puts its character at the end, and leaves the same decoder and the same characters.
pub run-run_queue :
    (es : List Event) (k : Keyboard)
    → IsBuffer k.buffer
    → NoZero (queue_of k.buffer)
    → ((run es k).0, (run es k).1.decoder, queue_of (run es k).1.buffer)
      ≡ run_queue es k.decoder (queue_of k.buffer)
unfolding run run_queue ps2_keyboard_handler
run-run_queue [] k v n = refl
run-run_queue (interrupt port ∷ es) k v n =
    let ch = (get_input_char_non_blocking port k.decoder).0 in
    let (v', pushed) = put_char-push ch k.buffer v in
    run-run_queue es (ps2_keyboard_handler port k) v'
      (rw pushed (push-NoZero ch (queue_of k.buffer) n))
    ∙ ap (run_queue es (get_input_char_non_blocking port k.decoder).1) pushed
run-run_queue (reads rounds count ∷ es) k v n =
    let (v', n', e) = read-Reads rounds count k.buffer v n in
    let later =
      run-run_queue es (record k { buffer = (ps2_kbd_read rounds count k.buffer).1 }) v' n' in
    ap (λ r. ((ps2_kbd_read rounds count k.buffer).0 ++ r.0, r.1, r.2)) later
    ∙ ap
        (λ r. (
          r.0 ++ (run_queue es k.decoder r.1).0,
          (run_queue es k.decoder r.1).1,
          (run_queue es k.decoder r.1).2,
        ))
        e
