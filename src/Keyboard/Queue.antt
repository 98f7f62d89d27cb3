-- ===== src/Keyboard/Queue.antt =====
-- The buffer of kernel/src/drivers/PS-2/kbd/ps2-kbd.c is a queue of 255 characters.
use creeper_os_v.Prelude.{
  ℕ, zero, suc, ◌+◌, ◌-◌, ◌%◌, ◌<◌, ◌≡◌, ◌≢◌, refl, ap, ◌∙◌, ◌⊎◌, inl, inr, true, false,
  if◌then◌else◌, ◌==◌, List, [], ◌∷◌, ◌++◌, length, arith, Bool-cases,
}
use creeper_os_v.Keyboard.{Buffer, put_char, take_char}

-- The characters from an index on, going round.
unfoldable pub round_from : (chars : ℕ → ℕ) → (n at : ℕ) → List ℕ
round_from chars zero at = []
round_from chars (suc n) at = chars at ∷ round_from chars n ((at + 1) % 256)

abbrev pub count_of : Buffer → ℕ
count_of b = (b.buf_tail + 256 - b.buf_head) % 256

-- The characters that wait, the oldest first.
unfoldable pub queue_of : Buffer → List ℕ
unfolding round_from
queue_of b = round_from b.chars (count_of b) b.buf_head

pub record IsBuffer (b : Buffer) : Type 0 where
  pub head : b.buf_head < 256
  pub tail : b.buf_tail < 256

-- The queue, as a reader may think of it: a character other than 0 comes behind all others, if there are
-- fewer than 255.
unfoldable pub push : (ch : ℕ) → List ℕ → List ℕ
push ch q = if ch == 0 then q else if length q == 255 then q else q ++ (ch ∷ [])

length-round_from : (chars : ℕ → ℕ) (n at : ℕ) → length (round_from chars n at) ≡ n
unfolding round_from
length-round_from chars zero at = refl
length-round_from chars (suc n) at = ap suc (length-round_from chars n ((at + 1) % 256))

-- A store outside of the characters that wait.
round_from-stored :
    (chars : ℕ → ℕ) (ch slot n at : ℕ)
    → ((i : ℕ) → i < n → (at + i) % 256 ≢ slot)
    → at < 256
    → round_from (λ i. if i == slot then ch else chars i) n at ≡ round_from chars n at
unfolding round_from
round_from-stored chars ch slot zero at apart small = refl
round_from-stored chars ch slot (suc n) at apart small =
    let here : (at == slot) ≡ false = ground (arith, apart 0 (omega arith)) in
    rw here (
      ap (λ l. chars at ∷ l)
        (round_from-stored chars ch slot n ((at + 1) % 256)
          (λ i lt e. apart (suc i) (omega (arith, lt)) (omega (arith, e))) (omega arith)))

round_from-suc :
    (chars : ℕ → ℕ) (n at : ℕ)
    → at < 256
    → round_from chars (suc n) at ≡ round_from chars n at ++ (chars ((at + n) % 256) ∷ [])
unfolding round_from
round_from-suc chars zero at small =
    let same : at ≡ (at + 0) % 256 = omega (arith, small) in ap (λ i. chars i ∷ []) same
round_from-suc chars (suc n) at small =
    let same : ((at + 1) % 256 + n) % 256 ≡ (at + suc n) % 256 = omega arith in
    ap (λ l. chars at ∷ l)
      (round_from-suc chars n ((at + 1) % 256) (omega arith)
        ∙ ap (λ i. round_from chars n ((at + 1) % 256) ++ (chars i ∷ [])) same)

stored_queue :
    (ch : ℕ) (b : Buffer)
    → IsBuffer b
    → ((b.buf_tail + 1) % 256 == b.buf_head) ≡ false
    → round_from
        (λ i. if i == b.buf_tail then ch else b.chars i)
        (((b.buf_tail + 1) % 256 + 256 - b.buf_head) % 256)
        b.buf_head
      ≡ round_from b.chars (count_of b) b.buf_head ++ (ch ∷ [])
stored_queue ch b v room =
    let stored : ℕ → ℕ = λ i. if i == b.buf_tail then ch else b.chars i in
    let ne : (b.buf_tail + 1) % 256 ≢ b.buf_head = λ e. ground (arith, room) in
    let more : ((b.buf_tail + 1) % 256 + 256 - b.buf_head) % 256 ≡ suc (count_of b) =
      omega (arith, ne, v.head, v.tail) in
    let slot : (b.buf_head + count_of b) % 256 ≡ b.buf_tail = omega (arith, v.head, v.tail) in
    let hit : stored ((b.buf_head + count_of b) % 256) ≡ ch =
      ap stored slot
      ∙ (let same : (b.buf_tail == b.buf_tail) ≡ true = ground arith in rw same refl) in
    let rest =
      round_from-stored b.chars ch b.buf_tail (count_of b) b.buf_head
        (λ i lt e. omega (arith, lt, e, v.head, v.tail)) v.head in
    ap (λ k. round_from stored k b.buf_head) more
    ∙ round_from-suc stored (count_of b) b.buf_head v.head
    ∙ ap (λ l. l ++ (stored ((b.buf_head + count_of b) % 256) ∷ [])) rest
    ∙ ap (λ c. round_from b.chars (count_of b) b.buf_head ++ (c ∷ [])) hit

pub put_char-push :
    (ch : ℕ) (b : Buffer)
    → IsBuffer b
    → IsBuffer (put_char ch b) × (queue_of (put_char ch b) ≡ push ch (queue_of b))
unfolding put_char queue_of push
put_char-push ch b v = elim (Bool-cases (ch == 0)) [
  | inl none_typed ↦ rw none_typed (v, refl)
  | inr typed ↦
      let count = length-round_from b.chars (count_of b) b.buf_head in
      elim (Bool-cases ((b.buf_tail + 1) % 256 == b.buf_head)) [
        | inl full ↦
            let is_full : (length (round_from b.chars (count_of b) b.buf_head) == 255) ≡ true =
              ground (arith, count, full, v.head, v.tail) in
            rw (typed, full, is_full) (v, refl)
        | inr room ↦
            let has_room : (length (round_from b.chars (count_of b) b.buf_head) == 255) ≡ false =
              ground (arith, count, room, v.head, v.tail) in
            rw (typed, room, has_room)
              (record { head = v.head; tail = omega arith }, stored_queue ch b v room)
      ]
]

round_from-zero : (chars : ℕ → ℕ) (at : ℕ) → round_from chars 0 at ≡ []
unfolding round_from
round_from-zero chars at = refl

round_from-first :
    (chars : ℕ → ℕ) (n at : ℕ)
    → round_from chars (suc n) at ≡ chars at ∷ round_from chars n ((at + 1) % 256)
unfolding round_from
round_from-first chars n at = refl

pub take_char-queue :
    (b : Buffer)
    → IsBuffer b
    → ((take_char b ≡ (0, b)) × (queue_of b ≡ []))
      ⊎ ((ch : ℕ) × (c : Buffer) × (take_char b ≡ (ch, c))
          × IsBuffer c
          × (queue_of b ≡ ch ∷ queue_of c))
unfolding take_char queue_of
take_char-queue b v = elim (Bool-cases (b.buf_head == b.buf_tail)) [
  | inl empty ↦
      let none_wait : count_of b ≡ 0 = ground (arith, empty, v.head, v.tail) in
      inl (
        rw empty refl,
        ap (λ k. round_from b.chars k b.buf_head) none_wait ∙ round_from-zero b.chars b.buf_head,
      )
  | inr some_wait ↦
      let c : Buffer = record b { buf_head = (b.buf_head + 1) % 256 } in
      let ne : b.buf_head ≢ b.buf_tail = λ e. ground (arith, some_wait) in
      let fewer : count_of b ≡ suc (count_of c) = omega (arith, ne, v.head, v.tail) in
      inr (
        b.chars b.buf_head,
        c,
        rw some_wait refl,
        record { head = omega arith; tail = v.tail },
        ap (λ k. round_from b.chars k b.buf_head) fewer
            ∙ round_from-first b.chars (count_of c) b.buf_head,
      )
]
