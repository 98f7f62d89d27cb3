-- ===== src/Scheduler/Tids.antt =====
-- The identifiers of threads and processes in kernel/src/arch/x86_64/scheduler/scheduler.c.
pub mod First
pub mod Laws
use creeper_os_v.Prelude.{
  ℕ, zero, suc, ◌+◌, ◌-◌, ◌*◌, ◌/◌, ◌%◌, ◌^◌, Bool, true, false, not, ◌&&◌, ◌||◌, if◌then◌else◌,
  ◌==◌, ltb, leb, Option, none, some,
}
use creeper_os_v.Scheduler.{TidMap}

-- MAX_TID is 16384, and _TID_BITMAP_SIZE is MAX_TID / 64.
abbrev pub max_tid : ℕ
max_tid = 16384

abbrev pub tid_bitmap_size : ℕ
tid_bitmap_size = max_tid / 64

-- The loop over the bits of the word `i`, from bit `j` on.
unfoldable pub scan_word : (rounds i j : ℕ) → TidMap → Option ℕ
scan_word zero i j s = none
scan_word (suc rounds) i j s =
    let rest = scan_word rounds i (j + 1) s in
    if s.tid0_used && ((i == 0) && (j == 0))
    then rest
    else if s.tid_bitmap i j
    then some (i * 64 + j)
    else rest

unfoldable pub word_is_zero : (rounds i : ℕ) → TidMap → Bool
word_is_zero zero i s = true
word_is_zero (suc rounds) i s = not (s.tid_bitmap i rounds) && word_is_zero rounds i s

unfoldable pub scan_row : (i : ℕ) → TidMap → Option ℕ
unfolding scan_word
scan_row i s = scan_word (64 - s.tid_bitmap_curr % 64) i (s.tid_bitmap_curr % 64) s

-- !*current
unfoldable pub row_is_zero : (i : ℕ) → TidMap → Bool
unfolding word_is_zero
row_is_zero i s = word_is_zero 64 i s

-- The loop over the words.
unfoldable pub scan_words : (rounds i : ℕ) → TidMap → Option ℕ
unfolding scan_row row_is_zero
scan_words zero i s = none
scan_words (suc rounds) i s =
    let rest = scan_words rounds (i + 1) s in
    if row_is_zero i s then rest else elim (scan_row i s) [ none ↦ rest | some tid ↦ some tid ]

abbrev pub put_tid : (tid : ℕ) → (free : Bool) → TidMap → TidMap
put_tid tid free s = record s {
  tid_bitmap = λ i j. if i == tid / 64 && j == tid % 64 then free else s.tid_bitmap i j;
}

-- `none` where the result is -1.
unfoldable pub _get_unused_tid : TidMap → Option ℕ × TidMap
unfolding scan_words
_get_unused_tid s =
    let first = s.tid_bitmap_curr - s.tid_bitmap_curr % 64 in
    elim (scan_words (tid_bitmap_size - first) first s) [
      | none ↦ (none, s)
      | some tid ↦ (some tid, put_tid tid false s)
    ]

unfoldable pub _free_tid : (tid : ℕ) → TidMap → TidMap
_free_tid tid s = if leb tid_bitmap_size (tid / 64) then s else put_tid tid true s

-- The initial words are 0xFFFFFFFF.
abbrev pub tids_at_boot : TidMap
tids_at_boot = record {
  tid_bitmap = λ i j. ltb i tid_bitmap_size && ltb j 32;
  tid_bitmap_curr = 0;
  tid0_used = false;
}
