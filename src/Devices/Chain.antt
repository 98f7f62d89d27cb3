-- ===== src/Devices/Chain.antt =====
-- The lists of kernel/src/block/blkdev.c and kernel/src/input/input.c as sequences of devices, and a
-- device that joins.
use creeper_os_v.Prelude.{
  ℕ, ◌≡◌, ◌≢◌, refl, sym, ◌∙◌, inl, inr, true, false, ◌==◌, List, [], ◌∷◌, ◌++◌, arith,
}
use creeper_os_v.Scheduler.Pick.Rotation.{NotIn, In, NoDup, NotIn-last, NoDup-last}
use creeper_os_v.Devices.{DeviceList, set_next, set_prev, append_node}

-- Each node behind `x` is linked with the one before, and the last one ends the list.
abbrev pub Linked : DeviceList → ℕ → List ℕ → Type 0
Linked s x [] = s.next x ≡ 0
Linked s x (y ∷ ys) = (s.next x ≡ y) × (s.prev y ≡ x) × Linked s y ys

abbrev pub last_of : ℕ → List ℕ → ℕ
last_of x [] = x
last_of x (y ∷ ys) = last_of y ys

-- The list holds the devices in this order.
abbrev pub Holds : DeviceList → List ℕ → Type 0
Holds s [] = s.list_start ≡ 0
Holds s (x ∷ xs) = (s.list_start ≡ x) × (s.prev x ≡ last_of x xs) × Linked s x xs

-- No device twice, and none at address 0.
abbrev pub IsRegistry : DeviceList → List ℕ → Type 0
IsRegistry s ns = Holds s ns × NoDup ns × NotIn 0 ns

pub last-In : (x : ℕ) (xs : List ℕ) → In (last_of x xs) (x ∷ xs)
last-In x [] = inl refl
last-In x (y ∷ ys) = inr (last-In y ys)

pub In-apart : (a b : ℕ) (xs : List ℕ) → In a xs → NotIn b xs → a ≢ b
In-apart a b [] k n = elim k [ ]
In-apart a b (x ∷ xs) (inl e) n = λ same. n.0 (e ∙ same)
In-apart a b (x ∷ xs) (inr h) n = In-apart a b xs h n.1

pub last_of-append : (x b : ℕ) (xs : List ℕ) → last_of x (xs ++ b ∷ []) ≡ b
last_of-append x b [] = refl
last_of-append x b (y ∷ ys) = last_of-append y b ys

-- The links stay where the fields stay.
pub Linked-same :
    (s t : DeviceList) (x : ℕ) (xs : List ℕ)
    → ((m : ℕ) → In m (x ∷ xs) → t.next m ≡ s.next m)
    → ((m : ℕ) → In m xs → t.prev m ≡ s.prev m)
    → Linked s x xs
    → Linked t x xs
Linked-same s t x [] n p h = n x (inl refl) ∙ h
Linked-same s t x (y ∷ ys) n p h = (
  n x (inl refl) ∙ h.0,
  p y (inl refl) ∙ h.1,
  Linked-same s t y ys (λ m k. n m (inr k)) (λ m k. p m (inr k)) h.2,
)

-- The links with one node more.
Linked-append :
    (s t : DeviceList) (x b : ℕ) (xs : List ℕ)
    → NoDup (x ∷ xs)
    → t.next (last_of x xs) ≡ b
    → t.next b ≡ 0
    → t.prev b ≡ last_of x xs
    → ((m : ℕ) → In m (x ∷ xs) → m ≢ last_of x xs → t.next m ≡ s.next m)
    → ((m : ℕ) → In m xs → t.prev m ≡ s.prev m)
    → Linked s x xs
    → Linked t x (xs ++ b ∷ [])
Linked-append s t x b [] d nl nb pb n p h = (nl, pb, nb)
Linked-append s t x b (y ∷ ys) d nl nb pb n p h =
    let inner : last_of y ys ≢ x = In-apart (last_of y ys) x (y ∷ ys) (last-In y ys) d.0 in
    (
      n x (inl refl) (λ e. inner (sym e)) ∙ h.0,
      p y (inl refl) ∙ h.1,
      Linked-append s t y b ys d.1 nl nb pb (λ m k. n m (inr k)) (λ m k. p m (inr k)) h.2,
    )

-- A device at an address that is not 0 and not in the list joins at the end.
pub append_node-Holds :
    (b : ℕ) (s : DeviceList) (ns : List ℕ)
    → IsRegistry s ns
    → b ≢ 0
    → NotIn b ns
    → ((append_node b s).0 ≡ true) × IsRegistry (append_node b s).1 (ns ++ b ∷ [])
unfolding append_node
append_node-Holds b s [] h nz fresh =
    let empty : (s.list_start == 0) ≡ true = ground (arith, h.0) in
    let itself : (b == b) ≡ true = ground arith in
    rw empty (refl, ((refl, rw itself refl, rw itself refl), (tt, tt), (nz, tt)))
append_node-Holds b s (x ∷ xs) h nz fresh =
    let (holds, d, n) = h in
    let last = last_of x xs in
    let some_start : (x == 0) ≡ false = ground (arith, n.0) in
    let some_last : (last == 0) ≡ false =
      ground (arith, In-apart last 0 (x ∷ xs) (last-In x xs) n) in
    let apart = In-apart last b (x ∷ xs) (last-In x xs) fresh in
    let not_first : (m : ℕ) → In m xs → m ≢ x = λ m k. In-apart m x xs k d.0 in
    let not_b : (m : ℕ) → In m (x ∷ xs) → m ≢ b = λ m k. In-apart m b (x ∷ xs) k fresh in
    let joined : DeviceList =
      set_prev x b
        (set_next b 0 (set_prev b last (set_next last b (record s { list_start = x })))) in
    rw holds.0 (
      rw some_start (
        rw holds.1 (
          rw some_last (
            refl,
            (
              (
                refl,
                ground (arith, last_of-append x b xs),
                Linked-append s joined x b xs d (ground (arith, apart)) (ground arith)
                    (ground (arith, fresh.0)) (λ m k far. ground (arith, not_b m k, far))
                    (λ m k. ground (arith, not_first m k, not_b m (inr k))) holds.2,
              ),
              NoDup-last b (x ∷ xs) fresh d,
              NotIn-last 0 b (x ∷ xs) n nz,
            ),
          ))))
