-- ===== src/Devices/Removal.antt =====
-- A device that leaves the list of kernel/src/block/blkdev.c or kernel/src/input/input.c.
use creeper_os_v.Prelude.{
  ℕ, ◌≡◌, ◌≢◌, refl, sym, subst, ◌∙◌, ◌⊎◌, inl, inr, true, false, if◌then◌else◌, ◌==◌, List, [],
  ◌∷◌, ◌++◌, arith, Bool-cases,
}
use creeper_os_v.Scheduler.Pick.Rotation.{NotIn, In, NoDup, NotIn-++}
use creeper_os_v.Devices.{DeviceList, set_next, set_prev, remove_node}
use creeper_os_v.Devices.Chain.{Linked, last_of, IsRegistry, In-apart, Linked-same}

-- What taking out a node that is not the first does to the fields, where `x` is the first.
record Unlinks (x n : ℕ) (s t : DeviceList) : Type 0 where
  bridged : t.next (s.prev n) ≡ s.next n
  next_stays : (m : ℕ) → m ≢ s.prev n → t.next m ≡ s.next m
  back : s.next n ≢ 0 → t.prev (s.next n) ≡ s.prev n
  prev_stays : (m : ℕ) → m ≢ s.next n → m ≢ x → t.prev m ≡ s.prev m

prev-In :
    (s : DeviceList) (y n : ℕ) (pre post : List ℕ)
    → Linked s y (pre ++ n ∷ post)
    → In (s.prev n) (y ∷ pre)
prev-In s y n [] post h = inl (sym h.1)
prev-In s y n (p ∷ pre) post h = inr (prev-In s p n pre post h.2)

next-In :
    (s : DeviceList) (y n : ℕ) (pre post : List ℕ)
    → Linked s y (pre ++ n ∷ post)
    → (s.next n ≡ 0) ⊎ In (s.next n) post
next-In s y n [] [] h = inl h.2
next-In s y n [] (q ∷ qs) h = inr (inl (sym h.2.0))
next-In s y n (p ∷ pre) post h = next-In s p n pre post h.2

Linked-Unlinks :
    (x n y : ℕ) (s t : DeviceList) (pre post : List ℕ)
    → Unlinks x n s t
    → NoDup (y ∷ pre ++ n ∷ post)
    → NotIn 0 (pre ++ n ∷ post)
    → NotIn x (pre ++ n ∷ post)
    → Linked s y (pre ++ n ∷ post)
    → Linked t y (pre ++ post)
Linked-Unlinks x n y s t [] [] u d z f h = subst (λ m. t.next m ≡ 0) h.1 (u.bridged ∙ h.2)
Linked-Unlinks x n y s t [] (q ∷ qs) u d z f h = (
  subst (λ m. t.next m ≡ q) h.1 (u.bridged ∙ h.2.0),
  subst (λ m. t.prev m ≡ y) h.2.0 (u.back (λ e. z.1.0 (sym h.2.0 ∙ e)) ∙ h.1),
  Linked-same s t q qs (λ m k. u.next_stays m (λ e. In-apart m y (q ∷ qs) k d.0.1 (e ∙ h.1)))
      (λ m k. u.prev_stays m (λ e. In-apart m q qs k d.1.1.0 (e ∙ h.2.0)) (In-apart m x qs k f.1.1))
      h.2.2,
)
Linked-Unlinks x n y s t (p ∷ pre) post u d z f h =
    let far : y ≢ s.prev n = λ e.
      In-apart (s.prev n) y (p ∷ pre) (prev-In s p n pre post h.2)
        (NotIn-++ y (p ∷ pre) (n ∷ post) d.0).0 (sym e) in
    let not_behind : p ≢ s.next n = λ e. elim (next-In s p n pre post h.2) [
      | inl last ↦ z.0 (e ∙ last)
      | inr k ↦ In-apart (s.next n) p post k (NotIn-++ p pre (n ∷ post) d.1.0).1.1 (sym e)
    ] in
    (
      u.next_stays y far ∙ h.0,
      u.prev_stays p not_behind f.0 ∙ h.1,
      Linked-Unlinks x n p s t pre post u d.1 z.1 f.1 h.2,
    )

last_of-without :
    (s : DeviceList) (y n : ℕ) (pre post : List ℕ)
    → NotIn 0 (pre ++ n ∷ post)
    → Linked s y (pre ++ n ∷ post)
    → last_of y (pre ++ post) ≡ (if s.next n == 0 then s.prev n else last_of y (pre ++ n ∷ post))
last_of-without s y n [] [] z h = rw h.2 (sym h.1)
last_of-without s y n [] (q ∷ qs) z h =
    let inner : (s.next n == 0) ≡ false = ground (arith, h.2.0, z.1.0) in rw inner refl
last_of-without s y n (p ∷ pre) post z h = last_of-without s p n pre post z.1 h.2

NotIn-without : (a n : ℕ) (pre post : List ℕ) → NotIn a (pre ++ n ∷ post) → NotIn a (pre ++ post)
NotIn-without a n [] post h = h.1
NotIn-without a n (p ∷ pre) post h = (h.0, NotIn-without a n pre post h.1)

NoDup-without : (n : ℕ) (pre post : List ℕ) → NoDup (pre ++ n ∷ post) → NoDup (pre ++ post)
NoDup-without n [] post h = h.1
NoDup-without n (p ∷ pre) post h = (NotIn-without p n pre post h.0, NoDup-without n pre post h.1)

-- A device of the list leaves it, and the others stay in their order.
pub remove_node-Holds :
    (n : ℕ) (s : DeviceList) (pre post : List ℕ)
    → IsRegistry s (pre ++ n ∷ post)
    → IsRegistry (remove_node n s) (pre ++ post)
unfolding remove_node
remove_node-Holds n s [] [] h =
    let first : (n == s.list_start) ≡ true = ground (arith, h.0.0) in
    let last : (s.next n == 0) ≡ true = ground (arith, h.0.2) in rw first (rw last (h.0.2, tt, tt))
remove_node-Holds n s [] (q ∷ qs) h =
    let (holds, d, z) = h in
    let first : (n == s.list_start) ≡ true = ground (arith, holds.0) in
    let inner : (s.next n == 0) ≡ false = ground (arith, holds.2.0, z.1.0) in
    let started : DeviceList = record s { list_start = s.next n } in
    rw first (
      rw inner (
        (
          holds.2.0,
          ground (arith, holds.2.0, holds.1),
          Linked-same s (set_prev (s.next n) (s.prev n) started) q qs (λ m k. refl)
              (λ m k. ground (arith, In-apart m q qs k d.1.0, holds.2.0)) holds.2.2,
        ),
        d.1,
        z.1,
      ))
remove_node-Holds n s (x ∷ pre) post h =
    let (holds, d, z) = h in
    let not_first : (n == s.list_start) ≡ false =
      ground (arith, holds.0, (NotIn-++ x pre (n ∷ post) d.0).1.0) in
    let before = s.prev n in
    let linked = holds.2 in
    let ends = last_of-without s x n pre post z.1 linked in
    let rest : NoDup (x ∷ pre ++ post) × NotIn 0 (x ∷ pre ++ post) =
      (NoDup-without n (x ∷ pre) post d, NotIn-without 0 n (x ∷ pre) post z) in
    let bridged : DeviceList = set_next before (s.next n) s in
    elim (Bool-cases (s.next n == 0)) [
      | inl last ↦
          let t : DeviceList = set_prev bridged.list_start before bridged in
          let u : Unlinks x n s t = record {
            bridged = ground arith;
            next_stays = λ m k. ground (arith, k);
            back = λ k. absurd (ground (arith, last, k));
            prev_stays = λ m k far. ground (arith, far, holds.0);
          } in
          rw not_first (
            rw last (
              (
                holds.0,
                ground (arith, holds.0, rw last at ends),
                Linked-Unlinks x n x s t pre post u d z.1 d.0 linked,
              ),
              rest.0,
              rest.1,
            ))
      | inr inner ↦
          let t : DeviceList = set_prev (s.next n) before bridged in
          let u : Unlinks x n s t = record {
            bridged = ground arith;
            next_stays = λ m k. ground (arith, k);
            back = λ k. ground arith;
            prev_stays = λ m k far. ground (arith, k);
          } in
          let far : x ≢ s.next n = λ e. elim (next-In s x n pre post linked) [
            | inl none_behind ↦ z.0 (e ∙ none_behind)
            | inr k ↦ In-apart (s.next n) x post k (NotIn-++ x pre (n ∷ post) d.0).1.1 (sym e)
          ] in
          rw not_first (
            rw inner (
              (
                holds.0,
                ground (arith, far, holds.1, rw inner at ends),
                Linked-Unlinks x n x s t pre post u d z.1 d.0 linked,
              ),
              rest.0,
              rest.1,
            ))
    ]
