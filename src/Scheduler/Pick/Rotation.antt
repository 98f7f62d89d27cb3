-- ===== src/Scheduler/Pick/Rotation.antt =====
-- Lists without repetition, and their rotations.
use creeper_os_v.Prelude.{
  ℕ, ◌≡◌, ◌≢◌, refl, sym, ap, ◌∙◌, subst, ◌⊎◌, inl, inr, List, [], ◌∷◌, ◌++◌, append_assoc,
  append-nil,
}

abbrev pub NotIn : ℕ → List ℕ → Type 0
NotIn a [] = Unit {0}
NotIn a (x ∷ xs) = (x ≢ a) × NotIn a xs

abbrev pub In : ℕ → List ℕ → Type 0
In a [] = ⊥
In a (x ∷ xs) = (x ≡ a) ⊎ In a xs

abbrev pub NoDup : List ℕ → Type 0
NoDup [] = Unit {0}
NoDup (x ∷ xs) = NotIn x xs × NoDup xs

pub NotIn-++ : (a : ℕ) (xs ys : List ℕ) → NotIn a (xs ++ ys) → NotIn a xs × NotIn a ys
NotIn-++ a [] ys n = (tt, n)
NotIn-++ a (x ∷ xs) ys (ne, n) = let rest = NotIn-++ a xs ys n in ((ne, rest.0), rest.1)

pub NotIn-last : (a x : ℕ) (xs : List ℕ) → NotIn a xs → x ≢ a → NotIn a (xs ++ (x ∷ []))
NotIn-last a x [] n ne = (ne, tt)
NotIn-last a x (y ∷ ys) (other, n) ne = (other, NotIn-last a x ys n ne)

pub NoDup-last : (x : ℕ) (xs : List ℕ) → NotIn x xs → NoDup xs → NoDup (xs ++ (x ∷ []))
NoDup-last x [] n d = (tt, tt)
NoDup-last x (y ∷ ys) (ne, n) (m, d) = (NotIn-last y x ys m (λ e. ne (sym e)), NoDup-last x ys n d)

In-left : (a : ℕ) (xs ys : List ℕ) → In a xs → In a (xs ++ ys)
In-left a [] ys i = elim i [ ]
In-left a (x ∷ xs) ys (inl e) = inl e
In-left a (x ∷ xs) ys (inr i) = inr (In-left a xs ys i)

In-right : (a : ℕ) (xs ys : List ℕ) → In a ys → In a (xs ++ ys)
In-right a [] ys i = i
In-right a (x ∷ xs) ys i = inr (In-right a xs ys i)

pub In-swap : (a : ℕ) (xs ys : List ℕ) → In a (xs ++ ys) → In a (ys ++ xs)
In-swap a [] ys i = In-left a ys [] i
In-swap a (x ∷ xs) ys (inl e) = In-right a ys (x ∷ xs) (inl e)
In-swap a (x ∷ xs) ys (inr i) = into ys (In-swap a xs ys i)
  where
    into : (zs : List ℕ) → In a (zs ++ xs) → In a (zs ++ (x ∷ xs))
    into [] i = inr i
    into (z ∷ zs) (inl e) = inl e
    into (z ∷ zs) (inr i) = inr (into zs i)

-- An element splits a list.
pub In-split :
    (a : ℕ) (xs : List ℕ)
    → In a xs
    → (before : List ℕ) × (behind : List ℕ) × (xs ≡ before ++ (a ∷ behind))
In-split a [] none_in = elim none_in [ ]
In-split a (x ∷ xs) (inl e) = ([], xs, ap (λ y. y ∷ xs) e)
In-split a (x ∷ xs) (inr later) =
    let (before, behind, e) = In-split a xs later in (x ∷ before, behind, ap (λ l. x ∷ l) e)

-- The list is `start`, cut into two, with the second part first.
pub record Rotates (start xs : List ℕ) : Type 0 where
  pub front : List ℕ
  pub back : List ℕ
  pub whole : start ≡ front ++ back
  pub turned : xs ≡ back ++ front

-- An element that goes to the end, in a rotation without repetition.
pub record Ring (start xs : List ℕ) : Type 0 where
  pub rotates : Rotates start xs
  pub once : NoDup xs

Rotates-last :
    (start : List ℕ) (x : ℕ) (xs front back : List ℕ)
    → start ≡ front ++ back
    → x ∷ xs ≡ back ++ front
    → Rotates start (xs ++ (x ∷ []))
Rotates-last start x xs front [] whole turned = record {
  front = x ∷ [];
  back = xs;
  whole = whole ∙ append-nil front ∙ sym turned;
  turned = refl;
}
Rotates-last start x xs front (y ∷ back) whole turned =
    let head_is : x ≡ y = cc turned in
    let tail_is : xs ≡ back ++ front = cc turned in
    record {
      front = front ++ (x ∷ []);
      back = back;
      whole =
          whole
          ∙ ap (λ z. front ++ (z ∷ back)) (sym head_is)
          ∙ sym (append_assoc front (x ∷ []) back);
      turned = ap (λ l. l ++ (x ∷ [])) tail_is ∙ append_assoc back front (x ∷ []);
    }

Ring-last :
    (start : List ℕ) (x : ℕ) (xs : List ℕ) → Ring start (x ∷ xs) → Ring start (xs ++ (x ∷ []))
Ring-last start x xs r = record {
  rotates = Rotates-last start x xs r.rotates.front r.rotates.back r.rotates.whole r.rotates.turned;
  once = NoDup-last x xs r.once.0 r.once.1;
}

pub Ring-turn : (start us ws : List ℕ) → Ring start (us ++ ws) → Ring start (ws ++ us)
Ring-turn start [] ws r = subst (Ring start) (sym (append-nil ws)) r
Ring-turn start (u ∷ us) ws r =
    let once_more =
      subst (Ring start) (append_assoc us ws (u ∷ [])) (Ring-last start u (us ++ ws) r) in
    subst (Ring start) (append_assoc ws (u ∷ []) us) (Ring-turn start us (ws ++ (u ∷ [])) once_more)
