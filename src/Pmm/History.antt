-- ===== src/Pmm/History.antt =====
-- Histories of allocations and releases of kernel/src/memory/pmm.c, with the runs that callers hold.
use creeper_os_v.Prelude.{ℕ, ◌+◌, ◌*◌, ◌/◌, ◌≤◌, ◌<◌, ◌≡◌, arith, ◌⊎◌, inl, inr, List, [], ◌∷◌}
use creeper_os_v.Outcome.{returns}
use creeper_os_v.Pmm.Search.{Pmm}
use creeper_os_v.Pmm.Search.Laws.{AllUsed}
use creeper_os_v.Pmm.Invariant.{Inv, Takes}
use creeper_os_v.Pmm.Alloc.{pmm_alloc_pages-returns}
use creeper_os_v.Pmm.Free.{GivesBack, pmm_free_pages-GivesBack}
use creeper_os_v.Pmm.{page_size, pmm_alloc_pages, pmm_free_pages}

-- An address that `pmm_alloc_pages` returned, and the count that it was asked for.
pub record Run : Type 0 where
  pub phys : ℕ
  pub count : ℕ

pub record History : Type 0 where
  pub pmm : Pmm
  pub live : List Run

-- `ys` is `xs` without one occurrence of `r`.
pub data Without (r : Run) : List Run → List Run → Type 0 where
  first : {xs : List Run} → Without r (r ∷ xs) xs
  later : {x : Run} {xs ys : List Run} → Without r xs ys → Without r (x ∷ xs) (x ∷ ys)

pub data Step (h : History) : History → Type 0 where
  allocs :
      (count : ℕ) {phys : ℕ} {t : Pmm}
      → 0 < count
      → pmm_alloc_pages count h.pmm ≡ returns (phys, t)
      → Step h (record { pmm = t; live = record { phys = phys; count = count } ∷ h.live })
  frees :
      (r : Run) {rest : List Run}
      → Without r h.live rest
      → Step h (record { pmm = pmm_free_pages r.phys r.count h.pmm; live = rest })

pub data Reach (h : History) : History → Type 0 where
  here : Reach h h
  next : {g k : History} → Reach h g → Step g k → Reach h k

-- The run's pages are pages of the map, and in use.
pub record Uses (s : Pmm) (r : Run) : Type 0 where
  pub page : ℕ
  pub address : r.phys ≡ page * page_size
  pub some_pages : 0 < r.count
  pub within : page + r.count ≤ s.total_pages
  pub used : AllUsed s.bitmap page (page + r.count)

-- Two runs share no byte.
abbrev pub Apart : Run → Run → Type 0
Apart r q = (r.phys + r.count * page_size ≤ q.phys) ⊎ (q.phys + q.count * page_size ≤ r.phys)

abbrev pub AllUse : Pmm → List Run → Type 0
AllUse s [] = Unit {0}
AllUse s (r ∷ rs) = Uses s r × AllUse s rs

abbrev pub AllApart : Run → List Run → Type 0
AllApart r [] = Unit {0}
AllApart r (q ∷ qs) = Apart r q × AllApart r qs

abbrev pub PairwiseApart : List Run → Type 0
PairwiseApart [] = Unit {0}
PairwiseApart (r ∷ rs) = AllApart r rs × PairwiseApart rs

-- The allocator is well formed, all pages that callers hold are in use, and no two callers share one.
pub record IsSound (h : History) : Type 0 where
  pub inv : Inv h.pmm
  pub uses : AllUse h.pmm h.live
  pub apart : PairwiseApart h.live

Uses-Takes : {s t : Pmm} {phys count : ℕ} (r : Run) → Takes count s phys t → Uses s r → Uses t r
Uses-Takes r took u = record {
  page = u.page;
  address = u.address;
  some_pages = u.some_pages;
  within = omega (arith, took.total, u.within);
  used = λ k lo hi. ground (arith, took.marked k, u.used k);
}

Takes-Apart :
    {s t : Pmm} {phys count : ℕ} (r : Run)
    → 0 < count
    → Takes count s phys t
    → Uses s r
    → Apart (record { phys = phys; count = count }) r
Takes-Apart r pos took u = ground (
  arith,
  took.address,
  u.address,
  u.some_pages,
  took.were_free took.page,
  took.were_free u.page,
  u.used took.page,
  u.used u.page,
)

Takes-AllUse :
    {s t : Pmm} {phys count : ℕ} (rs : List Run)
    → 0 < count
    → Takes count s phys t
    → AllUse s rs
    → AllUse t rs × AllApart (record { phys = phys; count = count }) rs
Takes-AllUse [] pos took u = (tt, tt)
Takes-AllUse (r ∷ rs) pos took (u, us) =
    let rest = Takes-AllUse rs pos took us in
    ((Uses-Takes r took u, rest.0), (Takes-Apart r pos took u, rest.1))

-- What a held run and the rest have, taken apart.
AllUse-Without :
    {s : Pmm} {r : Run} {xs ys : List Run} → Without r xs ys → AllUse s xs → Uses s r × AllUse s ys
AllUse-Without first u = u
AllUse-Without (later w) (u, us) = let rest = AllUse-Without w us in (rest.0, (u, rest.1))

AllApart-Without :
    (x : Run) {r : Run} {xs ys : List Run}
    → Without r xs ys
    → AllApart x xs
    → Apart x r × AllApart x ys
AllApart-Without x first a = a
AllApart-Without x (later w) (a, more) =
    let rest = AllApart-Without x w more in (rest.0, (a, rest.1))

Apart-sym : (r q : Run) → Apart r q → Apart q r
Apart-sym r q (inl a) = inr a
Apart-sym r q (inr a) = inl a

PairwiseApart-Without :
    {r : Run} {xs ys : List Run}
    → Without r xs ys
    → PairwiseApart xs
    → AllApart r ys × PairwiseApart ys
PairwiseApart-Without first a = a
PairwiseApart-Without {r} (later {x} w) (a, more) =
    let here = AllApart-Without x w a in
    let rest = PairwiseApart-Without w more in ((Apart-sym x r here.0, rest.0), (here.1, rest.1))

-- A run apart from the pages given back keeps its own.
Uses-GivesBack :
    {s t : Pmm} (r q : Run)
    → Uses s r
    → GivesBack r.count s (r.phys / page_size) t
    → Apart r q
    → Uses s q
    → Uses t q
Uses-GivesBack r q mine back a u = record {
  page = u.page;
  address = u.address;
  some_pages = u.some_pages;
  within = omega (arith, back.total, u.within);
  used = λ k lo hi. ground (arith, back.marked k, u.used k, u.address, mine.address);
}

AllUse-GivesBack :
    {s t : Pmm} (r : Run) (qs : List Run)
    → Uses s r
    → GivesBack r.count s (r.phys / page_size) t
    → AllApart r qs
    → AllUse s qs
    → AllUse t qs
AllUse-GivesBack r [] mine back a u = tt
AllUse-GivesBack r (q ∷ qs) mine back (a, more) (u, us) =
    (Uses-GivesBack r q mine back a u, AllUse-GivesBack r qs mine back more us)

gives_back :
    {s : Pmm} (r : Run)
    → Inv s
    → Uses s r
    → GivesBack r.count s (r.phys / page_size) (pmm_free_pages r.phys r.count s)
gives_back {s} r v u =
    let page : r.phys / page_size ≡ u.page = omega (arith, u.address) in
    pmm_free_pages-GivesBack r.phys r.count s v (rw page u.within) (rw page u.used)

-- Each allocation and each release of a held run keeps the history sound.
pub Step-IsSound : {h g : History} → Step h g → IsSound h → IsSound g
Step-IsSound {h} (allocs count {phys} {t} pos e) v =
    let took = pmm_alloc_pages-returns count h.pmm pos v.inv e in
    let rest = Takes-AllUse h.live pos took v.uses in
    record {
      inv = took.inv;
      uses = (
        record {
          page = took.page;
          address = took.address;
          some_pages = pos;
          within = omega (arith, took.within, took.total);
          used = λ k lo hi. ground (arith, took.marked k);
        },
        rest.0,
      );
      apart = (rest.1, v.apart);
    }
Step-IsSound {h} (frees r {rest} w) v =
    let held = AllUse-Without w v.uses in
    let others = PairwiseApart-Without w v.apart in
    let back = gives_back r v.inv held.0 in
    record {
      inv = back.inv;
      uses = AllUse-GivesBack r rest held.0 back others.0 held.1;
      apart = others.1;
    }

-- From a history that is sound (the allocator is well formed, every page of a held run is marked in
-- use, and no two held runs share a byte), any sequence of allocations by `pmm_alloc_pages` and
-- releases of held runs by `pmm_free_pages` leads to a sound history.
pub Reach-IsSound : {h g : History} → Reach h g → IsSound h → IsSound g
Reach-IsSound here v = v
Reach-IsSound (next r st) v = Step-IsSound st (Reach-IsSound r v)
