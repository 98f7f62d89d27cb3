-- ===== src/Vfs/ForceWalk.antt =====
-- The walk of `kpath_create_force` of kernel/src/vfs/fs.c, against the path's list of components.
use creeper_os_v.Prelude.{
  ℕ, zero, suc, ◌<◌, ◌≡◌, refl, sym, ap, ◌∙◌, inl, inr, Bool, List, ◌∷◌, length, arith,
}
use creeper_os_v.Vfs.Store.{Fs, Status, ok, err, Cmd, ◌>>=◌}
use creeper_os_v.Vfs.Text.{token_end}
use creeper_os_v.Vfs.Walk.{
  components, strtok_r-done, strtok_r-token, components-none, components_skip, components-first,
  rest-shorter, skip_slashes-cases, and_then-cong,
}
use creeper_os_v.Vfs.Force.{force_token, unless_error, is_last_token, force_path}
use creeper_os_v.Vfs.ForceSteps.{no_names, force_all, force_token_lem}

unless_error-cong :
    (k k' : ℕ → Cmd Status)
    → ((a : ℕ) (t : Fs) → k a t ≡ k' a t)
    → (r : Status × ℕ) (t : Fs) → unless_error k r t ≡ unless_error k' r t
unfolding unless_error
unless_error-cong k k' same (ok, next) t = same next t
unless_error-cong k k' same (err e, next) t = refl

-- There is no token left exactly if there is no component left.
last-token : (text : List ℕ) → is_last_token text ≡ no_names (components text)
unfolding is_last_token
last-token text = elim (skip_slashes-cases text) [
  | inl empty ↦ rw (strtok_r-done text empty, components-none text empty) refl
  | inr (c, rest, first, other) ↦
      let split =
        sym (components_skip text) ∙ ap components first ∙ components-first c rest other in
      rw (strtok_r-token text first, split) refl
]

-- With more rounds than the path has characters, the walk of `kpath_create_force` does, in any store and
-- from any start, what `force_all` does with the components of the path: it never runs out of rounds;
-- each name is ".", "..", found, or made, the last as a file and one before it as a directory of mode
-- 0755; and it ends at the first error, with the refused node removed and its two blocks given back.
pub force_path-components :
    (fuel curr : ℕ) (text : List ℕ) (mode : ℕ) (excl : Bool) (s : Fs)
    → length text < fuel
    → force_path fuel curr text mode excl s ≡ force_all curr (components text) mode excl s
unfolding force_path force_all
force_path-components zero curr text mode excl s enough = absurd (omega arith)
force_path-components (suc fuel) curr text mode excl s enough = elim (skip_slashes-cases text) [
  | inl empty ↦ rw (strtok_r-done text empty, force_path) (rw (components-none text empty) refl)
  | inr (c, rest, first, other) ↦
      let split : components text ≡ (token_end (c ∷ rest)).0 ∷ components (token_end (c ∷ rest)).1 =
        sym (components_skip text) ∙ ap components first ∙ components-first c rest other in
      let shorter = rest-shorter text first other in
      rw (strtok_r-token text first, force_path)
        (rw split (
          ap
            (λ b.
              (force_token curr (token_end (c ∷ rest)).0 b mode excl
                  >>= unless_error
                      (λ next. force_path fuel next (token_end (c ∷ rest)).1 mode excl))
                s)
            (last-token (token_end (c ∷ rest)).1)
          ∙ and_then-cong
              (force_token curr (token_end (c ∷ rest)).0
                (no_names (components (token_end (c ∷ rest)).1)) mode excl s)
              _ _
              (unless_error-cong _ _ λ next t.
                force_path-components fuel next (token_end (c ∷ rest)).1 mode excl t
                  (omega (arith, shorter)))
          ∙ force_token_lem (λ next. force_all next (components (token_end (c ∷ rest)).1) mode excl)
              curr (token_end (c ∷ rest)).0 (no_names (components (token_end (c ∷ rest)).1)) mode
              excl s))
]
