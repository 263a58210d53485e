-- ===== src/Canon/Rounds.antt =====
-- What a round of the loop of canonicalize does to the cursor and the finality.
use xyzterm.Common.{
  ℕ, suc, ◌-◌, ◌<◌, ◌≤◌, ◌≡◌, refl, [], ◌∷◌, some, Bool, true, false, not, inl, inr, ◌&&◌, ◌||◌,
  arith, if_both, Bool-cases, leb, ◌==◌, if◌then◌else◌, length, Result, ok, err,
}
use xyzterm.Path.{
  Bytes, path_max, slash, byte_at, name_max, skip_slashes, before_slash, from_slash, finality_of,
  Finality, next_component, join_paths, Comparison, is_within,
}
use xyzterm.Path.Compare.{same_name}
use xyzterm.Binding.{Bindings}
use xyzterm.Proc.{Action, readlink_proc2}
use xyzterm.Proc.Bounds.{FitsAction, readlink_proc-FitsAction}
use xyzterm.Detranslate.{detranslate_path}
use xyzterm.Host.{Host, is_final, substitute_binding_stat}
use xyzterm.Canon.{
  is_final_normal, Turn, dot, dot_dot, proc_base, proc_action, followed, after_readlink,
  dereferenced, after_stat, after_join, turn,
}
use xyzterm.Canon.Fits.{Fits, FitsSeen, detranslate_path-FitsSeen}

from_slash_shorter : (cursor : Bytes) → length (from_slash cursor) ≤ length cursor
from_slash_shorter [] = omega arith
from_slash_shorter (x ∷ cursor) =
    if_both (λ r. length r ≤ suc (length cursor)) (x == slash) (λ e. omega arith)
      (λ e. omega (arith, from_slash_shorter cursor))

skip_slashes_shorter : (cursor : Bytes) → length (skip_slashes cursor) ≤ length cursor
skip_slashes_shorter [] = omega arith
skip_slashes_shorter (x ∷ cursor) =
    if_both (λ r. length r ≤ suc (length cursor)) (x == slash)
      (λ e. omega (arith, skip_slashes_shorter cursor)) (λ e. omega arith)

behind_shorter : (cursor : Bytes) → length (from_slash (skip_slashes cursor)) ≤ length cursor - 1
behind_shorter [] = omega arith
behind_shorter (x ∷ cursor) = elim (Bool-cases (x == slash)) [
  | inl e ↦ rw (e) (omega (arith, behind_shorter cursor))
  | inr e ↦ rw (e, e) (omega (arith, from_slash_shorter cursor))
]

-- Where the component is not the last one, the cursor moves.
abbrev pub Moves : Bytes → Result (Finality × Bytes × Bytes) → Type 0
Moves cursor (err e) = Unit {0}
Moves cursor (ok (finality, component, rest)) =
    is_final finality ≡ false → length rest < length cursor

finality_of-rest :
    (want_dir : Bool) (rest : Bytes)
    → is_final (finality_of want_dir rest) ≡ false
    → 0 < length rest
finality_of-rest true [] h = absurd (cc)
finality_of-rest false [] h = absurd (cc)
finality_of-rest want_dir (x ∷ rest) h = omega arith

pub next_component-Moves : (cursor : Bytes) → Moves cursor (next_component cursor)
unfolding next_component
next_component-Moves cursor =
    let start = skip_slashes cursor in
    let behind = from_slash start in
    if_both (Moves cursor) (leb name_max (length (before_slash start))) (λ e. tt)
      λ e h. omega (
        arith,
        finality_of-rest (byte_at behind 0 == slash) (skip_slashes behind) h,
        skip_slashes_shorter behind,
        behind_shorter cursor,
      )

-- A round goes on, or follows a link, only if the component is not the last one or the loop ends with
-- it, and the target fits a buffer.
abbrev pub Keeps : Finality → Turn → Type 0
Keeps finality (Turn.returns r) = Unit {0}
Keeps finality (Turn.goes_on finality' guest_path) =
    is_final finality' ≡ false → is_final finality ≡ false
Keeps finality (Turn.follows finality' target) =
    (is_final finality' ≡ false → is_final finality ≡ false) × Fits target

followed-Keeps :
    (finality : Finality) (r : Result (ℕ × Bytes))
    → FitsSeen r
    → Keeps finality (followed finality r)
followed-Keeps finality (err e) h = tt
followed-Keeps finality (ok r) h = (λ e. e, h)

linked-Keeps :
    (h : Host) (s : Bindings) (finality : Finality) (host_path : Bytes) (r : Result Bytes)
    → Keeps finality (after_readlink h s finality host_path r)
linked-Keeps h s finality host_path (err e) = tt
linked-Keeps h s finality host_path (ok target) =
    if_both (Keeps finality) (leb path_max (length target)) (λ e. tt)
      λ e.
        followed-Keeps finality
          (detranslate_path s (λ path referer. readlink_proc2 h.monitor referer) target
            (some host_path))
          (detranslate_path-FitsSeen s h.monitor target host_path)

dereferenced-Keeps :
    (h : Host) (s : Bindings) (finality : Finality) (host_path : Bytes) (r : Result Action)
    → FitsAction r
    → Keeps finality (dereferenced h s finality host_path r)
dereferenced-Keeps h s finality host_path (err e) f = tt
dereferenced-Keeps h s finality host_path (ok Action.default_action) f =
    linked-Keeps h s finality host_path (h.readlink host_path)
dereferenced-Keeps h s finality host_path (ok (Action.canonicalize_it path)) f = (λ e. e, f)
dereferenced-Keeps h s finality host_path (ok (Action.dont_canonicalize path)) f =
    if_both (Keeps finality) (is_final_normal finality) (λ e. tt)
      (λ e. linked-Keeps h s finality host_path (h.readlink host_path))

proc_action-FitsAction :
    (h : Host) (component : Bytes) (c : Comparison × Bytes) → FitsAction (proc_action h component c)
proc_action-FitsAction h component (comparison, base) =
    if_both FitsAction (is_within comparison)
      (λ e. readlink_proc-FitsAction h.monitor base component comparison) (λ e. tt)

after_stat-Keeps :
    (h : Host) (s : Bindings) (deref_final : Bool) (guest_path : Bytes) (finality : Finality)
    (component scratch_path : Bytes) (r : Result (Bool × Bytes))
    → Keeps finality (after_stat h s deref_final guest_path finality component scratch_path r)
after_stat-Keeps h s deref_final guest_path finality component scratch_path (err e) = tt
after_stat-Keeps h s deref_final guest_path finality component scratch_path
      (ok (is_link, host_path)) =
    if_both (Keeps finality) (not is_link || (is_final_normal finality && not deref_final))
      (λ e k. k)
      λ e.
        dereferenced-Keeps h s finality host_path (proc_action h component (proc_base s guest_path))
          (proc_action-FitsAction h component (proc_base s guest_path))

after_join-Keeps :
    (h : Host) (s : Bindings) (recursion_level : ℕ) (deref_final : Bool) (guest_path : Bytes)
    (finality : Finality) (component : Bytes) (r : Result Bytes)
    → Keeps finality (after_join h s recursion_level deref_final guest_path finality component r)
after_join-Keeps h s recursion_level deref_final guest_path finality component (err e) = tt
after_join-Keeps h s recursion_level deref_final guest_path finality component (ok scratch_path) =
    after_stat-Keeps h s deref_final guest_path finality component scratch_path
      (substitute_binding_stat h s finality recursion_level scratch_path)

kept :
    (finality f : Finality)
    → is_final f ≡ true
    → is_final (if is_final finality then f else finality) ≡ false
    → is_final finality ≡ false
kept Finality.not_final f h k = refl
kept Finality.final_normal f h k = absurd (cc)
kept Finality.final_slash f h k = absurd (cc)
kept Finality.final_dot f h k = absurd (cc)

pub turn-Keeps :
    (h : Host) (s : Bindings) (recursion_level : ℕ) (deref_final : Bool) (guest_path : Bytes)
    (finality : Finality) (component : Bytes)
    → Keeps finality (turn h s recursion_level deref_final guest_path finality component)
turn-Keeps h s recursion_level deref_final guest_path finality component =
    if_both (Keeps finality) (same_name component dot) (λ e. kept finality Finality.final_dot refl)
      λ e.
        if_both (Keeps finality) (same_name component dot_dot)
          (λ f. kept finality Finality.final_slash refl)
          λ f.
            after_join-Keeps h s recursion_level deref_final guest_path finality component
              (join_paths (some guest_path ∷ some component ∷ []))
