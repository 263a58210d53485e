-- ===== src/Canon/Ends.antt =====
-- The loop of canonicalize and its recursion end.
use xyzterm.Common.{
  ℕ, zero, suc, ◌+◌, ◌-◌, ◌*◌, ◌<◌, ◌≤◌, ◌≡◌, refl, sym, ◌∙◌, Bool-cases, [], ◌∷◌, Option, none,
  some, Bool, true, false, not, inl, inr, ◌⊎◌, arith, if_both, Result-cases, subst, leb, ltb, ◌==◌,
  length, Result, ok, err, eloop, enametoolong, einval,
}
use xyzterm.Path.{Bytes, path_max, slash, byte_at, Finality, next_component}
use xyzterm.Path.Compare.{same_name}
use xyzterm.Binding.{Bindings}
use xyzterm.Host.{Host, is_final, substitute_binding_stat}
use xyzterm.Canon.{
  Run, Turn, turn, entered, link_status, continued, after_status, after_link, called, after_turn,
  canonicalize_loop, canonicalize, finish, asserted, is_fd_link,
}
use xyzterm.Canon.Fits.{Fits}
use xyzterm.Canon.Rounds.{Moves, next_component-Moves, Keeps, turn-Keeps}

-- A path that is a link on the host, and not that of a file descriptor.
abbrev pub IsLinkLeft : Host → Bindings → Type 0
IsLinkLeft h s =
    (finality : Finality) × (recursion_level : ℕ) × (guest_path : Bytes) × (host_path : Bytes)
    × (substitute_binding_stat h s finality recursion_level guest_path ≡ ok (true, host_path))
    × (is_fd_link guest_path ≡ false)

-- The fuel lasts: a result is returned, which may be an error, or an assertion of the code fails, for which
-- there is a reason.
abbrev pub Lasts : Type 0 → Run → Type 0
Lasts Reason o = (r : Option (Result Bytes)) × (o ≡ some r) × (r ≡ none → Reason)

-- A result asks for no reason.
pub returned : (Reason : Type 0) (r : Result Bytes) → Lasts Reason (some (some r))
returned Reason r = (some r, refl, λ e. absurd (cc))

asserted-IsLinkLeft :
    (h : Host) (s : Bindings) (finality : Finality) (recursion_level : ℕ) (guest_path : Bytes)
    (r : Result (Bool × Bytes))
    → substitute_binding_stat h s finality recursion_level guest_path ≡ r
    → asserted guest_path r ≡ none
    → IsLinkLeft h s
asserted-IsLinkLeft h s finality recursion_level guest_path (err e) q n = absurd (cc)
asserted-IsLinkLeft h s finality recursion_level guest_path (ok (false, p)) q n = absurd (cc)
asserted-IsLinkLeft h s finality recursion_level guest_path (ok (true, p)) q n =
    elim (Bool-cases (is_fd_link guest_path)) [
      | inl y ↦
          let f : asserted guest_path (ok (true, p)) ≡ some (ok guest_path) =
            rw (y, asserted) refl in
          absurd (cc)
      | inr f ↦ (finality, recursion_level, guest_path, p, q, f)
    ]

link_status-IsLinkLeft :
    (h : Host) (s : Bindings) (recursion_level : ℕ) (finality : Finality) (before p : Bytes)
    → link_status h s recursion_level finality before p ≡ none
    → IsLinkLeft h s
link_status-IsLinkLeft h s recursion_level finality before p n =
    elim (Bool-cases (same_name before p)) [
      | inl y ↦
          let f : link_status h s recursion_level finality before p ≡ some (err eloop) =
            rw (y, link_status) refl in
          absurd (cc)
      | inr f ↦
          let g : link_status h s recursion_level finality before p
              ≡ asserted p (substitute_binding_stat h s finality recursion_level p) =
            rw (f, link_status) refl in
          asserted-IsLinkLeft h s finality recursion_level p
            (substitute_binding_stat h s finality recursion_level p) refl (sym g ∙ n)
    ]

continued-Lasts :
    (R : Type 0) (recursion_level : ℕ) (finality : Finality) (again : Bytes → Run)
    (guest_path : Bytes)
    → (is_final finality ≡ false → (p : Bytes) → Lasts R (again p))
    → Lasts R (continued recursion_level finality again guest_path)
continued-Lasts R recursion_level Finality.not_final again guest_path h = h refl guest_path
continued-Lasts R recursion_level Finality.final_normal again guest_path h =
    returned R (finish recursion_level Finality.final_normal guest_path)
continued-Lasts R recursion_level Finality.final_slash again guest_path h =
    returned R (finish recursion_level Finality.final_slash guest_path)
continued-Lasts R recursion_level Finality.final_dot again guest_path h =
    returned R (finish recursion_level Finality.final_dot guest_path)

after_status-Lasts :
    (R : Type 0) (recursion_level : ℕ) (finality : Finality) (again : Bytes → Run)
    (r : Option (Result Bytes))
    → (is_final finality ≡ false → (p : Bytes) → Lasts R (again p))
    → (r ≡ none → R)
    → Lasts R (after_status recursion_level finality again r)
after_status-Lasts R recursion_level finality again none h n = (none, refl, n)
after_status-Lasts R recursion_level finality again (some (err e)) h n = returned R (err e)
after_status-Lasts R recursion_level finality again (some (ok guest_path)) h n =
    continued-Lasts R recursion_level finality again guest_path h

after_link-Lasts :
    (h : Host) (s : Bindings) (recursion_level : ℕ) (finality : Finality) (again : Bytes → Run)
    (before : Bytes) (o : Run)
    → Lasts (IsLinkLeft h s) o
    → (is_final finality ≡ false → (p : Bytes) → Lasts (IsLinkLeft h s) (again p))
    → Lasts (IsLinkLeft h s) (after_link h s recursion_level finality again before o)
after_link-Lasts h s recursion_level finality again before none (r, e, w) k = absurd (cc)
after_link-Lasts h s recursion_level finality again before (some none) (r, e, w) k =
    (none, refl, λ n. w (let same : some none ≡ some r = e in cc))
after_link-Lasts h s recursion_level finality again before (some (some (err e))) d k =
    returned (IsLinkLeft h s) (err e)
after_link-Lasts h s recursion_level finality again before (some (some (ok guest_path))) d k =
    after_status-Lasts (IsLinkLeft h s) recursion_level finality again
      (link_status h s recursion_level finality before guest_path) k
      (λ n. link_status-IsLinkLeft h s recursion_level finality before guest_path n)

called-Lasts :
    (R : Type 0) (h : Host) (level : ℕ) (target guest_path : Bytes) (loop : Bytes → Run)
    → (level ≤ h.max_symlinks → (p : Bytes) → Lasts R (loop p))
    → Lasts R (called loop (entered h level target guest_path))
called-Lasts R h level target guest_path loop k =
    let P : Result Bytes → Type 0 = λ r. Lasts R (called loop r) in
    if_both P (ltb h.max_symlinks level) (λ e. returned R (err eloop))
      λ e.
        let le : level ≤ h.max_symlinks = ground arith in
        if_both P (leb path_max (length guest_path)) (λ f. returned R (err enametoolong))
          λ f.
            if_both P (not (byte_at target 0 == slash))
              (λ g.
                if_both P (not (byte_at guest_path 0 == slash)) (λ k'. returned R (err einval))
                  (λ k'. k le guest_path))
              (λ g. k le (slash ∷ []))

after_turn-Lasts :
    (h : Host) (s : Bindings) (recursion_level level' : ℕ) (again again' : Bytes → Run)
    (loop : ℕ → Bytes → Bytes → Run) (guest_path : Bytes) (finality : Finality) (t : Turn)
    → Keeps finality t
    → (is_final finality ≡ false → (p : Bytes) → Lasts (IsLinkLeft h s) (again p))
    → (is_final finality ≡ false → (p : Bytes) → Lasts (IsLinkLeft h s) (again' p))
    → ((target p : Bytes)
        → Fits target
        → level' ≤ h.max_symlinks
        → Lasts (IsLinkLeft h s) (loop level' target p))
    → Lasts (IsLinkLeft h s) (after_turn h s recursion_level level' again again' loop guest_path t)
after_turn-Lasts h s recursion_level level' again again' loop guest_path finality (Turn.returns r) k
      a a' l =
    returned (IsLinkLeft h s) r
after_turn-Lasts h s recursion_level level' again again' loop guest_path finality (Turn.goes_on f p)
      k a a' l =
    continued-Lasts (IsLinkLeft h s) recursion_level f again p (λ e. a (k e))
after_turn-Lasts h s recursion_level level' again again' loop guest_path finality
      (Turn.follows f target) k a a' l =
    after_link-Lasts h s recursion_level f again' guest_path
      (called (loop level' target) (entered h level' target guest_path))
      (called-Lasts (IsLinkLeft h s) h level' target guest_path (loop level' target)
        (λ le p. l target p k.1 le))
      (λ e. a' (k.0 e))

loop-Lasts :
    (fuel : ℕ) (h : Host) (s : Bindings) (recursion_level symlinks_followed : ℕ)
    (deref_final : Bool) (cursor guest_path : Bytes)
    → recursion_level ≤ h.max_symlinks
    → (h.max_symlinks - recursion_level) * path_max + length cursor < fuel
    → Lasts
        (IsLinkLeft h s)
        (canonicalize_loop fuel h s recursion_level symlinks_followed deref_final cursor guest_path)
unfolding canonicalize_loop
loop-Lasts zero h s recursion_level symlinks_followed deref_final cursor guest_path le lt =
    absurd (omega arith)
loop-Lasts (suc fuel) h s recursion_level symlinks_followed deref_final cursor guest_path le lt =
    elim (Result-cases (next_component cursor)) [
      | inl (e, q) ↦ rw (q, canonicalize_loop) (returned (IsLinkLeft h s) (err e))
      | inr ((finality, component, rest), q) ↦
          let moves : is_final finality ≡ false → length rest < length cursor =
            subst (Moves cursor) q (next_component-Moves cursor) in
          rw (q, canonicalize_loop)
            (after_turn-Lasts h s recursion_level (recursion_level + suc symlinks_followed)
              (λ p. canonicalize_loop fuel h s recursion_level symlinks_followed deref_final rest p)
              (λ p.
                canonicalize_loop fuel h s recursion_level (suc symlinks_followed) deref_final rest
                  p)
              (λ level' target p. canonicalize_loop fuel h s level' 0 true target p) guest_path
              finality (turn h s recursion_level deref_final guest_path finality component)
              (turn-Keeps h s recursion_level deref_final guest_path finality component)
              (λ e p.
                loop-Lasts fuel h s recursion_level symlinks_followed deref_final rest p le
                  (omega (arith, moves e)))
              (λ e p.
                loop-Lasts fuel h s recursion_level (suc symlinks_followed) deref_final rest p le
                  (omega (arith, moves e)))
              (λ target p fits le'.
                loop-Lasts fuel h s (recursion_level + suc symlinks_followed) 0 true target p le'
                  (omega (arith, fits))))
    ]

-- A path or an error is returned, or an assertion of the code fails, for which there is a reason.
abbrev pub Returns : Type 0 → Run → Type 0
Returns Reason o = ((r : Result Bytes) × (o ≡ some (some r))) ⊎ ((o ≡ some none) × Reason)

pub Lasts-Returns : (Reason : Type 0) (o : Run) → Lasts Reason o → Returns Reason o
Lasts-Returns Reason o (none, e, w) = inr (e, w refl)
Lasts-Returns Reason o (some r, e, w) = inl (r, e)

pub canonicalize-Lasts :
    (fuel : ℕ) (h : Host) (s : Bindings) (user_path : Bytes) (deref_final : Bool)
    (guest_path : Bytes) (recursion_level : ℕ)
    → (h.max_symlinks - recursion_level) * path_max + length user_path < fuel
    → Lasts
        (IsLinkLeft h s)
        (canonicalize fuel h s user_path deref_final guest_path recursion_level)
unfolding canonicalize
canonicalize-Lasts fuel h s user_path deref_final guest_path recursion_level lt =
    called-Lasts (IsLinkLeft h s) h recursion_level user_path guest_path
      (λ p. canonicalize_loop fuel h s recursion_level 0 deref_final user_path p)
      (λ le p. loop-Lasts fuel h s recursion_level 0 deref_final user_path p le lt)
