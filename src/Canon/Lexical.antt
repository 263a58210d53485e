-- ===== src/Canon/Lexical.antt =====
-- canonicalize where no component of the path is a link: the path is resolved by its names alone.
use xyzterm.Common.{
  ℕ, ◌+◌, ◌<◌, ◌≤◌, ◌≡◌, refl, ap, ◌∙◌, List, [], ◌∷◌, ◌++◌, some, Bool, false, inl, inr, arith,
  if_both, Bool-cases, leb, ltb, if◌then◌else◌, length, length-append, replicate, Result, ok, err,
}
use xyzterm.Path.{Bytes, path_max, name_max, slash, Finality, join_paths, pop_component}
use xyzterm.Path.Names.{IsName, AreNames, render, behind_slashes, behind_slashes-append}
use xyzterm.Path.Join.{join_paths-render, render_slash}
use xyzterm.Path.Pop.{pop_component-render}
use xyzterm.Path.Compare.{same_name}
use xyzterm.Binding.{Bindings}
use xyzterm.Host.{Host, is_final, substitute_binding_stat}
use xyzterm.Canon.{Turn, dot, dot_dot, after_stat, after_join, turn}

-- The names without the last one.
abbrev pub parent : List Bytes → List Bytes
parent [] = []
parent (n ∷ []) = []
parent (n ∷ m ∷ ns) = n ∷ parent (m ∷ ns)

-- One name of a path, resolved by its letters: "." stays, ".." goes up, as far as the root.
abbrev pub resolve_name : List Bytes → Bytes → List Bytes
resolve_name ns n =
    if same_name n dot then ns else if same_name n dot_dot then parent ns else ns ++ (n ∷ [])

-- A path that is spelled as names, each with the slashes behind it.
abbrev pub Spelling : Type 0
Spelling = List (Bytes × ℕ)

abbrev pub spell : Spelling → Bytes
spell [] = []
spell ((n, j) ∷ parts) = n ++ (replicate j slash ++ spell parts)

abbrev pub resolve : List Bytes → Spelling → List Bytes
resolve ns [] = ns
resolve ns ((n, j) ∷ parts) = resolve (resolve_name ns n) parts

-- What stands behind the resolved path: "/." after a last ".", "/" after a last ".." or where slashes end
-- the path, nothing after another last name.
abbrev pub last_finality : Bytes → ℕ → Finality
last_finality n j =
    if same_name n dot
    then Finality.final_dot
    else if same_name n dot_dot
    then Finality.final_slash
    else if ltb 0 j
    then Finality.final_slash
    else Finality.final_normal

abbrev pub finality_of_spelling : Spelling → Finality
finality_of_spelling [] = Finality.final_normal
finality_of_spelling ((n, j) ∷ []) = last_finality n j
finality_of_spelling ((n, j) ∷ part ∷ parts) = finality_of_spelling (part ∷ parts)

abbrev pub with_finality : Finality → List Bytes → Bytes
with_finality Finality.not_final ns = render ns
with_finality Finality.final_normal ns = render ns
with_finality Finality.final_slash ns = render_slash ns
with_finality Finality.final_dot ns = render (ns ++ (dot ∷ []))

-- There is a name, the names are shorter than NAME_MAX, and slashes part them.
abbrev pub IsSpelling : Spelling → Type 0
IsSpelling [] = ⊥
IsSpelling ((n, j) ∷ []) = IsName n × (length n < name_max)
IsSpelling ((n, j) ∷ part ∷ parts) =
    IsName n × (length n < name_max) × (0 < j) × IsSpelling (part ∷ parts)

-- The path exists as far as it is asked for, and is no link.
abbrev pub IsNoLink : Result (Bool × Bytes) → Type 0
IsNoLink (err e) = ⊥
IsNoLink (ok (is_link, host_path)) = is_link ≡ false

abbrev pub NameIsNoLink : Host → Bindings → ℕ → Finality → List Bytes → Bytes → Type 0
NameIsNoLink h s recursion_level finality ns n =
    same_name n dot ≡ false
    → same_name n dot_dot ≡ false
    → IsNoLink (substitute_binding_stat h s finality recursion_level (render (ns ++ (n ∷ []))))

abbrev pub slashes_finality : ℕ → Finality
slashes_finality j = if ltb 0 j then Finality.final_slash else Finality.final_normal

-- On the way of the names from `ns` no name is a link.
abbrev pub HasNoLinks : Host → Bindings → ℕ → List Bytes → Spelling → Type 0
HasNoLinks h s recursion_level ns [] = Unit {0}
HasNoLinks h s recursion_level ns ((n, j) ∷ []) =
    NameIsNoLink h s recursion_level (slashes_finality j) ns n
HasNoLinks h s recursion_level ns ((n, j) ∷ part ∷ parts) =
    NameIsNoLink h s recursion_level Finality.not_final ns n
    × HasNoLinks h s recursion_level (resolve_name ns n) (part ∷ parts)

last_name : Bytes → List Bytes → Bytes
last_name n [] = n
last_name n (m ∷ ns) = last_name m ns

parent-snoc : (n : Bytes) (ns : List Bytes) → n ∷ ns ≡ parent (n ∷ ns) ++ (last_name n ns ∷ [])
unfolding last_name
parent-snoc n [] = refl
parent-snoc n (m ∷ ns) = ap (λ t. n ∷ t) (parent-snoc m ns)

pub parent-AreNames : (ns : List Bytes) → AreNames ns → AreNames (parent ns)
parent-AreNames [] h = tt
parent-AreNames (n ∷ []) h = tt
parent-AreNames (n ∷ m ∷ ns) h = (h.0, parent-AreNames (m ∷ ns) h.1)

last_name-IsName : (n : Bytes) (ns : List Bytes) → AreNames (n ∷ ns) → IsName (last_name n ns)
unfolding last_name
last_name-IsName n [] h = h.0
last_name-IsName n (m ∷ ns) h = last_name-IsName m ns h.1

pub dot-IsName : IsName dot
dot-IsName = (omega arith, (λ e. absurd (omega (arith, e)), λ e. absurd (omega (arith, e)), tt))

pop-parent : (ns : List Bytes) → AreNames ns → pop_component (render ns) ≡ render (parent ns)
pop-parent [] h = (pop_component-render [] dot tt dot-IsName).1
pop-parent (n ∷ ns) h =
    ap (λ t. pop_component (render t)) (parent-snoc n ns)
    ∙ (pop_component-render (parent (n ∷ ns)) (last_name n ns) (parent-AreNames (n ∷ ns) h)
        (last_name-IsName n ns h)).0

parent-shorter : (ns : List Bytes) → length (render (parent ns)) ≤ length (render ns)
parent-shorter [] = omega arith
parent-shorter (n ∷ []) = omega arith
parent-shorter (n ∷ m ∷ []) =
    omega (arith, length-append n [], length-append n (behind_slashes (m ∷ [])))
parent-shorter (n ∷ m ∷ k ∷ ns) = omega (
  arith,
  parent-shorter (m ∷ k ∷ ns),
  length-append n (behind_slashes (parent (m ∷ k ∷ ns))),
  length-append n (behind_slashes (m ∷ k ∷ ns)),
)

snoc-length :
    (ns : List Bytes) (n : Bytes)
    → length (render (ns ++ (n ∷ []))) ≤ length (render ns) + length n + 1
snoc-length [] n = omega (arith, length-append n [])
snoc-length (m ∷ ns) n = omega (
  arith,
  ap length (behind_slashes-append (m ∷ ns) (n ∷ [])),
  length-append (behind_slashes (m ∷ ns)) (behind_slashes (n ∷ [])),
  length-append n [],
)

pub resolve_name-length :
    (ns : List Bytes) (n : Bytes)
    → length (render (resolve_name ns n)) ≤ length (render ns) + length n + 1
resolve_name-length ns n =
    let P : List Bytes → Type 0 = λ r. length (render r) ≤ length (render ns) + length n + 1 in
    if_both P (same_name n dot) (λ e. omega arith)
      λ e.
        if_both P (same_name n dot_dot) (λ f. omega (arith, parent-shorter ns))
          (λ f. snoc-length ns n)

snoc-AreNames : (ns : List Bytes) (n : Bytes) → AreNames ns → IsName n → AreNames (ns ++ (n ∷ []))
snoc-AreNames [] n h k = (k, tt)
snoc-AreNames (m ∷ ns) n h k = (h.0, snoc-AreNames ns n h.1 k)

pub resolve_name-AreNames :
    (ns : List Bytes) (n : Bytes) → AreNames ns → IsName n → AreNames (resolve_name ns n)
resolve_name-AreNames ns n h k =
    if_both AreNames (same_name n dot) (λ e. h)
      λ e.
        if_both AreNames (same_name n dot_dot) (λ f. parent-AreNames ns h)
          (λ f. snoc-AreNames ns n h k)

after_stat-NoLink :
    (h : Host) (s : Bindings) (deref_final : Bool) (guest_path : Bytes) (finality : Finality)
    (component scratch_path : Bytes) (r : Result (Bool × Bytes))
    → IsNoLink r
    → after_stat h s deref_final guest_path finality component scratch_path r
      ≡ Turn.goes_on finality scratch_path
after_stat-NoLink h s deref_final guest_path finality component scratch_path (err e) k = elim k [ ]
after_stat-NoLink h s deref_final guest_path finality component scratch_path (ok (is_link, p)) k =
    rw (k) refl

pub join_fits :
    (ns : List Bytes) (n : Bytes)
    → AreNames ns
    → IsName n
    → length (render ns) + length n + 2 < path_max
    → join_paths (some (render ns) ∷ some n ∷ []) ≡ ok (render (ns ++ (n ∷ [])))
join_fits ns n h k lt =
    let short : length (render (ns ++ (n ∷ []))) + 1 < path_max = omega (arith, snoc-length ns n) in
    let f : leb path_max (length (render (ns ++ (n ∷ []))) + 1) ≡ false = ground arith in
    join_paths-render ns n h k ∙ rw (f) refl

-- What a round makes of the finality.
abbrev pub turned : Bytes → Finality → Finality
turned n finality =
    if same_name n dot
    then (if is_final finality then Finality.final_dot else finality)
    else if same_name n dot_dot
    then (if is_final finality then Finality.final_slash else finality)
    else finality

pub turn-resolve_name :
    (h : Host) (s : Bindings) (recursion_level : ℕ) (deref_final : Bool) (ns : List Bytes)
    (finality : Finality) (n : Bytes)
    → AreNames ns
    → IsName n
    → length (render ns) + length n + 2 < path_max
    → NameIsNoLink h s recursion_level finality ns n
    → turn h s recursion_level deref_final (render ns) finality n
      ≡ Turn.goes_on (turned n finality) (render (resolve_name ns n))
turn-resolve_name h s recursion_level deref_final ns finality n a k lt plain =
    elim (Bool-cases (same_name n dot)) [
      | inl e ↦ rw (e) refl
      | inr e ↦ elim (Bool-cases (same_name n dot_dot)) [
        | inl f ↦ rw (e, f, pop-parent ns a) refl
        | inr f ↦
            rw (e, f)
              (ap (after_join h s recursion_level deref_final (render ns) finality n)
                  (join_fits ns n a k lt)
                ∙ after_stat-NoLink h s deref_final (render ns) finality n (render (ns ++ (n ∷ [])))
                    (substitute_binding_stat h s finality recursion_level (render (ns ++ (n ∷ []))))
                    (plain e f))
      ]
    ]
