-- ===== src/Path/Names.antt =====
-- Canonical paths: the root, or names behind slashes. The string functions are specified by what they
-- do to the names.
use xyzterm.Common.{
  ℕ, ◌<◌, ◌≡◌, refl, ap, ◌≢◌, List, [], ◌∷◌, ◌++◌, arith, length, sym, ◌∙◌, append-nil,
  append_assoc, Bool, true, ◌&&◌, ltb,
}
use xyzterm.Path.{Bytes, slash, last_byte}

-- A name has no slash and no NUL, and at least one byte.
abbrev pub Clean : Bytes → Type 0
Clean [] = Unit {0}
Clean (x ∷ xs) = (x ≢ slash) × (x ≢ 0) × Clean xs

abbrev pub IsName : Bytes → Type 0
IsName name = (0 < length name) × Clean name

-- Whether every byte is above the slash, as letters and digits are.
abbrev pub above_slash : Bytes → Bool
above_slash [] = true
above_slash (x ∷ xs) = ltb slash x && above_slash xs

pub above_slash-Clean : (name : Bytes) → above_slash name ≡ true → Clean name
above_slash-Clean [] h = tt
above_slash-Clean (x ∷ xs) h =
    let lt : slash < x = ground arith in
    let rest : above_slash xs ≡ true = ground arith in
    (λ e. absurd (omega (arith, e)), λ e. absurd (omega (arith, e)), above_slash-Clean xs rest)

abbrev pub AreNames : List Bytes → Type 0
AreNames [] = Unit {0}
AreNames (n ∷ ns) = IsName n × AreNames ns

abbrev pub behind_slashes : List Bytes → Bytes
behind_slashes [] = []
behind_slashes (n ∷ ns) = slash ∷ (n ++ behind_slashes ns)

abbrev pub render : List Bytes → Bytes
render [] = slash ∷ []
render (n ∷ ns) = behind_slashes (n ∷ ns)

pub last_byte-append : (xs ys : Bytes) (y : ℕ) → last_byte (xs ++ (y ∷ ys)) ≡ last_byte (y ∷ ys)
last_byte-append [] ys y = refl
last_byte-append (x ∷ []) ys y = refl
last_byte-append (x ∷ x' ∷ xs) ys y = last_byte-append (x' ∷ xs) ys y

last_of_Clean : (x : ℕ) (xs : Bytes) → Clean (x ∷ xs) → last_byte (x ∷ xs) ≢ slash
last_of_Clean x [] c = c.0
last_of_Clean x (y ∷ ys) c = last_of_Clean y ys c.2

last_of_name : (c : ℕ) (name : Bytes) → IsName name → last_byte (c ∷ name) ≢ slash
last_of_name c [] h = absurd (omega arith)
last_of_name c (x ∷ xs) h = last_of_Clean x xs h.1

-- A canonical path ends in a slash only if it is the root.
pub last_of_names :
    (n : Bytes) (ns : List Bytes) → AreNames (n ∷ ns) → last_byte (render (n ∷ ns)) ≢ slash
last_of_names n [] h e =
    last_of_name slash n h.0 (ap last_byte (ap (λ t. slash ∷ t) (sym (append-nil n))) ∙ e)
last_of_names n (m ∷ ms) h e =
    last_of_names m ms h.1 (sym (last_byte-append (slash ∷ n) (m ++ behind_slashes ms) slash) ∙ e)

pub behind_slashes-append :
    (ns ms : List Bytes) → behind_slashes (ns ++ ms) ≡ behind_slashes ns ++ behind_slashes ms
behind_slashes-append [] ms = refl
behind_slashes-append (n ∷ ns) ms =
    ap (λ t. slash ∷ t)
      (ap (λ t. n ++ t) (behind_slashes-append ns ms)
        ∙ sym (append_assoc n (behind_slashes ns) (behind_slashes ms)))
