-- ===== src/Shebang/Words.antt =====
-- The loops of extract_shebang on blanks, words and lines.
use xyzterm.Common.{
  ℕ, zero, suc, ◌+◌, ◌<◌, ◌≤◌, ◌≡◌, ◌≢◌, refl, ap, ◌∙◌, [], ◌∷◌, ◌++◌, append-nil, append_assoc,
  Option, Bool, true, false, ◌&&◌, ◌==◌, ltb, length, length-append, replicate, ok, arith, Errno,
}
use xyzterm.Path.{Bytes, last_byte}
use xyzterm.Path.Names.{last_byte-append}
use xyzterm.Shebang.{
  is_blank, is_newline, c_string, skip_leading, trim_tail, trim, slurp_argument, slurp_path,
}

abbrev pub AreBlank : Bytes → Type 0
AreBlank [] = Unit {0}
AreBlank (x ∷ s) = (is_blank x ≡ true) × AreBlank s

pub blank_no_newline : (x : ℕ) → is_blank x ≡ true → is_newline x ≡ false
blank_no_newline x h = ground arith

-- No blank, no end of a line, no NUL.
abbrev pub IsWord : Bytes → Type 0
IsWord [] = Unit {0}
IsWord (x ∷ s) = (is_blank x ≡ false) × (is_newline x ≡ false) × (x ≢ 0) × IsWord s

-- No end of a line, no NUL.
abbrev pub IsLine : Bytes → Type 0
IsLine [] = Unit {0}
IsLine (x ∷ s) = (is_newline x ≡ false) × (x ≢ 0) × IsLine s

pub skip_leading-AreBlank :
    (size : ℕ) (failure : Option Errno) (blanks : Bytes) (x : ℕ) (s : Bytes) (n : ℕ)
    → AreBlank blanks
    → is_blank x ≡ false
    → n + length blanks + 1 < size
    → skip_leading size failure (blanks ++ (x ∷ s)) n ≡ ok (x ∷ s, n + length blanks + 1)
skip_leading-AreBlank size failure [] x s n b w lt =
    let e : n + 0 + 1 ≡ n + 1 = omega arith in rw (w, e) refl
skip_leading-AreBlank size failure (y ∷ blanks) x s n b w lt =
    let t : ltb (n + 1) size ≡ true = ground arith in
    let e : n + 1 + length blanks + 1 ≡ n + suc (length blanks) + 1 = omega arith in
    rw (b.0, t)
      (skip_leading-AreBlank size failure blanks x s (n + 1) b.1 w (omega arith)
        ∙ ap (λ k. ok (x ∷ s, k)) e)

-- Whether the byte before is one that is no NUL, or there is none.
abbrev pub Goes : Bytes → Type 0
Goes path = (ltb 1 (length path) && last_byte path == 0) ≡ false

pub and_false : (b : Bool) → (b && false) ≡ false
and_false true = refl
and_false false = refl

pub snoc-Goes : (path : Bytes) (x : ℕ) → x ≢ 0 → Goes (path ++ (x ∷ []))
snoc-Goes path x ne =
    let f : (x == 0) ≡ false = ground arith in
    rw (last_byte-append path [] x, f) (and_false (ltb 1 (length (path ++ (x ∷ [])))))

pub slurp_path-IsWord :
    (size : ℕ) (failure : Option Errno) (word rest : Bytes) (n : ℕ) (path : Bytes)
    → IsWord word
    → n + length word ≤ size
    → Goes path
    → slurp_path size failure (word ++ rest) n path
      ≡ slurp_path size failure rest (n + length word) (path ++ word)
slurp_path-IsWord size failure [] rest n path w le g =
    let e : n + 0 ≡ n = omega arith in rw (append-nil path, e) refl
slurp_path-IsWord size failure (x ∷ word) rest n path w le g =
    let t : ltb n size ≡ true = ground arith in
    let e : n + 1 + length word ≡ n + suc (length word) = omega arith in
    rw (t, w.1, w.0, g)
      (slurp_path-IsWord size failure word rest (n + 1) (path ++ (x ∷ [])) w.3 (omega arith)
          (snoc-Goes path x w.2)
        ∙ ap (slurp_path size failure rest (n + 1 + length word)) (append_assoc path (x ∷ []) word)
        ∙ ap (λ k. slurp_path size failure rest k (path ++ (x ∷ word))) e)

pub slurp_path-AreBlank :
    (size : ℕ) (failure : Option Errno) (blanks rest : Bytes) (n : ℕ) (path : Bytes)
    → AreBlank blanks
    → n + length blanks ≤ size
    → slurp_path size failure (blanks ++ rest) n path
      ≡ slurp_path size failure rest (n + length blanks) (path ++ replicate (length blanks) 0)
slurp_path-AreBlank size failure [] rest n path b le =
    let e : n + 0 ≡ n = omega arith in rw (append-nil path, e) refl
slurp_path-AreBlank size failure (x ∷ blanks) rest n path b le =
    let t : ltb n size ≡ true = ground arith in
    let l : is_newline x ≡ false = blank_no_newline x b.0 in
    let e : n + 1 + length blanks ≡ n + suc (length blanks) = omega arith in
    let le' : n + 1 + length blanks ≤ size = omega arith in
    let zeros : Bytes = replicate {A = ℕ} (length blanks) 0 in
    rw (t, l, b.0)
      (slurp_path-AreBlank size failure blanks rest (n + 1) (path ++ (0 ∷ [])) b.1 le'
        ∙ ap (slurp_path size failure rest (n + 1 + length blanks))
            (append_assoc path (0 ∷ []) zeros)
        ∙ ap (λ k. slurp_path size failure rest k (path ++ (0 ∷ zeros))) e)

pub slurp_argument-IsLine :
    (size : ℕ) (failure : Option Errno) (line : Bytes) (x : ℕ) (s : Bytes) (n : ℕ)
    (argument path : Bytes)
    → IsLine line
    → is_newline x ≡ true
    → n + length line < size
    → slurp_argument size failure (line ++ (x ∷ s)) n argument path
      ≡ ok (path, c_string (trim (argument ++ line)))
slurp_argument-IsLine size failure [] x s n argument path l h lt =
    let t : ltb n size ≡ true = ground arith in rw (t, h, append-nil argument) refl
slurp_argument-IsLine size failure (y ∷ line) x s n argument path l h lt =
    let t : ltb n size ≡ true = ground arith in
    rw (t, l.0)
      (slurp_argument-IsLine size failure line x s (n + 1) (argument ++ (y ∷ [])) path l.2 h
          (omega arith)
        ∙ ap (λ a. ok (path, c_string (trim a))) (append_assoc argument (y ∷ []) line))

pub c_string-IsWord : (word : Bytes) (k : ℕ) → IsWord word → c_string (word ++ replicate k 0) ≡ word
c_string-IsWord [] zero w = refl
c_string-IsWord [] (suc k) w = refl
c_string-IsWord (x ∷ word) k w =
    let ne : x ≢ 0 = w.2 in
    let f : (x == 0) ≡ false = ground arith in rw (f) (ap (λ t. x ∷ t) (c_string-IsWord word k w.3))

pub c_string-IsLine : (line : Bytes) → IsLine line → c_string line ≡ line
c_string-IsLine [] l = refl
c_string-IsLine (x ∷ line) l =
    let ne : x ≢ 0 = l.1 in
    let f : (x == 0) ≡ false = ground arith in rw (f) (ap (λ t. x ∷ t) (c_string-IsLine line l.2))

pub trim_tail-AreBlank : (blanks : Bytes) → AreBlank blanks → trim_tail blanks ≡ []
trim_tail-AreBlank [] b = refl
trim_tail-AreBlank (x ∷ blanks) b = rw (trim_tail-AreBlank blanks b.1, b.0) refl

-- The bytes end with one that is no blank.
abbrev pub EndsFull : Bytes → Type 0
EndsFull [] = ⊥
EndsFull (x ∷ []) = is_blank x ≡ false
EndsFull (x ∷ y ∷ s) = EndsFull (y ∷ s)

pub trim_tail-EndsFull :
    (s blanks : Bytes) → EndsFull s → AreBlank blanks → trim_tail (s ++ blanks) ≡ s
trim_tail-EndsFull [] blanks e b = elim e [ ]
trim_tail-EndsFull (x ∷ []) blanks e b = rw (trim_tail-AreBlank blanks b, e) refl
trim_tail-EndsFull (x ∷ y ∷ s) blanks e b = rw (trim_tail-EndsFull (y ∷ s) blanks e b) refl

pub trim-EndsFull : (s blanks : Bytes) → EndsFull s → AreBlank blanks → trim (s ++ blanks) ≡ s
trim-EndsFull [] blanks e b = elim e [ ]
trim-EndsFull (x ∷ []) blanks e b = ap (λ t. x ∷ t) (trim_tail-AreBlank blanks b)
trim-EndsFull (x ∷ y ∷ s) blanks e b = ap (λ t. x ∷ t) (trim_tail-EndsFull (y ∷ s) blanks e b)

pub last_zero : (k : ℕ) → last_byte (replicate (suc k) 0) ≡ 0
last_zero zero = refl
last_zero (suc k) = last_zero k

pub IsLine-append : (a b : Bytes) → IsLine a → AreBlank b → IsLine (a ++ b)
IsLine-append [] [] l b = tt
IsLine-append [] (x ∷ blanks) l b =
    let h : is_blank x ≡ true = b.0 in
    (blank_no_newline x h, λ e. absurd (ground arith), IsLine-append [] blanks tt b.1)
IsLine-append (x ∷ a) b l c = (l.0, l.1, IsLine-append a b l.2 c)

pub long_path :
    (word : Bytes) (k : ℕ)
    → 0 < length word
    → ltb 1 (length (word ++ replicate {A = ℕ} (suc k) 0)) ≡ true
long_path word k pos =
    let l : 1 < length (word ++ replicate {A = ℕ} (suc k) 0) =
      omega (arith, length-append word (replicate {A = ℕ} (suc k) 0)) in
    ground arith

pub path_then_argument :
    (size : ℕ) (failure : Option Errno) (word : Bytes) (k x : ℕ) (s : Bytes) (n : ℕ)
    → IsWord word
    → 0 < length word
    → is_blank x ≡ false
    → is_newline x ≡ false
    → n < size
    → slurp_path size failure (x ∷ s) n (word ++ replicate (suc k) 0)
      ≡ slurp_argument size failure (x ∷ s) n [] word
path_then_argument size failure word k x s n w pos b l lt =
    let t : ltb n size ≡ true = ground arith in
    let long : ltb 1 (length (word ++ replicate {A = ℕ} (suc k) 0)) ≡ true = long_path word k pos in
    let z : last_byte (word ++ replicate {A = ℕ} (suc k) 0) ≡ 0 =
      last_byte-append word (replicate {A = ℕ} k 0) 0 ∙ last_zero k in
    rw (t, l, b, long, z)
      (ap (slurp_argument size failure s (n + 1) (x ∷ [])) (c_string-IsWord word (suc k) w))
