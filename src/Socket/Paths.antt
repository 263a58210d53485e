-- ===== src/Socket/Paths.antt =====
-- What a tracee's socket address becomes, as the kernel reads it.
use xyzterm.Common.{
  Bool, true, false, ℕ, zero, suc, ◌-◌, ◌≤◌, ◌<◌, ◌≡◌, refl, sym, ap, ◌∙◌, subst, inl, inr, [], ◌∷◌,
  ◌++◌, Option, none, some, true, false, ◌||◌, ◌==◌, ltb, if_both, arith, length, take, replicate,
  append-nil, Result, ok, err, ◌>>=◌, Result-cases, Errno,
}
use xyzterm.Common.Int.{ℤ, pos}
use xyzterm.Path.{Bytes}
use xyzterm.Path.Compare.{NoNul}
use xyzterm.Shebang.{c_string}
use xyzterm.Socket.{
  System, sizeof_path, sizeof_sockaddr_un, af_unix, sun_family, over_zeros, named_socket,
  read_sockaddr_un, strncpy, with_path, Pushed, Shorter, bound_to, with_name, shortened, written,
  push, enter_named, translate_socketcall_enter,
}
use xyzterm.Socket.Bounds.{IsSockaddr, OfNamed, read_sockaddr_un-IsSockaddr, length-with_path}

-- A path in C, which is not empty.
abbrev pub IsCString : Bytes → Type 0
IsCString path = (0 < length path) × NoNul path

c_string-strncpy :
    (n : ℕ) (path : Bytes) → NoNul path → length path ≤ n → c_string (strncpy n path) ≡ path
c_string-strncpy zero [] h le = refl
c_string-strncpy zero (x ∷ path) h le = absurd (omega (arith, le))
c_string-strncpy (suc n) [] h le = refl
c_string-strncpy (suc n) (x ∷ path) h le =
    let f : (x == 0) ≡ false = ground (arith, h.0) in
    rw (f) (ap (λ p. x ∷ p) (c_string-strncpy n path h.1 (omega (arith, le))))

take_all : (n : ℕ) (path : Bytes) → take n (strncpy n path) ≡ strncpy n path
take_all zero path = refl
take_all (suc n) [] = ap (λ p. 0 ∷ p) (take_all n [])
take_all (suc n) (x ∷ path) = ap (λ p. x ∷ p) (take_all n path)

-- A structure with another path is read with that path.
named_socket-with_path :
    (s path : Bytes)
    → IsSockaddr s
    → IsCString path
    → length path ≤ sizeof_path
    → named_socket (with_path s path) ≡ some (with_path s path, path)
named_socket-with_path [] path i c le = absurd (omega (arith, i.1))
named_socket-with_path (a ∷ []) path i c le = absurd (omega (arith, i.1))
named_socket-with_path (a ∷ b ∷ s) [] i c le = absurd (omega (arith, c.0))
named_socket-with_path (a ∷ b ∷ s) (x ∷ path) i c le =
    let f : (sun_family (a ∷ b ∷ s) == af_unix) ≡ true = ground (arith, i.0) in
    let g : (x == 0) ≡ false = ground (arith, c.1.0) in
    let back : c_string (take 107 (strncpy 107 path)) ≡ path =
      ap c_string (take_all 107 path) ∙ c_string-strncpy 107 path c.1.1 (omega (arith, le)) in
    rw (f, g) (ap (λ p. some (a ∷ b ∷ x ∷ strncpy 107 path, x ∷ p)) back)

-- The path that the kernel is to see: that of the new binding, or the one of the host.
abbrev pub path_told : Bytes → Option (Bytes × Bytes) → Bytes
path_told host_path none = host_path
path_told host_path (some (host, guest)) = host

-- There is a new binding exactly for a path of the host that is too long.
abbrev pub is_bound : Option (Bytes × Bytes) → Bool
is_bound none = false
is_bound (some b) = true

-- A path of the host that fits, shortened by a binding or not.
abbrev IsShort : Bytes → Shorter → Type 0
IsShort host_path (err e) = Unit {0}
IsShort host_path (ok (path, binding)) =
    (path ≡ path_told host_path binding)
    × IsCString path
    × (length path ≤ sizeof_path)
    × (ltb sizeof_path (length host_path) ≡ is_bound binding)

bound_to-IsShort :
    (y : System) (host_path name : Bytes) (r : Result (ℕ × Bytes))
    → IsCString name
    → length name ≤ sizeof_path
    → ltb sizeof_path (length host_path) ≡ true
    → IsShort host_path (bound_to y name r)
bound_to-IsShort y host_path name (err e) c le long = tt
bound_to-IsShort y host_path name (ok r) c le long =
    if_both {A = Shorter} (IsShort host_path) (y.insort_binding3 name r.1)
      (λ e. (refl, c, le, long)) (λ e. tt)

shortened-IsShort :
    (y : System) (host_path : Bytes)
    → IsCString host_path
    → ((name : Bytes) → y.create_temp_name ≡ some name → IsCString (y.mktemp name))
    → IsShort host_path (shortened y host_path)
shortened-IsShort y host_path c names =
    if_both {A = Shorter} (IsShort host_path) (ltb sizeof_path (length host_path))
      (λ e. go e y.create_temp_name refl) (λ e. (refl, c, ground arith, e))
  where
    go :
        ltb sizeof_path (length host_path) ≡ true
        → (name : Option Bytes) → y.create_temp_name ≡ name
        → IsShort host_path (with_name y host_path name)
    go long none q = tt
    go long (some name) q =
        if_both {A = Shorter} (IsShort host_path)
          (ltb sizeof_path (length name) || ltb sizeof_path (length (y.mktemp name))) (λ e. tt)
          (λ e.
            bound_to-IsShort y host_path (y.mktemp name) (y.to_guest host_path) (names name q)
              (ground arith) long)

-- The structure holds the path that the kernel is to see.
abbrev Holds : Bytes → Result (Option Pushed) → Type 0
Holds host_path (err e) = Unit {0}
Holds host_path (ok none) = Unit {0}
Holds host_path (ok (some p)) =
    (length p.sockaddr ≡ sizeof_sockaddr_un)
    × (named_socket p.sockaddr ≡ some (p.sockaddr, path_told host_path p.binding))
    × (ltb sizeof_path (length host_path) ≡ is_bound p.binding)

push-Holds :
    (y : System) (s host_path path : Bytes) (binding : Option (Bytes × Bytes))
    → IsSockaddr s
    → IsShort host_path (ok (path, binding))
    → Holds host_path (push y s (path, binding))
push-Holds y s host_path path binding i h =
    let address = y.alloc_mem sizeof_sockaddr_un in
    if_both {A = Result (Option Pushed)} (Holds host_path) (address == 0) (λ e. tt)
      (λ e. go (y.write_error address (with_path s path)))
  where
    address : ℕ
    address = y.alloc_mem sizeof_sockaddr_un

    p : Pushed
    p = record { address = address; sockaddr = with_path s path; binding = binding }

    go : (o : Option Errno) → Holds host_path (written o (ok p))
    go none = (
      length-with_path s path i.1,
      named_socket-with_path s path i h.1 h.2 ∙ ap (λ q. some (with_path s path, q)) h.0,
      h.3,
    )
    go (some e) = tt

enter_named-Holds :
    (y : System) (s user_path host_path : Bytes)
    → IsSockaddr s
    → y.to_host user_path ≡ ok host_path
    → IsCString host_path
    → ((name : Bytes) → y.create_temp_name ≡ some name → IsCString (y.mktemp name))
    → Holds host_path (enter_named y (some (s, user_path)))
enter_named-Holds y s user_path host_path i e c names =
    let short = shortened-IsShort y host_path c names in
    elim (Result-cases (shortened y host_path)) [
      | inl (f, q) ↦ rw (enter_named, e, q) tt
      | inr ((path, binding), q) ↦
          rw (enter_named, e, q)
            (push-Holds y s host_path path binding i (subst (IsShort host_path) q short))
    ]

-- Where translate_socketcall_enter replaces the address of a named socket, what the kernel reads at the new
-- address is again a named socket; its path is the translated path of the host where that has at most the
-- 108 bytes of sun_path, and otherwise, and only then, a new binding is made and it is that binding's path
-- on the host. The translated path is a C string that is not empty, and so is the name that mktemp gives
-- for the temporary name, which it is unless mktemp fails.
pub translate_socketcall_enter-read :
    (y y' : System) (address : ℕ) (size : ℤ) (s user_path host_path : Bytes) (p : Pushed)
    → read_sockaddr_un y sizeof_sockaddr_un address size ≡ ok (some (s, user_path))
    → y.to_host user_path ≡ ok host_path
    → IsCString host_path
    → ((name : Bytes) → y.create_temp_name ≡ some name → IsCString (y.mktemp name))
    → translate_socketcall_enter y address size ≡ ok (some p)
    → y'.read_data p.address sizeof_sockaddr_un ≡ ok p.sockaddr
    → (read_sockaddr_un y' sizeof_sockaddr_un p.address (pos sizeof_sockaddr_un)
        ≡ ok (some (p.sockaddr, path_told host_path p.binding)))
      × (ltb 108 (length host_path) ≡ is_bound p.binding)
unfolding translate_socketcall_enter read_sockaddr_un
translate_socketcall_enter-read y y' address size s user_path host_path p read e c names done
      again =
    let i : IsSockaddr s =
      subst (OfNamed (λ r. IsSockaddr r.0)) read
        (read_sockaddr_un-IsSockaddr y sizeof_sockaddr_un address size) in
    let holds : Holds host_path (translate_socketcall_enter y address size) =
      if_both {A = Result (Option Pushed)} (Holds host_path) (address == 0) (λ f. tt)
        (λ f.
          subst (λ r. Holds host_path (r >>= (λ n. enter_named y n))) (sym read)
            (enter_named-Holds y s user_path host_path i e c names)) in
    let h : Holds host_path (ok (some p)) = subst (Holds host_path) done holds in
    let zeros : over_zeros p.sockaddr ≡ p.sockaddr =
      ap (λ n. p.sockaddr ++ replicate (110 - n) 0) h.0 ∙ append-nil p.sockaddr in
    (
      ap (λ r. r >>= (λ bytes. ok (named_socket (over_zeros bytes)))) again
          ∙ ap (λ b. ok (named_socket b)) zeros
          ∙ ap ok h.1,
      h.2,
    )
