-- ===== src/Socket/Bounds.antt =====
-- What translate_socketcall_exit of syscall/socket.c writes to the tracee's buffer.
use xyzterm.Common.{
  ℕ, zero, suc, ◌+◌, ◌-◌, ◌≤◌, ◌≡◌, refl, sym, ap, subst, ◌⊎◌, inl, inr, [], ◌∷◌, Option, none,
  some, not, ◌||◌, ◌==◌, ltb, if_both, arith, length, length-append, length-take, take, replicate,
  Result, ok, err, ◌>>=◌, Result-cases, Errno,
}
use xyzterm.Common.Int.{ℤ, pos}
use xyzterm.Path.{Bytes, byte_at}
use xyzterm.Socket.{
  System, offsetof_path, sizeof_sockaddr_un, af_unix, sun_family, over_zeros, named_socket,
  expected_size, read_sized, read_sockaddr_un, strncpy, with_path, Reported, truncated, no_error,
  exit_named, min_size, translate_socketcall_exit,
}

-- A structure of a Unix socket with its full size.
abbrev pub IsSockaddr : Bytes → Type 0
IsSockaddr s = (sun_family s ≡ af_unix) × (sizeof_sockaddr_un ≤ length s)

-- What read_sockaddr_un gives has a property of named sockets, or is nothing.
abbrev pub OfNamed : (Bytes × Bytes → Type 0) → Result (Option (Bytes × Bytes)) → Type 0
OfNamed P (err e) = Unit {0}
OfNamed P (ok none) = Unit {0}
OfNamed P (ok (some r)) = P r

length-replicate_zeros : (n : ℕ) → length {A = ℕ} (replicate n 0) ≡ n
length-replicate_zeros zero = refl
length-replicate_zeros (suc n) = ap suc (length-replicate_zeros n)

over_zeros_long : (bytes : Bytes) → sizeof_sockaddr_un ≤ length (over_zeros bytes)
over_zeros_long bytes = omega (
  arith,
  length-append bytes (replicate (110 - length bytes) 0),
  length-replicate_zeros (110 - length bytes),
)

named_socket-IsSockaddr :
    (s : Bytes)
    → sizeof_sockaddr_un ≤ length s
    → OfNamed (λ r. IsSockaddr r.0) (ok (named_socket s))
named_socket-IsSockaddr s long =
    if_both (λ o. OfNamed (λ r. IsSockaddr r.0) (ok o))
      (not (sun_family s == af_unix) || byte_at s offsetof_path == 0) (λ e. tt)
      (λ e. (ground arith, long))

read_sized-IsSockaddr :
    (y : System) (address : ℕ) (size : Option ℕ)
    → OfNamed (λ r. IsSockaddr r.0) (read_sized y address size)
read_sized-IsSockaddr y address none = tt
read_sized-IsSockaddr y address (some size) = elim (Result-cases (y.read_data address size)) [
  | inl (e, q) ↦ rw (read_sized, q) tt
  | inr (bytes, q) ↦
      rw (read_sized, q) (named_socket-IsSockaddr (over_zeros bytes) (over_zeros_long bytes))
]

pub read_sockaddr_un-IsSockaddr :
    (y : System) (max_size address : ℕ) (size : ℤ)
    → OfNamed (λ r. IsSockaddr r.0) (read_sockaddr_un y max_size address size)
unfolding read_sockaddr_un
read_sockaddr_un-IsSockaddr y max_size address size =
    read_sized-IsSockaddr y address (expected_size max_size size)

pub length-strncpy : (n : ℕ) (path : Bytes) → length (strncpy n path) ≡ n
length-strncpy zero path = refl
length-strncpy (suc n) [] = ap suc (length-strncpy n [])
length-strncpy (suc n) (x ∷ path) = ap suc (length-strncpy n path)

pub length-with_path :
    (s path : Bytes)
    → sizeof_sockaddr_un ≤ length s
    → length (with_path s path) ≡ sizeof_sockaddr_un
length-with_path s path long =
    omega
      (arith, length-append (take 2 s) (strncpy 108 path), length-take 2 s, length-strncpy 108 path)

-- What is written fits, and either the size that is reported is that of what is written, or the buffer is
-- full and the size reported is one more.
abbrev pub FitsBuffer : ℕ → Reported → Type 0
FitsBuffer max_size r =
    (length r.bytes ≤ max_size)
    × ((r.addrlen ≡ length r.bytes) ⊎ ((length r.bytes ≡ max_size) × (r.addrlen ≡ max_size + 1)))

truncated-FitsBuffer :
    (max_size : ℕ) (s path : Bytes)
    → sizeof_sockaddr_un ≤ length s
    → max_size ≤ sizeof_sockaddr_un
    → FitsBuffer max_size (truncated max_size s path)
truncated-FitsBuffer max_size s path long le =
    let size = offsetof_path + length path + 1 in
    let n = length-with_path s path long in
    if_both {A = Reported} (FitsBuffer max_size) (ltb max_size size)
      (λ e.
        let l : length (take max_size (with_path s path)) ≡ max_size =
          omega (arith, length-take max_size (with_path s path), n) in
        (omega arith, inr (l, refl)))
      λ e.
        let lt : size ≤ max_size = ground arith in
        let l : length (take size (with_path s path)) ≡ size =
          omega (arith, length-take size (with_path s path), n) in
        (omega arith, inl (sym l))

abbrev WhereReported : ℕ → Result (Option Reported) → Type 0
WhereReported max_size (err e) = Unit {0}
WhereReported max_size (ok none) = Unit {0}
WhereReported max_size (ok (some r)) = FitsBuffer max_size r

no_error-WhereReported :
    (max_size : ℕ) (o : Option Errno) (r : Result (Option Reported))
    → WhereReported max_size r
    → WhereReported max_size (no_error o r)
no_error-WhereReported max_size none r h = h
no_error-WhereReported max_size (some e) r h = tt

exit_named-WhereReported :
    (y : System) (sock_addr size_addr max_size : ℕ) (r : Option (Bytes × Bytes))
    → OfNamed (λ n. IsSockaddr n.0) (ok r)
    → max_size ≤ sizeof_sockaddr_un
    → WhereReported max_size (exit_named y sock_addr size_addr max_size r)
exit_named-WhereReported y sock_addr size_addr max_size none h le = tt
exit_named-WhereReported y sock_addr size_addr max_size (some (s, path)) h le =
    elim (Result-cases (y.to_guest path)) [
      | inl (e, q) ↦ rw (exit_named, q) tt
      | inr ((n, path'), q) ↦
          let t = truncated max_size s path' in
          rw (exit_named, q)
            (no_error-WhereReported max_size (y.write_error sock_addr t.bytes) _ (
              no_error-WhereReported max_size (y.poke_error size_addr (pos t.addrlen)) (ok (some t))
                (truncated-FitsBuffer max_size s path' h.1 le)))
    ]

min_size_le : (max_size : ℕ) → min_size max_size ≤ sizeof_sockaddr_un
min_size_le max_size = ground arith

-- On every branch of translate_socketcall_exit that writes, the bytes that are written fit the buffer of the
-- tracee, which counts as at most the size of a sockaddr_un; and the size that is reported is theirs, or the
-- buffer is full and the size reported is one more than the buffer's, which says that it is truncated.
pub translate_socketcall_exit-FitsBuffer :
    (y : System) (sock_addr size_addr max_size : ℕ) (r : Reported)
    → translate_socketcall_exit y sock_addr size_addr max_size ≡ ok (some r)
    → (min_size max_size ≤ max_size) × FitsBuffer (min_size max_size) r
unfolding translate_socketcall_exit
translate_socketcall_exit-FitsBuffer y sock_addr size_addr max_size r e =
    (ground arith, subst (WhereReported max) e (from (Result-cases (y.peek_int32 size_addr))))
  where
    max : ℕ
    max = min_size max_size

    read : ℤ → Result (Option (Bytes × Bytes))
    read size = read_sockaddr_un y max sock_addr size

    rest_of : Result ℤ → Result (Option Reported)
    rest_of q = q >>= (λ size. read size) >>= (λ n. exit_named y sock_addr size_addr max n)

    sized : (size : ℤ) → WhereReported max (rest_of (ok size))
    sized size = elim (Result-cases (read size)) [
      | inl (f, q) ↦ rw (q) tt
      | inr (n, q) ↦ rw (q) (
          exit_named-WhereReported y sock_addr size_addr max n
            (subst (OfNamed (λ m. IsSockaddr m.0)) q
              (read_sockaddr_un-IsSockaddr y max sock_addr size))
            (min_size_le max_size))
    ]

    from :
        ((f : Errno) × (y.peek_int32 size_addr ≡ err f))
          ⊎ ((size : ℤ) × (y.peek_int32 size_addr ≡ ok size))
        → WhereReported max (translate_socketcall_exit y sock_addr size_addr max_size)
    from c =
        if_both {A = Result (Option Reported)} (WhereReported max) (sock_addr == 0) (λ f. tt)
          λ f. elim c [
            | inl (g, q) ↦ subst (λ t. WhereReported max (rest_of t)) (sym q) tt
            | inr (size, q) ↦ subst (λ t. WhereReported max (rest_of t)) (sym q) (sized size)
          ]
