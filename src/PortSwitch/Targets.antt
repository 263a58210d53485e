-- ===== src/PortSwitch/Targets.antt =====
-- What a write of the callback of extension/port_switch/port_switch.c should be, for each call, and what
-- mod_port takes and where it writes to.
use xyzterm.Common.{
  ℕ, zero, suc, ◌+◌, ◌*◌, ◌%◌, ◌^◌, ◌<◌, ◌≤◌, ◌≡◌, refl, List, [], ◌∷◌, Bool, true, false, not,
  ◌==◌, if◌then◌else◌, ◌⊎◌, inl, inr, arith, length, take, drop, get_or,
}
use xyzterm.Path.{Bytes}
use xyzterm.PortSwitch.{
  af_inet, af_inet6, ss_family, sin_port, is_threshold, switched, Write, Call, write_inet,
  write_inet6, is_localhost, Machine,
}

abbrev pub IsReserved : Bytes → Type 0
IsReserved s = (0 < sin_port s) × (sin_port s < 1024)

-- An IPv4 or IPv6 address with a port that is reserved.
abbrev pub HasReserved : Bytes → Type 0
HasReserved s = ((ss_family s ≡ af_inet) ⊎ (ss_family s ≡ af_inet6)) × IsReserved s

-- The second address is the first with its port moved up by 2000, up to the size of a pointer.
abbrev pub Moves : ℕ → Bytes → Bytes → Type 0
Moves size s b =
    (ss_family b ≡ ss_family s)
    × (sin_port b ≡ sin_port s + 2000)
    × (drop 4 b ≡ drop 4 (take size s))

-- The address that stands at `from` is written to `to`, moved, followed by `rest`, if R holds, and
-- nothing is written otherwise.
abbrev pub Moved : Machine → ℕ → ℕ → List Write → Type 0 → List Write → Type 0
Moved m from to rest R writes =
    ((writes ≡ []) × ¬ R)
    ⊎ (R
        × (b : Bytes) × (writes ≡ Write.of_bytes to b ∷ rest)
        × Moves m.sizeof_pointer (m.read_sockaddr from) b)

abbrev pub IsLocal : Machine → ℕ → Type 0
IsLocal m from = is_localhost m.inet6_text (m.read_sockaddr from) ≡ true

-- What is written for each call. For socketcall(2) the address is the second or the fifth argument of
-- the call that it stands for, and the first argument is written over that of socketcall.
abbrev pub Written : Machine → Call → List Write → Type 0
Written m (Call.bind from to) writes =
    Moved m from to [] (HasReserved (m.read_sockaddr from)) writes
Written m (Call.connect from to) writes =
    Moved m from to [] (HasReserved (m.read_sockaddr from) × IsLocal m from) writes
Written m (Call.sendto from to) writes =
    let s = m.read_sockaddr from in
    Moved m from to []
      ((((ss_family s ≡ af_inet) × IsReserved s) × IsLocal m from) × (not (from == 0) ≡ true))
      writes
Written m (Call.socketcall call from to) writes =
    let number = call % 2 ^ 32 in
    let a = m.read_arguments from in
    let rest : List Write = Write.of_argument to (get_or a 0 0) ∷ [] in
    let second = get_or a 1 0 in
    let fifth = get_or a 4 0 in
    ((number ≡ 2) × Moved m second second rest (HasReserved (m.read_sockaddr second)) writes)
    ⊎ ((number ≡ 3)
        × Moved m second second rest (HasReserved (m.read_sockaddr second) × IsLocal m second)
            writes)
    ⊎ ((number ≡ 11)
        × Moved m fifth fifth rest
            ((HasReserved (m.read_sockaddr fifth) × IsLocal m fifth) × (not (fifth == 0) ≡ true))
            writes)
    ⊎ (¬ (number ≡ 2) × ¬ (number ≡ 3) × ¬ (number ≡ 11) × (writes ≡ []))
Written m Call.other_call writes = writes ≡ []

pub switched-Moves :
    (n : ℕ) (s : Bytes)
    → 4 ≤ n
    → 4 ≤ length s
    → is_threshold (sin_port s) ≡ true
    → Moves n s (take n (switched s))
switched-Moves n [] le long h = absurd (omega (arith, long))
switched-Moves n (x ∷ []) le long h = absurd (omega (arith, long))
switched-Moves n (x ∷ y ∷ []) le long h = absurd (omega (arith, long))
switched-Moves n (x ∷ y ∷ z ∷ []) le long h = absurd (omega (arith, long))
switched-Moves zero (x ∷ y ∷ z ∷ w ∷ s) le long h = absurd (omega (arith, le))
switched-Moves (suc zero) (x ∷ y ∷ z ∷ w ∷ s) le long h = absurd (omega (arith, le))
switched-Moves (suc (suc zero)) (x ∷ y ∷ z ∷ w ∷ s) le long h = absurd (omega (arith, le))
switched-Moves (suc (suc (suc zero))) (x ∷ y ∷ z ∷ w ∷ s) le long h = absurd (omega (arith, le))
switched-Moves (suc (suc (suc (suc n)))) (x ∷ y ∷ z ∷ w ∷ s) le long h =
    let high : z * 256 + w < 1024 = ground arith in (refl, omega arith, refl)

-- Where mod_port writes to, and what it writes behind the address.
abbrev pub target : Bool → Bool → ℕ → List ℕ → ℕ
target true true address a = get_or a 4 0
target true false address a = get_or a 1 0
target false is_udp address a = address

abbrev pub behind : Bool → ℕ → List ℕ → List Write
behind true address a = Write.of_argument address (get_or a 0 0) ∷ []
behind false address a = []

-- Whether mod_port has a case for IPv6.
abbrev pub takes_inet6 : Bool → Bool → Bool
takes_inet6 false true = false
takes_inet6 false false = true
takes_inet6 true is_udp = true

-- When mod_port writes.
abbrev pub Taken : Bool → Bool → Bytes → Type 0
Taken false true s = (ss_family s ≡ af_inet) × IsReserved s
Taken false false s = HasReserved s
Taken true is_udp s = HasReserved s

pub write_inet-target :
    (n : ℕ) (sock udp : Bool) (s : Bytes) (address : ℕ) (a : List ℕ)
    → write_inet n sock udp s address a
      ≡ Write.of_bytes (target sock udp address a) (take n s) ∷ behind sock address a
write_inet-target n true true s address a = refl
write_inet-target n true false s address a = refl
write_inet-target n false true s address a = refl
write_inet-target n false false s address a = refl

pub write_inet6-target :
    (n : ℕ) (sock udp : Bool) (s : Bytes) (address : ℕ) (a : List ℕ)
    → write_inet6 n sock udp s address a ≡ (
        if takes_inet6 sock udp
        then Write.of_bytes (target sock udp address a) (take n s) ∷ behind sock address a
        else [])
write_inet6-target n true true s address a = refl
write_inet6-target n true false s address a = refl
write_inet6-target n false true s address a = refl
write_inet6-target n false false s address a = refl

pub inet-Taken :
    (sock udp : Bool) (s : Bytes) → ss_family s ≡ af_inet → IsReserved s → Taken sock udp s
inet-Taken false true s e r = (e, r)
inet-Taken false false s e r = (inl e, r)
inet-Taken true udp s e r = (inl e, r)

pub inet6-Taken :
    (sock udp : Bool) (s : Bytes)
    → takes_inet6 sock udp ≡ true
    → ss_family s ≡ af_inet6
    → IsReserved s
    → Taken sock udp s
inet6-Taken false true s t e r = absurd (cc)
inet6-Taken false false s t e r = (inr e, r)
inet6-Taken true udp s t e r = (inr e, r)

-- What is taken has one of the two families, and IPv6 is only taken if there is a case for it.
pub Taken-family :
    (sock udp : Bool) (s : Bytes)
    → Taken sock udp s
    → ((ss_family s ≡ af_inet) ⊎ ((ss_family s ≡ af_inet6) × (takes_inet6 sock udp ≡ true)))
      × IsReserved s
Taken-family false true s t = (inl t.0, t.1)
Taken-family false false s (inl e, r) = (inl e, r)
Taken-family false false s (inr e, r) = (inr (e, refl), r)
Taken-family true udp s (inl e, r) = (inl e, r)
Taken-family true udp s (inr e, r) = (inr (e, refl), r)

pub threshold-IsReserved : (s : Bytes) → is_threshold (sin_port s) ≡ true → IsReserved s
threshold-IsReserved s h = (ground arith, ground arith)

pub IsReserved-threshold : (s : Bytes) → IsReserved s → is_threshold (sin_port s) ≡ true
IsReserved-threshold s (low, high) = ground arith

-- A test before the writes is one more condition.
pub guarded-Moved :
    (m : Machine) (from to : ℕ) (rest : List Write) (R : Type 0) (writes : List Write) (g : Bool)
    → Moved m from to rest R writes
    → Moved m from to rest (R × (g ≡ true)) (if g then writes else [])
guarded-Moved m from to rest R writes false h = inl (refl, λ r. absurd (let e = r.1 in cc))
guarded-Moved m from to rest R writes true (inl (e, n)) = inl (e, λ r. n r.0)
guarded-Moved m from to rest R writes true (inr (r, b, w, v)) = inr ((r, refl), b, w, v)
