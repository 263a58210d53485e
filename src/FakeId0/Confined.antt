-- ===== src/FakeId0/Confined.antt =====
-- A tracee of fake_id0 that has given up privilege: what its calls can make of its ids.
use xyzterm.Common.{
  none, some, ℕ, ◌≡◌, ◌≢◌, refl, sym, subst, ◌∙◌, ◌⊎◌, inl, inr, Option, List, Bool, true, false,
  not, ◌&&◌, ◌||◌, ◌==◌, if_both, Result, ok, err, eperm, arith,
}
use xyzterm.FakeId0.{
  Ids, Config, Kind, ids_of, with_ids, has_root, maybe_drop_caps, is_privileged, equals_any_id,
  changed, setxid_ids, setxid, may_swap, setrexid_effective, setrexid_real, setrexid, is_own,
  setresxid_ids, setresxid, setfsxid,
}
use xyzterm.FakeId0.Exit.{
  Call, Exit, done, id_of, pr_set_keepcaps, getres_exit, written, others_exit, is_perm_err,
  handle_sysexit_end, has_bit, handle_sysexit_start,
}
use xyzterm.FakeId0.Steps.{
  OneOf, Within, or_split, eq_of, equals_any_id-OneOf, setxid_ids-Within, setrexid_effective-Within,
  setrexid_real-Within, setresxid_ids-Within, may_swap_own,
}

-- No capability, and ids among those of `users` and `groups`.
abbrev pub IsConfined : Ids → Ids → Config → Type 0
IsConfined users groups c = (c.caps_active ≡ false) × Within users c.user × Within groups c.group

abbrev pub HasNoRoot : Ids → Type 0
HasNoRoot ids = (ids.rid ≢ 0) × (ids.eid ≢ 0) × (ids.sid ≢ 0)

OneOf-not-zero : (base : Ids) (id : ℕ) → HasNoRoot base → OneOf base id → id ≢ 0
OneOf-not-zero base id h (inl e) z = h.0 (sym e ∙ z)
OneOf-not-zero base id h (inr (inl e)) z = h.1 (sym e ∙ z)
OneOf-not-zero base id h (inr (inr e)) z = h.2 (sym e ∙ z)

not-false : (b : Bool) → not b ≡ false → b ≡ true
not-false true h = refl
not-false false h = absurd (cc)

both_true : (a b : Bool) → (a && b) ≡ true → (a ≡ true) × (b ≡ true)
both_true true b h = (refl, h)
both_true false b h = absurd (cc)

Holds : (Config → Type 0) → Result Config → Type 0
Holds P (err e) = Unit {0}
Holds P (ok c) = P c

module _ (users groups : Ids) (no_root : HasNoRoot users) where
  confined_unprivileged : (c : Config) → IsConfined users groups c → is_privileged c ≡ false
  confined_unprivileged c h =
      let ne : c.user.eid ≢ 0 = OneOf-not-zero users c.user.eid no_root h.1.1 in
      let f : (c.user.eid == 0) ≡ false = ground arith in rw (f, h.0) refl

  base : Kind → Ids
  base Kind.uid = users
  base Kind.gid = groups

  ids_of-Within :
      (kind : Kind) (c : Config) → IsConfined users groups c → Within (base kind) (ids_of kind c)
  unfolding base
  ids_of-Within Kind.uid c h = h.1
  ids_of-Within Kind.gid c h = h.2

  with_ids-IsConfined :
      (kind : Kind) (ids : Ids) (c : Config)
      → IsConfined users groups c
      → Within (base kind) ids
      → IsConfined users groups (with_ids kind ids c)
  unfolding base
  with_ids-IsConfined Kind.uid ids c h w = (h.0, w, h.2)
  with_ids-IsConfined Kind.gid ids c h w = (h.0, h.1, w)

  drop-IsConfined :
      (prev_root : Bool) (c : Config)
      → IsConfined users groups c
      → IsConfined users groups (maybe_drop_caps prev_root c)
  drop-IsConfined prev_root c h =
      if_both (IsConfined users groups)
        (prev_root
          && not c.keep_caps
          && not (c.user.rid == 0)
          && not (c.user.eid == 0)
          && not (c.user.sid == 0))
        (λ e. (refl, h.1, h.2)) (λ e. h)

  changed-IsConfined :
      (kind : Kind) (ids : Ids) (c : Config)
      → IsConfined users groups c
      → Within (base kind) ids
      → IsConfined users groups (changed kind ids c)
  changed-IsConfined kind ids c h w =
      drop-IsConfined (has_root c.user) (with_ids kind ids c) (with_ids-IsConfined kind ids c h w)

  setxid-IsConfined :
      (kind : Kind) (id : ℕ) (c : Config)
      → IsConfined users groups c
      → Holds (IsConfined users groups) (setxid kind id c)
  unfolding Holds setxid
  setxid-IsConfined kind id c h =
      let p = confined_unprivileged c h in
      let w = ids_of-Within kind c h in
      rw (p) (
        if_both (Holds (IsConfined users groups)) (not (equals_any_id id (ids_of kind c))) (λ e. tt)
          λ e.
            let own : equals_any_id id (ids_of kind c) ≡ true = ground arith in
            changed-IsConfined kind (setxid_ids false id (ids_of kind c)) c h (
              setxid_ids-Within (base kind) (ids_of kind c) id w
                (equals_any_id-OneOf (base kind) (ids_of kind c) id w own)))

  setrexid-IsConfined :
      (kind : Kind) (r e : ℕ) (c : Config)
      → IsConfined users groups c
      → Holds (IsConfined users groups) (setrexid kind r e c)
  unfolding Holds setrexid
  setrexid-IsConfined kind r e c h =
      let p = confined_unprivileged c h in
      let ids = ids_of kind c in
      let w = ids_of-Within kind c h in
      rw (p) (
        if_both (Holds (IsConfined users groups)) (not (may_swap r e ids)) (λ f. tt)
          λ f.
            let allowed : may_swap r e ids ≡ true = not-false (may_swap r e ids) f in
            let own = may_swap_own r e ids allowed in
            changed-IsConfined kind (setrexid_real r e (setrexid_effective e ids)) c h (
              setrexid_real-Within (base kind) r e ids (setrexid_effective e ids) w
                (setrexid_effective-Within (base kind) e ids w own.1) own.0 own.1))

  setresxid-IsConfined :
      (kind : Kind) (r e s : ℕ) (c : Config)
      → IsConfined users groups c
      → Holds (IsConfined users groups) (setresxid kind r e s c)
  unfolding Holds setresxid
  setresxid-IsConfined kind r e s c h =
      let p = confined_unprivileged c h in
      let ids = ids_of kind c in
      let w = ids_of-Within kind c h in
      rw (p) (
        if_both (Holds (IsConfined users groups))
          (not (is_own r ids && is_own e ids && is_own s ids)) (λ f. tt)
          λ f.
            let all : (is_own r ids && is_own e ids && is_own s ids) ≡ true =
              not-false (is_own r ids && is_own e ids && is_own s ids) f in
            let own = both_true (is_own r ids && is_own e ids) (is_own s ids) all in
            let own' = both_true (is_own r ids) (is_own e ids) own.0 in
            changed-IsConfined kind (setresxid_ids r e s ids) c h
              (setresxid_ids-Within (base kind) r e s ids w own'.0 own'.1 own.1))

  setfsxid-IsConfined :
      (kind : Kind) (fs : ℕ) (c : Config)
      → IsConfined users groups c
      → IsConfined users groups (setfsxid kind fs c).1
  unfolding setfsxid
  setfsxid-IsConfined kind fs c h =
      let p = confined_unprivileged c h in
      let ids = ids_of kind c in
      let w = ids_of-Within kind c h in
      rw (p) (
        if_both (IsConfined users groups) (fs == ids.fsid || equals_any_id fs ids)
          (λ e.
            with_ids-IsConfined kind (record ids { fsid = fs }) c h
              (
                w.0,
                w.1,
                w.2,
                elim (or_split (fs == ids.fsid) (equals_any_id fs ids) e) [
                  | inl f ↦
                      subst (λ x. OneOf (base kind) x ⊎ (x ≡ (base kind).fsid))
                        (sym (eq_of fs ids.fsid f)) w.3
                  | inr f ↦ inl (equals_any_id-OneOf (base kind) ids fs w f)
                ],
              ))
          (λ e. h))

  HoldsAt : Result Exit → Type 0
  HoldsAt (err e) = Unit {0}
  HoldsAt (ok x) = IsConfined users groups x.config

  done-HoldsAt : (r : Result Config) → Holds (IsConfined users groups) r → HoldsAt (done r)
  unfolding Holds HoldsAt
  done-HoldsAt (err e) h = tt
  done-HoldsAt (ok c) h = h

  written-HoldsAt :
      (c : Config) (r : Result (List (ℕ × ℕ))) → IsConfined users groups c → HoldsAt (written c r)
  unfolding HoldsAt
  written-HoldsAt c (err e) h = tt
  written-HoldsAt c (ok w) h = h

  others-HoldsAt :
      (c : Config) (r : Result (Option ℕ)) → IsConfined users groups c → HoldsAt (others_exit r c)
  unfolding HoldsAt
  others-HoldsAt c (err e) h = tt
  others-HoldsAt c (ok o) h = h

  exit-HoldsAt :
      (w : ℕ → Bool) (call : Call) (c : Config)
      → IsConfined users groups c
      → HoldsAt (handle_sysexit_end w call c)
  unfolding HoldsAt handle_sysexit_end
  exit-HoldsAt w (Call.setuid a) c h =
      done-HoldsAt (setxid Kind.uid (id_of a) c) (setxid-IsConfined Kind.uid (id_of a) c h)
  exit-HoldsAt w (Call.setgid a) c h =
      done-HoldsAt (setxid Kind.gid (id_of a) c) (setxid-IsConfined Kind.gid (id_of a) c h)
  exit-HoldsAt w (Call.setreuid a b) c h =
      done-HoldsAt (setrexid Kind.uid (id_of a) (id_of b) c)
        (setrexid-IsConfined Kind.uid (id_of a) (id_of b) c h)
  exit-HoldsAt w (Call.setregid a b) c h =
      done-HoldsAt (setrexid Kind.gid (id_of a) (id_of b) c)
        (setrexid-IsConfined Kind.gid (id_of a) (id_of b) c h)
  exit-HoldsAt w (Call.setresuid a b s) c h =
      done-HoldsAt (setresxid Kind.uid (id_of a) (id_of b) (id_of s) c)
        (setresxid-IsConfined Kind.uid (id_of a) (id_of b) (id_of s) c h)
  exit-HoldsAt w (Call.setresgid a b s) c h =
      done-HoldsAt (setresxid Kind.gid (id_of a) (id_of b) (id_of s) c)
        (setresxid-IsConfined Kind.gid (id_of a) (id_of b) (id_of s) c h)
  exit-HoldsAt w (Call.setfsuid a) c h = setfsxid-IsConfined Kind.uid (id_of a) c h
  exit-HoldsAt w (Call.setfsgid a) c h = setfsxid-IsConfined Kind.gid (id_of a) c h
  exit-HoldsAt w (Call.prctl op arg result) c h =
      if_both (IsConfined users groups) (id_of result == 0 && id_of op == pr_set_keepcaps) (λ e. h)
        (λ e. h)
  exit-HoldsAt w Call.getuid c h = h
  exit-HoldsAt w Call.getgid c h = h
  exit-HoldsAt w Call.geteuid c h = h
  exit-HoldsAt w Call.getegid c h = h
  exit-HoldsAt w (Call.getresuid a1 a2 a3) c h = written-HoldsAt c (getres_exit w a1 a2 a3 c.user) h
  exit-HoldsAt w (Call.getresgid a1 a2 a3) c h =
      written-HoldsAt c (getres_exit w a1 a2 a3 c.group) h
  exit-HoldsAt w (Call.perm_err even_if_not_root result) c h = h
  exit-HoldsAt w (Call.socket domain protocol result) c h =
      if_both HoldsAt (is_perm_err result && domain == 16 && protocol == 9 && c.user.eid == 0)
        (λ e. tt) (λ e. h)
  exit-HoldsAt w (Call.others answer) c h = others-HoldsAt c answer h

-- A file that is executed sets no id: neither S_ISUID nor S_ISGID, or its mode is not known.
abbrev pub SetsNoId : Option ℕ → Type 0
SetsNoId none = Unit {0}
SetsNoId (some mode) = (has_bit mode 11 ≡ false) × (has_bit mode 10 ≡ false)

-- The configurations that a tracee comes to by its calls, in any order, and by executing files that set no
-- id; a call that fails changes nothing.
pub data Calls : Config → Config → Type 0 where
  none_yet : {c : Config} → Calls c c
  then_call :
      {c c' : Config}
      → Calls c c'
      → (is_writable : ℕ → Bool) → (call : Call) → (x : Exit)
      → handle_sysexit_end is_writable call c' ≡ ok x
      → Calls c x.config
  then_execve :
      {c c' : Config}
      → Calls c c'
      → (mode : Option ℕ) → SetsNoId mode
      → Calls c (handle_sysexit_start mode c')

execve-IsConfined :
    (users groups : Ids) (mode : Option ℕ) (c : Config)
    → SetsNoId mode
    → IsConfined users groups c
    → IsConfined users groups (handle_sysexit_start mode c)
unfolding handle_sysexit_start
execve-IsConfined users groups none c plain h = h
execve-IsConfined users groups (some mode) c plain h =
    let same : handle_sysexit_start (some mode) c ≡ record c { keep_caps = false } =
      rw (plain.0, plain.1) refl in
    subst (IsConfined users groups) (sym same) h

Calls-IsConfined_from :
    (users groups : Ids) {c c' : Config}
    → HasNoRoot users
    → IsConfined users groups c
    → Calls c c'
    → IsConfined users groups c'
unfolding HoldsAt
Calls-IsConfined_from users groups n h Calls.none_yet = h
Calls-IsConfined_from users groups n h (Calls.then_call {c' = c'} steps w call x e) =
    subst (HoldsAt users groups n) e
      (exit-HoldsAt users groups n w call c' (Calls-IsConfined_from users groups n h steps))
Calls-IsConfined_from users groups n h (Calls.then_execve {c' = c'} steps mode plain) =
    execve-IsConfined users groups mode c' plain (Calls-IsConfined_from users groups n h steps)

Within-self : (ids : Ids) → Within ids ids
Within-self ids = (inl refl, inr (inl refl), inr (inr refl), inr refl)

-- A tracee that has no capability and of whose real, effective and saved user ids none is 0 comes, by
-- any sequence of calls and of executions of files that are neither setuid nor setgid, only to ids that
-- it had: each of the real, effective and saved ids is one of these three, of users and of groups, and
-- that of the file system is one of these or the one it was. It gets no capability, and setuid(0) is
-- -EPERM.
pub Calls-IsConfined :
    (c c' : Config)
    → c.caps_active ≡ false
    → HasNoRoot c.user
    → Calls c c'
    → IsConfined c.user c.group c' × (setxid Kind.uid 0 c' ≡ err eperm)
unfolding setxid
Calls-IsConfined c c' caps n steps =
    let h : IsConfined c.user c.group c' =
      Calls-IsConfined_from c.user c.group n (caps, Within-self c.user, Within-self c.group)
        steps in
    let r : c'.user.rid ≢ 0 = OneOf-not-zero c.user c'.user.rid n h.1.0 in
    let e : c'.user.eid ≢ 0 = OneOf-not-zero c.user c'.user.eid n h.1.1 in
    let s : c'.user.sid ≢ 0 = OneOf-not-zero c.user c'.user.sid n h.1.2 in
    let p = confined_unprivileged c.user c.group n c' h in
    let own : equals_any_id 0 c'.user ≡ false = ground arith in (h, rw (p, own) refl)
