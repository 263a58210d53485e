-- ===== src/FakeId0/Drop.antt =====
-- The ids of fake_id0 after a privileged call: a drop for good, and what is read back.
use xyzterm.Common.{
  ℕ, ◌^◌, ◌%◌, ◌<◌, ◌≡◌, ◌≢◌, refl, ap, subst, ◌∙◌, ◌⊎◌, inl, inr, none, some, [], ◌∷◌, Bool, true,
  false, not, ◌&&◌, ◌==◌, if◌then◌else◌, if_both, ok, arith,
}
use xyzterm.FakeId0.{
  Ids, Config, Kind, has_root, maybe_drop_caps, is_privileged, unset_id, setxid, setresxid_ids,
  setresxid, changed,
}
use xyzterm.FakeId0.Exit.{Call, id_of, unchanged, done, all_ids, handle_sysexit_end}
use xyzterm.FakeId0.Steps.{OneOf, Within}
use xyzterm.FakeId0.Confined.{Calls, Calls-IsConfined}

id_of_small : (id : ℕ) → id < 2 ^ 32 → id_of id ≡ id
id_of_small id h = omega arith

OneOf-same : (id x : ℕ) → OneOf (all_ids id) x → x ≡ id
OneOf-same id x (inl e) = e
OneOf-same id x (inr (inl e)) = e
OneOf-same id x (inr (inr e)) = e

fs_same : (id x : ℕ) → OneOf (all_ids id) x ⊎ (x ≡ id) → x ≡ id
fs_same id x (inl o) = OneOf-same id x o
fs_same id x (inr e) = e

Within-same : (id : ℕ) (ids : Ids) → Within (all_ids id) ids → ids ≡ all_ids id
Within-same id ids w =
    rw
      (
        OneOf-same id ids.rid w.0,
        OneOf-same id ids.eid w.1,
        OneOf-same id ids.sid w.2,
        fs_same id ids.fsid w.3,
      )
      refl

-- The configuration after a drop to `id`.
abbrev pub dropped : ℕ → Config → Config
dropped id c = record c { user = all_ids id; caps_active = false }

setxid-dropped :
    (id : ℕ) (c : Config)
    → is_privileged c ≡ true
    → has_root c.user ≡ true
    → c.keep_caps ≡ false
    → id ≢ 0
    → setxid Kind.uid id c ≡ ok (dropped id c)
unfolding setxid
setxid-dropped id c p r k ne = let z : (id == 0) ≡ false = ground arith in rw (p, r, k, z) refl

-- setuid of a privileged tracee to an id that is not 0 gives the id as the real, effective, saved and
-- file system's one and takes the capability, where one of the first three was 0 and PR_SET_KEEPCAPS is
-- off; no sequence of calls, and of executions of files that are neither setuid nor setgid, changes one of
-- the four or gives the capability again.
pub setuid-Calls :
    (is_writable : ℕ → Bool) (id : ℕ) (c c' : Config)
    → is_privileged c ≡ true
    → has_root c.user ≡ true
    → c.keep_caps ≡ false
    → id ≢ 0
    → id < 2 ^ 32
    → Calls (dropped id c) c'
    → (handle_sysexit_end is_writable (Call.setuid id) c ≡ ok (unchanged (dropped id c) (some 0)))
      × (c'.user ≡ all_ids id)
      × (c'.caps_active ≡ false)
unfolding handle_sysexit_end
setuid-Calls is_writable id c c' p r k ne lt steps =
    let h = Calls-IsConfined (dropped id c) c' refl (ne, ne, ne) steps in
    (
      ap (λ i. done (setxid Kind.uid i c)) (id_of_small id lt)
          ∙ ap done (setxid-dropped id c p r k ne),
      Within-same id c'.user h.0.1,
      h.0.0,
    )

-- An argument of setresuid, or what stays where it is -1.
abbrev pub kept_or : ℕ → ℕ → ℕ
kept_or id current = if not (unset_id id) then id else current

drop_user : (b : Bool) (c : Config) → (maybe_drop_caps b c).user ≡ c.user
drop_user b c =
    if_both {A = Config} (λ d. d.user ≡ c.user)
      (b
        && not c.keep_caps
        && not (c.user.rid == 0)
        && not (c.user.eid == 0)
        && not (c.user.sid == 0))
      (λ e. refl) (λ e. refl)

-- What getuid, geteuid and getresuid, at three addresses that can be written, answer.
abbrev pub Answers : (ℕ → Bool) → ℕ → ℕ → ℕ → Config → ℕ → ℕ → ℕ → Type 0
Answers is_writable a1 a2 a3 c r e s =
    (handle_sysexit_end is_writable Call.getuid c ≡ ok (unchanged c (some r)))
    × (handle_sysexit_end is_writable Call.geteuid c ≡ ok (unchanged c (some e)))
    × (handle_sysexit_end is_writable (Call.getresuid a1 a2 a3) c
        ≡ ok (record {
          config = c;
          result = none;
          writes = (a1, r % 2 ^ 16) ∷ (a2, e % 2 ^ 16) ∷ (a3, s % 2 ^ 16) ∷ [];
        }))

Answers-ids :
    (is_writable : ℕ → Bool) (a1 a2 a3 : ℕ) (c : Config)
    → is_writable a1 ≡ true
    → is_writable a2 ≡ true
    → is_writable a3 ≡ true
    → Answers is_writable a1 a2 a3 c c.user.rid c.user.eid c.user.sid
unfolding handle_sysexit_end
Answers-ids is_writable a1 a2 a3 c w1 w2 w3 = (refl, refl, rw (w1, w2, w3) refl)

-- What a privileged tracee sets by setresuid it reads back, -1 standing for the id that it had: getuid
-- and geteuid give the whole id, getresuid writes its low 16 bits.
pub setresuid-getresuid :
    (is_writable : ℕ → Bool) (r e s a1 a2 a3 : ℕ) (c : Config)
    → is_privileged c ≡ true
    → r < 2 ^ 32
    → e < 2 ^ 32
    → s < 2 ^ 32
    → is_writable a1 ≡ true
    → is_writable a2 ≡ true
    → is_writable a3 ≡ true
    → (c' : Config) × (handle_sysexit_end is_writable (Call.setresuid r e s) c
        ≡ ok (unchanged c' (some 0)))
      × Answers is_writable a1 a2 a3 c'
          (kept_or r c.user.rid)
          (kept_or e c.user.eid)
          (kept_or s c.user.sid)
unfolding handle_sysexit_end setresxid
setresuid-getresuid is_writable r e s a1 a2 a3 c p hr he hs w1 w2 w3 =
    let c' = changed Kind.uid (setresxid_ids r e s c.user) c in
    let u : c'.user ≡ setresxid_ids r e s c.user =
      drop_user (has_root c.user) (record c { user = setresxid_ids r e s c.user }) in
    (
      c',
      rw (id_of_small r hr, id_of_small e he, id_of_small s hs, p) refl,
      subst (λ ids. Answers is_writable a1 a2 a3 c' ids.rid ids.eid ids.sid) u
          (Answers-ids is_writable a1 a2 a3 c' w1 w2 w3),
    )
