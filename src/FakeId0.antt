-- ===== src/FakeId0.antt =====
-- The user and group ids of extension/fake_id0/fake_id0.c: setuid, setreuid, setresuid, setfsuid and
-- their counterparts for groups, as a tracee sees them.
pub mod Exit
pub mod Steps
pub mod Confined
pub mod Drop
pub mod Initial
mod Tests
use xyzterm.Common.{
  ℕ, ◌-◌, ◌^◌, Bool, true, false, not, ◌&&◌, ◌||◌, ◌==◌, if◌then◌else◌, Result, ok, err, eperm,
}

-- The ids of a kind: `config->ruid` is `rid` of the user's, `config->rgid` that of the group's.
pub record Ids : Type 0 where
  pub rid : ℕ
  pub eid : ℕ
  pub sid : ℕ
  pub fsid : ℕ

pub record Config : Type 0 where
  pub user : Ids
  pub group : Ids
  pub umask : ℕ
  pub caps_active : Bool
  pub keep_caps : Bool

-- What the macros paste into the names of the fields.
pub data Kind : Type 0 where
  uid gid : Kind

abbrev pub ids_of : Kind → Config → Ids
ids_of Kind.uid c = c.user
ids_of Kind.gid c = c.group

abbrev pub with_ids : Kind → Ids → Config → Config
with_ids Kind.uid ids c = record c { user = ids }
with_ids Kind.gid ids c = record c { group = ids }

-- `prev_root`, which the macros compute from the user's ids for groups too.
abbrev pub has_root : Ids → Bool
has_root ids = ids.rid == 0 || ids.eid == 0 || ids.sid == 0

-- MAYBE_DROP_CAPS.
abbrev pub maybe_drop_caps : Bool → Config → Config
maybe_drop_caps prev_root c =
    if prev_root
      && not c.keep_caps
      && not (c.user.rid == 0)
      && not (c.user.eid == 0)
      && not (c.user.sid == 0)
    then record c { caps_active = false }
    else c

abbrev pub is_privileged : Config → Bool
is_privileged c = c.user.eid == 0 || c.caps_active

-- EQUALS_ANY_ID.
abbrev pub equals_any_id : ℕ → Ids → Bool
equals_any_id id ids = id == ids.rid || id == ids.eid || id == ids.sid

-- UNSET_ID: (uid_t) -1.
abbrev pub unset_id : ℕ → Bool
unset_id id = id == 2 ^ 32 - 1

-- UNCHANGED_ID.
abbrev pub unchanged_id : ℕ → ℕ → Bool
unchanged_id id current = unset_id id || id == current

-- The end of each macro, where the call is allowed.
abbrev pub changed : Kind → Ids → Config → Config
changed kind ids c = maybe_drop_caps (has_root c.user) (with_ids kind ids c)

abbrev pub setxid_ids : Bool → ℕ → Ids → Ids
setxid_ids true id ids = record { rid = id; eid = id; sid = id; fsid = id }
setxid_ids false id ids = record ids { eid = id; fsid = id }

-- SETXID.
unfoldable pub setxid : Kind → ℕ → Config → Result Config
setxid kind id c =
    if not (is_privileged c || equals_any_id id (ids_of kind c))
    then err eperm
    else ok (changed kind (setxid_ids (is_privileged c) id (ids_of kind c)) c)

-- The test of SETREXID for a caller without privilege.
abbrev pub may_swap : ℕ → ℕ → Ids → Bool
may_swap r e ids =
    unchanged_id e ids.eid && unchanged_id r ids.rid
    || r == ids.eid && (e == ids.rid || unchanged_id e ids.eid)
    || e == ids.rid && (r == ids.eid || unchanged_id r ids.rid)
    || e == ids.sid && unchanged_id r ids.rid

abbrev pub saved_if : Bool → ℕ → Ids → Ids
saved_if true e ids = record ids { sid = e }
saved_if false e ids = ids

-- The effective id, before the real one.
abbrev pub setrexid_effective : ℕ → Ids → Ids
setrexid_effective e ids =
    if not (unset_id e)
    then record (saved_if (not (e == ids.rid)) e ids) { eid = e; fsid = e }
    else ids

abbrev pub setrexid_real : ℕ → ℕ → Ids → Ids
setrexid_real r e ids =
    if not (unset_id r) then record (saved_if (not (unset_id e)) e ids) { rid = r } else ids

-- SETREXID.
unfoldable pub setrexid : Kind → ℕ → ℕ → Config → Result Config
setrexid kind r e c =
    if not (is_privileged c || may_swap r e (ids_of kind c))
    then err eperm
    else ok (changed kind (setrexid_real r e (setrexid_effective e (ids_of kind c))) c)

abbrev pub is_own : ℕ → Ids → Bool
is_own id ids = unset_id id || equals_any_id id ids

abbrev pub setresxid_ids : ℕ → ℕ → ℕ → Ids → Ids
setresxid_ids r e s ids = record {
  rid = if not (unset_id r) then r else ids.rid;
  eid = if not (unset_id e) then e else ids.eid;
  sid = if not (unset_id s) then s else ids.sid;
  fsid = if not (unset_id e) then e else ids.fsid;
}

-- SETRESXID.
unfoldable pub setresxid : Kind → ℕ → ℕ → ℕ → Config → Result Config
setresxid kind r e s c =
    let ids = ids_of kind c in
    if not (is_privileged c || is_own r ids && is_own e ids && is_own s ids)
    then err eperm
    else ok (changed kind (setresxid_ids r e s ids) c)

-- SETFSXID: the result, and the ids.
unfoldable pub setfsxid : Kind → ℕ → Config → ℕ × Config
setfsxid kind fs c =
    let ids = ids_of kind c in
    (
      ids.fsid,
      if is_privileged c || fs == ids.fsid || equals_any_id fs ids
          then with_ids kind (record ids { fsid = fs }) c
          else c,
    )
