-- ===== src/Detranslate.antt =====
-- detranslate_path of path/path.c: a path of the host as the guest is to see it. The dynamic links of
-- /proc are a function, which canonicalize gives as the one of Proc.
pub mod Root
mod Tests
use xyzterm.Common.{
  ℕ, zero, suc, ◌+◌, List, [], ◌∷◌, Option, none, some, Bool, true, false, not, ◌==◌, leb,
  if◌then◌else◌, length, drop, Result, ok, err, Errno, eperm, enametoolong,
}
use xyzterm.Common.Int.{ℤ, pos, negsuc}
use xyzterm.Path.{Bytes, path_max, slash, byte_at, Comparison, is_equal, compare_paths}
use xyzterm.Proc.{proc}
use xyzterm.Binding.{
  Bindings, Side, get_root, compare_root, belongs_to_guestfs, get_path_binding, substitute_binding,
}

-- The status, if it is not an error, and the path afterwards.
abbrev pub Seen : Type 0
Seen = Result (ℕ × Bytes)

abbrev pub renamed : Bytes → Seen
renamed path = ok (length path + 1, path)

abbrev pub is_path1_prefix : Comparison → Bool
is_path1_prefix Comparison.path1_is_prefix = true
is_path1_prefix Comparison.paths_are_equal = false
is_path1_prefix Comparison.path2_is_prefix = false
is_path1_prefix Comparison.paths_are_not_comparable = false

-- The length of the leading part, which is 0 where the root is "/".
abbrev pub prefix_length : Option Bytes → ℕ
prefix_length none = 0
prefix_length (some root) = if length root == 1 then 0 else length root

-- The last switch: the root is taken off.
abbrev pub off_root : Bindings → Bool → Bytes → Comparison → Seen
off_root s sanity_check path Comparison.path1_is_prefix =
    renamed (drop (prefix_length (get_root s)) path)
off_root s sanity_check path Comparison.paths_are_equal = renamed (slash ∷ [])
off_root s sanity_check path Comparison.path2_is_prefix =
    if sanity_check then err eperm else ok (0, path)
off_root s sanity_check path Comparison.paths_are_not_comparable =
    if sanity_check then err eperm else ok (0, path)

abbrev pub without_root : Bindings → Bool → Bytes → Seen
without_root s sanity_check path = off_root s sanity_check path (compare_root s path)

-- What substitute_binding did, by its status.
abbrev pub after_binding : Bindings → Bool → Bytes → ℤ × Bytes → Seen
after_binding s sanity_check path (pos zero, path') = ok (0, path')
after_binding s sanity_check path (pos (suc zero), path') = renamed path'
after_binding s sanity_check path (pos (suc (suc n)), path') = without_root s sanity_check path'
after_binding s sanity_check path (negsuc n, path') = without_root s sanity_check path'

abbrev pub resolved : Bindings → Bool → Bool → Bytes → Seen
resolved s sanity_check follow_binding path =
    if follow_binding
    then after_binding s sanity_check path (substitute_binding s Side.host_side path)
    else without_root s sanity_check path

-- Whether the path and the link are in the same binding; the link's binding, which the code takes to
-- exist, is compared as the empty path where it does not.
abbrev pub is_same_binding : Option Bytes → Option Bytes → Bool
is_same_binding none referrer = false
is_same_binding (some referree) none = false
is_same_binding (some referree) (some referrer) = is_equal (compare_paths referree referrer)

-- What the link of /proc was emulated as.
abbrev pub after_proc : Bindings → Bytes → Result (Option Bytes) → Seen
after_proc s path (err e) = err e
after_proc s path (ok none) = resolved s false true path
after_proc s path (ok (some proc_path)) = renamed proc_path

-- The target of a link at `t_referrer`.
abbrev pub referred : Bindings → (Bytes → Bytes → Result (Option Bytes)) → Bytes → Bytes → Seen
referred s readlink_proc2 path t_referrer =
    if is_path1_prefix (compare_paths proc t_referrer)
    then after_proc s path (readlink_proc2 path t_referrer)
    else if not (belongs_to_guestfs s t_referrer)
    then resolved s false
        (is_same_binding (get_path_binding s Side.host_side path)
          (get_path_binding s Side.host_side t_referrer))
        path
    else resolved s false false path

-- The path of the link, where there is one.
abbrev pub seen_from :
    Bindings → (Bytes → Bytes → Result (Option Bytes)) → Bytes → Option Bytes → Seen
seen_from s readlink_proc2 path none = resolved s true true path
seen_from s readlink_proc2 path (some t_referrer) = referred s readlink_proc2 path t_referrer

unfoldable pub detranslate_path :
    Bindings → (Bytes → Bytes → Result (Option Bytes)) → Bytes → Option Bytes → Seen
detranslate_path s readlink_proc2 path t_referrer =
    if leb path_max (length path)
    then err enametoolong
    else if not (byte_at path 0 == slash)
    then ok (0, path)
    else seen_from s readlink_proc2 path t_referrer
