-- ===== src/Binding.antt =====
-- path/binding.c: the lists of bindings of a file-system name-space, which map the paths of one side
-- (the guest's or the host's) to those of the other. A binding is identified by its address.
pub mod Order
pub mod Position
pub mod Insort
pub mod Deepest
mod Tests
use xyzterm.Common.{
  ℕ, zero, suc, ◌+◌, List, [], ◌∷◌, Option, none, some, Bool, true, false, not, ◌&&◌, ◌||◌, ◌==◌,
  if◌then◌else◌, length, get_elem?, Result, ok, err, fail, Errno, enoent,
}
use xyzterm.Common.Int.{ℤ, pos}
use xyzterm.Path.{
  Bytes, slash, Comparison, is_equal, is_within, compare_paths, substitute_path_prefix,
}

pub data Side : Type 0 where
  guest_side host_side pending_side : Side

-- The length that a Path caches is that of its string.
pub record Binding : Type 0 where
  pub address : ℕ
  pub host : Bytes
  pub guest : Bytes
  pub need_substitution : Bool
  pub must_exist : Bool

-- A list is `none` where its pointer is NULL.
pub record Bindings : Type 0 where
  pub pending : Option (List Binding)
  pub guest_list : Option (List Binding)
  pub host_list : Option (List Binding)

abbrev pub walked : Option (List Binding) → List Binding
walked none = []
walked (some l) = l

-- HEAD and CIRCLEQ_FOREACH_: the bindings that a walk over a side's list visits.
abbrev pub bindings_of : Bindings → Side → List Binding
bindings_of s Side.guest_side = walked s.guest_list
bindings_of s Side.host_side = walked s.host_list
bindings_of s Side.pending_side = walked s.pending

abbrev pub with_bindings : Side → List Binding → Bindings → Bindings
with_bindings Side.guest_side l s = record s { guest_list = some l }
with_bindings Side.host_side l s = record s { host_list = some l }
with_bindings Side.pending_side l s = record s { pending = some l }

abbrev pub ref_of : Side → Binding → Bytes
ref_of Side.guest_side b = b.guest
ref_of Side.host_side b = b.host
ref_of Side.pending_side b = b.guest

-- CIRCLEQ_LAST, `none` for an empty list.
abbrev last_binding : List Binding → Option Binding
last_binding [] = none
last_binding (b ∷ []) = some b
last_binding (b ∷ c ∷ l) = last_binding (c ∷ l)

-- The host path of the guest's root; `none` is NULL. The assertions are not checked.
unfoldable pub get_root : Bindings → Option Bytes
get_root s = elim s.guest_list [
  | none ↦ elim (last_binding (bindings_of s Side.pending_side)) [
    | none ↦ none
    | some b ↦ if is_equal (compare_paths b.guest (slash ∷ [])) then some b.host else none
  ]
  | some l ↦ elim (last_binding l) [ none ↦ none | some b ↦ some b.host ]
]

-- compare_paths with get_root, which the code takes not to be NULL.
abbrev pub compare_root : Bindings → Bytes → Comparison
compare_root s path = elim (get_root s) [
  | none ↦ Comparison.paths_are_not_comparable
  | some root ↦ compare_paths root path
]

abbrev pub belongs_to_guestfs : Bindings → Bytes → Bool
belongs_to_guestfs s host_path = is_within (compare_root s host_path)

-- The paths that a host-side search passes over: those below an asymmetric root.
abbrev pub is_passed_over : Bindings → Side → Bytes → Bool
is_passed_over s Side.guest_side path = false
is_passed_over s Side.host_side path =
    not (is_equal (compare_root s (slash ∷ []))) && belongs_to_guestfs s path
is_passed_over s Side.pending_side path = false

-- The walk of get_binding.
abbrev pub find_binding : Bindings → Side → Bytes → List Binding → Option Binding
find_binding s side path [] = none
find_binding s side path (b ∷ l) =
    if not (is_within (compare_paths (ref_of side b) path))
    then find_binding s side path l
    else if is_passed_over s side path
    then find_binding s side path l
    else some b

-- A search of the pending bindings fails an assertion.
unfoldable pub get_binding : Bindings → Side → Bytes → Option Binding
get_binding s Side.guest_side path =
    find_binding s Side.guest_side path (bindings_of s Side.guest_side)
get_binding s Side.host_side path =
    find_binding s Side.host_side path (bindings_of s Side.host_side)
get_binding s Side.pending_side path = none

unfoldable pub get_path_binding : Bindings → Side → Bytes → Option Bytes
get_path_binding s side path = elim (get_binding s side path) [
  | none ↦ none
  | some b ↦ some (ref_of side b)
]

abbrev pub reverse_ref : Side → Binding → Bytes
reverse_ref Side.guest_side b = b.host
reverse_ref Side.host_side b = b.guest
reverse_ref Side.pending_side b = b.host

-- An error of substitute_path_prefix leaves the path as it was.
abbrev pub placed : Bytes → Result Bytes → ℤ × Bytes
placed path (ok path') = (pos 1, path')
placed path (err e) = (pos 1, path)

-- The status and the path afterwards. What substitute_path_prefix returns is not looked at.
abbrev pub substituted_by : Side → Bytes → Option Binding → ℤ × Bytes
substituted_by side path none = (fail enoent, path)
substituted_by side path (some b) =
    if not b.need_substitution
    then (pos 0, path)
    else placed path (substitute_path_prefix path (length (ref_of side b)) (reverse_ref side b))

unfoldable pub substitute_binding : Bindings → Side → Bytes → ℤ × Bytes
substitute_binding s side path = substituted_by side path (get_binding s side path)

-- Positions stand for the pointers into the list; `none` is NULL for `previous`, the head for `next`.
pub data Place : Type 0 where
  replaces : ℕ → Place
  between : Option ℕ → Option ℕ → Place

-- The loop of insort_binding, at the iterator of position `i`.
abbrev pub search_place : Side → Bytes → ℕ → Option ℕ → Option ℕ → List Binding → Place
search_place side path i previous next [] = Place.between previous next
search_place side path i previous next (b ∷ l) = elim (compare_paths path (ref_of side b)) [
  | Comparison.paths_are_equal ↦ elim side [
    | Side.host_side ↦ search_place side path (suc i) (some i) next l
    | Side.guest_side ↦ Place.replaces i
    | Side.pending_side ↦ Place.replaces i
  ]
  | Comparison.path1_is_prefix ↦ search_place side path (suc i) (some i) next l
  | Comparison.path2_is_prefix ↦ elim next [
    | none ↦ search_place side path (suc i) previous (some i) l
    | some n ↦ search_place side path (suc i) previous (some n) l
  ]
  | Comparison.paths_are_not_comparable ↦ search_place side path (suc i) previous next l
]

abbrev pub insert_after : ℕ → Binding → List Binding → List Binding
insert_after i b [] = b ∷ []
insert_after zero b (c ∷ l) = c ∷ b ∷ l
insert_after (suc i) b (c ∷ l) = c ∷ insert_after i b l

abbrev pub insert_before : ℕ → Binding → List Binding → List Binding
insert_before zero b l = b ∷ l
insert_before (suc i) b [] = b ∷ []
insert_before (suc i) b (c ∷ l) = c ∷ insert_before i b l

abbrev pub insert_between : Option ℕ → Option ℕ → Binding → List Binding → List Binding
insert_between (some i) next b l = insert_after i b l
insert_between none (some i) b l = insert_before i b l
insert_between none none b l = b ∷ l

abbrev pub remove_address : ℕ → List Binding → List Binding
remove_address a [] = []
remove_address a (b ∷ l) =
    let rest = remove_address a l in if b.address == a then rest else b ∷ rest

abbrev pub removed : ℕ → Option (List Binding) → Option (List Binding)
removed a none = none
removed a (some l) = some (remove_address a l)

unfoldable pub remove_binding_from_all_lists : Binding → Bindings → Bindings
remove_binding_from_all_lists b s = record {
  pending = removed b.address s.pending;
  guest_list = removed b.address s.guest_list;
  host_list = removed b.address s.host_list;
}

-- CIRCLEQ_FIRST, which is the head for an empty list.
abbrev pub first_position : List Binding → Option ℕ
first_position [] = none
first_position (b ∷ l) = some 0

-- The insertion, once the place is known: the binding that is replaced leaves all the lists. The
-- warning about it is not modelled.
abbrev pub insert_at : Side → Binding → Bindings → Place → Bindings
insert_at side b s (Place.replaces i) =
    let l = bindings_of s side in
    let s' = with_bindings side (insert_after i b l) s in
    elim (get_elem? l i) [ none ↦ s' | some old ↦ remove_binding_from_all_lists old s' ]
insert_at side b s (Place.between previous next) =
    with_bindings side (insert_between previous next b (bindings_of s side)) s

unfoldable pub insort_binding : Side → Binding → Bindings → Bindings
insort_binding side b s =
    let l = bindings_of s side in
    insert_at side b s (search_place side (ref_of side b) 0 none (first_position l) l)

unfoldable pub insort_binding2 : Binding → Bindings → Bindings
insort_binding2 b s =
    let b' : Binding = record b {
      need_substitution = not (is_equal (compare_paths b.host b.guest));
    } in
    insort_binding Side.host_side b' (insort_binding Side.guest_side b' s)

-- With the address of the new binding, `none` where it is out of memory.
unfoldable pub insort_binding3 : Option ℕ → Bytes → Bytes → Bindings → Bindings
insort_binding3 none host_path guest_path s = s
insort_binding3 (some a) host_path guest_path s =
    insort_binding2
      (record {
        address = a;
        host = host_path;
        guest = guest_path;
        need_substitution = false;
        must_exist = false;
      })
      s
