-- ===== src/Binding/Tests.antt =====
-- The properties of bindings at a small set of bindings.
use xyzterm.Common.{◌≡◌, refl, [], ◌∷◌, none, some, true, false, arith}
use xyzterm.Path.{Bytes, slash, compare_paths, is_within}
use xyzterm.Path.Names.{IsName, render}
use xyzterm.Path.Nesting.{IsCanonical}
use xyzterm.Binding.{Binding, Bindings, Side, bindings_of, get_binding, insort_binding}
use xyzterm.Binding.Order.{AreSorted}
use xyzterm.Binding.Insort.{insort_binding-AreSorted}
use xyzterm.Binding.Deepest.{get_binding-deepest}

abbrev usr : Bytes
usr = b'u' ∷ []

abbrev bin : Bytes
bin = b'b' ∷ []

usr-IsName : IsName usr
usr-IsName = (omega arith, (λ e. absurd (omega (arith, e)), λ e. absurd (omega (arith, e)), tt))

bin-IsName : IsName bin
bin-IsName = (omega arith, (λ e. absurd (omega (arith, e)), λ e. absurd (omega (arith, e)), tt))

abbrev root : Binding
root = record {
  address = 1;
  host = render (bin ∷ []);
  guest = render [];
  need_substitution = true;
  must_exist = false;
}

abbrev deep : Binding
deep = record {
  address = 2;
  host = render (usr ∷ []);
  guest = render (bin ∷ []);
  need_substitution = true;
  must_exist = false;
}

abbrev start : Bindings
start = record { pending = none; guest_list = some (root ∷ []); host_list = some (root ∷ []) }

abbrev both : Bindings
both = record {
  pending = none;
  guest_list = some (deep ∷ root ∷ []);
  host_list = some (root ∷ deep ∷ []);
}

root-IsCanonical : IsCanonical (render [])
root-IsCanonical = ([], tt, refl)

bin-IsCanonical : IsCanonical (render (bin ∷ []))
bin-IsCanonical = (bin ∷ [], (bin-IsName, tt), refl)

insort_binding-AreSorted_example :
    AreSorted Side.guest_side
      (bindings_of (insort_binding Side.guest_side deep start) Side.guest_side)
insort_binding-AreSorted_example =
    insort_binding-AreSorted Side.guest_side deep start bin-IsCanonical (root-IsCanonical, tt)
      (tt, tt)

deep_is_found : get_binding both Side.guest_side (render (bin ∷ [])) ≡ some deep
unfolding get_binding xyzterm.Path.compare_paths xyzterm.Path.compare_lengths
    xyzterm.Path.same_prefix
deep_is_found = refl

both-AreSorted : AreSorted Side.guest_side (bindings_of both Side.guest_side)
unfolding xyzterm.Path.compare_paths xyzterm.Path.compare_lengths xyzterm.Path.same_prefix
both-AreSorted = ((λ e. absurd (cc), tt), (tt, tt))

root_contains : is_within (compare_paths root.guest (render (bin ∷ []))) ≡ true
unfolding xyzterm.Path.compare_paths xyzterm.Path.compare_lengths xyzterm.Path.same_prefix
root_contains = refl

get_binding-deepest_example : is_within (compare_paths root.guest deep.guest) ≡ true
get_binding-deepest_example =
    get_binding-deepest both Side.guest_side (render (bin ∷ [])) deep 1 root bin-IsCanonical
      (bin-IsCanonical, (root-IsCanonical, tt)) both-AreSorted deep_is_found refl root_contains
