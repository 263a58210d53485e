-- ===== src/Detranslate/Tests.antt =====
-- The properties of detranslate_path with one binding and with an asymmetric root.
use xyzterm.Common.{◌≡◌, refl, [], ◌∷◌, Option, none, some, true, false, Result, ok, arith}
use xyzterm.Path.{Bytes}
use xyzterm.Path.Names.{AreNames, render}
use xyzterm.Binding.{Binding, Bindings, Side, get_root, get_binding}
use xyzterm.Detranslate.{detranslate_path}
use xyzterm.Detranslate.Root.{detranslate_path-root}

abbrev usr : Bytes
usr = b'u' ∷ []

abbrev bin : Bytes
bin = b'b' ∷ []

usr-AreNames : AreNames (usr ∷ [])
usr-AreNames =
    ((omega arith, (λ e. absurd (omega (arith, e)), λ e. absurd (omega (arith, e)), tt)), tt)

bin-AreNames : AreNames (bin ∷ [])
bin-AreNames =
    ((omega arith, (λ e. absurd (omega (arith, e)), λ e. absurd (omega (arith, e)), tt)), tt)

abbrev no_links : Bytes → Bytes → Result (Option Bytes)
no_links path referrer = ok none

abbrev bound : Binding
bound = record {
  address = 2;
  host = render (usr ∷ []);
  guest = render (bin ∷ []);
  need_substitution = true;
  must_exist = false;
}

abbrev root_at : Bytes → Binding
root_at path = record {
  address = 1;
  host = path;
  guest = render [];
  need_substitution = true;
  must_exist = false;
}

abbrev with_binding : Bindings
with_binding = record {
  pending = none;
  guest_list = some (bound ∷ root_at (render []) ∷ []);
  host_list = some (bound ∷ []);
}

abbrev without_binding : Bindings
without_binding = record {
  pending = none;
  guest_list = some (root_at (render (usr ∷ [])) ∷ []);
  host_list = some [];
}

root_is_usr : get_root without_binding ≡ some (render (usr ∷ []))
unfolding get_root
root_is_usr = refl

none_is_found : get_binding without_binding Side.host_side (render (usr ∷ bin ∷ [])) ≡ none
unfolding get_binding
none_is_found = refl

guest_finds : get_binding with_binding Side.guest_side (render (bin ∷ [])) ≡ some bound
unfolding get_binding xyzterm.Path.compare_paths xyzterm.Path.compare_lengths
    xyzterm.Path.same_prefix
guest_finds = refl

host_finds : get_binding with_binding Side.host_side (render (usr ∷ [])) ≡ some bound
unfolding get_binding get_root xyzterm.Path.compare_paths xyzterm.Path.compare_lengths
    xyzterm.Path.same_prefix
host_finds = refl

detranslate_path-root_example :
    detranslate_path without_binding no_links (render (usr ∷ bin ∷ [])) none
    ≡ ok (3, render (bin ∷ []))
detranslate_path-root_example =
    detranslate_path-root without_binding no_links (usr ∷ []) (bin ∷ []) root_is_usr none_is_found
      usr-AreNames bin-AreNames (omega arith)
