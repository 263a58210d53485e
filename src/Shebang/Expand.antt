-- ===== src/Shebang/Expand.antt =====
-- expand_shebang through scripts that name scripts.
use xyzterm.Common.{
  ◌++◌, drop, ℕ, suc, ◌+◌, ◌-◌, ◌<◌, ◌≡◌, refl, ap, ◌∙◌, List, [], ◌∷◌, Option, none, some, length,
  ok, err, ◌>>=◌, eloop, arith,
}
use xyzterm.Path.{Bytes}
use xyzterm.Shebang.{System, expanded, fetched, extracted, expand_loop, pushed, expand_shebang}

-- The interpreter that a script names, and its argument, which may be empty.
abbrev pub Named : Type 0
Named = Bytes × Bytes

-- Each of the paths can be executed and is a script that names the next one; the last one can be executed.
pub data Scripts : System → Bytes → List Named → Bytes → Type 0 where
  no_script : {m : System} {path : Bytes} → Scripts m path [] path
  a_script :
      {m : System} {path program : Bytes} {steps : List Named}
      → (host_path host_path' interpreter argument : Bytes)
      → m.translate_and_check_exec path ≡ ok host_path
      → extracted m host_path ≡ ok (some (interpreter, argument))
      → m.translate_and_check_exec interpreter ≡ ok host_path'
      → Scripts m interpreter steps program
      → Scripts m path ((interpreter, argument) ∷ steps) program

-- The argument as a string of its own, unless it is empty.
abbrev pub argument_words : Bytes → List Bytes
argument_words [] = []
argument_words (x ∷ argument) = (x ∷ argument) ∷ []

-- argv[] after the scripts, from argv[] before: the interpreter, its argument, the script, and argv[] from
-- its second string on.
abbrev pub argv_after : Bytes → List Named → List Bytes → List Bytes
argv_after path [] argv = argv
argv_after path ((interpreter, argument) ∷ steps) argv =
    argv_after interpreter steps (interpreter ∷ (argument_words argument ++ (path ∷ drop 1 argv)))

expanded-words :
    (interpreter argument path : Bytes) (argv : List Bytes)
    → expanded interpreter argument path argv
      ≡ interpreter ∷ (argument_words argument ++ (path ∷ drop 1 argv))
expanded-words interpreter [] path [] = refl
expanded-words interpreter [] path (a ∷ argv) = refl
expanded-words interpreter (x ∷ argument) path [] = refl
expanded-words interpreter (x ∷ argument) path (a ∷ argv) = refl

abbrev pub known : List Bytes → Option (List Bytes) → List Bytes
known argv none = argv
known argv (some argv') = argv'

abbrev pub state_after : List Bytes → Bytes → List Named → Option (List Bytes) → Option (List Bytes)
state_after argv path [] state = state
state_after argv path (step ∷ steps) state =
    some (argv_after path (step ∷ steps) (known argv state))

fetched_known :
    (m : System) (argv : List Bytes) (state : Option (List Bytes))
    → m.fetch ≡ ok argv
    → fetched m state ≡ ok (known argv state)
fetched_known m argv none h = h
fetched_known m argv (some argv') h = refl

after_step :
    (argv : List Bytes) (interpreter : Bytes) (steps : List Named) (argv' : List Bytes)
    → state_after argv interpreter steps (some argv') ≡ some (argv_after interpreter steps argv')
after_step argv interpreter [] argv' = refl
after_step argv interpreter (step ∷ steps) argv' = refl

expand_loop-Scripts :
    (m : System) (path : Bytes) (steps : List Named) (program : Bytes) (argv : List Bytes)
    (state : Option (List Bytes)) (left : ℕ)
    → Scripts m path steps program
    → m.fetch ≡ ok argv
    → expand_loop (length steps + left) m path state
      ≡ expand_loop left m program (state_after argv path steps state)
expand_loop-Scripts m path steps program argv state left Scripts.no_script h =
    ap (λ k. expand_loop k m path state) (omega arith)
expand_loop-Scripts m path steps program argv state left
      (Scripts.a_script {steps = steps'} host_path host_path' interpreter argument t x t' rest) h =
    let argv' = interpreter ∷ (argument_words argument ++ (path ∷ drop 1 (known argv state))) in
    let words = expanded-words interpreter argument path (known argv state) in
    let e : suc (length steps') + left ≡ suc (length steps' + left) = omega arith in
    ap (λ k. expand_loop k m path state) e
    ∙ rw (t, x, t', fetched_known m argv state h)
        (ap (λ a. expand_loop (length steps' + left) m interpreter (some a)) words
          ∙ expand_loop-Scripts m interpreter steps' program argv (some argv') left rest h
          ∙ ap (expand_loop left m program) (after_step argv interpreter steps' argv'))

pushed_state :
    (m : System) (host_path program : Bytes) (state : Option (List Bytes))
    → ((argv : List Bytes) → m.push argv ≡ ok argv)
    → pushed m (host_path, program, state) ≡ ok (host_path, program, state)
pushed_state m host_path program none h = refl
pushed_state m host_path program (some argv) h = rw (h argv) refl

-- Scripts that name scripts, fewer than MAXSYMLINKS, expand to the program at the end: its paths, and
-- argv[] with each script's interpreter and argument in front of the script, the first string of the
-- argv[] before it dropped. Where argv[] is written as it is given, that is what the tracee gets.
pub expand_shebang-Scripts :
    (m : System) (path : Bytes) (steps : List Named) (program host_path : Bytes) (argv : List Bytes)
    → Scripts m path steps program
    → m.translate_and_check_exec program ≡ ok host_path
    → extracted m host_path ≡ ok none
    → m.fetch ≡ ok argv
    → ((argv' : List Bytes) → m.push argv' ≡ ok argv')
    → length steps < m.max_symlinks
    → expand_shebang m path ≡ ok (host_path, program, state_after argv path steps none)
unfolding expand_shebang
expand_shebang-Scripts m path steps program host_path argv s t x f p lt =
    let left = m.max_symlinks - length steps - 1 in
    let e : m.max_symlinks ≡ length steps + suc left = omega arith in
    let state = state_after argv path steps none in
    let last : expand_loop (suc left) m program state ≡ ok (host_path, program, state) =
      rw (t, x) refl in
    ap (λ k. expand_loop k m path none >>= (λ r. pushed m r)) e
    ∙ ap (λ r. r >>= (λ r'. pushed m r'))
        (expand_loop-Scripts m path steps program argv none (suc left) s f ∙ last)
    ∙ pushed_state m host_path program state p

-- MAXSYMLINKS scripts, each naming the next one, are -ELOOP, whatever the last one names.
pub expand_shebang-eloop :
    (m : System) (path : Bytes) (steps : List Named) (program : Bytes) (argv : List Bytes)
    → Scripts m path steps program
    → m.fetch ≡ ok argv
    → length steps ≡ m.max_symlinks
    → expand_shebang m path ≡ err eloop
unfolding expand_shebang
expand_shebang-eloop m path steps program argv s f l =
    let e : m.max_symlinks ≡ length steps + 0 = omega arith in
    ap (λ k. expand_loop k m path none >>= (λ r. pushed m r)) e
    ∙ ap (λ r. r >>= (λ r'. pushed m r')) (expand_loop-Scripts m path steps program argv none 0 s f)
