-- ===== src/SysVIpc/Sem/Get.antt =====
-- semget(2) and the identifiers that it returns.
use xyzterm.Common.{
  ℕ, zero, suc, ◌%◌, ◌^◌, ◌≤◌, ◌<◌, ◌≡◌, refl, ◌++◌, inl, inr, List, [], ◌∷◌, true, arith, length,
  get_elem?, set, get_elem?-set_self, get_elem?-append_length, get_elem?-some, get_elem?-lt, none,
  some, Option-cases, Bool-cases, leb,
}
use xyzterm.Common.Int.{pos}
use xyzterm.SysVIpc.{Semaphore, Ipc}
use xyzterm.SysVIpc.Ids.{
  Search, find_slot, lookup_ipc_object, lookup-object_id, object_id, key_matches,
}
use xyzterm.SysVIpc.Search.{find_slot_found, find_slot_unused}
use xyzterm.SysVIpc.Sem.{
  max_sems, fresh_sem, sem_slot, create_sem, open_sem, get_or_create, semget, generation_at,
}
use xyzterm.SysVIpc.Sem.Valid.{IsValid}

-- No slot has been freed so often that its generation is negative.
abbrev pub Young : List Semaphore → Type 0
Young [] = Unit {0}
Young (s ∷ ss) = (s.slot.generation < 2 ^ 15) × Young ss

Young-get :
    (ss : List Semaphore) (i : ℕ) {s : Semaphore}
    → get_elem? ss i ≡ some s
    → Young ss
    → s.slot.generation < 2 ^ 15
Young-get [] i e y = absurd (cc)
Young-get (x ∷ xs) zero e y = ground arith
Young-get (x ∷ xs) (suc i) e y = Young-get xs i e y.1

-- What an identifier that semget returned leads to: a set with the key that was asked for, of at
-- least the size that was asked for.
unfoldable pub Opens : List Semaphore → ℕ → ℕ → ℕ → Type 0
Opens ss key nsems w =
    (index : ℕ) × (s : Semaphore) × (lookup_ipc_object sem_slot ss w ≡ some (index, s))
    × (s.slot.key ≡ key % 2 ^ 32)
    × (nsems ≤ s.nsems)

generation_at-get :
    (ss : List Semaphore) (i : ℕ) {s : Semaphore}
    → get_elem? ss i ≡ some s
    → generation_at ss i ≡ s.slot.generation
generation_at-get ss i e = rw (e, generation_at)

opened :
    (ss : List Semaphore) (key nsems semflg k w : ℕ) (s : Semaphore)
    → get_elem? ss k ≡ some s
    → s.slot.valid ≡ true
    → key_matches key s.slot ≡ true
    → length ss ≤ max_sems
    → Young ss
    → open_sem ss nsems semflg k ≡ pos w
    → Opens ss key nsems w
unfolding open_sem Opens
opened ss key nsems semflg k w s at v m few young e =
    let inside = get_elem?-lt ss k at in
    let e' = rw at at e in
    (
      k,
      s,
      lookup-object_id sem_slot ss k w at v (Young-get ss k at young) (omega arith) (ground arith),
      ground arith,
      ground arith,
    )

created_at :
    (ss ss' : List Semaphore) (key nsems i w g : ℕ)
    → get_elem? ss' i ≡ some (fresh_sem key nsems g)
    → i < max_sems
    → g < 2 ^ 15
    → object_id i g ≡ pos w
    → Opens ss' key nsems w
unfolding Opens
created_at ss ss' key nsems i w g at few young e = (
  i,
  fresh_sem key nsems g,
  lookup-object_id sem_slot ss' i w at refl young (omega arith) e,
  refl,
  omega arith,
)

created :
    (ss : List Semaphore) (key nsems w : ℕ) (s : Search)
    → ((j : ℕ) → s.unused_slot ≡ some j → j < length ss)
    → length ss ≤ max_sems
    → Young ss
    → (create_sem ss key nsems s).0 ≡ pos w
    → Opens (create_sem ss key nsems s).1 key nsems w
unfolding create_sem
created ss key nsems w s inside few young e = elim (Option-cases s.unused_slot) [
  | inr (i, u) ↦
      let (old, at) = get_elem?-some ss i (inside i u) in
      let g = generation_at-get ss i at in
      rw (u, create_sem)
        (created_at ss (set ss i (fresh_sem key nsems (generation_at ss i))) key nsems i w
          (generation_at ss i)
          (get_elem?-set_self ss i (fresh_sem key nsems (generation_at ss i)) (inside i u))
          (omega (arith, inside i u)) (omega (arith, g, Young-get ss i at young))
          (rw (u, create_sem) at e))
  | inl u ↦ elim (Bool-cases (leb max_sems (length ss))) [
    | inl full ↦ absurd (ground arith)
    | inr room ↦
        rw (u, create_sem, room)
          (created_at ss (ss ++ (fresh_sem key nsems 0 ∷ [])) key nsems (length ss) w 0
            (get_elem?-append_length ss (fresh_sem key nsems 0) []) (ground arith) (omega arith)
            (rw (u, create_sem, room) at e))
  ]
]

unused_inside :
    (key : ℕ) (ss : List Semaphore) (j : ℕ)
    → (find_slot sem_slot key ss 0 none).unused_slot ≡ some j
    → j < length ss
unused_inside key ss j e = elim (find_slot_unused sem_slot key ss 0 none j e) [
  | inl x ↦ absurd (cc)
  | inr (k, at, h) ↦ omega arith
]

found-Opens :
    (ss : List Semaphore) (key nsems semflg w : ℕ)
    → (find_slot sem_slot key ss 0 none).found ≡ true
    → length ss ≤ max_sems
    → Young ss
    → open_sem ss nsems semflg (find_slot sem_slot key ss 0 none).index ≡ pos w
    → Opens ss key nsems w
found-Opens ss key nsems semflg w hit few young e =
    let (k, s, at, got, v, m) = find_slot_found sem_slot key ss 0 none hit in
    let place : (find_slot sem_slot key ss 0 none).index ≡ k = omega (arith, at) in
    opened ss key nsems semflg k w s got v m few young (rw place at e)

-- Where no generation is used up, an identifier that semget(2) returns names, in the namespace that
-- it leaves, a set with the key that was asked for and at least as many semaphores.
pub semget-Opens :
    (key nsems_word semflg w : ℕ) (ipc : Ipc)
    → IsValid ipc
    → Young ipc.semaphores
    → (semget key nsems_word semflg ipc).0 ≡ pos w
    → Opens (semget key nsems_word semflg ipc).1.semaphores key (nsems_word % 2 ^ 32) w
unfolding semget get_or_create
semget-Opens key nsems_word semflg w ipc v young e =
    let ss = ipc.semaphores in
    let n = nsems_word % 2 ^ 32 in
    let s = find_slot sem_slot key ss 0 none in
    ground (
      arith,
      λ (h : s.found ≡ true) (q : open_sem ss n semflg s.index ≡ pos w).
          found-Opens ss key n semflg w h v.count young q,
      λ (q : (create_sem ss key n s).0 ≡ pos w).
          created ss key n w s (unused_inside key ss) v.count young q,
    )
