-- ===== src/SysVIpc/Sem/Total.antt =====
-- No assertion fails in semop(2): every tracee that it lets go on can be woken.
use xyzterm.Common.{
  ℕ, ◌≡◌, refl, inl, inr, List, [], ◌∷◌, Option, some, true, ◌||◌, arith, ltb, ◌==◌, Option-cases,
  Bool-cases, ⊎-cases, set, fail, einval, e2big, efbig,
}
use xyzterm.Common.Int.{ℤ, pos}
use xyzterm.SysVIpc.{Semaphore, Sembuf, Config, Ipc}
use xyzterm.SysVIpc.Ids.{lookup_ipc_object}
use xyzterm.SysVIpc.Wait.{wakeable, settled, SettledBut, wake_settled, update_config}
use xyzterm.SysVIpc.Sem.{
  Outcome, blocked, failed, finished, sem_check, sem_slot, semop, recheck, recheck_one, visit,
  waits_here, semop_run, semop_config, ReadSops, values_after, all_in_range, semop_status,
  max_nsops,
}

-- A result that was reached, with the tracees settled but for the caller.
abbrev Reached : ℕ → Config → Option (Config × List ℕ) → Type 0
Reached pid c r =
    (c' : Config) × (sems : List ℕ) × (r ≡ some (c', sems)) × ((c'.pid == pid || settled c') ≡ true)

recheck_one-Reached :
    (pid : ℕ) (c : Config) (sems : List ℕ) (o : Outcome)
    → wakeable c.wait_reason c.wait_state ≡ true
    → Reached pid c (recheck_one c sems o)
unfolding recheck_one
recheck_one-Reached pid c sems blocked h = (c, sems, refl, ground arith)
recheck_one-Reached pid c sems (failed e) h =
    let (c', woken, s, _, _) = wake_settled (record c { semop_sops = [] }) (fail e) h in
    (c', sems, rw (woken, recheck_one) refl, ground arith)
recheck_one-Reached pid c sems (finished sems') h =
    let (c', woken, s, _, _) = wake_settled (record c { semop_sops = [] }) (pos 0) h in
    (c', sems', rw (woken, recheck_one) refl, ground arith)

visit-Reached :
    (pid index : ℕ) (c : Config) (sems : List ℕ)
    → (c.pid == pid || settled c) ≡ true
    → Reached pid c (visit pid index c sems)
unfolding visit
visit-Reached pid index c sems h = elim (Bool-cases (waits_here pid index c)) [
  | inl w ↦ rw w (recheck_one-Reached pid c sems (sem_check c.semop_sops sems) (ground arith))
  | inr w ↦ rw w (c, sems, refl, h)
]

recheck_reached :
    (pid index : ℕ) (cs : List Config) (sems : List ℕ)
    → SettledBut pid cs
    → (cs' : List Config) × (sems' : List ℕ) × (recheck pid index cs sems ≡ some (cs', sems'))
      × SettledBut pid cs'
unfolding recheck
recheck_reached pid index [] sems h = ([], sems, refl, tt)
recheck_reached pid index (c ∷ cs) sems h =
    let (c', mid, v, s) = visit-Reached pid index c sems h.0 in
    let (cs', last, r, t) = recheck_reached pid index cs mid h.1 in
    (c' ∷ cs', last, rw (v, recheck) (rw r), (s, t))

update_settled :
    (pid : ℕ) (f : Config → Config) (cs : List Config)
    → ((c : Config) → (f c).pid ≡ c.pid)
    → SettledBut pid cs
    → SettledBut pid (update_config pid f cs)
unfolding update_config
update_settled pid f [] same h = tt
update_settled pid f (c ∷ cs) same h = (ground (arith, same c), update_settled pid f cs same h.1)

semop_config_pid :
    (index : ℕ) (sops : List Sembuf) (o : Outcome) (c : Config)
    → (semop_config index sops o c).pid ≡ c.pid
semop_config_pid index sops blocked c = refl
semop_config_pid index sops (failed e) c = refl
semop_config_pid index sops (finished s) c = refl

-- A call that comes to an end, with the tracees settled but for the caller.
unfoldable pub Ends : ℕ → Option (ℤ × Ipc) → Type 0
Ends pid r = (status : ℤ) × (ipc' : Ipc) × (r ≡ some (status, ipc')) × SettledBut pid ipc'.tracees

semop_run-Ends :
    (pid : ℕ) (ipc : Ipc) (index : ℕ) (s : Semaphore) (sops : List Sembuf) (o : Outcome)
    → SettledBut pid ipc.tracees
    → Ends pid (semop_run pid ipc index s sops o)
unfolding semop_run Ends
semop_run-Ends pid ipc index s sops o h =
    let (cs, sems, r, t) = recheck_reached pid index ipc.tracees (values_after o s.sems) h in
    (
      semop_status o,
      record ipc {
        semaphores = set ipc.semaphores index (record s { sems = sems });
        tracees = update_config pid (semop_config index sops o) cs;
      },
      rw (r, semop_run) refl,
      update_settled pid (semop_config index sops o) cs (semop_config_pid index sops o) t,
    )

-- semop(2) always comes to an end, whatever its arguments: if every other tracee that waits can be
-- woken, no assertion fails, and every other tracee that still waits can still be woken.
pub semop-Ends :
    (read : ReadSops) (pid id ptr nsops : ℕ) (ipc : Ipc)
    → SettledBut pid ipc.tracees
    → Ends pid (semop read pid id ptr nsops ipc)
unfolding semop Ends
semop-Ends read pid id ptr nsops ipc h =
    elim (Option-cases (lookup_ipc_object sem_slot ipc.semaphores id)) [
      | inl m ↦ rw (m, semop) (fail einval, ipc, refl, h)
      | inr ((index, s), m) ↦ elim (Bool-cases (ltb max_nsops nsops)) [
        | inl many ↦ rw (m, semop, many) (fail e2big, ipc, refl, h)
        | inr few ↦ elim (Bool-cases (nsops == 0)) [
          | inl zero_ops ↦ rw (m, semop, few, zero_ops) (fail einval, ipc, refl, h)
          | inr some_ops ↦ elim (⊎-cases (read ptr nsops)) [
            | inr (e, r) ↦ rw (m, semop, few, some_ops, r) (fail e, ipc, refl, h)
            | inl (sops, r) ↦ elim (Bool-cases (all_in_range s.nsems sops)) [
              | inr out ↦ rw (m, semop, few, some_ops, r, out) (fail efbig, ipc, refl, h)
              | inl good ↦
                  rw (m, semop, few, some_ops, r, good)
                    (semop_run-Ends pid ipc index s sops (sem_check sops s.sems) h)
            ]
          ]
        ]
      ]
    ]
