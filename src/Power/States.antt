-- ===== src/Power/States.antt =====
-- The power state that the functions of helper/virtualmachine/virtual_machine.go leave.
use vsphere_facade.Prelude.{
  Bool-cases, Option, Option-cases, Outcome, String, ap, arith, err, if◌then◌else◌, inl, inr, ltb_ℤ,
  none, ok, panic, pos, refl, some, subst, true, ℤ, ◌∙◌, ◌≡◌,
}
use vsphere_facade.Action.{Action, continue, give, eq-ok, >>=-ok, ◌>>◌}
use vsphere_facade.Hypervisor.{Hypervisor, PowerState, powered_on, powered_off, same_state}
use vsphere_facade.Power.{
  get_power_state, fault_as_error, unless_in_state, wait_for_task_info, power_on, power_off,
  shutdown, destroy, wait_for_task, stop_running, destroy_existing,
}

module _ {W : Type 0} (h : Hypervisor W) where
  abbrev pub IsIn : PowerState → String → W → Type 0
  IsIn state id w = h.power_state w id ≡ some state

  -- What the vCenter promises of its tasks: a task that was started, and ended with no fault, has
  -- brought the machine to its state; a wait for a power state that succeeds has seen it.
  pub record TaskLaws : Type 0 where
    pub on_after :
        (id : String) (t : ℤ) (w w' w'' : W)
        → h.start_power_on id w ≡ (w', ok tt)
        → h.wait_for_result id t w' ≡ (w'', ok none)
        → IsIn powered_on id w''
    pub off_after :
        (id : String) (t : ℤ) (w w' w'' : W)
        → h.start_power_off id w ≡ (w', ok tt)
        → h.wait_for_result id t w' ≡ (w'', ok none)
        → IsIn powered_off id w''
    pub seen :
        (id : String) (s : PowerState) (t : ℤ) (w w' : W)
        → h.wait_for_power_state id s t w ≡ (w', ok tt)
        → IsIn s id w'

  -- A machine that is in the state already is left alone, without an error.
  pub power_already :
      (id : String) (t : ℤ) (w : W)
      → (IsIn powered_on id w → power_on h id true t w ≡ (w, ok tt))
        × (IsIn powered_off id w
            → (power_off h id true t w ≡ (w, ok tt)) × (shutdown h id true t w ≡ (w, ok tt)))
  unfolding power_on power_off shutdown
  power_already id t w = (λ e. ground arith, λ e. (ground arith, ground arith))

  same_state-eq : (s t : PowerState) → same_state s t ≡ true → s ≡ t
  same_state-eq s t e = ground arith

  -- A guarded action that succeeds leaves its state, if the action does.
  unless_in_state-IsIn :
      (s : PowerState) (id : String) (act : Action W String (Unit {0})) (w : W)
      → ((act w).1 ≡ ok tt → IsIn s id (act w).0)
      → (unless_in_state h true s id act w).1 ≡ ok tt
      → IsIn s id (unless_in_state h true s id act w).0
  unfolding unless_in_state
  unless_in_state-IsIn s id act w good e = elim (Option-cases (h.power_state w id)) [
    | inl unknown ↦ ground arith
    | inr (t, known) ↦ elim (Bool-cases (same_state t s)) [
      | inl same ↦ rw (known, same) (known ∙ ap some (same_state-eq t s same))
      | inr other ↦ rw (known, other) (good (rw (known, other) at e))
    ]
  ]

  no_fault :
      (r : W × Outcome String (Option String))
      → (continue r (fault_as_error h)).1 ≡ ok tt
      → r ≡ ((continue r (fault_as_error h)).0, ok none)
  unfolding fault_as_error
  no_fault (w, ok none) e = refl
  no_fault (w, ok (some message)) e = cc
  no_fault (w, err message) e = cc
  no_fault (w, panic) e = cc

  wait_for_task_info_positive :
      (id : String) (t : ℤ) (w : W)
      → ltb_ℤ (pos 0) t ≡ true
      → wait_for_task_info h id t w ≡ continue (h.wait_for_result id t w) (fault_as_error h)
  unfolding wait_for_task_info
  wait_for_task_info_positive id t w positive = rw positive

  -- A start and a wait, for a positive timeout, succeed only with no fault.
  started_and_awaited :
      (start : Action W String (Unit {0})) (id : String) (t : ℤ) (w : W)
      → ltb_ℤ (pos 0) t ≡ true
      → ((start >> wait_for_task_info h id t) w).1 ≡ ok tt
      → (w' : W) × (start w ≡ (w', ok tt))
        × (h.wait_for_result id t w' ≡ (((start >> wait_for_task_info h id t) w).0, ok none))
  started_and_awaited start id t w positive e =
      let (w', u, started, then_wait) = >>=-ok start (λ _. wait_for_task_info h id t) w e in
      let waited = then_wait ∙ wait_for_task_info_positive id t w' positive in
      (w', started, rw waited (no_fault (h.wait_for_result id t w') (rw waited at e)))

  module _ (laws : TaskLaws) where
    -- Where the tasks of the vCenter do what they promise, PowerOn and PowerOff, with a positive
    -- timeout, leave the machine in their state if they succeed; so does Shutdown.
    pub power-IsIn :
        (id : String) (t : ℤ) (w : W)
        → ltb_ℤ (pos 0) t ≡ true
        → ((power_on h id true t w).1 ≡ ok tt → IsIn powered_on id (power_on h id true t w).0)
          × ((power_off h id true t w).1 ≡ ok tt → IsIn powered_off id (power_off h id true t w).0)
          × ((shutdown h id true t w).1 ≡ ok tt → IsIn powered_off id (shutdown h id true t w).0)
    unfolding power_on power_off shutdown
    power-IsIn id t w positive = (
      unless_in_state-IsIn powered_on id (h.start_power_on id >> wait_for_task_info h id t) w λ e.
          let (w', started, waited) = started_and_awaited (h.start_power_on id) id t w positive e in
          laws.on_after id t w w' _ started waited,
      unless_in_state-IsIn powered_off id (h.start_power_off id >> wait_for_task_info h id t) w λ e.
          let (w', started, waited) =
            started_and_awaited (h.start_power_off id) id t w positive e in
          laws.off_after id t w w' _ started waited,
      unless_in_state-IsIn powered_off id (h.shutdown_guest id >> guest_wait) w λ e.
          let (w', u, down, then_wait) = >>=-ok (h.shutdown_guest id) (λ _. guest_wait) w e in
          rw then_wait (gone w' (rw then_wait at e)),
    )
      where
        guest_wait : Action W String (Unit {0})
        guest_wait = if ltb_ℤ (pos 0) t then h.wait_for_power_state id powered_off t else give tt

        guest_wait_eq : guest_wait ≡ h.wait_for_power_state id powered_off t
        guest_wait_eq = rw positive

        gone : (w' : W) → (guest_wait w').1 ≡ ok tt → IsIn powered_off id (guest_wait w').0
        gone w' e =
            rw guest_wait_eq (laws.seen id powered_off t w' _ (eq-ok _ (rw guest_wait_eq at e)))

    stopped :
        (id : String) (w : W) (state : PowerState)
        → h.power_state w id ≡ some state
        → (stop_running h id state w).1 ≡ ok tt
        → IsIn powered_off id (stop_running h id state w).0
    unfolding stop_running
    stopped id w state known e = elim (Bool-cases (same_state state powered_off)) [
      | inl off ↦ rw off (known ∙ ap some (same_state-eq state powered_off off))
      | inr running ↦ rw running ((power-IsIn id (pos 10) w refl).1 (rw running at e))
    ]

    read_state :
        (id : String) (w w' : W) (state : PowerState)
        → get_power_state h id w ≡ (w', ok state)
        → (w ≡ w') × (h.power_state w id ≡ some state)
    unfolding get_power_state
    read_state id w w' state e = ground arith

    destroy_existing-stops_first :
        (id : String) (w : W)
        → (destroy_existing h id w).1 ≡ ok tt
        → (w' : W) × IsIn powered_off id w'
          × (destroy_existing h id w ≡ (h.start_destroy id >> wait_for_task h id (pos 2)) w')
    unfolding destroy_existing
    destroy_existing-stops_first id w e =
        let ending : Action W String (Unit {0}) =
          h.start_destroy id >> wait_for_task h id (pos 2) in
        let (w₁, state, read, then_stop) =
          >>=-ok (get_power_state h id) (λ state. stop_running h id state >> ending) w e in
        let (same, known) = read_state id w w₁ state read in
        let (w₂, u, stop, then_end) =
          >>=-ok (stop_running h id state) (λ _. ending) w₁ (rw then_stop at e) in
        (
          w₂,
          subst (λ (r : W × Outcome String (Unit {0})). IsIn powered_off id r.0) stop
              (stopped id w₁ state (rw same at known)
                (ap (λ (r : W × Outcome String (Unit {0})). r.1) stop)),
          then_stop ∙ then_end,
        )

    -- Where the tasks of the vCenter do what they promise, Destroy of a machine that is there, if
    -- it succeeds, has stopped the machine before it started to destroy it.
    pub destroy-stops_first :
        (id : String) (w : W)
        → h.machine_exists w id ≡ true
        → (destroy h id w).1 ≡ ok tt
        → (w' : W) × IsIn powered_off id w'
          × (destroy h id w ≡ (h.start_destroy id >> wait_for_task h id (pos 2)) w')
    unfolding destroy
    destroy-stops_first id w there e = rw there (destroy_existing-stops_first id w (rw there at e))
