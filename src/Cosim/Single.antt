-- ===== src/Cosim/Single.antt =====
-- The cosimulation of one processor, which isa_sim/main.cpp runs.
use system_on_chip_design_pr.Base.{
  ℕ, ◌≡◌, refl, ap, fun_ext, List, [], ◌∷◌, arith, ◌+◌, zero, suc, sym, update,
}
use system_on_chip_design_pr.Outcome.{Outcome, ok, exit, abort, undefined, ◌>>=◌}
use system_on_chip_design_pr.Cpu.{CosimEvent}
use system_on_chip_design_pr.Cosim.{
  EventKind, load, load_result, store, CpuApi, CpuItem, Cosim, each, any_cpu, not_ready, pop_events,
  compare_event, compare_events, compare_pcs, compare_register, compare_registers, compare_states,
  step,
}

update-update :
    {S : Type 0} (f : ℕ → S) (i : ℕ) (x y : S) → update (update f i x) i y ≡ update f i y
update-update f i x y = fun_ext (λ j. ground arith)

update-same : {S : Type 0} (f : ℕ → S) (i : ℕ) → update f i (f i) ≡ f
update-same f i = fun_ext (λ j. ground arith)

module _ {S : Type 0} (api : CpuApi S) where
  -- A queue without its front; an empty queue stays.
  abbrev pub drop_event : EventKind → S → S
  drop_event ev x = elim (api.event_q x ev) [ [] ↦ x | e ∷ q ↦ api.set_event_q x ev q ]

  -- All three queues without their fronts.
  abbrev pub drop_events : S → S
  drop_events x = drop_event store (drop_event load_result (drop_event load x))

  compare_event-single :
      (ev : EventKind) (it : CpuItem) (objects : ℕ → S)
      → compare_event api ev (it ∷ []) objects
        ≡ ok (update objects it.cpu (drop_event ev (objects it.cpu)))
  unfolding compare_event any_cpu pop_events
  compare_event-single ev it objects = by_queue (api.event_q (objects it.cpu) ev) refl
    where
      by_queue :
          (q : List CosimEvent)
          → api.event_q (objects it.cpu) ev ≡ q
          → compare_event api ev (it ∷ []) objects
            ≡ ok (update objects it.cpu (drop_event ev (objects it.cpu)))
      by_queue [] e =
          rw (e, compare_event, any_cpu, not_ready, drop_event)
            (ap ok (sym (update-same objects it.cpu)))
      by_queue (item ∷ q) e = rw (e, compare_event, any_cpu, not_ready, drop_event, pop_events) refl

  compare_events-single :
      (it : CpuItem) (objects : ℕ → S)
      → compare_events api (it ∷ []) objects
        ≡ ok (update objects it.cpu (drop_events (objects it.cpu)))
  unfolding compare_events
  compare_events-single it objects =
      let x = drop_event load (objects it.cpu) in
      let o1 = update objects it.cpu x in
      let o2 = update o1 it.cpu (drop_event load_result (o1 it.cpu)) in
      let at1 : o1 it.cpu ≡ x = ground arith in
      let at2 : o2 it.cpu ≡ drop_event load_result (o1 it.cpu) = ground arith in
      rw (compare_event-single load it objects) (
        rw (compare_event-single load_result it o1)
          (rw (compare_event-single store it o2) (ap ok (fun_ext (λ j. ground arith)))))

  registers_pass :
      (left i : ℕ) (it : CpuItem) (objects : ℕ → S)
      → compare_registers api (objects it.cpu) left i (it ∷ []) objects ≡ ok tt
  unfolding compare_register compare_registers
  registers_pass zero i it objects = refl
  registers_pass (suc left) i it objects = ground (arith, registers_pass left (i + 1) it objects)

  states_pass : (it : CpuItem) (objects : ℕ → S) → compare_states api (it ∷ []) objects ≡ ok tt
  unfolding compare_states compare_pcs
  states_pass it objects =
      ground (arith, registers_pass (api.get_num_reg (objects it.cpu)) 0 it objects)

  finish :
      (s : Cosim S) (it : CpuItem) (y : S) (m : Outcome S)
      → ((m >>= λ x. ok (update (update s.objects it.cpu y) it.cpu x)) >>= λ o2.
          (compare_states api (it ∷ []) o2 >>= λ u. ok (record s { cpus = it ∷ []; objects = o2 })))
        ≡ (m >>= λ x. ok (record s { cpus = it ∷ []; objects = update s.objects it.cpu x }))
  finish s it y undefined = refl
  finish s it y abort = refl
  finish s it y (exit n) = refl
  finish s it y (ok x) =
      let o2 = update (update s.objects it.cpu y) it.cpu x in
      rw (states_pass it o2) (
        ap (λ o. ok (record s { cpus = it ∷ []; objects = o }))
          (update-update s.objects it.cpu y x))

  -- With one processor attached, a step of the cosimulation takes the front off each of its event
  -- queues that has one, and is then a step of the processor; no comparison fails.
  pub step-single :
      (s : Cosim S) (it : CpuItem)
      → s.cpus ≡ it ∷ []
      → step api s ≡ (do
        x ← api.step (drop_events (s.objects it.cpu))
        ok (record s { objects = update s.objects it.cpu x }))
  unfolding step each
  step-single s it one = rw one (
      rw (compare_events-single it s.objects) (
        let o1 = update s.objects it.cpu (drop_events (s.objects it.cpu)) in
        let at1 : o1 it.cpu ≡ drop_events (s.objects it.cpu) = ground arith in
        rw at1 (
          finish s it (drop_events (s.objects it.cpu))
            (api.step (drop_events (s.objects it.cpu))))))
