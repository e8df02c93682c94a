-- ===== src/V2/Main/Loaded.antt =====
-- The state that the initialisation of src/driver/v2/main.c leaves to the device.
use dynaswap.Base.{
  ℕ, ◌*◌, ◌<◌, ◌^◌, ◌≡◌, refl, sym, ◌∙◌, ap, inl, inr, true, false, [], arith, pos, Bool-cases,
  nonzero, nonzero_iff, zero_of_nonzero,
}
use dynaswap.V2.Kernel.{Kernel, Documented}
use dynaswap.V2.Slot.{setup_slot_manager, extend_slots}
use dynaswap.V2.Slot.Valid.{setup_slot_manager-IsValid}
use dynaswap.V2.Storage.{setup_storage}
use dynaswap.V2.Context.{Params, Driver, dynaswap_extend}
use dynaswap.V2.Context.Same.{dynaswap_extend-view}
use dynaswap.V2.Device.{Device}
use dynaswap.V2.Device.Queue.{flag}
use dynaswap.V2.Device.Events.{InOrder}
use dynaswap.V2.Main.{Answers, Module, setup_context, init_driver}
use dynaswap.V2.Main.Init.{queued, after_queue, init_queued, init_unqueued}

-- The device once the driver is loaded: no work and no answers.
abbrev pub loaded : {World Page : Type 0} → Driver World → Device World Page
loaded v = record { driver = v; work = []; answers = [] }

module _ {World Page : Type 0} (k : Kernel World Page) (p : Params) (gb : ℕ) (a : Answers) where
  -- The driver's state once the slot manager is set up and extended.
  pub set_up : Module World → Driver World
  set_up s = dynaswap_extend k p (record s.driver {
    slots = (setup_slot_manager gb true a.kmem_cache_create s.driver.slots).1;
  })

  setup_context-driver :
      (s : Module World)
      → (setup_context k p gb a s).0 ≡ pos 0
      → (setup_context k p gb a s).1.driver ≡ set_up s
  unfolding setup_context setup_slot_manager setup_storage set_up
  setup_context-driver s ok = ground arith

  after_queue-driver :
      (s : Module World)
      → (after_queue k p gb a s).0 ≡ pos 0
      → (after_queue k p gb a s).1.driver ≡ set_up s
  unfolding after_queue set_up
  after_queue-driver s ok =
      let q : Module World = queued a s in
      let context = (setup_context k p gb a q).0 in
      elim (Bool-cases (nonzero context)) [
        | inl bad ↦
            let zero : context ≡ pos 0 = ground arith in absurd ((nonzero_iff context).0 bad zero)
        | inr good ↦ rw good (setup_context-driver q (zero_of_nonzero context good))
      ]

  pub init_driver-driver :
      (s : Module World)
      → (init_driver k p gb a s).0 ≡ pos 0
      → (init_driver k p gb a s).1.driver ≡ set_up s
  init_driver-driver s ok = elim (Bool-cases a.alloc_ordered_workqueue) [
    | inl e ↦
        let same = init_queued k p gb a s e in
        ap (λ r. r.1.driver) same ∙ after_queue-driver s (ap (λ r. r.0) (sym same) ∙ ok)
    | inr e ↦ let bad = ap (λ r. r.0) (sym (init_unqueued k p gb a s e)) ∙ ok in absurd (cc bad)
  ]

  pub set_up-bitmap : (s : Module World) → gb < 2 ^ 34 → (set_up s).slots.bitmap_size ≡ 2 ^ 18 * gb
  unfolding set_up dynaswap_extend extend_slots setup_slot_manager
  set_up-bitmap s small = omega arith

  pub set_up-active : (s : Module World) → (set_up s).slots.active_slots ≡ 0
  unfolding set_up dynaswap_extend extend_slots setup_slot_manager
  set_up-active s = refl

  pub set_up-queued : (s : Module World) → (set_up s).extend_queued ≡ s.driver.extend_queued
  unfolding set_up dynaswap_extend
  set_up-queued s = refl

  module _ (d : Documented k) where
    pub set_up-InOrder :
        (s : Module World)
        → p.chunk_size_mb < 2 ^ 16
        → s.driver.extend_queued ≡ false
        → InOrder k d p [] (loaded (set_up s))
    unfolding set_up
    set_up-InOrder s small idle =
        let (_, valid, _) =
          setup_slot_manager-IsValid k.hash gb a.kmem_cache_create s.driver.slots in
        record {
          valid = (dynaswap_extend-view k d p [] _ small valid).0;
          queued = ap flag (sym (set_up-queued s ∙ idle));
        }
