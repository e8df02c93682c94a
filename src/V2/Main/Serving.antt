-- ===== src/V2/Main/Serving.antt =====
-- The driver of src/driver/v2 from its initialisation on: what the device answers.
use dynaswap.Base.{
  ℕ, ◌+◌, ◌*◌, ◌≤◌, ◌<◌, ◌^◌, ◌≡◌, refl, sym, ◌∙◌, ap, ap₂, subst, Bool, true, false, List, [], ◌∷◌,
  ◌++◌, arith, pos, All, length, length-append,
}
use mathlib.Core.Path.{fun_ext}
use mathlib.Core.List.{append-nil}
use dynaswap.V2.Kernel.{Kernel, Documented}
use dynaswap.V2.Bimap.{Entry}
use dynaswap.V2.Slot.Valid.{IsValid}
use dynaswap.V2.Context.{Params}
use dynaswap.V2.Context.View.{view, view_unmapped}
use dynaswap.V2.Device.{Request, Work, Device, Answer, BioVec}
use dynaswap.V2.Device.Queue.{requests, flag}
use dynaswap.V2.Device.Events.{Event, steps}
use dynaswap.V2.Device.Drain.{drain, drain_lem}
use dynaswap.V2.Device.History.{Handled, past, given}
use dynaswap.V2.Device.Traced.{waiting, taken, Traced, steps-Traced, drain-Traced}
use dynaswap.V2.Device.Reference.{disk_run, results, History-disk_run}
use dynaswap.V2.Device.Granted.{GrantsAll}
use dynaswap.V2.Device.Perfect.{IsFine, AllWithin, Fits, steps-Fits, drain-Fits}
use dynaswap.V2.Main.{Answers, Module, init_driver}
use dynaswap.V2.Main.Loaded.{
  loaded, set_up, init_driver-driver, set_up-bitmap, set_up-active, set_up-InOrder,
}

-- The segments of the answers, the first answer's first.
abbrev pub in_order : {Page : Type 0} → List (Answer Page) → List (List (BioVec Page))
in_order [] = []
in_order (a ∷ l) = in_order l ++ a.segments ∷ []

module _ {Page : Type 0} where
  results-given : (l : List (Handled Page)) → in_order (given l) ≡ results l
  results-given [] = refl
  results-given (s ∷ l) = ap (λ r. r ++ s.answer.segments ∷ []) (results-given l)

  All-given : (l : List (Handled Page)) → All IsFine (given l) → All (λ s. s.answer.status ≡ 0) l
  All-given [] h = tt
  All-given (s ∷ l) (h, hs) = (h, All-given l hs)

  length-waiting : (ws : List (Work Page)) → requests ws ≡ length (waiting ws)
  length-waiting [] = refl
  length-waiting (Work.handle_rq rq ∷ ws) = omega (arith, length-waiting ws)
  length-waiting (Work.extend_work ∷ ws) = length-waiting ws

flag-le : (b : Bool) → flag b ≤ 1
flag-le true = omega arith
flag-le false = omega arith

module _ {World Page : Type 0} (k : Kernel World Page) (d : Documented k) where
  -- No work is left of the requests `rqs`, and all was answered and is stored as by the disk that
  -- never fails.
  pub record IsDisk (rqs : List (Request Page)) (t : Device World Page) : Type 0 where
    pub idle : t.work ≡ []
    pub fine : All IsFine t.answers
    pub answers : in_order t.answers ≡ (disk_run rqs (λ j. k.zero_page)).0
    pub contents :
        (es : List Entry) × IsValid k.hash es t.driver.slots
        × ((j : ℕ) → view k d es t.driver.world j ≡ (disk_run rqs (λ j. k.zero_page)).1 j)

module _ {World Page : Type 0} (k : Kernel World Page) (p : Params) (gb : ℕ) (a : Answers) where
  module _ (d : Documented k) where
    finished :
        (f : ℕ → Page) (rqs : List (Request Page)) (served : List (Handled Page))
        (es es' : List Entry) (t : Device World Page)
        → ((j : ℕ) → f j ≡ k.zero_page)
        → t.work ≡ []
        → Traced k d p f [] rqs served es t
        → Fits k d p (2 ^ 18 * gb) [] es' t
        → IsDisk k d rqs t
    finished f rqs served es es' t zeros idle tr ft =
        let answers = tr.answered ∙ append-nil (given served) in
        let fine = All-given served (subst (All IsFine) answers ft.fine) in
        let ran = History-disk_run served f (view k d es t.driver.world) fine tr.history in
        let turn : past served ≡ rqs =
          sym (append-nil (past served))
          ∙ ap (λ us. past served ++ waiting us) (sym idle)
          ∙ tr.in_turn in
        let same : disk_run rqs (λ j. k.zero_page) ≡ (results served, view k d es t.driver.world) =
          ap₂ disk_run (sym turn) (sym (fun_ext zeros)) ∙ ran in
        record {
          idle = idle;
          fine = ft.fine;
          answers = ap in_order answers ∙ results-given served ∙ sym (ap (λ r. r.0) same);
          contents = (es, tr.order.valid, λ j. sym (ap (λ r. r.1 j) same));
        }

    loaded-Fits :
        (evs : List (Event Page)) (s : Module World)
        → p.chunk_size_mb < 2 ^ 16
        → gb < 2 ^ 34
        → s.driver.extend_queued ≡ false
        → AllWithin (2 ^ 18 * gb) (taken evs)
        → Fits k d p (2 ^ 18 * gb) (taken evs) [] (loaded (set_up k p gb a s))
    loaded-Fits evs s small capacity idle within = record {
      order = set_up-InOrder k p gb a d s small idle;
      room = record {
        paired = omega (arith, set_up-active k p gb a s);
        sized = set_up-bitmap k p gb a s capacity;
      };
      within = tt;
      within_later = within;
      fine = tt;
    }

    -- The events and the runs after them, from a driver that is set up.
    served-IsDisk :
        (evs : List (Event Page)) (n : ℕ) (s : Module World)
        → GrantsAll k
        → 0 < p.chunk_size_mb
        → p.chunk_size_mb < 2 ^ 16
        → gb < 2 ^ 34
        → s.driver.extend_queued ≡ false
        → AllWithin (2 ^ 18 * gb) (taken evs)
        → 2 * length (taken evs) + 1 ≤ n
        → IsDisk k d (taken evs) (drain k p n (steps k p evs (loaded (set_up k p gb a s))))
    served-IsDisk evs n s gr some_mb small capacity idle within long =
        let v = set_up k p gb a s in
        let f = view k d [] v.world in
        let start = loaded-Fits evs s small capacity idle within in
        let (es₁, fits) = steps-Fits k d p gr some_mb small (2 ^ 18 * gb) evs [] (loaded v) start in
        let (es₁', served₁, traced) = steps-Traced k d p evs [] (loaded v) small start.order in
        let u = steps k p evs (loaded v) in
        let (es₂, fits') = drain-Fits k d p gr some_mb small (2 ^ 18 * gb) n es₁ u fits in
        let (es₂', served₂, traced') =
          drain-Traced k d p f [] n (taken evs) served₁ es₁' u small traced in
        let shorter : requests u.work ≤ length (taken evs) = omega (
          arith,
          length-waiting u.work,
          length-append {0} (past served₁) (waiting u.work),
          ap length traced.in_turn,
        ) in
        let (dry, _) =
          drain_lem k p n u
            (omega (arith, shorter, traced.order.queued, flag-le u.driver.extend_queued)) in
        finished f (taken evs) served₂ es₂' es₂ _ (λ j. view_unmapped k d [] v.world j refl) dry
          traced' fits'

    -- A driver that was initialised with status 0 and has its cache, for a device of fewer than 2 ^ 34
    -- gigabytes and with chunks of at least one megabyte that fit their type, and a kernel that has
    -- memory and reads, writes and syncs whole pages. Let any requests arrive, with or without memory
    -- for their items, and the queue run in between; let all those taken be reads, writes, flushes and
    -- discards, each segment of which is a single page of the device that starts at a page; and let
    -- the queue run on, at least twice for each request and once more. Then no work is left, every
    -- answer is BLK_STS_OK, the answers are, in the order in which the requests were taken, those of
    -- a disk of zero pages that never fails, on which a discard does nothing, and the device holds
    -- what that disk holds.
    pub init-IsDisk :
        (evs : List (Event Page)) (n : ℕ) (s : Module World)
        → GrantsAll k
        → 0 < p.chunk_size_mb
        → p.chunk_size_mb < 2 ^ 16
        → gb < 2 ^ 34
        → s.driver.extend_queued ≡ false
        → (init_driver k p gb a s).0 ≡ pos 0
        → a.kmem_cache_create ≡ true
        → AllWithin (2 ^ 18 * gb) (taken evs)
        → 2 * length (taken evs) + 1 ≤ n
        → let v = (init_driver k p gb a s).1.driver in
          IsDisk k d (taken evs) (drain k p n (steps k p evs (loaded v)))
    init-IsDisk evs n s gr some_mb small capacity idle ok cache within long =
        subst (λ v. IsDisk k d (taken evs) (drain k p n (steps k p evs (loaded v))))
          (sym (init_driver-driver k p gb a s ok))
          (served-IsDisk evs n s gr some_mb small capacity idle within long)
