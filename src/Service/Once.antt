-- ===== src/Service/Once.antt =====
-- `initOnce` of src/service.go: the service starts at most once.
use zk_pig.Base.{
  ℤ, Option, none, some, Bool, true, false, if◌then◌else◌, ◌&&◌, Error, Outcome, ok, err, panic,
  ◌≡◌, refl, ap, ◌∙◌,
}
use zk_pig.Service.{
  ServiceLib, Service, Ending, returned, panicked, Started, with_chain_id, get_chain_id,
  after_start, start_remote_of, initialize, start,
}

module _ (R : ServiceLib) where
  -- What holds of a run of the function of `initOnce`.
  Kept : Started R → Type 0
  Kept (returned e, s, w) = (s.init_once ≡ true) × (s.err ≡ e)
  Kept (panicked, s, w) = s.init_once ≡ true

  with_chain_id-Kept :
      (s : Service R) (o : Outcome (Option ℤ) × R.World)
      → s.init_once ≡ true
      → Kept (with_chain_id R s o)
  unfolding with_chain_id Kept
  with_chain_id-Kept s (ok id, w) h = (h, refl)
  with_chain_id-Kept s (err e, w) h = (h, refl)
  with_chain_id-Kept s (panic, w) h = h

  if-Kept :
      (test : Bool) (kept other : Started R)
      → (test ≡ true → Kept kept)
      → Kept other
      → Kept (if test then kept else other)
  if-Kept true kept other h k = h refl
  if-Kept false kept other h k = k

  get_chain_id-Kept : (s : Service R) (w : R.World) → s.init_once ≡ true → Kept (get_chain_id R s w)
  unfolding get_chain_id Kept
  get_chain_id-Kept s w h =
      if-Kept s.cfg_chain_rpc (with_chain_id R s (R.remote_chain_id w))
        (returned s.err, record s { chain_id = s.cfg_chain_id }, w)
        (λ t. with_chain_id-Kept s (R.remote_chain_id w) h) (h, refl)

  after_start-Kept :
      (s : Service R) (o : Outcome (Unit {0}) × R.World)
      → s.init_once ≡ true
      → Kept (after_start R s o)
  unfolding after_start Kept
  after_start-Kept s (ok u, w) h = get_chain_id-Kept (record s { err = none }) w h
  after_start-Kept s (err e, w) h = (h, refl)
  after_start-Kept s (panic, w) h = h

  start_remote_of-Kept :
      (s : Service R) (w : R.World) → s.init_once ≡ true → Kept (start_remote_of R s w)
  unfolding start_remote_of
  start_remote_of-Kept s w h =
      if-Kept (s.cfg_chain_rpc && R.is_runnable) (after_start R s (R.start_remote w))
        (get_chain_id R s w) (λ t. after_start-Kept s (R.start_remote w) h)
        (get_chain_id-Kept s w h)

  initialize-Kept :
      (rpc : Bool) (id : Option ℤ) (s : Service R) (w : R.World)
      → s.init_once ≡ true
      → Kept (initialize R rpc id s w)
  unfolding initialize Kept
  initialize-Kept false none s w h = (h, refl)
  initialize-Kept false (some id) s w h = start_remote_of-Kept s w h
  initialize-Kept true id s w h = start_remote_of-Kept s w h

  start-Kept : (s : Service R) (w : R.World) → Kept (start R s w)
  unfolding start Kept
  start-Kept s w =
      let fresh = record s { init_once = true } in
      if-Kept s.init_once (returned s.err, s, w)
        (initialize R s.cfg_chain_rpc s.cfg_chain_id fresh w) (λ t. (t, refl))
        (initialize-Kept s.cfg_chain_rpc s.cfg_chain_id fresh w refl)

  returned_inj : {e e' : Option Error} → ◌≡◌ {A = Ending R} (returned e) (returned e') → e ≡ e'
  returned_inj h = cc

  start_done :
      (s : Service R) (w : R.World) → s.init_once ≡ true → start R s w ≡ (returned s.err, s, w)
  unfolding start
  start_done s w h =
      ap
        (λ (b : Bool).
          if b
          then (returned s.err, s, w)
          else initialize R s.cfg_chain_rpc s.cfg_chain_id (record s { init_once = true }) w)
        h

  Kept-returned :
      (r : Started R) (e : Option Error)
      → Kept r
      → r.0 ≡ returned e
      → (r.1.init_once ≡ true) × (r.1.err ≡ e)
  unfolding Kept
  Kept-returned (returned e', s, w) e k h = (k.0, k.1 ∙ returned_inj h)
  Kept-returned (panicked, s, w) e k h = cc

  -- When a call of `Start` returns, whether with an error or not, a call after it returns the same,
  -- and does nothing: the service stays as it is and the RPC client is not asked again.
  pub start-start :
      (s : Service R) (w : R.World) (e : Option Error)
      → (start R s w).0 ≡ returned e
      → start R (start R s w).1 (start R s w).2 ≡ (returned e, (start R s w).1, (start R s w).2)
  start-start s w e h =
      let r = start R s w in
      let (once, kept) = Kept-returned r e (start-Kept s w) h in
      start_done r.1 r.2 once ∙ ap (λ (e' : Option Error). (returned e', r.1, r.2)) kept
