-- ===== src/Startup/Order.antt =====
-- In which order the process starts: the manager runs only with all controllers registered.
use mathlib.Core.Bool.{false≢true}
use opsmanager_crossplane_pr.Common.{
  ◌≡◌, refl, ◌∙◌, sym, ap, ◌⊎◌, inl, inr, Bool, true, false, List, [], ◌∷◌, String, arith,
}
use opsmanager_crossplane_pr.Errors.{Err}
use opsmanager_crossplane_pr.Effects.{St, ok, err, Result-cases, then_ok, then_err, with_state, ask}
use opsmanager_crossplane_pr.Startup.{
  ControllerOptions, Registration, Flags, StartCall, parse, set_logger, get_config, new_manager,
  complete, start, Platform,
}
use opsmanager_crossplane_pr.Startup.Setup.{register}
use opsmanager_crossplane_pr.Startup.Process.{
  app, log_options, manager_options, controller_options, setups, set_up, run_manager, run_flags,
  main,
}

-- The manager was started.
unfoldable pub started : List StartCall → Bool
started [] = false
started (start ∷ h) = true
started (c ∷ h) = started h

abbrev pub boot : St StartCall (Unit {0})
boot = record { cr = tt; calls = []; events = [] }

-- The calls after all of a table is registered.
unfoldable pub registered :
    List (String × (ControllerOptions → Registration))
    → ControllerOptions
    → List StartCall
    → List StartCall
registered [] o h = h
registered ((name, registration) ∷ rest) o h = registered rest o (complete (registration o) ∷ h)

-- The calls before the table is registered.
abbrev pub configuring : Flags → List StartCall
configuring f =
    new_manager (manager_options f) ∷ get_config ∷ set_logger (log_options f) ∷ parse app ∷ []

module _ (platform : Platform) where
  -- Each registration of a table was accepted when its turn came.
  abbrev pub Accepted :
      platform.Manager
      → List (String × (ControllerOptions → Registration))
      → ControllerOptions
      → List StartCall
      → Type 0
  Accepted mgr [] o h = Unit
  Accepted mgr ((name, registration) ∷ rest) o h =
      (platform.complete h mgr (registration o) ≡ ok tt)
      × Accepted mgr rest o (complete (registration o) ∷ h)

  set_up-cases :
      (regs : List (String × (ControllerOptions → Registration))) (mgr : platform.Manager)
      (o : ControllerOptions) (s : St StartCall (Unit {0}))
      → ((set_up platform regs mgr o s ≡ (ok tt, record s { calls = registered regs o s.calls }))
          × Accepted mgr regs o s.calls)
        ⊎ ((e : Err) × ((set_up platform regs mgr o s).0 ≡ err e)
            × (started (set_up platform regs mgr o s).1.calls ≡ started s.calls))
  unfolding set_up registered started register
  set_up-cases [] mgr o s = inl (refl, tt)
  set_up-cases ((name, registration) ∷ rest) mgr o s =
      elim (Result-cases (platform.complete s.calls mgr (registration o))) [
        | inl (a, e) ↦
            let t = record s { calls = complete (registration o) ∷ s.calls } in
            let same =
              then_ok (register platform (registration o) mgr) (set_up platform rest mgr o) s
                (λ i. (e i, t)) in
            elim (set_up-cases rest mgr o t) [
              | inl (q, h) ↦ inl (same ∙ q, (e, h))
              | inr (x, q, h) ↦ inr (x, rw same q, rw same h)
            ]
        | inr (x, e) ↦
            let t = record s { calls = complete (registration o) ∷ s.calls } in
            let same =
              then_err (register platform (registration o) mgr) (set_up platform rest mgr o) s
                (λ i. (e i, t)) in
            inr (x, rw same refl, rw same refl)
      ]

  -- What holds of the calls if the manager was started: it was so in the end, once the flags were
  -- parsed, the logger set, a configuration and a manager made, and the registrations of the table
  -- accepted in its order.
  pub record Started (h : List StartCall) : Type 0 where
    pub values : Flags
    pub config : platform.RestConfig
    pub mgr : platform.Manager
    pub parsed : platform.parse [] app ≡ ok values
    pub configured :
        platform.get_config (set_logger (log_options values) ∷ parse app ∷ []) ≡ ok config
    pub managed :
        platform.new_manager
          (get_config ∷ set_logger (log_options values) ∷ parse app ∷ [])
          config
          (manager_options values)
        ≡ ok mgr
    pub accepted : Accepted mgr (setups platform) (controller_options values) (configuring values)
    pub in_order :
        h ≡ start ∷ registered (setups platform) (controller_options values) (configuring values)

  started-run_manager :
      (f : Flags) (mgr : platform.Manager) (s : St StartCall (Unit {0}))
      → started s.calls ≡ false
      → started (run_manager platform f mgr s).1.calls ≡ true
      → Accepted mgr (setups platform) (controller_options f) s.calls
        × ((run_manager platform f mgr s).1.calls
            ≡ start ∷ registered (setups platform) (controller_options f) s.calls)
  unfolding run_manager
  started-run_manager f mgr s fresh begun =
      let all = set_up platform (setups platform) mgr (controller_options f) in
      let running = ask start (λ h. platform.start h mgr) in
      elim (set_up-cases (setups platform) mgr (controller_options f) s) [
        | inl (q, h) ↦ (h, ap (λ (x : _ × _). x.1.calls) (then_ok all running s q))
        | inr (x, q, h) ↦
            let same = then_err all running s (with_state all s q) in
            absurd (false≢true (sym fresh ∙ sym h ∙ (rw same at begun)))
      ]

  main_runs :
      (f : Flags) (cfg : platform.RestConfig) (mgr : platform.Manager)
      → platform.parse [] app ≡ ok f
      → platform.get_config (set_logger (log_options f) ∷ parse app ∷ []) ≡ ok cfg
      → platform.new_manager
          (get_config ∷ set_logger (log_options f) ∷ parse app ∷ [])
          cfg
          (manager_options f)
        ≡ ok mgr
      → main platform boot ≡ run_manager platform f mgr (record boot { calls = configuring f })
  unfolding main run_flags
  main_runs f cfg mgr p c m = rw (p, c, m) refl

  -- If the process starts the manager, that is its last call, and before it the flags were parsed,
  -- the logger was set, the configuration was found, the manager was made, and the registrations of
  -- the five controllers were accepted, in the order of the table.
  pub main-Started :
      started (main platform boot).1.calls ≡ true → Started (main platform boot).1.calls
  unfolding main run_flags started
  main-Started h = elim (Result-cases (platform.parse [] app)) [
    | inr (x, p) ↦ absurd (ground arith)
    | inl (f, p) ↦
        elim (Result-cases (platform.get_config (set_logger (log_options f) ∷ parse app ∷ []))) [
          | inr (x, c) ↦ absurd (ground arith)
          | inl (cfg, c) ↦
              elim (Result-cases (
                platform.new_manager (get_config ∷ set_logger (log_options f) ∷ parse app ∷ []) cfg
                  (manager_options f))) [
                    | inr (x, m) ↦ absurd (ground arith)
                    | inl (mgr, m) ↦
                        let s = record boot { calls = configuring f } in
                        let same = main_runs f cfg mgr p c m in
                        let (a, o) =
                          started-run_manager f mgr s refl
                            (ap (λ (x : _ × _). started x.1.calls) (sym same) ∙ h) in
                        record {
                          values = f;
                          config = cfg;
                          mgr = mgr;
                          parsed = p;
                          configured = c;
                          managed = m;
                          accepted = a;
                          in_order = ap (λ (x : _ × _). x.1.calls) same ∙ o;
                        }
                  ]
        ]
  ]
