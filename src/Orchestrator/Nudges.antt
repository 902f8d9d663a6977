-- ===== src/Orchestrator/Nudges.antt =====
-- A second idle sweep at the same time nudges nobody.
use mathlib.Core.Path.{subst}
use agent_company_factory.Prelude.{
  leb, ◌==◌, or_else, ==_refl, Bool-cases, All, ℕ, ◌-◌, ◌≤◌, ◌<◌, ◌≡◌, refl, sym, ap, ◌∙◌, inl, inr,
  Bool, true, false, not, ◌&&◌, Option, none, some, List, [], ◌∷◌, arith,
}
use agent_company_factory.Orchestrator.Model.{Text, at, member_of}
use agent_company_factory.Orchestrator.State.{
  IdleSweepConfig, AgentHandle, Orchestrator, is_suspended,
}
use agent_company_factory.Orchestrator.Send.{Moment}
use agent_company_factory.Orchestrator.IdleSweep.{
  nudge, last_seen, is_due_nudge, nudge_agent, nudge_agents, idle_sweep,
}
use agent_company_factory.Orchestrator.Health.{is_idle}
use agent_company_factory.Orchestrator.Notices.{IsLater, nudge-IsLater}

-- `is_due_nudge` of the values it reads.
grounds : Bool → Bool → ℕ → ℕ → Option ℕ → ℕ → Option ℕ → ℕ → Bool
grounds suspended resting after cooldown activity message nudged now =
    not suspended
    && resting
    && leb after (now - or_else activity message)
    && (elim nudged [ none ↦ true | some last ↦ leb cooldown (now - last) ])

grounds_of : ℕ → AgentHandle → Orchestrator → Bool
grounds_of now h s =
    grounds (is_suspended h.id s) (is_idle h.status) s.idle_cfg.agent_idle_after
      s.idle_cfg.nudge_cooldown (s.last_activity_at h.id) s.last_message_at (s.last_nudge_at h.id)
      now

grounds_later :
    (held resting : Bool) (after cooldown : ℕ) (activity : Option ℕ) (early late : ℕ)
    (nudged : Option ℕ) (now : ℕ)
    → now - late ≤ now - early
    → grounds held resting after cooldown activity early nudged now ≡ false
    → grounds held resting after cooldown activity late nudged now ≡ false
unfolding grounds
grounds_later held resting after cooldown activity early late nudged now h q = ground arith

grounds_now :
    (held resting : Bool) (after cooldown : ℕ) (activity : Option ℕ) (message now : ℕ)
    → 0 < cooldown
    → grounds held resting after cooldown activity message (some now) now ≡ false
unfolding grounds
grounds_now held resting after cooldown activity message now h = ground arith

due_grounds :
    (now : ℕ) (h : AgentHandle) (s : Orchestrator) → is_due_nudge now h s ≡ grounds_of now h s
unfolding is_due_nudge grounds_of grounds
due_grounds now h s = refl

module _ (draw : ℕ → Moment) (shown : ℕ → Text) (now : ℕ) where
  -- Nothing more for `g` to be nudged about in `t` than in `s`, and the settings are the same.
  record IsQuieter (s t : Orchestrator) : Type 0 where
    idle_cfg : t.idle_cfg ≡ s.idle_cfg
    agents : t.agents ≡ s.agents
    quiet : (g : AgentHandle) → is_due_nudge now g s ≡ false → is_due_nudge now g t ≡ false

  abbrev nudged_state : AgentHandle → Orchestrator → Orchestrator
  nudged_state h s =
      let s' = nudge (draw h.id) shown h.id (now - last_seen h.id s) s in
      record s' { last_nudge_at = at h.id (some now) s'.last_nudge_at }

  module _ (h : AgentHandle) (s : Orchestrator) (early : now ≤ (draw h.id).now)
      (patient : 0 < s.idle_cfg.nudge_cooldown) where
    later : IsLater now s (nudge (draw h.id) shown h.id (now - last_seen h.id s) s)
    later = nudge-IsLater (draw h.id) shown h.id (now - last_seen h.id s) s now early

    -- The grounds after the nudge, in the values from before.
    grounds_nudged :
        (g : AgentHandle)
        → grounds_of now g (nudged_state h s)
          ≡ grounds
              (is_suspended g.id s)
              (is_idle g.status)
              s.idle_cfg.agent_idle_after
              s.idle_cfg.nudge_cooldown
              (s.last_activity_at g.id)
              (nudged_state h s).last_message_at
              (at h.id (some now) s.last_nudge_at g.id)
              now
    unfolding grounds_of
    grounds_nudged g =
        let after = ap (λ (k : IdleSweepConfig). k.agent_idle_after) later.idle_cfg in
        let cooldown = ap (λ (k : IdleSweepConfig). k.nudge_cooldown) later.idle_cfg in
        let held = ap (member_of g.id) later.suspended in
        let active = ap (λ (f : ℕ → Option ℕ). f g.id) later.activity in
        let nudged = ap (λ (f : ℕ → Option ℕ). at h.id (some now) f g.id) later.nudges in cc

    nudged_quiet :
        (g : AgentHandle)
        → is_due_nudge now g s ≡ false
        → is_due_nudge now g (nudged_state h s) ≡ false
    unfolding grounds_of
    nudged_quiet g q =
        due_grounds now g (nudged_state h s) ∙ grounds_nudged g ∙ elim (Bool-cases (g.id == h.id)) [
          | inl z ↦ rw z (
              grounds_now (is_suspended g.id s) (is_idle g.status) s.idle_cfg.agent_idle_after
                s.idle_cfg.nudge_cooldown (s.last_activity_at g.id)
                (nudged_state h s).last_message_at now patient)
          | inr z ↦ rw z (
              grounds_later (is_suspended g.id s) (is_idle g.status) s.idle_cfg.agent_idle_after
                s.idle_cfg.nudge_cooldown (s.last_activity_at g.id) s.last_message_at
                (nudged_state h s).last_message_at (s.last_nudge_at g.id) now later.message
                (sym (due_grounds now g s) ∙ q))
        ]

    nudged_done : is_due_nudge now h (nudged_state h s) ≡ false
    nudged_done =
        due_grounds now h (nudged_state h s)
        ∙ grounds_nudged h
        ∙ rw (==_refl h.id) (
            grounds_now (is_suspended h.id s) (is_idle h.status) s.idle_cfg.agent_idle_after
              s.idle_cfg.nudge_cooldown (s.last_activity_at h.id) (nudged_state h s).last_message_at
              now patient)

  module _ (early : (a : ℕ) → now ≤ (draw a).now) where
    -- What a pass over the agents `l` leaves.
    record Nudged (l : List AgentHandle) (s t : Orchestrator) : Type 0 where
      quieter : IsQuieter s t
      all_quiet : All (λ g. is_due_nudge now g t ≡ false) l

    one-Nudged :
        (h : AgentHandle) (s : Orchestrator)
        → 0 < s.idle_cfg.nudge_cooldown
        → Nudged (h ∷ []) s (nudge_agent draw shown now h s).1
    unfolding nudge_agent
    one-Nudged h s c = elim (Bool-cases (is_due_nudge now h s)) [
      | inl q ↦ rw q (record {
        quieter = record {
          idle_cfg = (later h s (early h.id) c).idle_cfg;
          agents = (later h s (early h.id) c).agents;
          quiet = nudged_quiet h s (early h.id) c;
        };
        all_quiet = (nudged_done h s (early h.id) c, tt);
      })
      | inr q ↦ rw q (record {
        quieter = record { idle_cfg = refl; agents = refl; quiet = λ g z. z };
        all_quiet = (q, tt);
      })
    ]

    all-Nudged :
        (l : List AgentHandle) (s : Orchestrator)
        → 0 < s.idle_cfg.nudge_cooldown
        → Nudged l s (nudge_agents draw shown now l s).1
    unfolding nudge_agents
    all-Nudged [] s c = record {
      quieter = record { idle_cfg = refl; agents = refl; quiet = λ g z. z };
      all_quiet = tt;
    }
    all-Nudged (h ∷ l) s c =
        let one = one-Nudged h s c in
        let t = (nudge_agent draw shown now h s).1 in
        let rest =
          all-Nudged l t
            (subst (λ (k : IdleSweepConfig). 0 < k.nudge_cooldown) (sym one.quieter.idle_cfg) c) in
        record {
          quieter = record {
            idle_cfg = rest.quieter.idle_cfg ∙ one.quieter.idle_cfg;
            agents = rest.quieter.agents ∙ one.quieter.agents;
            quiet = λ g z. rest.quieter.quiet g (one.quieter.quiet g z);
          };
          all_quiet = (rest.quieter.quiet h one.all_quiet.0, rest.all_quiet);
        }

  nobody_nudged :
      (l : List AgentHandle) (s : Orchestrator)
      → All (λ g. is_due_nudge now g s ≡ false) l
      → nudge_agents draw shown now l s ≡ (0, s)
  unfolding nudge_agents nudge_agent
  nobody_nudged [] s w = refl
  nobody_nudged (h ∷ l) s (q, w) = rw (q, nobody_nudged l s w) refl

module _ (draw : ℕ → Moment) (shown : ℕ → Text) (now : ℕ) where
  enabled_sweep :
      (s : Orchestrator)
      → s.idle_cfg.enabled ≡ true
      → nudge_agents draw shown now s.agents s ≡ idle_sweep draw shown now s
  unfolding idle_sweep
  enabled_sweep s q = ground arith

  disabled_sweep :
      (s : Orchestrator) → s.idle_cfg.enabled ≡ false → (0, s) ≡ idle_sweep draw shown now s
  unfolding idle_sweep
  disabled_sweep s q = ground arith

  -- With a positive cool-down, a second idle sweep at the time of the first sends no nudge and
  -- changes nothing, when no message is drawn before that time.
  pub idle_sweep_twice :
      (s : Orchestrator)
      → ((a : ℕ) → now ≤ (draw a).now)
      → 0 < s.idle_cfg.nudge_cooldown
      → let t = (idle_sweep draw shown now s).1 in idle_sweep draw shown now t ≡ (0, t)
  idle_sweep_twice s early c = elim (Bool-cases s.idle_cfg.enabled) [
    | inl q ↦
        let w = all-Nudged draw shown now early s.agents s c in
        let t = (nudge_agents draw shown now s.agents s).1 in
        let on = ap (λ (k : IdleSweepConfig). k.enabled) w.quieter.idle_cfg ∙ q in
        subst (λ (u : ℕ × Orchestrator). idle_sweep draw shown now u.1 ≡ (0, u.1))
          (enabled_sweep s q)
          (sym (enabled_sweep t on)
            ∙ nobody_nudged draw shown now t.agents t (
                subst (All (λ g. is_due_nudge now g t ≡ false)) (sym w.quieter.agents) w.all_quiet))
    | inr q ↦
        subst (λ (u : ℕ × Orchestrator). idle_sweep draw shown now u.1 ≡ (0, u.1))
          (disabled_sweep s q) (sym (disabled_sweep s q))
  ]
