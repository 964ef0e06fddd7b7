-- ===== src/Approval/Gate/Session.antt =====
-- What a choice of the user changes for later calls: src/approval/gate.ts.
use o_pi.Common.{
  subst, ap, Text, text, text_eq, text_eq_iff, Bool, true, false, not, [], Option, none, some, ◌≡◌,
  refl, sym, ◌∙◌, All, if◌then◌else◌,
}
use o_pi.Approval.{Request, Decision, Config, AllowRule}
use o_pi.Approval.Store.{
  Store, new_store, all_rules, matches_allow_rule, create_exact_allow_rule, add_session_allow_rule,
}
use o_pi.Approval.Store.Memory.{Runs, session_rule_remembered, matches_same_call}
use o_pi.Approval.Store.Load.{load_persistent_rules}
use o_pi.Approval.Policy.{evaluate_approval}
use o_pi.Approval.Policy.Order.{evaluate_remembered}
use o_pi.Approval.Builder.{Event, build_approval_request}
use o_pi.Approval.Gate.{
  passes, throws, finish, other_path, World, GateState, Env, Step, precheck_safety, handle_ask,
  answer, is_text, on_decision, with_store, load_store, current_store, on_safety, on_request,
  on_config, handle_tool_call,
}

module _ (env : Env) where
  -- The call gets past the switch, the request and the safety check, as `q` under `c`.
  pub record Reaches (w : World) (e : Event) (c : Config) (q : Request) : Type 0 where
    pub configured : w.config ≡ some c
    pub on : c.enabled ≡ true
    pub built : build_approval_request env.host env.shell env.node_path e w.cwd ≡ some q
    pub safe : precheck_safety env w e ≡ some none

  handle-Reaches :
      (w : World) (g : GateState) (e : Event) (c : Config) (q : Request)
      → Reaches w e c q
      → handle_tool_call env w g e ≡ current_store env w c g q g.store
  unfolding handle_tool_call on_config on_request on_safety
  handle-Reaches w g e c q r =
      ap (on_config env w g e) r.configured
      ∙ switched_on
      ∙ ap (on_request env w c g e) r.built
      ∙ ap (on_safety env w c g q) r.safe
    where
      switched_on :
          on_config env w g e (some c)
          ≡ on_request env w c g e (build_approval_request env.host env.shell env.node_path e w.cwd)
      switched_on = simp r.on

  -- With a store that was handed over, the policy is asked with that store.
  handle-given :
      (w : World) (s : Store) (path : Option Text) (e : Event) (c : Config) (q : Request)
      → Reaches w e c q
      → handle_tool_call env w (record { given = true; store = some s; loaded_path = path }) e
        ≡ on_decision env w c
            (record { given = true; store = some s; loaded_path = path })
            s
            q
            (evaluate_approval env.matchers c s q)
  unfolding current_store with_store
  handle-given w s path e c q r = handle-Reaches w _ e c q r

  chosen_session :
      (w : World)
      → w.choice ≡ some (text "Allow for session")
      → (answer env w (text "Allow once") ≡ false)
        × (answer env w (text "Allow for session") ≡ true)
  unfolding answer text text_eq is_text
  chosen_session w e = (rw e refl, rw e refl)

  ask_session :
      (w : World) (g : GateState) (s : Store) (q : Request) (name : Option Text) (r : AllowRule)
      → w.choice ≡ some (text "Allow for session")
      → create_exact_allow_rule w.time_stamp q ≡ some r
      → (handle_ask env w g s q name).state ≡ record g { store = some (add_session_allow_rule r s) }
  unfolding handle_ask
  ask_session w g s q name r e made =
      let (not_once, session) = chosen_session w e in rw (not_once, session, made) refl

  decide_session :
      (w : World) (c : Config) (g : GateState) (s : Store) (q : Request) (reason : Text)
      (name : Option Text) (r : AllowRule)
      → w.has_ui ≡ true
      → w.choice ≡ some (text "Allow for session")
      → create_exact_allow_rule w.time_stamp q ≡ some r
      → (on_decision env w c g s q (some (Decision.ask reason name))).state
        ≡ record g { store = some (add_session_allow_rule r s) }
  unfolding on_decision
  decide_session w c g s q reason name r ui e made = simp ui (ask_session w g s q name r e made)

-- With a store given to the gate: after "Allow for session" was the answer to a question, a call with
-- the same tool and targets passes, whatever the world then is, if both calls reach the policy and no
-- remembered rule throws on the request.
pub session_choice_lasts :
    (env : Env) (w w' : World) (s : Store) (path : Option Text) (e e' : Event) (c c' : Config)
    (q q' : Request) (reason : Text) (name : Option Text) (r : AllowRule)
    → Reaches env w e c q
    → Reaches env w' e' c' q'
    → q.tool ≡ q'.tool
    → q.targets ≡ q'.targets
    → evaluate_approval env.matchers c s q ≡ some (Decision.ask reason name)
    → w.has_ui ≡ true
    → w.choice ≡ some (text "Allow for session")
    → create_exact_allow_rule w.time_stamp q ≡ some r
    → All (Runs env.matchers q) (all_rules s)
    → (handle_tool_call env w'
        (handle_tool_call env w
          (record { given = true; store = some s; loaded_path = path })
          e).state
        e').verdict
      ≡ passes
session_choice_lasts env w w' s path e e' c c' q q' reason name r first second tool targets asked ui
      choice made runs =
    subst (λ g. (handle_tool_call env w' g e').verdict ≡ passes) (sym after)
      (rw (handle-given env w' (add_session_allow_rule r s) path e' c' q' second) (
        rw (evaluate_remembered env.matchers c' (add_session_allow_rule r s) q' remembered)
          (unfold on_decision in refl)))
  where
    after :
        (handle_tool_call env w
          (record { given = true; store = some s; loaded_path = path })
          e).state
        ≡ record { given = true; store = some (add_session_allow_rule r s); loaded_path = path }
    after =
        rw (handle-given env w s path e c q first)
          (rw asked (decide_session env w c _ s q reason name r ui choice made))

    remembered : matches_allow_rule env.matchers (add_session_allow_rule r s) q' ≡ some true
    remembered =
        sym (matches_same_call env.matchers q q' (add_session_allow_rule r s) tool targets)
        ∙ session_rule_remembered env.matchers q s w.time_stamp r made runs

abbrev pub fresh_gate : GateState
fresh_gate = record { given = false; store = none; loaded_path = none }

-- What a failed load leaves: an empty store under the path of the configuration.
abbrev pub after_failed_load : Config → GateState
after_failed_load c = record {
  given = false;
  store = some new_store;
  loaded_path = some c.persistent_store;
}

first_call_throws :
    (env : Env) (w : World) (e : Event) (c : Config) (q : Request)
    → Reaches env w e c q
    → load_persistent_rules w.read new_store ≡ none
    → handle_tool_call env w fresh_gate e ≡ finish (after_failed_load c) throws []
unfolding current_store load_store with_store
first_call_throws env w e c q first failed =
    handle-Reaches env w fresh_gate e c q first
    ∙ ap (with_store env w c (after_failed_load c) q) failed

same_path :
    (env : Env) (w : World) (e : Event) (c c' : Config) (q : Request)
    → Reaches env w e c' q
    → c.persistent_store ≡ c'.persistent_store
    → handle_tool_call env w (after_failed_load c) e
      ≡ on_decision env w c'
          (after_failed_load c)
          new_store
          q
          (evaluate_approval env.matchers c' new_store q)
unfolding current_store with_store other_path
same_path env w e c c' q second path =
    handle-Reaches env w (after_failed_load c) e c' q second
    ∙ kept (text_eq c.persistent_store c'.persistent_store)
        ((text_eq_iff c.persistent_store c'.persistent_store).1 path)
  where
    kept :
        (b : Bool)
        → b ≡ true
        → (if not b
            then load_store env w c' (after_failed_load c) q
            else with_store env w c' (after_failed_load c) q (some new_store))
          ≡ on_decision env w c'
              (after_failed_load c)
              new_store
              q
              (evaluate_approval env.matchers c' new_store q)
    kept true h = refl
    kept false h = cc

-- A file of rules that cannot be read or parsed rejects the first call; the next call under the
-- same path reads no file and is decided with an empty store.
pub failed_load_forgotten :
    (env : Env) (w w' : World) (e e' : Event) (c c' : Config) (q q' : Request)
    → Reaches env w e c q
    → Reaches env w' e' c' q'
    → c.persistent_store ≡ c'.persistent_store
    → load_persistent_rules w.read new_store ≡ none
    → ((handle_tool_call env w fresh_gate e).verdict ≡ throws)
      × (handle_tool_call env w' (handle_tool_call env w fresh_gate e).state e'
          ≡ on_decision env w' c'
              (after_failed_load c)
              new_store
              q'
              (evaluate_approval env.matchers c' new_store q'))
failed_load_forgotten env w w' e e' c c' q q' first second path failed =
    let run = first_call_throws env w e c q first failed in
    (
      ap (λ (s : Step). s.verdict) run,
      ap (λ (s : Step). handle_tool_call env w' s.state e') run
          ∙ same_path env w' e' c c' q' second path,
    )
