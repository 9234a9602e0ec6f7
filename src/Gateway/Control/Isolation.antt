-- ===== src/Gateway/Control/Isolation.antt =====
-- Tenants: whatever an operator of one workspace does to agents, envelopes and providers, the rows
-- of the other workspaces stay as they are.
use agentpay.Prelude.{
  ◌≡◌, refl, ap, ◌∙◌, inl, inr, true, false, Option, some, List, [], ◌∷◌, ok, arith, Option-cases,
}
use agentpay.Prelude.Int.{ℤ}
use agentpay.Prelude.Bytes.{Bytes}
use agentpay.Gateway.Policy.{AgentMode, AgentStatus, AgentPolicy, status_as_str}
use agentpay.Gateway.Keyed.{find}
use agentpay.Gateway.Control.{AgentRow, ProviderRow, ProviderRecord, AgentRecord, Control, in_scope}
use agentpay.Gateway.Control.Agents.{
  NewAgent, create_agent, set_agent_status, set_policy, get_agent, agent_from_row,
}
use agentpay.Gateway.Control.Providers.{upsert_provider, delete_provider}
use agentpay.Gateway.Control.Foreign.{
  kept_control, update_agent-foreign, create_agent-foreign, set_policy-foreign,
  upsert_provider-foreign, delete_provider-foreign, update_agent-providers, create_agent-providers,
  set_policy-providers, upsert_provider-agents, delete_provider-agents,
}

-- What an operator can have done to the tenants' rows.
pub data TenantCall : Type 0 where
  creates_agent : NewAgent → ℤ → TenantCall
  sets_status : Bytes → AgentStatus → TenantCall
  sets_policy : Bytes → AgentMode → AgentPolicy → TenantCall
  upserts_provider : ProviderRecord → TenantCall
  deletes_provider : Bytes → TenantCall

unfoldable pub tenant_call : Option Bytes → TenantCall → Control → Control
tenant_call workspace (creates_agent a now) t = (create_agent a workspace now t).1
tenant_call workspace (sets_status agent_id status) t =
    (set_agent_status agent_id status workspace t).1
tenant_call workspace (sets_policy agent_id mode p) t =
    kept_control t (set_policy agent_id mode p workspace t)
tenant_call workspace (upserts_provider p) t = upsert_provider p workspace t
tenant_call workspace (deletes_provider provider_id) t = (delete_provider provider_id workspace t).1

unfoldable pub tenant_calls : Option Bytes → List TenantCall → Control → Control
tenant_calls workspace [] t = t
tenant_calls workspace (c ∷ cs) t = tenant_calls workspace cs (tenant_call workspace c t)

module _ (w : Bytes) (key : Bytes) where
  -- The rows under `key` that belong to another workspace, before and after.
  pub record Untouched (t t' : Control) : Type 0 where
    pub agent :
        (row : AgentRow)
        → find key t.agents ≡ some row
        → in_scope (some w) row.workspace_id ≡ false
        → (find key t'.agents ≡ some row) × (find key t'.agent_policies ≡ find key t.agent_policies)
    pub provider :
        (row : ProviderRow)
        → find key t.providers ≡ some row
        → in_scope (some w) row.workspace_id ≡ false
        → find key t'.providers ≡ some row

  tenant_call-Untouched : (c : TenantCall) (t : Control) → Untouched t (tenant_call (some w) c t)
  unfolding tenant_call set_agent_status
  tenant_call-Untouched (creates_agent a now) t = record {
    agent = λ row e foreign.
        let (stays, policies) = create_agent-foreign w key a now t row e in
        (stays, ap (find key) policies);
    provider = λ row e foreign. rw (create_agent-providers w key a now t) e;
  }
  tenant_call-Untouched (sets_status agent_id status) t =
      let f = λ (row : AgentRow). record row { status = status_as_str status } in
      record {
        agent = λ row e foreign.
            let (only, stays, policies) = update_agent-foreign w key f agent_id t row e foreign in
            (stays, ap (find key) policies);
        provider = λ row e foreign. rw (update_agent-providers w key f agent_id t) e;
      }
  tenant_call-Untouched (sets_policy agent_id mode p) t = record {
    agent = λ row e foreign. set_policy-foreign w key agent_id mode p t row e foreign;
    provider = λ row e foreign. rw (set_policy-providers w key agent_id mode p t) e;
  }
  tenant_call-Untouched (upserts_provider p) t = record {
    agent = λ row e foreign.
        let (agents, policies) = upsert_provider-agents w key p t in
        (ap (find key) agents ∙ e, ap (find key) policies);
    provider = λ row e foreign. upsert_provider-foreign w key p t row e foreign;
  }
  tenant_call-Untouched (deletes_provider provider_id) t = record {
    agent = λ row e foreign.
        let (agents, policies) = delete_provider-agents w key provider_id t in
        (ap (find key) agents ∙ e, ap (find key) policies);
    provider = λ row e foreign. delete_provider-foreign w key provider_id t row e foreign;
  }

  Untouched-trans : (t u v : Control) → Untouched t u → Untouched u v → Untouched t v
  Untouched-trans t u v a b = record {
    agent = λ row e foreign.
        let (stays, policies) = a.agent row e foreign in
        let (stays', policies') = b.agent row stays foreign in (stays', policies' ∙ policies);
    provider = λ row e foreign. b.provider row (a.provider row e foreign) foreign;
  }

  pub tenant_calls-Untouched :
      (cs : List TenantCall) (t : Control) → Untouched t (tenant_calls (some w) cs t)
  unfolding tenant_calls
  tenant_calls-Untouched [] t = record {
    agent = λ row e foreign. (e, refl);
    provider = λ row e foreign. e;
  }
  tenant_calls-Untouched (c ∷ cs) t =
      Untouched-trans t (tenant_call (some w) c t)
        (tenant_calls (some w) cs (tenant_call (some w) c t)) (tenant_call-Untouched c t)
        (tenant_calls-Untouched cs (tenant_call (some w) c t))

  -- An agent that is found is the caller's own.
  pub get_agent_confined :
      (t : Control) (a : AgentRecord)
      → get_agent key (some w) t ≡ ok (some a)
      → in_scope (some w) a.workspace_id ≡ true
  unfolding get_agent agent_from_row
  get_agent_confined t a h = elim (Option-cases (find key t.agents)) [
    | inl absent ↦ absurd (cc (rw (absent, get_agent) at h))
    | inr (row, at) ↦ ground (arith, rw (at, get_agent) at h)
  ]

-- Whatever an operator of workspace `w` has done, by any sequence of calls, to agents, their status
-- and envelopes, and providers: every agent and every provider of another workspace keeps its row,
-- and the agent its envelope; and an agent that the operator then looks up and is given belongs to
-- `w`.
pub tenant_isolation :
    (w : Bytes) (cs : List TenantCall) (t : Control) (key : Bytes)
    → Untouched w key t (tenant_calls (some w) cs t)
      × ((a : AgentRecord)
          → get_agent key (some w) (tenant_calls (some w) cs t) ≡ ok (some a)
          → in_scope (some w) a.workspace_id ≡ true)
tenant_isolation w cs t key =
    (tenant_calls-Untouched w key cs t, get_agent_confined w key (tenant_calls (some w) cs t))
