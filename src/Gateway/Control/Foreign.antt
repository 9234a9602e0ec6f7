-- ===== src/Gateway/Control/Foreign.antt =====
-- One row of another workspace under each statement that an operator's call runs.
use agentpay.Prelude.{
  ◌≡◌, refl, sym, ap, ◌∙◌, inl, inr, true, false, Option, none, some, [], ◌∷◌, Result, ok, err,
  arith, Bool-cases, Option-cases, Result-cases, if◌then◌else◌,
}
use agentpay.Prelude.Int.{ℤ}
use agentpay.Prelude.Bytes.{Bytes, bytes_eq, bytes_eq_sound, bytes_eq_refl}
use agentpay.Gateway.Policy.{AgentMode, AgentPolicy, mode_as_str}
use agentpay.Gateway.Evidence.{DbError}
use agentpay.Gateway.Keyed.{
  Table, find, set_row, or_else, find-set_row, find-insert_row, bytes_eq_sym_true,
}
use agentpay.Gateway.Control.{
  AgentRow, PolicyRow, ProviderRow, ProviderRecord, Control, in_scope, same_workspace,
}
use agentpay.Gateway.Control.Agents.{
  NewAgent, create_agent, update_agent, set_policy, upsert_row, policy_row, policy_checks,
  new_agent_row,
}
use agentpay.Gateway.Control.Providers.{
  upsert_provider, delete_provider, delete_row, provider_row, provider_update,
}

abbrev pub kept_control {ℓ} : {A : Type ℓ} → Control → Result DbError (A × Control) → Control
kept_control t (ok (a, t')) = t'
kept_control t (err e) = t

find-set_row_other {ℓ} :
    {R : Type ℓ} (key j : Bytes) (f : R → R) (rows : Table R) (row : R)
    → find key rows ≡ some row
    → find key (set_row j f rows) ≡ (if bytes_eq key j then some (f row) else some row)
find-set_row_other key j f rows row e = rw (find-set_row key j f rows, e) refl

or_else-none {ℓ} : {R : Type ℓ} (o : Option R) → or_else o none ≡ o
or_else-none none = refl
or_else-none (some r) = refl

module _ (w : Bytes) (key : Bytes) where
  pub update_agent-foreign :
      (f : AgentRow → AgentRow) (agent_id : Bytes) (t : Control) (row : AgentRow)
      → find key t.agents ≡ some row
      → in_scope (some w) row.workspace_id ≡ false
      → ((update_agent f agent_id (some w) t).0 ≡ true → bytes_eq key agent_id ≡ false)
        × (find key (update_agent f agent_id (some w) t).1.agents ≡ some row)
        × ((update_agent f agent_id (some w) t).1.agent_policies ≡ t.agent_policies)
  unfolding update_agent
  update_agent-foreign f agent_id t row e foreign = elim (Bool-cases (bytes_eq key agent_id)) [
    | inl same ↦
        let at : find agent_id t.agents ≡ some row =
          ap (λ (x : Bytes). find x t.agents) (sym (bytes_eq_sound key agent_id same)) ∙ e in
        rw (at, update_agent, foreign) (λ h. cc, e, refl)
    | inr other ↦ elim (Option-cases (find agent_id t.agents)) [
      | inl absent ↦ rw (absent, update_agent) (λ h. other, e, refl)
      | inr (found, at) ↦ elim (Bool-cases (in_scope (some w) found.workspace_id)) [
        | inl own ↦
            rw (at, update_agent, own)
              (λ h. other, rw (find-set_row_other key agent_id f t.agents row e, other) refl, refl)
        | inr not_own ↦ rw (at, update_agent, not_own) (λ h. other, e, refl)
      ]
    ]
  ]

  pub create_agent-foreign :
      (a : NewAgent) (now : ℤ) (t : Control) (row : AgentRow)
      → find key t.agents ≡ some row
      → (find key (create_agent a (some w) now t).1.agents ≡ some row)
        × ((create_agent a (some w) now t).1.agent_policies ≡ t.agent_policies)
  unfolding create_agent
  create_agent-foreign a now t row e =
      ground (arith, find-insert_row key a.agent_id (new_agent_row a (some w) now) t.agents, e)

  pub upsert_row_other :
      (agent_id : Bytes) (policy : PolicyRow) (rows : Table PolicyRow)
      → bytes_eq key agent_id ≡ false
      → find key (upsert_row agent_id policy rows) ≡ find key rows
  upsert_row_other agent_id policy rows other = elim (Option-cases (find agent_id rows)) [
    | inl absent ↦
        rw (absent, upsert_row, find-insert_row key agent_id policy rows, other)
          (or_else-none (find key rows))
    | inr (old, at) ↦
        rw (at, upsert_row, find-set_row key agent_id (λ (r : PolicyRow). policy) rows, other) refl
  ]

  pub set_policy-foreign :
      (agent_id : Bytes) (mode : AgentMode) (p : AgentPolicy) (t : Control) (row : AgentRow)
      → find key t.agents ≡ some row
      → in_scope (some w) row.workspace_id ≡ false
      → (find key (kept_control t (set_policy agent_id mode p (some w) t)).agents ≡ some row)
        × (find key (kept_control t (set_policy agent_id mode p (some w) t)).agent_policies
            ≡ find key t.agent_policies)
  unfolding set_policy
  set_policy-foreign agent_id mode p t row e foreign =
      let f = λ (r : AgentRow). record r { mode = mode_as_str mode } in
      let (only, stays, policies) = update_agent-foreign f agent_id t row e foreign in
      elim (Bool-cases (update_agent f agent_id (some w) t).0) [
        | inr untouched ↦ rw (untouched, set_policy) (e, refl)
        | inl touched ↦ elim (Result-cases (policy_row p)) [
          | inr (x, bad) ↦ rw (touched, set_policy, bad) (e, refl)
          | inl (stored, good) ↦ elim (Bool-cases (policy_checks stored)) [
            | inr broken ↦ rw (touched, set_policy, good, broken) (e, refl)
            | inl passed ↦
                rw (touched, set_policy, good, passed)
                  (
                    stays,
                    rw policies (upsert_row_other agent_id stored t.agent_policies (only touched)),
                  )
          ]
        ]
      ]

  pub find-delete_row :
      (provider_id : Bytes) (rows : Table ProviderRow)
      → bytes_eq key provider_id ≡ false
      → find key (delete_row provider_id rows) ≡ find key rows
  unfolding find delete_row
  find-delete_row provider_id [] h = refl
  find-delete_row provider_id ((k, row) ∷ rows) h = ground (
    arith,
    find-delete_row provider_id rows h,
    bytes_eq_sound provider_id k,
    bytes_eq_sound key k,
    bytes_eq_refl key,
    h,
  )

  pub in_scope-same_workspace :
      (owner : Option Bytes)
      → in_scope (some w) owner ≡ false
      → same_workspace owner (some w) ≡ false
  in_scope-same_workspace none h = refl
  in_scope-same_workspace (some o) h = elim (Bool-cases (bytes_eq o w)) [
    | inl same ↦ absurd (ground (arith, bytes_eq_sym_true o w same, h))
    | inr other ↦ other
  ]

  pub upsert_provider-foreign :
      (p : ProviderRecord) (t : Control) (row : ProviderRow)
      → find key t.providers ≡ some row
      → in_scope (some w) row.workspace_id ≡ false
      → find key (upsert_provider p (some w) t).providers ≡ some row
  unfolding upsert_provider
  upsert_provider-foreign p t row e foreign = elim (Bool-cases (bytes_eq key p.provider_id)) [
    | inl same ↦
        let at : find p.provider_id t.providers ≡ some row =
          ap (λ (x : Bytes). find x t.providers) (sym (bytes_eq_sound key p.provider_id same))
          ∙ e in
        rw (at, upsert_provider, in_scope-same_workspace row.workspace_id foreign) e
    | inr other ↦ elim (Option-cases (find p.provider_id t.providers)) [
      | inl absent ↦
          rw
            (
              absent,
              upsert_provider,
              find-insert_row key p.provider_id (provider_row p (some w)) t.providers,
              e,
            )
            refl
      | inr (found, at) ↦ elim (Bool-cases (same_workspace found.workspace_id (some w))) [
        | inl own ↦
            rw
              (
                at,
                upsert_provider,
                own,
                find-set_row_other key p.provider_id (provider_update p) t.providers row e,
                other,
              )
              refl
        | inr not_own ↦ rw (at, upsert_provider, not_own) e
      ]
    ]
  ]

  pub delete_provider-foreign :
      (provider_id : Bytes) (t : Control) (row : ProviderRow)
      → find key t.providers ≡ some row
      → in_scope (some w) row.workspace_id ≡ false
      → find key (delete_provider provider_id (some w) t).1.providers ≡ some row
  unfolding delete_provider
  delete_provider-foreign provider_id t row e foreign =
      elim (Bool-cases (bytes_eq key provider_id)) [
        | inl same ↦
            let at : find provider_id t.providers ≡ some row =
              ap (λ (x : Bytes). find x t.providers) (sym (bytes_eq_sound key provider_id same))
              ∙ e in
            rw (at, delete_provider, foreign) e
        | inr other ↦ elim (Option-cases (find provider_id t.providers)) [
          | inl absent ↦ rw (absent, delete_provider) e
          | inr (found, at) ↦ elim (Bool-cases (in_scope (some w) found.workspace_id)) [
            | inl own ↦
                rw (at, delete_provider, own, find-delete_row provider_id t.providers other) e
            | inr not_own ↦ rw (at, delete_provider, not_own) e
          ]
        ]
      ]

  pub update_agent-providers :
      (f : AgentRow → AgentRow) (agent_id : Bytes) (t : Control)
      → (update_agent f agent_id (some w) t).1.providers ≡ t.providers
  unfolding update_agent
  update_agent-providers f agent_id t = ground arith

  pub create_agent-providers :
      (a : NewAgent) (now : ℤ) (t : Control)
      → (create_agent a (some w) now t).1.providers ≡ t.providers
  unfolding create_agent
  create_agent-providers a now t = ground arith

  pub set_policy-providers :
      (agent_id : Bytes) (mode : AgentMode) (p : AgentPolicy) (t : Control)
      → (kept_control t (set_policy agent_id mode p (some w) t)).providers ≡ t.providers
  unfolding set_policy
  set_policy-providers agent_id mode p t =
      let f = λ (r : AgentRow). record r { mode = mode_as_str mode } in
      ground (arith, update_agent-providers f agent_id t)

  pub upsert_provider-agents :
      (p : ProviderRecord) (t : Control)
      → ((upsert_provider p (some w) t).agents ≡ t.agents)
        × ((upsert_provider p (some w) t).agent_policies ≡ t.agent_policies)
  unfolding upsert_provider
  upsert_provider-agents p t = ground arith

  pub delete_provider-agents :
      (provider_id : Bytes) (t : Control)
      → ((delete_provider provider_id (some w) t).1.agents ≡ t.agents)
        × ((delete_provider provider_id (some w) t).1.agent_policies ≡ t.agent_policies)
  unfolding delete_provider
  delete_provider-agents provider_id t = ground arith
