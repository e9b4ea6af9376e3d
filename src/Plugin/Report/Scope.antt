-- ===== src/Plugin/Report/Scope.antt =====
-- plugin/wb_pool.go: what of the pool a report can change.
use workbuddy2plus_plugin.Base.{
  ℕ, ◌-◌, ◌*◌, String, ◌≡◌, sym, ◌≢◌, ◌⊎◌, inl, inr, Bool, true, some, arith, eq_iff, lookup,
}
use mathlib.Core.Path.{subst}
use workbuddy2plus_plugin.Pool.Types.{Entry, Pool, update_entry, minute, cool_hard}
use workbuddy2plus_plugin.Pool.Types.Update.{lookup-update_entry}
use workbuddy2plus_plugin.Pool.Health.{healthy_for_model}
use workbuddy2plus_plugin.Pool.Cooldown.{
  cooldown, cool_entry, cooldown_soft_for_model, cooldown_soft_rate, soft_for_model_entry,
  soft_rate_entry,
}
use workbuddy2plus_plugin.Pool.Cooldown.Soft.{soft_for_model-healthy}
use workbuddy2plus_plugin.Pool.Block.{block_model_backoff, block_entry}
use workbuddy2plus_plugin.Pool.Block.Laws.{block_entry-healthy}
use workbuddy2plus_plugin.Pool.Breaker.{note_error, error_entry}
use workbuddy2plus_plugin.Pool.State.{note_session_dead, session_dead_entry}
use workbuddy2plus_plugin.Plugin.Report.{
  ErrKind, err_none, err_hard_credit, err_soft_rate, err_session_dead, err_not_found, err_server,
  err_content_blocked, err_bad_params, err_account_fault, err_model_blocked, err_waf_block,
  err_prompt_too_long, err_client, next_day_4am, apply_upstream_error,
}

module _ {F : Type 0} (now hour : ℕ) (at_4 : ℕ → ℕ) (auth_id model : String) (limited : Bool)
    (reset_at : ℕ) (p : Pool F) where
  updated_elsewhere :
      (f : Entry F → Entry F) (j : String)
      → auth_id ≢ j
      → lookup j (update_entry auth_id f p).by_uid ≡ lookup j p.by_uid
  updated_elsewhere f j ne = ground (arith, eq_iff auth_id j, lookup-update_entry auth_id j f p)

  -- A report on one account changes no other account, whatever its kind.
  pub apply_upstream_error-lookup :
      (kind : ErrKind) (j : String)
      → auth_id ≢ j
      → lookup j (apply_upstream_error now hour at_4 auth_id model kind limited reset_at p).by_uid
        ≡ lookup j p.by_uid
  unfolding apply_upstream_error block_model_backoff cooldown_soft_for_model cooldown_soft_rate
      note_session_dead note_error cooldown
  apply_upstream_error-lookup err_model_blocked j ne =
      ground (arith, updated_elsewhere (block_entry now model "11102 no such model") j ne)
  apply_upstream_error-lookup err_soft_rate j ne = ground (
    arith,
    updated_elsewhere (soft_for_model_entry p now (10 * minute) reset_at model "6004 model limit") j
        ne,
    updated_elsewhere (soft_rate_entry p now (10 * minute) 0 "rate limited") j ne,
  )
  apply_upstream_error-lookup err_hard_credit j ne = ground (
    arith,
    updated_elsewhere (cool_entry now cool_hard (next_day_4am hour at_4 - now) "credits exhausted")
        j ne,
  )
  apply_upstream_error-lookup err_session_dead j ne =
      ground (arith, updated_elsewhere (λ x. (session_dead_entry x).0) j ne)
  apply_upstream_error-lookup err_server j ne =
      ground (arith, updated_elsewhere (error_entry p now) j ne)
  apply_upstream_error-lookup err_none j ne = ground arith
  apply_upstream_error-lookup err_not_found j ne = ground arith
  apply_upstream_error-lookup err_content_blocked j ne = ground arith
  apply_upstream_error-lookup err_bad_params j ne = ground arith
  apply_upstream_error-lookup err_account_fault j ne = ground arith
  apply_upstream_error-lookup err_waf_block j ne = ground arith
  apply_upstream_error-lookup err_prompt_too_long j ne = ground arith
  apply_upstream_error-lookup err_client j ne = ground arith

  abbrev pub AboutModel : ErrKind → Type 0
  AboutModel kind =
      (kind ≡ err_model_blocked) ⊎ ((kind ≡ err_soft_rate) × (limited ≡ true) × (reset_at ≢ 0))

  updated_here :
      (f : Entry F → Entry F) (e : Entry F)
      → lookup auth_id p.by_uid ≡ some e
      → lookup auth_id (update_entry auth_id f p).by_uid ≡ some (f e)
  updated_here f e at =
      ground (arith, eq_iff auth_id auth_id, lookup-update_entry auth_id auth_id f p)

  -- A report that is about one model, an 11102 or a 6004 limit that names its reset time, leaves
  -- the account selectable for every other model exactly when it was, at every time.
  pub apply_upstream_error-healthy :
      (kind : ErrKind) (e : Entry F)
      → AboutModel kind
      → auth_id ≢ ""
      → model ≢ ""
      → lookup auth_id p.by_uid ≡ some e
      → (e' : Entry F) × (lookup auth_id
            (apply_upstream_error now hour at_4 auth_id model kind limited reset_at p).by_uid
          ≡ some e')
        × ((t : ℕ) (m : String)
            → m ≢ ""
            → model ≢ m
            → healthy_for_model e' t m ≡ healthy_for_model e t m)
  unfolding apply_upstream_error block_model_backoff cooldown_soft_for_model
  apply_upstream_error-healthy kind e (inl is) na nm at =
      let f : Entry F → Entry F = block_entry now model "11102 no such model" in
      (
        f e,
        subst
            (λ k.
              lookup auth_id
                (apply_upstream_error now hour at_4 auth_id model k limited reset_at p).by_uid
              ≡ some (f e))
            (sym is) (ground (arith, eq_iff auth_id "", eq_iff model "", updated_here f e at)),
        λ t m ne other. ground (
          arith,
          eq_iff model m,
          (block_entry-healthy now model "11102 no such model" e t m ne).0,
        ),
      )
  apply_upstream_error-healthy kind e (inr (is, lim, nz)) na nm at =
      let f : Entry F → Entry F =
        soft_for_model_entry p now (10 * minute) reset_at model "6004 model limit" in
      (
        f e,
        subst
            (λ k.
              lookup auth_id
                (apply_upstream_error now hour at_4 auth_id model k limited reset_at p).by_uid
              ≡ some (f e))
            (sym is) (ground (arith, eq_iff auth_id "", eq_iff model "", updated_here f e at)),
        λ t m ne other. ground (
          arith,
          eq_iff model m,
          soft_for_model-healthy p now (10 * minute) reset_at model "6004 model limit" e nz t m ne,
        ),
      )
