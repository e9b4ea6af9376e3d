-- ===== src/Pool/Pick/Safety.antt =====
-- pick.go: what holds of every account that `pick` answers.
use mathlib.Core.List.{Memᴰ, Permᴰ}
use mathlib.Core.Option.{some-injective}
use workbuddy2plus_plugin.Base.{
  ℕ, String, ◌≡◌, sym, ap, ◌∙◌, inl, inr, true, false, some, List, arith,
}
use workbuddy2plus_plugin.Pool.Types.{Auth, Entry, Pool}
use workbuddy2plus_plugin.Pool.Floats.{Floats}
use workbuddy2plus_plugin.Pool.Health.{in_flight_full, healthy, healthy_for_model}
use workbuddy2plus_plugin.Pool.Health.Deadlines.{healthy-IsFree}
use workbuddy2plus_plugin.Pool.Pick.Fallback.{is_tried, realm_ok}
use workbuddy2plus_plugin.Pool.Pick.Fallback.Earliest.{
  MayFallBack, can_fall_back_iff, pick_earliest_expiry_lem,
}
use workbuddy2plus_plugin.Pool.Pick.Weights.{Weighted}
use workbuddy2plus_plugin.Pool.Pick.{pick, prune_all, healthy_of}
use workbuddy2plus_plugin.Pool.Pick.Outcome.{MaySelect, pick_lem}

-- The account is in play: enabled in both ways, not tried before, of the realm, and not full.
pub record InPlay {F : Type 0} (p : Pool F) (tried : List String) (realm uid : String) (e : Entry F)
    : Type 0 where
  pub enabled : e.disabled ≡ false
  pub manually_enabled : e.manual_disabled ≡ false
  pub untried : is_tried tried uid ≡ false
  pub in_realm : realm_ok realm e ≡ true
  pub has_room : in_flight_full p e ≡ false

module _ {F : Type 0} (p : Pool F) (tried : List String) (now : ℕ) (realm uid : String)
    (e : Entry F) where
  fit-healthy : (model : String) → healthy_of now model e ≡ true → healthy e now ≡ true
  unfolding healthy_for_model
  fit-healthy model h = ground arith

  MaySelect-InPlay :
      (model : String) → MaySelect p tried now model realm uid e → InPlay p tried realm uid e
  MaySelect-InPlay model may =
      let free = healthy-IsFree e now (fit-healthy model may.fit) in
      record {
        enabled = free.enabled;
        manually_enabled = free.manually_enabled;
        untried = may.untried;
        in_realm = may.in_realm;
        has_room = may.has_room;
      }

  MayFallBack-InPlay : MayFallBack p tried now realm uid e → InPlay p tried realm uid e
  MayFallBack-InPlay may = ground arith

-- Whatever `pick` answers is the credential of an account of the pool that is enabled, in both
-- senses, was not tried in this request, is of the realm asked for and has room for a request.
pub pick-InPlay :
    {F : Type 0} (fl : Floats F) (shuffle : List (Weighted F) → List (Weighted F)) (rnd : ℕ → ℕ)
    (now : ℕ) (tried : List String) (model realm : String) (p : Pool F) (a : Auth)
    → ((xs : List (Weighted F)) → Permᴰ (shuffle xs) xs)
    → (pick fl shuffle rnd now tried model realm p).1 ≡ some a
    → (uid : String) × (e : Entry F) × Memᴰ (uid, e) (prune_all now p).by_uid
      × InPlay (prune_all now p) tried realm uid e
      × (a ≡ e.a)
pick-InPlay fl shuffle rnd now tried model realm p a perm got =
    elim (pick_lem fl shuffle rnd now tried model realm perm p) [
      | inl (_, q) ↦ elim (pick_earliest_expiry_lem (prune_all now p) tried now realm) [
        | inl (nothing, _) ↦ cc (ap (λ r. r.1) (q ∙ nothing))
        | inr (uid, e, first, found) ↦ (
          uid,
          e,
          first.member,
          MayFallBack-InPlay _ tried now realm uid e
              ((can_fall_back_iff _ tried now realm uid e).0 first.allowed),
          some-injective _ _ (sym got ∙ ap (λ r. r.1) (q ∙ found)),
        )
      ]
      | inr (uid, e, m, may, tier, q) ↦ (
        uid,
        e,
        m,
        MaySelect-InPlay _ tried now realm uid e model may,
        some-injective _ _ (sym got ∙ ap (λ r. r.1) q),
      )
    ]
