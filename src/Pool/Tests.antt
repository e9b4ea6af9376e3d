-- ===== src/Pool/Tests.antt =====
-- Concrete accounts and pools, and runs of the operations on them.
pub mod Selection
pub mod Cooldowns
pub mod Accounts
use mathlib.Core.List.{Permᴰ}
use mathlib.Core.List.Permᴰ
use workbuddy2plus_plugin.Base.{
  ℕ, zero, suc, ◌+◌, ◌-◌, ◌*◌, ◌/◌, ◌%◌, ◌^◌, ◌≤◌, ◌<◌, min, String, ◌≡◌, refl, sym, ap, ◌∙◌, ◌≢◌,
  ◌↔◌, ◌⊎◌, inl, inr, Bool, true, false, not, ◌&&◌, ◌||◌, Option, none, some, List, [], ◌∷◌, ◌++◌,
  map, arith, str_eq, starts_with, eq_iff, ltb, leb, ◌==◌, if◌then◌else◌, ltb→lt, lt→ltb, leb→le,
  le→leb, ==_iff, tests, Bool-cases, Option-cases, ℤ, pos, negsuc, pos_part, neg_part, sub_ℕ, ◌-ℤ◌,
  ◌≤ℤ◌, ltb_ℤ, length, take, keep, All, All-append, All-take, every, some_of, insert_sorted,
  sort_stable, Dict, lookup, insert, delete, lookup-insert, lookup-delete, All-map_pred, All-Mem,
  Mem-All, All-keep, keep-passes, All-insert_sorted, All-sort_stable, All-perm, length-perm,
  length-insert_sorted, length-sort_stable, some_of-Mem, All-and, HasUniqueKeys,
  HasUniqueKeys-insert, lookup-Mem, lookup-map, HasUniqueKeys-map, lookup-keep,
}
use workbuddy2plus_plugin.Pool.Types.{
  Auth, cool_soft, ModelCooldown, Entry, Pool, new_entry, new, hour, minute,
}
use workbuddy2plus_plugin.Pool.Floats.{Floats}
use workbuddy2plus_plugin.Pool.Pick.Weights.{Weighted}

-- Whole numbers in the place of floats.
abbrev pub whole : Floats ℕ
whole = record {
  ratio = λ n m. n / m;
  of_int = pos_part;
  to_int = pos;
  add = λ x y. x + y;
  sub = λ x y. x - y;
  mul = λ x y. x * y;
  div = λ x y. x / y;
  lt = ltb;
  le = leb;
  eq = ◌==◌;
}

abbrev pub unshuffled : List (Weighted ℕ) → List (Weighted ℕ)
unshuffled xs = xs

pub unshuffled-Perm : (xs : List (Weighted ℕ)) → Permᴰ (unshuffled xs) xs
unshuffled-Perm xs = Permᴰ.refl xs

abbrev pub low : ℕ → ℕ
low n = 0

abbrev pub ann : Auth
ann = record { uid = "ann"; nickname = "Ann"; realm = "cn" }

abbrev pub bob : Auth
bob = record { uid = "bob"; nickname = "Bob"; realm = "cn" }

abbrev pub noon : ℕ
noon = 12 * hour

abbrev pub fresh : Entry ℕ
unfolding new_entry
fresh = record (new_entry ann) { credits = pos 100; credits_expiring = pos 40 }

abbrev pub stopped : Entry ℕ
unfolding new_entry
stopped = record (new_entry bob) { credits = pos 900; manual_disabled = true }

-- In a soft cooldown for the next half hour.
abbrev pub cooled : Entry ℕ
unfolding new_entry
cooled = record (new_entry bob) {
  credits = pos 50;
  cool_kind = cool_soft;
  until = noon + 30 * minute;
  soft_streak = 2;
}

abbrev pub blocked_row : ModelCooldown
blocked_row = record { until = noon + hour; reset_at = 0; reason = "11102"; hits = 1 }

-- Barred from one model.
abbrev pub barred : Entry ℕ
unfolding new_entry
barred = record (new_entry ann) { credits = pos 100; model_cooldowns = ("gpt", blocked_row) ∷ [] }

abbrev pub empty : Pool ℕ
unfolding new
empty = new "" 1 5

abbrev pub open_pool : Pool ℕ
open_pool = record empty { by_uid = ("ann", fresh) ∷ ("bob", stopped) ∷ [] }

abbrev pub cooled_pool : Pool ℕ
cooled_pool = record empty { by_uid = ("ann", record stopped { a = ann }) ∷ ("bob", cooled) ∷ [] }

abbrev pub barred_pool : Pool ℕ
barred_pool = record empty { by_uid = ("ann", barred) ∷ [] }

pub fresh_uid : fresh.a.uid ≡ "ann"
unfolding fresh
fresh_uid = refl

pub stopped_uid : stopped.a.uid ≡ "bob"
unfolding stopped
stopped_uid = refl
