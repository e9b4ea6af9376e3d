-- ===== src/Upstream/Aggregate/Merge.antt =====
-- internal/upstream/sse.go: the merging of the fragments of tool calls always ends, and puts the
-- arguments of each call together.
use workbuddy2plus_plugin.Base.{
  ℕ, suc, zero, ◌+◌, ◌≤◌, ◌<◌, ◌≡◌, refl, sym, ap, ◌∙◌, ℤ, pos, negsuc, inl, inr, Bool, true, false,
  Option, none, some, List, [], ◌∷◌, if◌then◌else◌, leb, length, Bool-cases, Option-cases, arith,
}
use workbuddy2plus_plugin.Upstream.Frames.{same_index}
use workbuddy2plus_plugin.Upstream.Aggregate.Calls.{call_at, is_used, next_tool_index}

-- How many of the indices are at least `seq`.
abbrev from : ℤ → ℕ → ℕ
from (pos n) seq = if leb seq n then 1 else 0
from (negsuc n) seq = 0

from-suc : (idx : ℤ) (seq : ℕ) → from idx (seq + 1) ≤ from idx seq
from-suc (pos n) seq = ground arith
from-suc (negsuc n) seq = omega arith

from-same :
    (idx : ℤ) (seq : ℕ) → same_index idx (pos seq) ≡ true → from idx (seq + 1) < from idx seq
from-same (pos n) seq h = ground arith
from-same (negsuc n) seq h = cc

from-le : (idx : ℤ) (seq : ℕ) → from idx seq ≤ 1
from-le (pos n) seq = ground arith
from-le (negsuc n) seq = omega arith

module _ {V : Type 0} where
  abbrev ahead : ℕ → List (ℤ × V) → ℕ
  ahead seq [] = 0
  ahead seq ((idx, v) ∷ rest) = from idx seq + ahead seq rest

  ahead-suc : (seq : ℕ) (calls : List (ℤ × V)) → ahead (seq + 1) calls ≤ ahead seq calls
  ahead-suc seq [] = omega arith
  ahead-suc seq ((idx, v) ∷ rest) = omega (arith, from-suc idx seq, ahead-suc seq rest)

  call_at-skip :
      (idx : ℤ) (v : V) (rest : List (ℤ × V)) (i : ℤ)
      → same_index idx i ≡ false
      → call_at i ((idx, v) ∷ rest) ≡ call_at i rest
  unfolding call_at
  call_at-skip idx v rest i n = rw n refl

  is_used-skip :
      (idx : ℤ) (v : V) (rest : List (ℤ × V)) (i : ℤ)
      → same_index idx i ≡ false
      → is_used ((idx, v) ∷ rest) i ≡ is_used rest i
  is_used-skip idx v rest i n =
      ap (λ o. elim o as (λ x. Bool) [ none ↦ false | some w ↦ true ]) (call_at-skip idx v rest i n)

  -- A used index is one that the search leaves behind.
  ahead-used :
      (seq : ℕ) (calls : List (ℤ × V))
      → is_used calls (pos seq) ≡ true
      → ahead (seq + 1) calls < ahead seq calls
  unfolding call_at
  ahead-used seq [] h = cc
  ahead-used seq ((idx, v) ∷ rest) h = elim (Bool-cases (same_index idx (pos seq))) [
    | inl y ↦ omega (arith, from-same idx seq y, ahead-suc seq rest)
    | inr n ↦ omega (
      arith,
      from-suc idx seq,
      ahead-used seq rest (sym (is_used-skip idx v rest (pos seq) n) ∙ h),
    )
  ]

  ahead-le : (seq : ℕ) (calls : List (ℤ × V)) → ahead seq calls ≤ length calls
  ahead-le seq [] = omega arith
  ahead-le seq ((idx, v) ∷ rest) = omega (arith, from-le idx seq, ahead-le seq rest)

  abbrev pub IsFresh : List (ℤ × V) → ℕ → Option (ℕ × ℕ) → Type 0
  IsFresh calls seq result =
      (i : ℕ) × (result ≡ some (i, i + 1)) × (seq ≤ i) × (call_at (pos i) calls ≡ none)

  unused : (calls : List (ℤ × V)) (idx : ℤ) → is_used calls idx ≡ false → call_at idx calls ≡ none
  unused calls idx h = elim (Option-cases (call_at idx calls)) [
    | inl e ↦ e
    | inr (v, e) ↦
        let z : true ≡ false =
          sym (ap (λ o. elim o as (λ x. Bool) [ none ↦ false | some w ↦ true ]) e) ∙ h in
        cc
  ]

  next-IsFresh :
      (fuel : ℕ) (calls : List (ℤ × V)) (seq : ℕ)
      → ahead seq calls < fuel
      → IsFresh calls seq (next_tool_index fuel calls seq)
  unfolding next_tool_index
  next-IsFresh zero calls seq h = absurd (omega arith)
  next-IsFresh (suc fuel) calls seq h = elim (Bool-cases (is_used calls (pos seq))) [
    | inl y ↦
        let ih = next-IsFresh fuel calls (seq + 1) (omega (arith, ahead-used seq calls y)) in
        rw (y, next_tool_index) (ih.0, ih.1, omega (arith, ih.2), ih.3)
    | inr n ↦ rw (n, next_tool_index) (seq, refl, omega arith, unused calls (pos seq) n)
  ]

  -- The search for a free index ends with the fuel that it is given, and what it finds is an index of
  -- no call so far, at or after `toolSeq`.
  pub next_tool_index_lem :
      (calls : List (ℤ × V)) (seq : ℕ)
      → IsFresh calls seq (next_tool_index (suc (length calls)) calls seq)
  next_tool_index_lem calls seq =
      next-IsFresh (suc (length calls)) calls seq (omega (arith, ahead-le seq calls))
