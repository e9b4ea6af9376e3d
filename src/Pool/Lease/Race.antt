-- ===== src/Pool/Lease/Race.antt =====
-- internal/pool/pool.go: the compare-and-swap loops of `Acquire` and `Release` run by any number of
-- concurrent callers on one counter. A limit of 0 is none: a caller then adds to the counter at once.
-- Else it loads the counter, and then swaps it if it is still what was loaded; else it loads again.
use workbuddy2plus_plugin.Base.{
  ℕ, ◌+◌, ◌≤◌, ◌<◌, ◌≡◌, ◌≢◌, ◌⊎◌, inl, inr, List, [], ◌∷◌, arith, All,
}

-- Where one caller stands. `leased` has taken a place and not given it back; `refused` was told
-- that the account is full; `gone` has released.
pub data Caller : Type 0 where
  idle : Caller
  loaded : ℕ → Caller
  leased : Caller
  refused : Caller
  releasing : ℕ → Caller
  gone : Caller

-- How many places a caller holds.
abbrev pub holds : Caller → ℕ
holds idle = 0
holds (loaded n) = 0
holds leased = 1
holds refused = 0
holds (releasing n) = 1
holds gone = 0

abbrev pub held : List Caller → ℕ
held [] = 0
held (c ∷ cs) = holds c + held cs

-- One atomic action of one caller, with the counter before and after it.
pub data Act (limit : ℕ) : ℕ → Caller → ℕ → Caller → Type 0 where
  unlimited : (n m : ℕ) → limit ≡ 0 → m ≡ n + 1 → Act limit n idle m leased
  load : (n : ℕ) → 0 < limit → Act limit n idle n (loaded n)
  full : (n cur : ℕ) → limit ≤ cur → Act limit n (loaded cur) n refused
  swap : (n cur m : ℕ) → cur < limit → n ≡ cur → m ≡ cur + 1 → Act limit n (loaded cur) m leased
  swap_failed : (n cur : ℕ) → cur < limit → n ≢ cur → Act limit n (loaded cur) n idle
  load_release : (n : ℕ) → Act limit n leased n (releasing n)
  nothing_held : (n cur : ℕ) → cur ≡ 0 → Act limit n (releasing cur) n gone
  swap_release :
      (n cur m : ℕ) → 0 < cur → n ≡ cur → cur ≡ m + 1 → Act limit n (releasing cur) m gone
  release_failed : (n cur : ℕ) → 0 < cur → n ≢ cur → Act limit n (releasing cur) n leased

-- The counter and all callers; a step is an action of any one of them.
pub data Step (limit : ℕ) : ℕ → List Caller → ℕ → List Caller → Type 0 where
  here :
      {n m : ℕ} {c d : Caller} (cs : List Caller)
      → Act limit n c m d
      → Step limit n (c ∷ cs) m (d ∷ cs)
  there :
      {n m : ℕ} {cs ds : List Caller} (c : Caller)
      → Step limit n cs m ds
      → Step limit n (c ∷ cs) m (c ∷ ds)

pub data Run (limit : ℕ) (n : ℕ) (cs : List Caller) : ℕ → List Caller → Type 0 where
  start : Run limit n cs n cs
  next :
      {m k : ℕ} {ds es : List Caller}
      → Run limit n cs m ds
      → Step limit m ds k es
      → Run limit n cs k es

-- A caller that gives its place back has loaded a counter that is not 0, and one that is refused was
-- refused by a limit.
abbrev pub HasSound : ℕ → Caller → Type 0
HasSound limit (releasing n) = 0 < n
HasSound limit idle = Unit
HasSound limit (loaded n) = 0 < limit
HasSound limit leased = Unit
HasSound limit refused = 0 < limit
HasSound limit gone = Unit

-- The counter is the number of places held, and no more than the limit, if there is one.
pub record IsSafe (limit n : ℕ) (cs : List Caller) : Type 0 where
  pub counted : n ≡ held cs
  pub within : (limit ≡ 0) ⊎ (n ≤ limit)
  pub sound : All (HasSound limit) cs

Act-counted :
    {limit n m : ℕ} {c d : Caller} (rest : ℕ)
    → Act limit n c m d
    → n ≡ rest + holds c
    → (limit ≡ 0) ⊎ (n ≤ limit)
    → HasSound limit c
    → (m ≡ rest + holds d) × ((limit ≡ 0) ⊎ (m ≤ limit)) × HasSound limit d
Act-counted rest (unlimited n m z e) h w s = (omega arith, inl z, tt)
Act-counted rest (load n l) h w s = (omega arith, w, l)
Act-counted rest (full n cur f) h w s = (omega arith, w, s)
Act-counted rest (swap n cur m lt e f) h w s = (omega arith, inr (omega arith), tt)
Act-counted rest (swap_failed n cur lt ne) h w s = (omega arith, w, tt)
Act-counted rest (load_release n) h w s = (omega arith, w, omega arith)
Act-counted rest (nothing_held n cur z) h w s = absurd (omega arith)
Act-counted rest (swap_release n cur m p e f) h w s = (omega arith, ground arith, tt)
Act-counted rest (release_failed n cur p ne) h w s = (omega arith, w, tt)

Step-counted :
    {limit n m : ℕ} {cs ds : List Caller} (rest : ℕ)
    → Step limit n cs m ds
    → n ≡ rest + held cs
    → (limit ≡ 0) ⊎ (n ≤ limit)
    → All (HasSound limit) cs
    → (m ≡ rest + held ds) × ((limit ≡ 0) ⊎ (m ≤ limit)) × All (HasSound limit) ds
Step-counted rest (here {c = c} {d = d} cs a) h w s =
    let (e, le, sd) = Act-counted (rest + held cs) a (omega arith) w s.0 in
    (omega (arith, e), le, (sd, s.1))
Step-counted rest (there c st) h w s =
    let (e, le, sd) = Step-counted (rest + holds c) st (omega arith) w s.1 in
    (omega (arith, e), le, (s.0, sd))

-- However the atomic actions of any number of callers interleave, the counter stays the number of
-- places held. It never passes the limit, so that no more leases are out at once than the limit,
-- unless the limit is 0, which refuses no caller; and a caller that gives back its place never finds
-- the counter at 0.
pub Run-IsSafe :
    {limit n : ℕ} {cs : List Caller} {m : ℕ} {ds : List Caller}
    → Run limit n cs m ds
    → IsSafe limit n cs
    → IsSafe limit m ds
Run-IsSafe start h = h
Run-IsSafe (next r st) h =
    let safe = Run-IsSafe r h in
    let (e, le, sd) = Step-counted 0 st (omega (arith, safe.counted)) safe.within safe.sound in
    record { counted = omega (arith, e); within = le; sound = sd }
