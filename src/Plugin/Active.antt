-- ===== src/Plugin/Active.antt =====
-- plugin/active_auth.go: the account that the panel selected, as the text that `activeAuthID` holds.
-- Every operation answers what it picks and what the selection is afterwards.
pub mod Choice
use workbuddy2plus_plugin.Base.{
  String, Bool, not, ◌&&◌, Option, none, some, List, [], ◌∷◌, str_eq, if◌then◌else◌, Dict, lookup,
  insert,
}
use workbuddy2plus_plugin.Upstream.Texts.{trim}

-- `activeAuthCandidate`, and what `ensureDefaultActiveAuth` reads of a `wbAccount`.
pub record Candidate : Type 0 where
  pub id : String
  pub disabled : Bool
  pub exhausted : Bool

abbrev pub usable : Candidate → Bool
usable c = not c.disabled && not c.exhausted

-- `byID`: of two candidates with one id, the later.
unfoldable pub by_id : List Candidate → Dict Candidate → Dict Candidate
by_id [] m = m
by_id (c ∷ cs) m = by_id cs (insert c.id c m)

-- The id of the first candidate that passes a test, or "".
abbrev pub first_id : (Candidate → Bool) → List Candidate → String
first_id t [] = ""
first_id t (c ∷ cs) = if t c then c.id else first_id t cs

-- The same, where an id that is empty does not count: `if x == "" { x = a.AuthID }`.
abbrev pub first_name : (Candidate → Bool) → List Candidate → String
first_name t [] = ""
first_name t (c ∷ cs) = if t c && not (str_eq c.id "") then c.id else first_name t cs

-- The candidate that is selected, unless the selection is empty.
unfoldable pub current : String → List Candidate → Option Candidate
unfolding by_id
current cur cs = if str_eq cur "" then none else lookup cur (by_id cs [])

-- `if next != "" && next != cur { setActiveAuthID(next) }`
unfoldable pub remember : String → String → String → String × String
remember next cur active =
    if not (str_eq next "") && not (str_eq next cur) then (next, trim next) else (next, active)

abbrev pub any_candidate : Candidate → Bool
any_candidate c = Bool.true

unfoldable pub pick_active_auth : String → List Candidate → String × String
unfolding current remember
pick_active_auth active [] = ("", active)
pick_active_auth active (c ∷ cs) =
    let cur = trim active in
    let next = first_id usable (c ∷ cs) in
    elim (current cur (c ∷ cs)) [
      | none ↦ remember (if str_eq next "" then c.id else next) cur active
      | some k ↦
          if usable k
          then (cur, active)
          else if str_eq next ""
          then (cur, active)
          else remember next cur active
    ]

unfoldable pub ensure_default_active_auth : String → List Candidate → String × String
unfolding current remember
ensure_default_active_auth active cs =
    let cur = trim active in
    let ready = first_name usable cs in
    let ok = first_name (λ c. not c.disabled) cs in
    let others = if str_eq ok "" then first_name any_candidate cs else ok in
    elim (current cur cs) [
      | none ↦ remember (if str_eq ready "" then others else ready) cur active
      | some k ↦
          if usable k
          then (cur, active)
          else if not (str_eq ready "")
          then remember ready cur active
          else if not k.disabled
          then (cur, active)
          else remember others cur active
    ]

unfoldable pub clear_active_auth_if_match : String → String → String
clear_active_auth_if_match id active =
    if str_eq (trim id) "" then active else if str_eq active (trim id) then "" else active
