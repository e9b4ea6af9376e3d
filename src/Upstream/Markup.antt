-- ===== src/Upstream/Markup.antt =====
-- internal/upstream/dsml.go: the tool calls that a model writes into its text as markup. `feed` is
-- `Feed` with `enabled`; Markup/Block reads the inside of a block. A string is its code points, which
-- is what a text decoded from JSON has; `len` counts its bytes.
pub mod Scan
pub mod Block
pub mod Scanned
pub mod Consumed
pub mod Permitted
pub mod Turns
pub mod Explained
pub mod Lossless
pub mod Response
pub mod Allowlist
use Prim.Native.String.{len}
use workbuddy2plus_plugin.Base.{
  ℕ, suc, zero, ◌+◌, ◌*◌, String, Bool, true, false, ◌&&◌, ◌||◌, Option, none, some, List, [], ◌∷◌,
  ◌++◌, ltb, leb, if◌then◌else◌, length, starts_with, ◌==◌,
}
use mathlib.Core.Option
use workbuddy2plus_plugin.Upstream.Markup.Scan.{◌<>◌, cut, count, code, after}
use workbuddy2plus_plugin.Upstream.Markup.Block.{MarkupCall, Codec, markup_pipe, parse_block}

abbrev pub markup_open : String
markup_open = "<｜｜DSML｜｜ calls>"

abbrev pub markup_close : String
markup_close = "</｜｜DSML｜｜ calls>"

abbrev pub max_block_bytes : ℕ
max_block_bytes = 256 * 1024

pub record Repair : Type 0 where
  pub allowed : List String
  pub allow_unknown : Bool
  pub hold : String
  pub in_block : Bool
  pub seen : ℕ
  pub rejected : ℕ
  pub converted : ℕ

unfoldable pub new_repair : List String → Bool → Repair
new_repair allowed allow_unknown = record {
  allowed = allowed;
  allow_unknown = allow_unknown;
  hold = "";
  in_block = false;
  seen = 0;
  rejected = 0;
  converted = 0;
}

unfoldable pub enabled : Repair → Bool
enabled r = ltb 0 (length r.allowed) || r.allow_unknown

-- Whether `rest` begins with the whole opening tag, or is a beginning of it.
unfoldable pub may_start : String → Bool
may_start rest =
    if leb (len markup_open) (len rest)
    then starts_with rest markup_open
    else starts_with markup_open rest

-- `markupStartCandidate`, whose index is given as the halves of the text before and from it.
unfoldable pub start_candidate : String → Option (String × String)
unfolding may_start
start_candidate String.[] = none
start_candidate (String.◌∷◌ c s) =
    if (code c == b'<') && may_start (String.◌∷◌ c s)
    then some ("", String.◌∷◌ c s)
    else Option.map (λ p. (String.◌∷◌ c p.0, p.1)) (start_candidate s)

-- How a turn of the loop of `Feed` ends: by `break`, or by another turn on a rest of the text. It
-- carries the text that the turn wrote, and the calls that it found.
pub data FeedTurn : Type 0 where
  stop : Repair → String → FeedTurn
  again : Repair → String → String → List MarkupCall → FeedTurn

pub record Fed : Type 0 where
  pub repair : Repair
  pub emit : String
  pub calls : List MarkupCall

unfoldable pub put_before : String → List MarkupCall → Fed → Fed
put_before out cs o = record o { emit = out <> o.emit; calls = cs ++ o.calls }

unfoldable pub turn_outside : Repair → String → FeedTurn
unfolding start_candidate after
turn_outside r s = elim (start_candidate s) [
  | none ↦ stop r s
  | some (a, rest) ↦
      if ltb (len rest) (len markup_open)
      then stop (record r { hold = rest }) a
      else again (record r { in_block = true }) (after markup_open rest) a []
]

-- What follows on a turn, where `more` is the rest of the loop.
unfoldable pub follow_turn : (Repair → String → Option Fed) → FeedTurn → Option Fed
unfolding put_before
follow_turn more (stop r out) = some (record { repair = r; emit = out; calls = [] })
follow_turn more (again r rest out cs) = Option.map (put_before out cs) (more r rest)

module _ {F : Type 0} (codec : Codec F) where
  -- What becomes of a closed block.
  unfoldable pub close_block : Repair → String → String → FeedTurn
  unfolding parse_block
  close_block r inner rest = elim (parse_block codec inner r.allowed) [
    | some got ↦
        again
          (record r { in_block = false; seen = r.seen + 1; converted = r.converted + length got })
          rest "" got
    | none ↦
        again (record r { in_block = false; seen = r.seen + 1; rejected = r.rejected + 1 }) rest
          (markup_open <> (inner <> markup_close)) []
  ]

  unfoldable pub turn_inside : Repair → String → FeedTurn
  unfolding close_block
  turn_inside r s = elim (cut markup_close s) [
    | none ↦
        if ltb max_block_bytes (len s)
        then stop (record r { in_block = false }) (markup_open <> s)
        else stop (record r { hold = s }) ""
    | some (inner, rest) ↦ close_block r inner rest
  ]

  unfoldable pub feed_turn : Repair → String → FeedTurn
  unfolding turn_inside turn_outside
  feed_turn r s = if r.in_block then turn_inside r s else turn_outside r s

  -- The loop, with fuel; `none` is that the fuel ran out.
  unfoldable pub feed_loop : ℕ → Repair → String → Option Fed
  unfolding feed_turn follow_turn
  feed_loop zero r s = none
  feed_loop (suc fuel) r s = follow_turn (feed_loop fuel) (feed_turn r s)

  unfoldable pub feed : Repair → String → Option Fed
  unfolding feed_loop enabled
  feed r t =
      if enabled r
      then feed_loop (suc (count (r.hold <> t))) (record r { hold = "" }) (r.hold <> t)
      else some (record { repair = r; emit = t; calls = [] })

  -- A response in pieces: one `Feed` after the other.
  unfoldable pub feed_all : Repair → List String → Option Fed
  unfolding feed put_before
  feed_all r [] = some (record { repair = r; emit = ""; calls = [] })
  feed_all r (t ∷ ts) = elim (feed r t) [
    | none ↦ none
    | some o ↦ Option.map (put_before o.emit o.calls) (feed_all o.repair ts)
  ]

unfoldable pub flush : Repair → String × Repair
unfolding enabled
flush r =
    if enabled r
    then (
      (if r.in_block then markup_open <> r.hold else r.hold),
      record r { hold = ""; in_block = false },
    )
    else ("", r)
