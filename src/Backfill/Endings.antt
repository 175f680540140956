-- ===== src/Backfill/Endings.antt =====
-- The ways in which a filling ends, and what each says of the database and the chunks.
use stellar_rpc.Prelude.{ℕ, ◌+◌, ◌≡◌, refl, Bool, true, false, List, [], ◌∷◌, inl, inr, arith}
use stellar_rpc.SeqRange.{SeqRange}
use stellar_rpc.Window.{LedgerInfo}
use stellar_rpc.Backfill.{Outside}
use stellar_rpc.Backfill.Tiles.{TilesDown, TilesUp}
use stellar_rpc.Backfill.Edges.{ReachesDown, ReachesUp}
use stellar_rpc.Backfill.Verify.{gap_detected, not_verified, IsConsecutive, Verdict}
use stellar_rpc.Backfill.Run.{Ending, completed, aborted, check_failed, endless}

-- Between the first of the rows and the last a ledger is missing.
abbrev pub HasGap : List LedgerInfo → Type 0
HasGap [] = ⊥
HasGap (r ∷ rs) = IsConsecutive r rs → ⊥

-- What an ending says of the rows at the first check.
abbrev pub Concludes : List LedgerInfo → Ending → Type 0
Concludes first (completed n) = Unit
Concludes first (aborted e) = Unit
Concludes first (check_failed v) = HasGap first
Concludes first endless = ⊥

pub gap_detected-HasGap :
    (rows : List LedgerInfo) (expected got : ℕ)
    → Verdict rows (gap_detected expected got)
    → HasGap rows
gap_detected-HasGap [] expected got v = grind arith
gap_detected-HasGap (r ∷ rs) expected got (inl (run, e)) = grind arith
gap_detected-HasGap (r ∷ rs) expected got (inr (gap, e)) = gap

pub verified : (rows : List LedgerInfo) → Verdict rows not_verified → ⊥
verified [] v = grind arith
verified (r ∷ rs) (inl (run, e)) = grind arith
verified (r ∷ rs) (inr (gap, e)) = grind arith

-- The chunks committed: for a new database they run upwards from `start`, otherwise directly
-- downwards and directly upwards from the ledgers held; P holds for where they begin and end.
abbrev pub Spans : Bool → SeqRange → ℕ → (ℕ → ℕ → Type 0) → List SeqRange → List SeqRange → Type 0
Spans true held start P down up = (top : ℕ) × (down ≡ []) × TilesUp start up top × P start top
Spans false held start P down up =
    (lo : ℕ) × (top : ℕ) × TilesDown held.first down lo × TilesUp (held.last + 1) up top × P lo top

-- A completed filling reaches down to the start of the window of a tip, and above the checkpoint of one.
abbrev pub Completes : Outside → ℕ → ℕ → Ending → ℕ → ℕ → Type 0
Completes o n oldest (completed n') lo top = ReachesDown o n oldest lo × ReachesUp o top
Completes o n oldest (aborted e) lo top = Unit
Completes o n oldest (check_failed v) lo top = Unit
Completes o n oldest endless lo top = ⊥

pub Spans-nothing :
    (new : Bool) (held : SeqRange) (start : ℕ) (P : ℕ → ℕ → Type 0)
    → ((lo top : ℕ) → P lo top)
    → Spans new held start P [] []
Spans-nothing true held start P h = (start, refl, refl, h start start)
Spans-nothing false held start P h =
    (held.first, held.last + 1, refl, refl, h held.first (held.last + 1))
