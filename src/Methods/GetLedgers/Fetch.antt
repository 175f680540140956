-- ===== src/Methods/GetLedgers/Fetch.antt =====
-- `fetchLedgers` puts together one run of ledgers from its two sources.
use stellar_rpc.Prelude.{
  ℕ, ◌+◌, ◌-◌, ◌≤◌, ◌<◌, ◌≡◌, ◌⊎◌, refl, sym, ap, ◌∙◌, Bool, true, some, List, [], ◌∷◌, ◌++◌, ◌&&◌,
  inl, inr, arith, ltb, leb, leb→le, leb→lt, ltb→lt, ltb→le, lt→leb, le→ltb, Bool-cases, length,
  length-append, u32, sub32, u32_mod, min, max, append_assoc, append-nil,
}
use mathlib.Core.Path.{subst}
use stellar_rpc.Window.{LedgerInfo}
use stellar_rpc.LedgerStore.{select, batch_get_ledgers}
use stellar_rpc.DatastoreReader.{LedgerReader}
use stellar_rpc.Methods.{ok}
use stellar_rpc.Methods.GetLedgers.{
  Handler, add_to_result, meta_to_chunk, fetch_from_local_db, fetch_from_datastore, fetch_ledgers,
}

-- Ledgers with the sequences n, n + 1, ...
abbrev pub RunFrom : ℕ → List LedgerInfo → Type 0
RunFrom n [] = Unit
RunFrom n (l ∷ ls) = (l.sequence ≡ n) × RunFrom (n + 1) ls

pub RunFrom-append :
    (n : ℕ) (xs ys : List LedgerInfo)
    → RunFrom n xs
    → RunFrom (n + length xs) ys
    → RunFrom n (xs ++ ys)
RunFrom-append n [] ys h k = subst (λ m. RunFrom m ys) (omega arith) k
RunFrom-append n (x ∷ xs) ys h k =
    (h.0, RunFrom-append (n + 1) xs ys h.1 (subst (λ m. RunFrom m ys) (omega arith) k))

-- The ledgers n to m - 1.
abbrev pub RunTo : ℕ → ℕ → List LedgerInfo → Type 0
RunTo n m ls = RunFrom n ls × (n + length ls ≡ m)

abbrev pub in_range : ℕ → ℕ → List LedgerInfo → List LedgerInfo
in_range lo hi = select (λ x. leb lo x.sequence && leb x.sequence hi)

RunFrom-nil : (n : ℕ) (ls : List LedgerInfo) → length ls ≡ 0 → RunFrom n ls
RunFrom-nil n [] h = tt
RunFrom-nil n (l ∷ ls) h = absurd (omega arith)

-- The part of a run that lies in a range.
in_range-RunFrom :
    (lo hi n : ℕ) (ls : List LedgerInfo)
    → RunFrom n ls
    → RunFrom (max n lo) (in_range lo hi ls)
      × (length (in_range lo hi ls) ≡ min (n + length ls) (hi + 1) - max n lo)
unfolding select
in_range-RunFrom lo hi n [] h = (tt, omega arith)
in_range-RunFrom lo hi n (l ∷ ls) (e, h) =
    let (run, len) = in_range-RunFrom lo hi (n + 1) ls h in
    elim (Bool-cases (leb lo n)) [
      | inr below ↦
          let gt = leb→lt _ _ below in
          rw (e, below) (subst (λ m. RunFrom m (in_range lo hi ls)) (omega arith) run, omega arith)
      | inl from ↦ elim (Bool-cases (leb n hi)) [
        | inr above ↦
            let le = leb→le _ _ from in
            let gt = leb→lt _ _ above in
            rw (e, from, above)
              (RunFrom-nil (max n lo) (in_range lo hi ls) (omega arith), omega arith)
        | inl upto ↦
            let le = leb→le _ _ from in
            let le' = leb→le _ _ upto in
            rw (e, from, upto)
              (
                (omega arith, subst (λ m. RunFrom m (in_range lo hi ls)) (omega arith) run),
                omega arith,
              )
      ]
    ]

-- The reader has every ledger from 2 to below `first`.
abbrev pub Serves : LedgerReader → ℕ → Type 0
Serves reader first =
    (s e : ℕ)
    → 2 ≤ s
    → s ≤ e
    → e < first
    → (ls : List LedgerInfo) × (reader.get_ledgers s e ≡ some ls) × RunTo s (e + 1) ls

-- Every ledger can be serialized and rendered.
abbrev pub Renders : Handler → Type 0
Renders h =
    ((is_json : Bool) (l : LedgerInfo) → h.formats is_json l ≡ true)
    × ((l : LedgerInfo) → h.marshals l ≡ true)

-- Where a ledger before the local ones can come from.
abbrev pub Reaches : Handler → ℕ → ℕ → Type 0
Reaches h first start =
    (first ≤ start)
    ⊎ ((reader : LedgerReader) × (h.datastore ≡ some reader) × Serves reader first × (2 ≤ start))

module _ (h : Handler) (is_json : Bool) (renders : Renders h) where
  add_to_result-all :
      (limit : ℕ) (result chunks : List LedgerInfo)
      → length result + length chunks ≤ limit
      → add_to_result h is_json limit result chunks ≡ ok (result ++ chunks)
  unfolding add_to_result
  add_to_result-all limit result [] room = ap ok (sym (append-nil result))
  add_to_result-all limit result (c ∷ cs) room =
      rw (lt→leb limit (length result) (omega arith), renders.0 is_json c)
        (add_to_result-all limit (result ++ (c ∷ [])) cs
            (omega (arith, length-append result (c ∷ [])))
          ∙ ap ok (append_assoc result (c ∷ []) cs))

  meta_to_chunk-all : (ls : List LedgerInfo) → meta_to_chunk h ls ≡ some ls
  unfolding meta_to_chunk
  meta_to_chunk-all [] = refl
  meta_to_chunk-all (l ∷ ls) = rw (renders.1 l, meta_to_chunk-all ls) refl

  local-RunTo :
      (limit f start end : ℕ) (rows result : List LedgerInfo)
      → RunFrom f rows
      → f ≤ start
      → start < f + length rows
      → start ≤ end
      → length result + (end + 1 - start) ≤ limit
      → (ls : List LedgerInfo) × (fetch_from_local_db h is_json limit rows start end result
          ≡ ok (result ++ ls))
        × RunTo start (min (end + 1) (f + length rows)) ls
  unfolding fetch_from_local_db batch_get_ledgers
  local-RunTo limit f start end rows result run low high ordered room =
      let (part, len) = in_range-RunFrom start end f rows run in
      let all = add_to_result-all limit result (in_range start end rows) (omega arith) in
      (
        in_range start end rows,
        rw (le→ltb end start ordered, all, fetch_from_local_db) refl,
        (subst (λ m. RunFrom m (in_range start end rows)) (omega arith) part, omega arith),
      )

  datastore-RunTo :
      (limit f start end : ℕ) (reader : LedgerReader)
      → h.datastore ≡ some reader
      → Serves reader f
      → 2 ≤ start
      → start ≤ end
      → end < f
      → end + 1 - start ≤ limit
      → (ls : List LedgerInfo) × (fetch_from_datastore h is_json limit start end [] ≡ ok ls)
        × RunTo start (end + 1) ls
  unfolding fetch_from_datastore meta_to_chunk add_to_result
  datastore-RunTo limit f start end reader configured serves low ordered high room =
      let (ls, got, run) = serves start end low ordered high in
      (
        ls,
        rw (configured, got, meta_to_chunk-all ls, fetch_from_datastore)
            (add_to_result-all limit [] ls (omega (arith, run.1))),
        run,
      )

  pub fetch_ledgers-RunTo :
      (start end last f : ℕ) (rows : List LedgerInfo)
      → RunFrom f rows
      → 0 < f
      → start < f + length rows
      → start ≤ end
      → end + 1 < u32_mod
      → 0 < length rows
      → Reaches h f start
      → (ls : List LedgerInfo) × (fetch_ledgers h rows start end is_json
            (record { first_ledger = f; last_ledger = last })
          ≡ ok ls)
        × RunTo start (min (end + 1) (f + length rows)) ls
  unfolding fetch_ledgers
  fetch_ledgers-RunTo start end last f rows run f0 high ordered room some_rows reaches =
      let limit = u32 (sub32 end start + 1) in
      elim (Bool-cases (leb f start)) [
        | inl here ↦
            let le = leb→le _ _ here in
            let (ls, got, part) =
              local-RunTo limit f start end rows [] run le high ordered (omega arith) in
            (ls, rw (here, fetch_ledgers) got, part)
        | inr before ↦ elim reaches [
          | inl le ↦ absurd (omega (arith, leb→lt _ _ before))
          | inr (reader, configured, serves, low) ↦
              let lt = leb→lt _ _ before in
              elim (Bool-cases (ltb end f)) [
                | inl remote ↦
                    let lt' = ltb→lt _ _ remote in
                    let (ls, got, part) =
                      datastore-RunTo limit f start end reader configured serves low ordered lt'
                        (omega arith) in
                    (ls, rw (before, remote, fetch_ledgers) got, (part.0, omega arith))
                | inr both ↦
                    let ge = ltb→le _ _ both in
                    let (ls, got, part) =
                      datastore-RunTo limit f start (sub32 f 1) reader configured serves low
                        (omega arith) (omega arith) (omega arith) in
                    let (ls', got', part') =
                      local-RunTo limit f f end rows ls run (omega arith) (omega arith) ge
                        (omega (arith, part.1)) in
                    (
                      ls ++ ls',
                      rw (before, both, got, got', fetch_ledgers) refl,
                      (
                        RunFrom-append start ls ls' part.0
                            (subst (λ m. RunFrom m ls') (omega (arith, part.1)) part'.0),
                        omega (arith, part.1, part'.1, length-append ls ls'),
                      ),
                    )
              ]
        ]
      ]
