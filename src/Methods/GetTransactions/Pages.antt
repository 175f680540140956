-- ===== src/Methods/GetTransactions/Pages.antt =====
-- A whole page of `getTransactions`.
use stellar_rpc.Prelude.{
  ◌⊎◌, inl, inr, Bool-cases, leb, leb→lt, leb→le, ℕ, suc, ◌+◌, ◌-◌, ◌≤◌, ◌<◌, ◌≡◌, refl, sym, ap,
  ◌∙◌, Bool, true, List, [], ◌∷◌, ◌++◌, append_assoc, arith, ◌==◌, ne→==, ==_refl, length,
  length-append, take, drop,
}
use mathlib.Core.Path.{subst}
use stellar_rpc.Window.{LedgerInfo, LedgerRange, to_ledger_seq_range}
use stellar_rpc.LedgerStore.{LedgerStore, ranged, get_ledger, select, last_row}
use stellar_rpc.LedgerStore.Coherent.{IsCoherent}
use stellar_rpc.LedgerStore.Rows.{ends_of}
use stellar_rpc.Methods.{Result, ok}
use stellar_rpc.Methods.GetLedgers.{tx_ledger_range}
use stellar_rpc.Methods.GetLedgers.Fetch.{RunFrom}
use stellar_rpc.Methods.GetLedgers.Page.{tx_ledger_range_lem, last_row_run}
use stellar_rpc.Methods.GetTransactions.{
  Handler, Int32, pos, int32, Toid, LedgerTransaction, TransactionInfo, Request, Response,
  page_from, initialize_pagination, get_transactions, rounds_to,
}
use stellar_rpc.Methods.GetTransactions.Process.{Readable, infos_from}
use stellar_rpc.Methods.GetTransactions.Loop.{Stored, flat, Resumes, first-PageOf, int32-pos}

-- Each ledger of a run of consecutive ones is found.
select-later :
    (k n : ℕ) (ls : List LedgerInfo) → k < n → RunFrom n ls → select (λ x. x.sequence == k) ls ≡ []
unfolding select
select-later k n [] lt run = refl
select-later k n (x ∷ xs) lt run =
    rw (run.0, ne→== n k (omega arith)) (select-later k (n + 1) xs (omega arith) run.1)

select-run :
    (n : ℕ) (before after : List LedgerInfo) (l : LedgerInfo)
    → RunFrom n (before ++ (l ∷ after))
    → (n ≤ l.sequence) × (select (λ x. x.sequence == l.sequence) (before ++ (l ∷ after)) ≡ l ∷ [])
unfolding select
select-run n [] after l run = (
  omega (arith, run.0),
  rw (==_refl l.sequence)
      (ap (◌∷◌ l) (select-later l.sequence (n + 1) after (omega (arith, run.0)) run.1)),
)
select-run n (x ∷ xs) after l run =
    let (le, rest) = select-run (n + 1) xs after l run.1 in
    (omega arith, rw (ne→== x.sequence l.sequence (omega (arith, run.0))) rest)

run-Stored :
    (s : LedgerStore) (n : ℕ) (before ls : List LedgerInfo)
    → s.rows ≡ before ++ ls
    → RunFrom n (before ++ ls)
    → Stored s ls
unfolding get_ledger
run-Stored s n before [] place run = tt
run-Stored s n before (l ∷ ls) place run =
    let (le, one) = select-run n before ls l run in
    let moved = sym (append_assoc before (l ∷ []) ls) in
    (
      rw (place, one) refl,
      run-Stored s n (before ++ (l ∷ [])) ls (place ∙ moved) (subst (RunFrom n) moved run),
    )

RunFrom-drop :
    (n : ℕ) (before ls : List LedgerInfo)
    → RunFrom n (before ++ ls)
    → RunFrom (n + length before) ls
RunFrom-drop n [] ls run = subst (λ k. RunFrom k ls) (omega arith) run
RunFrom-drop n (x ∷ xs) ls run =
    subst (λ k. RunFrom k ls) (omega arith) (RunFrom-drop (n + 1) xs ls run.1)

abbrev pub no_id : Toid
no_id = record { ledger_sequence = pos 0; transaction_order = 0; operation_order = 0 }

abbrev pub whole_loop :
    Handler → LedgerStore → Bool → Toid → ℕ → Int32 → Int32 → Result (Toid × List TransactionInfo)
whole_loop h s is_json start limit last from =
    page_from h s is_json start limit last (rounds_to last from) from no_id []

pub get_transactions-steps :
    (h : Handler) (s : LedgerStore) (request : Request) (range : LedgerRange) (start cursor : Toid)
    (limit : ℕ) (txns : List TransactionInfo)
    → tx_ledger_range true s ≡ ranged range
    → h.is_valid request h.max_limit (to_ledger_seq_range range) ≡ true
    → initialize_pagination h request ≡ ok (start, limit)
    → whole_loop h s request.is_json start limit
        (int32 range.last_ledger.sequence)
        start.ledger_sequence
      ≡ ok (cursor, txns)
    → get_transactions h true s request
      ≡ ok (record {
        transactions = txns;
        latest_ledger = range.last_ledger;
        oldest_ledger = range.first_ledger;
        cursor = h.to_text cursor;
      })
unfolding get_transactions
get_transactions-steps h s request range start cursor limit txns known valid paged looped =
    rw (known, valid, paged, looped) refl

-- A page of transactions, of a table `rows` from a position in ledger `l`, which `after` follow: the
-- first `limit` of all from there on; where there are as many, those after the cursor are the rest.
pub record IsPage (h : Handler) (txs : LedgerInfo → List LedgerTransaction) (rows : List LedgerInfo)
    (limit k : ℕ) (l : LedgerInfo) (after : List LedgerInfo) (response : Response) : Type 0 where
  pub transactions : response.transactions ≡ take limit (infos_from k l (txs l) ++ flat txs after)
  pub cursor : Toid
  pub text : response.cursor ≡ h.to_text cursor
  pub resumes :
      (length (infos_from k l (txs l) ++ flat txs after) < limit)
      ⊎ Resumes txs rows cursor (drop limit (infos_from k l (txs l) ++ flat txs after))

-- A valid request for transactions from the k-th of a stored ledger on is answered with the first
-- `limit` of them in the order of the ledgers, and with a cursor after which the rest are, if there were
-- as many. The local ledgers are a run below 2^31 - 1 that the cache agrees with, and their transactions
-- can be read, parsed and rendered.
pub get_transactions-IsPage :
    (h : Handler) (s : LedgerStore) (request : Request) (txs : LedgerInfo → List LedgerTransaction)
    (r : LedgerInfo) (rs before after : List LedgerInfo) (l : LedgerInfo) (start : Toid) (limit : ℕ)
    → IsCoherent s
    → s.rows ≡ r ∷ rs
    → r ∷ rs ≡ before ++ (l ∷ after)
    → RunFrom r.sequence (r ∷ rs)
    → (last_row r rs).sequence < 2147483647
    → ((x : LedgerInfo) → Readable h request.is_json x (txs x))
    → h.is_valid request h.max_limit
        (record { first_ledger = r.sequence; last_ledger = (last_row r rs).sequence })
      ≡ true
    → initialize_pagination h request ≡ ok (start, limit)
    → start.ledger_sequence ≡ pos l.sequence
    → 0 < start.transaction_order
    → 0 < limit
    → limit < 9223372036854775808
    → (response : Response) × (get_transactions h true s request ≡ ok response)
      × IsPage h txs (r ∷ rs) limit start.transaction_order l after response
unfolding get_transactions to_ledger_seq_range
get_transactions-IsPage h s request txs r rs before after l start limit coherent rows place run
      small readable valid paged at some_k some_limit limit_small =
    let m = (last_row r rs).sequence in
    let run' = RunFrom-drop r.sequence before (l ∷ after) (subst (RunFrom r.sequence) place run) in
    let size : length (r ∷ rs) ≡ length before + suc (length after) =
      ap length place ∙ length-append before (l ∷ after) in
    let ends = last_row_run r.sequence r rs run in
    let page =
      first-PageOf h s request.is_json start limit m (r ∷ rs) txs readable small limit_small before
        after l no_id at some_k (subst (λ n. RunFrom n (l ∷ after)) (sym run'.0) run')
        (run-Stored s r.sequence before (l ∷ after) (rows ∙ place)
          (subst (RunFrom r.sequence) place run))
        place (omega (arith, run'.0)) some_limit in
    let rounds : m + 2 - l.sequence ≡ suc (suc (length after)) = omega (arith, run'.0) in
    let all = infos_from start.transaction_order l (txs l) ++ flat txs after in
    let loop = whole_loop h s request.is_json start limit in
    let looped : loop (int32 m) start.ledger_sequence ≡ ok (page.cursor, take (limit - 0) all) =
      subst (λ x. loop x start.ledger_sequence ≡ ok (page.cursor, take (limit - 0) all))
        (sym (int32-pos m (omega arith)))
        (subst (λ y. loop (pos m) y ≡ ok (page.cursor, take (limit - 0) all)) (sym at)
          (subst
            (λ n.
              page_from h s request.is_json start limit (pos m) n (pos l.sequence) no_id []
              ≡ ok (page.cursor, take (limit - 0) all))
            (sym rounds) page.got)) in
    let whole : limit - 0 ≡ limit = omega arith in
    (
      record {
        transactions = take (limit - 0) all;
        latest_ledger = last_row r rs;
        oldest_ledger = r;
        cursor = h.to_text page.cursor;
      },
      get_transactions-steps h s request (record { first_ledger = r; last_ledger = last_row r rs })
          start page.cursor limit (take (limit - 0) all)
          (tx_ledger_range_lem s coherent ∙ ap ends_of rows) valid paged looped,
      record {
        transactions = ap (λ n. take n all) whole;
        cursor = page.cursor;
        text = refl;
        resumes = elim (Bool-cases (leb limit (length all))) [
          | inr fewer ↦ inl (leb→lt _ _ fewer)
          | inl enough ↦
              let le = leb→le _ _ enough in
              inr (
                subst (λ n. Resumes txs (r ∷ rs) page.cursor (drop n all)) whole
                  (page.resumes (omega arith)))
        ];
      },
    )
