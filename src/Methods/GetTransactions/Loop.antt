-- ===== src/Methods/GetTransactions/Loop.antt =====
-- The loop of `getTransactionsByLedgerSequence` through the ledgers.
use stellar_rpc.Prelude.{
  ℕ, suc, ◌+◌, ◌-◌, ◌≤◌, ◌<◌, ◌≡◌, refl, sym, ap, ◌∙◌, Bool, List, [], ◌∷◌, ◌++◌, map, append-nil,
  append_assoc, inl, inr, arith, leb, leb→le, leb→lt, le→leb, lt→leb, lt→ltb, ne→==, ==_refl,
  Bool-cases, length, length-append, take, drop, take-append_left, take-append_right,
  drop-append_left, drop-append_right, drop-drop, take_of_le,
}
use mathlib.Core.Path.{subst}
use stellar_rpc.Window.{LedgerInfo}
use stellar_rpc.LedgerStore.{LedgerStore, found, get_ledger}
use stellar_rpc.Methods.{Result, ok}
use stellar_rpc.Methods.GetLedgers.Fetch.{RunFrom}
use stellar_rpc.Methods.GetTransactions.{
  Handler, pos, int32, Toid, LedgerTransaction, TransactionInfo, turn, page_from, fetch_ledger_data,
  start_tx_idx,
}
use stellar_rpc.Methods.GetTransactions.Process.{
  Readable, infos_from, drop-map, info, process-less, process-full,
}

-- Each ledger is found under its sequence.
abbrev pub Stored : LedgerStore → List LedgerInfo → Type 0
Stored s [] = Unit
Stored s (l ∷ ls) = (get_ledger s.rows l.sequence ≡ found l) × Stored s ls

module _ (txs : LedgerInfo → List LedgerTransaction) where
  -- All transactions of the ledgers, in order.
  abbrev pub flat : List LedgerInfo → List TransactionInfo
  flat [] = []
  flat (l ∷ ls) = infos_from 1 l (txs l) ++ flat ls

  -- The transactions after a position in the table are `rest`.
  pub record Resumes (rows : List LedgerInfo) (cursor : Toid) (rest : List TransactionInfo)
      : Type 0 where
    pub before : List LedgerInfo
    pub ledger : LedgerInfo
    pub after : List LedgerInfo
    pub place : rows ≡ before ++ (ledger ∷ after)
    pub at : cursor.ledger_sequence ≡ pos ledger.sequence
    pub rest_of : infos_from (cursor.transaction_order + 1) ledger (txs ledger) ++ flat after ≡ rest

  -- As many of all transactions as there is room for, and a cursor to go on from if there are as many.
  pub record PageOf (rows : List LedgerInfo) (limit : ℕ) (txns all : List TransactionInfo)
      (result : Result (Toid × List TransactionInfo)) : Type 0 where
    pub cursor : Toid
    pub got : result ≡ ok (cursor, txns ++ take (limit - length txns) all)
    pub resumes :
        limit ≤ length txns + length all → Resumes rows cursor (drop (limit - length txns) all)

infos_from-drop :
    (k n : ℕ) (l : LedgerInfo) (ts : List LedgerTransaction)
    → 0 < k
    → drop n (infos_from k l ts) ≡ infos_from (k + n) l ts
infos_from-drop k n l ts some_k =
    drop-map (info l) n (drop (k - 1) ts)
    ∙ ap (map (info l)) (drop-drop n (k - 1) ts ∙ ap (λ j. drop j ts) (omega arith))

pub int32-pos : (n : ℕ) → n < 2147483648 → int32 n ≡ pos n
int32-pos n small = rw (lt→ltb n 2147483648 small) refl

module _ (h : Handler) (s : LedgerStore) (is_json : Bool) (start : Toid) (limit m : ℕ)
    (rows : List LedgerInfo) (txs : LedgerInfo → List LedgerTransaction)
    (readable : (l : LedgerInfo) → Readable h is_json l (txs l)) (m_small : m < 2147483647)
    (limit_small : limit < 9223372036854775808) where
  abbrev first : LedgerInfo → ℕ
  first l = start_tx_idx start (pos l.sequence)

  abbrev here : LedgerInfo → List TransactionInfo
  here l = infos_from (first l) l (txs l)

  page-step :
      (txns xs ys : List TransactionInfo) (result : Result (Toid × List TransactionInfo))
      → length (txns ++ xs) < limit
      → PageOf txs rows limit (txns ++ xs) ys result
      → PageOf txs rows limit txns (xs ++ ys) result
  page-step txns xs ys result room page =
      let more = length-append txns xs in
      let both = length-append xs ys in
      let left : limit - length (txns ++ xs) ≡ limit - length txns - length xs =
        omega (arith, more) in
      record {
        cursor = page.cursor;
        got =
            page.got
            ∙ ap (λ zs. ok (page.cursor, zs))
                (append_assoc txns xs (take (limit - length (txns ++ xs)) ys)
                  ∙ ap (λ k. txns ++ (xs ++ take k ys)) left
                  ∙ ap (λ zs. txns ++ zs)
                      (sym (take-append_right (limit - length txns) xs ys (omega (arith, more)))));
        resumes = λ enough.
            subst (Resumes txs rows page.cursor)
              (ap (λ k. drop k ys) left
                ∙ sym (drop-append_right (limit - length txns) xs ys (omega (arith, more))))
              (page.resumes (omega (arith, more, both)));
      }

  -- One ledger of the loop, and what follows it.
  visit-PageOf :
      (before after : List LedgerInfo) (l : LedgerInfo) (txns : List TransactionInfo)
      (next : Toid → List TransactionInfo → Result (Toid × List TransactionInfo))
      → rows ≡ before ++ (l ∷ after)
      → get_ledger s.rows l.sequence ≡ found l
      → l.sequence ≤ m
      → 0 < first l
      → length txns < limit
      → ((cursor : Toid)
          → length (txns ++ here l) < limit
          → PageOf txs rows limit (txns ++ here l) (flat txs after) (next cursor (txns ++ here l)))
      → PageOf txs rows limit txns
          (here l ++ flat txs after)
          (turn h s is_json start limit (pos m) next l.sequence txns)
  unfolding fetch_ledger_data
  visit-PageOf before after l txns next place got_l below some_first room follows =
      elim (Bool-cases (leb limit (length txns + length (here l)))) [
        | inr less ↦
            let lt = leb→lt _ _ less in
            let lt' : length (txns ++ here l) < limit =
              omega (arith, length-append txns (here l)) in
            rw
              (
                got_l,
                process-less h is_json limit start l (txs l) (readable l) (omega arith) limit_small
                    txns some_first lt,
              )
              (page-step txns (here l) (flat txs after) _ lt' (follows _ lt'))
        | inl full ↦
            let le = leb→le _ _ full in
            let fits : limit - length txns ≤ length (here l) = omega arith in
            rw
              (
                got_l,
                process-full h is_json limit start l (txs l) (readable l) (omega arith) limit_small
                    txns some_first room le,
              )
              (record {
                cursor = record {
                  ledger_sequence = pos l.sequence;
                  transaction_order = first l + (limit - length txns) - 1;
                  operation_order = 1;
                };
                got =
                    ap
                      (λ zs. ok (
                        record {
                          ledger_sequence = pos l.sequence;
                          transaction_order = first l + (limit - length txns) - 1;
                          operation_order = 1;
                        },
                        txns ++ zs,
                      ))
                      (sym (take-append_left (limit - length txns) (here l) (flat txs after) fits));
                resumes = λ enough. record {
                  before = before;
                  ledger = l;
                  after = after;
                  place = place;
                  at = refl;
                  rest_of =
                      ap (λ zs. zs ++ flat txs after)
                        (ap (λ k. infos_from k l (txs l)) (omega arith)
                          ∙ sym (
                              infos_from-drop (first l) (limit - length txns) l (txs l) some_first))
                      ∙ sym (drop-append_left (limit - length txns) (here l) (flat txs after) fits);
                };
              })
      ]

  -- The loop from a ledger after that of the start.
  later-PageOf :
      (a n : ℕ) (before ls : List LedgerInfo) (cursor : Toid) (txns : List TransactionInfo)
      → start.ledger_sequence ≡ pos a
      → a < n
      → RunFrom n ls
      → Stored s ls
      → rows ≡ before ++ ls
      → n + length ls ≡ m + 1
      → length txns < limit
      → PageOf txs rows limit txns
          (flat txs ls)
          (page_from h s is_json start limit (pos m) (suc (length ls)) (pos n) cursor txns)
  unfolding page_from
  later-PageOf a n before [] cursor txns at past run stored place ends room =
      rw (lt→leb n m (omega arith)) (record {
        cursor = cursor;
        got =
            ap (λ zs. ok (cursor, zs))
              (sym (append-nil txns)
                ∙ ap (λ zs. txns ++ zs) (sym (take_of_le (limit - length txns) [] (omega arith))));
        resumes = λ enough. absurd (omega arith);
      })
  later-PageOf a n before (l ∷ ls) cursor txns at past run stored place ends room =
      let next : int32 (n + 1) ≡ pos (n + 1) = int32-pos (n + 1) (omega arith) in
      let one : first l ≡ 1 = rw (at, run.0, ne→== n a (omega arith)) refl in
      let follows : (c : Toid)
          → length (txns ++ here l) < limit
          → PageOf txs rows limit (txns ++ here l) (flat txs ls) (
              page_from h s is_json start limit (pos m) (suc (length ls)) (int32 (n + 1)) c
                (txns ++ here l)) =
        λ c room'. rw (next) (
          later-PageOf a (n + 1) (before ++ (l ∷ [])) ls c (txns ++ here l) at (omega arith) run.1
            stored.1 (place ∙ sym (append_assoc before (l ∷ []) ls)) (omega arith) room') in
      let visited =
        visit-PageOf before ls l txns
          (λ c t. page_from h s is_json start limit (pos m) (suc (length ls)) (int32 (n + 1)) c t)
          place stored.0 (omega (arith, run.0)) (omega (arith, one)) room follows in
      rw (le→leb n m (omega arith)) (
        subst
          (λ k. PageOf txs rows limit txns (infos_from k l (txs l) ++ flat txs ls) (
            turn h s is_json start limit (pos m)
              (page_from h s is_json start limit (pos m) (suc (length ls)) (int32 (n + 1))) n txns))
          one
          (subst
            (λ k. PageOf txs rows limit txns (here l ++ flat txs ls) (
              turn h s is_json start limit (pos m)
                (page_from h s is_json start limit (pos m) (suc (length ls)) (int32 (n + 1))) k
                txns))
            run.0 visited))

  -- The loop from the ledger of the start.
  pub first-PageOf :
      (before after : List LedgerInfo) (l : LedgerInfo) (cursor : Toid)
      → start.ledger_sequence ≡ pos l.sequence
      → 0 < start.transaction_order
      → RunFrom l.sequence (l ∷ after)
      → Stored s (l ∷ after)
      → rows ≡ before ++ (l ∷ after)
      → l.sequence + length (l ∷ after) ≡ m + 1
      → 0 < limit
      → PageOf txs rows limit [] (infos_from start.transaction_order l (txs l) ++ flat txs after) (
          page_from h s is_json start limit
            (pos m)
            (suc (suc (length after)))
            (pos l.sequence)
            cursor
            [])
  unfolding page_from
  first-PageOf before after l cursor at some_k run stored place ends room =
      let next : int32 (l.sequence + 1) ≡ pos (l.sequence + 1) =
        int32-pos (l.sequence + 1) (omega arith) in
      let same : first l ≡ start.transaction_order = rw (at, ==_refl l.sequence) refl in
      let follows : (c : Toid)
          → length (here l) < limit
          → PageOf txs rows limit (here l) (flat txs after) (
              page_from h s is_json start limit (pos m) (suc (length after))
                (int32 (l.sequence + 1)) c (here l)) =
        λ c room'. rw (next) (
          later-PageOf l.sequence (l.sequence + 1) (before ++ (l ∷ [])) after c (here l) at
            (omega arith) run.1 stored.1 (place ∙ sym (append_assoc before (l ∷ []) after))
            (omega arith) room') in
      let visited =
        visit-PageOf before after l []
          (λ c t.
            page_from h s is_json start limit (pos m) (suc (length after)) (int32 (l.sequence + 1))
              c t)
          place stored.0 (omega arith) (omega (arith, same)) room follows in
      rw (le→leb l.sequence m (omega arith)) (
        subst
          (λ k. PageOf txs rows limit [] (infos_from k l (txs l) ++ flat txs after) (
            turn h s is_json start limit (pos m)
              (page_from h s is_json start limit (pos m) (suc (length after))
                (int32 (l.sequence + 1)))
              l.sequence []))
          same visited)
