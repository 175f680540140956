-- ===== src/Methods/GetTransactions/Process.antt =====
-- `processTransactionsInLedger` on a ledger that can be read.
use stellar_rpc.Prelude.{
  ℕ, zero, suc, ◌+◌, ◌-◌, ◌≤◌, ◌<◌, ◌≡◌, refl, sym, ap, ap₂, ◌∙◌, Bool, true, false, not, ◌||◌,
  Option, some, List, [], ◌∷◌, ◌++◌, map, append-nil, append_assoc, inl, inr, arith, leb, lt→leb,
  leb→le, leb→lt, Bool-cases, lt→ltb, length, length-append, length-drop, take, drop,
}
use mathlib.Core.Path.{subst}
use stellar_rpc.Window.{LedgerInfo}
use stellar_rpc.Methods.{ok}
use stellar_rpc.Methods.GetTransactions.{
  Handler, pos, Toid, LedgerTransaction, TransactionInfo, Progress, status_of, parse_transaction,
  process_from, process_transactions_in_ledger, start_tx_idx, uint32_to_int32, eq_int, Transaction,
}

-- What is returned of a transaction.
abbrev pub info : LedgerInfo → LedgerTransaction → TransactionInfo
info l t = record {
  transaction_hash = t.hash;
  application_order = t.index;
  fee_bump = t.is_fee_bump;
  ledger = l;
  status = status_of t.is_successful;
}

abbrev pub AllEncode : List LedgerTransaction → Type 0
AllEncode [] = Unit
AllEncode (t ∷ ts) = (t.index < 2147483648) × (t.encodes ≡ true) × AllEncode ts

-- A ledger whose transactions are all read, parsed and rendered.
pub record Readable (h : Handler) (is_json : Bool) (l : LedgerInfo) (ts : List LedgerTransaction)
    : Type 0 where
  pub opens : (h.reader l).is_open ≡ true
  pub count : (h.reader l).count_transactions ≡ length ts
  pub seeks : (k : ℕ) → (h.reader l).seeks k ≡ true
  pub items : (h.reader l).items ≡ map some ts
  pub encode : AllEncode ts
  pub formats : (tx : Transaction) → h.formats is_json tx ≡ true

abbrev pub order_after : ℕ → ℕ → ℕ → ℕ
order_after order i zero = order
order_after order i (suc n) = i + n

length-map : {A B : Type 0} (f : A → B) (xs : List A) → length (map f xs) ≡ length xs
length-map f [] = refl
length-map f (x ∷ xs) = ap suc (length-map f xs)

pub drop-map :
    {A B : Type 0} (f : A → B) (k : ℕ) (xs : List A) → drop k (map f xs) ≡ map f (drop k xs)
drop-map f zero xs = refl
drop-map f (suc k) [] = refl
drop-map f (suc k) (x ∷ xs) = drop-map f k xs

drop-AllEncode : (k : ℕ) (ts : List LedgerTransaction) → AllEncode ts → AllEncode (drop k ts)
drop-AllEncode zero ts h = h
drop-AllEncode (suc k) [] h = tt
drop-AllEncode (suc k) (t ∷ ts) h = drop-AllEncode k ts h.2

abbrev parsed : LedgerInfo → LedgerTransaction → Transaction
parsed l t = record {
  transaction_hash = t.hash;
  application_order = t.index;
  fee_bump = t.is_fee_bump;
  successful = t.is_successful;
  ledger = l;
}

parse_transaction_lem :
    (l : LedgerInfo) (t : LedgerTransaction)
    → t.index < 2147483648
    → t.encodes ≡ true
    → parse_transaction l t ≡ some (parsed l t)
unfolding parse_transaction
parse_transaction_lem l t small encodes = rw (lt→ltb t.index 2147483648 small, encodes) refl

order_step : (i n : ℕ) → order_after i (i + 1) n ≡ i + n
order_step i zero = omega arith
order_step i (suc n) = omega arith

take-pred :
    (n : ℕ) (x : TransactionInfo) (xs : List TransactionInfo)
    → 0 < n
    → take n (x ∷ xs) ≡ x ∷ take (n - 1) xs
take-pred zero x xs h = absurd (omega arith)
take-pred (suc n) x xs h = ap (λ k. x ∷ take k xs) (omega arith)

module _ (h : Handler) (is_json : Bool) (limit : ℕ) (l : LedgerInfo)
    (formats : (tx : Transaction) → h.formats is_json tx ≡ true) where
  -- Fewer transactions than are wanted: all are taken.
  process_from-less :
      (i order : ℕ) (ts : List LedgerTransaction) (txns : List TransactionInfo)
      → AllEncode ts
      → length txns + length ts < limit
      → process_from h is_json limit l (length ts) i (map some ts) txns order
        ≡ ok (record {
          txns = txns ++ map (info l) ts;
          order = order_after order i (length ts);
          is_done = false;
        })
  unfolding process_from
  process_from-less i order [] txns encode less =
      ap (λ x. ok (record { txns = x; order = order; is_done = false })) (sym (append-nil txns))
  process_from-less i order (t ∷ ts) txns (small, encodes, encode) less =
      let more = length-append txns (info l t ∷ []) in
      let got =
        process_from-less (i + 1) i ts (txns ++ (info l t ∷ [])) encode (omega (arith, more)) in
      rw
        (
          parse_transaction_lem l t small encodes,
          formats (parsed l t),
          lt→leb limit (length (txns ++ (info l t ∷ []))) (omega (arith, more)),
          got,
        )
        (ap₂ (λ x y. ok (record { txns = x; order = y; is_done = false }))
          (append_assoc txns (info l t ∷ []) (map (info l) ts)) (order_step i (length ts)))

  -- Enough: exactly those that are wanted are taken.
  process_from-full :
      (i order : ℕ) (ts : List LedgerTransaction) (txns : List TransactionInfo)
      → AllEncode ts
      → length txns < limit
      → limit ≤ length txns + length ts
      → process_from h is_json limit l (length ts) i (map some ts) txns order
        ≡ ok (record {
          txns = txns ++ take (limit - length txns) (map (info l) ts);
          order = i + (limit - length txns) - 1;
          is_done = true;
        })
  unfolding process_from
  process_from-full i order [] txns encode room full = absurd (omega arith)
  process_from-full i order (t ∷ ts) txns (small, encodes, encode) room full =
      let more = length-append txns (info l t ∷ []) in
      let one = take-pred (limit - length txns) (info l t) (map (info l) ts) (omega arith) in
      let tried = parse_transaction_lem l t small encodes in
      elim (Bool-cases (leb limit (length (txns ++ (info l t ∷ []))))) [
        | inl reached ↦
            let le = leb→le _ _ reached in
            let none_left : 0 ≡ limit - length txns - 1 = omega (arith, more) in
            let at : i ≡ i + (limit - length txns) - 1 = omega (arith, more) in
            rw (tried, formats (parsed l t), reached, one)
              (ap₂
                (λ x y. ok (record {
                  txns = txns ++ (info l t ∷ take x (map (info l) ts));
                  order = y;
                  is_done = true;
                }))
                none_left at)
        | inr open' ↦
            let gt = leb→lt _ _ open' in
            let got =
              process_from-full (i + 1) i ts (txns ++ (info l t ∷ [])) encode gt
                (omega (arith, more)) in
            rw (tried, formats (parsed l t), open', one, got)
              (ap₂ (λ x y. ok (record { txns = x; order = y; is_done = true }))
                (append_assoc txns (info l t ∷ [])
                    (take (limit - length (txns ++ (info l t ∷ []))) (map (info l) ts))
                  ∙ ap (λ k. txns ++ (info l t ∷ take k (map (info l) ts))) (omega (arith, more)))
                (omega (arith, more)))
      ]

or_true : (b : Bool) → (b || true) ≡ true
or_true true = refl
or_true false = refl

-- The transactions of a ledger from the k-th on.
abbrev pub infos_from : ℕ → LedgerInfo → List LedgerTransaction → List TransactionInfo
infos_from k l ts = map (info l) (drop (k - 1) ts)

module _ (h : Handler) (is_json : Bool) (limit : ℕ) (start : Toid) (l : LedgerInfo)
    (ts : List LedgerTransaction) (readable : Readable h is_json l ts)
    (small : l.sequence < 2147483648) (limit_small : limit < 9223372036854775808) where
  abbrev first : ℕ
  first = start_tx_idx start (pos l.sequence)

  process-progress :
      (txns : List TransactionInfo) (progress : Progress)
      → process_from h is_json limit l
          (length ts + 1 - first)
          first
          (map some (drop (first - 1) ts))
          txns
          0
        ≡ ok progress
      → process_transactions_in_ledger h l start txns limit is_json
        ≡ ok (
          record {
            ledger_sequence = pos l.sequence;
            transaction_order = progress.order;
            operation_order = 1;
          },
          progress.txns,
          progress.is_done,
        )
  unfolding process_transactions_in_ledger uint32_to_int32
  process-progress txns progress e =
      rw
        (
          lt→ltb limit 9223372036854775808 limit_small,
          readable.opens,
          lt→ltb l.sequence 2147483648 small,
          readable.seeks (first - 1),
          or_true (not (eq_int (pos l.sequence) start.ledger_sequence)),
          readable.count,
          readable.items,
          drop-map {B = Option LedgerTransaction} some (first - 1) ts,
          e,
        )
        refl

  rounds_lem : 0 < first → length ts + 1 - first ≡ length (drop (first - 1) ts)
  rounds_lem some_first = omega (arith, length-drop (first - 1) ts)

  -- Where fewer transactions are left than are wanted, all of them are taken.
  pub process-less :
      (txns : List TransactionInfo)
      → 0 < first
      → length txns + length (infos_from first l ts) < limit
      → process_transactions_in_ledger h l start txns limit is_json
        ≡ ok (
          record {
            ledger_sequence = pos l.sequence;
            transaction_order = order_after 0 first (length (drop (first - 1) ts));
            operation_order = 1;
          },
          txns ++ infos_from first l ts,
          false,
        )
  process-less txns some_first less =
      process-progress txns
        (record {
          txns = txns ++ infos_from first l ts;
          order = order_after 0 first (length (drop (first - 1) ts));
          is_done = false;
        })
        (subst
          (λ n.
            process_from h is_json limit l n first (map some (drop (first - 1) ts)) txns 0
            ≡ ok (record {
              txns = txns ++ infos_from first l ts;
              order = order_after 0 first (length (drop (first - 1) ts));
              is_done = false;
            }))
          (sym (rounds_lem some_first))
          (process_from-less h is_json limit l readable.formats first 0 (drop (first - 1) ts) txns
            (drop-AllEncode (first - 1) ts readable.encode)
            (omega (arith, less, length-map (info l) (drop (first - 1) ts)))))

  -- Otherwise as many are taken as are wanted.
  pub process-full :
      (txns : List TransactionInfo)
      → 0 < first
      → length txns < limit
      → limit ≤ length txns + length (infos_from first l ts)
      → process_transactions_in_ledger h l start txns limit is_json
        ≡ ok (
          record {
            ledger_sequence = pos l.sequence;
            transaction_order = first + (limit - length txns) - 1;
            operation_order = 1;
          },
          txns ++ take (limit - length txns) (infos_from first l ts),
          true,
        )
  process-full txns some_first room full =
      process-progress txns
        (record {
          txns = txns ++ take (limit - length txns) (infos_from first l ts);
          order = first + (limit - length txns) - 1;
          is_done = true;
        })
        (subst
          (λ n.
            process_from h is_json limit l n first (map some (drop (first - 1) ts)) txns 0
            ≡ ok (record {
              txns = txns ++ take (limit - length txns) (infos_from first l ts);
              order = first + (limit - length txns) - 1;
              is_done = true;
            }))
          (sym (rounds_lem some_first))
          (process_from-full h is_json limit l readable.formats first 0 (drop (first - 1) ts) txns
            (drop-AllEncode (first - 1) ts readable.encode) room
            (omega (arith, full, length-map (info l) (drop (first - 1) ts)))))
