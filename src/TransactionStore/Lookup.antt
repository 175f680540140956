-- ===== src/TransactionStore/Lookup.antt =====
-- A transaction that was inserted is found by its hashes, and trimming forgets no more than it may.
use stellar_rpc.Prelude.{
  ℕ, suc, ◌+◌, ◌-◌, ◌≤◌, ◌<◌, ◌≡◌, ◌≢◌, ◌⊎◌, refl, sym, ap, ◌∙◌, inl, inr, Bool, true, false, not,
  Option, none, some, List, [], ◌∷◌, ◌++◌, map, arith, leb, leb→lt, ltb, ltb→lt, ◌==◌, ==→eq, ==→ne,
  ne→==, ==_refl, Bool-cases, if◌then◌else◌, length, get_elem?, u32, sub32, u32_mod, filter, Some,
  Each, append-Each, weaken-Each, append_right-Some, Member, Each_of_members, Each-Member,
  Member_of_Some, Some_of_Member,
}
use mathlib.Core.Path.{subst}
use stellar_rpc.Window.{LedgerInfo}
use stellar_rpc.Methods.GetTransactions.{Transaction, parse_transaction}
use stellar_rpc.TransactionStore.{
  PendingTx, TransactionHandler, max_tx_rows_per_batch, IngestTransaction, LedgerContents,
  put_transaction, read_transactions, pending_tx, insert_transactions, flush_pending,
  trim_transactions, got, ledger_of, select_by_hash, read_at, get_transaction_by_hash,
  get_transaction,
}
use stellar_rpc.TransactionStore.Insert.{
  rows_of, HasKey, LacksKey, Only, read_transactions_lem, insert_transactions_lem,
  flush_pending_lem,
}

-- The order in which a map is ranged over has its entries, and no other.
abbrev pub IsOrder : (List (ℕ × ℕ) → List (ℕ × ℕ)) → Type 0
IsOrder iterate =
    (entries : List (ℕ × ℕ)) (e : ℕ × ℕ)
    → (Member e entries → Member e (iterate entries))
      × (Member e (iterate entries) → Member e entries)

-- Of a hash there is only one row.
abbrev OneRow : ℕ → PendingTx → PendingTx → Type 0
OneRow hash one row = (row.hash ≢ hash) ⊎ (row ≡ one)

select_by_hash_lem :
    (table : List PendingTx) (ledgers : List LedgerInfo) (hash seq index : ℕ) (lcm : LedgerInfo)
    → ledger_of ledgers seq ≡ some lcm
    → Each (OneRow hash (pending_tx seq (hash, index))) table
    → Some (λ row. row ≡ pending_tx seq (hash, index)) table
    → select_by_hash table ledgers hash ≡ some (index, lcm)
unfolding select_by_hash
select_by_hash_lem [] ledgers hash seq index lcm known each h = absurd h
select_by_hash_lem (row ∷ table) ledgers hash seq index lcm known each h =
    elim (Bool-cases (row.hash == hash)) [
      | inl same ↦
          let this : row ≡ pending_tx seq (hash, index) = elim each.0 [
            | inl other ↦ absurd (other (==→eq _ _ same))
            | inr e ↦ e
          ] in
          subst (λ r. select_by_hash (r ∷ table) ledgers hash ≡ some (index, lcm)) (sym this)
            (rw (==_refl hash, known) refl)
      | inr other ↦
          rw (other)
            (select_by_hash_lem table ledgers hash seq index lcm known each.1 (later row other h))
    ]
  where
    later :
        (row : PendingTx)
        → (row.hash == hash) ≡ false
        → Some (λ row. row ≡ pending_tx seq (hash, index)) (row ∷ table)
        → Some (λ row. row ≡ pending_tx seq (hash, index)) table
    later row other (inl e) = absurd (==→ne _ _ other (ap (λ r. r.hash) e))
    later row other (inr h) = h

pending_txs-OneRow :
    (seq hash index : ℕ) (entries : List (ℕ × ℕ))
    → Each (Only hash index) entries
    → Each (OneRow hash (pending_tx seq (hash, index))) (map (pending_tx seq) entries)
pending_txs-OneRow seq hash index [] each = tt
pending_txs-OneRow seq hash index ((h, i) ∷ entries) each =
    (one each.0, pending_txs-OneRow seq hash index entries each.1)
  where
    one :
        Only hash index (h, i) → OneRow hash (pending_tx seq (hash, index)) (pending_tx seq (h, i))
    one (inl other) = inl other
    one (inr same) = elim (Bool-cases (h == hash)) [
      | inl e ↦ let e' = ==→eq h hash e in inr (cc)
      | inr other ↦ inl (==→ne h hash other)
    ]

pending_txs-Some :
    (seq hash index : ℕ) (entries : List (ℕ × ℕ))
    → Some (λ e. e ≡ (hash, index)) entries
    → Some (λ row. row ≡ pending_tx seq (hash, index)) (map (pending_tx seq) entries)
pending_txs-Some seq hash index [] h = absurd h
pending_txs-Some seq hash index (e ∷ entries) (inl same) = inl (ap (pending_tx seq) same)
pending_txs-Some seq hash index (e ∷ entries) (inr h) =
    inr (pending_txs-Some seq hash index entries h)

read_all :
    (ts : List IngestTransaction) (entries : List (ℕ × ℕ))
    → (out : List (ℕ × ℕ)) × (read_transactions (length ts) (map some ts) entries ≡ some out)
unfolding read_transactions
read_all [] entries = (entries, refl)
read_all (t ∷ ts) entries = read_all ts (put_transaction t entries)

at_order :
    (before after : List IngestTransaction) (t : IngestTransaction)
    → get_elem? (map some (before ++ (t ∷ after))) (length before) ≡ some (some t)
at_order [] after t = refl
at_order (u ∷ before) after t = at_order before after t

-- A ledger that can be read, with one transaction of it that alone has a hash
pub record Holding (reader : LedgerInfo → LedgerContents) (ledgers : List LedgerInfo) (seq hash : ℕ)
    (lcm : LedgerInfo) (t : IngestTransaction) : Type 0 where
  pub before : List IngestTransaction
  pub after : List IngestTransaction
  pub known : ledger_of ledgers seq ≡ some lcm
  pub opens : (reader lcm).is_open ≡ true
  pub items : (reader lcm).items ≡ map some (before ++ (t ∷ after))
  pub counted : (reader lcm).count_transactions ≡ length (before ++ (t ∷ after))
  pub order : t.tx.index ≡ suc (length before)
  pub seeks : (reader lcm).seeks t.tx.index ≡ true
  pub key : HasKey hash t
  pub apart_before : Each (LacksKey hash) before
  pub apart_after : Each (LacksKey hash) after

found_lem :
    (reader : LedgerInfo → LedgerContents) (table : List PendingTx) (ledgers : List LedgerInfo)
    (seq hash : ℕ) (lcm : LedgerInfo) (t : IngestTransaction) (tx : Transaction)
    → Holding reader ledgers seq hash lcm t
    → parse_transaction lcm t.tx ≡ some tx
    → Each (OneRow hash (pending_tx seq (hash, t.tx.index))) table
    → Some (λ row. row ≡ pending_tx seq (hash, t.tx.index)) table
    → get_transaction reader true table ledgers hash ≡ got tx
unfolding get_transaction get_transaction_by_hash read_at
found_lem reader table ledgers seq hash lcm t tx holding parsed each here =
    let selected =
      select_by_hash_lem table ledgers hash seq t.tx.index lcm holding.known each here in
    let item : get_elem? (reader lcm).items (t.tx.index - 1) ≡ some (some t) =
      ap (get_elem? (reader lcm).items) {y = length holding.before} (omega (arith, holding.order))
      ∙ ap (λ items. get_elem? items (length holding.before)) holding.items
      ∙ at_order holding.before holding.after t in
    let by_hash : get_transaction_by_hash reader true table ledgers hash ≡ got (lcm, t.tx) =
      rw (selected, holding.opens, holding.seeks, item, get_transaction_by_hash, read_at) refl in
    rw (by_hash, parsed, get_transaction) refl

-- After the transactions of a ledger were inserted and the pending rows written, every hash that one
-- of them alone has, also the inner hash of a fee bump, finds that transaction, in whatever order the map
-- was ranged over. The ledger is in the table of ledgers and can be read, its transactions are numbered
-- by their place, the hash was not in the table before, and the insertions are done.
pub get_transaction-insert_transactions :
    (inserts : List PendingTx → Bool) (iterate : List (ℕ × ℕ) → List (ℕ × ℕ))
    (reader : LedgerInfo → LedgerContents) (ledgers : List LedgerInfo) (seq hash : ℕ)
    (lcm : LedgerInfo) (t : IngestTransaction) (tx : Transaction) (w : TransactionHandler)
    → ((rows : List PendingTx) → inserts rows ≡ true)
    → IsOrder iterate
    → Holding reader ledgers seq hash lcm t
    → parse_transaction lcm t.tx ≡ some tx
    → length w.pending < max_tx_rows_per_batch
    → Each (λ row. row.hash ≢ hash) (rows_of w)
    → (w' : TransactionHandler) × (w'' : TransactionHandler) × (insert_transactions inserts iterate
          true seq
          (reader lcm)
          w
        ≡ some w')
      × (flush_pending inserts w' ≡ some w'')
      × (get_transaction reader true w''.table ledgers hash ≡ got tx)
get_transaction-insert_transactions inserts iterate reader ledgers seq hash lcm t tx w done is_order
      holding parsed few fresh =
    let ts = holding.before ++ (t ∷ holding.after) in
    let index = t.tx.index in
    let (entries, read) = read_all ts [] in
    let (only, here) =
      read_transactions_lem hash index holding.before holding.after t [] entries holding.key refl
        holding.apart_before holding.apart_after read tt in
    let read' : read_transactions (reader lcm).count_transactions (reader lcm).items []
        ≡ some entries =
      ap (λ n. read_transactions n (reader lcm).items []) holding.counted
      ∙ ap (λ items. read_transactions (length ts) items []) holding.items
      ∙ read in
    let (w', inserted, rows, few') =
      insert_transactions_lem inserts done iterate seq (reader lcm) entries w
        (omega (arith, holding.counted, length_positive holding.before holding.after t))
        holding.opens read' few in
    let (w'', flushed, table, empty) = flush_pending_lem inserts done w' in
    let new = map (pending_tx seq) (iterate entries) in
    let only' : Each (Only hash index) (iterate entries) =
      Each_of_members (Only hash index) (iterate entries)
        (λ e m. Each-Member (Only hash index) entries e only ((is_order entries e).1 m)) in
    let here' : Some (λ e. e ≡ (hash, index)) (iterate entries) =
      Some_of_Member (λ e. e ≡ (hash, index)) (hash, index) (iterate entries) refl
        ((is_order entries (hash, index)).0 (Member_of_Some (hash, index) entries here)) in
    let all_rows : w''.table ≡ rows_of w ++ new = table ∙ rows in
    (
      w',
      w'',
      inserted,
      flushed,
      found_lem reader w''.table ledgers seq hash lcm t tx holding parsed
          (subst (Each (OneRow hash (pending_tx seq (hash, index)))) (sym all_rows) (
            append-Each (OneRow hash (pending_tx seq (hash, index))) (rows_of w) new
              (weaken-Each (λ row. row.hash ≢ hash) (OneRow hash (pending_tx seq (hash, index)))
                (rows_of w) (λ row other. inl other) fresh)
              (pending_txs-OneRow seq hash index (iterate entries) only')))
          (subst (Some (λ row. row ≡ pending_tx seq (hash, index))) (sym all_rows) (
            append_right-Some (λ row. row ≡ pending_tx seq (hash, index)) (rows_of w) new
              (pending_txs-Some seq hash index (iterate entries) here'))),
    )
  where
    length_positive :
        (before after : List IngestTransaction) (t : IngestTransaction)
        → 0 < length (before ++ (t ∷ after))
    length_positive [] after t = omega arith
    length_positive (u ∷ before) after t = omega arith

-- A ledger that is not in the table is not joined.
ledger_of-none :
    (ledgers : List LedgerInfo) (cutoff seq : ℕ)
    → Each (λ l. cutoff ≤ l.sequence) ledgers
    → seq < cutoff
    → ledger_of ledgers seq ≡ none
unfolding ledger_of
ledger_of-none [] cutoff seq kept old = refl
ledger_of-none (l ∷ ledgers) cutoff seq kept old =
    let low = kept.0 in
    let other : (l.sequence == seq) ≡ false = ne→== _ _ (λ e. omega arith) in
    rw (other) (ledger_of-none ledgers cutoff seq kept.1 old)

filter-select_by_hash :
    (table : List PendingTx) (ledgers : List LedgerInfo) (hash cutoff : ℕ)
    → Each (λ l. cutoff ≤ l.sequence) ledgers
    → select_by_hash (filter (λ row. not (ltb row.seq cutoff)) table) ledgers hash
      ≡ select_by_hash table ledgers hash
unfolding select_by_hash
filter-select_by_hash [] ledgers hash cutoff kept = refl
filter-select_by_hash (row ∷ table) ledgers hash cutoff kept =
    let rest = filter-select_by_hash table ledgers hash cutoff kept in
    elim (Bool-cases (ltb row.seq cutoff)) [
      | inl old ↦
          let gone = ledger_of-none ledgers cutoff row.seq kept (ltb→lt _ _ old) in
          rw (old, gone, rest, select_by_hash) (sym (same (row.hash == hash) _))
      | inr young ↦ rw (young) (
          ap
            (λ (o : Option (ℕ × LedgerInfo)).
              if row.hash == hash
              then elim (ledger_of ledgers row.seq) [ none ↦ o | some lcm ↦ some (row.index, lcm) ]
              else o)
            rest)
    ]
  where
    same : (b : Bool) (o : Option (ℕ × LedgerInfo)) → (if b then o else o) ≡ o
    same true o = refl
    same false o = refl

-- A lookup depends on the table by what the join selects.
select-get_transaction :
    (reader : LedgerInfo → LedgerContents) (answers : Bool) (table table' : List PendingTx)
    (ledgers : List LedgerInfo) (hash : ℕ)
    → select_by_hash table ledgers hash ≡ select_by_hash table' ledgers hash
    → get_transaction reader answers table ledgers hash
      ≡ get_transaction reader answers table' ledgers hash
unfolding get_transaction get_transaction_by_hash
select-get_transaction reader answers table table' ledgers hash same =
    let by_hash : get_transaction_by_hash reader answers table ledgers hash
        ≡ get_transaction_by_hash reader answers table' ledgers hash =
      rw (same, get_transaction_by_hash) refl in
    rw (by_hash, get_transaction) refl

-- Trimming the transactions changes no lookup once the ledgers are trimmed to the same window,
-- or where it is the ledgers' window that the trimmed rows are out of.
pub get_transaction-trim_transactions :
    (reader : LedgerInfo → LedgerContents) (answers : Bool) (table : List PendingTx)
    (ledgers : List LedgerInfo) (hash latest retention_window : ℕ)
    → latest + 1 < u32_mod
    → Each (λ l. latest + 1 - retention_window ≤ l.sequence) ledgers
    → get_transaction reader answers (trim_transactions latest retention_window table) ledgers hash
      ≡ get_transaction reader answers table ledgers hash
unfolding trim_transactions
get_transaction-trim_transactions reader answers table ledgers hash latest window small kept =
    elim (Bool-cases (leb (u32 (latest + 1)) window)) [
      | inl all ↦ rw (all) refl
      | inr some_left ↦
          let low : window < latest + 1 = omega (arith, leb→lt _ _ some_left) in
          let cutoff : sub32 (u32 (latest + 1)) window ≡ latest + 1 - window = omega arith in
          let same =
            filter-select_by_hash table ledgers hash (sub32 (u32 (latest + 1)) window)
              (subst (λ c. Each (λ l. c ≤ l.sequence) ledgers) (sym cutoff) kept) in
          rw (some_left) (
            select-get_transaction reader answers
              (filter (λ row. not (ltb row.seq (sub32 (u32 (latest + 1)) window))) table) table
              ledgers hash same)
    ]
