-- ===== src/Methods/GetEvents/Panics.antt =====
-- The one place where getEvents can panic.
use stellar_rpc.Prelude.{
  ℕ, ◌<◌, ◌≢◌, inl, inr, Bool, true, false, Option, none, some, List, [], ◌∷◌, Bool-cases, length,
  ◌==◌, ==→eq, arith, ◌&&◌, leb,
}
use mathlib.Core.Path.{subst}
use stellar_rpc.Window.{LedgerRange}
use stellar_rpc.EventStore.{Cursor}
use stellar_rpc.EventStore.Query.{Codec, Row, Answer}
use stellar_rpc.Methods.{
  RpcError, panicked, invalid_params, invalid_request, plain_error, Result, ok, err, or_fail, check,
  ◌>>=◌,
}
use stellar_rpc.Methods.GetEvents.{
  Handler, Request, EventFilter, EventInfo, limit_of, start_of, end_ledger_of, combine_contract_ids,
  combine_topics, infos_of, find_entries, last_id, cursor_after, respond,
}

abbrev Calm : RpcError → Type 0
Calm panicked = ⊥
Calm _ = Unit

abbrev IsCalm {ℓ} : {A : Type ℓ} → Result A → Type 0
IsCalm (ok a) = Unit
IsCalm (err e) = Calm e

-- An error, if there is one, is not a panic.
record Settles {ℓ} {A : Type ℓ} (r : Result A) : Type 0 where
  pub calm : IsCalm r

bind-Settles {ℓ κ} :
    {A : Type ℓ} {B : Type κ} (m : Result A) (f : A → Result B)
    → Settles m
    → ((a : A) → Settles (f a))
    → Settles (m >>= f)
bind-Settles (ok a) f h k = k a
bind-Settles (err e) f h k = record { calm = h.calm }

or_fail-Settles {ℓ} : {A : Type ℓ} (o : Option A) (e : RpcError) → Calm e → Settles (or_fail o e)
or_fail-Settles none e calm = record { calm = calm }
or_fail-Settles (some a) e calm = record { calm = tt }

check-Settles : (b : Bool) (e : RpcError) → Calm e → Settles (check b e)
check-Settles true e calm = record { calm = tt }
check-Settles false e calm = record { calm = calm }

last_id-Settles : (i : EventInfo) (infos : List EventInfo) → Settles (last_id (i ∷ infos))
unfolding last_id
last_id-Settles i [] = record { calm = tt }
last_id-Settles i (j ∷ infos) = last_id-Settles j infos

cursor_after-Settles :
    (x : Codec) (infos : List EventInfo) (limit end_ledger : ℕ)
    → 0 < limit
    → Settles (cursor_after x infos limit end_ledger)
unfolding cursor_after
cursor_after-Settles x [] limit end_ledger room = elim (Bool-cases (0 == limit)) [
  | inl full ↦ absurd (omega (arith, ==→eq 0 limit full))
  | inr short ↦ rw (short) (record { calm = tt })
]
cursor_after-Settles x (i ∷ infos) limit end_ledger room =
    elim (Bool-cases (length (i ∷ infos) == limit)) [
      | inl full ↦ rw (full) (last_id-Settles i infos)
      | inr short ↦ rw (short) (record { calm = tt })
    ]

find_entries-Settles :
    (h : Handler) (answer : Answer) (table : List Row) (filters : List EventFilter)
    (range : Cursor × Cursor) (limit : ℕ)
    → Settles (find_entries h answer table filters range limit)
unfolding find_entries
find_entries-Settles h answer table filters range limit =
    bind-Settles (or_fail (combine_contract_ids h.codec.decode_contract filters) invalid_params) _
      (or_fail-Settles _ invalid_params tt)
      (λ ids.
        bind-Settles (or_fail (combine_topics h.codec.marshal_segment filters) invalid_params) _
          (or_fail-Settles _ invalid_params tt) (λ topics. or_fail-Settles _ invalid_request tt))

respond-Settles :
    (h : Handler) (answer : Answer) (table : List Row) (request : Request) (range : LedgerRange)
    → 0 < limit_of h request
    → Settles (respond h answer table request range)
unfolding respond
respond-Settles h answer table request range room =
    let start = start_of request in
    let end : Cursor = record {
      ledger = end_ledger_of request range start;
      tx = 0;
      op = 0;
      event = 0;
    } in
    let limit = limit_of h request in
    bind-Settles
      (check
        (leb range.first_ledger.sequence start.ledger
          && leb start.ledger range.last_ledger.sequence)
        invalid_request)
      _ (check-Settles _ invalid_request tt)
      (λ passed.
        bind-Settles (find_entries h answer table request.filters (start, end) limit) _
          (find_entries-Settles h answer table request.filters (start, end) limit)
          (λ found.
            bind-Settles (or_fail (infos_of h request.is_json found) plain_error) _
              (or_fail-Settles _ plain_error tt)
              (λ results.
                bind-Settles (cursor_after h.codec results limit end.ledger) _
                  (cursor_after-Settles h.codec results limit end.ledger room)
                  (λ cursor. record { calm = tt }))))

-- Whatever the database and the filters answer, getEvents does not panic once it knows the range of
-- ledgers, where the limit that applies to the request is positive.
pub respond_calm :
    (h : Handler) (answer : Answer) (table : List Row) (request : Request) (range : LedgerRange)
    → 0 < limit_of h request
    → respond h answer table request range ≢ err panicked
respond_calm h answer table request range room e =
    (subst Settles e (respond-Settles h answer table request range room)).calm
