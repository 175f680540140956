-- ===== src/Methods.antt =====
-- cmd/stellar-rpc/internal/methods: the request handlers. What they share: a response or a JSON-RPC
-- error. The errors' texts are left out.
pub mod GetEvents
pub mod GetLedgers
pub mod GetTransaction
pub mod GetTransactions
pub mod Status
use stellar_rpc.Prelude.{◌≡◌, refl, Bool, true, false, Option, none, some}

-- The codes of jrpc2.Error; `joined_errors` and `plain_error` are errors of errors.Join and of
-- errors.Wrap, which have no code, and `panicked` stands for a panic.
pub data RpcError : Type 0 where
  internal_error invalid_request invalid_params joined_errors plain_error panicked : RpcError

-- What a handler returns.
pub data Result {ℓ} (Response : Type ℓ) : Type ℓ where
  err : RpcError → Result Response
  ok : Response → Result Response

abbrev pub or_fail {ℓ} : {Found : Type ℓ} → Option Found → RpcError → Result Found
or_fail (some found) code = ok found
or_fail none code = err code

abbrev pub check : Bool → RpcError → Result (Unit {0})
check passed code = elim passed [ false ↦ err code | true ↦ ok tt ]

-- A handler's next step, where the one before it returned no error.
infixl 5 ◌>>=◌
abbrev pub ◌>>=◌ {ℓ κ} :
    {Part : Type ℓ} {Whole : Type κ} → Result Part → (Part → Result Whole) → Result Whole
err code >>= step = err code
ok part >>= step = step part

infixl 5 ◌>>◌
abbrev pub ◌>>◌ {ℓ} : {Whole : Type ℓ} → Result (Unit {0}) → Result Whole → Result Whole
checked >> rest = checked >>= λ passed. rest

-- A property of the result, if there is one.
abbrev pub Holds {ℓ κ} : {A : Type ℓ} → (A → Type κ) → Result A → Type κ
Holds P (ok a) = P a
Holds P (err e) = Unit

pub bind-Holds {ℓ κ μ} :
    {A : Type ℓ} {B : Type κ} (P : B → Type μ) (m : Result A) (f : A → Result B)
    → ((a : A) → m ≡ ok a → Holds P (f a))
    → Holds P (m >>= f)
bind-Holds P (ok a) f h = h a refl
bind-Holds P (err e) f h = tt
