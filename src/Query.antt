-- ===== src/Query.antt =====
-- Server/database/Database/QueryCallback.cpp: a query that runs on another thread, and the chain of
-- functions to call with its result and those of the queries that follow it. A member of a union is
-- the one that is alive, a future without state is `none`, and a `std::function` is a name: what it
-- does with the object that it is given is a parameter, as calls of the public operations.
pub mod Typed
pub mod Acts
pub mod Moves
pub mod Chain
pub mod Polls
use mmo_wow.Prelude.{
  ℕ, ◌≡◌, Bool, true, false, ◌&&◌, ◌||◌, not, List, [], ◌∷◌, ◌++◌, Option, none, some, Result, ok,
  err, out_of_bounds, assertion, inactive_member, require, ◌>>=◌, ◌>>◌, if◌then◌else◌,
}

-- `QueryResultFuture` and `PreparedQueryResultFuture`: ready or not, and the result there will be
pub record Future : Type 0 where
  pub is_ready : Bool
  pub result : ℕ

-- the unions of `QueryCallback` and of `QueryCallbackData`
pub data Member (A : Type 0) : Type 0 where
  string : A → Member A
  prepared : A → Member A

-- `_string` and `_prepared`
abbrev pub as_string : {A : Type 0} → Member A → Result A
as_string (string a) = ok a
as_string (prepared a) = err inactive_member

abbrev pub as_prepared : {A : Type 0} → Member A → Result A
as_prepared (prepared a) = ok a
as_prepared (string a) = err inactive_member

-- the active member by `_isPrepared`, as every function of the file selects it
unfoldable pub active_member : {A : Type 0} → Bool → Member A → Result A
active_member is_prepared m = if is_prepared then as_prepared m else as_string m

abbrev pub assign : {A : Type 0} → A → Member A → Member A
assign a (string b) = string a
assign a (prepared b) = prepared a

pub record QueryCallbackData : Type 0 where
  pub member : Member ℕ
  pub is_prepared : Bool

pub record QueryCallback : Type 0 where
  pub member : Member (Option Future)
  pub is_prepared : Bool
  pub callbacks : List QueryCallbackData

-- the constructors from a future
unfoldable pub string_query : Future → QueryCallback
string_query f = record { member = string (some f); is_prepared = false; callbacks = [] }

unfoldable pub prepared_query : Future → QueryCallback
prepared_query f = record { member = prepared (some f); is_prepared = true; callbacks = [] }

-- the constructors of `QueryCallbackData`
unfoldable pub string_data : ℕ → QueryCallbackData
string_data callback = record { member = string callback; is_prepared = false }

unfoldable pub prepared_data : ℕ → QueryCallbackData
prepared_data callback = record { member = prepared callback; is_prepared = true }

abbrev pub same_kind : Bool → Bool → Bool
same_kind true b = b
same_kind false b = not b

-- `MoveFrom(to, from)`: the active member of `to` is assigned that of `from`
unfoldable pub move_from : QueryCallback → QueryCallback → Result QueryCallback
move_from to from = do
  require (same_kind to.is_prepared from.is_prepared) assertion
  f ← active_member to.is_prepared from.member
  g ← active_member to.is_prepared to.member
  ok (record to { member = assign f to.member })

-- `ConstructActiveMember`, with no future
unfoldable pub construct_active_member : Bool → Member (Option Future)
construct_active_member is_prepared = if is_prepared then prepared none else string none

-- `operator=(right)`, and the constructor that moves
unfoldable pub move_assign : QueryCallback → QueryCallback → Result QueryCallback
move_assign right q = do
  kept ←
      if same_kind q.is_prepared right.is_prepared
      then ok q
      else (active_member q.is_prepared q.member >>= λ _. ok (record q {
        member = construct_active_member right.is_prepared;
        is_prepared = right.is_prepared;
      }))
  moved ← move_from kept right
  ok (record moved { callbacks = right.callbacks })

unfoldable pub move_construct : QueryCallback → Result QueryCallback
move_construct right = do
  moved ←
      move_from
        (record {
          member = construct_active_member right.is_prepared;
          is_prepared = right.is_prepared;
          callbacks = [];
        })
        right
  ok (record moved { callbacks = right.callbacks })

-- `SetNextQuery(next)`
unfoldable pub set_next_query : QueryCallback → QueryCallback → Result QueryCallback
set_next_query next q = move_from q next

abbrev pub is_empty : List QueryCallbackData → Bool
is_empty [] = true
is_empty (c ∷ cs) = false

-- `WithChainingCallback(callback)`
unfoldable pub with_chaining_callback : ℕ → QueryCallback → Result QueryCallback
with_chaining_callback callback q = do
  require (not (is_empty q.callbacks) || not q.is_prepared) assertion
  ok (record q { callbacks = q.callbacks ++ (string_data callback ∷ []) })

-- `WithChainingPreparedCallback(callback)`
unfoldable pub with_chaining_prepared_callback : ℕ → QueryCallback → Result QueryCallback
with_chaining_prepared_callback callback q = do
  require (not (is_empty q.callbacks) || q.is_prepared) assertion
  ok (record q { callbacks = q.callbacks ++ (prepared_data callback ∷ []) })

abbrev pub ready : Option Future → Option Future
ready none = none
ready (some f) = some (record f { is_ready = true })

unfoldable pub arrived : Member (Option Future) → Member (Option Future)
arrived (string f) = string (ready f)
arrived (prepared f) = prepared (ready f)

-- what another thread does: the result is there
unfoldable pub arrive : QueryCallback → QueryCallback
arrive q = record q { member = arrived q.member }

-- What a function that is called back can do with the object: a next query of a kind, or one more
-- function of a kind.
pub data Action : Type 0 where
  next_string : Future → Action
  next_prepared : Future → Action
  add_string : ℕ → Action
  add_prepared : ℕ → Action

unfoldable pub act : Action → QueryCallback → Result QueryCallback
act (next_string f) q = set_next_query (string_query f) q
act (next_prepared f) q = set_next_query (prepared_query f) q
act (add_string callback) q = with_chaining_callback callback q
act (add_prepared callback) q = with_chaining_prepared_callback callback q

unfoldable pub act_all : List Action → QueryCallback → Result QueryCallback
act_all [] q = ok q
act_all (a ∷ rest) q = act a q >>= λ r. act_all rest r

-- `valid()`, and `valid() && wait_for(0) == ready`
abbrev pub is_valid : Option Future → Bool
is_valid none = false
is_valid (some f) = true

abbrev pub ready_result : Option Future → Option ℕ
ready_result none = none
ready_result (some f) = if f.is_ready then some f.result else none

-- `checkStateAndReturnCompletion` after `_callbacks.pop()`
unfoldable pub check_rest :
    Option Future → QueryCallback → List QueryCallbackData → Result (Bool × QueryCallback)
check_rest future q [] =
    require (not (is_valid future)) assertion >> ok (true, record q { callbacks = [] })
check_rest future q (c ∷ cs) =
    if not (is_valid future)
    then ok (true, record q { callbacks = c ∷ cs })
    else (require (same_kind q.is_prepared c.is_prepared) assertion
        >> ok (false, record q { callbacks = c ∷ cs }))

-- `checkStateAndReturnCompletion`, on the functions of the query
unfoldable pub check_state : QueryCallback → List QueryCallbackData → Result (Bool × QueryCallback)
check_state q [] = err out_of_bounds
check_state q (front ∷ rest) =
    active_member q.is_prepared q.member >>= λ future. check_rest future q rest

-- what the functions do that are called back, by their result
module _ (body : ℕ → ℕ → List Action) where
  -- `InvokeIfReady` on a result: `_callbacks.front()` is called by the kind of the query, with the
  -- future moved out of the object before
  unfoldable pub invoke_with :
      ℕ → QueryCallback → List QueryCallbackData → Result (Bool × QueryCallback)
  invoke_with result q [] = err out_of_bounds
  invoke_with result q (front ∷ rest) = active_member q.is_prepared front.member >>= λ cb.
      act_all (body cb result) (record q { member = assign none q.member }) >>= λ r.
      check_state r r.callbacks

  abbrev pub invoke_on : Option ℕ → QueryCallback → Result (Bool × QueryCallback)
  invoke_on none q = ok (false, q)
  invoke_on (some result) q = invoke_with result q q.callbacks

  unfoldable pub invoke_if_ready : QueryCallback → Result (Bool × QueryCallback)
  invoke_if_ready q =
      active_member q.is_prepared q.member >>= λ future. invoke_on (ready_result future) q
