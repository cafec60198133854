-- ===== src/Stream/PubSub.antt =====
-- modules/metrics-stream/pubsub/metrics-pubsub.service.ts. A callback, which JavaScript compares by
-- reference, is a number.
pub mod Entries
pub mod Receivers
use intell_api.Prelude.{
  ℕ, String, Bool, true, false, not, Option, none, some, List, [], ◌∷◌, ◌++◌, any_of, keep,
  if◌then◌else◌, str_eq, ◌==◌,
}
use intell_api.Exec.{thrown, Result, ok, err}

-- A map from channels to sets of callbacks, and the channels that Redis sends to this client.
pub record Registry : Type 0 where
  pub entries : List (String × List ℕ)
  pub subscribed : List String

abbrev pub empty : Registry
empty = record { entries = []; subscribed = [] }

-- Map.get and Map.has
unfoldable pub callbacks_of : String → List (String × List ℕ) → Option (List ℕ)
callbacks_of channel [] = none
callbacks_of channel ((key, cbs) ∷ rest) =
    let found = callbacks_of channel rest in if str_eq key channel then some cbs else found

abbrev pub is_some : Option (List ℕ) → Bool
is_some none = false
is_some (some cbs) = true

abbrev pub has_entry : String → List (String × List ℕ) → Bool
has_entry channel entries = is_some (callbacks_of channel entries)

-- Map.delete
unfoldable pub without_entry : String → List (String × List ℕ) → List (String × List ℕ)
without_entry channel [] = []
without_entry channel ((key, cbs) ∷ rest) =
    let others = without_entry channel rest in
    if str_eq key channel then others else (key, cbs) ∷ others

-- A change of the set of a key.
unfoldable pub change_entry :
    String → (List ℕ → List ℕ) → List (String × List ℕ) → List (String × List ℕ)
change_entry channel f [] = []
change_entry channel f ((key, cbs) ∷ rest) =
    let others = change_entry channel f rest in
    if str_eq key channel then (key, f cbs) ∷ rest else (key, cbs) ∷ others

-- Set.has, Set.add and Set.delete
abbrev pub is_in : ℕ → List ℕ → Bool
is_in cb cbs = any_of (λ x. x == cb) cbs

unfoldable pub with_callback : ℕ → List ℕ → List ℕ
with_callback cb cbs = if is_in cb cbs then cbs else cbs ++ cb ∷ []

unfoldable pub without_callback : ℕ → List ℕ → List ℕ
without_callback cb cbs = keep (λ x. not (x == cb)) cbs

-- What Redis does with SUBSCRIBE and UNSUBSCRIBE.
abbrev pub is_subscribed : String → List String → Bool
is_subscribed channel channels = any_of (λ c. str_eq c channel) channels

abbrev pub joined : String → List String → List String
joined channel channels = if is_subscribed channel channels then channels else channel ∷ channels

abbrev pub left : String → List String → List String
left channel channels = keep (λ c. not (str_eq c channel)) channels

-- The first part of subscribe, up to `await this.subscriber.subscribe(channel)`.
unfoldable pub open_entry : String → Registry → Registry
open_entry channel r = record {
  entries = (channel, []) ∷ r.entries;
  subscribed = joined channel r.subscribed;
}

-- this.subscriptions.get(channel)!.add(callback), which throws if the entry is gone.
unfoldable pub add_found : String → ℕ → Registry → Option (List ℕ) → Result (Unit {0}) × Registry
unfolding change_entry with_callback
add_found channel cb r none =
    (err (thrown "Cannot read properties of undefined (reading 'add')"), r)
add_found channel cb r (some cbs) =
    (ok tt, record r { entries = change_entry channel (with_callback cb) r.entries })

unfoldable pub add_callback : String → ℕ → Registry → Result (Unit {0}) × Registry
unfolding add_found
add_callback channel cb r = add_found channel cb r (callbacks_of channel r.entries)

-- A subscription that no other call interrupts, and for which Redis answers.
unfoldable pub subscribe : String → ℕ → Registry → Result (Unit {0}) × Registry
unfolding open_entry add_callback
subscribe channel cb r =
    if has_entry channel r.entries
    then add_callback channel cb r
    else add_callback channel cb (open_entry channel r)

abbrev pub is_empty : List ℕ → Bool
is_empty [] = true
is_empty (x ∷ xs) = false

-- The entry goes with its last callback.
unfoldable pub remove_found : String → ℕ → Registry → Option (List ℕ) → Registry
unfolding change_entry without_entry without_callback
remove_found channel cb r none = r
remove_found channel cb r (some cbs) =
    if is_empty (without_callback cb cbs)
    then record {
      entries = without_entry channel r.entries;
      subscribed = left channel r.subscribed;
    }
    else record r { entries = change_entry channel (without_callback cb) r.entries }

unfoldable pub unsubscribe : String → ℕ → Registry → Registry
unfolding remove_found
unsubscribe channel cb r = remove_found channel cb r (callbacks_of channel r.entries)

abbrev pub or_empty : Option (List ℕ) → List ℕ
or_empty none = []
or_empty (some cbs) = cbs

-- The callbacks that a message is handed to, in their order, if Redis sends it.
unfoldable pub on_message : String → Registry → List ℕ
on_message channel r = or_empty (callbacks_of channel r.entries)

-- The calls of the service, one after the other.
pub data Call : Type 0 where
  subscribing unsubscribing : String → ℕ → Call

unfoldable pub after_call : Call → Registry → Registry
unfolding subscribe unsubscribe
after_call (subscribing channel cb) r = (subscribe channel cb r).1
after_call (unsubscribing channel cb) r = unsubscribe channel cb r

unfoldable pub after_calls : List Call → Registry → Registry
unfolding after_call
after_calls [] r = r
after_calls (c ∷ cs) r = after_calls cs (after_call c r)
