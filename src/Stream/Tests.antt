-- ===== src/Stream/Tests.antt =====
-- Two clients of one inverter's stream.
use intell_api.Prelude.{false, not, List, [], ◌∷◌, ◌≡◌, refl}
use intell_api.Exec.{thrown, err}
use intell_api.Stream.PubSub.{
  Registry, Call, empty, callbacks_of, is_in, is_empty, is_subscribed, open_entry, add_callback,
  subscribe, unsubscribe, on_message, after_calls,
}
use intell_api.Stream.PubSub.Call.{subscribing, unsubscribing}
use intell_api.Stream.PubSub.Receivers.{wanted_after, after_calls_lem}

-- The first leaves, and the second stays.
abbrev two_clients : List Call
two_clients =
    subscribing "inverter:1" 1 ∷ subscribing "inverter:1" 2 ∷ unsubscribing "inverter:1" 1 ∷ []

still_served : on_message "inverter:1" (after_calls two_clients empty) ≡ 2 ∷ []
unfolding on_message after_calls callbacks_of
still_served = refl

after_calls_lem_example :
    (is_in 2 (on_message "inverter:1" (after_calls two_clients empty))
      ≡ wanted_after two_clients (λ d x. false) "inverter:1" 2)
    × (is_subscribed "inverter:1" (after_calls two_clients empty).subscribed
        ≡ not (is_empty (on_message "inverter:1" (after_calls two_clients empty))))
after_calls_lem_example = after_calls_lem two_clients "inverter:1" 2

-- While the first client waits for Redis, the second comes and leaves again: the first fails.
while_waiting : Registry
unfolding open_entry subscribe unsubscribe
while_waiting =
    unsubscribe "inverter:1" 2 (subscribe "inverter:1" 2 (open_entry "inverter:1" empty)).1

first_fails :
    add_callback "inverter:1" 1 while_waiting
    ≡ (err (thrown "Cannot read properties of undefined (reading 'add')"), while_waiting)
unfolding add_callback callbacks_of while_waiting
first_fails = refl
