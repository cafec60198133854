-- ===== src/Poller/Tracker.antt =====
-- modules/metrics-stream/poller/metrics-poller.service.ts: the arrays of tracked inverters, the
-- failure counts, and the messages of the control channel.
pub mod Tracked
pub mod Removed
use intell_api.Prelude.{
  ℕ, String, Bool, true, false, not, ◌&&◌, ◌||◌, Option, none, some, List, [], ◌∷◌, ◌++◌, any_of,
  if◌then◌else◌, str_eq,
}
use intell_api.Common.Enums.{InverterBrand, victron, growatt, sunsynk, deye, sandbox}
use intell_api.Exec.{Result, ok, err}
use intell_api.Inverters.{Inverter}

pub record Tracker : Type 0 where
  pub victron_inverters : List Inverter
  pub growatt_inverters : List Inverter
  pub sunsynk_inverters : List Inverter
  pub sandbox_inverters : List Inverter
  pub failure_counts : String → Option ℕ

-- getArrayForBrand: an array of its own for a brand that has none.
unfoldable pub get_array_for_brand : InverterBrand → Tracker → List Inverter
get_array_for_brand victron t = t.victron_inverters
get_array_for_brand growatt t = t.growatt_inverters
get_array_for_brand sunsynk t = t.sunsynk_inverters
get_array_for_brand sandbox t = t.sandbox_inverters
get_array_for_brand deye t = []

-- A change in place of the array that getArrayForBrand returns: that of DEYE is lost.
unfoldable pub set_array : InverterBrand → List Inverter → Tracker → Tracker
set_array victron is t = record t { victron_inverters = is }
set_array growatt is t = record t { growatt_inverters = is }
set_array sunsynk is t = record t { sunsynk_inverters = is }
set_array sandbox is t = record t { sandbox_inverters = is }
set_array deye is t = t

-- loadInverters: the answers of inverterModelAction.findSpecificBrand, all of them or none.
unfoldable pub load_inverters : (InverterBrand → Result (List Inverter)) → Tracker → Result Tracker
load_inverters find t = elim (find victron) [
  | err e ↦ err e
  | ok vs ↦ elim (find growatt) [
    | err e ↦ err e
    | ok gs ↦ elim (find sunsynk) [
      | err e ↦ err e
      | ok ss ↦ elim (find sandbox) [
        | err e ↦ err e
        | ok bs ↦ ok (record t {
          victron_inverters = vs;
          growatt_inverters = gs;
          sunsynk_inverters = ss;
          sandbox_inverters = bs;
        })
      ]
    ]
  ]
]

abbrev pub has_id : String → Inverter → Bool
has_id id i = str_eq i.id id

-- arr.some((i) => i.id === inverterId)
abbrev pub is_in : String → List Inverter → Bool
is_in id is = any_of (has_id id) is

-- splice(idx, 1) at the first inverter with the id.
abbrev pub without_first : String → List Inverter → List Inverter
without_first id [] = []
without_first id (i ∷ is) = let rest = without_first id is in if has_id id i then is else i ∷ rest

unfoldable pub set_count : String → Option ℕ → Tracker → Tracker
set_count id n t = record t {
  failure_counts = λ key. if str_eq key id then n else t.failure_counts key;
}

-- From the test for a duplicate on.
unfoldable pub register : Inverter → Tracker → Tracker
register i t =
    let is = get_array_for_brand i.brand t in
    if is_in i.id is then t else set_array i.brand (is ++ i ∷ []) t

-- What the query for the inverter gave.
unfoldable pub handle_inverter_registered : Result (Option Inverter) → Tracker → Tracker
handle_inverter_registered (ok (some i)) t = register i t
handle_inverter_registered _ t = t

-- The loop over the brands.
unfoldable pub deregister_from : List InverterBrand → String → Tracker → Tracker
deregister_from [] id t = t
deregister_from (brand ∷ brands) id t =
    let is = get_array_for_brand brand t in
    let rest = deregister_from brands id t in
    if is_in id is then set_count id none (set_array brand (without_first id is) t) else rest

-- Object.values(InverterBrand)
abbrev pub all_brands : List InverterBrand
all_brands = victron ∷ growatt ∷ sunsynk ∷ deye ∷ sandbox ∷ []

unfoldable pub handle_inverter_deregistered : String → Tracker → Tracker
unfolding deregister_from
handle_inverter_deregistered id t = deregister_from all_brands id t

-- A control message as JSON.parse gives it: `none` where a field is missing or no text.
pub record ControlMessage : Type 0 where
  pub event : Option String
  pub inverter_id : Option String
  pub brand : Option String

abbrev is_text : Option String → Bool
is_text none = false
is_text (some s) = true

abbrev is_filled : Option String → Bool
is_filled none = false
is_filled (some s) = not (str_eq s "")

abbrev is_event : String → Option String → Bool
is_event s none = false
is_event s (some e) = str_eq e s

unfoldable pub is_valid_control_message : ControlMessage → Bool
is_valid_control_message m =
    (is_event "registered" m.event || is_event "deregistered" m.event)
    && (is_filled m.inverter_id && is_text m.brand)

abbrev id_of : Option String → String
id_of none = ""
id_of (some s) = s

-- The callback of the control channel: `none` for a text that is no JSON object. The inverters are
-- those that the query finds by id.
unfoldable pub handle_control_message :
    (String → Result (Option Inverter)) → Option ControlMessage → Tracker → Tracker
handle_control_message find none t = t
handle_control_message find (some m) t =
    let id = id_of m.inverter_id in
    if is_valid_control_message m
    then (if is_event "registered" m.event
        then handle_inverter_registered (find id) t
        else handle_inverter_deregistered id t)
    else t
