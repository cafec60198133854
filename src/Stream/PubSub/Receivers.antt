-- ===== src/Stream/PubSub/Receivers.antt =====
-- Who receives the messages of a channel.
use intell_api.Prelude.{
  ℕ, String, Bool, true, false, not, Option, none, some, List, [], ◌∷◌, ◌≡◌, ◌≢◌, inl, inr, refl,
  ap, ◌∙◌, arith, str_eq, eq_iff, eq_refl, ◌==◌, ◌&&◌, ◌||◌, Bool-cases, Option-cases,
}
use intell_api.Stream.PubSub.{
  Registry, empty, callbacks_of, is_some, has_entry, without_entry, change_entry, is_in,
  with_callback, without_callback, is_subscribed, subscribe, unsubscribe, on_message, Call, joined,
  left, is_empty, or_empty, after_calls,
}
use intell_api.Stream.PubSub.Call.{subscribing, unsubscribing}
use intell_api.Stream.PubSub.Entries.{
  map_some, changed_here, changed_there, gone_here, gone_there, is_in-with_callback,
  is_in-without_callback, is_subscribed-left, is_subscribed-joined, is_in-is_empty,
  with_callback-ne,
}

-- A registry whose channels have the receivers that are wanted, and no others: Redis sends just the
-- channels that have an entry, and no entry is empty.
pub record IsServing (r : Registry) (wanted : String → ℕ → Bool) : Type 0 where
  pub sent : (c : String) → is_subscribed c r.subscribed ≡ has_entry c r.entries
  pub nonempty : (c : String) → callbacks_of c r.entries ≢ some []
  pub heard : (c : String) (cb : ℕ) → is_in cb (on_message c r) ≡ wanted c cb

-- A change of the entry of one channel, after which that channel is as wanted.
record IsLocal (k : String) (r r' : Registry) (wanted wanted' : String → ℕ → Bool) : Type 0 where
  entries : (c : String) → str_eq k c ≡ false → callbacks_of c r'.entries ≡ callbacks_of c r.entries
  channels :
      (c : String)
      → str_eq k c ≡ false
      → is_subscribed c r'.subscribed ≡ is_subscribed c r.subscribed
  others : (c : String) (cb : ℕ) → str_eq k c ≡ false → wanted' c cb ≡ wanted c cb
  sent : is_subscribed k r'.subscribed ≡ has_entry k r'.entries
  nonempty : callbacks_of k r'.entries ≢ some []
  heard : (cb : ℕ) → is_in cb (on_message k r') ≡ wanted' k cb

local-IsServing :
    (k : String) (r r' : Registry) (wanted wanted' : String → ℕ → Bool)
    → IsLocal k r r' wanted wanted'
    → IsServing r wanted
    → IsServing r' wanted'
unfolding on_message
local-IsServing k r r' wanted wanted' l s = record {
  sent = λ c. elim (Bool-cases (str_eq k c)) [
    | inl here ↦ rw (← (eq_iff k c).0 here) l.sent
    | inr there ↦ rw (l.entries c there, l.channels c there) (s.sent c)
  ];
  nonempty = λ c h. elim (Bool-cases (str_eq k c)) [
    | inl here ↦ l.nonempty (rw (← (eq_iff k c).0 here) at h)
    | inr there ↦ s.nonempty c (rw (l.entries c there) at h)
  ];
  heard = λ c cb. elim (Bool-cases (str_eq k c)) [
    | inl here ↦ rw (← (eq_iff k c).0 here) (l.heard cb)
    | inr there ↦ rw (l.entries c there, l.others c cb there) (s.heard c cb)
  ];
}

-- The receivers after a subscription, and after the end of one.
abbrev pub with_receiver : String → ℕ → (String → ℕ → Bool) → String → ℕ → Bool
with_receiver k x wanted c cb = (str_eq k c && x == cb) || wanted c cb

abbrev pub without_receiver : String → ℕ → (String → ℕ → Bool) → String → ℕ → Bool
without_receiver k x wanted c cb = not (str_eq k c && x == cb) && wanted c cb

subscribe-IsServing :
    (k : String) (x : ℕ) (r : Registry) (wanted : String → ℕ → Bool)
    → IsServing r wanted
    → IsServing (subscribe k x r).1 (with_receiver k x wanted)
unfolding on_message subscribe callbacks_of change_entry
subscribe-IsServing k x r wanted s = elim (Option-cases (callbacks_of k r.entries)) [
  | inr (cbs, e) ↦
      let has : has_entry k r.entries ≡ true = ap is_some e in
      let f = with_callback x in
      let r' : Registry = record r { entries = change_entry k f r.entries } in
      let same : (subscribe k x r).1 ≡ r' = rw (has, e) refl in
      let here = changed_here k f r.entries ∙ ap (map_some f) e in
      rw same (
        local-IsServing k r r' wanted (with_receiver k x wanted)
          (record {
            entries = λ c d. changed_there k c f r.entries d;
            channels = λ c d. refl;
            others = λ c cb d. rw d refl;
            sent = rw here (s.sent k ∙ has);
            nonempty = λ h. with_callback-ne x cbs (ground (arith, here, h));
            heard = λ cb.
                rw (here, eq_refl k)
                  (is_in-with_callback cb x cbs ∙ ap (λ b. x == cb || b) (rw e at (s.heard k cb)));
          })
          s)
  | inl e ↦
      let has : has_entry k r.entries ≡ false = ap is_some e in
      let r' : Registry = record {
        entries = (k, with_callback x []) ∷ r.entries;
        subscribed = joined k r.subscribed;
      } in
      let same : (subscribe k x r).1 ≡ r' = rw (has, eq_refl k, eq_refl k) refl in
      rw same (
        local-IsServing k r r' wanted (with_receiver k x wanted)
          (record {
            entries = λ c d. rw d refl;
            channels = λ c d. rw (is_subscribed-joined c k r.subscribed, d) refl;
            others = λ c cb d. rw d refl;
            sent = rw (is_subscribed-joined k k r.subscribed, eq_refl k) refl;
            nonempty = λ h. with_callback-ne x [] (ground (arith, eq_refl k, h));
            heard = λ cb.
                rw (eq_refl k)
                  (is_in-with_callback cb x [] ∙ ap (λ b. x == cb || b) (rw e at (s.heard k cb)));
          })
          s)
]

unsubscribe-IsServing :
    (k : String) (x : ℕ) (r : Registry) (wanted : String → ℕ → Bool)
    → IsServing r wanted
    → IsServing (unsubscribe k x r) (without_receiver k x wanted)
unfolding on_message unsubscribe
unsubscribe-IsServing k x r wanted s = elim (Option-cases (callbacks_of k r.entries)) [
  | inl e ↦
      let same : unsubscribe k x r ≡ r = rw e refl in
      rw same (
        local-IsServing k r r wanted (without_receiver k x wanted)
          (record {
            entries = λ c d. refl;
            channels = λ c d. refl;
            others = λ c cb d. rw d refl;
            sent = s.sent k;
            nonempty = s.nonempty k;
            heard = λ cb.
                let none_ : false ≡ wanted k cb = rw e at (s.heard k cb) in
                rw e (ground (arith, none_));
          })
          s)
  | inr (cbs, e) ↦
      let f = without_callback x in
      elim (Bool-cases (is_empty (f cbs))) [
        | inl last ↦
            let r' : Registry = record {
              entries = without_entry k r.entries;
              subscribed = left k r.subscribed;
            } in
            let same : unsubscribe k x r ≡ r' = rw (e, last) refl in
            let here = gone_here k r.entries in
            rw same (
              local-IsServing k r r' wanted (without_receiver k x wanted)
                (record {
                  entries = λ c d. gone_there k c r.entries d;
                  channels = λ c d. rw (is_subscribed-left c k r.subscribed, d) (ground arith);
                  others = λ c cb d. rw d refl;
                  sent = rw (here, is_subscribed-left k k r.subscribed, eq_refl k) (ground arith);
                  nonempty = λ h. absurd (ground (arith, here, h));
                  heard = λ cb.
                      let all = rw e at (s.heard k cb) in
                      let out =
                        is_in-without_callback cb x cbs ∙ ap (λ b. b && not (x == cb)) all in
                      rw (here, eq_refl k) (ground (arith, out, is_in-is_empty cb (f cbs) last));
                })
                s)
        | inr more ↦
            let r' : Registry = record r { entries = change_entry k f r.entries } in
            let same : unsubscribe k x r ≡ r' = rw (e, more) refl in
            let here = changed_here k f r.entries ∙ ap (map_some f) e in
            rw same (
              local-IsServing k r r' wanted (without_receiver k x wanted)
                (record {
                  entries = λ c d. changed_there k c f r.entries d;
                  channels = λ c d. refl;
                  others = λ c cb d. rw d refl;
                  sent = rw here (s.sent k ∙ ap is_some e);
                  nonempty = λ h.
                      let none_ : f cbs ≡ [] = ground (arith, here, h) in
                      absurd (ground (arith, more, ap is_empty none_));
                  heard = λ cb.
                      let all = rw e at (s.heard k cb) in
                      let out =
                        is_in-without_callback cb x cbs ∙ ap (λ b. b && not (x == cb)) all in
                      rw (here, eq_refl k) (ground (arith, out));
                })
                s)
      ]
]

-- Whether a callback is wanted at a channel after some calls: the last call of it decides.
unfoldable pub wanted_after : List Call → (String → ℕ → Bool) → String → ℕ → Bool
wanted_after [] wanted = wanted
wanted_after (subscribing k x ∷ calls) wanted = wanted_after calls (with_receiver k x wanted)
wanted_after (unsubscribing k x ∷ calls) wanted = wanted_after calls (without_receiver k x wanted)

after_calls-IsServing :
    (calls : List Call) (r : Registry) (wanted : String → ℕ → Bool)
    → IsServing r wanted
    → IsServing (after_calls calls r) (wanted_after calls wanted)
unfolding after_calls wanted_after
after_calls-IsServing [] r wanted s = s
after_calls-IsServing (subscribing k x ∷ calls) r wanted s =
    after_calls-IsServing calls (subscribe k x r).1 (with_receiver k x wanted)
      (subscribe-IsServing k x r wanted s)
after_calls-IsServing (unsubscribing k x ∷ calls) r wanted s =
    after_calls-IsServing calls (unsubscribe k x r) (without_receiver k x wanted)
      (unsubscribe-IsServing k x r wanted s)

nobody : String → ℕ → Bool
nobody c cb = false

empty-IsServing : IsServing empty nobody
unfolding nobody on_message callbacks_of
empty-IsServing = record {
  sent = λ c. refl;
  nonempty = λ c h. absurd (ground (arith, h));
  heard = λ c cb. refl;
}

-- After any calls, one after the other, on a new service, for which Redis answers: a message of a
-- channel is handed to a callback exactly if the last call about the two was a subscription, and
-- Redis sends the messages of just the channels that have a callback.
pub after_calls_lem :
    (calls : List Call) (c : String) (cb : ℕ)
    → (is_in cb (on_message c (after_calls calls empty)) ≡ wanted_after calls (λ d x. false) c cb)
      × (is_subscribed c (after_calls calls empty).subscribed
          ≡ not (is_empty (on_message c (after_calls calls empty))))
unfolding nobody on_message
after_calls_lem calls c cb =
    let s = after_calls-IsServing calls empty nobody empty-IsServing in
    let r = after_calls calls empty in
    (s.heard c cb, s.sent c ∙ filled (callbacks_of c r.entries) (s.nonempty c))
  where
    filled : (o : Option (List ℕ)) → o ≢ some [] → is_some o ≡ not (is_empty (or_empty o))
    filled none h = refl
    filled (some []) h = absurd (h refl)
    filled (some (x ∷ xs)) h = refl
