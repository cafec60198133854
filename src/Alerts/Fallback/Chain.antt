-- ===== src/Alerts/Fallback/Chain.antt =====
-- Which channels are tried, in which order, and what comes out.
use mathlib.Core.List.{append-nil, append_assoc}
use intell_api.Prelude.{
  length-append, sym, ◌∙◌, ◌&&◌, ◌⊎◌, ◌≡◌, String, Bool, true, false, not, Option, none, some, List,
  [], ◌∷◌, ◌++◌, arith, keep, find_first, if◌then◌else◌, length, ◌+◌, Bool-cases, inl, inr, refl,
}
use intell_api.Prelude.Text.{◌&◌}
use intell_api.Alerts.Fallback.{
  AlertDelivery, DeliveryResult, DeliveryStatus, delivered, SendResult, sent, threw, Service,
  is_disabled, final_status, deliver_from, deliver_with_fallback, attempt,
}

-- Services whose outcomes are given channel by channel, and which note each call in a list.
abbrev pub noting : (String → SendResult) → String → Option (Service (List String))
noting outcome channel = some (λ details calls. (outcome channel, calls ++ channel ∷ []))

abbrev pub is_sent : SendResult → Bool
is_sent sent = true
is_sent (threw e) = false

send-cases : (r : SendResult) → (r ≡ sent) ⊎ ((e : String) × (r ≡ threw e))
send-cases sent = inl refl
send-cases (threw e) = inr (e, refl)

-- The elements up to and with the first that passes the test.
abbrev pub up_to {ℓ} : {A : Type ℓ} → (A → Bool) → List A → List A
up_to p [] = []
up_to p (x ∷ xs) = let rest = up_to p xs in if p x then x ∷ [] else x ∷ rest

module _ (outcome : String → SendResult) (d : AlertDelivery) where
  pub is_enabled : String → Bool
  is_enabled channel = not (is_disabled d.user_settings channel)

  is_disabled_of : (c : String) → is_enabled c ≡ true → is_disabled d.user_settings c ≡ false
  unfolding is_enabled
  is_disabled_of c h = ground arith

  pub delivers : String → Bool
  delivers channel = is_sent (outcome channel)

  run : List String → List String → Option String → List String → DeliveryResult × List String
  run = deliver_from (noting outcome) d

  skipped :
      (c : String) (cs audit calls : List String) (last : Option String)
      → is_enabled c ≡ false
      → (a : List String) × (run (c ∷ cs) audit last calls ≡ run cs (audit ++ a) last calls)
        × (length a ≡ 1)
  unfolding run deliver_from is_enabled
  skipped c cs audit calls last h = ((c & ": skipped (user disabled)") ∷ [], ground arith, refl)

  sent_to :
      (c : String) (cs audit calls : List String) (last : Option String)
      → is_enabled c ≡ true
      → outcome c ≡ sent
      → run (c ∷ cs) audit last calls ≡ (
        record {
          status = delivered;
          channel_used = some c;
          audit = audit ++ (c & ": delivered") ∷ [];
        },
        calls ++ c ∷ [],
      )
  unfolding run deliver_from is_enabled attempt
  sent_to c cs audit calls last h e = rw (e, is_disabled_of c h)

  threw_at :
      (c : String) (cs audit calls : List String) (last : Option String) (e : String)
      → is_enabled c ≡ true
      → outcome c ≡ threw e
      → run (c ∷ cs) audit last calls
        ≡ run cs (audit ++ (c & ": failed - " & e) ∷ []) (some e) (calls ++ c ∷ [])
  unfolding run deliver_from is_enabled attempt
  threw_at c cs audit calls last e h o = rw (o, is_disabled_of c h)

  -- The message of the last of these channels, if they all throw.
  pub error_of : SendResult → Option String → Option String
  error_of sent last = last
  error_of (threw e) last = some e

  pub last_error : Option String → List String → Option String
  last_error last [] = last
  last_error last (c ∷ cs) = last_error (error_of (outcome c) last) cs

  last_error-threw :
      (c : String) (cs : List String) (last : Option String) (m : String)
      → outcome c ≡ threw m
      → last_error last (c ∷ cs) ≡ last_error (some m) cs
  unfolding last_error error_of
  last_error-threw c cs last m e = rw (e, error_of)

  pub status_of : Option String → Option String → DeliveryStatus
  status_of (some c) last = delivered
  status_of none last = final_status last

  pub stops : String → Bool
  stops c = is_enabled c && delivers c

  record IsOutcome (cs audit calls : List String) (last : Option String)
      (r : DeliveryResult × List String) : Type 0 where
    called : r.1 ≡ calls ++ up_to delivers (keep is_enabled cs)
    used : r.0.channel_used ≡ find_first delivers (keep is_enabled cs)
    status :
        r.0.status
        ≡ status_of
            (find_first delivers (keep is_enabled cs))
            (last_error last (keep is_enabled cs))
    audited : length r.0.audit ≡ length audit + length (up_to stops cs)

  run-IsOutcome :
      (cs audit calls : List String) (last : Option String)
      → IsOutcome cs audit calls last (run cs audit last calls)
  unfolding delivers stops status_of
  run-IsOutcome [] audit calls last =
      unfold run deliver_from last_error in
      record { called = sym (append-nil calls); used = refl; status = refl; audited = omega arith }
  run-IsOutcome (c ∷ cs) audit calls last = elim (Bool-cases (is_enabled c)) [
    | inr off ↦
        let (a, e, one) = skipped c cs audit calls last off in
        let ih = run-IsOutcome cs (audit ++ a) calls last in
        record {
          called = rw (e, off) ih.called;
          used = rw (e, off) ih.used;
          status = rw (e, off) ih.status;
          audited = rw (e, off) (omega (arith, ih.audited, length-append audit a));
        }
    | inl on ↦ elim (send-cases (outcome c)) [
      | inl done ↦ record {
        called = rw (sent_to c cs audit calls last on done, on, done) refl;
        used = rw (sent_to c cs audit calls last on done, on, done) refl;
        status = rw (sent_to c cs audit calls last on done, on, done) refl;
        audited = rw (sent_to c cs audit calls last on done, on, done) (length-append audit _);
      }
      | inr (m, failed_) ↦
          let ih =
            run-IsOutcome cs (audit ++ (c & ": failed - " & m) ∷ []) (calls ++ c ∷ []) (some m) in
          record {
            called =
                rw (threw_at c cs audit calls last m on failed_, on, failed_)
                  (ih.called ∙ append_assoc calls (c ∷ []) _);
            used = rw (threw_at c cs audit calls last m on failed_, on, failed_) ih.used;
            status =
                rw
                  (
                    threw_at c cs audit calls last m on failed_,
                    on,
                    failed_,
                    last_error-threw c (keep is_enabled cs) last m failed_,
                  )
                  ih.status;
            audited =
                rw (threw_at c cs audit calls last m on failed_, on, failed_)
                  (omega (arith, ih.audited, length-append audit ((c & ": failed - " & m) ∷ [])));
          }
    ]
  ]

  -- With services whose outcome depends on the channel alone: the channels that are called are the
  -- enabled ones in their order, each once, up to and with the first that delivers; that one is
  -- the channel used; the status is `delivered` if there is one, and else depends on the error of
  -- the last enabled channel (`failed` if there is one with a message that is not empty,
  -- `partial_success` otherwise); the audit has a line for each channel that was looked at.
  pub deliver_with_fallback_lem :
      let r = deliver_with_fallback (noting outcome) d [] in
      let enabled = keep is_enabled d.channels in
      (r.1 ≡ up_to delivers enabled)
      × (r.0.channel_used ≡ find_first delivers enabled)
      × (r.0.status ≡ status_of (find_first delivers enabled) (last_error none enabled))
      × (length r.0.audit ≡ length (up_to stops d.channels))
  unfolding deliver_with_fallback run
  deliver_with_fallback_lem =
      let o = run-IsOutcome d.channels [] [] none in
      (o.called, o.used, o.status, omega (arith, o.audited))
