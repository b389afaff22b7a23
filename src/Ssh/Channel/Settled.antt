-- ===== src/Ssh/Channel/Settled.antt =====
-- How the promise of `execOnClient` settles.
use nginx_admin.Common.{
  ℕ, ◌≡◌, refl, ◌∙◌, Bool, true, false, Option, List, [], ◌∷◌, Text, arith, length, length-append,
}
use nginx_admin.Secrets.{Value}
use nginx_admin.Effects.{Result}
use nginx_admin.Ssh.Channel.{
  Buffer, Channel, Event, abort, timeout, exec_opened, exec_failed, out_chunk, err_chunk, close,
  settle_once, start, step, run,
}

abbrev count_of : Bool → ℕ
count_of true = 1
count_of false = 0

-- The promise is resolved or rejected exactly if `settled` says so, and then once. While it is
-- pending the timer runs, the listener is registered and no stream was closed; afterwards neither
-- is left.
pub record IsSound (c : Channel) : Type 0 where
  pub once : length c.outcomes ≡ count_of c.settled
  pub timed : c.settled ≡ false → c.timer ≡ true
  pub heard : c.settled ≡ false → c.listening ≡ true
  pub untimed : c.settled ≡ true → c.timer ≡ false
  pub unheard : c.settled ≡ true → c.listening ≡ false
  pub open_while_pending : c.settled ≡ false → c.closes ≡ 0

settle_once-IsSound :
    (r : Result Text) (c : Channel)
    → length c.outcomes ≡ count_of c.settled
    → (c.settled ≡ true → c.timer ≡ false)
    → (c.settled ≡ true → c.listening ≡ false)
    → IsSound (settle_once r c)
unfolding settle_once
settle_once-IsSound r c h t l = ground (arith, length-append c.outcomes (r ∷ []))

pub start-IsSound : (aborted : Bool) → IsSound (start aborted)
unfolding start
start-IsSound true = ground arith
start-IsSound false = ground arith

module _ (json_parse : Text → Option Value) (decode : Buffer → Text) where
  pub step-IsSound : (c : Channel) (e : Event) → IsSound c → IsSound (step json_parse decode c e)
  unfolding step
  step-IsSound c abort s = grind (arith, length-append)
  step-IsSound c timeout s = grind (arith, length-append)
  step-IsSound c exec_opened s = ground arith
  step-IsSound c (exec_failed m) s = grind (arith, length-append)
  step-IsSound c (out_chunk t) s = ground arith
  step-IsSound c (err_chunk t) s = ground arith
  step-IsSound c (close code) s = grind (arith, length-append)

  pub run-IsSound :
      (c : Channel) (es : List Event) → IsSound c → IsSound (run json_parse decode c es)
  unfolding run
  run-IsSound c [] s = s
  run-IsSound c (e ∷ es) s = run-IsSound (step json_parse decode c e) es (step-IsSound c e s)

  -- Whatever happens, from the start on: the promise of `execOnClient` settles at most once; until
  -- then its timer runs, its abort listener is registered and no stream was closed, and from then
  -- on neither the timer nor the listener is left.
  pub start-run-IsSound :
      (aborted : Bool) (es : List Event) → IsSound (run json_parse decode (start aborted) es)
  start-run-IsSound aborted es = run-IsSound (start aborted) es (start-IsSound aborted)

  step-settled :
      (c : Channel) (e : Event)
      → IsSound c
      → c.settled ≡ true
      → ((step json_parse decode c e).settled ≡ true)
        × ((step json_parse decode c e).outcomes ≡ c.outcomes)
        × ((step json_parse decode c e).closes ≡ c.closes)
  unfolding step
  step-settled c abort s h = ground arith
  step-settled c timeout s h = ground arith
  step-settled c exec_opened s h = ground arith
  step-settled c (exec_failed m) s h = ground arith
  step-settled c (out_chunk t) s h = ground arith
  step-settled c (err_chunk t) s h = ground arith
  step-settled c (close code) s h = ground arith

  run-settled :
      (c : Channel) (es : List Event)
      → IsSound c
      → c.settled ≡ true
      → ((run json_parse decode c es).settled ≡ true)
        × ((run json_parse decode c es).outcomes ≡ c.outcomes)
        × ((run json_parse decode c es).closes ≡ c.closes)
  unfolding run
  run-settled c [] s h = (h, refl, refl)
  run-settled c (e ∷ es) s h =
      let (h1, o1, k1) = step-settled c e s h in
      let (h2, o2, k2) = run-settled (step json_parse decode c e) es (step-IsSound c e s) h1 in
      (h2, o2 ∙ o1, k2 ∙ k1)

  -- Once the promise is settled no later event changes what it was settled with, and no later
  -- event closes a stream: not even one that opens after an abort or a timeout.
  pub run-after_settled :
      (aborted : Bool) (es later : List Event)
      → (run json_parse decode (start aborted) es).settled ≡ true
      → ((run json_parse decode (run json_parse decode (start aborted) es) later).outcomes
          ≡ (run json_parse decode (start aborted) es).outcomes)
        × ((run json_parse decode (run json_parse decode (start aborted) es) later).closes
            ≡ (run json_parse decode (start aborted) es).closes)
  run-after_settled aborted es later h =
      let (h', o, k) =
        run-settled (run json_parse decode (start aborted) es) later (start-run-IsSound aborted es)
          h in
      (o, k)

  step-timeout : (c : Channel) → IsSound c → (step json_parse decode c timeout).settled ≡ true
  unfolding step
  step-timeout c s = ground arith

  -- The timeout settles the promise, whatever happened before and whatever follows.
  pub run-timeout-settled :
      (aborted : Bool) (es later : List Event)
      → (run json_parse decode
          (step json_parse decode (run json_parse decode (start aborted) es) timeout)
          later).settled
        ≡ true
  run-timeout-settled aborted es later =
      let s = start-run-IsSound aborted es in
      let c = run json_parse decode (start aborted) es in
      (run-settled (step json_parse decode c timeout) later (step-IsSound c timeout s)
        (step-timeout c s)).0
